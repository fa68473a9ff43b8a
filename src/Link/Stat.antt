-- ===== src/Link/Stat.antt =====
-- `Link_set_file_stat` of src/link.c: what the answer to a HEAD request makes of a link. The
-- warnings do not change anything, and are left out.
pub mod Settling
mod Tests
use httpdirfs.Prelude.{ℕ, Bool, true, false, ◌&&◌, ◌||◌, ◌==◌, if◌then◌else◌}
use httpdirfs.Prelude.Int.{ℤ, pos, pos_part, ltb_ℤ, eqb_ℤ}
use httpdirfs.Link.Names.{
  LinkType, link_head, link_dir, link_file, link_invalid, link_uninitialised_file,
  link_uninitialised_dir,
}
use httpdirfs.Link.Download.{http_temp_failure}

-- the members of a link that are set
pub record Status : Type 0 where
  pub type' : LinkType
  pub content_length : ℕ
  pub time : ℤ

-- CURLINFO_RESPONSE_CODE, CURLINFO_CONTENT_LENGTH_DOWNLOAD_T and CURLINFO_FILETIME
pub record Info : Type 0 where
  pub response_code : ℕ
  pub content_length_download : ℤ
  pub filetime : ℤ

-- CONFIG.zero_len_is_dir and CONFIG.invalid_refresh
pub record Config : Type 0 where
  pub zero_len_is_dir : Bool
  pub invalid_refresh : Bool

unfoldable pub settle_file : Config → ℤ → Status → Status
settle_file config cl link =
    if ltb_ℤ cl (pos 0)
    then record link { type' = link_invalid }
    else if eqb_ℤ cl (pos 0) && config.zero_len_is_dir
    then record link { type' = link_dir }
    else record link { type' = link_file; content_length = pos_part cl }

unfoldable pub settle : Config → ℤ → LinkType → Status → Status
unfolding settle_file
settle config cl link_head link = link
settle config cl link_dir link = link
settle config cl link_file link = link
settle config cl link_invalid link = link
settle config cl link_uninitialised_file link = settle_file config cl link
settle config cl link_uninitialised_dir link = record link { type' = link_dir }

unfoldable pub link_set_file_stat : Config → Info → Status → Status
unfolding settle
link_set_file_stat config info link =
    if info.response_code == 200
    then settle config info.content_length_download link.type'
        (record link { time = info.filetime })
    else if http_temp_failure info.response_code || config.invalid_refresh
    then link
    else record link { type' = link_invalid }
