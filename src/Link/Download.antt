-- ===== src/Link/Download.antt =====
-- `Link_download` of src/link.c with `Link_download_cleanup`, and `HTTP_temp_failure` of
-- src/network.c. The server and curl are the parameter `server`: for the attempt, the first and
-- the last byte of the range it gives what `transfer_blocking` leaves in the curl handle and in
-- the two buffers. The parameter `others` is what the other threads do meanwhile to the list of
-- downloads.
pub mod Retrying
mod Tests
use httpdirfs.Prelude.{
  ℕ, zero, suc, ◌+◌, ◌-◌, ◌≤◌, List, [], ◌∷◌, Bool, true, false, ◌&&◌, ◌||◌, not, Option, none,
  some, ltb, leb, ◌==◌, if◌then◌else◌, length, take, min,
}
use httpdirfs.Prelude.Int.{ℤ, pos, negsuc, pos_part, ltb_ℤ, leb_ℤ, eqb_ℤ}
use httpdirfs.Prelude.Run.{Run, ok, fatal, fault, out_of_fuel, ◌>>=◌}
use httpdirfs.Link.Origin.{lower}
use httpdirfs.Cache.State.{Link}
use httpdirfs.Cache.Downloads.{Downloads}
use httpdirfs.Cache.Downloads.Transfer.{attach, finish_transfer}

-- what curl reports: the header, which is NULL if none came, the response code, CURLINFO_SIZE_DOWNLOAD_T and the data
pub record Response : Type 0 where
  pub header : Option (List ℕ)
  pub http_resp : ℕ
  pub size : ℤ
  pub body : List ℕ

unfoldable pub http_temp_failure : ℕ → Bool
http_temp_failure http_resp = http_resp == 429 || http_resp == 520 || http_resp == 524

-- the bytes `ps`, in lower case, at the start of `cs` in any case
unfoldable pub starts_with_nocase : List ℕ → List ℕ → Bool
unfolding lower
starts_with_nocase [] cs = true
starts_with_nocase (p ∷ ps) [] = false
starts_with_nocase (p ∷ ps) (c ∷ cs) = (lower c == p) && starts_with_nocase ps cs

-- strcasestr(s, needle) != NULL
unfoldable pub strcasestr : List ℕ → List ℕ → Bool
unfolding starts_with_nocase
strcasestr [] needle = starts_with_nocase needle []
strcasestr (c ∷ cs) needle = starts_with_nocase needle (c ∷ cs) || strcasestr cs needle

-- "-ranges: bytes" and "-range: bytes" behind "accept" and "content"
abbrev pub accept_ranges : List ℕ
accept_ranges =
    b'a' ∷ b'c' ∷ b'c' ∷ b'e' ∷ b'p' ∷ b't' ∷ b'-' ∷ b'r' ∷ b'a' ∷ b'n' ∷ b'g' ∷ b'e' ∷ b's' ∷ b':'
    ∷ b' ' ∷ b'b' ∷ b'y' ∷ b't' ∷ b'e' ∷ b's' ∷ []

abbrev pub content_range : List ℕ
content_range =
    b'c' ∷ b'o' ∷ b'n' ∷ b't' ∷ b'e' ∷ b'n' ∷ b't' ∷ b'-' ∷ b'r' ∷ b'a' ∷ b'n' ∷ b'g' ∷ b'e' ∷ b':'
    ∷ b' ' ∷ b'b' ∷ b'y' ∷ b't' ∷ b'e' ∷ b's' ∷ []

-- -EAGAIN and -ENOENT
abbrev pub minus_eagain : ℤ
minus_eagain = negsuc 10

abbrev pub minus_enoent : ℤ
minus_enoent = negsuc 1

unfoldable pub recv_size : Response → ℤ
unfolding http_temp_failure
recv_size r =
    if r.http_resp == 200 || r.http_resp == 206 || r.http_resp == 416
    then r.size
    else if http_temp_failure r.http_resp
    then minus_eagain
    else minus_enoent

-- The exit when the server has no range requests is `fatal`; the search in NULL is a fault.
unfoldable pub link_download_cleanup : Bool → Response → Run ℤ
unfolding strcasestr recv_size
link_download_cleanup true r = ok (recv_size r)
link_download_cleanup false r = elim r.header [
  | none ↦ fault
  | some header ↦
      if not (strcasestr header accept_ranges) && not (strcasestr header content_range)
      then fatal
      else ok (recv_size r)
]

-- the result, the bytes stored in `output_buf`, and the list of downloads of the cache
pub record Downloaded : Type 0 where
  pub count : ℤ
  pub buf : List ℕ
  pub cache : Option Downloads

unfoldable pub attach_cache : Option Downloads → ℤ → ℕ → Run (Option ℕ × Option Downloads)
attach_cache none offset ts = ok (none, none)
attach_cache (some cf) offset ts = attach cf offset ts >>= (λ p. ok (p.0, some p.1))

unfoldable pub finish_cache : Option Downloads → ℤ → ℕ → Option ℕ → Run (Option Downloads)
finish_cache none offset ts ad_ptr = ok none
finish_cache (some cf) offset ts ad_ptr =
    finish_transfer cf offset ts ad_ptr >>= (λ cf'. ok (some cf'))

-- what follows a transfer: `none` is another attempt
unfoldable pub judge : ℕ → Response → ℤ → Option (Run (ℤ × List ℕ))
judge req_size r recv =
    if ltb_ℤ recv (pos 0)
    then if eqb_ℤ recv minus_eagain then none else some (ok (recv, []))
    else if not (eqb_ℤ recv (pos req_size))
    then none
    else some (
        if ltb (length r.body) (pos_part recv)
        then fault
        else ok (recv, take (pos_part recv) r.body))

module _ (server : ℕ → ℕ → ℕ → Response) (others : ℕ → Option Downloads → Option Downloads)
    (no_range_check : Bool) (ts : ℕ) where
  -- one attempt: the verdict and the list of downloads
  unfoldable pub attempt_download :
      ℕ → ℕ → ℕ → Option Downloads → Run (Option (Run (ℤ × List ℕ)) × Option Downloads)
  unfolding link_download_cleanup attach_cache finish_cache judge
  attempt_download attempt req_size offset cache = attach_cache cache (pos offset) ts >>= (λ p.
      let r = server attempt offset (offset + req_size - 1) in
      link_download_cleanup no_range_check r >>= (λ recv.
        finish_cache (others attempt p.1) (pos offset) ts p.0
        >>= (λ cache'. ok (judge req_size r recv, cache'))))

  unfoldable pub download_loop : ℕ → ℕ → ℕ → ℕ → Option Downloads → Run Downloaded
  unfolding attempt_download
  download_loop zero attempt req_size offset cache = out_of_fuel
  download_loop (suc fuel) attempt req_size offset cache =
      attempt_download attempt req_size offset cache >>= (λ v.
        let rest = download_loop fuel (suc attempt) req_size offset v.1 in
        elim v.0 [
          | none ↦ rest
          | some m ↦ m >>= (λ c. ok (record { count = c.0; buf = c.1; cache = v.1 }))
        ])

  unfoldable pub link_download : ℕ → Link → ℕ → ℤ → Option Downloads → Run Downloaded
  unfolding download_loop
  link_download fuel link req_size offset cache =
      if req_size == 0
      then ok (record { count = pos 0; buf = []; cache = cache })
      else if link.content_length == 0
      then ok (record { count = pos 0; buf = []; cache = cache })
      else if ltb_ℤ offset (pos 0)
      then ok (record { count = pos 0; buf = []; cache = cache })
      else if leb_ℤ (pos link.content_length) offset
      then ok (record { count = pos 0; buf = []; cache = cache })
      else download_loop fuel 0 (min req_size (link.content_length - pos_part offset))
          (pos_part offset) cache
