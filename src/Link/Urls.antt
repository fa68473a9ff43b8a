-- ===== src/Link/Urls.antt =====
-- `external_url_to_filename`, `url_to_cache_path` and `make_link_relative` of src/link.c.
-- `curl_easy_unescape` is the parameter `unescape`: its result is a C string, or `none` for NULL.
pub mod Safety
pub mod Relative
mod Tests
use httpdirfs.Prelude.{
  ℕ, zero, suc, ◌+◌, ◌-◌, List, [], ◌∷◌, Bool, true, false, ◌&&◌, ◌||◌, not, Option, none, some,
  ltb, leb, ◌==◌, if◌then◌else◌, length, take, drop, map, get_or, has, str_eq,
}
use httpdirfs.Prelude.Run.{Run, ok, ◌>>=◌}
use httpdirfs.Util.Paths.{ends_with_slash}
use httpdirfs.Link.Origin.{is_cross_origin, query_start}

-- what stands behind the third slash
unfoldable pub behind_origin : List ℕ → ℕ → List ℕ
behind_origin [] slashes = []
behind_origin (c ∷ cs) slashes =
    let rest = behind_origin cs (if c == b'/' then suc slashes else slashes) in
    if ltb slashes 3 then rest else c ∷ cs

-- `strrchr(s, '/') + 1`, or `s`
unfoldable pub behind_last_slash : List ℕ → List ℕ
behind_last_slash [] = []
behind_last_slash (c ∷ cs) =
    let rest = behind_last_slash cs in
    if has b'/' cs then rest else if c == b'/' then cs else c ∷ cs

unfoldable pub strip_slash : List ℕ → List ℕ
strip_slash s = if ends_with_slash s then take (length s - 1) s else s

-- a byte that may not stand in a file name
unfoldable pub no_slash : ℕ → ℕ
no_slash c = if c == b'/' then b'_' else c

unfoldable pub last_part : List ℕ → List ℕ
unfolding strip_slash behind_last_slash
last_part p = behind_last_slash (strip_slash (take (query_start p) p))

-- what becomes of the name that was decoded, or not
unfoldable pub decoded_name : Option (List ℕ) → List ℕ → List ℕ
unfolding no_slash
decoded_name none filename = filename
decoded_name (some decoded) filename = map no_slash decoded

unfoldable pub path_to_filename : (List ℕ → Option (List ℕ)) → List ℕ → List ℕ
unfolding last_part decoded_name
path_to_filename unescape [] = []
path_to_filename unescape (c ∷ cs) =
    decoded_name (unescape (last_part (c ∷ cs))) (last_part (c ∷ cs))

unfoldable pub external_url_to_filename : (List ℕ → Option (List ℕ)) → Option (List ℕ) → List ℕ
unfolding behind_origin path_to_filename
external_url_to_filename unescape none = []
external_url_to_filename unescape (some url) = path_to_filename unescape (behind_origin url 0)

-- `while ((p = strstr(p, "..")))`
unfoldable pub replace_dots : List ℕ → List ℕ
replace_dots [] = []
replace_dots (x ∷ []) = x ∷ []
replace_dots (x ∷ y ∷ xs) =
    let replaced = replace_dots xs in
    let rest = replace_dots (y ∷ xs) in
    if (x == b'.') && (y == b'.') then b'_' ∷ b'_' ∷ replaced else x ∷ rest

unfoldable pub no_separator : ℕ → ℕ
no_separator c = if c == b'/' || c == b':' then b'_' else c

unfoldable pub sanitize : List ℕ → List ℕ
unfolding replace_dots no_separator
sanitize s = map no_separator (replace_dots s)

unfoldable pub unescaped : (List ℕ → Option (List ℕ)) → List ℕ → List ℕ
unescaped unescape s = elim (unescape s) [ none ↦ s | some t ↦ t ]

-- the path of a URL on the root server
unfoldable pub local_path : (List ℕ → Option (List ℕ)) → ℕ → List ℕ → List ℕ
unfolding unescaped
local_path unescape root_link_offset url =
    unescaped unescape
      (if leb root_link_offset (length url) then drop root_link_offset url else url)

-- `root` is the URL of ROOT_LINK_TBL, if there is one
unfoldable pub url_to_cache_path :
    (List ℕ → Option (List ℕ)) → Option (List ℕ) → ℕ → Option (List ℕ) → Run (Option (List ℕ))
unfolding sanitize local_path
url_to_cache_path unescape root root_link_offset none = ok none
url_to_cache_path unescape none root_link_offset (some url) =
    ok (some (local_path unescape root_link_offset url))
url_to_cache_path unescape (some root) root_link_offset (some url) =
    is_cross_origin (some root) (some url) >>= (λ cross.
      if cross
      then ok (some (sanitize (unescaped unescape url)))
      else ok (some (local_path unescape root_link_offset url)))

-- the walk of `make_link_relative` to the third slash: how many are left to find, and the rest
unfoldable pub third_slash : ℕ → List ℕ → ℕ × List ℕ
third_slash left [] = (left, [])
third_slash left (c ∷ cs) =
    let same = third_slash left cs in
    let fewer = third_slash (left - 1) cs in
    if c == b'/' then if left == 1 then (0, c ∷ cs) else fewer else same

-- `strstr(link_url, page_url) == link_url`, for a page URL that is not empty
unfoldable pub starts_with : List ℕ → List ℕ → Bool
starts_with [] link = true
starts_with (p ∷ ps) [] = false
starts_with (p ∷ ps) (c ∷ cs) = (p == c) && starts_with ps cs

-- The link behind the path of its page. The test of `page_url[skip_len]` looks at the NUL.
unfoldable pub skip_page : List ℕ → List ℕ → List ℕ
unfolding starts_with
skip_page page link =
    if not (starts_with page link)
    then link
    else if ends_with_slash page
    then drop (length page) link
    else if not (get_or page (length page) 0 == b'/')
    then link
    else drop (length page + 1) link

unfoldable pub make_link_relative : List ℕ → List ℕ → List ℕ
unfolding third_slash skip_page
make_link_relative page link =
    if (get_or link 0 0 == b'.') && (get_or link 1 0 == b'/')
    then drop 2 link
    else if not (get_or link 0 0 == b'/')
    then link
    else (let (left, rest) = third_slash 3 page in
        if left == 0
        then skip_page rest link
        else if (left == 1) && (length rest == 0)
        then skip_page (b'/' ∷ []) link
        else link)
