-- ===== src/Link/Urls/Safety.antt =====
-- Names that come from foreign URLs, as parts of a path of the file system.
use httpdirfs.Prelude.{
  ℕ, ◌≡◌, refl, List, [], ◌∷◌, Bool, true, false, ◌&&◌, ◌||◌, Option, none, some, ◌==◌, take, map,
  has, arith, Bool-cases, inl, inr,
}
use httpdirfs.Prelude.Run.{ok}
use httpdirfs.Link.Origin.{is_cross_origin, query_start}
use httpdirfs.Link.Urls.{
  behind_origin, behind_last_slash, strip_slash, last_part, no_slash, decoded_name,
  path_to_filename, external_url_to_filename, replace_dots, no_separator, sanitize, unescaped,
  url_to_cache_path,
}

-- ".." somewhere
abbrev pub has_dots : List ℕ → Bool
has_dots [] = false
has_dots (x ∷ []) = false
has_dots (x ∷ y ∷ xs) = ((x == b'.') && (y == b'.')) || has_dots (y ∷ xs)

has-map-no_slash : (s : List ℕ) → has b'/' (map no_slash s) ≡ false
unfolding no_slash
has-map-no_slash [] = refl
has-map-no_slash (c ∷ cs) = ground (arith, has-map-no_slash cs)

has-behind_last_slash : (s : List ℕ) → has b'/' (behind_last_slash s) ≡ false
unfolding behind_last_slash
has-behind_last_slash [] = refl
has-behind_last_slash (c ∷ cs) = ground (arith, has-behind_last_slash cs)

has-decoded_name :
    (decoded : Option (List ℕ)) (name : List ℕ)
    → has b'/' name ≡ false
    → has b'/' (decoded_name decoded name) ≡ false
unfolding decoded_name
has-decoded_name none name h = h
has-decoded_name (some decoded) name h = has-map-no_slash decoded

has-path_to_filename :
    (unescape : List ℕ → Option (List ℕ)) (path : List ℕ)
    → has b'/' (path_to_filename unescape path) ≡ false
unfolding path_to_filename last_part
has-path_to_filename unescape [] = refl
has-path_to_filename unescape (c ∷ cs) =
    has-decoded_name (unescape (last_part (c ∷ cs))) (last_part (c ∷ cs))
      (has-behind_last_slash (strip_slash (take (query_start (c ∷ cs)) (c ∷ cs))))

-- Whatever the URL is and curl makes of it, the file name that `external_url_to_filename` takes
-- from it contains no slash.
pub has-external_url_to_filename :
    (unescape : List ℕ → Option (List ℕ)) (url : Option (List ℕ))
    → has b'/' (external_url_to_filename unescape url) ≡ false
unfolding external_url_to_filename
has-external_url_to_filename unescape none = refl
has-external_url_to_filename unescape (some url) =
    has-path_to_filename unescape (behind_origin url 0)

-- The replacement starts with a dot only if the string does.
replace_dots-head :
    (x y : ℕ) (xs : List ℕ)
    → (x == b'.') && (y == b'.') ≡ false
    → has_dots (replace_dots (y ∷ xs)) ≡ false
    → has_dots (x ∷ replace_dots (y ∷ xs)) ≡ false
unfolding replace_dots
replace_dots-head x y [] d h = ground (arith, d)
replace_dots-head x y (z ∷ xs) d h = ground (arith, d, h)

has_dots-underscore : (s : List ℕ) → has_dots s ≡ false → has_dots (b'_' ∷ b'_' ∷ s) ≡ false
has_dots-underscore [] h = refl
has_dots-underscore (x ∷ xs) h = ground (arith, h)

has_dots-replace_dots : (s : List ℕ) → has_dots (replace_dots s) ≡ false
unfolding replace_dots
has_dots-replace_dots [] = refl
has_dots-replace_dots (x ∷ []) = refl
has_dots-replace_dots (x ∷ y ∷ xs) =
    let replaced = has_dots-replace_dots xs in
    let rest = has_dots-replace_dots (y ∷ xs) in
    elim (Bool-cases ((x == b'.') && (y == b'.'))) [
      | inl e ↦ rw e (has_dots-underscore (replace_dots xs) replaced)
      | inr e ↦ rw e (replace_dots-head x y xs e rest)
    ]

has_dots-map : (s : List ℕ) → has_dots s ≡ false → has_dots (map no_separator s) ≡ false
unfolding no_separator
has_dots-map [] h = refl
has_dots-map (x ∷ []) h = refl
has_dots-map (x ∷ y ∷ xs) h = ground (arith, has_dots-map (y ∷ xs), h)

has-map-no_separator :
    (s : List ℕ) → (has b'/' (map no_separator s) ≡ false) × (has b':' (map no_separator s) ≡ false)
unfolding no_separator
has-map-no_separator [] = (refl, refl)
has-map-no_separator (x ∷ xs) = ground (arith, has-map-no_separator xs)

-- A path that stays in its directory.
abbrev pub IsContained : List ℕ → Type 0
IsContained s = (has b'/' s ≡ false) × (has b':' s ≡ false) × (has_dots s ≡ false)

sanitize-IsContained : (s : List ℕ) → IsContained (sanitize s)
unfolding sanitize
sanitize-IsContained s =
    let (slashes, colons) = has-map-no_separator (replace_dots s) in
    (slashes, colons, has_dots-map (replace_dots s) (has_dots-replace_dots s))

-- For a URL of another origin than the root's, `url_to_cache_path` returns a path without a slash,
-- a colon or two dots in a row, whatever curl makes of the URL: the files of its cache are in the
-- cache directory itself.
pub url_to_cache_path-IsContained :
    (unescape : List ℕ → Option (List ℕ)) (root url : List ℕ) (root_link_offset : ℕ)
    → is_cross_origin (some root) (some url) ≡ ok true
    → (path : List ℕ) × ((url_to_cache_path unescape (some root) root_link_offset (some url)
          ≡ ok (some path))
        × IsContained path)
unfolding url_to_cache_path
url_to_cache_path-IsContained unescape root url root_link_offset cross = (
  sanitize (unescaped unescape url),
  (rw (url_to_cache_path, cross) refl, sanitize-IsContained (unescaped unescape url)),
)
