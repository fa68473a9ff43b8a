-- ===== src/Link/Urls/Tests.antt =====
-- A few links and URLs; `unescape` gives its argument back.
use httpdirfs.Prelude.{
  ℕ, ◌≡◌, refl, List, [], ◌∷◌, ◌++◌, true, false, Option, some, has, if◌then◌else◌,
}
use httpdirfs.Prelude.Run.{ok}
use httpdirfs.Util.Paths.{ends_with_slash}
use httpdirfs.Link.Origin.{
  lower, http_url, has_prefix, is_external_url, find_byte, scheme_end, parse_port, port_colon,
  default_port, finish_origin, parse_host, parse_origin, slash_loop, query_start, origin_length,
  str_eq_origin, cross_lengths, is_cross_origin,
}
use httpdirfs.Link.Urls.{
  behind_origin, behind_last_slash, strip_slash, last_part, no_slash, decoded_name,
  path_to_filename, external_url_to_filename, replace_dots, no_separator, sanitize, unescaped,
  local_path, url_to_cache_path, third_slash, starts_with, skip_page, make_link_relative,
}
use httpdirfs.Link.Urls.Safety.{
  IsContained, has-external_url_to_filename, url_to_cache_path-IsContained,
}
use httpdirfs.Link.Urls.Relative.{make_link_relative-below}

program : Unit {0}
unfolding lower has_prefix is_external_url find_byte scheme_end parse_port port_colon default_port
    finish_origin parse_host parse_origin slash_loop query_start origin_length str_eq_origin
    cross_lengths is_cross_origin
program = record {}

rewriting : Unit {0}
unfolding query_start ends_with_slash behind_origin behind_last_slash strip_slash last_part no_slash
    decoded_name path_to_filename external_url_to_filename replace_dots no_separator sanitize
    unescaped local_path url_to_cache_path third_slash starts_with skip_page make_link_relative
rewriting = record {}

abbrev plain : List ℕ → Option (List ℕ)
plain s = some s

-- http://a/
abbrev root : List ℕ
root = http_url ++ (b'a' ∷ b'/' ∷ [])

-- http://b/../c:d/?e
abbrev foreign : List ℕ
foreign =
    http_url ++ (b'b' ∷ b'/' ∷ b'.' ∷ b'.' ∷ b'/' ∷ b'c' ∷ b':' ∷ b'd' ∷ b'/' ∷ b'?' ∷ b'e' ∷ [])

filename : external_url_to_filename plain (some foreign) ≡ b'c' ∷ b':' ∷ b'd' ∷ []
unfolding rewriting
filename = refl

foreign_cross : is_cross_origin (some root) (some foreign) ≡ ok true
unfolding program
foreign_cross = refl

-- "./x" on any page, and "/d/x" on the page http://a/d/
dot_slash : make_link_relative root (b'.' ∷ b'/' ∷ b'x' ∷ []) ≡ b'x' ∷ []
unfolding rewriting
dot_slash = refl

has-external_url_to_filename_example :
    has b'/' (external_url_to_filename plain (some foreign)) ≡ false
has-external_url_to_filename_example = has-external_url_to_filename plain (some foreign)

url_to_cache_path-IsContained_example :
    (path : List ℕ) × ((url_to_cache_path plain (some root) 9 (some foreign) ≡ ok (some path))
      × IsContained path)
url_to_cache_path-IsContained_example =
    url_to_cache_path-IsContained plain root foreign 9 foreign_cross

make_link_relative-below_example :
    make_link_relative
      (http_url ++ (b'a' ∷ b'/' ∷ b'd' ∷ b'/' ∷ []))
      (b'/' ∷ b'd' ∷ b'/' ∷ b'x' ∷ [])
    ≡ (if ends_with_slash (b'/' ∷ b'd' ∷ b'/' ∷ [])
        then b'x' ∷ []
        else b'/' ∷ b'd' ∷ b'/' ∷ b'x' ∷ [])
make_link_relative-below_example =
    make_link_relative-below (http_url ++ (b'a' ∷ [])) (b'd' ∷ b'/' ∷ []) (b'x' ∷ []) refl
