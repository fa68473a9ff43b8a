-- ===== src/Link/Origin/Tests.antt =====
-- Origins of a few URLs, and a port that does not fit an `int`.
use httpdirfs.Prelude.{ℕ, ◌≡◌, refl, List, [], ◌∷◌, ◌++◌, true, false, some, ◌↔◌}
use httpdirfs.Prelude.Run.{ok, fault}
use httpdirfs.Link.Origin.{
  Origin, lower, http_url, https_url, has_prefix, is_external_url, find_byte, scheme_end,
  parse_port, port_colon, default_port, finish_origin, parse_host, parse_origin, slash_loop,
  query_start, origin_length, str_eq_origin, cross_lengths, is_cross_origin,
}
use httpdirfs.Link.Origin.Same.{origin_of, is_cross_origin_iff}

program : Unit {0}
unfolding lower has_prefix is_external_url find_byte scheme_end parse_port port_colon default_port
    finish_origin parse_host parse_origin slash_loop query_start origin_length str_eq_origin
    cross_lengths is_cross_origin
program = record {}

-- http://Ab/x
abbrev page : List ℕ
page = http_url ++ (b'A' ∷ b'b' ∷ b'/' ∷ b'x' ∷ [])

-- http://ab:80/y
abbrev link : List ℕ
link = http_url ++ (b'a' ∷ b'b' ∷ b':' ∷ b'8' ∷ b'0' ∷ b'/' ∷ b'y' ∷ [])

-- https://ab
abbrev secure : List ℕ
secure = https_url ++ (b'a' ∷ b'b' ∷ [])

-- http://a:9999999999/
abbrev far : List ℕ
far =
    http_url
    ++ (b'a' ∷ b':' ∷ b'9' ∷ b'9' ∷ b'9' ∷ b'9' ∷ b'9' ∷ b'9' ∷ b'9' ∷ b'9' ∷ b'9' ∷ b'9' ∷ b'/'
        ∷ [])

same : is_cross_origin (some page) (some link) ≡ ok false
unfolding program
same = refl

other : is_cross_origin (some page) (some secure) ≡ ok true
unfolding program
other = refl

port_overflow : is_cross_origin (some far) (some far) ≡ fault
unfolding program
port_overflow = refl

is_cross_origin_iff_example :
    is_cross_origin (some page) (some link) ≡ ok false
    ↔ ((o : Origin) × ((origin_of page ≡ ok (some o)) × (origin_of link ≡ ok (some o))))
is_cross_origin_iff_example = is_cross_origin_iff page link
