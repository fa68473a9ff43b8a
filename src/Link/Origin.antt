-- ===== src/Link/Origin.antt =====
-- `is_external_url`, `parse_origin` and `is_cross_origin` of src/link.c. A URL is its bytes before
-- the NUL. An `int` overflow in the port is undefined behaviour, and a fault here.
pub mod Same
mod Tests
use httpdirfs.Prelude.{
  ℕ, zero, suc, ◌+◌, ◌-◌, ◌*◌, List, [], ◌∷◌, Bool, true, false, ◌&&◌, ◌||◌, not, Option, none,
  some, ltb, leb, ◌==◌, if◌then◌else◌, length, take, drop, map, str_eq,
}
use httpdirfs.Prelude.Run.{Run, ok, fault, ◌>>=◌}
use httpdirfs.Cache.State.{int_max}

-- `c += 32` for the letters from A to Z
unfoldable pub lower : ℕ → ℕ
lower c = if leb 65 c && leb c 90 then c + 32 else c

abbrev pub http : List ℕ
http = b'h' ∷ b't' ∷ b't' ∷ b'p' ∷ []

abbrev pub https : List ℕ
https = b'h' ∷ b't' ∷ b't' ∷ b'p' ∷ b's' ∷ []

abbrev pub http_url : List ℕ
http_url = b'h' ∷ b't' ∷ b't' ∷ b'p' ∷ b':' ∷ b'/' ∷ b'/' ∷ []

abbrev pub https_url : List ℕ
https_url = b'h' ∷ b't' ∷ b't' ∷ b'p' ∷ b's' ∷ b':' ∷ b'/' ∷ b'/' ∷ []

-- strncasecmp(url, prefix, n) == 0 for a prefix of n bytes in lower case
unfoldable pub has_prefix : List ℕ → List ℕ → Bool
unfolding lower
has_prefix url prefix = str_eq (map lower (take (length prefix) url)) prefix

unfoldable pub is_external_url : Option (List ℕ) → Bool
unfolding has_prefix
is_external_url none = false
is_external_url (some url) = has_prefix url http_url || has_prefix url https_url

-- the place of the first byte that is `c`
unfoldable pub find_byte : ℕ → List ℕ → Option ℕ
find_byte c [] = none
find_byte c (x ∷ xs) =
    let rest = find_byte c xs in
    if x == c then some 0 else elim rest [ none ↦ none | some i ↦ some (suc i) ]

-- the place of the first "://"
unfoldable pub scheme_end : List ℕ → Option ℕ
scheme_end [] = none
scheme_end (x ∷ []) = none
scheme_end (x ∷ y ∷ []) = none
scheme_end (x ∷ y ∷ z ∷ xs) =
    let rest = scheme_end (y ∷ z ∷ xs) in
    if (x == b':') && (y == b'/') && (z == b'/')
    then some 0
    else elim rest [ none ↦ none | some i ↦ some (suc i) ]

unfoldable pub parse_port : ℕ → List ℕ → Run (Option ℕ)
parse_port p_val [] = ok (some p_val)
parse_port p_val (c ∷ cs) =
    let rest = parse_port (p_val * 10 + (c - 48)) cs in
    if leb 48 c && leb c 57
    then if ltb int_max (p_val * 10 + (c - 48)) then fault else rest
    else ok none

pub record Origin : Type 0 where
  pub scheme : List ℕ
  pub host : List ℕ
  pub port : ℕ

-- the colon before the port: behind the bracket of an IPv6 address, if there is one
unfoldable pub port_colon : List ℕ → Option ℕ
unfolding find_byte
port_colon [] = none
port_colon (c ∷ cs) = elim (if c == b'[' then find_byte b']' (c ∷ cs) else none) [
  | none ↦ find_byte b':' (c ∷ cs)
  | some b ↦ elim (find_byte b':' (drop (suc b) (c ∷ cs))) [
    | none ↦ none
    | some i ↦ some (suc b + i)
  ]
]

unfoldable pub default_port : List ℕ → ℕ
default_port scheme = if str_eq scheme http then 80 else if str_eq scheme https then 443 else 0

-- the host, the first `n` bytes of the host part, in lower case
unfoldable pub finish_origin : ℕ → List ℕ → List ℕ → ℕ → ℕ → Option Origin
unfolding lower
finish_origin host_max scheme host_part n port =
    if leb host_max n
    then none
    else some (record { scheme = scheme; host = map lower (take n host_part); port = port })

unfoldable pub parse_host : ℕ → List ℕ → List ℕ → Run (Option Origin)
unfolding port_colon default_port finish_origin parse_port
parse_host host_max scheme host_part = elim (port_colon host_part) [
  | none ↦ ok (finish_origin host_max scheme host_part (length host_part) (default_port scheme))
  | some n ↦ parse_port 0 (drop (suc n) host_part) >>= (λ p. elim p [
    | none ↦ ok none
    | some port ↦ ok (finish_origin host_max scheme host_part n port)
  ])
]

-- `none` is the result -1
unfoldable pub parse_origin : List ℕ → ℕ → ℕ → ℕ → Run (Option Origin)
unfolding scheme_end lower parse_host
parse_origin url origin_len scheme_max host_max =
    if origin_len == 0 then ok none else elim (scheme_end (take origin_len url)) [
      | none ↦ ok none
      | some n ↦
          if leb scheme_max n
          then ok none
          else if leb (length (take origin_len url)) (n + 3)
          then ok none
          else parse_host host_max (map lower (take n url)) (drop (n + 3) (take origin_len url))
    ]

-- the number of slashes met and the place where the walk stops
unfoldable pub slash_loop : List ℕ → ℕ → ℕ → ℕ × ℕ
slash_loop [] slashes p = (slashes, p)
slash_loop (c ∷ cs) slashes p =
    let rest = slash_loop cs (if c == b'/' then suc slashes else slashes) (suc p) in
    if ltb slashes 3 && not (c == b'?') && not (c == b'#') then rest else (slashes, p)

-- strpbrk(url, "?#"), or the length
unfoldable pub query_start : List ℕ → ℕ
query_start [] = 0
query_start (c ∷ cs) =
    let rest = query_start cs in if (c == b'?') || (c == b'#') then 0 else suc rest

-- `none` is the early return of a malformed URL
unfoldable pub origin_length : List ℕ → Option ℕ
unfolding slash_loop query_start is_external_url
origin_length url =
    let (slashes, p) = slash_loop url 0 0 in
    if ltb slashes 3
    then if is_external_url (some url) then some (query_start url) else none
    else some (p - 1)

unfoldable pub str_eq_origin : Origin → Origin → Bool
str_eq_origin a b = str_eq a.scheme b.scheme && str_eq a.host b.host && (a.port == b.port)

-- the buffers are of 32 and PATH_MAX bytes
unfoldable pub cross_lengths : List ℕ → ℕ → List ℕ → ℕ → Run Bool
unfolding parse_origin str_eq_origin
cross_lengths page_url page_len link_url link_len =
    parse_origin page_url page_len 32 4096 >>= (λ page. elim page [
      | none ↦ ok true
      | some p ↦
          parse_origin link_url link_len 32 4096
          >>= (λ link. elim link [ none ↦ ok true | some l ↦ ok (not (str_eq_origin p l)) ])
    ])

unfoldable pub is_cross_origin : Option (List ℕ) → Option (List ℕ) → Run Bool
unfolding origin_length cross_lengths
is_cross_origin none link_url = ok true
is_cross_origin (some page_url) none = ok true
is_cross_origin (some page_url) (some link_url) = elim (origin_length page_url) [
  | none ↦ ok true
  | some page_len ↦ elim (origin_length link_url) [
    | none ↦ ok true
    | some link_len ↦ cross_lengths page_url page_len link_url link_len
  ]
]
