-- ===== src/Link/Origin/Same.antt =====
-- The origin of a URL, and when two URLs have the same one.
use httpdirfs.Prelude.{
  ℕ, ◌≡◌, refl, sym, ap, ◌∙◌, ◌↔◌, List, Bool, true, false, not, Option, none, some, str_eq_sound,
  str_eq_self, arith, Option-cases, inl, inr, ==_self,
}
use httpdirfs.Prelude.Run.{Run, ok, fatal, fault, out_of_fuel, ◌>>=◌, ok-injective, value_or}
use httpdirfs.Link.Origin.{
  Origin, origin_length, parse_origin, str_eq_origin, cross_lengths, is_cross_origin,
}

-- The origin that `is_cross_origin` compares.
abbrev pub origin_of : List ℕ → Run (Option Origin)
origin_of url = elim (origin_length url) [ none ↦ ok none | some n ↦ parse_origin url n 32 4096 ]

origin_at :
    (url : List ℕ) (n : ℕ) → origin_length url ≡ some n → origin_of url ≡ parse_origin url n 32 4096
origin_at url n e = rw (origin_of, e) refl

no_origin : (url : List ℕ) → origin_length url ≡ none → origin_of url ≡ ok none
no_origin url e = rw (origin_of, e) refl

str_eq_origin_sound : (a b : Origin) → str_eq_origin a b ≡ true → a ≡ b
unfolding str_eq_origin
str_eq_origin_sound a b h =
    let schemes : a.scheme ≡ b.scheme = str_eq_sound a.scheme b.scheme (ground (arith, h)) in
    let hosts : a.host ≡ b.host = str_eq_sound a.host b.host (ground (arith, h)) in
    let ports : a.port ≡ b.port = ground (arith, h) in
    ap (λ s. record { scheme = s; host = a.host; port = a.port }) schemes
    ∙ ap (λ s. record { scheme = b.scheme; host = s; port = a.port }) hosts
    ∙ ap (λ s. record { scheme = b.scheme; host = b.host; port = s }) ports

str_eq_origin_self : (a : Origin) → str_eq_origin a a ≡ true
unfolding str_eq_origin
str_eq_origin_self a = rw (str_eq_self a.scheme, str_eq_self a.host, ==_self a.port) refl

-- the comparison of two parsed origins
compare_origins : Run (Option Origin) → Run (Option Origin) → Run Bool
compare_origins page link = page >>= (λ p. elim p [
  | none ↦ ok true
  | some p ↦ link >>= (λ l. elim l [ none ↦ ok true | some l ↦ ok (not (str_eq_origin p l)) ])
])

-- the URLs of a result 0
compare_origins-Same :
    (page link : Run (Option Origin))
    → compare_origins page link ≡ ok false
    → (o : Origin) × ((page ≡ ok (some o)) × (link ≡ ok (some o)))
unfolding compare_origins
compare_origins-Same (ok (some p)) (ok (some l)) h =
    let same : p ≡ l = str_eq_origin_sound p l (ground (arith, ap (value_or true) h)) in
    (p, (refl, ap (λ o. ok (some o)) (sym same)))
compare_origins-Same (ok (some p)) (ok none) h = absurd cc
compare_origins-Same (ok (some p)) fatal h = absurd cc
compare_origins-Same (ok (some p)) fault h = absurd cc
compare_origins-Same (ok (some p)) out_of_fuel h = absurd cc
compare_origins-Same (ok none) link h = absurd cc
compare_origins-Same fatal link h = absurd cc
compare_origins-Same fault link h = absurd cc
compare_origins-Same out_of_fuel link h = absurd cc

module _ (a b : List ℕ) where
  both_lengths :
      (m n : ℕ)
      → origin_length a ≡ some m
      → origin_length b ≡ some n
      → is_cross_origin (some a) (some b) ≡ compare_origins (origin_of a) (origin_of b)
  unfolding is_cross_origin cross_lengths compare_origins
  both_lengths m n e f =
      let crossed : is_cross_origin (some a) (some b) ≡ cross_lengths a m b n =
        rw (is_cross_origin, e, f) refl in
      crossed
      ∙ ap (λ x. compare_origins x (parse_origin b n 32 4096)) (sym (origin_at a m e))
      ∙ ap (compare_origins (origin_of a)) (sym (origin_at b n f))

  no_page_length :
      origin_length a ≡ none
      → (is_cross_origin (some a) (some b) ≡ ok true) × (origin_of a ≡ ok none)
  unfolding is_cross_origin
  no_page_length e = (rw (is_cross_origin, e) refl, no_origin a e)

  no_link_length :
      (m : ℕ)
      → origin_length a ≡ some m
      → origin_length b ≡ none
      → (is_cross_origin (some a) (some b) ≡ ok true) × (origin_of b ≡ ok none)
  unfolding is_cross_origin
  no_link_length m e f = (rw (is_cross_origin, e, f) refl, no_origin b f)

  same_origins :
      is_cross_origin (some a) (some b) ≡ ok false
      → (o : Origin) × ((origin_of a ≡ ok (some o)) × (origin_of b ≡ ok (some o)))
  same_origins h = elim (Option-cases (origin_length a)) [
    | inl e ↦ let t = (no_page_length e).0 in absurd cc
    | inr (m, e) ↦ elim (Option-cases (origin_length b)) [
      | inl f ↦ let t = (no_link_length m e f).0 in absurd cc
      | inr (n, f) ↦
          compare_origins-Same (origin_of a) (origin_of b) (sym (both_lengths m n e f) ∙ h)
    ]
  ]

  not_cross :
      (o : Origin)
      → origin_of a ≡ ok (some o)
      → origin_of b ≡ ok (some o)
      → is_cross_origin (some a) (some b) ≡ ok false
  unfolding compare_origins
  not_cross o p q = elim (Option-cases (origin_length a)) [
    | inl e ↦
        let t = (no_page_length e).1 in
        let clash : none ≡ some o = ok-injective none (some o) (sym t ∙ p) in absurd cc
    | inr (m, e) ↦ elim (Option-cases (origin_length b)) [
      | inl f ↦
          let t = (no_link_length m e f).1 in
          let clash : none ≡ some o = ok-injective none (some o) (sym t ∙ q) in absurd cc
      | inr (n, f) ↦
          both_lengths m n e f
          ∙ ap (λ x. compare_origins x (origin_of b)) p
          ∙ ap (compare_origins (ok (some o))) q
          ∙ ap (λ t. ok (not t)) (str_eq_origin_self o)
    ]
  ]

-- Two URLs have the same origin for `is_cross_origin` exactly if both have an origin that
-- `parse_origin` accepts, with equal scheme, host and port.
pub is_cross_origin_iff :
    (a b : List ℕ)
    → is_cross_origin (some a) (some b) ≡ ok false
      ↔ ((o : Origin) × ((origin_of a ≡ ok (some o)) × (origin_of b ≡ ok (some o))))
is_cross_origin_iff a b = (same_origins a b, λ (o, (p, q)). not_cross a b o p q)
