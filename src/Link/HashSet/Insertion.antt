-- ===== src/Link/HashSet/Insertion.antt =====
-- Where names stand in the table, and what a write to an empty bucket keeps.
use Prim.Native.Nat.{bit_and}
use native.Mathlib.Decide.{ℕ_discrete}
use httpdirfs.Prelude.{
  ℕ, zero, suc, ◌≤◌, ◌<◌, ◌≡◌, refl, sym, ap, ◌∙◌, ◌⊎◌, inl, inr, List, [], ◌∷◌, ◌↔◌, Option, none,
  some, arith, get_elem?, set, length, get_elem?-set_self, get_elem?-set_ne,
}
use httpdirfs.Link.Names.{link_hash_str}
use httpdirfs.Link.HashSet.{Buckets}
use httpdirfs.Link.HashSet.Walk.{walk, Full}

-- The number of full buckets.
unfoldable pub occupied : Buckets → ℕ
occupied [] = 0
occupied (none ∷ bs) = occupied bs
occupied (some x ∷ bs) = suc (occupied bs)

-- A name is in the table.
abbrev pub Holds : Buckets → List ℕ → Type 0
Holds bs x = (i : ℕ) × (get_elem? bs i ≡ some (some x))

abbrev pub home : ℕ → List ℕ → ℕ
home mask x = bit_and (link_hash_str x) mask

-- Every name can be reached from the bucket of its hash over full buckets.
abbrev pub Placed : ℕ → Buckets → Type 0
Placed mask bs =
    (i : ℕ) (x : List ℕ)
    → get_elem? bs i ≡ some (some x)
    → (d : ℕ) × (walk mask d (home mask x) ≡ i)
      × ((c : ℕ) → c < d → Full bs (walk mask c (home mask x)))

pub occupied-le : (bs : Buckets) → occupied bs ≤ length bs
unfolding occupied
occupied-le [] = omega arith
occupied-le (none ∷ bs) = omega (arith, occupied-le bs)
occupied-le (some x ∷ bs) = omega (arith, occupied-le bs)

-- A table with fewer names than buckets has an empty bucket.
pub empty_bucket :
    (bs : Buckets)
    → occupied bs < length bs
    → (i : ℕ) × (i < length bs) × (get_elem? bs i ≡ some none)
unfolding occupied
empty_bucket [] h = absurd (omega arith)
empty_bucket (none ∷ bs) h = (0, omega arith, refl)
empty_bucket (some x ∷ bs) h =
    let (i, l, e) = empty_bucket bs (omega arith) in (suc i, omega arith, e)

pub occupied-set :
    (bs : Buckets) (j : ℕ) (x : List ℕ)
    → get_elem? bs j ≡ some none
    → occupied (set bs j (some x)) ≡ suc (occupied bs)
unfolding occupied
occupied-set [] j x e = cc
occupied-set (none ∷ bs) zero x e = refl
occupied-set (none ∷ bs) (suc j) x e = occupied-set bs j x e
occupied-set (some y ∷ bs) zero x e = cc
occupied-set (some y ∷ bs) (suc j) x e = ap suc (occupied-set bs j x e)

pub in_bounds :
    (bs : Buckets) (j : ℕ) (o : Option (List ℕ)) → get_elem? bs j ≡ some o → j < length bs
in_bounds [] j o e = cc
in_bounds (b ∷ bs) zero o e = omega arith
in_bounds (b ∷ bs) (suc j) o e = omega (arith, in_bounds bs j o e)

module _ (mask : ℕ) (bs : Buckets) (j : ℕ) (x : List ℕ) (vacant : get_elem? bs j ≡ some none) where
  -- What a bucket holds after the write.
  pub get-set-Full : (p : ℕ) → Full bs p → Full (set bs j (some x)) p
  get-set-Full p (y, e) = elim (ℕ_discrete j p) [
    | yes q ↦ (
      x,
      ap (get_elem? (set bs j (some x))) (sym q)
          ∙ get_elem?-set_self bs j (some x) (in_bounds bs j none vacant),
    )
    | no n ↦ (y, get_elem?-set_ne bs j p (some x) n ∙ e)
  ]

  -- The table holds what it held, and the new name.
  pub Holds-set : (y : List ℕ) → Holds (set bs j (some x)) y ↔ (Holds bs y ⊎ (y ≡ x))
  Holds-set y = (there, back)
    where
      there : Holds (set bs j (some x)) y → Holds bs y ⊎ (y ≡ x)
      there (i, e) = elim (ℕ_discrete j i) [
        | yes q ↦ inr (
            cc (
              get_elem?-set_self bs j (some x) (in_bounds bs j none vacant),
              ap (get_elem? (set bs j (some x))) q,
            ))
        | no n ↦ inl (i, sym (get_elem?-set_ne bs j i (some x) n) ∙ e)
      ]

      back : Holds bs y ⊎ (y ≡ x) → Holds (set bs j (some x)) y
      back (inl (i, e)) = elim (ℕ_discrete j i) [
        | yes q ↦ absurd (cc (ap (get_elem? bs) q))
        | no n ↦ (i, get_elem?-set_ne bs j i (some x) n ∙ e)
      ]
      back (inr q) = (
        j,
        get_elem?-set_self bs j (some x) (in_bounds bs j none vacant)
            ∙ ap (λ z. some (some z)) (sym q),
      )

  -- A name written where its probe met the first empty bucket is in place, and so are the others.
  pub set-Placed :
      (d : ℕ)
      → walk mask d (home mask x) ≡ j
      → ((c : ℕ) → c < d → Full bs (walk mask c (home mask x)))
      → Placed mask bs
      → Placed mask (set bs j (some x))
  set-Placed d reach before placed i y e = elim (ℕ_discrete j i) [
    | yes q ↦
        let same : x ≡ y = cc (
          get_elem?-set_self bs j (some x) (in_bounds bs j none vacant),
          ap (get_elem? (set bs j (some x))) q,
        ) in
        (
          d,
          ap (λ z. walk mask d (home mask z)) (sym same) ∙ reach ∙ q,
          λ c h. rw (← same) (get-set-Full (walk mask c (home mask x)) (before c h)),
        )
    | no n ↦
        let (d', r, f) = placed i y (sym (get_elem?-set_ne bs j i (some x) n) ∙ e) in
        (d', r, λ c h. get-set-Full (walk mask c (home mask y)) (f c h))
  ]
