-- ===== src/Link/HashSet/Walk.antt =====
-- Linear probing visits every bucket: it ends at a stop or at the first empty bucket.
use Prim.Native.Nat.{bit_and}
use native.Mathlib.Nat.{mod-add-mod, mod-eq_of_lt, mod-eq-sub-mod, mod-lt}
use httpdirfs.Prelude.{
  ℕ, zero, suc, ◌+◌, ◌-◌, ◌%◌, ◌^◌, ◌≤◌, ◌<◌, ◌≡◌, refl, sym, ap, ◌∙◌, ◌⊎◌, inl, inr, List, Bool,
  true, false, Option, none, some, arith, get_elem?, length, Bool-cases, leb, leb→le, get_elem?_in,
}
use httpdirfs.Prelude.Masks.{bit_and_mask, pow-pos}
use httpdirfs.Prelude.Run.{Run, ok}
use httpdirfs.Link.HashSet.{Buckets, Probe, stopped, free, probe}

-- The bucket after `d` steps.
unfoldable pub walk : ℕ → ℕ → ℕ → ℕ
walk mask zero bucket = bucket
walk mask (suc d) bucket = walk mask d (bit_and (bucket + 1) mask)

walk-mod : (k d b : ℕ) → b < 2 ^ k → walk (2 ^ k - 1) d b ≡ (b + d) % 2 ^ k
unfolding walk
walk-mod k zero b h = sym (ap (λ x. x % 2 ^ k) (omega arith) ∙ mod-eq_of_lt h)
walk-mod k (suc d) b h = rw (bit_and_mask (b + 1) k) (
    walk-mod k d ((b + 1) % 2 ^ k) (mod-lt (b + 1) (omega (arith, pow-pos k)))
    ∙ mod-add-mod (b + 1) (2 ^ k) d
    ∙ ap (λ x. x % 2 ^ k) (omega arith))

pub walk-lt : (k d b : ℕ) → b < 2 ^ k → walk (2 ^ k - 1) d b < 2 ^ k
walk-lt k d b h = rw (walk-mod k d b h) (mod-lt (b + d) (omega (arith, pow-pos k)))

-- Every bucket is reached within one round.
pub walk-reaches :
    (k b i : ℕ) → b < 2 ^ k → i < 2 ^ k → (d : ℕ) × (d < 2 ^ k) × (walk (2 ^ k - 1) d b ≡ i)
walk-reaches k b i hb hi = elim (Bool-cases (leb b i)) [
  | inl t ↦
      let p : b ≤ i = leb→le b i t in
      (
        i - b,
        omega arith,
        walk-mod k (i - b) b hb ∙ ap (λ x. x % 2 ^ k) (omega arith) ∙ mod-eq_of_lt hi,
      )
  | inr f ↦
      let p : i < b = ground (arith, f) in
      (
        i + 2 ^ k - b,
        omega arith,
        walk-mod k (i + 2 ^ k - b) b hb
            ∙ ap (λ x. x % 2 ^ k) (omega arith)
            ∙ mod-eq-sub-mod {n = i + 2 ^ k} {m = 2 ^ k} (omega arith)
            ∙ ap (λ x. x % 2 ^ k) (omega arith)
            ∙ mod-eq_of_lt hi,
      )
]

-- A bucket that holds a name.
abbrev pub Full : Buckets → ℕ → Type 0
Full bs i = (x : List ℕ) × (get_elem? bs i ≡ some (some x))

-- Where a probe from `b` ended.
abbrev pub Ended : (List ℕ → Bool) → Buckets → ℕ → ℕ → Run Probe → Type 0
Ended stop bs mask b r =
    ((d : ℕ) × (x : List ℕ) × (get_elem? bs (walk mask d b) ≡ some (some x))
      × (stop x ≡ true)
      × (r ≡ ok stopped))
    ⊎ ((d : ℕ) × (get_elem? bs (walk mask d b) ≡ some none)
        × ((c : ℕ)
            → c < d
            → (x : List ℕ) × (get_elem? bs (walk mask c b) ≡ some (some x)) × (stop x ≡ false))
        × (r ≡ ok (free (walk mask d b))))

module _ (stop : List ℕ → Bool) (bs : Buckets) (k : ℕ) (wide : length bs ≡ 2 ^ k) where
  -- One full bucket more in front.
  Ended-later :
      (b : ℕ) (x : List ℕ) {r : Run Probe}
      → get_elem? bs b ≡ some (some x)
      → stop x ≡ false
      → Ended stop bs (2 ^ k - 1) (bit_and (b + 1) (2 ^ k - 1)) r
      → Ended stop bs (2 ^ k - 1) b r
  unfolding walk
  Ended-later b x at pass (inl (d, y, p, q, e)) = inl (suc d, y, p, q, e)
  Ended-later b x at pass (inr (d, p, before, e)) = inr (suc d, p, all, e)
    where
      all :
          (c : ℕ)
          → c < suc d
          → (y : List ℕ) × (get_elem? bs (walk (2 ^ k - 1) c b) ≡ some (some y)) × (stop y ≡ false)
      all zero h = (x, at, pass)
      all (suc c) h = before c (omega arith)

  -- One round of the loop.
  probe-step :
      (fuel b : ℕ) (o : Option (List ℕ))
      → get_elem? bs b ≡ some o
      → Ended stop bs
          (2 ^ k - 1)
          (bit_and (b + 1) (2 ^ k - 1))
          (probe stop fuel bs (2 ^ k - 1) (bit_and (b + 1) (2 ^ k - 1)))
      → Ended stop bs (2 ^ k - 1) b (probe stop (suc fuel) bs (2 ^ k - 1) b)
  unfolding probe walk
  probe-step fuel b none at ih = inr (0, at, (λ c h. absurd (omega arith)), rw (at, probe) refl)
  probe-step fuel b (some x) at ih = elim (Bool-cases (stop x)) [
    | inl t ↦ inl (0, x, at, t, rw (at, probe) (rw (t, probe) refl))
    | inr f ↦ rw (at, probe) (rw (f, probe) (Ended-later b x at f ih))
  ]

  -- With an empty bucket within reach of the fuel the probe ends.
  pub probe-Ended :
      (fuel b d : ℕ)
      → b < 2 ^ k
      → d < fuel
      → get_elem? bs (walk (2 ^ k - 1) d b) ≡ some none
      → Ended stop bs (2 ^ k - 1) b (probe stop fuel bs (2 ^ k - 1) b)
  unfolding walk
  probe-Ended zero b d hb hd e = absurd (omega arith)
  probe-Ended (suc fuel) b zero hb hd e =
      inr (0, e, (λ c h. absurd (omega arith)), unfold probe in rw (e, probe) refl)
  probe-Ended (suc fuel) b (suc d) hb hd e =
      let (o, at) = get_elem?_in bs b (omega arith) in
      probe-step fuel b o at
        (probe-Ended fuel (bit_and (b + 1) (2 ^ k - 1)) d (walk-lt k 1 b hb) (omega arith) e)
