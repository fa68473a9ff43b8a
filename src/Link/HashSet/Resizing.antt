-- ===== src/Link/HashSet/Resizing.antt =====
-- `LinkHashSet_resize` keeps every name, in a table that is well formed again.
use native.Mathlib.Nat.{mod-lt, pow-suc}
use httpdirfs.Prelude.{
  ℕ, zero, suc, ◌+◌, ◌-◌, ◌*◌, ◌/◌, ◌^◌, ◌≤◌, ◌<◌, ◌≡◌, refl, sym, ap, ◌∙◌, ◌⊎◌, inl, inr, List, [],
  ◌∷◌, ◌↔◌, Bool, false, Option, none, some, arith, get_elem?, set, length, length-set, replicate,
  length-replicate, gt→leb, ge→ltb,
}
use httpdirfs.Prelude.Masks.{bit_and_mask, pow-pos}
use httpdirfs.Prelude.Run.{ok, ◌>>=◌, Returns}
use httpdirfs.Link.Names.{link_hash_str}
use httpdirfs.Link.HashSet.{
  Buckets, probe, store, reinsert, LinkHashSet, link_hash_set_resize, int_max,
}
use httpdirfs.Link.HashSet.Walk.{walk, walk-reaches, Ended, probe-Ended}
use httpdirfs.Link.HashSet.Insertion.{
  occupied, Holds, home, Placed, occupied-le, empty_bucket, occupied-set, Holds-set, set-Placed,
}

pub home-lt : (k : ℕ) (x : List ℕ) → home (2 ^ k - 1) x < 2 ^ k
home-lt k x =
    rw (bit_and_mask (link_hash_str x) k) (mod-lt (link_hash_str x) (omega (arith, pow-pos k)))

-- A table with room gives the probe for any name an end.
pub probe-home :
    (stop : List ℕ → Bool) (k : ℕ) (bs : Buckets) (x : List ℕ)
    → length bs ≡ 2 ^ k
    → occupied bs < 2 ^ k
    → Ended stop bs
        (2 ^ k - 1)
        (home (2 ^ k - 1) x)
        (probe stop (length bs) bs (2 ^ k - 1) (home (2 ^ k - 1) x))
probe-home stop k bs x wide room =
    let (i, l, e) = empty_bucket bs (omega arith) in
    let (d, h, r) = walk-reaches k (home (2 ^ k - 1) x) i (home-lt k x) (omega arith) in
    probe-Ended stop bs k wide (length bs) (home (2 ^ k - 1) x) d (home-lt k x) (omega arith)
      (ap (get_elem? bs) r ∙ e)

-- The table `r` is well formed and holds the names of both `old` and `fresh`.
pub record Rebuilt (k : ℕ) (old fresh r : Buckets) : Type 0 where
  pub wide : length r ≡ 2 ^ k
  pub placed : Placed (2 ^ k - 1) r
  pub count : occupied r ≡ occupied fresh + occupied old
  pub holds : (x : List ℕ) → Holds r x ↔ (Holds fresh x ⊎ Holds old x)

Holds-skip : (old : Buckets) (x : List ℕ) → Holds (none ∷ old) x → Holds old x
Holds-skip old x (zero, e) = cc
Holds-skip old x (suc i, e) = (i, e)

Holds-cons : (old : Buckets) (y x : List ℕ) → Holds (some y ∷ old) x → Holds old x ⊎ (x ≡ y)
Holds-cons old y x (zero, e) = inr (cc)
Holds-cons old y x (suc i, e) = inl (i, e)

module _ (k : ℕ) (x : List ℕ) (old fresh : Buckets) where
  -- The names after one more was moved over.
  Rebuilt-step :
      (j : ℕ) (r : Buckets)
      → get_elem? fresh j ≡ some none
      → Rebuilt k old (set fresh j (some x)) r
      → Rebuilt k (some x ∷ old) fresh r
  unfolding occupied
  Rebuilt-step j r vacant t = record {
    wide = t.wide;
    placed = t.placed;
    count = omega (arith, t.count, occupied-set fresh j x vacant);
    holds = λ y. (there y, back y);
  }
    where
      moved :
          (y : List ℕ)
          → Holds (set fresh j (some x)) y ⊎ Holds old y
          → Holds fresh y ⊎ Holds (some x ∷ old) y
      moved y (inr (i, e)) = inr (suc i, e)
      moved y (inl h) = elim ((Holds-set 0 fresh j x vacant y).0 h) [
        | inl p ↦ inl p
        | inr q ↦ inr (0, ap (λ z. some (some z)) (sym q))
      ]

      there : (y : List ℕ) → Holds r y → Holds fresh y ⊎ Holds (some x ∷ old) y
      there y h = moved y ((t.holds y).0 h)

      back : (y : List ℕ) → Holds fresh y ⊎ Holds (some x ∷ old) y → Holds r y
      back y (inl h) = (t.holds y).1 (inl ((Holds-set 0 fresh j x vacant y).1 (inl h)))
      back y (inr h) = elim (Holds-cons old x y h) [
        | inl p ↦ (t.holds y).1 (inr p)
        | inr q ↦ (t.holds y).1 (inl ((Holds-set 0 fresh j x vacant y).1 (inr q)))
      ]

  reinsert-step :
      occupied fresh + occupied (some x ∷ old) < 2 ^ k
      → Placed (2 ^ k - 1) fresh
      → length fresh ≡ 2 ^ k
      → ((next : Buckets)
          → length next ≡ 2 ^ k
          → Placed (2 ^ k - 1) next
          → occupied next + occupied old < 2 ^ k
          → Returns (reinsert old next (2 ^ k - 1)) (Rebuilt k old next))
      → Ended
          (λ y. false)
          fresh
          (2 ^ k - 1)
          (home (2 ^ k - 1) x)
          (probe (λ y. false) (length fresh) fresh (2 ^ k - 1) (home (2 ^ k - 1) x))
      → Returns (reinsert (some x ∷ old) fresh (2 ^ k - 1)) (Rebuilt k (some x ∷ old) fresh)
  unfolding occupied
  reinsert-step room placed wide ih (inl (d, y, at, t, e)) = cc
  reinsert-step room placed wide ih (inr (d, vacant, before, e)) =
      let j : ℕ = walk (2 ^ k - 1) d (home (2 ^ k - 1) x) in
      let (r, run, t) =
        ih (set fresh j (some x)) (length-set fresh j (some x) ∙ wide)
          (set-Placed (2 ^ k - 1) fresh j x vacant d refl (λ c h. ((before c h).0, (before c h).1))
            placed)
          (omega (arith, occupied-set fresh j x vacant)) in
      (r, (unfold reinsert store in rw (e, ◌>>=◌) run), Rebuilt-step j r vacant t)

Holds-nothing : (fresh : Buckets) (x : List ℕ) → Holds fresh x ⊎ Holds [] x → Holds fresh x
Holds-nothing fresh x (inl h) = h
Holds-nothing fresh x (inr (i, e)) = cc

-- An empty bucket in front of the old ones changes nothing.
Rebuilt-skip :
    (k : ℕ) (old fresh r : Buckets) → Rebuilt k old fresh r → Rebuilt k (none ∷ old) fresh r
unfolding occupied
Rebuilt-skip k old fresh r t = record {
  wide = t.wide;
  placed = t.placed;
  count = t.count;
  holds = λ x. (there x, back x);
}
  where
    there : (x : List ℕ) → Holds r x → Holds fresh x ⊎ Holds (none ∷ old) x
    there x h = elim ((t.holds x).0 h) [ inl p ↦ inl p | inr (i, e) ↦ inr (suc i, e) ]

    back : (x : List ℕ) → Holds fresh x ⊎ Holds (none ∷ old) x → Holds r x
    back x (inl h) = (t.holds x).1 (inl h)
    back x (inr h) = (t.holds x).1 (inr (Holds-skip old x h))

-- The loop over the old buckets ends, with all names moved.
reinsert-Rebuilt :
    (k : ℕ) (old fresh : Buckets)
    → length fresh ≡ 2 ^ k
    → Placed (2 ^ k - 1) fresh
    → occupied fresh + occupied old < 2 ^ k
    → Returns (reinsert old fresh (2 ^ k - 1)) (Rebuilt k old fresh)
unfolding occupied reinsert
reinsert-Rebuilt k [] fresh wide placed room = (
  fresh,
  refl,
  record {
    wide = wide;
    placed = placed;
    count = omega arith;
    holds = λ x. (inl, Holds-nothing fresh x);
  },
)
reinsert-Rebuilt k (none ∷ old) fresh wide placed room =
    let (r, run, t) = reinsert-Rebuilt k old fresh wide placed room in
    (r, run, Rebuilt-skip k old fresh r t)
reinsert-Rebuilt k (some x ∷ old) fresh wide placed room =
    reinsert-step k x old fresh room placed wide (reinsert-Rebuilt k old)
      (probe-home (λ y. false) k fresh x wide (omega arith))

pub get-replicate :
    (n i : ℕ) (x : List ℕ)
    → get_elem? {A = Option (List ℕ)} (replicate n none) i ≡ some (some x)
    → ⊥
get-replicate zero i x e = cc
get-replicate (suc n) zero x e = cc
get-replicate (suc n) (suc i) x e = get-replicate n i x e

occupied-replicate : (n : ℕ) → occupied (replicate n none) ≡ 0
unfolding occupied
occupied-replicate zero = refl
occupied-replicate (suc n) = occupied-replicate n

-- A set as the code keeps it: 2^k buckets, as many names as `size` says, each in place.
pub record IsValid (s : LinkHashSet) : Type 0 where
  pub power : ℕ
  pub capacity : s.capacity ≡ 2 ^ power
  pub wide : length s.buckets ≡ 2 ^ power
  pub size : s.size ≡ occupied s.buckets
  pub placed : Placed (2 ^ power - 1) s.buckets

pub replicate-Placed : (mask n : ℕ) → Placed mask (replicate n none)
replicate-Placed mask n i x e = absurd (get-replicate n i x e)

pub replicate-IsValid :
    (k : ℕ) → IsValid (record { buckets = replicate (2 ^ k) none; capacity = 2 ^ k; size = 0 })
replicate-IsValid k = record {
  power = k;
  capacity = refl;
  wide = length-replicate (2 ^ k) none;
  size = sym (occupied-replicate (2 ^ k));
  placed = replicate-Placed (2 ^ k - 1) (2 ^ k);
}

-- What a resize leaves: twice the buckets and the same names.
pub record Resized (s r : LinkHashSet) : Type 0 where
  pub valid : IsValid r
  pub doubled : r.capacity ≡ s.capacity * 2
  pub size : r.size ≡ s.size
  pub holds : (x : List ℕ) → Holds r.buckets x ↔ Holds s.buckets x

double : (k : ℕ) → 2 ^ k * 2 ≡ 2 ^ suc k
double k = sym (pow-suc 2 k)

-- The branch of the resize that moves the names.
resize-run :
    (s : LinkHashSet) (n : ℕ) (r : Buckets)
    → s.capacity * 2 ≡ n
    → 1 ≤ s.capacity
    → s.capacity ≤ int_max / 2
    → reinsert s.buckets (replicate n none) (n - 1) ≡ ok r
    → link_hash_set_resize s ≡ ok (record { buckets = r; capacity = s.capacity * 2; size = s.size })
unfolding link_hash_set_resize
resize-run s n r e low high run =
    let run' : reinsert s.buckets (replicate (s.capacity * 2) none) (s.capacity * 2 - 1) ≡ ok r =
      rw e run in
    rw (gt→leb s.capacity 0 low, ge→ltb (int_max / 2) s.capacity high, run') refl

Rebuilt-Holds :
    (k n : ℕ) (old r : Buckets) (x : List ℕ)
    → Rebuilt k old (replicate n none) r
    → Holds r x ↔ Holds old x
Rebuilt-Holds k n old r x t = (there, λ h. (t.holds x).1 (inr h))
  where
    there : Holds r x → Holds old x
    there h = elim ((t.holds x).0 h) [ inl (i, e) ↦ absurd (get-replicate n i x e) | inr p ↦ p ]

-- A well-formed set that can still be doubled is resized, with the same names, and no loop of the
-- resize runs on.
pub link_hash_set_resize-Resized :
    (s : LinkHashSet)
    → IsValid s
    → s.capacity ≤ int_max / 2
    → Returns (link_hash_set_resize s) (Resized s)
unfolding link_hash_set_resize
link_hash_set_resize-Resized s v small =
    let start : Buckets = replicate (2 ^ suc v.power) none in
    let empty = occupied-replicate (2 ^ suc v.power) in
    let (r, run, t) =
      reinsert-Rebuilt (suc v.power) s.buckets start (length-replicate (2 ^ suc v.power) none)
        (replicate-Placed (2 ^ suc v.power - 1) (2 ^ suc v.power))
        (omega (arith, empty, occupied-le s.buckets, v.wide, double v.power, pow-pos v.power)) in
    (
      record { buckets = r; capacity = s.capacity * 2; size = s.size },
      resize-run s (2 ^ suc v.power) r (omega (arith, v.capacity, double v.power))
          (omega (arith, v.capacity, pow-pos v.power)) small run,
      record {
        valid = record {
          power = suc v.power;
          capacity = omega (arith, v.capacity, double v.power);
          wide = t.wide;
          size = omega (arith, v.size, t.count, empty);
          placed = t.placed;
        };
        doubled = refl;
        size = refl;
        holds = λ x. Rebuilt-Holds (suc v.power) (2 ^ suc v.power) s.buckets r x t;
      },
    )
