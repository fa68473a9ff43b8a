-- ===== src/Link/HashSet/Adding.antt =====
-- `LinkHashSet_new` and `LinkHashSet_add`: the set says of each name whether an equal one was there.
use mathlib.Core.Path.{subst}
use Prim.Native.Nat.{bit_and}
use native.Mathlib.Nat.{pow-suc, pow-le-pow_right}
use native.Mathlib.Decide.{dec_lt}
use httpdirfs.Prelude.{
  ℕ, zero, suc, ◌+◌, ◌-◌, ◌/◌, ◌^◌, ◌≤◌, ◌<◌, ◌≡◌, refl, sym, ap, ◌∙◌, ◌⊎◌, inl, inr, List, ◌↔◌,
  Bool, true, false, none, some, arith, get_elem?, set, length, length-set, ltb, leb, ◌&&◌,
  Bool-cases, ◌*◌, min, iff_trans, iff_or_left, gt→leb,
}
use httpdirfs.Prelude.Int.{ℤ, pos, negsuc}
use httpdirfs.Prelude.Masks.{pow-pos}
use httpdirfs.Prelude.Run.{ok, ◌>>=◌, Returns, Returns-bind}
use httpdirfs.Link.Names.{link_linknames_equal}
use httpdirfs.Link.Names.Hashing.{link_hash_str-equal}
use httpdirfs.Link.HashSet.{
  probe, LinkHashSet, link_hash_set_add, probe_and_add, finish_add, int_max, shift_power,
  power_loop, new_capacity, empty_set, link_hash_set_new,
}
use httpdirfs.Link.HashSet.Walk.{walk, Full, Ended}
use httpdirfs.Link.HashSet.Insertion.{Holds, home, occupied-le, occupied-set, Holds-set, set-Placed}
use httpdirfs.Link.HashSet.Resizing.{
  IsValid, Resized, link_hash_set_resize-Resized, probe-home, replicate-IsValid, get-replicate,
}

abbrev pub equal_to : List ℕ → List ℕ → Bool
equal_to name y = link_linknames_equal (some y) (some name)

-- What `LinkHashSet_add` promises: 0 and the set as it was if a name equal to this one is in it,
-- otherwise 1 and the set with this name.
pub data Added (s : LinkHashSet) (name : List ℕ) : Bool × LinkHashSet → Type 0 where
  duplicate :
      {r : LinkHashSet} (x : List ℕ)
      → Holds s.buckets x
      → equal_to name x ≡ true
      → ((y : List ℕ) → Holds r.buckets y ↔ Holds s.buckets y)
      → r.size ≡ s.size
      → Added s name (false, r)
  fresh :
      {r : LinkHashSet}
      → ((x : List ℕ) → Holds s.buckets x → equal_to name x ≡ false)
      → ((y : List ℕ) → Holds r.buckets y ↔ (Holds s.buckets y ⊎ (y ≡ name)))
      → r.size ≡ s.size + 1
      → Added s name (true, r)

-- A probe that met an empty bucket has passed every name of the same hash.
none_equal :
    (s : LinkHashSet) (v : IsValid s) (name : List ℕ) (d : ℕ)
    → get_elem? s.buckets (walk (2 ^ v.power - 1) d (home (2 ^ v.power - 1) name)) ≡ some none
    → ((c : ℕ)
        → c < d
        → (x : List ℕ) × (get_elem? s.buckets
              (walk (2 ^ v.power - 1) c (home (2 ^ v.power - 1) name))
            ≡ some (some x))
          × (equal_to name x ≡ false))
    → (x : List ℕ) → Holds s.buckets x
    → equal_to name x ≡ false
none_equal s v name d vacant before x (i, e) = elim (Bool-cases (equal_to name x)) [
  | inr f ↦ f
  | inl t ↦
      let mask : ℕ = 2 ^ v.power - 1 in
      let same : home mask x ≡ home mask name =
        ap (λ h. bit_and h mask) (link_hash_str-equal x name t) in
      let (d', r, full) = v.placed i x e in
      let at : get_elem? s.buckets (walk mask d' (home mask name)) ≡ some (some x) =
        ap (λ h. get_elem? s.buckets (walk mask d' h)) (sym same)
        ∙ ap (get_elem? s.buckets) r
        ∙ e in
      let full' : (c : ℕ) → c < d' → Full s.buckets (walk mask c (home mask name)) =
        λ c h. rw (← same) (full c h) in
      elim (dec_lt d' d) [
        | yes h ↦ let (y, a, f) = before d' h in cc (sym at ∙ a)
        | no n ↦ elim (dec_lt d d') [
          | yes h ↦ let (y, a) = full' d h in cc (sym a ∙ vacant)
          | no m ↦
              let q : d ≡ d' = omega arith in
              cc (
                sym at
                ∙ ap (λ c. get_elem? s.buckets (walk mask c (home mask name))) (sym q)
                ∙ vacant)
        ]
      ]
]

-- The probe of the code, with the capacity as a power of two.
probe_and_add-power :
    (s : LinkHashSet) (name : List ℕ) (v : IsValid s)
    → probe_and_add s name ≡ (
        probe
          (equal_to name)
          (length s.buckets)
          s.buckets
          (2 ^ v.power - 1)
          (home (2 ^ v.power - 1) name)
        >>= finish_add s name)
unfolding probe_and_add
probe_and_add-power s name v =
    ap (λ n. probe (equal_to name) n s.buckets (n - 1) (home (n - 1) name) >>= finish_add s name)
      v.capacity
    ∙ ap
        (λ n.
          probe (equal_to name) n s.buckets (2 ^ v.power - 1) (home (2 ^ v.power - 1) name)
          >>= finish_add s name)
        (sym v.wide)

same_names : (s : LinkHashSet) (y : List ℕ) → Holds s.buckets y ↔ Holds s.buckets y
same_names s y = (λ h. h, λ h. h)

-- After the resize there is room, and the probe decides.
probe_and_add-Added :
    (s : LinkHashSet) (name : List ℕ)
    → IsValid s
    → s.size < s.capacity
    → Returns (probe_and_add s name) (λ r. IsValid r.1 × Added s name r)
probe_and_add-Added s name v room = rw (probe_and_add-power s name v) (
    go (
      probe-home (equal_to name) v.power s.buckets name v.wide (omega (arith, v.size, v.capacity))))
  where
    mask : ℕ
    mask = 2 ^ v.power - 1

    go :
        Ended
          (equal_to name)
          s.buckets
          mask
          (home mask name)
          (probe (equal_to name) (length s.buckets) s.buckets mask (home mask name))
        → Returns
            (probe (equal_to name) (length s.buckets) s.buckets mask (home mask name)
              >>= finish_add s name)
            (λ r. IsValid r.1 × Added s name r)
    go (inl (d, x, at, t, e)) = (
      (false, s),
      (unfold finish_add in rw (e, ◌>>=◌) refl),
      (v, duplicate x (walk mask d (home mask name), at) t (same_names s) refl),
    )
    go (inr (d, vacant, before, e)) =
        let j : ℕ = walk mask d (home mask name) in
        (
          (true, record s { buckets = set s.buckets j (some name); size = s.size + 1 }),
          (unfold finish_add in rw (e, ◌>>=◌) refl),
          (
            record {
              power = v.power;
              capacity = v.capacity;
              wide = length-set s.buckets j (some name) ∙ v.wide;
              size = omega (arith, v.size, occupied-set s.buckets j name vacant);
              placed =
                  set-Placed mask s.buckets j name vacant d refl
                    (λ c h. ((before c h).0, (before c h).1)) v.placed;
            },
            fresh (none_equal s v name d vacant before) (Holds-set mask s.buckets j name vacant)
                refl,
          ),
        )

-- What was found out about the resized set holds of the set before.
Added-Resized :
    (s r : LinkHashSet) (name : List ℕ) (o : Bool × LinkHashSet)
    → Resized s r
    → Added r name o
    → Added s name o
Added-Resized s r name o t (duplicate x h e same size) =
    duplicate x ((t.holds x).0 h) e
      (λ y. (λ p. (t.holds y).0 ((same y).0 p), λ p. (same y).1 ((t.holds y).1 p))) (size ∙ t.size)
Added-Resized s r name o t (fresh apart holds size) =
    fresh (λ x h. apart x ((t.holds x).1 h)) (λ y. iff_trans (holds y) (iff_or_left (t.holds y)))
      (omega (arith, size, t.size))

-- A call with a name, on a well-formed set that can still be doubled, returns: 0 if a name that
-- counts as equal was in the set, whose names and size then stay; else 1, and the set has that
-- name besides the old ones and counts one more. The set is well formed again.
pub link_hash_set_add-Added :
    (s : LinkHashSet) (name : List ℕ)
    → IsValid s
    → s.capacity ≤ int_max / 2
    → Returns (link_hash_set_add s (some name)) (λ r. IsValid r.1 × Added s name r)
unfolding link_hash_set_add
link_hash_set_add-Added s name v small = elim (Bool-cases (leb (s.capacity / 2) s.size)) [
  | inl full ↦
      let (r, run, t) = link_hash_set_resize-Resized s v small in
      let (o, run', (v', a)) = probe_and_add-Added r name t.valid (
        omega (
          arith,
          t.size,
          t.doubled,
          v.size,
          v.wide,
          v.capacity,
          occupied-le s.buckets,
          pow-pos v.power,
        )) in
      (
        o,
        rw (gt→leb s.capacity 0 (omega (arith, v.capacity, pow-pos v.power)), full, ◌>>=◌, run)
            run',
        (v', Added-Resized s r name o t a),
      )
  | inr roomy ↦
      let (o, run', va) = probe_and_add-Added s name v (ground (arith, roomy)) in
      (o, rw (gt→leb s.capacity 0 (omega (arith, v.capacity, pow-pos v.power)), roomy) run', va)
]

below_thirty : (k : ℕ) → k ≤ 30 → ltb (2 ^ k) (2 ^ 30) ≡ true → suc k ≤ 30
below_thirty k h t = elim (dec_lt k 30) [
  | yes p ↦ p
  | no n ↦ let e : k ≡ 30 = omega arith in absurd (ground (arith, t, ap (λ x. 2 ^ x) e))
]

shift_power-below : (k : ℕ) → suc k ≤ 30 → shift_power (2 ^ k) ≡ ok (2 ^ suc k)
unfolding shift_power
shift_power-below k h =
    let top : 2 ^ suc k ≤ 2 ^ 30 = pow-le-pow_right {n = 2} (omega arith) h in
    let double : 2 ^ suc k ≡ 2 ^ k * 2 = pow-suc 2 k in
    let fits : ltb int_max (2 ^ k * 2) ≡ false = ground (arith, top, double) in
    rw fits (ap ok (sym double))

-- `power` doubles up to the first power of two that is not below the capacity, or 2^30.
power_loop-IsPower :
    (fuel k capacity : ℕ)
    → k ≤ 30
    → 31 ≤ fuel + k
    → 2 ^ k < 2 * capacity
    → Returns
        (power_loop fuel capacity (2 ^ k))
        (λ c. (j : ℕ) × (c ≡ 2 ^ j) × (j ≤ 30) × (min capacity (2 ^ 30) ≤ c) × (c < 2 * capacity))
unfolding power_loop
power_loop-IsPower zero k capacity h f low = absurd (omega arith)
power_loop-IsPower (suc fuel) k capacity h f low =
    elim (Bool-cases (ltb (2 ^ k) capacity && ltb (2 ^ k) (2 ^ 30))) [
      | inl t ↦
          let below : ltb (2 ^ k) (2 ^ 30) ≡ true = ground arith in
          let more = below_thirty k h below in
          let short : 2 ^ suc k < 2 * capacity = ground (arith, t, pow-suc 2 k) in
          rw (t, shift_power-below k more)
            (power_loop-IsPower fuel (suc k) capacity more (omega arith) short)
      | inr u ↦ (2 ^ k, rw u refl, (k, refl, h, ground (arith, u), low))
    ]

-- the capacity of a new set: 16 by default, and else from the number asked for, up to 2^30, to less
-- than twice this number
pub Sized : ℤ → ℕ → Type 0
Sized (pos zero) c = c ≡ 16
Sized (pos (suc n)) c = (min (suc n) (2 ^ 30) ≤ c) × (c < 2 * suc n) × (c ≤ 2 ^ 30)
Sized (negsuc n) c = c ≡ 16

empty_set-IsValid : (j : ℕ) → IsValid (empty_set (2 ^ j))
unfolding empty_set
empty_set-IsValid j = replicate-IsValid j

empty_set-empty : (n : ℕ) (x : List ℕ) → ¬ Holds (empty_set n).buckets x
unfolding empty_set
empty_set-empty n x h = get-replicate n h.0 x h.1

-- For every int that is asked for, `LinkHashSet_new` returns, without a shift that overflows: an
-- empty well-formed set, of 16 buckets if the int is not positive, and else of a power of two of
-- buckets, which is at least the number asked for or 2^30, less than twice the number asked for,
-- and at most 2^30.
pub link_hash_set_new-IsValid :
    (z : ℤ)
    → Returns
        (link_hash_set_new z)
        (λ s. IsValid s × Sized z s.capacity × ((x : List ℕ) → ¬ Holds s.buckets x))
unfolding link_hash_set_new new_capacity empty_set Sized
link_hash_set_new-IsValid (pos zero) =
    (empty_set 16, refl, (empty_set-IsValid 4, refl, empty_set-empty 16))
link_hash_set_new-IsValid (negsuc n) =
    (empty_set 16, refl, (empty_set-IsValid 4, refl, empty_set-empty 16))
link_hash_set_new-IsValid (pos (suc n)) =
    Returns-bind (power_loop-IsPower 31 0 (suc n) (omega arith) (omega arith) (omega arith))
      (λ c (j, e, l, m, low).
        let top : 2 ^ j ≤ 2 ^ 30 = pow-le-pow_right {n = 2} (omega arith) l in
        rw e (
          empty_set (2 ^ j),
          refl,
          (
            empty_set-IsValid j,
            (
              subst (λ (p : ℕ). min (suc n) (2 ^ 30) ≤ p) e m,
              subst (λ (p : ℕ). p < 2 * suc n) e low,
              top,
            ),
            empty_set-empty (2 ^ j),
          ),
        ))
