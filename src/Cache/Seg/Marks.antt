-- ===== src/Cache/Seg/Marks.antt =====
-- The marks as a map from blocks to bytes.
use httpdirfs.Prelude.{
  ℕ, zero, suc, ◌+◌, ◌/◌, ◌%◌, ◌≤◌, ◌<◌, ◌≡◌, refl, sym, ap, ◌∙◌, ◌≢◌, List, [], ◌∷◌, true, false,
  some, ltb, leb, ◌==◌, if◌then◌else◌, get_elem?, get_or, set, length, arith, length-set, gt→leb,
  leb→le, inl, inr, Bool-cases,
}
use httpdirfs.Prelude.Int.{ℤ, pos, pos_part, leb_ℤ}
use httpdirfs.Prelude.Run.{ok, Returns}
use httpdirfs.Cache.State.{Cache, Link}
use httpdirfs.Cache.Meta.Geometry.{IsLaidOut}
use httpdirfs.Cache.Seg.{quot, mark_at, seg_exist, put_mark, seg_set}

-- The mark of a block, 0 for a block that the file does not have.
abbrev pub mark_of : Cache → ℕ → ℕ
mark_of cf i = get_or cf.seg i 0

get_elem?-get_or : (xs : List ℕ) (i : ℕ) → i < length xs → get_elem? xs i ≡ some (get_or xs i 0)
get_elem?-get_or [] i h = absurd (omega arith)
get_elem?-get_or (x ∷ xs) zero h = refl
get_elem?-get_or (x ∷ xs) (suc i) h = get_elem?-get_or xs i (omega arith)

get_or-none : (xs : List ℕ) (i : ℕ) → length xs ≤ i → get_or xs i 0 ≡ 0
get_or-none [] i h = refl
get_or-none (x ∷ xs) zero h = absurd (omega arith)
get_or-none (x ∷ xs) (suc i) h = get_or-none xs i (omega arith)

pub get_or-set :
    (xs : List ℕ) (i j m : ℕ)
    → get_or (set xs i m) j 0
      ≡ (if (i == j) then (if ltb i (length xs) then m else 0) else get_or xs j 0)
get_or-set [] i j m = ground arith
get_or-set (x ∷ xs) zero zero m = ground arith
get_or-set (x ∷ xs) zero (suc j) m = ground arith
get_or-set (x ∷ xs) (suc i) zero m = ground arith
get_or-set (x ∷ xs) (suc i) (suc j) m = get_or-set xs i j m ∙ ground arith

set_out : (xs : List ℕ) (i m : ℕ) → length xs ≤ i → set xs i m ≡ xs
set_out [] i m h = refl
set_out (x ∷ xs) zero m h = absurd (omega arith)
set_out (x ∷ xs) (suc i) m h = ap (◌∷◌ x) (set_out xs i m (omega arith))

module _ (cf : Cache) (link : Link) (l : IsLaidOut cf link) where
  block_part : pos_part cf.blksz ≡ l.b
  block_part = ap pos_part l.block

  positive_block : leb_ℤ cf.blksz (pos 0) ≡ false
  positive_block =
      ap (λ z. leb_ℤ z (pos 0)) l.block ∙ gt→leb (l.b + 0) 0 (omega (arith, l.positive))

  count_is : (z : ℤ) → leb_ℤ cf.segbc z ≡ leb_ℤ (pos (length cf.seg)) z
  count_is z = ap (λ c. leb_ℤ c z) l.count

  some_segment : leb_ℤ cf.segbc (pos 0) ≡ false
  some_segment = count_is (pos 0) ∙ gt→leb (length cf.seg + 0) 0 (omega (arith, l.some_mark))

  seg_exist-pos : (n : ℕ) → seg_exist cf (pos n) ≡ ok (mark_of cf (n / l.b))
  unfolding seg_exist quot mark_at
  seg_exist-pos n = elim (Bool-cases (leb (length cf.seg) (n / l.b))) [
    | inl e ↦
        let b : leb (length cf.seg + 0) (n / l.b + 0) ≡ true = ground (arith, e) in
        rw
          (
            seg_exist,
            some_segment,
            positive_block,
            block_part,
            count_is (pos (n / l.b)),
            b,
            get_or-none cf.seg (n / l.b) (leb→le (length cf.seg) (n / l.b) e),
          )
          (ground arith)
    | inr e ↦
        let b : leb (length cf.seg + 0) (n / l.b + 0) ≡ false = ground (arith, e) in
        rw (seg_exist, some_segment, positive_block, block_part, count_is (pos (n / l.b)), b)
          (ground (arith, get_elem?-get_or cf.seg (n / l.b) (ground (arith, e))))
  ]

  pub seg_set-pos :
      (n m : ℕ) → seg_set cf (pos n) m ≡ ok (record cf { seg = set cf.seg (n / l.b) (m % 256) })
  unfolding seg_set quot put_mark
  seg_set-pos n m = elim (Bool-cases (leb (length cf.seg) (n / l.b))) [
    | inl e ↦
        let b : leb (length cf.seg + 0) (n / l.b + 0) ≡ true = ground (arith, e) in
        rw
          (
            seg_set,
            some_segment,
            positive_block,
            block_part,
            count_is (pos (n / l.b)),
            b,
            set_out cf.seg (n / l.b) (m % 256) (leb→le (length cf.seg) (n / l.b) e),
          )
          (ground arith)
    | inr e ↦
        let b : leb (length cf.seg + 0) (n / l.b + 0) ≡ false = ground (arith, e) in
        let c : ltb (n / l.b) (length cf.seg) ≡ true = ground (arith, e) in
        rw (seg_set, some_segment, positive_block, block_part, count_is (pos (n / l.b)), b, c)
          (ground arith)
  ]

  -- Laid out caches stay so when marks are replaced.
  marks-IsLaidOut :
      (seg : List ℕ) → length seg ≡ length cf.seg → IsLaidOut (record cf { seg = seg }) link
  marks-IsLaidOut seg h = record {
    b = l.b;
    block = l.block;
    positive = l.positive;
    count = l.count ∙ ap pos (sym h);
    marks = h ∙ l.marks;
    some_mark = omega (arith, h, l.some_mark);
  }

-- `Seg_exist` at an offset that is not negative, on a cache that is laid out, returns with the
-- mark of the offset's block, or with 0 behind the last block.
pub seg_exist-mark_of :
    (cf : Cache) (link : Link) (l : IsLaidOut cf link) (n : ℕ)
    → seg_exist cf (pos n) ≡ ok (mark_of cf (n / l.b))
seg_exist-mark_of cf link l n = seg_exist-pos cf link l n

-- On a cache that is laid out, `Seg_set` at an offset of one of its blocks returns, and the cache
-- is still laid out. `Seg_exist` then finds at each offset of that block the byte that was set,
-- and at an offset of another block what it found before.
pub seg_exist-seg_set :
    (cf : Cache) (link : Link) (l : IsLaidOut cf link) (n k m : ℕ)
    → n / l.b < length cf.seg
    → Returns (seg_set cf (pos n) m) (λ cf'.
      IsLaidOut cf' link
      × ((n / l.b ≡ k / l.b → seg_exist cf' (pos k) ≡ ok (m % 256))
          × (n / l.b ≢ k / l.b → seg_exist cf' (pos k) ≡ seg_exist cf (pos k))))
unfolding marks-IsLaidOut
seg_exist-seg_set cf link l n k m h =
    let i : ℕ = n / l.b in
    let marks : List ℕ = set cf.seg i (m % 256) in
    let after : IsLaidOut (record cf { seg = marks }) link =
      marks-IsLaidOut cf link l marks (length-set cf.seg i (m % 256)) in
    let there : seg_exist (record cf { seg = marks }) (pos k) ≡ ok (get_or marks (k / l.b) 0) =
      seg_exist-pos (record cf { seg = marks }) link after k in
    (
      record cf { seg = marks },
      seg_set-pos cf link l n m,
      (
        after,
        (
          (λ e. there ∙ ap ok (get_or-set cf.seg i (k / l.b) (m % 256) ∙ ground (arith, e, h))),
          (λ d.
              there
              ∙ ap ok (get_or-set cf.seg i (k / l.b) (m % 256) ∙ ground (arith, d))
              ∙ sym (seg_exist-pos cf link l k)),
        ),
      ),
    )
