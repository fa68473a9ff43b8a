-- ===== src/Cache/Reading/Whole.antt =====
-- `Cache_read` over a reader of segments that promises what it does for one block.
use native.Mathlib.Nat.{div-add-mod, mod-lt}
use httpdirfs.Prelude.{
  ℕ, zero, suc, ◌+◌, ◌-◌, ◌%◌, ◌≤◌, ◌<◌, ◌≡◌, refl, ap, ◌∙◌, List, [], true, false, some, leb, ◌==◌,
  get_or, length, min, arith, Bool-cases, inl, inr, ◌⊎◌,
}
use httpdirfs.Prelude.Int.{pos, negsuc, ltb_ℤ, leb_ℤ, ◌+ℤ◌}
use httpdirfs.Prelude.Run.{ok, Returns}
use httpdirfs.Cache.Stdio.{overwrite}
use httpdirfs.Cache.State.{Cache, Link}
use httpdirfs.Cache.Data.Bytes.{get_or-overwrite}
use httpdirfs.Cache.Reading.{
  SegmentRead, SegmentReader, segment_len, read_blocks, read_range, cache_read,
}

-- The bytes from the offset `o` on, `n` of them.
abbrev pub IsSlice : (ℕ → ℕ) → ℕ → ℕ → List ℕ → Type 0
IsSlice content o n buf = (i : ℕ) → i < n → get_or buf i 0 ≡ content (o + i)

-- A read of `n` bytes at `o` has failed with a negative result, or given all `n` bytes.
pub data Served {ℓ} {W : Type ℓ} (content : ℕ → ℕ) (o n : ℕ) (s : SegmentRead W) : Type ℓ where
  failed : (e : ℕ) → s.count ≡ negsuc e → Served content o n s
  served : s.count ≡ pos n → length s.buf ≡ n → IsSlice content o n s.buf → Served content o n s

-- What a reader of segments promises for a file of `total` bytes in blocks of `b`: on the states
-- that `Valid` describes, a read inside one block returns, to such a state, and is served.
pub record ReadsSegments {ℓ} {W : Type ℓ} (r : SegmentReader W) (Valid : W → Cache → Type ℓ)
    (content : ℕ → ℕ) (total b : ℕ) : Type ℓ where
  pub serves :
      (w : W) (cf : Cache) (n o : ℕ)
      → Valid w cf
      → 1 ≤ n
      → o % b + n ≤ b
      → o + n ≤ total
      → Returns
          (r.read_segment w cf (pos n) (pos o))
          (λ s. Valid s.world s.after × Served content o n s)

-- The end of `Cache_read`: in a valid state, with a negative result, or with all `n` bytes from the
-- offset `o` on in the buffer.
abbrev pub Ended {ℓ} :
    {W : Type ℓ} → (W → Cache → Type ℓ) → (ℕ → ℕ) → ℕ → ℕ → SegmentRead W → Type ℓ
Ended Valid content o n s =
    Valid s.world s.after
    × (((e : ℕ) × (s.count ≡ negsuc e)) ⊎ ((s.count ≡ pos n) × IsSlice content o n s.buf))

-- A segment lies in one block and inside the range, and is not empty.
segment_len-bounds :
    (b len start : ℕ)
    → 1 ≤ b
    → 1 ≤ len
    → (1 ≤ segment_len b len start)
      × (segment_len b len start ≤ len)
      × (start % b + segment_len b len start ≤ b)
unfolding segment_len
segment_len-bounds b len start hb hl =
    let whole = div-add-mod start b in
    let rest = mod-lt start hb in (omega arith, omega arith, omega arith)

module _ {ℓ} {W : Type ℓ} (r : SegmentReader W) (Valid : W → Cache → Type ℓ) (content : ℕ → ℕ)
    (total b : ℕ) (law : ReadsSegments r Valid content total b) (positive : 1 ≤ b) where
  Ended-at :
      (o n n' : ℕ) (s : SegmentRead W)
      → n ≡ n'
      → Ended Valid content o n s
      → Ended Valid content o n' s
  Ended-at o n n' s h ends = rw h at ends

  -- the buffer after a segment that was served
  grown :
      (o done n : ℕ) (out : List ℕ) (s : SegmentRead W)
      → IsSlice content o done out
      → length s.buf ≡ n
      → IsSlice content (o + done) n s.buf
      → IsSlice content o (done + n) (overwrite out done s.buf)
  grown o done n out s had size got i h =
      get_or-overwrite out s.buf done i ∙ (elim (Bool-cases (leb done i)) [
        | inl e ↦
            let back : o + done + (i - done) ≡ o + i = ground (arith, e) in
            ground (arith, e, h, size, got (i - done), ap content back)
        | inr e ↦ ground (arith, e, had i)
      ])

  module _ (fuel o done len : ℕ) (w : W) (cf : Cache) (out : List ℕ) (s : SegmentRead W)
      (some_bytes : (len == 0) ≡ false)
      (answer : r.read_segment w cf (pos (segment_len b len (o + done))) (pos (o + done))
        ≡ ok s) where
    -- One round of the loop ends with a failed segment, and goes on behind a served one.
    round-failed :
        (e : ℕ)
        → s.count ≡ negsuc e
        → read_blocks r (suc fuel) b o w cf out len (o + done) (pos done)
          ≡ ok (record s { buf = overwrite out (o + done - o) s.buf })
    unfolding read_blocks
    round-failed e c =
        let below : ltb_ℤ s.count (pos 0) ≡ true = ap (λ z. ltb_ℤ z (pos 0)) c ∙ ground arith in
        rw (read_blocks, some_bytes, answer, below) refl

    round-served :
        s.count ≡ pos (segment_len b len (o + done))
        → read_blocks r (suc fuel) b o w cf out len (o + done) (pos done)
          ≡ read_blocks r fuel b o s.world s.after
              (overwrite out done s.buf)
              (len - segment_len b len (o + done))
              (o + (done + segment_len b len (o + done)))
              (pos (done + segment_len b len (o + done)))
    unfolding read_blocks
    round-served c =
        let n : ℕ = segment_len b len (o + done) in
        let not_below : ltb_ℤ s.count (pos 0) ≡ false =
          ap (λ z. ltb_ℤ z (pos 0)) c ∙ ground arith in
        let not_short : ltb_ℤ s.count (pos n) ≡ false =
          ap (λ z. ltb_ℤ z (pos n)) c ∙ ground arith in
        let sum : pos done +ℤ s.count ≡ pos (done + n) = ap (λ z. pos done +ℤ z) c ∙ ground arith in
        let place : o + done - o ≡ done = omega arith in
        let next : o + done + n ≡ o + (done + n) = omega arith in
        rw (read_blocks, some_bytes, answer, not_below, not_short, sum, place, next) refl

  read_blocks-Ended :
      (fuel o done len : ℕ) (w : W) (cf : Cache) (out : List ℕ)
      → len < fuel
      → Valid w cf
      → o + done + len ≤ total
      → IsSlice content o done out
      → Returns
          (read_blocks r fuel b o w cf out len (o + done) (pos done))
          (Ended Valid content o (done + len))
  unfolding read_blocks
  read_blocks-Ended zero o done len w cf out enough valid inside had = absurd (omega arith)
  read_blocks-Ended (suc fuel) o done len w cf out enough valid inside had =
      elim (Bool-cases (len == 0)) [
        | inl e ↦
            let nothing : done ≡ done + len = ground (arith, e) in
            (
              record { count = pos done; buf = out; world = w; after = cf },
              rw (read_blocks, e) refl,
              (valid, inr (ap pos nothing, λ i h. had i (ground (arith, e, h)))),
            )
        | inr e ↦
            let n : ℕ = segment_len b len (o + done) in
            let (some_of, fits, one_block) =
              segment_len-bounds b len (o + done) positive (ground (arith, e)) in
            let (s, answer, (valid', outcome)) =
              law.serves w cf n (o + done) valid some_of one_block (omega arith) in
            elim outcome [
              | failed k c ↦ (
                record s { buf = overwrite out (o + done - o) s.buf },
                round-failed fuel o done len w cf out s e answer k c,
                (valid', inl (k, c)),
              )
              | served c size got ↦
                  let all : done + n + (len - n) ≡ done + len = omega arith in
                  let (r', run, ends) =
                    read_blocks-Ended fuel o (done + n) (len - n) s.world s.after
                      (overwrite out done s.buf) (omega arith) valid' (omega arith)
                      (grown o done n out s had size got) in
                  (
                    r',
                    round-served fuel o done len w cf out s e answer c ∙ run,
                    Ended-at o (done + n + (len - n)) (done + len) r' all ends,
                  )
            ]
      ]

  read_range-Ended :
      (w : W) (cf : Cache) (len o : ℕ)
      → Valid w cf
      → o + len ≤ total
      → Returns (read_blocks r (suc len) b o w cf [] len o (pos 0)) (Ended Valid content o len)
  read_range-Ended w cf len o valid inside =
      let start : o + 0 ≡ o = omega arith in
      let (s, run, ends) =
        read_blocks-Ended (suc len) o 0 len w cf [] (omega arith) valid (omega arith)
          (λ i h. absurd (omega arith)) in
      (s, (rw start at run), Ended-at o (0 + len) len s (omega arith) ends)

-- Let the reader of segments keep its promise for the link's file and the block size of the cache.
-- Then `Cache_read` of a positive number of bytes at an offset in the file returns in a valid
-- state. It has failed with a negative result, or its result is the smaller of that number and
-- what the file has from the offset on, and the buffer holds these bytes of the file.
pub cache_read-Ended {ℓ} :
    {W : Type ℓ}
    → (r : SegmentReader W) (Valid : W → Cache → Type ℓ) (content : ℕ → ℕ) (link : Link) (b : ℕ)
    → ReadsSegments r Valid content link.content_length (suc b)
    → (w : W) (cf : Cache) (len o : ℕ) → cf.link ≡ some link
    → cf.blksz ≡ pos (suc b)
    → Valid w cf
    → 1 ≤ len
    → o < link.content_length
    → Returns
        (cache_read r w cf (pos len) (pos o))
        (Ended Valid content o (min len (link.content_length - o)))
unfolding cache_read read_range
cache_read-Ended r Valid content link b law w cf len o linked sized valid some_bytes inside =
    let n : ℕ = min len (link.content_length - o) in
    let (s, run, ends) =
      read_range-Ended r Valid content link.content_length (suc b) law (omega arith) w cf n o valid
        (omega arith) in
    let len_sign : ltb_ℤ (pos len) (pos 0) ≡ false = ground arith in
    let o_sign : ltb_ℤ (pos o) (pos 0) ≡ false = ground arith in
    let before_end : leb_ℤ (pos link.content_length) (pos o) ≡ false = ground arith in
    let some_left : (n == 0) ≡ false = ground arith in
    let step : cache_read r w cf (pos len) (pos o) ≡ read_range r w cf cf.blksz n o =
      simp (cache_read, linked, len_sign, o_sign, before_end, some_left) in
    (s, step ∙ ap (λ z. read_range r w cf z n o) sized ∙ run, ends)
