-- ===== src/Cache/Stdio/Sequential.antt =====
-- Writes one after the other from the start of a file, and reads that follow them.
use mathlib.Core.List.{append_assoc, append-nil}
use httpdirfs.Prelude.{
  ℕ, zero, suc, ◌+◌, ◌-◌, ◌*◌, ◌≡◌, refl, sym, ap, ◌∙◌, List, [], ◌∷◌, ◌++◌, true, false, some, ltb,
  arith, length, length-append, take, drop, take-append_left, drop-append_left, ge→ltb,
}
use httpdirfs.Prelude.Int.{ℤ}
use httpdirfs.Cache.Words.{
  to_bytes, of_bytes, pattern_of, signed, length-to_bytes, of_bytes-to_bytes, InRange,
  pattern_of-lt, pattern_of-lt_int, signed-pattern_of, signed-pattern_of_int,
}
use httpdirfs.Cache.Stdio.{File, fread, fread_int, fwrite, overwrite, zeros}

-- The first bytes of the file are `pre`, and what follows is as it was in `old`.
pub record Written (old pre : List ℕ) (fp : File) : Type 0 where
  pub bytes : fp.bytes ≡ pre ++ drop (length pre) old
  pub position : fp.position ≡ length pre
  pub healthy : fp.healthy ≡ true
  pub error : fp.error ≡ false

drop-nil : (n : ℕ) → drop {A = ℕ} n [] ≡ []
drop-nil zero = refl
drop-nil (suc n) = refl

drop-drop : (i j : ℕ) (xs : List ℕ) → drop j (drop i xs) ≡ drop (i + j) xs
drop-drop zero j xs = let e : j ≡ 0 + j = omega arith in ap (λ n. drop n xs) e
drop-drop (suc i) j [] = drop-nil j ∙ sym (drop-nil (suc i + j))
drop-drop (suc i) j (x ∷ xs) =
    let e : suc (i + j) ≡ suc i + j = omega arith in drop-drop i j xs ∙ ap (λ n. drop n (x ∷ xs)) e

overwrite-append :
    (pre rest new : List ℕ)
    → overwrite (pre ++ rest) (length pre) new ≡ pre ++ (new ++ drop (length new) rest)
unfolding overwrite zeros
overwrite-append pre rest new =
    let none_between : length pre - length (pre ++ rest) ≡ 0 =
      omega (arith, length-append pre rest) in
    let after : drop (length pre + length new) (pre ++ rest) ≡ drop (length new) rest =
      sym (drop-drop (length pre) (length new) (pre ++ rest))
      ∙ ap (drop (length new)) (drop-append_left pre rest) in
    rw (take-append_left pre rest, none_between, after, append-nil) refl

-- A write goes behind what was written.
pub fwrite-Written :
    (old pre bs : List ℕ) (fp : File)
    → Written old pre fp
    → Written old (pre ++ bs) (fwrite bs fp).1
unfolding fwrite
fwrite-Written old pre bs fp w =
    rw (w.healthy, fwrite)
      record {
        bytes =
            ap (λ b. overwrite b fp.position bs) w.bytes
            ∙ ap (λ p. overwrite (pre ++ drop (length pre) old) p bs) w.position
            ∙ overwrite-append pre (drop (length pre) old) bs
            ∙ sym append_assoc'
            ∙ ap (◌++◌ (pre ++ bs)) rest;
        position = omega (arith, w.position, length-append pre bs);
        healthy = refl;
        error = w.error;
      }
  where
    append_assoc' :
        (pre ++ bs) ++ drop (length bs) (drop (length pre) old)
        ≡ pre ++ (bs ++ drop (length bs) (drop (length pre) old))
    append_assoc' = simp append_assoc

    rest : drop (length bs) (drop (length pre) old) ≡ drop (length (pre ++ bs)) old
    rest =
        drop-drop (length pre) (length bs) old ∙ ap (λ n. drop n old) (sym (length-append pre bs))

-- Reading on from behind `pre`.
pub record Reading (pre rest : List ℕ) (fp : File) : Type 0 where
  pub bytes : fp.bytes ≡ pre ++ rest
  pub position : fp.position ≡ length pre
  pub healthy : fp.healthy ≡ true
  pub error : fp.error ≡ false
  pub eof : fp.eof ≡ false

module _ (pre mid rest : List ℕ) (fp : File) (r : Reading pre (mid ++ rest) fp) where
  taken : take (length mid) (drop fp.position fp.bytes) ≡ mid
  taken =
      ap (λ b. take (length mid) (drop fp.position b)) r.bytes
      ∙ ap (λ p. take (length mid) (drop p (pre ++ (mid ++ rest)))) r.position
      ∙ ap (take (length mid)) (drop-append_left pre (mid ++ rest))
      ∙ take-append_left mid rest

  -- A read of as many bytes as follow gives them.
  pub fread-Reading :
      ((fread (length mid) fp).0 ≡ mid) × Reading (pre ++ mid) rest (fread (length mid) fp).1
  unfolding fread
  fread-Reading =
      rw (r.healthy, fread)
        (
          taken,
          record {
            bytes = r.bytes ∙ sym (simp append_assoc);
            position = omega (arith, r.position, ap length taken, length-append pre mid);
            healthy = refl;
            error = r.error;
            eof = ground (arith, r.eof, ap length taken);
          },
        )

-- The bytes of an integer of `n` bytes.
abbrev pub coded : ℕ → ℤ → List ℕ
coded n z = to_bytes n (pattern_of (8 * n) z)

abbrev pub Decodes : ℕ → ℤ → Type 0
Decodes n z = signed (8 * n) (of_bytes (coded n z)) ≡ z

pub Decodes-long : (z : ℤ) → InRange 64 z → Decodes 8 z
Decodes-long z h =
    ap (signed 64) (of_bytes-to_bytes 8 (pattern_of 64 z) (pattern_of-lt z h))
    ∙ signed-pattern_of z h

pub Decodes-int : (z : ℤ) → InRange 32 z → Decodes 4 z
Decodes-int z h =
    ap (signed 32) (of_bytes-to_bytes 4 (pattern_of 32 z) (pattern_of-lt_int z h))
    ∙ signed-pattern_of_int z h

-- Reading an integer where its bytes stand.
pub fread_int-Reading :
    (pre rest : List ℕ) (n : ℕ) (z : ℤ) (fp : File)
    → Decodes n z
    → Reading pre (coded n z ++ rest) fp
    → ((fread_int n fp).0 ≡ some z) × Reading (pre ++ coded n z) rest (fread_int n fp).1
unfolding fread_int
fread_int-Reading pre rest n z fp d r =
    let len : length (coded n z) ≡ n = length-to_bytes n (pattern_of (8 * n) z) in
    let both : ((fread n fp).0 ≡ coded n z) × Reading (pre ++ coded n z) rest (fread n fp).1 =
      (rw len at (fread-Reading pre (coded n z) rest fp r)) in
    let enough : ltb (length (fread n fp).0) n ≡ false =
      ge→ltb (length (fread n fp).0) n (omega (arith, ap length both.0, len)) in
    (rw (enough, both.0, d) refl, both.1)
