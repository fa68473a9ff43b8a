-- ===== src/Cache/Words.antt =====
-- The bytes of C integers in memory and on disk: little-endian, two's complement.
use native.Mathlib.Nat.{pow-suc}
use httpdirfs.Prelude.{
  ℕ, zero, suc, ◌+◌, ◌-◌, ◌*◌, ◌/◌, ◌%◌, ◌^◌, ◌<◌, ◌≡◌, refl, ap, List, [], ◌∷◌, ltb, if◌then◌else◌,
  arith, length,
}
use httpdirfs.Prelude.Int.{ℤ, pos, negsuc}

-- `n` bytes of a number, lowest first
unfoldable pub to_bytes : ℕ → ℕ → List ℕ
to_bytes zero x = []
to_bytes (suc n) x = x % 256 ∷ to_bytes n (x / 256)

unfoldable pub of_bytes : List ℕ → ℕ
of_bytes [] = 0
of_bytes (b ∷ bs) = b + 256 * of_bytes bs

pub length-to_bytes : (n x : ℕ) → length (to_bytes n x) ≡ n
unfolding to_bytes
length-to_bytes zero x = refl
length-to_bytes (suc n) x = ap suc (length-to_bytes n (x / 256))

pub of_bytes-to_bytes : (n x : ℕ) → x < 256 ^ n → of_bytes (to_bytes n x) ≡ x
unfolding of_bytes to_bytes
of_bytes-to_bytes zero x h = omega arith
of_bytes-to_bytes (suc n) x h =
    omega (arith, of_bytes-to_bytes n (x / 256) (omega (arith, pow-suc 256 n)))

-- the pattern of a `bits`-bit signed integer
unfoldable pub pattern_of : ℕ → ℤ → ℕ
pattern_of bits (pos n) = n
pattern_of bits (negsuc n) = 2 ^ bits - suc n

unfoldable pub signed : ℕ → ℕ → ℤ
signed bits x = if ltb x (2 ^ (bits - 1)) then pos x else negsuc (2 ^ bits - x - 1)

-- A value of a signed type of that many bits.
abbrev pub InRange : ℕ → ℤ → Type 0
InRange bits (pos n) = n < 2 ^ (bits - 1)
InRange bits (negsuc n) = n < 2 ^ (bits - 1)

pub pattern_of-lt : (z : ℤ) → InRange 64 z → pattern_of 64 z < 256 ^ 8
unfolding pattern_of
pattern_of-lt (pos n) h = omega arith
pattern_of-lt (negsuc n) h = omega arith

pub pattern_of-lt_int : (z : ℤ) → InRange 32 z → pattern_of 32 z < 256 ^ 4
unfolding pattern_of
pattern_of-lt_int (pos n) h = omega arith
pattern_of-lt_int (negsuc n) h = omega arith

pub signed-pattern_of : (z : ℤ) → InRange 64 z → signed 64 (pattern_of 64 z) ≡ z
unfolding signed pattern_of
signed-pattern_of (pos n) h = ground arith
signed-pattern_of (negsuc n) h = ground arith

pub signed-pattern_of_int : (z : ℤ) → InRange 32 z → signed 32 (pattern_of 32 z) ≡ z
unfolding signed pattern_of
signed-pattern_of_int (pos n) h = ground arith
signed-pattern_of_int (negsuc n) h = ground arith
