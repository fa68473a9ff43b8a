-- ===== src/Prelude/Masks.antt =====
-- `x & (2^k - 1)` is the remainder modulo 2^k, and steps around a ring of bucket indices.
use Prim.Native.Nat.{
  ℕ, zero, suc, ◌+◌, ◌-◌, ◌*◌, ◌/◌, ◌%◌, ◌^◌, ◌≤◌, min, bit_and, digits, bit_and-bitwise,
}
use mathlib.Core.Path.{◌≡◌, sym, ap, ◌∙◌}
use native.Mathlib.Omega.{arith}
use native.Mathlib.Nat.{
  mul-add-mod_self_left, mod-eq_of_lt, div-add-mod, mod-lt, pow-suc, zero-mod, mod-one,
}

pub pow-pos : (k : ℕ) → 1 ≤ 2 ^ k
pow-pos zero = omega arith
pow-pos (suc k) = omega (arith, pow-suc 2 k, pow-pos k)

-- One binary digit of a remainder.
mod-double : (a p : ℕ) → 1 ≤ p → a % (p * 2) ≡ (a / 2) % p * 2 + a % 2
mod-double a p h =
    let r : ℕ = (a / 2) % p in
    let q : ℕ = (a / 2) / p in
    let split : a ≡ (p * 2) * q + (r * 2 + a % 2) = omega (arith, div-add-mod (a / 2) p) in
    ap (λ x. x % (p * 2)) split
    ∙ mul-add-mod_self_left (p * 2) q (r * 2 + a % 2)
    ∙ mod-eq_of_lt (omega (arith, mod-lt (a / 2) h))

mask_digits : (n a k : ℕ) → a ≤ n → digits (λ b. zero) min n a (2 ^ k - 1) ≡ a % 2 ^ k
mask_digits zero zero k h = sym (zero-mod (2 ^ k))
mask_digits zero (suc a) k h = absurd (omega arith)
mask_digits (suc n) zero k h = sym (zero-mod (2 ^ k))
mask_digits (suc n) (suc a) zero h =
    omega
      (arith, mask_digits n (suc a / 2) zero (omega arith), mod-one (suc a), mod-one (suc a / 2))
mask_digits (suc n) (suc a) (suc k) h =
    let e : (2 ^ suc k - 1) / 2 ≡ 2 ^ k - 1 = omega (arith, pow-suc 2 k, pow-pos k) in
    let o : (2 ^ suc k - 1) % 2 ≡ 1 = omega (arith, pow-suc 2 k, pow-pos k) in
    rw (e, o, mask_digits n (suc a / 2) k (omega arith), pow-suc 2 k)
      (omega (arith, mod-double (suc a) (2 ^ k) (pow-pos k)))

pub bit_and_mask : (a k : ℕ) → bit_and a (2 ^ k - 1) ≡ a % 2 ^ k
bit_and_mask a k = bit_and-bitwise a (2 ^ k - 1) ∙ mask_digits a a k (omega arith)
