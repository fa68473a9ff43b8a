-- ===== src/Prelude/Slices.antt =====
-- The bytes of pieces of a list, by their index.
use Prim.Native.Nat.{ℕ, zero, suc, ◌+◌, ◌-◌, ◌<◌, ◌≤◌}
use mathlib.Core.Path.{◌≡◌, refl, ap, ◌∙◌}
use mathlib.Core.List.{List, [], ◌∷◌, ◌++◌}
use native.Mathlib.Omega.{arith}
use httpdirfs.Prelude.Tests.{ltb, if◌then◌else◌}
use httpdirfs.Prelude.Lists.{length, get_or, take, drop}

pub get_or-behind : (xs : List ℕ) (i : ℕ) → length xs ≤ i → get_or xs i 0 ≡ 0
get_or-behind [] i h = refl
get_or-behind (x ∷ xs) zero h = absurd (omega arith)
get_or-behind (x ∷ xs) (suc i) h = get_or-behind xs i (omega arith)

pub get_or-append :
    (xs ys : List ℕ) (i : ℕ)
    → get_or (xs ++ ys) i 0
      ≡ (if ltb i (length xs) then get_or xs i 0 else get_or ys (i - length xs) 0)
get_or-append [] ys i = ground arith
get_or-append (x ∷ xs) ys zero = ground arith
get_or-append (x ∷ xs) ys (suc i) = get_or-append xs ys i ∙ ground arith

pub get_or-take :
    (n : ℕ) (xs : List ℕ) (i : ℕ) → get_or (take n xs) i 0 ≡ (if ltb i n then get_or xs i 0 else 0)
get_or-take zero xs i = ground arith
get_or-take (suc n) [] i = ground arith
get_or-take (suc n) (x ∷ xs) zero = ground arith
get_or-take (suc n) (x ∷ xs) (suc i) = get_or-take n xs i ∙ ground arith

pub get_or-drop : (n : ℕ) (xs : List ℕ) (i : ℕ) → get_or (drop n xs) i 0 ≡ get_or xs (n + i) 0
get_or-drop zero xs i = let e : i ≡ 0 + i = omega arith in ap (λ n. get_or xs n 0) e
get_or-drop (suc n) [] i = refl
get_or-drop (suc n) (x ∷ xs) i =
    let e : suc (n + i) ≡ suc n + i = omega arith in
    get_or-drop n xs i ∙ ap (λ n. get_or (x ∷ xs) n 0) e

pub list-ext :
    (xs ys : List ℕ)
    → length xs ≡ length ys
    → ((i : ℕ) → i < length xs → get_or xs i 0 ≡ get_or ys i 0)
    → xs ≡ ys
list-ext [] [] l h = refl
list-ext [] (y ∷ ys) l h = absurd (omega arith)
list-ext (x ∷ xs) [] l h = absurd (omega arith)
list-ext (x ∷ xs) (y ∷ ys) l h =
    ap (λ a. a ∷ xs) (h 0 (omega arith))
    ∙ ap (◌∷◌ y) (list-ext xs ys (omega arith) (λ i lt. h (suc i) (omega arith)))
