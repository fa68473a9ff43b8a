-- ===== src/Util/Paths.antt =====
-- `path_append` of src/util.c. A string is the list of its bytes before the NUL; `none` for a
-- pointer is NULL, and `none` for a result is the exit of `lprintf(fatal, …)`.
pub mod Shape
mod Tests
use httpdirfs.Prelude.{
  ℕ, zero, suc, ◌+◌, List, [], ◌∷◌, ◌++◌, Bool, true, false, Option, none, some, ◌==◌,
  if◌then◌else◌, take, drop,
}

abbrev pub path_max : ℕ
path_max = 4096

-- strnlen(s, n) bytes of s
unfoldable pub strn : ℕ → List ℕ → List ℕ
strn n s = take n s

-- `path[ul - 1] == '/'`, for `ul > 0`
unfoldable pub ends_with_slash : List ℕ → Bool
ends_with_slash [] = false
ends_with_slash (c ∷ []) = c == b'/'
ends_with_slash (c ∷ d ∷ cs) = ends_with_slash (d ∷ cs)

-- the loop that counts the leading slashes of `filename`
unfoldable pub leading_slashes : List ℕ → ℕ
leading_slashes [] = 0
leading_slashes (c ∷ cs) = if c == b'/' then suc (leading_slashes cs) else 0

-- what is written between the two parts
unfoldable pub separator : List ℕ → List ℕ
separator [] = []
separator (c ∷ cs) = if ends_with_slash (c ∷ cs) then [] else b'/' ∷ []

unfoldable pub skip_leading : List ℕ → List ℕ → List ℕ
skip_leading [] f = f
skip_leading (c ∷ cs) f = drop (leading_slashes f) f

unfoldable pub path_join : List ℕ → List ℕ → List ℕ
unfolding separator skip_leading
path_join path filename =
    let p = strn path_max path in
    let f = strn path_max filename in p ++ (separator p ++ skip_leading p f)

unfoldable pub path_append : Option (List ℕ) → Option (List ℕ) → Option (List ℕ)
unfolding path_join
path_append (some p) (some f) = some (path_join p f)
path_append none f = none
path_append (some p) none = none
