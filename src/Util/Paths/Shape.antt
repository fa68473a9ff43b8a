-- ===== src/Util/Paths/Shape.antt =====
-- What `path_append` returns: one slash at the joint, and a length that fits its buffer.
use mathlib.Core.List.{append_assoc}
use httpdirfs.Prelude.{
  ℕ, ◌≤◌, ◌≡◌, refl, ap, ◌≢◌, List, [], ◌∷◌, ◌++◌, Bool, true, false, ◌==◌, arith, if◌then◌else◌,
  drop, length, replicate, take-length, some, ==_self, Bool-cases, inl, inr,
}
use httpdirfs.Util.Paths.{
  path_max, strn, ends_with_slash, leading_slashes, separator, skip_leading, path_join, path_append,
}

unfoldable pub starts_with_slash : List ℕ → Bool
starts_with_slash [] = false
starts_with_slash (c ∷ cs) = c == b'/'

-- A file name is its leading slashes and a rest that begins otherwise.
pub skipped-split :
    (f : List ℕ)
    → (f ≡ replicate (leading_slashes f) b'/' ++ drop (leading_slashes f) f)
      × (starts_with_slash (drop (leading_slashes f) f) ≡ false)
unfolding leading_slashes starts_with_slash
skipped-split [] = (refl, refl)
skipped-split (c ∷ cs) = ground (arith, skipped-split cs)

ends_with_slash-append : (p : List ℕ) (c : ℕ) → ends_with_slash (p ++ c ∷ []) ≡ (c == b'/')
unfolding ends_with_slash
ends_with_slash-append [] c = refl
ends_with_slash-append (d ∷ []) c = refl
ends_with_slash-append (d ∷ e ∷ p) c = ends_with_slash-append (e ∷ p) c

-- With a directory, the result is the directory, with a slash at its end, and the name without
-- its leading slashes.
abbrev pub with_slash : List ℕ → List ℕ
with_slash p = if ends_with_slash p then p else p ++ b'/' ∷ []

pub with_slash-ends : (p : List ℕ) → ends_with_slash (with_slash p) ≡ true
with_slash-ends p = ground (arith, ends_with_slash-append p b'/', ==_self b'/')

-- A string within the bound is read whole.
pub strn-length : (n : ℕ) (s : List ℕ) → length s ≤ n → strn n s ≡ s
unfolding strn
strn-length n s h = take-length s n h

join_with :
    (p f : List ℕ)
    → p ≢ []
    → p ++ (separator p ++ skip_leading p f) ≡ with_slash p ++ drop (leading_slashes f) f
unfolding separator skip_leading
join_with [] f n = absurd (n refl)
join_with (c ∷ cs) f n = elim (Bool-cases (ends_with_slash (c ∷ cs))) [
  | inl e ↦ rw e
  | inr e ↦ rw (e, append_assoc)
]

-- Appending a name to a directory that is not empty gives the directory, a slash if it does not
-- end in one, and the name without its leading slashes. The two strings fit in PATH_MAX.
pub path_append-shape :
    (p f : List ℕ)
    → p ≢ []
    → length p ≤ path_max
    → length f ≤ path_max
    → (k : ℕ) × (g : List ℕ) × (f ≡ replicate k b'/' ++ g)
      × (starts_with_slash g ≡ false)
      × (path_append (some p) (some f) ≡ some (with_slash p ++ g))
unfolding path_append path_join
path_append-shape p f n hp hf = (
  leading_slashes f,
  drop (leading_slashes f) f,
  (skipped-split f).0,
  (skipped-split f).1,
  rw (strn-length path_max p hp, strn-length path_max f hf) (ap some (join_with p f n)),
)
