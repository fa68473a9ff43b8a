-- ===== src/Util/Paths/Tests.antt =====
-- Runs of `path_append`, and its theorem at a directory and a name.
use httpdirfs.Prelude.{ℕ, ◌≡◌, refl, List, [], ◌∷◌, ◌++◌, some, false, arith, replicate}
use httpdirfs.Util.Paths.{path_append, strn, ends_with_slash, leading_slashes}
use httpdirfs.Util.Paths.Shape.{path_append-shape, starts_with_slash, with_slash}

abbrev meta_dir : List ℕ
meta_dir = b'm' ∷ b'/' ∷ []

abbrev file_name : List ℕ
file_name = b'/' ∷ b'a' ∷ []

joined : path_append (some meta_dir) (some file_name) ≡ some (b'm' ∷ b'/' ∷ b'a' ∷ [])
unfolding path_append strn ends_with_slash leading_slashes
joined = refl

path_append-shape_example :
    (k : ℕ) × (g : List ℕ) × (file_name ≡ replicate k b'/' ++ g)
    × (starts_with_slash g ≡ false)
    × (path_append (some meta_dir) (some file_name) ≡ some (with_slash meta_dir ++ g))
path_append-shape_example =
    path_append-shape meta_dir file_name (λ e. ground (arith, e)) (omega arith) (omega arith)
