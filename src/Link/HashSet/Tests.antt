-- ===== src/Link/HashSet/Tests.antt =====
-- Runs of the hash set, and its theorems at a new set.
use mathlib.Core.Path.{subst}
use httpdirfs.Prelude.{ℕ, ◌≡◌, sym, refl, ◌^◌, List, [], ◌∷◌, Bool, true, false, some, arith}
use httpdirfs.Prelude.Int.{pos}
use httpdirfs.Prelude.Run.{Run, ok, ok-injective, ◌>>=◌, Returns}
use httpdirfs.Link.Names.{link_linknames_equal, link_hash_str}
use httpdirfs.Link.HashSet.{
  LinkHashSet, link_hash_set_new, link_hash_set_add, link_hash_set_resize, probe_and_add,
  shift_power, power_loop, new_capacity, empty_set,
}
use httpdirfs.Link.HashSet.Insertion.{Holds}
use httpdirfs.Link.HashSet.Resizing.{IsValid, Resized, link_hash_set_resize-Resized}
use httpdirfs.Link.HashSet.Adding.{Added, link_hash_set_add-Added, Sized, link_hash_set_new-IsValid}

program : Unit {0}
unfolding shift_power power_loop new_capacity empty_set link_hash_set_new
program = record {}

abbrev pair : LinkHashSet
pair = empty_set 2

new_pair : link_hash_set_new (pos 2) ≡ ok pair
unfolding program
new_pair = refl

-- the round after the last shift
new_largest : new_capacity (pos 1073741825) ≡ ok (2 ^ 30)
unfolding program
new_largest = refl

abbrev name_a : List ℕ
name_a = b'a' ∷ []

abbrev name_a_slash : List ℕ
name_a_slash = b'a' ∷ b'/' ∷ []

abbrev two_adds : Run (Bool × Bool × ℕ)
two_adds = link_hash_set_add pair (some name_a) >>= λ r.
    link_hash_set_add r.1 (some name_a_slash) >>= λ q. ok (r.0, q.0, q.1.capacity)

-- the second name counts as the first; the set was doubled on the way
adds_once : two_adds ≡ ok (true, false, 4)
unfolding empty_set link_hash_set_add link_hash_set_resize probe_and_add link_linknames_equal
    link_hash_str
adds_once = refl

pair-IsValid : IsValid pair
unfolding program
pair-IsValid =
    let (s, run, (v, sized, empty)) = link_hash_set_new-IsValid (pos 2) in
    subst IsValid (ok-injective s pair (sym run)) v

link_hash_set_new-IsValid_example :
    Returns
      (link_hash_set_new (pos 4097))
      (λ s. IsValid s × Sized (pos 4097) s.capacity × ((x : List ℕ) → ¬ Holds s.buckets x))
link_hash_set_new-IsValid_example = link_hash_set_new-IsValid (pos 4097)

link_hash_set_resize-Resized_example : Returns (link_hash_set_resize pair) (Resized pair)
link_hash_set_resize-Resized_example =
    link_hash_set_resize-Resized pair pair-IsValid (unfold empty_set in omega arith)

link_hash_set_add-Added_example :
    Returns (link_hash_set_add pair (some name_a)) (λ r. IsValid r.1 × Added pair name_a r)
link_hash_set_add-Added_example =
    link_hash_set_add-Added pair name_a pair-IsValid (unfold empty_set in omega arith)
