-- ===== src/Link/HashSet.antt =====
-- `LinkHashSet` of src/link.c: open addressing with linear probing over a power of two of buckets.
pub mod Walk
pub mod Insertion
pub mod Resizing
pub mod Adding
mod Tests
use Prim.Native.Nat.{bit_and}
use httpdirfs.Prelude.{
  ℕ, zero, suc, ◌+◌, ◌-◌, ◌*◌, ◌/◌, ◌^◌, List, [], ◌∷◌, Bool, true, false, ◌&&◌, Option, none, some,
  ltb, leb, if◌then◌else◌, get_elem?, set, length, replicate,
}
use httpdirfs.Prelude.Int.{ℤ, pos, negsuc}
use httpdirfs.Prelude.Run.{Run, ok, fatal, fault, out_of_fuel, ◌>>=◌}
use httpdirfs.Link.Names.{link_linknames_equal, link_hash_str}

abbrev pub int_max : ℕ
int_max = 2 ^ 31 - 1

abbrev pub Buckets : Type 0
Buckets = List (Option (List ℕ))

pub record LinkHashSet : Type 0 where
  pub buckets : Buckets
  pub capacity : ℕ
  pub size : ℕ

-- `power <<= 1`, which is undefined if the result does not fit an int
unfoldable pub shift_power : ℕ → Run ℕ
shift_power power = if ltb int_max (power * 2) then fault else ok (power * 2)

-- `while (power < capacity && power < (1 << 30)) power <<= 1`
unfoldable pub power_loop : ℕ → ℕ → ℕ → Run ℕ
unfolding shift_power
power_loop zero capacity power = out_of_fuel
power_loop (suc fuel) capacity power =
    let rest = shift_power power >>= (λ next. power_loop fuel capacity next) in
    if ltb power capacity && ltb power (2 ^ 30) then rest else ok power

-- 31 rounds of fuel: thirty shifts take 1 to 2^30, and one more round is the last test
unfoldable pub new_capacity : ℤ → Run ℕ
unfolding power_loop
new_capacity (pos zero) = ok 16
new_capacity (pos (suc n)) = power_loop 31 (suc n) 1
new_capacity (negsuc n) = ok 16

unfoldable pub empty_set : ℕ → LinkHashSet
empty_set capacity = record { buckets = replicate capacity none; capacity = capacity; size = 0 }

unfoldable pub link_hash_set_new : ℤ → Run LinkHashSet
unfolding new_capacity empty_set
link_hash_set_new capacity = new_capacity capacity >>= (λ power. ok (empty_set power))

-- how a probe ends: at a name that stops it, or at the index of an empty bucket
pub data Probe : Type 0 where
  stopped : Probe
  free : ℕ → Probe

-- The loop `while (buckets[bucket] != NULL) { …; bucket = (bucket + 1) & mask; }`, which leaves
-- early at a name that `stop` accepts. An index outside the array is a fault.
unfoldable pub probe : (List ℕ → Bool) → ℕ → Buckets → ℕ → ℕ → Run Probe
probe stop zero bs mask bucket = out_of_fuel
probe stop (suc fuel) bs mask bucket = elim (get_elem? bs bucket) [
  | none ↦ fault
  | some none ↦ ok (free bucket)
  | some (some x) ↦ elim (stop x) [
    | true ↦ ok stopped
    | false ↦ probe stop fuel bs mask (bit_and (bucket + 1) mask)
  ]
]

-- `set->buckets[bucket] = name`
unfoldable pub store : Buckets → List ℕ → Probe → Run Buckets
store bs name stopped = fault
store bs name (free j) = ok (set bs j (some name))

-- the loop of `LinkHashSet_resize` over the old buckets
unfoldable pub reinsert : Buckets → Buckets → ℕ → Run Buckets
unfolding probe store
reinsert [] fresh mask = ok fresh
reinsert (none ∷ old) fresh mask = reinsert old fresh mask
reinsert (some x ∷ old) fresh mask =
    probe (λ y. false) (length fresh) fresh mask (bit_and (link_hash_str x) mask) >>= λ p.
    store fresh x p >>= λ next. reinsert old next mask

unfoldable pub link_hash_set_resize : LinkHashSet → Run LinkHashSet
unfolding reinsert
link_hash_set_resize s =
    if leb s.capacity 0
    then ok s
    else if ltb (int_max / 2) s.capacity
    then fatal
    else reinsert s.buckets (replicate (s.capacity * 2) none) (s.capacity * 2 - 1) >>= λ fresh.
        ok (record { buckets = fresh; capacity = s.capacity * 2; size = s.size })

unfoldable pub finish_add : LinkHashSet → List ℕ → Probe → Run (Bool × LinkHashSet)
finish_add s name stopped = ok (false, s)
finish_add s name (free j) =
    ok (true, record s { buckets = set s.buckets j (some name); size = s.size + 1 })

-- the part of `LinkHashSet_add` after the resize
unfoldable pub probe_and_add : LinkHashSet → List ℕ → Run (Bool × LinkHashSet)
unfolding probe finish_add
probe_and_add s name =
    probe (λ y. link_linknames_equal (some y) (some name)) s.capacity s.buckets (s.capacity - 1)
      (bit_and (link_hash_str name) (s.capacity - 1))
    >>= finish_add s name

-- the result 1 is `true`; a null `set` or `linkname` gives 0
unfoldable pub link_hash_set_add : LinkHashSet → Option (List ℕ) → Run (Bool × LinkHashSet)
link_hash_set_add s none = ok (false, s)
link_hash_set_add s (some name) =
    if leb s.capacity 0
    then ok (false, s)
    else (if leb (s.capacity / 2) s.size then link_hash_set_resize s else ok s) >>= λ roomy.
        probe_and_add roomy name
