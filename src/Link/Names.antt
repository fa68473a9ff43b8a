-- ===== src/Link/Names.antt =====
-- The functions on link names of src/link.c: `linkname_to_LinkType`, `Link_new`,
-- `link_linknames_equal` and `link_hash_str`. A null pointer is `none`.
pub mod Equality
pub mod Hashing
pub mod Kinds
mod Tests
use httpdirfs.Prelude.{
  ℕ, zero, suc, ◌+◌, ◌-◌, ◌*◌, ◌%◌, ◌^◌, min, max, List, [], ◌∷◌, Bool, true, false, ◌&&◌, ◌||◌,
  not, Option, none, some, ◌==◌, ltb, leb, if◌then◌else◌, take, get_or, length, str_eq,
}
use httpdirfs.Util.Paths.{strn}

abbrev pub name_max : ℕ
name_max = 255

pub data LinkType : Type 0 where
  link_head link_dir link_file link_invalid : LinkType
  link_uninitialised_file link_uninitialised_dir : LinkType

-- strnlen(s, NAME_MAX)
unfoldable pub name_len : List ℕ → ℕ
name_len s = min name_max (length s)

-- isprint in the C locale, on a `char`: bytes from 128 on are negative and not printable
unfoldable pub isprint : ℕ → Bool
isprint c = leb 32 c && leb c 126

unfoldable pub all_printable : List ℕ → Bool
unfolding isprint
all_printable [] = true
all_printable (c ∷ cs) = isprint c && all_printable cs

-- strchr, as an index
unfoldable pub strchr : List ℕ → ℕ → Option ℕ
strchr [] c = none
strchr (x ∷ xs) c =
    if x == c then some 0 else elim (strchr xs c) [ none ↦ none | some i ↦ some (suc i) ]

-- the tests after the first character: a slash elsewhere than at the last position is refused
unfoldable pub slash_in_middle : List ℕ → Bool
unfolding strchr name_len
slash_in_middle s = elim (strchr s b'/') [ none ↦ false | some i ↦ not (i == name_len s - 1) ]

unfoldable pub linkname_to_link_type : List ℕ → LinkType
unfolding all_printable slash_in_middle name_len
linkname_to_link_type [] = link_invalid
linkname_to_link_type (c ∷ cs) =
    if c == b'/'
    then link_invalid
    else if not (all_printable (c ∷ cs))
    then link_invalid
    else if slash_in_middle (c ∷ cs)
    then link_invalid
    else if get_or (c ∷ cs) (name_len (c ∷ cs) - 1) 0 == b'/'
    then link_uninitialised_dir
    else link_uninitialised_file

-- the comparison once both pointers are known to be set
unfoldable pub names_equal : List ℕ → List ℕ → Bool
unfolding name_len
names_equal a b =
    let len_a = name_len a in
    let len_b = name_len b in
    let comp_len = min len_a len_b in
    if ltb 1 (max len_a len_b - comp_len)
    then false
    else if comp_len == 0
    then false
    else if not (str_eq (take comp_len a) (take comp_len b))
    then false
    else if len_a == len_b
    then true
    else get_or (if ltb len_b len_a then a else b) comp_len 0 == b'/'

unfoldable pub link_linknames_equal : Option (List ℕ) → Option (List ℕ) → Bool
unfolding names_equal
link_linknames_equal (some a) (some b) = names_equal a b
link_linknames_equal none b = false
link_linknames_equal (some a) none = false

-- the length without trailing slashes
unfoldable pub strip_len : List ℕ → ℕ → ℕ
strip_len s zero = 0
strip_len s (suc n) = let rest = strip_len s n in if get_or s n 0 == b'/' then rest else suc n

-- `hash = ((hash << 5) + hash) + c` on a 32-bit unsigned int
unfoldable pub hash_loop : ℕ → List ℕ → ℕ
hash_loop hash [] = hash
hash_loop hash (c ∷ cs) = hash_loop ((hash * 32 + hash + c) % 2 ^ 32) cs

unfoldable pub link_hash_str : List ℕ → ℕ
unfolding strip_len hash_loop name_len
link_hash_str s = hash_loop 5381 (take (strip_len s (name_len s)) s)
