-- ===== src/Link/Names/Tests.antt =====
-- Runs of the functions on names, and the theorems at `dir/`.
use httpdirfs.Prelude.{ℕ, ◌+◌, ◌*◌, ◌≡◌, refl, ◌↔◌, ◌≢◌, List, [], ◌∷◌, true, some, arith}
use httpdirfs.Link.Names.{
  link_invalid, link_uninitialised_dir, link_uninitialised_file, all_printable,
  linkname_to_link_type, link_linknames_equal, link_hash_str,
}
use httpdirfs.Link.Names.Equality.{SameName, cut, link_linknames_equal-SameName}
use httpdirfs.Link.Names.Hashing.{link_hash_str-equal}
use httpdirfs.Link.Names.Kinds.{IsDirName, NoSlash, linkname_to_link_type_iff}

abbrev dir_name : List ℕ
dir_name = b'd' ∷ b'i' ∷ b'r' ∷ b'/' ∷ []

abbrev bare_name : List ℕ
bare_name = b'd' ∷ b'i' ∷ b'r' ∷ []

abbrev deep_name : List ℕ
deep_name = b'a' ∷ b'/' ∷ b'b' ∷ []

dir_kind : linkname_to_link_type dir_name ≡ link_uninitialised_dir
unfolding linkname_to_link_type
dir_kind = refl

deep_kind : linkname_to_link_type deep_name ≡ link_invalid
unfolding linkname_to_link_type
deep_kind = refl

-- the value that the unit test of the repository's hash has for "a"
hash_a : link_hash_str (b'a' ∷ []) ≡ 5381 * 33 + 97
unfolding link_hash_str
hash_a = refl

same_names : link_linknames_equal (some dir_name) (some bare_name) ≡ true
unfolding link_linknames_equal
same_names = refl

linkname_to_link_type_iff_example :
    ((linkname_to_link_type dir_name ≡ link_uninitialised_dir)
      ↔ ((all_printable dir_name ≡ true) × IsDirName dir_name))
    × ((linkname_to_link_type dir_name ≡ link_uninitialised_file)
        ↔ ((all_printable dir_name ≡ true) × (dir_name ≢ []) × NoSlash dir_name))
linkname_to_link_type_iff_example = linkname_to_link_type_iff dir_name (omega arith)

link_linknames_equal-SameName_example :
    (link_linknames_equal (some dir_name) (some bare_name) ≡ true)
    ↔ SameName (cut dir_name) (cut bare_name)
link_linknames_equal-SameName_example = link_linknames_equal-SameName dir_name bare_name

link_hash_str-equal_example : link_hash_str dir_name ≡ link_hash_str bare_name
link_hash_str-equal_example = link_hash_str-equal dir_name bare_name same_names
