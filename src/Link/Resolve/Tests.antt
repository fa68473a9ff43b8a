-- ===== src/Link/Resolve/Tests.antt =====
-- A root with the directory `a`, which is not loaded yet and holds the link `b`.
use httpdirfs.Prelude.{
  ℕ, ◌≡◌, refl, List, [], ◌∷◌, true, false, Option, none, some, ◌==◌, if◌then◌else◌, arith,
}
use httpdirfs.Prelude.Int.{ℤ, pos}
use httpdirfs.Prelude.Run.{ok, fatal, value_or}
use httpdirfs.Link.Resolve.{
  Node, Table, Tables, Maker, make_table, put_table, count_by, set_next, free_links,
  link_table_free, forget_link, link_table_unref, same_name, find_from, find_link, skip_slash,
  drop_last_slash, cut, hang_in, enter_table, find_last, descend, path_to_link_recursive, hold,
  path_to_link,
}
use httpdirfs.Link.Resolve.Splitting.{AllNames, path_of}
use httpdirfs.Link.Resolve.Walking.{
  IsFirst, by_url, IsUpdated, IsHung, counted, Walk, found, made, Held, one_more,
}
use httpdirfs.Link.Resolve.Following.{path_to_link-Walk}
use httpdirfs.Cache.Lifecycle.{normal, single, sonic}

program : Unit {0}
unfolding make_table put_table count_by set_next free_links link_table_free forget_link
    link_table_unref same_name find_from find_link skip_slash drop_last_slash cut hang_in
    enter_table find_last descend path_to_link_recursive hold path_to_link
program = tt

abbrev node : List ℕ → Node
node name = record {
  linkname = name;
  f_url = name;
  sonic_id = name;
  sonic_depth = pos 0;
  next_table = none;
}

-- the page of every URL has the link `b`
abbrev listed : List ℕ → Option (List Node)
listed url = some (node (47 ∷ []) ∷ node (98 ∷ []) ∷ [])

abbrev page : Maker
page = record {
  mode = normal;
  sonic_id3 = false;
  link_table_new = listed;
  sonic_link_table_new_index = λ id. none;
  sonic_link_table_new_id3 = λ depth id. none;
}

-- no table in the index mode of Sonic
abbrev missing : Maker
missing = record page { mode = sonic }

abbrev quiet : Tables → Tables
quiet s = s

abbrev root_table : Table
root_table = record {
  links = node (47 ∷ []) ∷ node (97 ∷ []) ∷ [];
  refcount = pos 0;
  orphaned = false;
  parent_tbl = none;
  parent_link = none;
}

abbrev tree : Tables
tree = record { table_at = λ a. if a == 0 then some root_table else none; fresh = 1; root = some 0 }

-- in the mode of a single file there are no tables to make
single_is_fatal :
    path_to_link (record page { mode = single }) quiet (97 ∷ 47 ∷ 98 ∷ []) tree ≡ fatal
unfolding program
single_is_fatal = refl

abbrev resolved : Option (ℕ × ℕ) × Tables
resolved = value_or (none, tree) (path_to_link page quiet (47 ∷ 97 ∷ 47 ∷ 98 ∷ 47 ∷ []) tree)

finds : resolved.0 ≡ some (1, 1)
unfolding program
finds = refl

abbrev refcount_at : Tables → ℕ → Option ℤ
refcount_at s a = elim (s.table_at a) [ none ↦ none | some t ↦ some t.refcount ]

-- the root is the parent of a table, and the new table has the link that was found
root_counts : refcount_at resolved.1 0 ≡ some (pos 1)
unfolding program
root_counts = refl

found_counts : refcount_at resolved.1 1 ≡ some (pos 1)
unfolding program
found_counts = refl

abbrev not_found : Option (ℕ × ℕ) × Tables
not_found = value_or (some (0, 0), tree) (path_to_link missing quiet (47 ∷ 97 ∷ 47 ∷ 98 ∷ []) tree)

-- a table that the server does not give leaves the references as they were
gives_back : refcount_at not_found.1 0 ≡ some (pos 0)
unfolding program
gives_back = refl

names-AllNames : AllNames ((97 ∷ []) ∷ (98 ∷ []) ∷ [])
names-AllNames = (
  record { some_byte = omega arith; no_slash = refl },
  (record { some_byte = omega arith; no_slash = refl }, tt),
)

-- the root while the table of `a` is made
abbrev waiting : Tables
waiting = record tree { table_at = λ a. if a == 0 then some (counted root_table (pos 1)) else none }

abbrev root_linked : Table
root_linked = record root_table {
  links = node (47 ∷ []) ∷ record (node (97 ∷ [])) { next_table = some 1 } ∷ [];
  refcount = pos 1;
}

abbrev new_table : Table
new_table = record {
  links = node (47 ∷ []) ∷ node (98 ∷ []) ∷ [];
  refcount = pos 0;
  orphaned = false;
  parent_tbl = some 0;
  parent_link = some (0, 1);
}

-- the tables at the end, with a count for the new table
abbrev grown : ℤ → Tables
grown refcount = record {
  table_at = λ a.
      if a == 0
      then some root_linked
      else if a == 1
      then some (counted new_table refcount)
      else none;
  fresh = 2;
  root = some 0;
}

second-IsFirst : (name head : List ℕ) → IsFirst name (node head ∷ node name ∷ []) 1 (node name)
second-IsFirst name head = record {
  behind_head = omega arith;
  there = refl;
  named = refl;
  earlier = λ j other low high at. absurd (omega (arith, low, high));
}

waiting-IsUpdated : IsUpdated tree 0 (counted root_table (pos 1)) waiting
waiting-IsUpdated = record { here = refl; elsewhere = λ b h. rw h refl; fresh = refl; root = refl }

grown-IsHung :
    IsHung waiting 0 1 (counted root_table (pos 1)) (node (97 ∷ [])) new_table.links (grown (pos 0))
grown-IsHung = record {
  here = refl;
  new = refl;
  elsewhere = λ b h f. rw (h, f) refl;
  fresh = refl;
  root = refl;
}

grown-Walk : Walk page quiet 0 (97 ∷ []) ((98 ∷ []) ∷ []) tree (some (1, 1)) (grown (pos 0))
grown-Walk =
    made 0 1 (97 ∷ []) (98 ∷ []) [] tree waiting (grown (pos 0)) (grown (pos 0)) root_table
      (counted root_table (pos 1)) (node (97 ∷ [])) (node (97 ∷ [])) new_table.links (some (1, 1))
      refl (second-IsFirst (97 ∷ []) (47 ∷ [])) refl waiting-IsUpdated (by_url refl) refl refl refl
      (omega arith) grown-IsHung
      (found 1 1 (98 ∷ []) (grown (pos 0)) new_table (node (98 ∷ [])) refl
        (second-IsFirst (98 ∷ []) (47 ∷ [])))

grown-Held : Held (grown (pos 0)) (some (1, 1)) (grown (pos 1))
grown-Held =
    one_more 1 1 new_table (grown (pos 1)) refl
      (record { here = refl; elsewhere = λ b h. rw h refl; fresh = refl; root = refl })

path_to_link-Walk_example :
    path_to_link page quiet (path_of true ((97 ∷ []) ∷ (98 ∷ []) ∷ [])) tree
    ≡ ok (some (1, 1), grown (pos 1))
path_to_link-Walk_example =
    path_to_link-Walk page quiet true (97 ∷ []) ((98 ∷ []) ∷ []) 0 tree (grown (pos 0))
      (grown (pos 1)) (some (1, 1)) names-AllNames (omega arith) refl grown-Walk grown-Held
