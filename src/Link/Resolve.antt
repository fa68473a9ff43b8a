-- ===== src/Link/Resolve.antt =====
-- `path_to_Link` and `path_to_Link_recursive` of src/link.c, with the part of the lifetime of
-- link tables that they need. The tables are in a heap; an access to an address without a table is
-- a fault. A link is the address of its table and its index there.
pub mod Splitting
pub mod Walking
pub mod Following
mod Tests
use httpdirfs.Prelude.{
  ℕ, zero, suc, ◌+◌, List, [], ◌∷◌, Bool, true, false, ◌&&◌, Option, none, some, ◌==◌,
  if◌then◌else◌, get_elem?, set, length, take, str_eq,
}
use httpdirfs.Cache.Lifecycle.{Mode, normal, single, sonic}
use httpdirfs.Prelude.Int.{ℤ, pos, eqb_ℤ, ◌+ℤ◌, ◌-ℤ◌}
use httpdirfs.Prelude.Run.{Run, ok, fatal, fault, out_of_fuel, ◌>>=◌}

pub record Node : Type 0 where
  pub linkname : List ℕ
  pub f_url : List ℕ
  pub sonic_id : List ℕ
  pub sonic_depth : ℤ
  pub next_table : Option ℕ

-- `parent_link` is a link of the table at `parent_tbl`
pub record Table : Type 0 where
  pub links : List Node
  pub refcount : ℤ
  pub orphaned : Bool
  pub parent_tbl : Option ℕ
  pub parent_link : Option (ℕ × ℕ)

pub record Tables : Type 0 where
  pub table_at : ℕ → Option Table
  pub fresh : ℕ
  pub root : Option ℕ

unfoldable pub put_table : Tables → ℕ → Option Table → Tables
put_table s a t = record s { table_at = λ b. if b == a then t else s.table_at b }

-- `refcount` of a table changes by a number
unfoldable pub count_by : ℤ → Tables → ℕ → Run Tables
unfolding put_table
count_by z s a = elim (s.table_at a) [
  | none ↦ fault
  | some t ↦ ok (put_table s a (some (record t { refcount = t.refcount +ℤ z })))
]

unfoldable pub set_next : Tables → ℕ × ℕ → Option ℕ → Run Tables
unfolding put_table
set_next s (a, i) next = elim (s.table_at a) [
  | none ↦ fault
  | some t ↦ elim (get_elem? t.links i) [
    | none ↦ fault
    | some link ↦ ok (
        put_table s a
          (some (record t { links = set t.links i (record link { next_table = next }) })))
  ]
]

-- the loop of `LinkTable_free`
unfoldable pub free_links : (Tables → Option ℕ → Run Tables) → List Node → Tables → Run Tables
free_links free [] s = ok s
free_links free (link ∷ links) s = free s link.next_table >>= (λ s1. free_links free links s1)

unfoldable pub link_table_free : ℕ → Tables → Option ℕ → Run Tables
unfolding free_links
link_table_free fuel s none = ok s
link_table_free zero s (some a) = out_of_fuel
link_table_free (suc fuel) s (some a) = elim (s.table_at a) [
  | none ↦ fault
  | some t ↦ free_links (link_table_free fuel) t.links s >>= (λ s1. ok (put_table s1 a none))
]

unfoldable pub forget_link : Tables → Option (ℕ × ℕ) → Run Tables
forget_link s none = ok s
forget_link s (some link) = set_next s link none

-- A reference is given back; a table that is orphaned and has no reference left is taken off its
-- link and freed, and gives back the reference to its parent.
unfoldable pub link_table_unref : ℕ → Tables → Option ℕ → Run Tables
unfolding count_by link_table_free forget_link
link_table_unref fuel s none = ok s
link_table_unref zero s (some a) = out_of_fuel
link_table_unref (suc fuel) s (some a) = elim (s.table_at a) [
  | none ↦ fault
  | some t ↦ count_by (pos 0 -ℤ pos 1) s a >>= (λ s1.
      if eqb_ℤ (t.refcount -ℤ pos 1) (pos 0) && t.orphaned
      then (forget_link s1 t.parent_link >>= (λ s2.
          link_table_free s2.fresh s2 (some a) >>= (λ s3. link_table_unref fuel s3 t.parent_tbl)))
      else ok s1)
]

-- strncmp(path, linkname, NAME_MAX) == 0
unfoldable pub same_name : List ℕ → List ℕ → Bool
same_name path linkname = str_eq (take 255 path) (take 255 linkname)

unfoldable pub find_from : List ℕ → ℕ → List Node → Option ℕ
unfolding same_name
find_from path i [] = none
find_from path i (link ∷ links) =
    let rest = find_from path (suc i) links in if same_name path link.linkname then some i else rest

-- the loops over the links of a table; the first one is the table itself
unfoldable pub find_link : List ℕ → List Node → Option ℕ
unfolding find_from
find_link path [] = none
find_link path (head ∷ links) = find_from path 1 links

unfoldable pub skip_slash : List ℕ → List ℕ
skip_slash [] = []
skip_slash (c ∷ cs) = if c == 47 then cs else c ∷ cs

unfoldable pub drop_last_slash : List ℕ → List ℕ
drop_last_slash [] = []
drop_last_slash (c ∷ []) = if c == 47 then [] else c ∷ []
drop_last_slash (c ∷ d ∷ ds) = c ∷ drop_last_slash (d ∷ ds)

-- strchr(path, '/'): what is before and behind the slash
unfoldable pub cut : List ℕ → Option (List ℕ × List ℕ)
cut [] = none
cut (c ∷ cs) =
    let rest = cut cs in
    if c == 47
    then some ([], cs)
    else elim rest [ none ↦ none | some (name, next) ↦ some (c ∷ name, next) ]

unfoldable pub find_last : List ℕ → ℕ → Tables → Run (Option (ℕ × ℕ) × Tables)
find_last name a s = elim (s.table_at a) [
  | none ↦ fault
  | some t ↦ elim (find_link name t.links) [ none ↦ ok (none, s) | some i ↦ ok (some (a, i), s) ]
]

-- a link that is found takes a reference to its table
unfoldable pub hold : Option (ℕ × ℕ) × Tables → Run (Option (ℕ × ℕ) × Tables)
unfolding count_by
hold (none, s) = ok (none, s)
hold (some (a, i), s) = count_by (pos 1) s a >>= (λ s1. ok (some (a, i), s1))

-- CONFIG.mode and CONFIG.sonic_id3, and the functions that make a table of what a server has for a
-- URL, or for an identifier of Sonic, with its depth or without. They give the links of the table,
-- or nothing.
pub record Maker : Type 0 where
  pub mode : Mode
  pub sonic_id3 : Bool
  pub link_table_new : List ℕ → Option (List Node)
  pub sonic_link_table_new_index : List ℕ → Option (List Node)
  pub sonic_link_table_new_id3 : ℤ → List ℕ → Option (List Node)

-- the new table for a link, by the mode
unfoldable pub make_table : Maker → Node → Run (Option (List Node))
make_table m link = elim m.mode [
  | normal ↦ ok (m.link_table_new link.f_url)
  | sonic ↦
      if m.sonic_id3
      then ok (m.sonic_link_table_new_id3 link.sonic_depth link.sonic_id)
      else ok (m.sonic_link_table_new_index link.sonic_id)
  | single ↦ fatal
]

-- `maker` makes new tables, and `others` is what other threads do to the tables while the lock is
-- free.
module _ (maker : Maker) (others : Tables → Tables) where
  -- The new table goes to the link, unless the link has got one meanwhile.
  unfoldable pub hang_in : ℕ → ℕ → List Node → Tables → Run (Option ℕ × Tables)
  unfolding put_table count_by set_next
  hang_in a i links s = elim (s.table_at a) [
    | none ↦ fault
    | some t ↦ elim (get_elem? t.links i) [
      | none ↦ fault
      | some link ↦ elim link.next_table [
        | some b ↦ count_by (pos 0 -ℤ pos 1) s a >>= (λ s1. ok (some b, s1))
        | none ↦
            let new : Table = record {
              links = links;
              refcount = pos 0;
              orphaned = false;
              parent_tbl = some a;
              parent_link = some (a, i);
            } in
            set_next (record (put_table s s.fresh (some new)) { fresh = suc s.fresh }) (a, i)
              (some s.fresh)
            >>= (λ s1. ok (some s.fresh, s1))
      ]
    ]
  ]

  -- `next_table` of a link, which is made if there is none yet
  unfoldable pub enter_table : ℕ → ℕ → Tables → Run (Option ℕ × Tables)
  unfolding make_table hang_in link_table_unref
  enter_table a i s = elim (s.table_at a) [
    | none ↦ fault
    | some t ↦ elim (get_elem? t.links i) [
      | none ↦ fault
      | some link ↦ elim link.next_table [
        | some b ↦ ok (some b, s)
        | none ↦ count_by (pos 1) s a >>= (λ s1. make_table maker link >>= (λ made.
            let s2 = others s1 in
            elim made [
              | none ↦ link_table_unref s2.fresh s2 (some a) >>= (λ s3. ok (none, s3))
              | some links ↦ hang_in a i links s2
            ]))
      ]
    ]
  ]

  -- the table of a name in the table at `a`
  unfoldable pub descend : List ℕ → ℕ → Tables → Run (Option ℕ × Tables)
  unfolding enter_table
  descend name a s = elim (s.table_at a) [
    | none ↦ fault
    | some t ↦ elim (find_link name t.links) [ none ↦ ok (none, s) | some i ↦ enter_table a i s ]
  ]

  -- A path that becomes empty is no link; each recursion shortens the path.
  unfoldable pub path_to_link_recursive :
      ℕ → List ℕ → Option ℕ → Tables → Run (Option (ℕ × ℕ) × Tables)
  unfolding find_last descend
  path_to_link_recursive zero path tbl s = out_of_fuel
  path_to_link_recursive (suc fuel) path none s = ok (none, s)
  path_to_link_recursive (suc fuel) [] (some a) s = ok (none, s)
  path_to_link_recursive (suc fuel) (c ∷ cs) (some a) s =
      elim (cut (drop_last_slash (skip_slash (c ∷ cs)))) [
        | none ↦ find_last (drop_last_slash (skip_slash (c ∷ cs))) a s
        | some (name, next) ↦ descend name a s >>= (λ r. path_to_link_recursive fuel next r.0 r.1)
      ]

  unfoldable pub path_to_link : List ℕ → Tables → Run (Option (ℕ × ℕ) × Tables)
  unfolding path_to_link_recursive hold
  path_to_link path s =
      path_to_link_recursive (suc (length (take 4096 path))) (take 4096 path) s.root s >>= hold
