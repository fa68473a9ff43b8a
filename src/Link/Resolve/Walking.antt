-- ===== src/Link/Resolve/Walking.antt =====
-- What `path_to_Link` finds and does to the tables, name by name, told without its functions.
use httpdirfs.Prelude.{
  ℕ, suc, ◌≤◌, ◌<◌, ◌≡◌, List, [], ◌∷◌, true, false, Option, none, some, ◌==◌, get_elem?, set, take,
}
use httpdirfs.Prelude.Int.{ℤ, pos, ◌+ℤ◌, ◌-ℤ◌}
use httpdirfs.Cache.Lifecycle.{normal, sonic}
use httpdirfs.Link.Resolve.{Node, Table, Tables, Maker}

-- equal in the first NAME_MAX bytes
abbrev pub Named : List ℕ → Node → Type 0
Named name link = take 255 name ≡ take 255 link.linkname

-- The link at the index `i`, which is not the one of the table itself, is the first with the name.
pub record IsFirst (name : List ℕ) (links : List Node) (i : ℕ) (link : Node) : Type 0 where
  pub behind_head : 1 ≤ i
  pub there : get_elem? links i ≡ some link
  pub named : Named name link
  pub earlier :
      (j : ℕ) (other : Node) → 1 ≤ j → j < i → get_elem? links j ≡ some other → ¬ Named name other

abbrev pub IsAbsent : List ℕ → List Node → Type 0
IsAbsent name links =
    (j : ℕ) (other : Node) → 1 ≤ j → get_elem? links j ≡ some other → ¬ Named name other

-- what is made for a link: the mode has a function for it
pub data Makes (m : Maker) (link : Node) : Option (List Node) → Type 0 where
  by_url : m.mode ≡ normal → Makes m link (m.link_table_new link.f_url)
  by_index :
      m.mode ≡ sonic
      → m.sonic_id3 ≡ false
      → Makes m link (m.sonic_link_table_new_index link.sonic_id)
  by_id3 :
      m.mode ≡ sonic
      → m.sonic_id3 ≡ true
      → Makes m link (m.sonic_link_table_new_id3 link.sonic_depth link.sonic_id)

-- The table at `a` becomes `t`, and nothing else changes.
pub record IsUpdated (s : Tables) (a : ℕ) (t : Table) (s' : Tables) : Type 0 where
  pub here : s'.table_at a ≡ some t
  pub elsewhere : (b : ℕ) → (b == a) ≡ false → s'.table_at b ≡ s.table_at b
  pub fresh : s'.fresh ≡ s.fresh
  pub root : s'.root ≡ s.root

-- The link at the index `i` of the table `t` at `a` gets a new table with these links, which has no
-- reference and knows its parent.
pub record IsHung (s : Tables) (a i : ℕ) (t : Table) (link : Node) (links : List Node) (s' : Tables)
    : Type 0 where
  pub here :
      s'.table_at a
      ≡ some (record t { links = set t.links i (record link { next_table = some s.fresh }) })
  pub new :
      s'.table_at s.fresh
      ≡ some (record {
        links = links;
        refcount = pos 0;
        orphaned = false;
        parent_tbl = some a;
        parent_link = some (a, i);
      })
  pub elsewhere : (b : ℕ) → (b == a) ≡ false → (b == s.fresh) ≡ false → s'.table_at b ≡ s.table_at b
  pub fresh : s'.fresh ≡ suc s.fresh
  pub root : s'.root ≡ s.root

-- a table with its count of references
abbrev pub counted : Table → ℤ → Table
counted t refcount = record t { refcount = refcount }

module _ (maker : Maker) (others : Tables → Tables) where
  -- What comes of the names, the first of them in the table at `a`: the link and the tables
  -- behind. While a new table is made, its parent has one reference more, and the other threads
  -- may change the tables.
  pub data Walk : ℕ → List ℕ → List (List ℕ) → Tables → Option (ℕ × ℕ) → Tables → Type 0 where
    found :
        (a i : ℕ) (name : List ℕ) (s : Tables) (t : Table) (link : Node)
        → s.table_at a ≡ some t
        → IsFirst name t.links i link
        → Walk a name [] s (some (a, i)) s
    missing :
        (a : ℕ) (name : List ℕ) (names : List (List ℕ)) (s : Tables) (t : Table)
        → s.table_at a ≡ some t
        → IsAbsent name t.links
        → Walk a name names s none s
    down :
        (a i b : ℕ) (name next : List ℕ) (names : List (List ℕ)) (s s' : Tables) (t : Table)
        (link : Node) (r : Option (ℕ × ℕ))
        → s.table_at a ≡ some t
        → IsFirst name t.links i link
        → link.next_table ≡ some b
        → Walk b next names s r s'
        → Walk a name (next ∷ names) s r s'
    made :
        (a i : ℕ) (name next : List ℕ) (names : List (List ℕ)) (s s1 s3 s' : Tables) (t t2 : Table)
        (link link2 : Node) (links : List Node) (r : Option (ℕ × ℕ))
        → s.table_at a ≡ some t
        → IsFirst name t.links i link
        → link.next_table ≡ none
        → IsUpdated s a (counted t (t.refcount +ℤ pos 1)) s1
        → Makes maker link (some links)
        → (others s1).table_at a ≡ some t2
        → get_elem? t2.links i ≡ some link2
        → link2.next_table ≡ none
        → a < (others s1).fresh
        → IsHung (others s1) a i t2 link2 links s3
        → Walk (others s1).fresh next names s3 r s'
        → Walk a name (next ∷ names) s r s'
    raced :
        (a i b : ℕ) (name next : List ℕ) (names : List (List ℕ)) (s s1 s3 s' : Tables)
        (t t2 : Table) (link link2 : Node) (links : List Node) (r : Option (ℕ × ℕ))
        → s.table_at a ≡ some t
        → IsFirst name t.links i link
        → link.next_table ≡ none
        → IsUpdated s a (counted t (t.refcount +ℤ pos 1)) s1
        → Makes maker link (some links)
        → (others s1).table_at a ≡ some t2
        → get_elem? t2.links i ≡ some link2
        → link2.next_table ≡ some b
        → IsUpdated (others s1) a (counted t2 (t2.refcount -ℤ pos 1)) s3
        → Walk b next names s3 r s'
        → Walk a name (next ∷ names) s r s'
    refused :
        (a i : ℕ) (name next : List ℕ) (names : List (List ℕ)) (s s1 s' : Tables) (t t2 : Table)
        (link : Node)
        → s.table_at a ≡ some t
        → IsFirst name t.links i link
        → link.next_table ≡ none
        → IsUpdated s a (counted t (t.refcount +ℤ pos 1)) s1
        → Makes maker link none
        → (others s1).table_at a ≡ some t2
        → t2.orphaned ≡ false
        → a < (others s1).fresh
        → IsUpdated (others s1) a (counted t2 (t2.refcount -ℤ pos 1)) s'
        → Walk a name (next ∷ names) s none s'

-- The link that was found has one reference more to its table.
pub data Held (s : Tables) : Option (ℕ × ℕ) → Tables → Type 0 where
  nothing : Held s none s
  one_more :
      (a i : ℕ) (t : Table) (s' : Tables)
      → s.table_at a ≡ some t
      → IsUpdated s a (counted t (t.refcount +ℤ pos 1)) s'
      → Held s (some (a, i)) s'
