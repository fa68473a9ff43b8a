-- ===== src/Link/Resolve/Following.antt =====
-- `path_to_Link` follows the walk of Link/Resolve/Walking.
use mathlib.Core.Path.{fun_ext, subst}
use mathlib.Core.Option.{some-injective}
use httpdirfs.Prelude.{
  ℕ, zero, suc, ◌+◌, ◌≤◌, ◌<◌, ◌≡◌, refl, sym, ap, ◌∙◌, List, [], ◌∷◌, Bool, true, false, Option,
  none, some, ◌==◌, ◌&&◌, get_elem?, set, length, take, arith, Bool-cases, inl, inr, str_eq,
  str_eq_self, str_eq_sound,
}
use httpdirfs.Prelude.Int.{ℤ, pos, eqb_ℤ, ◌+ℤ◌, ◌-ℤ◌}
use httpdirfs.Prelude.Run.{Run, ok, ◌>>=◌}
use httpdirfs.Link.Resolve.{
  Node, Table, Tables, Maker, make_table, put_table, count_by, set_next, link_table_unref,
  same_name, find_from, find_link, find_last, hold, hang_in, enter_table, descend, path_to_link,
}
use httpdirfs.Link.Resolve.Splitting.{AllNames, walk, path_of, path_to_link-walk}
use httpdirfs.Link.Resolve.Walking.{
  Named, IsFirst, IsAbsent, Makes, by_url, by_index, by_id3, IsUpdated, IsHung, counted, Walk,
  found, missing, down, made, raced, refused, Held, nothing, one_more,
}

same_name-yes :
    (name : List ℕ) (link : Node) → Named name link → same_name name link.linkname ≡ true
unfolding same_name
same_name-yes name link e = ap (str_eq (take 255 name)) (sym e) ∙ str_eq_self (take 255 name)

same_name-no :
    (name : List ℕ) (link : Node) → ¬ Named name link → same_name name link.linkname ≡ false
unfolding same_name
same_name-no name link e = elim (Bool-cases (str_eq (take 255 name) (take 255 link.linkname))) [
  | inl h ↦ absurd (e (str_eq_sound (take 255 name) (take 255 link.linkname) h))
  | inr h ↦ h
]

-- the search from the index `k` on
find_from-first :
    (name : List ℕ) (k i : ℕ) (links : List Node) (link : Node)
    → get_elem? links i ≡ some link
    → Named name link
    → ((j : ℕ) (other : Node) → j < i → get_elem? links j ≡ some other → ¬ Named name other)
    → find_from name k links ≡ some (k + i)
unfolding find_from
find_from-first name k i [] link there named earlier = absurd (cc there)
find_from-first name k zero (x ∷ xs) link there named earlier =
    let same : x ≡ link = some-injective x link there in
    let yes : same_name name x.linkname ≡ true =
      same_name-yes name x (subst (Named name) (sym same) named) in
    rw (find_from, yes) (ap some (omega arith))
find_from-first name k (suc i) (x ∷ xs) link there named earlier =
    let no : same_name name x.linkname ≡ false =
      same_name-no name x (earlier 0 x (omega arith) refl) in
    let rest =
      find_from-first name (suc k) i xs link there named
        (λ j other h at. earlier (suc j) other (omega (arith, h)) at) in
    rw (find_from, no) (rest ∙ ap some (omega arith))

find_from-absent :
    (name : List ℕ) (k : ℕ) (links : List Node)
    → ((j : ℕ) (other : Node) → get_elem? links j ≡ some other → ¬ Named name other)
    → find_from name k links ≡ none
unfolding find_from
find_from-absent name k [] absent = refl
find_from-absent name k (x ∷ xs) absent =
    let no : same_name name x.linkname ≡ false = same_name-no name x (absent 0 x refl) in
    rw (find_from, no) (find_from-absent name (suc k) xs (λ j other at. absent (suc j) other at))

find_link-first :
    (name : List ℕ) (links : List Node) (i : ℕ) (link : Node)
    → IsFirst name links i link
    → find_link name links ≡ some i
unfolding find_link
find_link-first name [] i link k = let h = k.there in absurd (cc h)
find_link-first name (head ∷ links) zero link k = let h = k.behind_head in absurd (omega (arith, h))
find_link-first name (head ∷ links) (suc i) link k =
    find_from-first name 1 i links link k.there k.named
      (λ j other h at. k.earlier (suc j) other (omega arith) (omega (arith, h)) at)
    ∙ ap some (omega arith)

find_link-absent :
    (name : List ℕ) (links : List Node) → IsAbsent name links → find_link name links ≡ none
unfolding find_link
find_link-absent name [] absent = refl
find_link-absent name (head ∷ links) absent =
    find_from-absent name 1 links (λ j other at. absent (suc j) other (omega arith) at)

make_table-Makes :
    (m : Maker) (link : Node) (r : Option (List Node)) → Makes m link r → make_table m link ≡ ok r
unfolding make_table
make_table-Makes m link _ (by_url e) = rw (make_table, e) refl
make_table-Makes m link _ (by_index e f) = rw (make_table, e, f) refl
make_table-Makes m link _ (by_id3 e f) = rw (make_table, e, f) refl

abbrev tables : (ℕ → Option Table) → ℕ → Option ℕ → Tables
tables table_at fresh root = record { table_at = table_at; fresh = fresh; root = root }

tables-ext :
    (s s' : Tables)
    → ((b : ℕ) → s.table_at b ≡ s'.table_at b)
    → s.fresh ≡ s'.fresh
    → s.root ≡ s'.root
    → s ≡ s'
tables-ext s s' p q r =
    ap (λ f. tables f s.fresh s.root) (fun_ext p)
    ∙ ap (λ n. tables s'.table_at n s.root) q
    ∙ ap (tables s'.table_at s'.fresh) r

put_table-updated :
    (s : Tables) (a : ℕ) (t : Table) (s' : Tables)
    → IsUpdated s a t s'
    → put_table s a (some t) ≡ s'
unfolding put_table
put_table-updated s a t s' u =
    tables-ext (put_table s a (some t)) s'
      (λ b. elim (Bool-cases (b == a)) [
        | inl e ↦
            let same : b ≡ a = ground (arith, e) in rw e (sym u.here ∙ ap s'.table_at (sym same))
        | inr e ↦ rw e (sym (u.elsewhere b e))
      ])
      (sym u.fresh) (sym u.root)

count_by-updated :
    (z : ℤ) (s : Tables) (a : ℕ) (t : Table) (s' : Tables)
    → s.table_at a ≡ some t
    → IsUpdated s a (counted t (t.refcount +ℤ z)) s'
    → count_by z s a ≡ ok s'
unfolding count_by
count_by-updated z s a t s' at u =
    let step : count_by z s a ≡ ok (put_table s a (some (counted t (t.refcount +ℤ z)))) =
      simp (count_by, at) in
    step ∙ ap ok (put_table-updated s a (counted t (t.refcount +ℤ z)) s' u)

hold-Held : (s : Tables) (r : Option (ℕ × ℕ)) (s' : Tables) → Held s r s' → hold (r, s) ≡ ok (r, s')
unfolding hold
hold-Held s _ _ nothing = refl
hold-Held s _ _ (one_more a i t s' at u) =
    ap (λ m. m >>= (λ s1. ok (some (a, i), s1))) (count_by-updated (pos 1) s a t s' at u)

-- a table that is not orphaned stays when a reference is given back
unref-kept :
    (fuel : ℕ) (s : Tables) (a : ℕ) (t : Table) (s' : Tables)
    → 1 ≤ fuel
    → s.table_at a ≡ some t
    → t.orphaned ≡ false
    → IsUpdated s a (counted t (t.refcount -ℤ pos 1)) s'
    → link_table_unref fuel s (some a) ≡ ok s'
unfolding link_table_unref
unref-kept zero s a t s' h at kept u = absurd (omega (arith, h))
unref-kept (suc fuel) s a t s' h at kept u =
    let stays : (eqb_ℤ (t.refcount -ℤ pos 1) (pos 0) && t.orphaned) ≡ false =
      ground (arith, kept) in
    rw (link_table_unref, at, count_by-updated (pos 0 -ℤ pos 1) s a t s' at u, stays) refl

-- the two tables that are written when a new one is hung in
hang_in-hung :
    (maker : Maker) (others : Tables → Tables) (s : Tables) (a i : ℕ) (t : Table) (link : Node)
    (links : List Node) (s' : Tables)
    → s.table_at a ≡ some t
    → get_elem? t.links i ≡ some link
    → link.next_table ≡ none
    → a < s.fresh
    → IsHung s a i t link links s'
    → hang_in maker others a i links s ≡ ok (some s.fresh, s')
unfolding hang_in set_next put_table
hang_in-hung maker others s a i t link links s' at there bare below u =
    let new : Table = record {
      links = links;
      refcount = pos 0;
      orphaned = false;
      parent_tbl = some a;
      parent_link = some (a, i);
    } in
    let s1 : Tables = record (put_table s s.fresh (some new)) { fresh = suc s.fresh } in
    let other : (a == s.fresh) ≡ false = ground (arith, below) in
    let at1 : s1.table_at a ≡ some t = rw other at in
    let linked : Table = record t {
      links = set t.links i (record link { next_table = some s.fresh });
    } in
    let whole : put_table s1 a (some linked) ≡ s' =
      tables-ext (put_table s1 a (some linked)) s'
        (λ b. elim (Bool-cases (b == a)) [
          | inl e ↦
              let same : b ≡ a = ground (arith, e) in rw e (sym u.here ∙ ap s'.table_at (sym same))
          | inr e ↦ elim (Bool-cases (b == s.fresh)) [
            | inl f ↦
                let same : b ≡ s.fresh = ground (arith, f) in
                rw (e, f) (sym u.new ∙ ap s'.table_at (sym same))
            | inr f ↦ rw (e, f) (sym (u.elsewhere b e f))
          ]
        ])
        (sym u.fresh) (sym u.root) in
    let step : set_next s1 (a, i) (some s.fresh) ≡ ok (put_table s1 a (some linked)) =
      simp (set_next, at1, there) in
    let opens : hang_in maker others a i links s
        ≡ (set_next s1 (a, i) (some s.fresh) >>= (λ s2. ok (some s.fresh, s2))) =
      simp (hang_in, at, there, bare) in
    opens
    ∙ ap (λ m. m >>= (λ s2. ok (some s.fresh, s2))) step
    ∙ ap (λ z. ok (some s.fresh, z)) whole

hang_in-raced :
    (maker : Maker) (others : Tables → Tables) (s : Tables) (a i b : ℕ) (t : Table) (link : Node)
    (links : List Node) (s' : Tables)
    → s.table_at a ≡ some t
    → get_elem? t.links i ≡ some link
    → link.next_table ≡ some b
    → IsUpdated s a (counted t (t.refcount -ℤ pos 1)) s'
    → hang_in maker others a i links s ≡ ok (some b, s')
unfolding hang_in
hang_in-raced maker others s a i b t link links s' at there full u =
    let opens : hang_in maker others a i links s
        ≡ (count_by (pos 0 -ℤ pos 1) s a >>= (λ s1. ok (some b, s1))) =
      simp (hang_in, at, there, full) in
    opens
    ∙ ap (λ m. m >>= (λ s1. ok (some b, s1))) (count_by-updated (pos 0 -ℤ pos 1) s a t s' at u)

module _ (maker : Maker) (others : Tables → Tables) (a i : ℕ) (name : List ℕ) (s : Tables)
    (t : Table) (link : Node) (at : s.table_at a ≡ some t)
    (first : IsFirst name t.links i link) where
  descend-first : descend maker others name a s ≡ enter_table maker others a i s
  unfolding descend
  descend-first = simp (descend, at, find_link-first name t.links i link first)

  descend-down : (b : ℕ) → link.next_table ≡ some b → descend maker others name a s ≡ ok (some b, s)
  unfolding enter_table
  descend-down b full =
      let there = first.there in
      let opens : enter_table maker others a i s ≡ ok (some b, s) =
        simp (enter_table, at, there, full) in
      descend-first ∙ opens

  -- the lock is free while the new table is made
  abbrev go_on : Option (List Node) → Tables → Run (Option ℕ × Tables)
  go_on none s2 = link_table_unref s2.fresh s2 (some a) >>= (λ s3. ok (none, s3))
  go_on (some links) s2 = hang_in maker others a i links s2

  descend-making :
      (built : Option (List Node)) (s1 : Tables)
      → link.next_table ≡ none
      → IsUpdated s a (counted t (t.refcount +ℤ pos 1)) s1
      → Makes maker link built
      → descend maker others name a s ≡ go_on built (others s1)
  unfolding enter_table
  descend-making built s1 bare u makes =
      let there = first.there in
      let opens : enter_table maker others a i s ≡ (
          count_by (pos 1) s a >>= (λ s1. make_table maker link >>= (λ built.
            let s2 = others s1 in
            elim built [
              | none ↦ link_table_unref s2.fresh s2 (some a) >>= (λ s3. ok (none, s3))
              | some links ↦ hang_in maker others a i links s2
            ]))) =
        simp (enter_table, at, there, bare) in
      descend-first
      ∙ opens
      ∙ (rw (count_by-updated (pos 1) s a t s1 at u, make_table-Makes maker link built makes)
          (chosen built))
    where
      chosen :
          (built : Option (List Node))
          → (elim built [
            | none ↦
                link_table_unref (others s1).fresh (others s1) (some a) >>= (λ s3. ok (none, s3))
            | some links ↦ hang_in maker others a i links (others s1)
          ])
            ≡ go_on built (others s1)
      chosen none = refl
      chosen (some links) = refl

find_last-first :
    (a i : ℕ) (name : List ℕ) (s : Tables) (t : Table) (link : Node)
    → s.table_at a ≡ some t
    → IsFirst name t.links i link
    → find_last name a s ≡ ok (some (a, i), s)
unfolding find_last
find_last-first a i name s t link at first =
    simp (find_last, at, find_link-first name t.links i link first)

find_last-absent :
    (a : ℕ) (name : List ℕ) (s : Tables) (t : Table)
    → s.table_at a ≡ some t
    → IsAbsent name t.links
    → find_last name a s ≡ ok (none, s)
unfolding find_last
find_last-absent a name s t at absent = simp (find_last, at, find_link-absent name t.links absent)

descend-absent :
    (maker : Maker) (others : Tables → Tables) (a : ℕ) (name : List ℕ) (s : Tables) (t : Table)
    → s.table_at a ≡ some t
    → IsAbsent name t.links
    → descend maker others name a s ≡ ok (none, s)
unfolding descend
descend-absent maker others a name s t at absent =
    simp (descend, at, find_link-absent name t.links absent)

module _ (maker : Maker) (others : Tables → Tables) where
  -- the rest of the names from the table that a name leads to
  abbrev rest : List ℕ → List (List ℕ) → Option ℕ × Tables → Run (Option (ℕ × ℕ) × Tables)
  rest next names r = walk maker others (next ∷ names) r.0 r.1

  walk-Walk :
      (a : ℕ) (name : List ℕ) (names : List (List ℕ)) (s : Tables) (r : Option (ℕ × ℕ))
      (s' : Tables)
      → Walk maker others a name names s r s'
      → walk maker others (name ∷ names) (some a) s ≡ ok (r, s')
  walk-Walk _ _ _ _ _ _ (found a i name s t link at first) =
      find_last-first a i name s t link at first
  walk-Walk _ _ _ _ _ _ (missing a name [] s t at absent) = find_last-absent a name s t at absent
  walk-Walk _ _ _ _ _ _ (missing a name (next ∷ names) s t at absent) =
      ap (λ m. m >>= rest next names) (descend-absent maker others a name s t at absent)
  walk-Walk _ _ _ _ _ _ (down a i b name next names s s' t link r at first full more) =
      ap (λ m. m >>= rest next names) (descend-down maker others a i name s t link at first b full)
      ∙ walk-Walk b next names s r s' more
  walk-Walk _ _ _ _ _ _
        (made a i name next names s s1 s3 s' t t2 link link2 links r at first bare u makes at2 there
          still below hung more) =
      ap (λ m. m >>= rest next names)
        (descend-making maker others a i name s t link at first (some links) s1 bare u makes
          ∙ hang_in-hung maker others (others s1) a i t2 link2 links s3 at2 there still below hung)
      ∙ walk-Walk (others s1).fresh next names s3 r s' more
  walk-Walk _ _ _ _ _ _
        (raced a i b name next names s s1 s3 s' t t2 link link2 links r at first bare u makes at2
          there full u3 more) =
      ap (λ m. m >>= rest next names)
        (descend-making maker others a i name s t link at first (some links) s1 bare u makes
          ∙ hang_in-raced maker others (others s1) a i b t2 link2 links s3 at2 there full u3)
      ∙ walk-Walk b next names s3 r s' more
  walk-Walk _ _ _ _ _ _
        (refused a i name next names s s1 s' t t2 link at first bare u makes at2 kept below u3) =
      let back : link_table_unref (others s1).fresh (others s1) (some a) ≡ ok s' =
        unref-kept (others s1).fresh (others s1) a t2 s' (omega (arith, below)) at2 kept u3 in
      ap (λ m. m >>= rest next names)
        (descend-making maker others a i name s t link at first none s1 bare u makes
          ∙ ap (λ m. m >>= (λ s3. ok (none, s3))) back)

-- The walk of a path begins at the root table. In each table, the first link behind the head that
-- has the next name, up to NAME_MAX bytes, leads on: at the last name it is the link that is found;
-- before that, to its table. If it has none, one is made by the mode's function, while other threads
-- may change the tables and the table of the link has one reference more. It is hung in with no
-- reference, and with the table and the link above it, unless another thread has hung in one, which
-- is then taken; the table of the link has an address that was given out; if nothing is made, and the table of the link is not orphaned, there is no link, and
-- the reference is given back. Where no link has the name, there is no link. If this walk of one or
-- more names that are not empty and have no slash ends, then `path_to_Link` of their path from the
-- root, with or without a slash at its end and of at most PATH_MAX bytes, returns its link, and
-- leaves its tables, in which the table of a link that was found has one reference more.
pub path_to_link-Walk :
    (maker : Maker) (others : Tables → Tables) (slash : Bool) (name : List ℕ)
    (names : List (List ℕ)) (root : ℕ) (s s' s'' : Tables) (r : Option (ℕ × ℕ))
    → AllNames (name ∷ names)
    → length (path_of slash (name ∷ names)) ≤ 4096
    → s.root ≡ some root
    → Walk maker others root name names s r s'
    → Held s' r s''
    → path_to_link maker others (path_of slash (name ∷ names)) s ≡ ok (r, s'')
path_to_link-Walk maker others slash name names root s s' s'' r all short top walked held =
    path_to_link-walk maker others slash name names s all short
    ∙ ap (λ tbl. walk maker others (name ∷ names) tbl s >>= hold) top
    ∙ ap (λ m. m >>= hold) (walk-Walk maker others root name names s r s' walked)
    ∙ hold-Held s' r s'' held
