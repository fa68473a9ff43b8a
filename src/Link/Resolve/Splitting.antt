-- ===== src/Link/Resolve/Splitting.antt =====
-- The path of a list of names is resolved name by name.
use mathlib.Core.List.{append-nil}
use mathlib.Core.Path.{fun_ext}
use httpdirfs.Prelude.{
  ℕ, zero, suc, ◌≤◌, ◌<◌, ◌≡◌, refl, sym, ap, ◌∙◌, List, [], ◌∷◌, ◌++◌, Bool, true, false, Option,
  none, some, ◌==◌, if◌then◌else◌, has, length, length-append, take-length, take, arith,
}
use httpdirfs.Prelude.Run.{Run, ok, ◌>>=◌}
use httpdirfs.Link.Resolve.{
  Maker, Tables, skip_slash, drop_last_slash, cut, find_last, descend, path_to_link_recursive, hold,
  path_to_link,
}

-- a name in a path: not empty, and without a slash
pub record IsName (name : List ℕ) : Type 0 where
  pub some_byte : 1 ≤ length name
  pub no_slash : has 47 name ≡ false

abbrev pub AllNames : List (List ℕ) → Type 0
AllNames [] = Unit {0}
AllNames (name ∷ names) = IsName name × AllNames names

-- the names with a slash between each two
abbrev pub joined : List (List ℕ) → List ℕ
joined [] = []
joined (name ∷ []) = name
joined (name ∷ next ∷ names) = name ++ 47 ∷ joined (next ∷ names)

cut-none : (name : List ℕ) → has 47 name ≡ false → cut name ≡ none
unfolding cut
cut-none [] h = refl
cut-none (c ∷ cs) h =
    let other : (c == 47) ≡ false = ground (arith, h) in
    rw (cut, other, cut-none cs (ground (arith, h))) refl

cut-some : (name next : List ℕ) → has 47 name ≡ false → cut (name ++ 47 ∷ next) ≡ some (name, next)
unfolding cut
cut-some [] next h = refl
cut-some (c ∷ cs) next h =
    let other : (c == 47) ≡ false = ground (arith, h) in
    rw (cut, other, cut-some cs next (ground (arith, h))) refl

skip_slash-none : (name rest : List ℕ) → IsName name → skip_slash (name ++ rest) ≡ name ++ rest
unfolding skip_slash
skip_slash-none [] rest k = let h = k.some_byte in absurd (omega arith)
skip_slash-none (c ∷ cs) rest k =
    let h = k.no_slash in
    let other : (c == 47) ≡ false = ground (arith, h) in rw (skip_slash, other) refl

drop_last_slash-none : (name : List ℕ) → has 47 name ≡ false → drop_last_slash name ≡ name
unfolding drop_last_slash
drop_last_slash-none [] h = refl
drop_last_slash-none (c ∷ []) h =
    let other : (c == 47) ≡ false = ground (arith, h) in rw (drop_last_slash, other) refl
drop_last_slash-none (c ∷ d ∷ ds) h = ap (◌∷◌ c) (drop_last_slash-none (d ∷ ds) (ground (arith, h)))

drop_last_slash-append :
    (xs : List ℕ) (c : ℕ) (cs : List ℕ)
    → drop_last_slash (xs ++ c ∷ cs) ≡ xs ++ drop_last_slash (c ∷ cs)
unfolding drop_last_slash
drop_last_slash-append [] c cs = refl
drop_last_slash-append (x ∷ []) c cs = refl
drop_last_slash-append (x ∷ y ∷ ys) c cs = ap (◌∷◌ x) (drop_last_slash-append (y ∷ ys) c cs)

drop_last_slash-behind :
    (xs ys : List ℕ) → 1 ≤ length ys → drop_last_slash (xs ++ ys) ≡ xs ++ drop_last_slash ys
drop_last_slash-behind xs [] h = absurd (omega arith)
drop_last_slash-behind xs (c ∷ cs) h = drop_last_slash-append xs c cs

joined-cons :
    (name : List ℕ) (names : List (List ℕ))
    → AllNames (name ∷ names)
    → (c : ℕ) × (cs : List ℕ) × (joined (name ∷ names) ≡ c ∷ cs)
joined-cons [] names all = let h = all.0.some_byte in absurd (omega arith)
joined-cons (c ∷ cs) [] all = (c, cs, refl)
joined-cons (c ∷ cs) (next ∷ names) all = (c, cs ++ 47 ∷ joined (next ∷ names), refl)

skip_slash-joined :
    (name : List ℕ) (names : List (List ℕ))
    → AllNames (name ∷ names)
    → skip_slash (joined (name ∷ names)) ≡ joined (name ∷ names)
skip_slash-joined name [] all =
    ap skip_slash (sym (append-nil name)) ∙ skip_slash-none name [] all.0 ∙ append-nil name
skip_slash-joined name (next ∷ names) all = skip_slash-none name (47 ∷ joined (next ∷ names)) all.0

drop_last_slash-joined :
    (name : List ℕ) (names : List (List ℕ))
    → AllNames (name ∷ names)
    → drop_last_slash (joined (name ∷ names)) ≡ joined (name ∷ names)
drop_last_slash-joined name [] all = drop_last_slash-none name all.0.no_slash
drop_last_slash-joined name (next ∷ names) all =
    let (c, cs, e) = joined-cons next names all.1 in
    let some_byte : 1 ≤ length (joined (next ∷ names)) = omega (arith, ap length e) in
    drop_last_slash-behind name (47 ∷ joined (next ∷ names)) (omega arith)
    ∙ ap (λ xs. name ++ xs) (drop_last_slash-behind (47 ∷ []) (joined (next ∷ names)) some_byte)
    ∙ ap (λ xs. name ++ 47 ∷ xs) (drop_last_slash-joined next names all.1)

module _ (maker : Maker) (others : Tables → Tables) where
  -- The walk from table to table along the names.
  abbrev pub walk : List (List ℕ) → Option ℕ → Tables → Run (Option (ℕ × ℕ) × Tables)
  walk names none s = ok (none, s)
  walk [] (some a) s = ok (none, s)
  walk (name ∷ []) (some a) s = find_last name a s
  walk (name ∷ next ∷ names) (some a) s =
      descend maker others name a s >>= (λ r. walk (next ∷ names) r.0 r.1)

  path_to_link_recursive-walk :
      (fuel c : ℕ) (cs name : List ℕ) (names : List (List ℕ)) (tbl : Option ℕ) (s : Tables)
      → drop_last_slash (skip_slash (c ∷ cs)) ≡ joined (name ∷ names)
      → AllNames (name ∷ names)
      → length names < fuel
      → path_to_link_recursive maker others fuel (c ∷ cs) tbl s ≡ walk (name ∷ names) tbl s
  unfolding path_to_link_recursive
  path_to_link_recursive-walk zero c cs name names tbl s e all h = absurd (omega arith)
  path_to_link_recursive-walk (suc fuel) c cs name names none s e all h = refl
  path_to_link_recursive-walk (suc fuel) c cs name [] (some a) s e all h =
      rw (path_to_link_recursive, e, cut-none name all.0.no_slash) (ap (λ p. find_last p a s) e)
  path_to_link_recursive-walk (suc fuel) c cs name (next ∷ names) (some a) s e all h =
      let (d, ds, e') = joined-cons next names all.1 in
      let parsed : drop_last_slash (skip_slash (d ∷ ds)) ≡ joined (next ∷ names) =
        ap (λ p. drop_last_slash (skip_slash p)) (sym e')
        ∙ ap drop_last_slash (skip_slash-joined next names all.1)
        ∙ drop_last_slash-joined next names all.1 in
      let less : length names < fuel = omega (arith, h) in
      let goes_on : (λ (r : Option ℕ × Tables).
        path_to_link_recursive maker others fuel (joined (next ∷ names)) r.0 r.1)
          ≡ (λ r. walk (next ∷ names) r.0 r.1) =
        fun_ext (λ r.
          ap (λ p. path_to_link_recursive maker others fuel p r.0 r.1) e'
          ∙ path_to_link_recursive-walk fuel d ds next names r.0 r.1 parsed all.1 less) in
      rw (path_to_link_recursive, e, cut-some name (joined (next ∷ names)) all.0.no_slash)
        (ap (λ f. descend maker others name a s >>= f) goes_on)

names-joined : (names : List (List ℕ)) → AllNames names → length names ≤ length (joined names)
names-joined [] all = omega arith
names-joined (name ∷ []) all = let h = all.0.some_byte in omega (arith, h)
names-joined (name ∷ next ∷ names) all =
    omega
      (arith, length-append name (47 ∷ joined (next ∷ names)), names-joined (next ∷ names) all.1)

-- the path of the names from the root, with a slash at its end or not
abbrev pub path_of : Bool → List (List ℕ) → List ℕ
path_of slash names = 47 ∷ joined names ++ (if slash then 47 ∷ [] else [])

path_of-joined :
    (slash : Bool) (name : List ℕ) (names : List (List ℕ))
    → AllNames (name ∷ names)
    → drop_last_slash (skip_slash (path_of slash (name ∷ names))) ≡ joined (name ∷ names)
unfolding skip_slash drop_last_slash
path_of-joined false name names all =
    ap drop_last_slash (append-nil (joined (name ∷ names))) ∙ drop_last_slash-joined name names all
path_of-joined true name names all =
    drop_last_slash-behind (joined (name ∷ names)) (47 ∷ []) (omega arith)
    ∙ append-nil (joined (name ∷ names))

-- `path_to_Link` of the path of some names is the walk of the names from the root table, and takes a
-- reference at its end.
pub path_to_link-walk :
    (maker : Maker) (others : Tables → Tables) (slash : Bool) (name : List ℕ)
    (names : List (List ℕ)) (s : Tables)
    → AllNames (name ∷ names)
    → length (path_of slash (name ∷ names)) ≤ 4096
    → path_to_link maker others (path_of slash (name ∷ names)) s
      ≡ (walk maker others (name ∷ names) s.root s >>= hold)
unfolding path_to_link
path_to_link-walk maker others slash name names s all short =
    let path : List ℕ = path_of slash (name ∷ names) in
    let whole : take 4096 path ≡ path = take-length path 4096 short in
    let enough : length names < suc (length path) = omega (
      arith,
      names-joined (name ∷ names) all,
      length-append (joined (name ∷ names)) (if slash then 47 ∷ [] else []),
    ) in
    let rest : List ℕ = joined (name ∷ names) ++ (if slash then 47 ∷ [] else []) in
    ap (λ p. path_to_link_recursive maker others (suc (length p)) p s.root s >>= hold) whole
    ∙ ap (λ m. m >>= hold)
        (path_to_link_recursive-walk maker others (suc (length path)) 47 rest name names s.root s
          (path_of-joined slash name names all) all enough)
