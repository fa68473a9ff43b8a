-- ===== src/Link/Names/Kinds.antt =====
-- What `linkname_to_LinkType` accepts.
use httpdirfs.Prelude.{
  ℕ, zero, suc, ◌-◌, ◌≤◌, ◌≡◌, refl, ap, ◌∙◌, ◌↔◌, ◌≢◌, inl, inr, List, [], ◌∷◌, ◌++◌, true, some,
  none, arith, get_or, length, length-append, Option-cases,
}
use httpdirfs.Link.Names.{
  link_uninitialised_dir, link_uninitialised_file, name_max, name_len, all_printable, strchr,
  slash_in_middle, linkname_to_link_type,
}

strchr-get_or : (s : List ℕ) (i : ℕ) → strchr s b'/' ≡ some i → get_or s i 0 ≡ b'/'
unfolding strchr
strchr-get_or [] i h = cc
strchr-get_or (c ∷ cs) zero h = ground arith
strchr-get_or (c ∷ cs) (suc i) h = strchr-get_or cs i (ground arith)

-- No byte of the name is a slash.
abbrev pub NoSlash : List ℕ → Type 0
NoSlash [] = Unit {0}
NoSlash (c ∷ cs) = (c ≢ b'/') × NoSlash cs

strchr-none : (s : List ℕ) → strchr s b'/' ≡ none → NoSlash s
unfolding strchr
strchr-none [] h = tt
strchr-none (c ∷ cs) h = (ground arith, strchr-none cs (ground arith))

NoSlash-strchr : (s : List ℕ) → NoSlash s → strchr s b'/' ≡ none
unfolding strchr
NoSlash-strchr [] h = refl
NoSlash-strchr (c ∷ cs) h = ground (arith, NoSlash-strchr cs h.1)

NoSlash-snoc : (s : List ℕ) → NoSlash s → strchr (s ++ b'/' ∷ []) b'/' ≡ some (length s)
unfolding strchr
NoSlash-snoc [] h = refl
NoSlash-snoc (c ∷ cs) h = ground (arith, NoSlash-snoc cs h.1)

-- The first slash at the last place leaves a name without one before it.
strchr-last :
    (s : List ℕ) (i : ℕ)
    → strchr s b'/' ≡ some i
    → suc i ≡ length s
    → (t : List ℕ) × (s ≡ t ++ b'/' ∷ []) × NoSlash t
unfolding strchr
strchr-last [] i h e = ground arith
strchr-last (c ∷ []) i h e = ([], ground arith, tt)
strchr-last (c ∷ d ∷ cs) zero h e = absurd (omega arith)
strchr-last (c ∷ d ∷ cs) (suc i) h e =
    let (t, p, q) = strchr-last (d ∷ cs) i (ground arith) (omega arith) in
    (c ∷ t, ap (◌∷◌ c) p, (ground arith, q))

NoSlash-get_or : (s : List ℕ) (n : ℕ) → NoSlash s → get_or s n 0 ≢ b'/'
NoSlash-get_or [] n h e = ground arith
NoSlash-get_or (c ∷ cs) zero h e = h.0 e
NoSlash-get_or (c ∷ cs) (suc n) h e = NoSlash-get_or cs n h.1 e

get_or-last : (s : List ℕ) (c d : ℕ) → get_or (s ++ c ∷ []) (length s) d ≡ c
get_or-last [] c d = refl
get_or-last (x ∷ s) c d = get_or-last s c d

-- A directory name: one part that is not empty, without a slash, and a slash at the end.
abbrev pub IsDirName : List ℕ → Type 0
IsDirName s = (t : List ℕ) × (t ≢ []) × (s ≡ t ++ b'/' ∷ []) × NoSlash t

whole : (s : List ℕ) → length s ≤ name_max → name_len s ≡ length s
unfolding name_len
whole s h = omega arith

DirName-kind :
    (s : List ℕ)
    → length s ≤ name_max
    → all_printable s ≡ true
    → IsDirName s
    → linkname_to_link_type s ≡ link_uninitialised_dir
unfolding linkname_to_link_type slash_in_middle
DirName-kind s h p ([], n, e, q) = absurd (n refl)
DirName-kind [] h p (c ∷ t, n, e, q) = cc
DirName-kind (d ∷ s) h p (c ∷ t, n, e, q) =
    let w : name_len (d ∷ s) - 1 ≡ length (c ∷ t) =
      omega (arith, whole (d ∷ s) h, ap length e, length-append (c ∷ t) (b'/' ∷ [])) in
    let found : strchr (d ∷ s) b'/' ≡ some (length (c ∷ t)) =
      ap (λ z. strchr z b'/') e ∙ NoSlash-snoc (c ∷ t) q in
    let slash : get_or (d ∷ s) (length (c ∷ t)) 0 ≡ b'/' =
      ap (λ z. get_or z (length (c ∷ t)) 0) e ∙ get_or-last (c ∷ t) b'/' 0 in
    ground (arith, w, found, slash, p, q.0, e)

FileName-kind :
    (s : List ℕ)
    → s ≢ []
    → all_printable s ≡ true
    → NoSlash s
    → linkname_to_link_type s ≡ link_uninitialised_file
unfolding linkname_to_link_type slash_in_middle
FileName-kind [] n p q = absurd (n refl)
FileName-kind (c ∷ s) n p q =
    ground
      (arith, p, q.0, NoSlash-strchr (c ∷ s) q, NoSlash-get_or (c ∷ s) (name_len (c ∷ s) - 1) q)

kind-DirName :
    (s : List ℕ)
    → length s ≤ name_max
    → linkname_to_link_type s ≡ link_uninitialised_dir
    → (all_printable s ≡ true) × IsDirName s
unfolding linkname_to_link_type slash_in_middle
kind-DirName [] h k = cc
kind-DirName (c ∷ s) h k = elim (Option-cases (strchr (c ∷ s) b'/')) [
  | inl e ↦
      absurd (ground (arith, NoSlash-get_or (c ∷ s) (name_len (c ∷ s) - 1) (strchr-none (c ∷ s) e)))
  | inr (i, e) ↦ (ground arith, at_end i e (ground arith))
]
  where
    at_end : (i : ℕ) → strchr (c ∷ s) b'/' ≡ some i → i ≡ name_len (c ∷ s) - 1 → IsDirName (c ∷ s)
    at_end i e l =
        let (t, p, q) = strchr-last (c ∷ s) i e (omega (arith, whole (c ∷ s) h)) in
        (
          t,
          (λ z.
              ground (arith, z, ap (λ y. get_or (y ++ b'/' ∷ []) 0 0) z, ap (λ y. get_or y 0 0) p)),
          p,
          q,
        )

kind-FileName :
    (s : List ℕ)
    → length s ≤ name_max
    → linkname_to_link_type s ≡ link_uninitialised_file
    → (all_printable s ≡ true) × (s ≢ []) × NoSlash s
unfolding linkname_to_link_type slash_in_middle
kind-FileName [] h k = cc
kind-FileName (c ∷ s) h k = elim (Option-cases (strchr (c ∷ s) b'/')) [
  | inl e ↦ (ground arith, (λ z. cc), strchr-none (c ∷ s) e)
  | inr (i, e) ↦ absurd (ground (arith, strchr-get_or (c ∷ s) i e))
]

-- A name within NAME_MAX becomes a directory exactly if it is printable and one part that is not
-- empty and has no slash, followed by one slash; it becomes a file exactly if it is printable,
-- not empty and has no slash.
pub linkname_to_link_type_iff :
    (s : List ℕ)
    → length s ≤ name_max
    → ((linkname_to_link_type s ≡ link_uninitialised_dir)
        ↔ ((all_printable s ≡ true) × IsDirName s))
      × ((linkname_to_link_type s ≡ link_uninitialised_file)
          ↔ ((all_printable s ≡ true) × (s ≢ []) × NoSlash s))
linkname_to_link_type_iff s h = (
  (kind-DirName s h, λ (p : (all_printable s ≡ true) × IsDirName s). DirName-kind s h p.0 p.1),
  (
    kind-FileName s h,
    λ (p : (all_printable s ≡ true) × (s ≢ []) × NoSlash s). FileName-kind s p.1 p.0 p.2,
  ),
)
