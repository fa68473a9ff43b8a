-- ===== src/Link/Names/Equality.antt =====
-- `link_linknames_equal` says that two names, cut at NAME_MAX, differ by one slash at most.
use httpdirfs.Prelude.{
  ℕ, zero, suc, ◌≤◌, ◌<◌, min, ◌≡◌, refl, sym, ap, ◌∙◌, ◌↔◌, ◌⊎◌, inl, inr, ◌≢◌, List, [], ◌∷◌,
  ◌++◌, true, some, arith, take, get_or, length, str_eq, str_eq_sound, str_eq_self, length-take,
  length-append,
}
use httpdirfs.Link.Names.{name_max, name_len, names_equal, link_linknames_equal}

-- What the comparison means: two names that are not empty, equal but for one last slash.
abbrev pub SameName : List ℕ → List ℕ → Type 0
SameName a b = (a ≢ []) × (b ≢ []) × ((a ≡ b) ⊎ (a ≡ b ++ b'/' ∷ []) ⊎ (b ≡ a ++ b'/' ∷ []))

-- With a common prefix, the longer name goes on with the byte at its end.
take-snoc : (s : List ℕ) (n d : ℕ) → n < length s → take (suc n) s ≡ take n s ++ get_or s n d ∷ []
take-snoc [] n d h = absurd (omega arith)
take-snoc (x ∷ s) zero d h = refl
take-snoc (x ∷ s) (suc n) d h = ap (◌∷◌ x) (take-snoc s n d (omega arith))

-- The part of a name that the code reads.
abbrev pub cut : List ℕ → List ℕ
cut s = take (name_len s) s

pub length-cut : (s : List ℕ) → length (cut s) ≡ name_len s
unfolding name_len
length-cut s = omega (arith, length-take (min name_max (length s)) s)

name_len-le : (s : List ℕ) → name_len s ≤ length s
unfolding name_len
name_len-le s = omega arith

-- The three ways to pass all tests of the code.
abbrev Passes : List ℕ → List ℕ → Type 0
Passes a b =
    (1 ≤ min (name_len a) (name_len b))
    × (str_eq (take (min (name_len a) (name_len b)) a) (take (min (name_len a) (name_len b)) b)
        ≡ true)
    × ((name_len a ≡ name_len b)
        ⊎ ((name_len a ≡ suc (name_len b)) × (get_or a (name_len b) 0 ≡ b'/')
            ⊎ (name_len b ≡ suc (name_len a)) × (get_or b (name_len a) 0 ≡ b'/')))

names_equal-Passes : (a b : List ℕ) → names_equal a b ≡ true → Passes a b
unfolding names_equal
names_equal-Passes a b h = (ground arith, ground arith, ground arith)

Passes-names_equal : (a b : List ℕ) → Passes a b → names_equal a b ≡ true
unfolding names_equal
Passes-names_equal a b (p, q, inl e) = ground arith
Passes-names_equal a b (p, q, inr (inl e)) = ground arith
Passes-names_equal a b (p, q, inr (inr e)) = ground arith

cut-ne-nil : (s : List ℕ) → 1 ≤ name_len s → cut s ≢ []
cut-ne-nil s h e = omega (arith, length-cut s, ap length e)

cut_pos : (s : List ℕ) → cut s ≢ [] → 1 ≤ name_len s
unfolding name_len
cut_pos [] n = absurd (n refl)
cut_pos (c ∷ s) n = omega arith

-- The longer of two names, cut: its first part and the byte that follows.
cut-snoc :
    (s : List ℕ) (n : ℕ) → name_len s ≡ suc n → get_or s n 0 ≡ b'/' → cut s ≡ take n s ++ b'/' ∷ []
cut-snoc s n e slash = rw (e, ← slash) (take-snoc s n 0 (omega (arith, name_len-le s)))

Passes-SameName : (a b : List ℕ) → Passes a b → SameName (cut a) (cut b)
Passes-SameName a b (p, q, ways) =
    (cut-ne-nil a (omega arith), cut-ne-nil b (omega arith), go (str_eq_sound _ _ q) ways)
  where
    go :
        take (min (name_len a) (name_len b)) a ≡ take (min (name_len a) (name_len b)) b
        → (name_len a ≡ name_len b)
          ⊎ ((name_len a ≡ suc (name_len b)) × (get_or a (name_len b) 0 ≡ b'/')
              ⊎ (name_len b ≡ suc (name_len a)) × (get_or b (name_len a) 0 ≡ b'/'))
        → (cut a ≡ cut b) ⊎ (cut a ≡ cut b ++ b'/' ∷ []) ⊎ (cut b ≡ cut a ++ b'/' ∷ [])
    go same (inl e) =
        let ma : min (name_len a) (name_len b) ≡ name_len a = omega arith in
        let same' : take (name_len a) a ≡ take (name_len a) b = rw ma at same in
        inl (same' ∙ ap (λ n. take n b) e)
    go same (inr (inl (e, slash))) =
        let mb : min (name_len a) (name_len b) ≡ name_len b = omega arith in
        let same' : take (name_len b) a ≡ cut b = rw mb at same in
        inr (inl (cut-snoc a (name_len b) e slash ∙ ap (λ s. s ++ b'/' ∷ []) same'))
    go same (inr (inr (e, slash))) =
        let ma : min (name_len a) (name_len b) ≡ name_len a = omega arith in
        let same' : cut a ≡ take (name_len a) b = rw ma at same in
        inr (inr (cut-snoc b (name_len a) e slash ∙ ap (λ s. s ++ b'/' ∷ []) (sym same')))

-- A cut name that is another with one slash more: lengths, common part and last byte.
take-of-snoc :
    (s t : List ℕ) (n c : ℕ)
    → take n s ≡ t ++ c ∷ []
    → (take (length t) s ≡ t) × (get_or s (length t) 0 ≡ c)
take-of-snoc [] [] zero c h = cc
take-of-snoc [] [] (suc n) c h = cc
take-of-snoc [] (y ∷ t) zero c h = cc
take-of-snoc [] (y ∷ t) (suc n) c h = cc
take-of-snoc (x ∷ s) [] zero c h = cc
take-of-snoc (x ∷ s) [] (suc n) c h = (refl, ground arith)
take-of-snoc (x ∷ s) (y ∷ t) zero c h = cc
take-of-snoc (x ∷ s) (y ∷ t) (suc n) c h = ground (arith, take-of-snoc s t n c)

snoc-Passes :
    (a b : List ℕ)
    → cut b ≢ []
    → cut a ≡ cut b ++ b'/' ∷ []
    → (name_len a ≡ suc (name_len b))
      × (take (name_len b) a ≡ cut b)
      × (get_or a (name_len b) 0 ≡ b'/')
snoc-Passes a b n e =
    let parts = take-of-snoc a (cut b) (name_len a) b'/' e in
    (
      omega (arith, length-cut a, length-cut b, ap length e, length-append (cut b) (b'/' ∷ [])),
      (rw (length-cut b) at parts.0),
      (rw (length-cut b) at parts.1),
    )

SameName-Passes : (a b : List ℕ) → SameName (cut a) (cut b) → Passes a b
SameName-Passes a b (na, nb, inl e) =
    let same : name_len a ≡ name_len b = omega (arith, length-cut a, length-cut b, ap length e) in
    let m : min (name_len a) (name_len b) ≡ name_len b = omega arith in
    let e' : take (name_len b) a ≡ cut b = rw same at e in
    (omega (arith, cut_pos a na, cut_pos b nb), rw (m, e') (str_eq_self (cut b)), inl same)
SameName-Passes a b (na, nb, inr (inl e)) =
    let (l, p, slash) = snoc-Passes a b nb e in
    let m : min (name_len a) (name_len b) ≡ name_len b = omega arith in
    (omega (arith, cut_pos b nb), rw (m, p) (str_eq_self (cut b)), inr (inl (l, slash)))
SameName-Passes a b (na, nb, inr (inr e)) =
    let (l, p, slash) = snoc-Passes b a na e in
    let m : min (name_len a) (name_len b) ≡ name_len a = omega arith in
    (omega (arith, cut_pos a na), rw (m, p) (str_eq_self (cut a)), inr (inr (l, slash)))

-- Two names are reported equal exactly when, read up to NAME_MAX, neither is empty and they are
-- the same but for at most one slash at the end of one of them.
pub link_linknames_equal-SameName :
    (a b : List ℕ) → (link_linknames_equal (some a) (some b) ≡ true) ↔ SameName (cut a) (cut b)
unfolding link_linknames_equal
link_linknames_equal-SameName a b = (
  λ h. Passes-SameName a b (names_equal-Passes a b h),
  λ s. Passes-names_equal a b (SameName-Passes a b s),
)
