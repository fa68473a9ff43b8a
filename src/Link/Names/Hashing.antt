-- ===== src/Link/Names/Hashing.antt =====
-- `link_hash_str` gives equal names equal hashes, the condition for using them in one hash set.
use httpdirfs.Prelude.{
  ℕ, zero, suc, ◌+◌, ◌*◌, ◌≤◌, ◌<◌, ◌^◌, ◌%◌, ◌≡◌, refl, sym, ap, ◌∙◌, inl, inr, List, [], ◌∷◌,
  ◌++◌, true, some, arith, take, drop, get_or, length, length-append, take-append-drop,
}
use httpdirfs.Link.Names.{name_len, strip_len, hash_loop, link_hash_str, link_linknames_equal}
use httpdirfs.Link.Names.Equality.{cut, length-cut, SameName, link_linknames_equal-SameName}

strip_len-le : (s : List ℕ) (n : ℕ) → strip_len s n ≤ n
unfolding strip_len
strip_len-le s zero = omega arith
strip_len-le s (suc n) = ground (arith, strip_len-le s n)

get_or-append : (s t : List ℕ) (n d : ℕ) → n < length s → get_or (s ++ t) n d ≡ get_or s n d
get_or-append [] t n d h = absurd (omega arith)
get_or-append (x ∷ s) t zero d h = refl
get_or-append (x ∷ s) t (suc n) d h = get_or-append s t n d (omega arith)

take-append : (s t : List ℕ) (n : ℕ) → n ≤ length s → take n (s ++ t) ≡ take n s
take-append s t zero h = refl
take-append [] t (suc n) h = absurd (omega arith)
take-append (x ∷ s) t (suc n) h = ap (◌∷◌ x) (take-append s t n (omega arith))

strip_len-append : (s t : List ℕ) (n : ℕ) → n ≤ length s → strip_len (s ++ t) n ≡ strip_len s n
unfolding strip_len
strip_len-append s t zero h = refl
strip_len-append s t (suc n) h =
    rw (get_or-append s t n 0 (omega arith), strip_len-append s t n (omega arith)) refl

-- The hash of a name of which all is read.
abbrev hash_whole : List ℕ → ℕ
hash_whole s = hash_loop 5381 (take (strip_len s (length s)) s)

hash_whole-append :
    (s t : List ℕ) → hash_loop 5381 (take (strip_len (s ++ t) (length s)) (s ++ t)) ≡ hash_whole s
hash_whole-append s t =
    rw
      (
        strip_len-append s t (length s) (omega arith),
        take-append s t (strip_len s (length s)) (strip_len-le s (length s)),
      )
      refl

link_hash_str-cut : (s : List ℕ) → link_hash_str s ≡ hash_whole (cut s)
unfolding link_hash_str
link_hash_str-cut s =
    ap (λ n. hash_loop 5381 (take (strip_len s n) s)) (sym (length-cut s))
    ∙ ap (λ r. hash_loop 5381 (take (strip_len r (length (cut s))) r))
        (sym (take-append-drop (name_len s) s))
    ∙ hash_whole-append (cut s) (drop (name_len s) s)

get_or-last : (s : List ℕ) (c d : ℕ) → get_or (s ++ c ∷ []) (length s) d ≡ c
get_or-last [] c d = refl
get_or-last (x ∷ s) c d = get_or-last s c d

-- One slash at the end does not count.
hash_whole-slash : (s : List ℕ) → hash_whole (s ++ b'/' ∷ []) ≡ hash_whole s
unfolding strip_len
hash_whole-slash s =
    let n : length (s ++ b'/' ∷ []) ≡ suc (length s) = omega (arith, length-append s (b'/' ∷ [])) in
    rw (n, get_or-last s b'/' 0) (hash_whole-append s (b'/' ∷ []))

-- Names that the code takes for equal have one hash.
pub link_hash_str-equal :
    (a b : List ℕ)
    → link_linknames_equal (some a) (some b) ≡ true
    → link_hash_str a ≡ link_hash_str b
link_hash_str-equal a b h =
    rw (link_hash_str-cut a, link_hash_str-cut b) (go ((link_linknames_equal-SameName a b).0 h))
  where
    go : SameName (cut a) (cut b) → hash_whole (cut a) ≡ hash_whole (cut b)
    go (_, _, inl e) = ap hash_whole e
    go (_, _, inr (inl e)) = ap hash_whole e ∙ hash_whole-slash (cut b)
    go (_, _, inr (inr e)) = sym (hash_whole-slash (cut a)) ∙ ap hash_whole (sym e)

hash_loop-lt : (s : List ℕ) (h : ℕ) → h < 2 ^ 32 → hash_loop h s < 2 ^ 32
unfolding hash_loop
hash_loop-lt [] h p = p
hash_loop-lt (c ∷ s) h p = hash_loop-lt s ((h * 32 + h + c) % 2 ^ 32) (omega arith)

-- A hash is a 32-bit number.
pub link_hash_str-lt : (s : List ℕ) → link_hash_str s < 2 ^ 32
unfolding link_hash_str
link_hash_str-lt s = hash_loop-lt (take (strip_len s (name_len s)) s) 5381 (omega arith)
