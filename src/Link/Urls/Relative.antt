-- ===== src/Link/Urls/Relative.antt =====
-- What `make_link_relative` does with a link that begins with the path of its page.
use httpdirfs.Prelude.{
  ℕ, suc, ◌+◌, ◌-◌, ◌≡◌, refl, List, [], ◌∷◌, ◌++◌, true, ◌==◌, if◌then◌else◌, length, get_or,
  drop-append_left, get_or-behind, arith, Bool-cases, inl, inr, ==_self,
}
use httpdirfs.Util.Paths.{ends_with_slash}
use httpdirfs.Link.Urls.{third_slash, starts_with, skip_page, make_link_relative}

abbrev pub slashes : List ℕ → ℕ
slashes [] = 0
slashes (c ∷ cs) = let rest = slashes cs in if c == b'/' then suc rest else rest

third_slash-append :
    (pre dir : List ℕ) (left : ℕ)
    → slashes pre + 1 ≡ left
    → third_slash left (pre ++ (b'/' ∷ dir)) ≡ (0, b'/' ∷ dir)
unfolding third_slash
third_slash-append [] dir left h = ground (arith, h)
third_slash-append (c ∷ cs) dir left h = elim (Bool-cases (c == b'/')) [
  | inl e ↦ ground (arith, e, third_slash-append cs dir (left - 1) (ground (arith, e, h)))
  | inr e ↦ ground (arith, e, third_slash-append cs dir left (ground (arith, e, h)))
]

starts_with-append : (ps rest : List ℕ) → starts_with ps (ps ++ rest) ≡ true
unfolding starts_with
starts_with-append [] rest = refl
starts_with-append (p ∷ ps) rest = rw (==_self p, starts_with-append ps rest) refl

skip_page-append :
    (page rest : List ℕ)
    → skip_page page (page ++ rest) ≡ (if ends_with_slash page then rest else page ++ rest)
unfolding skip_page
skip_page-append page rest =
    let nul : get_or page (length page) 0 ≡ 0 = get_or-behind page (length page) (omega arith) in
    rw (starts_with-append page rest, drop-append_left page rest, nul) refl

-- Let the page be at a URL whose path begins at its third slash, and the link be absolute on that
-- server, below the path of the page. If this path ends with a slash, `make_link_relative` leaves
-- what stands behind it in the link; if not, it leaves the whole link.
pub make_link_relative-below :
    (pre dir rest : List ℕ)
    → slashes pre ≡ 2
    → make_link_relative (pre ++ (b'/' ∷ dir)) ((b'/' ∷ dir) ++ rest)
      ≡ (if ends_with_slash (b'/' ∷ dir) then rest else (b'/' ∷ dir) ++ rest)
unfolding make_link_relative
make_link_relative-below pre dir rest two =
    rw (third_slash-append pre dir 3 (omega arith)) (skip_page-append (b'/' ∷ dir) rest)
