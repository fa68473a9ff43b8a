-- ===== src/Cache/Downloads/Search.antt =====
-- What the walks of the chain of downloads find.
use mathlib.Core.Option.{some-injective}
use httpdirfs.Prelude.{
  ℕ, suc, ◌+◌, ◌≤◌, ◌≡◌, refl, sym, ap, ◌∙◌, ◌≢◌, List, [], ◌∷◌, true, false, Option, none, some,
  ◌==◌, if◌then◌else◌, arith, Bool-cases, inl, inr,
}
use httpdirfs.Prelude.Int.{ℤ, pos, negsuc, eqb_ℤ}
use httpdirfs.Prelude.Run.{Returns}
use httpdirfs.Cache.Downloads.{ActiveDownload, find_loop, unlink_loop}

-- how often an address occurs
abbrev pub count : ℕ → List ℕ → ℕ
count a [] = 0
count a (b ∷ bs) = let rest = count a bs in if a == b then suc rest else rest

pub eqb_ℤ-sound : (a b : ℤ) → eqb_ℤ a b ≡ true → a ≡ b
eqb_ℤ-sound (pos a) (pos b) h = ap pos (ground (arith, h))
eqb_ℤ-sound (pos a) (negsuc b) h = absurd (ground (arith, h))
eqb_ℤ-sound (negsuc a) (pos b) h = absurd (ground (arith, h))
eqb_ℤ-sound (negsuc a) (negsuc b) h = ap negsuc (ground (arith, h))

pub eq_of : (a b : ℕ) → (a == b) ≡ true → a ≡ b
eq_of a b h = ground (arith, h)

pub eqb_ℤ-self : (a : ℤ) → eqb_ℤ a a ≡ true
eqb_ℤ-self (pos a) = ground arith
eqb_ℤ-self (negsuc a) = ground arith

-- Every address of a chain has a node.
abbrev pub AllLive : (ℕ → Option ActiveDownload) → List ℕ → Type 0
AllLive heap chain = (a : ℕ) → 1 ≤ count a chain → (node : ActiveDownload) × (heap a ≡ some node)

-- What a search for an offset finds: a node of the chain for it, or there is none.
abbrev pub Finding : (ℕ → Option ActiveDownload) → List ℕ → ℤ → Option ℕ → Type 0
Finding heap chain offset none =
    (a : ℕ) (node : ActiveDownload) → 1 ≤ count a chain → heap a ≡ some node → node.offset ≢ offset
Finding heap chain offset (some a) =
    (node : ActiveDownload) × ((heap a ≡ some node) × (node.offset ≡ offset) × (1 ≤ count a chain))

pub Finding-tail :
    (heap : ℕ → Option ActiveDownload) (b : ℕ) (chain : List ℕ) (offset : ℤ) (node : ActiveDownload)
    → heap b ≡ some node
    → eqb_ℤ node.offset offset ≡ false
    → (r : Option ℕ) → Finding heap chain offset r
    → Finding heap (b ∷ chain) offset r
Finding-tail heap b chain offset node at other none f = λ a m mem e o. elim (Bool-cases (a == b)) [
  | inl same ↦
      let one : node ≡ m = some-injective node m (sym at ∙ ap heap (sym (eq_of a b same)) ∙ e) in
      let hit : eqb_ℤ node.offset offset ≡ true =
        ap (λ n. eqb_ℤ n.offset offset) one ∙ ap (λ z. eqb_ℤ z offset) o ∙ eqb_ℤ-self offset in
      absurd (ground (arith, hit, other))
  | inr diff ↦ f a m (ground (arith, mem, diff)) e o
]
Finding-tail heap b chain offset node at other (some a) (m, (e, o, mem)) =
    (m, (e, o, ground (arith, mem)))

pub tail-live :
    (heap : ℕ → Option ActiveDownload) (b : ℕ) (chain : List ℕ)
    → AllLive heap (b ∷ chain)
    → AllLive heap chain
tail-live heap b chain live a mem = live a (ground (arith, mem))

pub find_loop-Finding :
    (heap : ℕ → Option ActiveDownload) (chain : List ℕ) (offset : ℤ)
    → AllLive heap chain
    → Returns (find_loop heap chain offset) (Finding heap chain offset)
unfolding find_loop
find_loop-Finding heap [] offset live = (none, refl, λ a node mem e. absurd (omega (arith, mem)))
find_loop-Finding heap (b ∷ chain) offset live =
    let (r, run, found) = find_loop-Finding heap chain offset (tail-live heap b chain live) in
    let (node, at) = live b (ground arith) in
    elim (Bool-cases (eqb_ℤ node.offset offset)) [
      | inl e ↦ (
        some b,
        rw (find_loop, at, e) refl,
        (node, (at, eqb_ℤ-sound node.offset offset e, ground arith)),
      )
      | inr e ↦ (r, rw (find_loop, at, e) run, Finding-tail heap b chain offset node at e r found)
    ]

-- The chain after the removal of what was found.
abbrev pub Without : List ℕ → Option ℕ → List ℕ → Type 0
Without chain none rest = Unit {0}
Without chain (some a) rest = (b : ℕ) → count b rest + (if b == a then 1 else 0) ≡ count b chain

pub Without-tail :
    (b : ℕ) (chain : List ℕ) (r : Option ℕ) (rest : List ℕ)
    → Without chain r rest
    → Without (b ∷ chain) r (b ∷ rest)
Without-tail b chain none rest w = record {}
Without-tail b chain (some a) rest w = λ c. ground (arith, w c)

pub unlink_loop-Finding :
    (heap : ℕ → Option ActiveDownload) (chain : List ℕ) (offset : ℤ)
    → AllLive heap chain
    → Returns
        (unlink_loop heap chain offset)
        (λ r. Finding heap chain offset r.0 × Without chain r.0 r.1)
unfolding unlink_loop
unlink_loop-Finding heap [] offset live =
    ((none, []), refl, (λ a node mem e. absurd (omega (arith, mem)), record {}))
unlink_loop-Finding heap (b ∷ chain) offset live =
    let ((r, rest), run, (found, without)) =
      unlink_loop-Finding heap chain offset (tail-live heap b chain live) in
    let (node, at) = live b (ground arith) in
    elim (Bool-cases (eqb_ℤ node.offset offset)) [
      | inl e ↦ (
        (some b, chain),
        rw (unlink_loop, at, e) refl,
        ((node, (at, eqb_ℤ-sound node.offset offset e, ground arith)), λ c. ground arith),
      )
      | inr e ↦ (
        (r, b ∷ rest),
        rw (unlink_loop, at, e, run) refl,
        (Finding-tail heap b chain offset node at e r found, Without-tail b chain r rest without),
      )
    ]
