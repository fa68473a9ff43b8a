-- ===== src/Cache/Downloads/Update.antt =====
-- Owned nodes of the list of downloads, and the change of one node with its references.
use httpdirfs.Prelude.{
  ℕ, suc, ◌+◌, ◌≤◌, ◌≡◌, refl, sym, ap, ◌∙◌, List, false, Option, none, some, ◌==◌, arith,
  Bool-cases, inl, inr, ==_self,
}
use httpdirfs.Prelude.Int.{pos, ◌+ℤ◌, ◌-ℤ◌}
use httpdirfs.Cache.Downloads.{ActiveDownload, Broadcast, Downloads, put}
use httpdirfs.Cache.Downloads.Search.{count, eq_of}

-- A node with `c` places in the chain and `k` references held elsewhere. A free address has none.
abbrev pub Cell : Option ActiveDownload → ℕ → ℕ → Type 0
Cell none c k = c + k ≡ 0
Cell (some node) c k =
    (node.refcount ≡ pos (c + k)) × (1 ≤ c + k) × (c ≤ 1) × (node.unlinked ≡ (c == 0))

-- The chain and the references `held` by threads and transfers own the nodes, and no two nodes of
-- the chain are for the same offset.
pub record IsOwned (cf : Downloads) (held : List ℕ) : Type 0 where
  pub cell : (a : ℕ) → Cell (cf.node_at a) (count a cf.active_dls) (count a held)
  pub unused : (a : ℕ) → cf.fresh ≤ a → cf.node_at a ≡ none
  pub distinct :
      (a b : ℕ) (m n : ActiveDownload)
      → 1 ≤ count a cf.active_dls
      → 1 ≤ count b cf.active_dls
      → cf.node_at a ≡ some m
      → cf.node_at b ≡ some n
      → m.offset ≡ n.offset
      → a ≡ b

-- An address with a reference has a node.
pub live-node :
    (heap : Option ActiveDownload) (c k : ℕ)
    → Cell heap c k
    → 1 ≤ c + k
    → (node : ActiveDownload) × ((heap ≡ some node)
        × (node.refcount ≡ pos (c + k))
        × (c ≤ 1)
        × (node.unlinked ≡ (c == 0)))
live-node none c k h some_ref = absurd (omega arith)
live-node (some node) c k h some_ref = (node, (refl, h.0, h.2, h.3))

-- A free address has no reference.
pub free-count : (heap : Option ActiveDownload) (c k : ℕ) → Cell heap c k → heap ≡ none → c + k ≡ 0
free-count none c k h e = h
free-count (some node) c k h e = cc

-- One node is replaced by one of the same offset or freed, with the counts that go with it.
module _ (cf : Downloads) (held held' chain : List ℕ) (broadcasts : List Broadcast) (a : ℕ)
    (node : ActiveDownload) (v : Option ActiveDownload) (heap : ℕ → Option ActiveDownload)
    (w : IsOwned cf held) (at : cf.node_at a ≡ some node) (changed : heap a ≡ v)
    (same_heap : (b : ℕ) → (b == a) ≡ false → heap b ≡ cf.node_at b)
    (there : Cell v (count a chain) (count a held'))
    (elsewhere : (b : ℕ)
      → (b == a) ≡ false
      → (count b chain ≡ count b cf.active_dls) × (count b held' ≡ count b held))
    (stays : (m : ActiveDownload)
      → v ≡ some m
      → 1 ≤ count a chain
      → (m.offset ≡ node.offset) × (1 ≤ count a cf.active_dls)) where
  -- what a node of the chain was before
  before :
      (b : ℕ) (m : ActiveDownload)
      → 1 ≤ count b chain
      → heap b ≡ some m
      → (m' : ActiveDownload) × ((cf.node_at b ≡ some m')
          × (m.offset ≡ m'.offset)
          × (1 ≤ count b cf.active_dls))
  before b m mem bm = elim (Bool-cases (b == a)) [
    | inl e ↦
        let same : b ≡ a = eq_of b a e in
        let (offsets, was) = stays m (sym changed ∙ ap heap (sym same) ∙ bm) (rw same at mem) in
        (node, (ap cf.node_at same ∙ at, offsets, (rw same was)))
    | inr e ↦ (m, (sym (same_heap b e) ∙ bm, refl, omega (arith, mem, elsewhere b e)))
  ]

  pub update-IsOwned :
      IsOwned (record cf { node_at = heap; active_dls = chain; broadcasts = broadcasts }) held'
  update-IsOwned = record {
    cell = λ b. elim (Bool-cases (b == a)) [
      | inl e ↦ let same : b ≡ a = eq_of b a e in rw (same, changed) there
      | inr e ↦ rw (same_heap b e, (elsewhere b e).0, (elsewhere b e).1) (w.cell b)
    ];
    unused = λ b h. elim (Bool-cases (b == a)) [
      | inl e ↦
          let clash : none ≡ some node = sym (w.unused b h) ∙ ap cf.node_at (eq_of b a e) ∙ at in cc
      | inr e ↦ same_heap b e ∙ w.unused b h
    ];
    distinct = λ b c m n mb mc bm cn o.
        let (m', (bm', om, wb)) = before b m mb bm in
        let (n', (cn', on, wc)) = before c n mc cn in
        w.distinct b c m' n' wb wc bm' cn' (sym om ∙ o ∙ on);
  }

pub put_self :
    (heap : ℕ → Option ActiveDownload) (a : ℕ) (v : Option ActiveDownload) → put heap a v a ≡ v
put_self heap a v = rw (==_self a) refl

pub put_ne :
    (heap : ℕ → Option ActiveDownload) (a : ℕ) (v : Option ActiveDownload) (b : ℕ)
    → (b == a) ≡ false
    → put heap a v b ≡ heap b
put_ne heap a v b e = rw e refl

pub pos-suc : (n m : ℕ) → m ≡ suc n → pos n +ℤ pos 1 ≡ pos m
pos-suc n m e = ground (arith, e)

pub pos-pred : (n m : ℕ) → n ≡ suc m → pos n -ℤ pos 1 ≡ pos m
pos-pred n m e = ground (arith, e)
