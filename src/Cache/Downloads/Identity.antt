-- ===== src/Cache/Downloads/Identity.antt =====
-- A node of the list of downloads keeps its offset from its allocation to its end.
pub mod Operations
use mathlib.Core.Option.{some-injective}
use mathlib.Core.Path.{subst}
use httpdirfs.Prelude.{
  ℕ, suc, ◌≤◌, ◌<◌, ◌≡◌, ◌⊎◌, refl, sym, ap, ◌∙◌, List, [], ◌∷◌, Bool, true, false, ◌&&◌, Option,
  none, some, ◌==◌, if◌then◌else◌, arith, Bool-cases, Option-cases, inl, inr,
}
use httpdirfs.Prelude.Int.{ℤ, pos, eqb_ℤ, ◌+ℤ◌, ◌-ℤ◌}
use httpdirfs.Prelude.Run.{Run, ok, fatal, fault, out_of_fuel, ok-injective, ◌>>=◌}
use httpdirfs.Cache.Downloads.{
  ActiveDownload, Downloads, cond_of, put, find_loop, active_download_find, active_download_add,
  active_download_ref, unlink_loop, active_download_unref, unlink, active_download_remove,
  cache_waiter_decrement,
}
use httpdirfs.Cache.Downloads.Search.{eqb_ℤ-sound, eq_of}
use httpdirfs.Cache.Downloads.Transfer.{
  set_ts, attach_found, attach, is_ts, clear_ts, leave, finish_transfer, close_loop,
  close_downloads,
}

-- A run that ends in a value has one for each of its parts.
pub bind-ok {ℓ κ} :
    {A : Type ℓ} {B : Type κ}
    → (m : Run A) (f : A → Run B) (b : B) → (m >>= f) ≡ ok b
    → (a : A) × (m ≡ ok a) × (f a ≡ ok b)
bind-ok (ok a) f b e = (a, refl, e)
bind-ok fatal f b e = absurd cc
bind-ok fault f b e = absurd cc
bind-ok out_of_fuel f b e = absurd cc

abbrev pub Heap : Type 0
Heap = ℕ → Option ActiveDownload

-- the addresses of nodes have been allocated
abbrev pub Below : Downloads → Type 0
Below cf = (a : ℕ) (node : ActiveDownload) → cf.node_at a ≡ some node → a < cf.fresh

-- From `cf` to `cf'`, no address is allocated again, and the nodes keep their offsets.
pub record Evolves (cf cf' : Downloads) : Type 0 where
  pub grows : cf.fresh ≤ cf'.fresh
  pub below : Below cf'
  pub kept :
      (a : ℕ) (node' : ActiveDownload)
      → a < cf.fresh
      → cf'.node_at a ≡ some node'
      → (node : ActiveDownload) × (cf.node_at a ≡ some node) × (node'.offset ≡ node.offset)

pub Evolves-refl : (cf : Downloads) → Below cf → Evolves cf cf
Evolves-refl cf b = record { grows = omega arith; below = b; kept = λ a node h e. (node, e, refl) }

pub Evolves-trans : (c1 c2 c3 : Downloads) → Evolves c1 c2 → Evolves c2 c3 → Evolves c1 c3
Evolves-trans c1 c2 c3 e f = record {
  grows = omega (arith, e.grows, f.grows);
  below = f.below;
  kept = λ a node h there.
      let (m, there', same) = f.kept a node (omega (arith, h, e.grows)) there in
      let (n, there'', same') = e.kept a m h there' in (n, there'', same ∙ same');
}

-- a node is replaced by one of the same offset
pub put-Evolves :
    (cf cf' : Downloads) (ad : ℕ) (node node2 : ActiveDownload)
    → Below cf
    → cf.node_at ad ≡ some node
    → node2.offset ≡ node.offset
    → cf'.fresh ≡ cf.fresh
    → ((a : ℕ) → cf'.node_at a ≡ put cf.node_at ad (some node2) a)
    → Evolves cf cf'
put-Evolves cf cf' ad node node2 b at same fresh heap =
    let kept = λ (a : ℕ) (node' : ActiveDownload) (e : cf'.node_at a ≡ some node').
      step a node' (Bool-cases (a == ad)) e in
    record {
      grows = omega (arith, fresh);
      below = λ a node' e. let (n, there, o) = kept a node' e in omega (arith, fresh, b a n there);
      kept = λ a node' h e. kept a node' e;
    }
  where
    step :
        (a : ℕ) (node' : ActiveDownload)
        → ((a == ad) ≡ true) ⊎ ((a == ad) ≡ false)
        → cf'.node_at a ≡ some node'
        → (n : ActiveDownload) × (cf.node_at a ≡ some n) × (node'.offset ≡ n.offset)
    step a node' (inl h) e =
        let new : some node2 ≡ some node' = rw (h) at (sym (heap a) ∙ e) in
        (
          node,
          ap cf.node_at (eq_of a ad h) ∙ at,
          ap (λ (n : ActiveDownload). n.offset) (sym (some-injective node2 node' new)) ∙ same,
        )
    step a node' (inr h) e =
        let old : cf.node_at a ≡ some node' = rw (h) at (sym (heap a) ∙ e) in (node', old, refl)

-- a node is freed
pub free-Evolves :
    (cf cf' : Downloads) (ad : ℕ)
    → Below cf
    → cf'.fresh ≡ cf.fresh
    → ((a : ℕ) → cf'.node_at a ≡ put cf.node_at ad none a)
    → Evolves cf cf'
free-Evolves cf cf' ad b fresh heap = record {
  grows = omega (arith, fresh);
  below = λ a node' e. omega (arith, fresh, b a node' (step a node' (Bool-cases (a == ad)) e));
  kept = λ a node' h e. (node', step a node' (Bool-cases (a == ad)) e, refl);
}
  where
    step :
        (a : ℕ) (node' : ActiveDownload)
        → ((a == ad) ≡ true) ⊎ ((a == ad) ≡ false)
        → cf'.node_at a ≡ some node'
        → cf.node_at a ≡ some node'
    step a node' (inl h) e =
        let gone : none ≡ some node' = rw (h) at (sym (heap a) ∙ e) in absurd (cc gone)
    step a node' (inr h) e = rw (h) at (sym (heap a) ∙ e)

pub add-Evolves :
    (cf : Downloads) (offset : ℤ) → Below cf → Evolves cf (active_download_add cf offset)
unfolding active_download_add
add-Evolves cf offset b = record {
  grows = omega arith;
  below = λ a node e. elim (Bool-cases (a == cf.fresh)) [
    | inl h ↦ ground (arith, h)
    | inr h ↦ let old : cf.node_at a ≡ some node = rw (h) at e in omega (arith, b a node old)
  ];
  kept = λ a node h e.
      let other : (a == cf.fresh) ≡ false = ground (arith, h) in
      let old : cf.node_at a ≡ some node = rw (other) at e in (node, old, refl);
}
