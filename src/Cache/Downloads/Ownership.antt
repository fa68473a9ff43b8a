-- ===== src/Cache/Downloads/Ownership.antt =====
-- The operations on the list of downloads, on owned nodes.
use mathlib.Core.Option.{some-injective}
use httpdirfs.Prelude.{
  ℕ, zero, suc, ◌+◌, ◌≤◌, ◌≡◌, refl, sym, ap, ◌∙◌, List, ◌∷◌, true, false, Option, none, some, ◌==◌,
  arith, Bool-cases, inl, inr, ==_self,
}
use httpdirfs.Prelude.Int.{ℤ, pos, pos_part, eqb_ℤ, ◌+ℤ◌, ◌-ℤ◌}
use httpdirfs.Prelude.Run.{ok, Returns}
use httpdirfs.Cache.Downloads.{
  ActiveDownload, Broadcast, cond_of, Downloads, put, active_download_add, active_download_ref,
  active_download_unref, unlink_loop, unlink, active_download_remove,
}
use httpdirfs.Cache.Downloads.Search.{
  count, eqb_ℤ-sound, eqb_ℤ-self, AllLive, Finding, Without, unlink_loop-Finding,
}
use httpdirfs.Cache.Downloads.Update.{
  IsOwned, live-node, free-count, update-IsOwned, put_self, put_ne, pos-suc, pos-pred,
}

pub owned-AllLive :
    (cf : Downloads) (held : List ℕ) → IsOwned cf held → AllLive cf.node_at cf.active_dls
owned-AllLive cf held w a mem =
    let (node, (at, _, _, _)) =
      live-node (cf.node_at a) (count a cf.active_dls) (count a held) (w.cell a)
        (omega (arith, mem)) in
    (node, at)

pub new-offset :
    (heap : ℕ → Option ActiveDownload) (f a : ℕ) (new m : ActiveDownload)
    → (a == f) ≡ true
    → put heap f (some new) a ≡ some m
    → m.offset ≡ new.offset
new-offset heap f a new m e am = ap (λ n. n.offset) (sym (some-injective new m (rw e at am)))

pub old-node :
    (heap : ℕ → Option ActiveDownload) (f a : ℕ) (new : Option ActiveDownload) (m : ActiveDownload)
    → (a == f) ≡ false
    → put heap f new a ≡ some m
    → heap a ≡ some m
old-node heap f a new m e am = rw e at am

pub old-count :
    (f a : ℕ) (chain : List ℕ) → (a == f) ≡ false → 1 ≤ count a (f ∷ chain) → 1 ≤ count a chain
old-count f a chain e mem = rw e at mem

pub add-IsOwned :
    (cf : Downloads) (held : List ℕ) (offset : ℤ)
    → IsOwned cf held
    → Finding cf.node_at cf.active_dls offset none
    → IsOwned (active_download_add cf offset) held
unfolding active_download_add
add-IsOwned cf held offset w absent =
    let new : ActiveDownload = record {
      offset = offset;
      ts = none;
      refcount = pos 1;
      unlinked = false;
    } in
    record {
      cell = λ a. elim (Bool-cases (a == cf.fresh)) [
        | inl e ↦
            let none_yet =
              free-count (cf.node_at a) (count a cf.active_dls) (count a held) (w.cell a)
                (w.unused a (ground (arith, e))) in
            rw e (
              ap pos (omega (arith, none_yet)),
              omega arith,
              omega (arith, none_yet),
              ground (arith, none_yet),
            )
        | inr e ↦ rw e (w.cell a)
      ];
      unused = λ a h.
          let e : (a == cf.fresh) ≡ false = ground (arith, h) in
          rw e (w.unused a (omega (arith, h)));
      distinct = λ a b m n ma mb am bn o. elim (Bool-cases (a == cf.fresh)) [
        | inl e ↦ elim (Bool-cases (b == cf.fresh)) [
          | inl f ↦ ground (arith, e, f)
          | inr f ↦ absurd (
              absent b n (old-count cf.fresh b cf.active_dls f mb)
                (old-node cf.node_at cf.fresh b (some new) n f bn)
                (sym o ∙ new-offset cf.node_at cf.fresh a new m e am))
        ]
        | inr e ↦ elim (Bool-cases (b == cf.fresh)) [
          | inl f ↦ absurd (
              absent a m (old-count cf.fresh a cf.active_dls e ma)
                (old-node cf.node_at cf.fresh a (some new) m e am)
                (o ∙ new-offset cf.node_at cf.fresh b new n f bn))
          | inr f ↦
              w.distinct a b m n (old-count cf.fresh a cf.active_dls e ma)
                (old-count cf.fresh b cf.active_dls f mb)
                (old-node cf.node_at cf.fresh a (some new) m e am)
                (old-node cf.node_at cf.fresh b (some new) n f bn) o
        ]
      ];
    }

-- A thread or a transfer that takes a reference to a node in reach owns it then.
pub ref-IsOwned :
    (cf : Downloads) (held : List ℕ) (a : ℕ)
    → IsOwned cf held
    → 1 ≤ count a cf.active_dls + count a held
    → Returns (active_download_ref cf a) (λ cf'. IsOwned cf' (a ∷ held))
unfolding active_download_ref
ref-IsOwned cf held a w reach =
    let (node, (at, counted, once, linked)) =
      live-node (cf.node_at a) (count a cf.active_dls) (count a held) (w.cell a) reach in
    let node' : ActiveDownload = record node { refcount = node.refcount +ℤ pos 1 } in
    let self : (a == a) ≡ true = ==_self a in
    (
      record cf { node_at = put cf.node_at a (some node') },
      rw (active_download_ref, at) refl,
      update-IsOwned cf held (a ∷ held) cf.active_dls cf.broadcasts a node (some node')
          (put cf.node_at a (some node')) w at (put_self cf.node_at a (some node'))
          (put_ne cf.node_at a (some node'))
          (rw self (
            ap (λ z. z +ℤ pos 1) counted
                ∙ pos-suc (count a cf.active_dls + count a held)
                    (count a cf.active_dls + suc (count a held)) (omega arith),
            omega arith,
            once,
            linked,
          ))
          (λ b e. (refl, rw e refl))
          (λ m e mem. (ap (λ n. n.offset) (sym (some-injective node' m e)), mem)),
    )

pub remains : (z : ℤ) (n : ℕ) → z ≡ pos n → eqb_ℤ z (pos 0) ≡ false → 1 ≤ n
remains z zero e h =
    let hit : eqb_ℤ z (pos 0) ≡ true = ap (λ y. eqb_ℤ y (pos 0)) e ∙ eqb_ℤ-self (pos 0) in
    absurd (ground (arith, hit, h))
remains z (suc n) e h = omega arith

pub unref-last :
    (cf : Downloads) (a : ℕ) (node : ActiveDownload)
    → cf.node_at a ≡ some node
    → eqb_ℤ (node.refcount -ℤ pos 1) (pos 0) ≡ true
    → active_download_unref cf a ≡ ok (record cf { node_at = put cf.node_at a none })
unfolding active_download_unref
unref-last cf a node at e = rw (active_download_unref, at, e) refl

pub unref-shared :
    (cf : Downloads) (a : ℕ) (node : ActiveDownload)
    → cf.node_at a ≡ some node
    → eqb_ℤ (node.refcount -ℤ pos 1) (pos 0) ≡ false
    → active_download_unref cf a
      ≡ ok (record cf {
        node_at = put cf.node_at a (some (record node { refcount = node.refcount -ℤ pos 1 }));
      })
unfolding active_download_unref
unref-shared cf a node at e = rw (active_download_unref, at, e) refl

-- one reference less, held by a thread or a transfer or by the chain
pub drop-IsOwned :
    (cf : Downloads) (held held' chain : List ℕ) (a : ℕ) (node : ActiveDownload)
    (broadcasts : List Broadcast) (heap1 : ℕ → Option ActiveDownload)
    → IsOwned cf held
    → cf.node_at a ≡ some node
    → (node' : ActiveDownload) → heap1 a ≡ some node'
    → ((b : ℕ) → (b == a) ≡ false → heap1 b ≡ cf.node_at b)
    → node'.offset ≡ node.offset
    → node'.refcount ≡ node.refcount
    → node'.unlinked ≡ (count a chain == 0)
    → suc (count a chain + count a held') ≡ count a cf.active_dls + count a held
    → count a chain ≤ count a cf.active_dls
    → ((b : ℕ)
        → (b == a) ≡ false
        → (count b chain ≡ count b cf.active_dls) × (count b held' ≡ count b held))
    → Returns
        (active_download_unref
          (record cf { node_at = heap1; active_dls = chain; broadcasts = broadcasts })
          a)
        (λ cf'. IsOwned cf' held')
drop-IsOwned cf held held' chain a node broadcasts heap1 w at node' found same_heap same_offset
      same_count unlinked less fewer others =
    let (node0, (at0, counted, once, linked)) =
      live-node (cf.node_at a) (count a cf.active_dls) (count a held) (w.cell a) (omega arith) in
    let one : node0 ≡ node = some-injective node0 node (sym at0 ∙ at) in
    let total : node'.refcount ≡ pos (count a cf.active_dls + count a held) =
      same_count ∙ ap (λ n. n.refcount) (sym one) ∙ counted in
    let left : node'.refcount -ℤ pos 1 ≡ pos (count a chain + count a held') =
      ap (λ z. z -ℤ pos 1) total
      ∙ pos-pred (count a cf.active_dls + count a held) (count a chain + count a held')
          (sym less) in
    let cf1 : Downloads = record cf {
      node_at = heap1;
      active_dls = chain;
      broadcasts = broadcasts;
    } in
    elim (Bool-cases (eqb_ℤ (node'.refcount -ℤ pos 1) (pos 0))) [
      | inl e ↦
          let nothing : pos (count a chain + count a held') ≡ pos 0 =
            sym left ∙ eqb_ℤ-sound (node'.refcount -ℤ pos 1) (pos 0) e in
          let freed : count a chain + count a held' ≡ 0 = ap pos_part nothing in
          (
            record cf { node_at = put heap1 a none; active_dls = chain; broadcasts = broadcasts },
            unref-last cf1 a node' found e,
            update-IsOwned cf held held' chain broadcasts a node none (put heap1 a none) w at
                (put_self heap1 a none) (λ b d. put_ne heap1 a none b d ∙ same_heap b d) freed
                others (λ m clash mem. absurd (omega (arith, mem, freed))),
          )
      | inr e ↦
          let node2 : ActiveDownload = record node' { refcount = node'.refcount -ℤ pos 1 } in
          let some_left : 1 ≤ count a chain + count a held' =
            remains (node'.refcount -ℤ pos 1) (count a chain + count a held') left e in
          (
            record cf {
              node_at = put heap1 a (some node2);
              active_dls = chain;
              broadcasts = broadcasts;
            },
            unref-shared cf1 a node' found e,
            update-IsOwned cf held held' chain broadcasts a node (some node2)
                (put heap1 a (some node2)) w at (put_self heap1 a (some node2))
                (λ b d. put_ne heap1 a (some node2) b d ∙ same_heap b d)
                (left, some_left, omega (arith, once, fewer), unlinked) others
                (λ m e2 mem. (
                  ap (λ n. n.offset) (sym (some-injective node2 m e2)) ∙ same_offset,
                  omega (arith, mem, fewer),
                )),
          )
    ]

-- A thread or a transfer that gives back a reference it holds.
pub unref-IsOwned :
    (cf : Downloads) (held held' : List ℕ) (a : ℕ)
    → IsOwned cf held
    → Without held (some a) held'
    → Returns (active_download_unref cf a) (λ cf'. IsOwned cf' held')
unref-IsOwned cf held held' a w without =
    let self : (a == a) ≡ true = ==_self a in
    let here : count a held' + 1 ≡ count a held = (rw self at (without a)) in
    let (node, (at, counted, once, linked)) =
      live-node (cf.node_at a) (count a cf.active_dls) (count a held) (w.cell a)
        (omega (arith, here)) in
    drop-IsOwned cf held held' cf.active_dls a node cf.broadcasts cf.node_at w at node at
      (λ b e. refl) refl refl linked (omega (arith, here)) (omega arith)
      (λ b e. (refl, ground (arith, e, without b)))

pub remove-run :
    (cf : Downloads) (offset : ℤ) (a : ℕ) (chain : List ℕ)
    → unlink_loop cf.node_at cf.active_dls offset ≡ ok (some a, chain)
    → active_download_remove cf offset ≡ unlink cf chain a
unfolding active_download_remove
remove-run cf offset a chain run = rw run refl

pub unlink-run :
    (cf : Downloads) (chain : List ℕ) (a : ℕ) (node : ActiveDownload)
    → cf.node_at a ≡ some node
    → unlink cf chain a
      ≡ active_download_unref
          (record cf {
            node_at = put cf.node_at a (some (record node { unlinked = true }));
            active_dls = chain;
            broadcasts = cond_of a ∷ cf.broadcasts;
          })
          a
unfolding unlink
unlink-run cf chain a node at = rw (unlink, at) refl

pub removed-IsOwned :
    (cf : Downloads) (held : List ℕ) (offset : ℤ)
    → IsOwned cf held
    → (r : Option ℕ) (chain : List ℕ) → unlink_loop cf.node_at cf.active_dls offset ≡ ok (r, chain)
    → Finding cf.node_at cf.active_dls offset r
    → Without cf.active_dls r chain
    → Returns (active_download_remove cf offset) (λ cf'. IsOwned cf' held)
unfolding active_download_remove unlink
removed-IsOwned cf held offset w none chain run found without = (cf, rw run refl, w)
removed-IsOwned cf held offset w (some a) chain run (node, (at, o, mem)) without =
    let self : (a == a) ≡ true = ==_self a in
    let here : count a chain + 1 ≡ count a cf.active_dls = (rw self at (without a)) in
    let (node0, (at0, counted, once, linked)) =
      live-node (cf.node_at a) (count a cf.active_dls) (count a held) (w.cell a)
        (omega (arith, mem)) in
    let gone : count a chain ≡ 0 = omega (arith, here, once) in
    let node' : ActiveDownload = record node { unlinked = true } in
    let (cf', dropped, owned) =
      drop-IsOwned cf held held chain a node (cond_of a ∷ cf.broadcasts)
        (put cf.node_at a (some node')) w at node' (put_self cf.node_at a (some node'))
        (put_ne cf.node_at a (some node')) refl refl (ground (arith, gone)) (omega (arith, here))
        (omega (arith, here)) (λ b e. (ground (arith, e, without b), refl)) in
    (cf', remove-run cf offset a chain run ∙ unlink-run cf chain a node at ∙ dropped, owned)

-- `ActiveDownload_remove` takes the download of the offset from the chain, if there is one.
pub remove-IsOwned :
    (cf : Downloads) (held : List ℕ) (offset : ℤ)
    → IsOwned cf held
    → Returns (active_download_remove cf offset) (λ cf'. IsOwned cf' held)
unfolding active_download_remove
remove-IsOwned cf held offset w =
    let ((r, chain), run, (found, without)) =
      unlink_loop-Finding cf.node_at cf.active_dls offset (owned-AllLive cf held w) in
    removed-IsOwned cf held offset w r chain run found without
