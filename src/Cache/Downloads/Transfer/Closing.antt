-- ===== src/Cache/Downloads/Transfer/Closing.antt =====
-- The loop of `Cache_free` over the downloads that are left, on owned nodes.
use httpdirfs.Prelude.{
  ℕ, suc, ◌≡◌, refl, sym, ap, ◌∙◌, List, [], ◌∷◌, true, some, ◌==◌, arith, Bool-cases, Option-cases,
  inl, inr, ==_self,
}
use httpdirfs.Prelude.Int.{pos, eqb_ℤ, ◌-ℤ◌}
use httpdirfs.Prelude.Run.{ok, fault, Returns, Returns-bind, ok-injective}
use httpdirfs.Cache.Downloads.{
  ActiveDownload, Downloads, cond_of, put, active_download_unref, unlink,
}
use httpdirfs.Cache.Downloads.Search.{count}
use httpdirfs.Cache.Downloads.Update.{IsOwned, live-node, put_self, put_ne}
use httpdirfs.Cache.Downloads.Ownership.{unref-last, unref-shared, drop-IsOwned, unlink-run}
use httpdirfs.Cache.Downloads.Transfer.{close_loop, close_downloads}

-- the same downloads with another chain
abbrev rechain : List ℕ → Downloads → Downloads
rechain chain cf = record cf { active_dls = chain }

rechain-IsOwned :
    (cf : Downloads) (held chain : List ℕ)
    → cf.active_dls ≡ chain
    → IsOwned cf held
    → IsOwned (rechain chain cf) held
rechain-IsOwned cf held chain e w = record {
  cell = λ a. (rw e at (w.cell a));
  unused = w.unused;
  distinct = λ a b m n ma mb. w.distinct a b m n (rw e ma) (rw e mb);
}

back-IsOwned :
    (cf : Downloads) (held chain : List ℕ)
    → cf.active_dls ≡ chain
    → IsOwned (rechain chain cf) held
    → IsOwned cf held
back-IsOwned cf held chain e w = record {
  cell = λ a. rw e (w.cell a);
  unused = w.unused;
  distinct = λ a b m n ma mb. w.distinct a b m n (rw e at ma) (rw e at mb);
}

-- `ActiveDownload_unref` neither looks at the chain nor changes it.
unref-rechain :
    (cf d : Downloads) (a : ℕ) (chain : List ℕ)
    → active_download_unref cf a ≡ ok d
    → (active_download_unref (rechain chain cf) a ≡ ok (rechain chain d))
      × (d.active_dls ≡ cf.active_dls)
unfolding active_download_unref
unref-rechain cf d a chain run = elim (Option-cases (cf.node_at a)) [
  | inl e ↦ let clash : fault ≡ ok d = sym (rw (active_download_unref, e) refl) ∙ run in absurd cc
  | inr (node, at) ↦ elim (Bool-cases (eqb_ℤ (node.refcount -ℤ pos 1) (pos 0))) [
    | inl e ↦
        let same = ok-injective _ d (sym (unref-last cf a node at e) ∙ run) in
        (
          unref-last (rechain chain cf) a node at e ∙ ap (λ x. ok (rechain chain x)) same,
          sym (ap (λ x. x.active_dls) same),
        )
    | inr e ↦
        let same = ok-injective _ d (sym (unref-shared cf a node at e) ∙ run) in
        (
          unref-shared (rechain chain cf) a node at e ∙ ap (λ x. ok (rechain chain x)) same,
          sym (ap (λ x. x.active_dls) same),
        )
  ]
]

-- one round: the node at the head of the chain loses its place and the reference of the list
close_head :
    (cf : Downloads) (held next : List ℕ) (ad : ℕ)
    → IsOwned (rechain (ad ∷ next) cf) held
    → Returns (unlink cf [] ad) (λ cf'. IsOwned (rechain next cf') held × (cf'.active_dls ≡ []))
close_head cf held next ad w =
    let self : (ad == ad) ≡ true = ==_self ad in
    let here : count ad (ad ∷ next) ≡ suc (count ad next) = rw self refl in
    let (node, (at, counted, once, linked)) =
      live-node (cf.node_at ad) (count ad (ad ∷ next)) (count ad held) (w.cell ad)
        (omega (arith, here)) in
    let gone : count ad next ≡ 0 = omega (arith, here, once) in
    let node' : ActiveDownload = record node { unlinked = true } in
    let heap1 = put cf.node_at ad (some node') in
    let (d, run, owned) =
      drop-IsOwned (rechain (ad ∷ next) cf) held held next ad node (cond_of ad ∷ cf.broadcasts)
        heap1 w at node' (put_self cf.node_at ad (some node')) (put_ne cf.node_at ad (some node'))
        refl refl (ground (arith, gone)) (omega (arith, here)) (omega (arith, here))
        (λ b e. (rw e refl, refl)) in
    let (emptied, same) =
      unref-rechain
        (record cf { node_at = heap1; active_dls = next; broadcasts = cond_of ad ∷ cf.broadcasts })
        d ad [] run in
    (
      rechain [] d,
      unlink-run cf [] ad node at ∙ emptied,
      (rechain-IsOwned d held next same owned, refl),
    )

close_loop-IsOwned :
    (cf : Downloads) (held chain : List ℕ)
    → IsOwned (rechain chain cf) held
    → cf.active_dls ≡ []
    → Returns (close_loop cf chain) (λ cf'. IsOwned cf' held × (cf'.active_dls ≡ []))
unfolding close_loop
close_loop-IsOwned cf held [] w empty = (cf, refl, (back-IsOwned cf held [] empty w, empty))
close_loop-IsOwned cf held (ad ∷ next) w empty =
    Returns-bind (close_head cf held next ad w)
      (λ cf' (w', empty'). close_loop-IsOwned cf' held next w' empty')

-- The loop of `Cache_free` takes every download off the list without touching a freed node, and
-- leaves the nodes that others still refer to.
pub close_downloads-IsOwned :
    (cf : Downloads) (held : List ℕ)
    → IsOwned cf held
    → Returns (close_downloads cf) (λ cf'. IsOwned cf' held × (cf'.active_dls ≡ []))
unfolding close_downloads
close_downloads-IsOwned cf held w =
    close_loop-IsOwned (record cf { shutting_down = true; active_dls = [] }) held cf.active_dls
      (record { cell = w.cell; unused = w.unused; distinct = w.distinct }) refl
