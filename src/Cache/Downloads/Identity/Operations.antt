-- ===== src/Cache/Downloads/Identity/Operations.antt =====
-- Each operation on the list of downloads lets the nodes keep their offsets.
use mathlib.Core.Option.{some-injective}
use mathlib.Core.Path.{subst}
use httpdirfs.Prelude.{
  ℕ, ◌≡◌, refl, sym, ap, ◌∙◌, List, [], ◌∷◌, true, ◌&&◌, Option, none, some, arith, Bool-cases,
  Option-cases, inl, inr,
}
use httpdirfs.Prelude.Int.{ℤ, pos, eqb_ℤ, ◌+ℤ◌, ◌-ℤ◌}
use httpdirfs.Prelude.Run.{ok, fault, ok-injective, ◌>>=◌}
use httpdirfs.Cache.Downloads.{
  ActiveDownload, Downloads, cond_of, put, find_loop, active_download_find, active_download_ref,
  unlink_loop, active_download_unref, unlink, active_download_remove, cache_waiter_decrement,
}
use httpdirfs.Cache.Downloads.Search.{eqb_ℤ-sound}
use httpdirfs.Cache.Downloads.Transfer.{
  set_ts, attach_found, attach, is_ts, clear_ts, leave, finish_transfer, close_loop,
  close_downloads,
}
use httpdirfs.Cache.Downloads.Identity.{
  Heap, bind-ok, Below, Evolves, Evolves-refl, Evolves-trans, put-Evolves, free-Evolves,
}

pub ref-Evolves :
    (cf cf' : Downloads) (ad : ℕ) → Below cf → active_download_ref cf ad ≡ ok cf' → Evolves cf cf'
unfolding active_download_ref
ref-Evolves cf cf' ad b e = elim (Option-cases (cf.node_at ad)) [
  | inl h ↦ absurd (let bad : fault ≡ ok cf' = rw (active_download_ref, h) at e in cc bad)
  | inr (node, h) ↦
      let node2 : ActiveDownload = record node { refcount = node.refcount +ℤ pos 1 } in
      let c : Downloads = record cf { node_at = put cf.node_at ad (some node2) } in
      let run : ok c ≡ ok cf' = rw (active_download_ref, h) at e in
      subst (Evolves cf) (ok-injective c cf' run)
        (put-Evolves cf c ad node node2 b h refl refl (λ a. refl))
]

pub unref-Evolves :
    (cf cf' : Downloads) (ad : ℕ) → Below cf → active_download_unref cf ad ≡ ok cf' → Evolves cf cf'
unfolding active_download_unref
unref-Evolves cf cf' ad b e = elim (Option-cases (cf.node_at ad)) [
  | inl h ↦ absurd (let bad : fault ≡ ok cf' = rw (active_download_unref, h) at e in cc bad)
  | inr (node, h) ↦ elim (Bool-cases (eqb_ℤ (node.refcount -ℤ pos 1) (pos 0))) [
    | inl z ↦
        let c : Downloads = record cf { node_at = put cf.node_at ad none } in
        let run : ok c ≡ ok cf' = rw (active_download_unref, h, z) at e in
        subst (Evolves cf) (ok-injective c cf' run) (free-Evolves cf c ad b refl (λ a. refl))
    | inr z ↦
        let node2 : ActiveDownload = record node { refcount = node.refcount -ℤ pos 1 } in
        let c : Downloads = record cf { node_at = put cf.node_at ad (some node2) } in
        let run : ok c ≡ ok cf' = rw (active_download_unref, h, z) at e in
        subst (Evolves cf) (ok-injective c cf' run)
          (put-Evolves cf c ad node node2 b h refl refl (λ a. refl))
  ]
]

unlink-Evolves :
    (cf cf' : Downloads) (chain : List ℕ) (ad : ℕ)
    → Below cf
    → unlink cf chain ad ≡ ok cf'
    → Evolves cf cf'
unfolding unlink
unlink-Evolves cf cf' chain ad b e = elim (Option-cases (cf.node_at ad)) [
  | inl h ↦ absurd (let bad : fault ≡ ok cf' = rw (unlink, h) at e in cc bad)
  | inr (node, h) ↦
      let node2 : ActiveDownload = record node { unlinked = true } in
      let c : Downloads = record cf {
        node_at = put cf.node_at ad (some node2);
        active_dls = chain;
        broadcasts = cond_of ad ∷ cf.broadcasts;
      } in
      let run : active_download_unref c ad ≡ ok cf' = rw (unlink, h) at e in
      let first = put-Evolves cf c ad node node2 b h refl refl (λ a. refl) in
      Evolves-trans cf c cf' first (unref-Evolves c cf' ad first.below run)
]

pub remove-Evolves :
    (cf cf' : Downloads) (offset : ℤ)
    → Below cf
    → active_download_remove cf offset ≡ ok cf'
    → Evolves cf cf'
unfolding active_download_remove
remove-Evolves cf cf' offset b e =
    let ((r, chain), found, run) = bind-ok (unlink_loop cf.node_at cf.active_dls offset) _ cf' e in
    unlinked r chain run
  where
    unlinked :
        (r : Option ℕ) (chain : List ℕ)
        → (elim r [ none ↦ ok cf | some ad ↦ unlink cf chain ad ]) ≡ ok cf'
        → Evolves cf cf'
    unlinked none chain run = subst (Evolves cf) (ok-injective cf cf' run) (Evolves-refl cf b)
    unlinked (some ad) chain run = unlink-Evolves cf cf' chain ad b run

set_ts-Evolves :
    (cf cf' : Downloads) (ad : ℕ) (ts : Option ℕ)
    → Below cf
    → set_ts cf ad ts ≡ ok cf'
    → Evolves cf cf'
unfolding set_ts
set_ts-Evolves cf cf' ad ts b e = elim (Option-cases (cf.node_at ad)) [
  | inl h ↦ absurd (let bad : fault ≡ ok cf' = rw (set_ts, h) at e in cc bad)
  | inr (node, h) ↦
      let node2 : ActiveDownload = record node { ts = ts } in
      let c : Downloads = record cf { node_at = put cf.node_at ad (some node2) } in
      let run : ok c ≡ ok cf' = rw (set_ts, h) at e in
      subst (Evolves cf) (ok-injective c cf' run)
        (put-Evolves cf c ad node node2 b h refl refl (λ a. refl))
]

pub attach-Evolves :
    (cf cf' : Downloads) (offset : ℤ) (ts : ℕ) (ad_ptr : Option ℕ)
    → Below cf
    → attach cf offset ts ≡ ok (ad_ptr, cf')
    → Evolves cf cf'
unfolding attach attach_found
attach-Evolves cf cf' offset ts ad_ptr b e =
    let (found, search, run) =
      bind-ok (active_download_find cf offset) (attach_found cf ts) (ad_ptr, cf') e in
    attached found run
  where
    attached : (found : Option ℕ) → attach_found cf ts found ≡ ok (ad_ptr, cf') → Evolves cf cf'
    attached none run =
        subst (λ (r : Option ℕ × Downloads). Evolves cf r.1)
          (ok-injective (none, cf) (ad_ptr, cf') run) (Evolves-refl cf b)
    attached (some ad) run =
        let (c1, set, run1) = bind-ok (set_ts cf ad (some ts)) _ (ad_ptr, cf') run in
        let (c2, counted, run2) = bind-ok (active_download_ref c1 ad) _ (ad_ptr, cf') run1 in
        let e1 = set_ts-Evolves cf c1 ad (some ts) b set in
        let e2 = ref-Evolves c1 c2 ad e1.below counted in
        let both = Evolves-trans cf c1 c2 e1 e2 in
        subst (λ (r : Option ℕ × Downloads). Evolves cf r.1)
          (ok-injective (some ad, record c2 { broadcasts = cond_of ad ∷ c2.broadcasts })
            (ad_ptr, cf') run2)
          (record { grows = both.grows; below = both.below; kept = both.kept })

pub finish_transfer-Evolves :
    (cf cf' : Downloads) (offset : ℤ) (ts : ℕ) (ad_ptr : Option ℕ)
    → Below cf
    → finish_transfer cf offset ts ad_ptr ≡ ok cf'
    → Evolves cf cf'
unfolding finish_transfer clear_ts leave
finish_transfer-Evolves cf cf' offset ts ad_ptr b e =
    let (c1, cleared, run) =
      bind-ok (active_download_find cf offset >>= clear_ts cf ts) (leave ad_ptr) cf' e in
    let (found, search, run1) =
      bind-ok (active_download_find cf offset) (clear_ts cf ts) c1 cleared in
    let e1 = clear c1 found run1 in Evolves-trans cf c1 cf' e1 (left c1 ad_ptr e1.below run)
  where
    clear : (c1 : Downloads) (found : Option ℕ) → clear_ts cf ts found ≡ ok c1 → Evolves cf c1
    clear c1 none run = subst (Evolves cf) (ok-injective cf c1 run) (Evolves-refl cf b)
    clear c1 (some ad) run = elim (Option-cases (cf.node_at ad)) [
      | inl h ↦ absurd (let bad : fault ≡ ok c1 = rw (clear_ts, h) at run in cc bad)
      | inr (node, h) ↦ elim (Bool-cases (is_ts node ts)) [
        | inl z ↦ set_ts-Evolves cf c1 ad none b (rw (clear_ts, h, z) at run)
        | inr z ↦
            let same : ok cf ≡ ok c1 = rw (clear_ts, h, z) at run in
            subst (Evolves cf) (ok-injective cf c1 same) (Evolves-refl cf b)
      ]
    ]

    left : (c1 : Downloads) (p : Option ℕ) → Below c1 → leave p c1 ≡ ok cf' → Evolves c1 cf'
    left c1 none b1 run = subst (Evolves c1) (ok-injective c1 cf' run) (Evolves-refl c1 b1)
    left c1 (some ad) b1 run = unref-Evolves c1 cf' ad b1 run

close_loop-Evolves :
    (cf cf' : Downloads) (chain : List ℕ) → Below cf → close_loop cf chain ≡ ok cf' → Evolves cf cf'
unfolding close_loop
close_loop-Evolves cf cf' [] b e = subst (Evolves cf) (ok-injective cf cf' e) (Evolves-refl cf b)
close_loop-Evolves cf cf' (ad ∷ next) b e =
    let (c1, first, run) = bind-ok (unlink cf [] ad) _ cf' e in
    let e1 = unlink-Evolves cf c1 [] ad b first in
    Evolves-trans cf c1 cf' e1 (close_loop-Evolves c1 cf' next e1.below run)

pub close_downloads-Evolves :
    (cf cf' : Downloads) → Below cf → close_downloads cf ≡ ok cf' → Evolves cf cf'
unfolding close_downloads
close_downloads-Evolves cf cf' b e =
    let closing =
      close_loop-Evolves (record cf { shutting_down = true; active_dls = [] }) cf' cf.active_dls b
        e in
    record { grows = closing.grows; below = closing.below; kept = closing.kept }

-- A search finds a node for the offset.
find_loop-offset :
    (heap : Heap) (chain : List ℕ) (offset : ℤ) (ad : ℕ)
    → find_loop heap chain offset ≡ ok (some ad)
    → (node : ActiveDownload) × (heap ad ≡ some node) × (node.offset ≡ offset)
unfolding find_loop
find_loop-offset heap [] offset ad e = absurd (cc e)
find_loop-offset heap (b ∷ next) offset ad e = elim (Option-cases (heap b)) [
  | inl h ↦ absurd (let bad : fault ≡ ok (some ad) = rw (find_loop, h) at e in cc bad)
  | inr (node, h) ↦ elim (Bool-cases (eqb_ℤ node.offset offset)) [
    | inl z ↦
        let hit : ok (some b) ≡ ok (some ad) = rw (find_loop, h, z) at e in
        let same : b ≡ ad = some-injective b ad (ok-injective (some b) (some ad) hit) in
        (node, ap heap (sym same) ∙ h, eqb_ℤ-sound node.offset offset z)
    | inr z ↦ find_loop-offset heap next offset ad (rw (find_loop, h, z) at e)
  ]
]

pub active_download_find-offset :
    (cf : Downloads) (offset : ℤ) (ad : ℕ)
    → active_download_find cf offset ≡ ok (some ad)
    → (node : ActiveDownload) × (cf.node_at ad ≡ some node) × (node.offset ≡ offset)
unfolding active_download_find
active_download_find-offset cf offset ad e = find_loop-offset cf.node_at cf.active_dls offset ad e

pub decrement-Evolves : (cf : Downloads) → Below cf → Evolves cf (cache_waiter_decrement cf)
unfolding cache_waiter_decrement
decrement-Evolves cf b =
    elim (Bool-cases (cf.shutting_down && eqb_ℤ (cf.waiters -ℤ pos 1) (pos 0))) [
      | inl h ↦
          rw (cache_waiter_decrement, h)
            (record { grows = omega arith; below = b; kept = λ a node l e. (node, e, refl) })
      | inr h ↦
          rw (cache_waiter_decrement, h)
            (record { grows = omega arith; below = b; kept = λ a node l e. (node, e, refl) })
    ]
