-- ===== src/Cache/Downloads/Transfer/Joining.antt =====
-- A transfer that joins and leaves a download, on owned nodes.
use mathlib.Core.Option.{some-injective}
use httpdirfs.Prelude.{
  ℕ, ◌≤◌, ◌≡◌, refl, sym, ap, List, ◌∷◌, Option, none, some, arith, Bool-cases, inl, inr,
}
use httpdirfs.Prelude.Int.{ℤ}
use httpdirfs.Prelude.Run.{Returns, Returns-bind}
use httpdirfs.Cache.Downloads.{ActiveDownload, Downloads, cond_of, put, active_download_find}
use httpdirfs.Cache.Downloads.Search.{count, Finding, find_loop-Finding}
use httpdirfs.Cache.Downloads.Update.{IsOwned, live-node, update-IsOwned, put_self, put_ne}
use httpdirfs.Cache.Downloads.Ownership.{owned-AllLive, ref-IsOwned, unref-IsOwned}
use httpdirfs.Cache.Downloads.Transfer.{
  set_ts, attach_found, attach, is_ts, clear_ts, leave, finish_transfer,
}

pub find-Finding :
    (cf : Downloads) (held : List ℕ) (offset : ℤ)
    → IsOwned cf held
    → Returns (active_download_find cf offset) (Finding cf.node_at cf.active_dls offset)
unfolding active_download_find
find-Finding cf held offset w =
    find_loop-Finding cf.node_at cf.active_dls offset (owned-AllLive cf held w)

set_ts-IsOwned :
    (cf : Downloads) (held : List ℕ) (a : ℕ) (t : Option ℕ)
    → IsOwned cf held
    → 1 ≤ count a cf.active_dls
    → Returns (set_ts cf a t) (λ cf'. IsOwned cf' held × (cf'.active_dls ≡ cf.active_dls))
unfolding set_ts
set_ts-IsOwned cf held a t w mem =
    let (node, (at, counted, once, linked)) =
      live-node (cf.node_at a) (count a cf.active_dls) (count a held) (w.cell a)
        (omega (arith, mem)) in
    let node' : ActiveDownload = record node { ts = t } in
    (
      record cf { node_at = put cf.node_at a (some node') },
      rw (set_ts, at) refl,
      (
        update-IsOwned cf held held cf.active_dls cf.broadcasts a node (some node')
            (put cf.node_at a (some node')) w at (put_self cf.node_at a (some node'))
            (put_ne cf.node_at a (some node')) (counted, omega (arith, mem), once, linked)
            (λ b e. (refl, refl))
            (λ m e mem. (ap (λ n. n.offset) (sym (some-injective node' m e)), mem)),
        refl,
      ),
    )

-- The references after an attempt to join.
abbrev pub joined_by : Option ℕ → List ℕ → List ℕ
joined_by none held = held
joined_by (some ad) held = ad ∷ held

attach_found-IsOwned :
    (cf : Downloads) (held : List ℕ) (offset : ℤ) (t : ℕ)
    → IsOwned cf held
    → (r : Option ℕ) → Finding cf.node_at cf.active_dls offset r
    → Returns (attach_found cf t r) (λ p. IsOwned p.1 (joined_by p.0 held))
unfolding attach_found
attach_found-IsOwned cf held offset t w none absent = ((none, cf), refl, w)
attach_found-IsOwned cf held offset t w (some ad) (node, (at, o, mem)) =
    Returns-bind (set_ts-IsOwned cf held ad (some t) w mem) (λ cf1 (w1, same).
      Returns-bind (ref-IsOwned cf1 held ad w1 (rw same (omega (arith, mem)))) (λ cf2 w2. (
        (some ad, record cf2 { broadcasts = cond_of ad ∷ cf2.broadcasts }),
        refl,
        record { cell = w2.cell; unused = w2.unused; distinct = w2.distinct },
      )))

pub attach-IsOwned :
    (cf : Downloads) (held : List ℕ) (offset : ℤ) (t : ℕ)
    → IsOwned cf held
    → Returns (attach cf offset t) (λ p. IsOwned p.1 (joined_by p.0 held))
unfolding attach
attach-IsOwned cf held offset t w =
    Returns-bind (find-Finding cf held offset w) (attach_found-IsOwned cf held offset t w)

clear_ts-IsOwned :
    (cf : Downloads) (held : List ℕ) (offset : ℤ) (t : ℕ)
    → IsOwned cf held
    → (r : Option ℕ) → Finding cf.node_at cf.active_dls offset r
    → Returns (clear_ts cf t r) (λ cf'. IsOwned cf' held)
unfolding clear_ts
clear_ts-IsOwned cf held offset t w none absent = (cf, refl, w)
clear_ts-IsOwned cf held offset t w (some ad) (node, (at, o, mem)) =
    elim (Bool-cases (is_ts node t)) [
      | inl e ↦
          let (cf', run, (w', same)) = set_ts-IsOwned cf held ad none w mem in
          (cf', rw (clear_ts, at, e) run, w')
      | inr e ↦ (cf, rw (clear_ts, at, e) refl, w)
    ]

-- A transfer that has joined by `ad_ptr`, or not joined, leaves.
pub finish_transfer-IsOwned :
    (cf : Downloads) (held : List ℕ) (offset : ℤ) (t : ℕ) (ad_ptr : Option ℕ)
    → IsOwned cf (joined_by ad_ptr held)
    → Returns (finish_transfer cf offset t ad_ptr) (λ cf'. IsOwned cf' held)
unfolding finish_transfer leave
finish_transfer-IsOwned cf held offset t none w =
    Returns-bind
      (Returns-bind (find-Finding cf held offset w) (clear_ts-IsOwned cf held offset t w))
      (λ cf' w'. (cf', refl, w'))
finish_transfer-IsOwned cf held offset t (some ad) w =
    Returns-bind
      (Returns-bind (find-Finding cf (ad ∷ held) offset w)
        (clear_ts-IsOwned cf (ad ∷ held) offset t w))
      (λ cf' w'. unref-IsOwned cf' (ad ∷ held) held ad w' (λ b. ground arith))
