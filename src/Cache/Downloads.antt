-- ===== src/Cache/Downloads.antt =====
-- The list of active downloads of src/cache.c, which `dl_lock` guards. The nodes are in a heap: an
-- address that CALLOC has not returned, or that FREE was given, has no node, and an access to it
-- is a fault. `active_dls` is the chain of `next` pointers as a list of addresses.
pub mod Search
pub mod Identity
pub mod Update
pub mod Ownership
pub mod Transfer
pub mod Protocol
mod Tests
use httpdirfs.Prelude.{
  ℕ, zero, suc, ◌+◌, List, [], ◌∷◌, Bool, true, false, ◌&&◌, Option, none, some, ◌==◌,
  if◌then◌else◌,
}
use httpdirfs.Prelude.Int.{ℤ, pos, negsuc, eqb_ℤ, ◌+ℤ◌, ◌-ℤ◌}
use httpdirfs.Prelude.Run.{Run, ok, fault, ◌>>=◌}

-- `ts` is the address of the transfer
pub record ActiveDownload : Type 0 where
  pub offset : ℤ
  pub ts : Option ℕ
  pub refcount : ℤ
  pub unlinked : Bool

-- pthread_cond_broadcast on the `cond` of a node, or on `shutdown_cond`
pub data Broadcast : Type 0 where
  cond_of : ℕ → Broadcast
  shutdown_cond : Broadcast

pub record Downloads : Type 0 where
  pub node_at : ℕ → Option ActiveDownload
  pub fresh : ℕ
  pub active_dls : List ℕ
  pub waiters : ℤ
  pub shutting_down : Bool
  pub broadcasts : List Broadcast

abbrev pub put : (ℕ → Option ActiveDownload) → ℕ → Option ActiveDownload → ℕ → Option ActiveDownload
put heap a node b = if b == a then node else heap b

unfoldable pub find_loop : (ℕ → Option ActiveDownload) → List ℕ → ℤ → Run (Option ℕ)
find_loop heap [] offset = ok none
find_loop heap (ad ∷ next) offset =
    let rest = find_loop heap next offset in
    elim (heap ad) [
      | none ↦ fault
      | some node ↦ if eqb_ℤ node.offset offset then ok (some ad) else rest
    ]

unfoldable pub active_download_find : Downloads → ℤ → Run (Option ℕ)
active_download_find cf offset = find_loop cf.node_at cf.active_dls offset

unfoldable pub active_download_add : Downloads → ℤ → Downloads
active_download_add cf offset = record cf {
  node_at =
      put cf.node_at cf.fresh
        (some (record { offset = offset; ts = none; refcount = pos 1; unlinked = false }));
  fresh = suc cf.fresh;
  active_dls = cf.fresh ∷ cf.active_dls;
}

-- `ad->refcount++`, of a thread that joins the download and of a transfer that serves it
unfoldable pub active_download_ref : Downloads → ℕ → Run Downloads
active_download_ref cf ad = elim (cf.node_at ad) [
  | none ↦ fault
  | some node ↦ ok (record cf {
    node_at = put cf.node_at ad (some (record node { refcount = node.refcount +ℤ pos 1 }));
  })
]

unfoldable pub active_download_unref : Downloads → ℕ → Run Downloads
active_download_unref cf ad = elim (cf.node_at ad) [
  | none ↦ fault
  | some node ↦
      if eqb_ℤ (node.refcount -ℤ pos 1) (pos 0)
      then ok (record cf { node_at = put cf.node_at ad none })
      else ok (record cf {
        node_at = put cf.node_at ad (some (record node { refcount = node.refcount -ℤ pos 1 }));
      })
]

-- the walk of `ActiveDownload_remove`: the node it finds, and the chain without it
unfoldable pub unlink_loop : (ℕ → Option ActiveDownload) → List ℕ → ℤ → Run (Option ℕ × List ℕ)
unlink_loop heap [] offset = ok (none, [])
unlink_loop heap (ad ∷ next) offset =
    let rest = unlink_loop heap next offset in
    elim (heap ad) [
      | none ↦ fault
      | some node ↦
          if eqb_ℤ node.offset offset
          then ok (some ad, next)
          else (rest >>= (λ r. ok (r.0, ad ∷ r.1)))
    ]

-- `unlinked = 1`, the broadcast, and the reference of the list
unfoldable pub unlink : Downloads → List ℕ → ℕ → Run Downloads
unlink cf chain ad = elim (cf.node_at ad) [
  | none ↦ fault
  | some node ↦
      active_download_unref
        (record cf {
          node_at = put cf.node_at ad (some (record node { unlinked = true }));
          active_dls = chain;
          broadcasts = cond_of ad ∷ cf.broadcasts;
        })
        ad
]

unfoldable pub active_download_remove : Downloads → ℤ → Run Downloads
active_download_remove cf offset =
    unlink_loop cf.node_at cf.active_dls offset
    >>= (λ r. elim r.0 [ none ↦ ok cf | some ad ↦ unlink cf r.1 ad ])

unfoldable pub cache_waiter_decrement : Downloads → Downloads
cache_waiter_decrement cf =
    if cf.shutting_down && eqb_ℤ (cf.waiters -ℤ pos 1) (pos 0)
    then record cf { waiters = cf.waiters -ℤ pos 1; broadcasts = shutdown_cond ∷ cf.broadcasts }
    else record cf { waiters = cf.waiters -ℤ pos 1 }

-- a thread that enters a wait or a download
unfoldable pub cache_waiter_increment : Downloads → Downloads
cache_waiter_increment cf = record cf { waiters = cf.waiters +ℤ pos 1 }
