-- ===== src/Cache/Downloads/Transfer.antt =====
-- How a transfer joins and leaves the download of its offset (`Link_download` and
-- `Link_download_finish_transfer` of src/link.c), and the loop of `Cache_free` in src/cache.c.
pub mod Joining
pub mod Closing
use httpdirfs.Prelude.{ℕ, List, [], ◌∷◌, Bool, true, false, Option, none, some, ◌==◌, if◌then◌else◌}
use httpdirfs.Prelude.Int.{ℤ}
use httpdirfs.Prelude.Run.{Run, ok, fault, ◌>>=◌}
use httpdirfs.Cache.Downloads.{
  ActiveDownload, Downloads, cond_of, put, active_download_find, active_download_ref,
  active_download_unref, unlink,
}

-- `ad->ts = ts`
unfoldable pub set_ts : Downloads → ℕ → Option ℕ → Run Downloads
set_ts cf ad ts = elim (cf.node_at ad) [
  | none ↦ fault
  | some node ↦ ok (record cf { node_at = put cf.node_at ad (some (record node { ts = ts })) })
]

-- the transfer at the address `ts` joins the download of its offset, if there is one
unfoldable pub attach_found : Downloads → ℕ → Option ℕ → Run (Option ℕ × Downloads)
unfolding set_ts
attach_found cf ts none = ok (none, cf)
attach_found cf ts (some ad) = set_ts cf ad (some ts) >>= (λ cf1.
    active_download_ref cf1 ad
    >>= (λ cf2. ok (some ad, record cf2 { broadcasts = cond_of ad ∷ cf2.broadcasts })))

unfoldable pub attach : Downloads → ℤ → ℕ → Run (Option ℕ × Downloads)
unfolding attach_found
attach cf offset ts = active_download_find cf offset >>= attach_found cf ts

unfoldable pub is_ts : ActiveDownload → ℕ → Bool
is_ts node ts = elim node.ts [ none ↦ false | some t ↦ t == ts ]

-- `if (ad && ad->ts == ts) ad->ts = NULL`
unfoldable pub clear_ts : Downloads → ℕ → Option ℕ → Run Downloads
unfolding is_ts set_ts
clear_ts cf ts none = ok cf
clear_ts cf ts (some ad) = elim (cf.node_at ad) [
  | none ↦ fault
  | some node ↦ if is_ts node ts then set_ts cf ad none else ok cf
]

unfoldable pub leave : Option ℕ → Downloads → Run Downloads
leave none cf = ok cf
leave (some ad_ptr) cf = active_download_unref cf ad_ptr

unfoldable pub finish_transfer : Downloads → ℤ → ℕ → Option ℕ → Run Downloads
unfolding clear_ts leave
finish_transfer cf offset ts ad_ptr =
    active_download_find cf offset >>= clear_ts cf ts >>= leave ad_ptr

-- the loop of `Cache_free`, which has taken the chain off the cache
unfoldable pub close_loop : Downloads → List ℕ → Run Downloads
close_loop cf [] = ok cf
close_loop cf (ad ∷ next) = unlink cf [] ad >>= (λ cf1. close_loop cf1 next)

unfoldable pub close_downloads : Downloads → Run Downloads
unfolding close_loop
close_downloads cf = close_loop (record cf { shutting_down = true; active_dls = [] }) cf.active_dls
