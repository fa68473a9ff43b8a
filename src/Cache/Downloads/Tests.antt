-- ===== src/Cache/Downloads/Tests.antt =====
-- One download that a thread starts, a second one joins, and that ends while it is still held.
use httpdirfs.Prelude.{ℕ, ◌≡◌, refl, List, [], ◌∷◌, Option, none, some, true, false, arith}
use httpdirfs.Prelude.Int.{ℤ, pos}
use httpdirfs.Prelude.Run.{fault, Returns}
use httpdirfs.Cache.Downloads.{
  ActiveDownload, Downloads, put, cond_of, find_loop, active_download_find, active_download_add,
  active_download_ref, active_download_unref, unlink_loop, unlink, active_download_remove,
}
use httpdirfs.Cache.Downloads.Search.{Finding, Without}
use httpdirfs.Cache.Downloads.Update.{IsOwned}
use httpdirfs.Cache.Downloads.Transfer.{close_downloads}
use httpdirfs.Cache.Downloads.Transfer.Closing.{close_downloads-IsOwned}
use httpdirfs.Cache.Downloads.Protocol.{
  started, joined, left, ended, no_downloads, Reached, start, next, Reached-IsOwned, Reached-safe,
}

program : Unit {0}
unfolding active_download_find find_loop active_download_add active_download_ref
    active_download_unref unlink_loop unlink active_download_remove
program = record {}

abbrev node : ℕ → Option ActiveDownload
node a = none

abbrev one : Downloads
one = record no_downloads {
  node_at =
      put node 0 (some (record { offset = pos 8; ts = none; refcount = pos 1; unlinked = false }));
  fresh = 1;
  active_dls = 0 ∷ [];
}

abbrev shared : Downloads
shared = record one {
  node_at =
      put one.node_at 0
        (some (record { offset = pos 8; ts = none; refcount = pos 2; unlinked = false }));
}

abbrev orphan : Downloads
orphan = record shared {
  node_at =
      put
        (put shared.node_at 0
          (some (record { offset = pos 8; ts = none; refcount = pos 2; unlinked = true })))
        0 (some (record { offset = pos 8; ts = none; refcount = pos 1; unlinked = true }));
  active_dls = [];
  broadcasts = cond_of 0 ∷ [];
}

abbrev freed : Downloads
freed = record orphan { node_at = put orphan.node_at 0 none }

unref_twice : active_download_unref freed 0 ≡ fault
unfolding program
unref_twice = refl

one-Reached : Reached one []
unfolding program
one-Reached = next no_downloads one [] [] start (started no_downloads [] (pos 8) refl)

shared-Reached : Reached shared (0 ∷ [])
unfolding program
shared-Reached = next one shared [] (0 ∷ []) one-Reached (joined one shared [] (pos 8) 0 refl refl)

orphan-Reached : Reached orphan (0 ∷ [])
unfolding program
orphan-Reached =
    next shared orphan (0 ∷ []) (0 ∷ []) shared-Reached (ended shared orphan (0 ∷ []) (pos 8) refl)

freed-Reached : Reached freed []
unfolding program
freed-Reached =
    next orphan freed (0 ∷ []) [] orphan-Reached
      (left orphan freed (0 ∷ []) [] 0 (λ b. ground arith) refl)

Reached-IsOwned_example : IsOwned orphan (0 ∷ [])
Reached-IsOwned_example = Reached-IsOwned orphan (0 ∷ []) orphan-Reached

Reached-safe_example :
    ((offset : ℤ)
      → Returns
          (active_download_find shared offset)
          (Finding shared.node_at shared.active_dls offset))
    × ((offset : ℤ) → Returns (active_download_remove shared offset) (λ cf'. IsOwned cf' (0 ∷ [])))
    × ((ad : ℕ) (held' : List ℕ)
        → Without (0 ∷ []) (some ad) held'
        → Returns (active_download_unref shared ad) (λ cf'. IsOwned cf' held'))
Reached-safe_example = Reached-safe shared (0 ∷ []) shared-Reached

close_downloads-IsOwned_example :
    Returns (close_downloads shared) (λ cf'. IsOwned cf' (0 ∷ []) × (cf'.active_dls ≡ []))
close_downloads-IsOwned_example =
    close_downloads-IsOwned shared (0 ∷ []) (Reached-IsOwned shared (0 ∷ []) shared-Reached)
