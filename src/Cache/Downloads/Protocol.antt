-- ===== src/Cache/Downloads/Protocol.antt =====
-- The critical sections under `dl_lock` as steps: each thread that uses the list of downloads takes
-- one at a time, in any order. `held` are the references that threads and transfers hold.
use httpdirfs.Prelude.{
  ℕ, ◌≡◌, refl, sym, ◌∙◌, List, [], ◌∷◌, false, ◌&&◌, Bool-cases, inl, inr, Option, none, some,
  arith,
}
use httpdirfs.Prelude.Int.{ℤ, pos, eqb_ℤ, ◌-ℤ◌}
use httpdirfs.Prelude.Run.{Run, ok, Returns, ok-injective}
use httpdirfs.Cache.Downloads.{
  Downloads, active_download_find, active_download_add, active_download_ref, active_download_unref,
  active_download_remove, cache_waiter_increment, cache_waiter_decrement,
}
use httpdirfs.Cache.Downloads.Search.{Finding, Without, find_loop-Finding}
use httpdirfs.Cache.Downloads.Update.{IsOwned}
use httpdirfs.Cache.Downloads.Ownership.{
  owned-AllLive, add-IsOwned, ref-IsOwned, unref-IsOwned, remove-IsOwned,
}
use mathlib.Core.Path.{subst}
use httpdirfs.Cache.Downloads.Transfer.{attach, finish_transfer, close_downloads}
use httpdirfs.Cache.Downloads.Transfer.Joining.{joined_by, attach-IsOwned, finish_transfer-IsOwned}
use httpdirfs.Cache.Downloads.Transfer.Closing.{close_downloads-IsOwned}

-- `started` is the double-checked add of `Cache_read_segment`. `joined` is the wait for a download
-- that runs, which gives its reference back by `left`. `attached` and `detached` are those of a
-- transfer in `Link_download`, and `closed` is the loop of `Cache_free`. `ended`
-- is the end of a download, and `entered` and `exited` are those of a thread.
pub data Step : Downloads → List ℕ → Downloads → List ℕ → Type 0 where
  started :
      (cf : Downloads) (held : List ℕ) (offset : ℤ)
      → active_download_find cf offset ≡ ok none
      → Step cf held (active_download_add cf offset) held
  joined :
      (cf cf' : Downloads) (held : List ℕ) (offset : ℤ) (ad : ℕ)
      → active_download_find cf offset ≡ ok (some ad)
      → active_download_ref cf ad ≡ ok cf'
      → Step cf held cf' (ad ∷ held)
  left :
      (cf cf' : Downloads) (held held' : List ℕ) (ad : ℕ)
      → Without held (some ad) held'
      → active_download_unref cf ad ≡ ok cf'
      → Step cf held cf' held'
  attached :
      (cf cf' : Downloads) (held : List ℕ) (offset : ℤ) (ts : ℕ) (ad_ptr : Option ℕ)
      → attach cf offset ts ≡ ok (ad_ptr, cf')
      → Step cf held cf' (joined_by ad_ptr held)
  detached :
      (cf cf' : Downloads) (held : List ℕ) (offset : ℤ) (ts : ℕ) (ad_ptr : Option ℕ)
      → finish_transfer cf offset ts ad_ptr ≡ ok cf'
      → Step cf (joined_by ad_ptr held) cf' held
  closed :
      (cf cf' : Downloads) (held : List ℕ) → close_downloads cf ≡ ok cf' → Step cf held cf' held
  ended :
      (cf cf' : Downloads) (held : List ℕ) (offset : ℤ)
      → active_download_remove cf offset ≡ ok cf'
      → Step cf held cf' held
  entered : (cf : Downloads) (held : List ℕ) → Step cf held (cache_waiter_increment cf) held
  exited : (cf : Downloads) (held : List ℕ) → Step cf held (cache_waiter_decrement cf) held

-- the list of `Cache_alloc`
abbrev pub no_downloads : Downloads
no_downloads = record {
  node_at = λ a. none;
  fresh = 0;
  active_dls = [];
  waiters = pos 0;
  shutting_down = false;
  broadcasts = [];
}

pub data Reached : Downloads → List ℕ → Type 0 where
  start : Reached no_downloads []
  next :
      (cf cf' : Downloads) (held held' : List ℕ)
      → Reached cf held
      → Step cf held cf' held'
      → Reached cf' held'

found :
    (cf : Downloads) (held : List ℕ) (offset : ℤ) (r : Option ℕ)
    → IsOwned cf held
    → active_download_find cf offset ≡ ok r
    → Finding cf.node_at cf.active_dls offset r
unfolding active_download_find
found cf held offset r w run =
    let (r', run', finding) =
      find_loop-Finding cf.node_at cf.active_dls offset (owned-AllLive cf held w) in
    let same : r' ≡ r = ok-injective r' r (sym run' ∙ run) in (rw same at finding)

returned :
    (m : Run Downloads) (cf' : Downloads) (held : List ℕ)
    → Returns m (λ cf'. IsOwned cf' held)
    → m ≡ ok cf'
    → IsOwned cf' held
returned m cf' held (d, run, w) e =
    let same : d ≡ cf' = ok-injective d cf' (sym run ∙ e) in (rw same at w)

Step-IsOwned :
    (cf cf' : Downloads) (held held' : List ℕ)
    → Step cf held cf' held'
    → IsOwned cf held
    → IsOwned cf' held'
unfolding cache_waiter_increment cache_waiter_decrement
Step-IsOwned _ _ _ _ (started cf held offset run) w =
    add-IsOwned cf held offset w (found cf held offset none w run)
Step-IsOwned _ _ _ _ (joined cf cf' held offset ad run e) w =
    let (node, (at, o, mem)) = found cf held offset (some ad) w run in
    returned (active_download_ref cf ad) cf' (ad ∷ held)
      (ref-IsOwned cf held ad w (omega (arith, mem))) e
Step-IsOwned _ _ _ _ (left cf cf' held held' ad without e) w =
    returned (active_download_unref cf ad) cf' held' (unref-IsOwned cf held held' ad w without) e
Step-IsOwned _ _ _ _ (attached cf cf' held offset ts ad_ptr e) w =
    let ((r, d), run, w') = attach-IsOwned cf held offset ts w in
    let same = ok-injective (r, d) (ad_ptr, cf') (sym run ∙ e) in
    subst (λ p. IsOwned p.1 (joined_by p.0 held)) same w'
Step-IsOwned _ _ _ _ (detached cf cf' held offset ts ad_ptr e) w =
    returned (finish_transfer cf offset ts ad_ptr) cf' held
      (finish_transfer-IsOwned cf held offset ts ad_ptr w) e
Step-IsOwned _ _ _ _ (closed cf cf' held e) w =
    let (d, run, (w', empty)) = close_downloads-IsOwned cf held w in
    returned (close_downloads cf) cf' held (d, run, w') e
Step-IsOwned _ _ _ _ (ended cf cf' held offset e) w =
    returned (active_download_remove cf offset) cf' held (remove-IsOwned cf held offset w) e
Step-IsOwned _ _ _ _ (entered cf held) w = record {
  cell = w.cell;
  unused = w.unused;
  distinct = w.distinct;
}
Step-IsOwned _ _ _ _ (exited cf held) w =
    elim (Bool-cases (cf.shutting_down && eqb_ℤ (cf.waiters -ℤ pos 1) (pos 0))) [
      | inl e ↦ rw e record { cell = w.cell; unused = w.unused; distinct = w.distinct }
      | inr e ↦ rw e record { cell = w.cell; unused = w.unused; distinct = w.distinct }
    ]

-- In every state that the steps lead to, in whatever order the threads take them, each address has
-- as many references as its node counts, one of them from the list unless the node is unlinked;
-- an address without a reference has no node; and the list has at most one node for an offset.
pub Reached-IsOwned : (cf : Downloads) (held : List ℕ) → Reached cf held → IsOwned cf held
Reached-IsOwned _ _ start = record {
  cell = λ a. refl;
  unused = λ a h. refl;
  distinct = λ a b m n ma mb am bn o. absurd (omega (arith, ma));
}
Reached-IsOwned _ _ (next cf cf' held held' before step) =
    Step-IsOwned cf cf' held held' step (Reached-IsOwned cf held before)

-- In every state that the steps lead to, no operation touches a node that was freed:
-- `ActiveDownload_find` and `ActiveDownload_remove` return for every offset,
-- `ActiveDownload_unref` of a reference that is held returns, and `ActiveDownload_find` misses an
-- offset only if no node of the list is for it.
pub Reached-safe :
    (cf : Downloads) (held : List ℕ)
    → Reached cf held
    → ((offset : ℤ)
        → Returns (active_download_find cf offset) (Finding cf.node_at cf.active_dls offset))
      × ((offset : ℤ) → Returns (active_download_remove cf offset) (λ cf'. IsOwned cf' held))
      × ((ad : ℕ) (held' : List ℕ)
          → Without held (some ad) held'
          → Returns (active_download_unref cf ad) (λ cf'. IsOwned cf' held'))
unfolding active_download_find
Reached-safe cf held reached =
    let w = Reached-IsOwned cf held reached in
    (
      λ offset. find_loop-Finding cf.node_at cf.active_dls offset (owned-AllLive cf held w),
      λ offset. remove-IsOwned cf held offset w,
      λ ad held' without. unref-IsOwned cf held held' ad w without,
    )
