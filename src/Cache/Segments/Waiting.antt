-- ===== src/Cache/Segments/Waiting.antt =====
-- The sections of a reader that waits for a download, and those that start one.
use mathlib.Core.Path.{subst}
use mathlib.Core.Option.{some-injective}
use httpdirfs.Prelude.{
  ap, ℕ, zero, suc, ◌+◌, ◌-◌, ◌*◌, ◌/◌, ◌<◌, ◌≡◌, refl, sym, ◌∙◌, List, [], ◌∷◌, Bool, false,
  Option, none, some, leb, ◌==◌, get_elem?, length, take, drop, arith, Bool-cases, Option-cases,
  inl, inr, ◌⊎◌,
}
use httpdirfs.Prelude.Int.{pos}
use httpdirfs.Prelude.Run.{ok, fault}
use httpdirfs.Cache.State.{Link}
use httpdirfs.Cache.Data.{minus_eio}
use httpdirfs.Cache.Downloads.{
  ActiveDownload, Downloads, active_download_find, active_download_add, active_download_unref,
  cache_waiter_increment, cache_waiter_decrement,
}
use httpdirfs.Cache.Downloads.Identity.{bind-ok, Evolves, Evolves-refl, Evolves-trans, add-Evolves}
use httpdirfs.Cache.Downloads.Identity.Operations.{unref-Evolves, decrement-Evolves}
use httpdirfs.Cache.Segments.{
  fetching, Worker, World, Position, retry, spawn, recheck, sync, waiting, downloading, prefetch,
  returned, block_start, data_of, stop_waiting, copy_early, wait_download, try_slot, claim_slot,
  check_again, cache_bgdl_launcher, start_sync, sync_download,
}
use httpdirfs.Cache.Segments.Threads.{Receives, IsRequest}
use httpdirfs.Cache.Segments.Blocks.{of_block, negative}
use httpdirfs.Cache.Segments.Positions.{own, copied, HasOffset, Good, Works, Sound, Next}
use httpdirfs.Cache.Segments.Sections.{ended, start, some_block, unchanged, moved}

data_of-none :
    (data' : ℕ → Option (List ℕ)) (node : ActiveDownload)
    → node.ts ≡ none
    → data_of data' node ≡ none
unfolding data_of
data_of-none data' node e = rw (data_of, e) refl

data_of-some :
    (data' : ℕ → Option (List ℕ)) (node : ActiveDownload) (ts : ℕ)
    → node.ts ≡ some ts
    → data_of data' node ≡ data' ts
unfolding data_of
data_of-some data' node ts e = rw (data_of, e) refl

module _ (content : ℕ → ℕ) (Received : ℕ → List ℕ → Type 0) (link : Link) (b : ℕ) (w : World)
    (s : Sound content Received link b w) (len o : ℕ)
    (q : IsRequest link.content_length b len o) where
  abbrev To : Position × World → Type 0
  To x = Next content Received link b w len o x

  -- a position that is good whatever the list of downloads
  abbrev Always : Position → Type 0
  Always p = (dl : Downloads) → Good content Received link b dl len o p

  stop_waiting-Next :
      (ad : ℕ) (p : Position) (x : Position × World) → Always p → stop_waiting ad p w ≡ ok x → To x
  unfolding stop_waiting
  stop_waiting-Next ad p x g e =
      let dl1 : Downloads = cache_waiter_decrement w.downloads in
      let (dl, freed, done) = bind-ok (active_download_unref dl1 ad) _ x e in
      let e1 = decrement-Evolves w.downloads s.below in
      let e2 = unref-Evolves dl1 dl ad e1.below freed in
      ended content Received link b w s len o q (p, record w { downloads = dl }) x done
        (moved content Received link b w s len o q p dl w.bgt_sem w.w_held
          (Evolves-trans w.downloads dl1 dl e1 e2) (g dl))

  copy_early-Next :
      (ad : ℕ) (bytes : Option (List ℕ)) (x : Position × World)
      → HasOffset w.downloads ad (pos (o / b * b))
      → ((bs : List ℕ) → bytes ≡ some bs → Received (o / b * b) bs)
      → copy_early ad len o w bytes ≡ ok x
      → To x
  unfolding copy_early
  copy_early-Next ad none x h came e =
      ended content Received link b w s len o q (waiting ad, w) x e
        (unchanged content Received link b w s len o q (waiting ad) w.bgt_sem w.w_held h)
  copy_early-Next ad (some bytes) x h came e =
      let here : block_start w.cf o ≡ o / b * b = start content Received link b w s len o q in
      let low = of_block b o (some_block content Received link b w s len o q) in
      elim (Bool-cases (leb (o - block_start w.cf o + len) (length bytes))) [
        | inl z ↦
            let out : List ℕ = take len (drop (o - block_start w.cf o) bytes) in
            let run : stop_waiting ad (prefetch (pos len) out) w ≡ ok x = rw (copy_early, z) at e in
            stop_waiting-Next ad (prefetch (pos len) out) x
              (λ dl.
                copied bytes (came bytes refl) (ground (arith, z, here)) refl
                  (ap (λ t. take len (drop (o - t) bytes)) here))
              run
        | inr z ↦
            let run : ok (waiting ad, w) ≡ ok x = rw (copy_early, z) at e in
            ended content Received link b w s len o q (waiting ad, w) x run
              (unchanged content Received link b w s len o q (waiting ad) w.bgt_sem w.w_held h)
      ]

  pub wait_download-Next :
      (data' : ℕ → Option (List ℕ)) (ad : ℕ) (x : Position × World)
      → HasOffset w.downloads ad (pos (o / b * b))
      → Receives Received w.downloads data'
      → wait_download data' ad len o w ≡ ok x
      → To x
  unfolding wait_download
  wait_download-Next data' ad x h receives e = elim (Option-cases (w.downloads.node_at ad)) [
    | inl n ↦ absurd (let bad : fault ≡ ok x = rw (wait_download, n) at e in cc bad)
    | inr (node, n) ↦ elim (Bool-cases w.downloads.shutting_down) [
      | inl z ↦
          let step : wait_download data' ad len o w ≡ stop_waiting ad (returned minus_eio []) w =
            simp (wait_download, n, z) in
          stop_waiting-Next ad (returned minus_eio []) x (λ dl. own (negative 4 refl))
            (sym step ∙ e)
      | inr z ↦ elim (Bool-cases node.unlinked) [
        | inl u ↦
            let step : wait_download data' ad len o w ≡ stop_waiting ad recheck w =
              simp (wait_download, n, z, u) in
            stop_waiting-Next ad recheck x (λ dl. tt) (sym step ∙ e)
        | inr u ↦
            let step : wait_download data' ad len o w ≡ copy_early ad len o w (data_of data' node) =
              simp (wait_download, n, z, u) in
            copy_early-Next ad (data_of data' node) x h (came node n (Option-cases node.ts))
              (sym step ∙ e)
      ]
    ]
  ]
    where
      came :
          (node : ActiveDownload)
          → w.downloads.node_at ad ≡ some node
          → (node.ts ≡ none) ⊎ ((ts : ℕ) × (node.ts ≡ some ts))
          → (bs : List ℕ) → data_of data' node ≡ some bs
          → Received (o / b * b) bs
      came node n (inl t) bs e = absurd (cc (e, data_of-none data' node t))
      came node n (inr (ts, t)) bs e =
          receives ad node ts (o / b * b) bs n t (h.offset node n)
            (sym (data_of-some data' node ts t) ∙ e)

  pub try_slot-Next :
      (taken busy : Position) (x : Position × World)
      → Good content Received link b w.downloads len o taken
      → Good content Received link b w.downloads len o busy
      → ok (try_slot taken busy w) ≡ ok x
      → To x
  unfolding try_slot
  try_slot-Next taken busy x g h e = elim (Bool-cases (w.bgt_sem == 0)) [
    | inl z ↦
        let run : ok (busy, w) ≡ ok x = rw (try_slot, z) at e in
        ended content Received link b w s len o q (busy, w) x run
          (unchanged content Received link b w s len o q busy w.bgt_sem w.w_held h)
    | inr z ↦
        let run : ok (taken, record w { bgt_sem = w.bgt_sem - 1 }) ≡ ok x = rw (try_slot, z) at e in
        ended content Received link b w s len o q (taken, record w { bgt_sem = w.bgt_sem - 1 }) x
          run (unchanged content Received link b w s len o q taken (w.bgt_sem - 1) w.w_held g)
  ]

  -- a download of the block is entered in the list
  entered : (start' : ℕ) → Evolves w.downloads (active_download_add w.downloads (pos start'))
  entered start' = add-Evolves w.downloads (pos start') s.below

  pub check_again-Next : (x : Position × World) → check_again o w ≡ ok x → To x
  unfolding check_again claim_slot
  check_again-Next x e =
      let (r, found, run) =
        bind-ok (active_download_find w.downloads (pos (block_start w.cf o))) _ x e in
      claimed r run
    where
      claimed : (r : Option ℕ) → ok (claim_slot (block_start w.cf o) w r) ≡ ok x → To x
      claimed none run =
          ended content Received link b w s len o q (claim_slot (block_start w.cf o) w none) x run (
            moved content Received link b w s len o q spawn
              (active_download_add w.downloads (pos (block_start w.cf o))) w.bgt_sem w.w_held
              (entered (block_start w.cf o)) tt)
      claimed (some ad) run =
          ended content Received link b w s len o q (claim_slot (block_start w.cf o) w (some ad)) x
            run (unchanged content Received link b w s len o q sync (suc w.bgt_sem) w.w_held tt)

  increment-Evolves :
      (dl : Downloads) → Evolves w.downloads dl → Evolves w.downloads (cache_waiter_increment dl)
  unfolding cache_waiter_increment
  increment-Evolves dl e = record { grows = e.grows; below = e.below; kept = e.kept }

  pub sync_download-Next : (x : Position × World) → sync_download o w ≡ ok x → To x
  unfolding sync_download start_sync
  sync_download-Next x e =
      let (r, found, run) =
        bind-ok (active_download_find w.downloads (pos (block_start w.cf o))) _ x e in
      started r run
    where
      started : (r : Option ℕ) → ok (start_sync (block_start w.cf o) w r) ≡ ok x → To x
      started none run =
          let dl : Downloads = active_download_add w.downloads (pos (block_start w.cf o)) in
          ended content Received link b w s len o q (start_sync (block_start w.cf o) w none) x run (
            moved content Received link b w s len o q downloading (cache_waiter_increment dl)
              w.bgt_sem false (increment-Evolves dl (entered (block_start w.cf o))) tt)
      started (some ad) run =
          ended content Received link b w s len o q (start_sync (block_start w.cf o) w (some ad)) x
            run (unchanged content Received link b w s len o q retry w.bgt_sem false tt)

  pub launcher-Next :
      (n : ℕ) (p : Position) (held : Bool)
      → n * b < link.content_length
      → Always p
      → To (p, record (cache_bgdl_launcher (n * b) w) { w_held = held })
  unfolding cache_bgdl_launcher
  launcher-Next n p held inside g =
      let ev = increment-Evolves w.downloads (Evolves-refl w.downloads s.below) in
      record {
        sound = record {
          intact = s.intact;
          below = ev.below;
          workers = λ j k there. spawned j k there;
        };
        evolves = ev;
        good = g (cache_waiter_increment w.downloads);
      }
    where
      spawned :
          (j : ℕ) (k : Worker)
          → get_elem? (record { dl_offset = n * b; stage = fetching } ∷ w.workers) j ≡ some k
          → Works content Received link b k
      spawned zero k there =
          let new : Worker = record { dl_offset = n * b; stage = fetching } in
          subst (Works content Received link b) (some-injective new k there)
            (record { q = n; whole = refl; inside = inside; has = tt })
      spawned (suc j) k there = s.workers j k there
