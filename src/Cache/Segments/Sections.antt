-- ===== src/Cache/Segments/Sections.antt =====
-- The sections of a reader on the segment, its wait and its search.
use mathlib.Core.Path.{subst}
use mathlib.Core.Option.{some-injective}
use httpdirfs.Prelude.{
  List, ℕ, ◌*◌, ◌/◌, ◌≤◌, ◌≡◌, sym, ap, ◌∙◌, Bool, true, false, Option, none, some, ◌==◌, arith,
  Bool-cases, inl, inr,
}
use httpdirfs.Prelude.Int.{pos}
use httpdirfs.Prelude.Run.{ok, ok-injective, ◌>>=◌}
use httpdirfs.Cache.State.{Link}
use httpdirfs.Cache.Seg.{seg_exist}
use httpdirfs.Cache.Seg.Marks.{mark_of}
use httpdirfs.Cache.Data.{DataRead, data_read}
use httpdirfs.Cache.Downloads.{
  ActiveDownload, Downloads, active_download_find, active_download_ref, cache_waiter_increment,
}
use httpdirfs.Cache.Downloads.Identity.{bind-ok, Evolves, Evolves-refl}
use httpdirfs.Cache.Downloads.Identity.Operations.{ref-Evolves, active_download_find-offset}
use httpdirfs.Cache.Segments.{
  World, Position, launch, waiting, prefetch, block_start, read_stored, join, find_download,
}
use httpdirfs.Cache.Segments.Threads.{IsRequest}
use httpdirfs.Cache.Segments.Blocks.{
  block_start-intact, seg_exist-intact, positive, in_block, data_read-IsIntact,
}
use httpdirfs.Cache.Segments.Positions.{own, HasOffset, Good, Good-Evolves, Sound, Next}

module _ (content : ℕ → ℕ) (Received : ℕ → List ℕ → Type 0) (link : Link) (b : ℕ) (w : World)
    (s : Sound content Received link b w) (len o : ℕ)
    (q : IsRequest link.content_length b len o) where
  abbrev pub ToNext : Position × World → Type 0
  ToNext x = Next content Received link b w len o x

  -- a section that has come to its end
  pub ended : (y x : Position × World) → ok y ≡ ok x → ToNext y → ToNext x
  ended y x e n = subst ToNext (ok-injective y x e) n

  pub start : block_start w.cf o ≡ o / b * b
  start = block_start-intact content link b w.cf o s.intact

  pub some_block : 1 ≤ b
  some_block = positive content link b w.cf s.intact

  -- only the lock and the semaphore change
  pub unchanged :
      (p : Position) (sem : ℕ) (held : Bool)
      → Good content Received link b w.downloads len o p
      → ToNext (p, record w { bgt_sem = sem; w_held = held })
  unchanged p sem held g = record {
    sound = record { intact = s.intact; below = s.below; workers = s.workers };
    evolves = Evolves-refl w.downloads s.below;
    good = g;
  }

  -- the list of downloads changes
  pub moved :
      (p : Position) (dl : Downloads) (sem : ℕ) (held : Bool)
      → Evolves w.downloads dl
      → Good content Received link b dl len o p
      → ToNext (p, record w { downloads = dl; bgt_sem = sem; w_held = held })
  moved p dl sem held e g = record {
    sound = record { intact = s.intact; below = e.below; workers = s.workers };
    evolves = e;
    good = g;
  }

  start_block : block_start w.cf o / b ≡ o / b
  start_block =
      ap (λ z. z / b) start
      ∙ in_block (o / b) b (o / b * b) some_block (omega arith) (omega (arith, some_block))

  pub read_stored-Next :
      (missing : Position) (x : Position × World)
      → Good content Received link b w.downloads len o missing
      → read_stored missing len o w ≡ ok x
      → ToNext x
  unfolding read_stored
  read_stored-Next missing x g e =
      let (m, looked, run) = bind-ok (seg_exist w.cf (pos (block_start w.cf o))) _ x e in
      let mark : mark_of w.cf (o / b) ≡ m =
        ap (mark_of w.cf) (sym start_block)
        ∙ ok-injective (mark_of w.cf (block_start w.cf o / b)) m
            (sym (seg_exist-intact content link b w.cf (block_start w.cf o) s.intact) ∙ looked) in
      elim (Bool-cases (m == 0)) [
        | inl z ↦
            let done : ok (missing, record w { w_held = true }) ≡ ok x = rw (z) at run in
            ended (missing, record w { w_held = true }) x done (unchanged missing w.bgt_sem true g)
        | inr z ↦
            let reads : (data_read w.cf (pos len) (pos o)
                  >>= (λ r. ok (prefetch r.count r.buf, record w { cf = r.after; w_held = false })))
                ≡ ok x =
              rw (z) at run in
            let (r, answer, done) = bind-ok (data_read w.cf (pos len) (pos o)) _ x reads in
            let (r', answer', (out, intact)) =
              data_read-IsIntact content link b w.cf s.intact len o q (ground (arith, z, mark)) in
            let same : r' ≡ r = ok-injective r' r (sym answer' ∙ answer) in
            ended (prefetch r.count r.buf, record w { cf = r.after; w_held = false }) x done
              (subst
                (λ (r : DataRead).
                  ToNext (prefetch r.count r.buf, record w { cf = r.after; w_held = false }))
                same
                (record {
                  sound = record { intact = intact; below = s.below; workers = s.workers };
                  evolves = Evolves-refl w.downloads s.below;
                  good = own out;
                }))
      ]

  pub find_download-Next : (x : Position × World) → find_download o w ≡ ok x → ToNext x
  unfolding find_download join cache_waiter_increment
  find_download-Next x e =
      let (r, found, run) =
        bind-ok (active_download_find w.downloads (pos (block_start w.cf o))) (join w) x e in
      joined r found run
    where
      joined :
          (r : Option ℕ)
          → active_download_find w.downloads (pos (block_start w.cf o)) ≡ ok r
          → join w r ≡ ok x
          → ToNext x
      joined none found run = ended (launch, w) x run (unchanged launch w.bgt_sem w.w_held tt)
      joined (some ad) found run =
          let (dl, counted, done) = bind-ok (active_download_ref w.downloads ad) _ x run in
          let ev = ref-Evolves w.downloads dl ad s.below counted in
          let (node, there, offset) =
            active_download_find-offset w.downloads (pos (block_start w.cf o)) ad found in
          let has : HasOffset w.downloads ad (pos (o / b * b)) = record {
            allocated = s.below ad node there;
            offset = λ node' there'.
                ap (λ (n : ActiveDownload). n.offset)
                  (some-injective node' node (sym there' ∙ there))
                ∙ offset
                ∙ ap pos start;
          } in
          let ev' : Evolves w.downloads (cache_waiter_increment dl) = record {
            grows = ev.grows;
            below = ev.below;
            kept = ev.kept;
          } in
          ended (waiting ad, record w { downloads = cache_waiter_increment dl; w_held = false }) x
            done
            (moved (waiting ad) (cache_waiter_increment dl) w.bgt_sem false ev' (
              Good-Evolves content Received link b w.downloads (cache_waiter_increment dl) len o
                (waiting ad) ev' has))
