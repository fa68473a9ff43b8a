-- ===== src/Cache/Segments/Looking.antt =====
-- The sections that look at the next block, and every section of a reader.
use mathlib.Core.Path.{subst}
use httpdirfs.Prelude.{
  ℕ, zero, suc, ◌*◌, ◌/◌, ◌<◌, ◌≡◌, sym, ap, ◌∙◌, List, Bool, true, false, Option, none, some, ltb,
  ◌==◌, if◌then◌else◌, arith, Bool-cases, inl, inr,
}
use httpdirfs.Prelude.Int.{ℤ, pos, pos_part}
use httpdirfs.Prelude.Run.{ok}
use httpdirfs.Cache.State.{Link}
use httpdirfs.Cache.Seg.{seg_exist}
use httpdirfs.Cache.Downloads.{Downloads, active_download_find, active_download_add}
use httpdirfs.Cache.Downloads.Identity.{bind-ok, add-Evolves}
use httpdirfs.Cache.Segments.{
  World, Position, retry, find, launch, check_slot, spawn, recheck, sync, waiting, downloading,
  received, clean_up, prefetch, look_next, take_slot, check_next, spawn_next, returned, Input,
  block_start, cache_bgdl_launcher, next_start, has_next, look_ahead, claim_next, look_again,
  read_step,
}
use httpdirfs.Cache.Segments.Threads.{Answer, Receives, IsRequest}
use httpdirfs.Cache.Segments.Positions.{Reply, Good, Ahead, Sound, Next}
use httpdirfs.Cache.Segments.Sections.{
  ended, start, unchanged, moved, read_stored-Next, find_download-Next,
}
use httpdirfs.Cache.Segments.Waiting.{
  wait_download-Next, try_slot-Next, check_again-Next, sync_download-Next, launcher-Next,
}
use httpdirfs.Cache.Segments.Storing.{in_file, keep_block-Next, end_download-Next}

module _ (content : ℕ → ℕ) (Received : ℕ → List ℕ → Type 0) (link : Link) (b : ℕ) (w : World)
    (s : Sound content Received link b w) (len o : ℕ)
    (q : IsRequest link.content_length b len o) where
  abbrev To : Position × World → Type 0
  To x = Next content Received link b w len o x

  next_is : next_start w.cf o ≡ suc (o / b) * b
  unfolding next_start
  next_is =
      let sized : pos_part w.cf.blksz ≡ b = ap pos_part s.intact.laid_out.block ∙ s.intact.sized in
      omega (arith, start content Received link b w s len o q, sized)

  has_next-Ahead : has_next w.cf o ≡ true → suc (o / b) * b < link.content_length
  unfolding has_next
  has_next-Ahead e =
      let step : has_next w.cf o ≡ ltb (next_start w.cf o) link.content_length =
        simp (has_next, s.intact.linked) in
      let below : ltb (next_start w.cf o) link.content_length ≡ true = sym step ∙ e in
      ground (arith, below, next_is)

  leave_or_look :
      (send : ℤ) (out : List ℕ) (x : Position × World)
      → Reply content Received b o len send out
      → ok ((if has_next w.cf o then look_next send out else returned send out), w) ≡ ok x
      → To x
  leave_or_look send out x g e = elim (Bool-cases (has_next w.cf o)) [
    | inl z ↦
        let run : ok (look_next send out, w) ≡ ok x = rw (z) at e in
        ended content Received link b w s len o q (look_next send out, w) x run
          (unchanged content Received link b w s len o q (look_next send out) w.bgt_sem w.w_held
            (g, has_next-Ahead z))
    | inr z ↦
        let run : ok (returned send out, w) ≡ ok x = rw (z) at e in
        ended content Received link b w s len o q (returned send out, w) x run
          (unchanged content Received link b w s len o q (returned send out) w.bgt_sem w.w_held g)
  ]

  look_ahead-Next :
      (send : ℤ) (out : List ℕ) (x : Position × World)
      → Ahead content Received link b len o send out
      → look_ahead send out o w ≡ ok x
      → To x
  unfolding look_ahead
  look_ahead-Next send out x g e =
      let (m, looked, run) = bind-ok (seg_exist w.cf (pos (next_start w.cf o))) _ x e in
      elim (Bool-cases (m == 0)) [
        | inl z ↦
            let run' : ok (take_slot send out, w) ≡ ok x = rw (z) at run in
            ended content Received link b w s len o q (take_slot send out, w) x run'
              (unchanged content Received link b w s len o q (take_slot send out) w.bgt_sem w.w_held
                g)
        | inr z ↦
            let run' : ok (returned send out, w) ≡ ok x = rw (z) at run in
            ended content Received link b w s len o q (returned send out, w) x run'
              (unchanged content Received link b w s len o q (returned send out) w.bgt_sem w.w_held
                g.0)
      ]

  look_again-Next :
      (send : ℤ) (out : List ℕ) (x : Position × World)
      → Ahead content Received link b len o send out
      → look_again send out o w ≡ ok x
      → To x
  unfolding look_again claim_next
  look_again-Next send out x g e =
      let (m, looked, run) = bind-ok (seg_exist w.cf (pos (next_start w.cf o))) _ x e in
      let (r, found, run') =
        bind-ok (active_download_find w.downloads (pos (next_start w.cf o))) _ x run in
      claimed m r run'
    where
      gives_back : (sem : ℕ) → To (returned send out, record w { bgt_sem = sem })
      gives_back sem =
          unchanged content Received link b w s len o q (returned send out) sem w.w_held g.0

      claimed :
          (m : ℕ) (r : Option ℕ) → ok (claim_next send out (next_start w.cf o) w m r) ≡ ok x → To x
      claimed zero none run =
          let dl : Downloads = active_download_add w.downloads (pos (next_start w.cf o)) in
          ended content Received link b w s len o q
            (spawn_next send out, record w { downloads = dl }) x run
            (moved content Received link b w s len o q (spawn_next send out) dl w.bgt_sem w.w_held
              (add-Evolves w.downloads (pos (next_start w.cf o)) s.below) g)
      claimed (suc m) none run =
          ended content Received link b w s len o q
            (returned send out, record w { bgt_sem = suc w.bgt_sem }) x run
            (gives_back (suc w.bgt_sem))
      claimed zero (some ad) run =
          ended content Received link b w s len o q
            (returned send out, record w { bgt_sem = suc w.bgt_sem }) x run
            (gives_back (suc w.bgt_sem))
      claimed (suc m) (some ad) run =
          ended content Received link b w s len o q
            (returned send out, record w { bgt_sem = suc w.bgt_sem }) x run
            (gives_back (suc w.bgt_sem))

  launched :
      (n st : ℕ) (p : Position) (held : Bool) (x : Position × World)
      → n * b < link.content_length
      → st ≡ n * b
      → ((dl : Downloads) → Good content Received link b dl len o p)
      → ok (p, record (cache_bgdl_launcher st w) { w_held = held }) ≡ ok x
      → To x
  launched n st p held x inside e g run =
      let run' : ok (p, record (cache_bgdl_launcher (n * b) w) { w_held = held }) ≡ ok x =
        ap (λ z. ok (p, record (cache_bgdl_launcher z w) { w_held = held })) (sym e) ∙ run in
      ended content Received link b w s len o q
        (p, record (cache_bgdl_launcher (n * b) w) { w_held = held }) x run'
        (launcher-Next content Received link b w s len o q n p held inside g)

  -- Each section of a reader keeps the invariant, and leaves its thread at a good position.
  pub read_step-Next :
      (i : Input) (p : Position) (x : Position × World)
      → Good content Received link b w.downloads len o p
      → Answer content link.content_length b (block_start w.cf o) i.recv i.recv_buf
      → Receives Received w.downloads i.data'
      → read_step i p len o w ≡ ok x
      → To x
  unfolding read_step cache_bgdl_launcher
  read_step-Next i retry x g a r e =
      read_stored-Next content Received link b w s len o q find x tt e
  read_step-Next i find x g a r e = find_download-Next content Received link b w s len o q x e
  read_step-Next i launch x g a r e =
      try_slot-Next content Received link b w s len o q check_slot sync x tt tt e
  read_step-Next i check_slot x g a r e = check_again-Next content Received link b w s len o q x e
  read_step-Next i spawn x g a r e =
      launched (o / b) (block_start w.cf o) retry false x
        (in_file content Received link b w s len o q) (start content Received link b w s len o q)
        (λ dl. tt) e
  read_step-Next i recheck x g a r e =
      read_stored-Next content Received link b w s len o q sync x tt e
  read_step-Next i sync x g a r e = sync_download-Next content Received link b w s len o q x e
  read_step-Next i (waiting ad) x g a r e =
      wait_download-Next content Received link b w s len o q i.data' ad x g r e
  read_step-Next i downloading x g a r e =
      ended content Received link b w s len o q (received i.recv i.recv_buf, w) x e
        (unchanged content Received link b w s len o q (received i.recv i.recv_buf) w.bgt_sem
          w.w_held
          (subst (λ z. Answer content link.content_length b z i.recv i.recv_buf)
            (start content Received link b w s len o q) a))
  read_step-Next i (received recv buf) x g a r e =
      keep_block-Next content Received link b w s len o q recv buf x g e
  read_step-Next i (clean_up z buf) x g a r e =
      end_download-Next content Received link b w s len o q z buf x g e
  read_step-Next i (prefetch send out) x g a r e = leave_or_look send out x g e
  read_step-Next i (look_next send out) x g a r e = look_ahead-Next send out x g e
  read_step-Next i (take_slot send out) x g a r e =
      try_slot-Next content Received link b w s len o q (check_next send out) (returned send out) x
        g g.0 e
  read_step-Next i (check_next send out) x g a r e = look_again-Next send out x g e
  read_step-Next i (spawn_next send out) x g a r e =
      launched (suc (o / b)) (next_start w.cf o) (returned send out) w.w_held x g.1 next_is
        (λ dl. g.0) e
  read_step-Next i (returned send out) x g a r e =
      ended content Received link b w s len o q (returned send out, w) x e
        (unchanged content Received link b w s len o q (returned send out) w.bgt_sem w.w_held g)
