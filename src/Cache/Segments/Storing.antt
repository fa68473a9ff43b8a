-- ===== src/Cache/Segments/Storing.antt =====
-- The sections that store a block, end a download, and look at the next block.
use native.Mathlib.Nat.{div-add-mod'}
use mathlib.Core.Path.{subst}
use httpdirfs.Prelude.{
  ℕ, ◌+◌, ◌-◌, ◌*◌, ◌/◌, ◌<◌, ◌≡◌, refl, sym, ap, ◌∙◌, List, true, false, Option, none, some, ltb,
  leb, length, min, arith, Bool-cases, inl, inr, ◌⊎◌,
}
use httpdirfs.Prelude.Int.{ℤ, pos, negsuc, pos_part, ltb_ℤ}
use httpdirfs.Prelude.Run.{ok, ok-injective, ◌>>=◌}
use httpdirfs.Cache.State.{Cache, Link}
use httpdirfs.Cache.Data.{minus_eio}
use httpdirfs.Cache.Reading.Whole.{IsSlice}
use httpdirfs.Cache.Downloads.{Downloads, active_download_remove, cache_waiter_decrement}
use httpdirfs.Cache.Downloads.Identity.{bind-ok, Evolves-refl, Evolves-trans}
use httpdirfs.Cache.Downloads.Identity.Operations.{remove-Evolves, decrement-Evolves}
use httpdirfs.Cache.Segments.{
  World, Position, clean_up, block_start, is_whole, store_block, keep_block, after_download,
  end_download,
}
use httpdirfs.Cache.Segments.Threads.{Answer, failed, complete, short, IsRequest}
use httpdirfs.Cache.Segments.Blocks.{
  IsIntact, positive, of_block, negative, cut-Outcome, store_block-IsIntact,
}
use httpdirfs.Cache.Segments.Positions.{own, Good, Sound, Next}
use httpdirfs.Cache.Segments.Sections.{ended, start, some_block, unchanged, moved}

module _ (content : ℕ → ℕ) (Received : ℕ → List ℕ → Type 0) (link : Link) (b : ℕ) where
  -- a block that is not the last one is not taken for whole with less than all its bytes
  is_whole-short :
      (cf : Cache) (m st : ℕ)
      → IsIntact content link b cf
      → m < b
      → ¬ (st ≡ link.content_length / b * b)
      → is_whole cf (pos m) st ≡ false
  unfolding is_whole
  is_whole-short cf m st k less other =
      let sized : cf.blksz ≡ pos b = k.laid_out.block ∙ ap pos k.sized in
      rw (is_whole, k.linked, sized) (ground (arith, less, other))

  -- a block that was downloaded is stored as it is on the server
  pub store_block-Answer :
      (cf cf' : Cache) (q : ℕ) (recv : ℤ) (buf : List ℕ)
      → IsIntact content link b cf
      → q * b < link.content_length
      → Answer content link.content_length b (q * b) recv buf
      → ltb_ℤ recv (pos 0) ≡ false
      → is_whole cf recv (q * b) ≡ true
      → store_block cf recv buf (q * b) ≡ ok cf'
      → IsIntact content link b cf'
  store_block-Answer cf cf' q recv buf k inside (failed e neg) sign all run =
      let bad : ltb_ℤ recv (pos 0) ≡ true = ap (λ z. ltb_ℤ z (pos 0)) neg ∙ ground arith in
      absurd (cc (bad, sign))
  store_block-Answer cf cf' q recv buf k inside (complete some_of size slice) sign accepted run =
      let n : ℕ = min b (link.content_length - q * b) in
      let h = positive content link b cf k in
      let all : (n ≡ b) ⊎ (q * b + n ≡ link.content_length) =
        elim (Bool-cases (leb b (link.content_length - q * b))) [
          | inl e ↦ inl (ground (arith, e))
          | inr e ↦ inr (ground (arith, e, inside))
        ] in
      let (cf2, stores, intact) =
        store_block-IsIntact content link b cf k q n buf (omega (arith, h, inside))
          (omega (arith, inside)) (omega (arith, size)) (omega arith) all slice in
      let same : ok cf2 ≡ ok cf' =
        sym stores ∙ ap (λ z. store_block cf z buf (q * b)) (sym some_of) ∙ run in
      subst (IsIntact content link b) (ok-injective cf2 cf' same) intact
  store_block-Answer cf cf' q recv buf k inside (short m less few inner) sign accepted run =
      let bad : is_whole cf recv (q * b) ≡ false =
        ap (λ z. is_whole cf z (q * b)) less ∙ is_whole-short cf m (q * b) k few inner in
      absurd (cc (bad, accepted))

  Answer-negative :
      (st : ℕ) (recv : ℤ) (buf : List ℕ)
      → Answer content link.content_length b st recv buf
      → ltb_ℤ recv (pos 0) ≡ true
      → (k : ℕ) × (recv ≡ negsuc k)
  Answer-negative st recv buf (failed e neg) sign = (e, neg)
  Answer-negative st recv buf (complete some_of size slice) sign =
      let bad : ltb_ℤ recv (pos 0) ≡ false = ap (λ z. ltb_ℤ z (pos 0)) some_of ∙ ground arith in
      absurd (cc (bad, sign))
  Answer-negative st recv buf (short m less few inner) sign =
      let bad : ltb_ℤ recv (pos 0) ≡ false = ap (λ z. ltb_ℤ z (pos 0)) less ∙ ground arith in
      absurd (cc (bad, sign))

  Answer-buffer :
      (cf : Cache) (k : IsIntact content link b cf) (st : ℕ) (recv : ℤ) (buf : List ℕ)
      → Answer content link.content_length b st recv buf
      → ltb_ℤ recv (pos 0) ≡ false
      → is_whole cf recv st ≡ true
      → (length buf ≡ b) × IsSlice content st (min b (link.content_length - st)) buf
  Answer-buffer cf k st recv buf (failed e neg) sign accepted =
      let bad : ltb_ℤ recv (pos 0) ≡ true = ap (λ z. ltb_ℤ z (pos 0)) neg ∙ ground arith in
      absurd (cc (bad, sign))
  Answer-buffer cf k st recv buf (complete some_of size slice) sign accepted = (size, slice)
  Answer-buffer cf k st recv buf (short m less few inner) sign accepted =
      let bad : is_whole cf recv st ≡ false =
        ap (λ z. is_whole cf z st) less ∙ is_whole-short cf m st k few inner in
      absurd (cc (bad, accepted))

  module _ (w : World) (s : Sound content Received link b w) (len o : ℕ)
      (q : IsRequest link.content_length b len o) where
    abbrev To : Position × World → Type 0
    To x = Next content Received link b w len o x

    -- the file does not end before the block of the request
    pub in_file : o / b * b < link.content_length
    in_file =
        let low = of_block b o (some_block content Received link b w s len o q) in
        omega (arith, low, q.some_bytes, q.inside)

    refused :
        (e : ℤ) (buf : List ℕ) (x : Position × World)
        → ((k : ℕ) × (e ≡ negsuc k))
        → ok (clean_up (some e) buf, record w { w_held = true }) ≡ ok x
        → To x
    refused e buf x neg run =
        ended content Received link b w s len o q
          (clean_up (some e) buf, record w { w_held = true }) x run
          (unchanged content Received link b w s len o q (clean_up (some e) buf) w.bgt_sem true neg)

    pub keep_block-Next :
        (recv : ℤ) (buf : List ℕ) (x : Position × World)
        → Answer content link.content_length b (o / b * b) recv buf
        → keep_block recv buf len o w ≡ ok x
        → To x
    unfolding keep_block
    keep_block-Next recv buf x a e = elim (Bool-cases (ltb_ℤ recv (pos 0))) [
      | inl z ↦
          refused recv buf x (Answer-negative (o / b * b) recv buf a z) (rw (keep_block, z) at e)
      | inr z ↦ elim (Bool-cases (is_whole w.cf recv (block_start w.cf o))) [
        | inr y ↦ refused minus_eio buf x (4, refl) (rw (keep_block, z, y) at e)
        | inl y ↦ elim (Bool-cases (ltb_ℤ recv (pos (o - block_start w.cf o + len)))) [
          | inl v ↦ refused minus_eio buf x (4, refl) (rw (keep_block, z, y, v) at e)
          | inr v ↦
              let stores : (store_block w.cf recv buf (block_start w.cf o)
                    >>= (λ cf. ok (clean_up none buf, record w { cf = cf; w_held = true })))
                  ≡ ok x =
                rw (keep_block, z, y, v) at e in
              let (cf, run, done) =
                bind-ok (store_block w.cf recv buf (block_start w.cf o)) _ x stores in
              let here : block_start w.cf o ≡ o / b * b =
                start content Received link b w s len o q in
              let accepted : is_whole w.cf recv (o / b * b) ≡ true =
                ap (is_whole w.cf recv) (sym here) ∙ y in
              let intact =
                store_block-Answer w.cf cf (o / b) recv buf s.intact in_file a z accepted
                  (ap (store_block w.cf recv buf) (sym here) ∙ run) in
              ended content Received link b w s len o q
                (clean_up none buf, record w { cf = cf; w_held = true }) x done
                (record {
                  sound = record { intact = intact; below = s.below; workers = s.workers };
                  evolves = Evolves-refl w.downloads s.below;
                  good = Answer-buffer w.cf s.intact (o / b * b) recv buf a z accepted;
                })
        ]
      ]
    ]

    after_download-Outcome :
        (e : Option ℤ) (buf : List ℕ) (dl dl' : Downloads)
        → Good content Received link b dl len o (clean_up e buf)
        → Good content Received link b dl' len o (after_download e buf len o w.cf)
    unfolding after_download
    after_download-Outcome (some e) buf dl dl' (k, neg) = own (negative k neg)
    after_download-Outcome none buf dl dl' (size, slice) =
        let here : block_start w.cf o ≡ o / b * b = start content Received link b w s len o q in
        let low = of_block b o (some_block content Received link b w s len o q) in
        let rest = div-add-mod' o b in
        let sized : pos_part w.cf.blksz ≡ b =
          ap pos_part s.intact.laid_out.block ∙ s.intact.sized in
        let fits : ltb (pos_part w.cf.blksz) (o - block_start w.cf o + len) ≡ false =
          ground (arith, here, sized, q.one_block, rest) in
        rw (after_download, fits)
          (own (
            cut-Outcome content (block_start w.cf o) o len (min b (link.content_length - o / b * b))
              buf (omega (arith, here, low)) (omega (arith, here, rest, q.one_block, q.inside))
              (omega (arith, size)) (rw here slice)))

    pub end_download-Next :
        (e : Option ℤ) (buf : List ℕ) (x : Position × World)
        → Good content Received link b w.downloads len o (clean_up e buf)
        → end_download e buf len o w ≡ ok x
        → To x
    unfolding end_download
    end_download-Next e buf x g run =
        let (dl, removed, done) =
          bind-ok (active_download_remove w.downloads (pos (block_start w.cf o))) _ x run in
        let e1 = remove-Evolves w.downloads dl (pos (block_start w.cf o)) s.below removed in
        let e2 = decrement-Evolves dl e1.below in
        let dl2 : Downloads = cache_waiter_decrement dl in
        ended content Received link b w s len o q
          (after_download e buf len o w.cf, record w { downloads = dl2; w_held = false }) x done
          (moved content Received link b w s len o q (after_download e buf len o w.cf) dl2 w.bgt_sem
            false (Evolves-trans w.downloads dl dl2 e1 e2)
            (after_download-Outcome e buf w.downloads dl2 g))
