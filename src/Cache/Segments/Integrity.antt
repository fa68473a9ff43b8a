-- ===== src/Cache/Segments/Integrity.antt =====
-- The invariant of the threads of a cache, in every order of their steps.
use mathlib.Core.Path.{subst}
use mathlib.Core.Option.{some-injective}
use httpdirfs.Prelude.{
  ℕ, zero, suc, ◌*◌, ◌<◌, ◌≡◌, sym, ap, ◌∙◌, List, [], ◌∷◌, false, some, ◌==◌, get_elem?, set,
  arith, Bool-cases, inl, inr,
}
use httpdirfs.Prelude.Int.{ℤ, pos, ltb_ℤ, leb_ℤ}
use httpdirfs.Prelude.Run.{ok, ok-injective, ◌>>=◌}
use httpdirfs.Cache.State.{Cache, Link}
use httpdirfs.Cache.Downloads.{Downloads, active_download_remove, cache_waiter_decrement}
use httpdirfs.Cache.Downloads.Identity.{bind-ok, Below, Evolves, Evolves-refl, Evolves-trans}
use httpdirfs.Cache.Downloads.Identity.Operations.{
  remove-Evolves, decrement-Evolves, attach-Evolves, finish_transfer-Evolves,
  close_downloads-Evolves,
}
use httpdirfs.Cache.Segments.{
  Stage, fetching, fetched, removing, posting, gone, World, Position, retry, returned, Reader,
  Input, is_whole, store_block,
}
use httpdirfs.Cache.Segments.Threads.{
  System, Answer, IsRequest, Step, entered, reader_moved, worker_moved, attached, detached, closed,
  Reached, here, after,
}
use httpdirfs.Cache.Segments.Blocks.{IsIntact}
use httpdirfs.Cache.Segments.{store_fetched, bgdl_step, enter}
use httpdirfs.Cache.Segments.Positions.{Reply, Good, Good-Evolves, Has, Works, Sound}
use httpdirfs.Cache.Segments.Storing.{store_block-Answer}
use httpdirfs.Cache.Segments.Looking.{read_step-Next}

-- An element is replaced by one that has what all of them have.
set-each {ℓ κ} :
    {A : Type ℓ} (P : A → Type κ) (xs : List A) (i : ℕ) (v : A)
    → ((j : ℕ) (x : A) → get_elem? xs j ≡ some x → P x)
    → P v
    → (j : ℕ) (x : A) → get_elem? (set xs i v) j ≡ some x
    → P x
set-each P [] i v all one j x e = all j x e
set-each P (y ∷ ys) zero v all one zero x e = subst P (some-injective v x e) one
set-each P (y ∷ ys) zero v all one (suc j) x e = all (suc j) x e
set-each P (y ∷ ys) (suc i) v all one zero x e = all zero x e
set-each P (y ∷ ys) (suc i) v all one (suc j) x e =
    set-each P ys i v (λ k z h. all (suc k) z h) one j x e

module _ (content : ℕ → ℕ) (Received : ℕ → List ℕ → Type 0) (link : Link) (b : ℕ) where
  -- a section of a background download
  record Onward (w : World) (start : ℕ) (x : Stage × World) : Type 0 where
    sound : Sound content Received link b x.1
    evolves : Evolves w.downloads x.1.downloads
    has : Has content Received link b start x.0

  -- a reader with a request of Cache_read, good at its position
  pub record Serves (dl : Downloads) (r : Reader) : Type 0 where
    pub request : IsRequest link.content_length b r.len r.offset_start
    pub good : Good content Received link b dl r.len r.offset_start r.position

  pub record SoundSystem (s : System) : Type 0 where
    pub sound : Sound content Received link b s.world
    pub readers : (j : ℕ) (r : Reader) → get_elem? s.readers j ≡ some r → Serves s.world.downloads r

  Serves-Evolves : (dl dl' : Downloads) (r : Reader) → Evolves dl dl' → Serves dl r → Serves dl' r
  Serves-Evolves dl dl' r e v = record {
    request = v.request;
    good = Good-Evolves content Received link b dl dl' r.len r.offset_start r.position e v.good;
  }

  -- the list of downloads is changed by a transfer or by the shutdown
  relisted :
      (s : System) (dl : Downloads)
      → SoundSystem s
      → Evolves s.world.downloads dl
      → SoundSystem (record s { world = record s.world { downloads = dl } })
  relisted s dl k e = record {
    sound = record { intact = k.sound.intact; below = e.below; workers = k.sound.workers };
    readers = λ j r there. Serves-Evolves s.world.downloads dl r e (k.readers j r there);
  }

  module _ (w : World) (s : Sound content Received link b w) (q start : ℕ) (whole : start ≡ q * b)
      (inside : start < link.content_length) where
    at_end : (y x : Stage × World) → ok y ≡ ok x → Onward w start y → Onward w start x
    at_end y x e n = subst (Onward w start) (ok-injective y x e) n

    stays :
        (g : Stage) (sem : ℕ)
        → Has content Received link b start g
        → Onward w start (g, record w { bgt_sem = sem })
    stays g sem h = record {
      sound = record { intact = s.intact; below = s.below; workers = s.workers };
      evolves = Evolves-refl w.downloads s.below;
      has = h;
    }

    store_fetched-Onward :
        (recv : ℤ) (buf : List ℕ) (x : Stage × World)
        → Answer content link.content_length b start recv buf
        → store_fetched recv buf start w ≡ ok x
        → Onward w start x
    unfolding store_fetched
    store_fetched-Onward recv buf x a e = elim (Bool-cases (ltb_ℤ recv (pos 0))) [
      | inl z ↦ at_end (removing, w) x (rw (store_fetched, z) at e) (stays removing w.bgt_sem tt)
      | inr z ↦ elim (Bool-cases (is_whole w.cf recv start)) [
        | inr y ↦
            at_end (removing, w) x (rw (store_fetched, z, y) at e) (stays removing w.bgt_sem tt)
        | inl y ↦
            let stores : (store_block w.cf recv buf start
                  >>= (λ cf. ok (removing, record w { cf = cf })))
                ≡ ok x =
              rw (store_fetched, z, y) at e in
            let (cf, run, done) = bind-ok (store_block w.cf recv buf start) _ x stores in
            let intact =
              store_block-Answer content Received link b w.cf cf q recv buf s.intact
                (omega (arith, whole, inside))
                (subst (λ st. Answer content link.content_length b st recv buf) whole a) z
                (ap (is_whole w.cf recv) (sym whole) ∙ y)
                (ap (store_block w.cf recv buf) (sym whole) ∙ run) in
            at_end (removing, record w { cf = cf }) x done
              (record {
                sound = record { intact = intact; below = s.below; workers = s.workers };
                evolves = Evolves-refl w.downloads s.below;
                has = tt;
              })
      ]
    ]

    bgdl_step-Onward :
        (i : Input) (g : Stage) (x : Stage × World)
        → Has content Received link b start g
        → Answer content link.content_length b start i.recv i.recv_buf
        → bgdl_step i g start w ≡ ok x
        → Onward w start x
    unfolding bgdl_step
    bgdl_step-Onward i fetching x h a e =
        at_end (fetched i.recv i.recv_buf, w) x e (stays (fetched i.recv i.recv_buf) w.bgt_sem a)
    bgdl_step-Onward i (fetched recv buf) x h a e = store_fetched-Onward recv buf x h e
    bgdl_step-Onward i removing x h a e =
        let (dl, removed, done) = bind-ok (active_download_remove w.downloads (pos start)) _ x e in
        let e1 = remove-Evolves w.downloads dl (pos start) s.below removed in
        let e2 = decrement-Evolves dl e1.below in
        let dl2 : Downloads = cache_waiter_decrement dl in
        at_end (posting, record w { downloads = dl2 }) x done
          (record {
            sound = record { intact = s.intact; below = e2.below; workers = s.workers };
            evolves = Evolves-trans w.downloads dl dl2 e1 e2;
            has = tt;
          })
    bgdl_step-Onward i posting x h a e =
        at_end (gone, record w { bgt_sem = suc w.bgt_sem }) x e (stays gone (suc w.bgt_sem) tt)
    bgdl_step-Onward i gone x h a e = at_end (gone, w) x e (stays gone w.bgt_sem tt)

  enter-retry :
      (cf : Cache) (len o : ℕ) (p : Position)
      → IsIntact content link b cf
      → IsRequest link.content_length b len o
      → enter cf (pos o) ≡ ok p
      → retry ≡ p
  unfolding enter
  enter-retry cf len o p k q e =
      let some_file : (link.content_length == 0) ≡ false = ground (arith, q.some_bytes, q.inside) in
      let sign : ltb_ℤ (pos o) (pos 0) ≡ false = ground arith in
      let before_end : leb_ℤ (pos link.content_length) (pos o) ≡ false =
        ground (arith, q.some_bytes, q.inside) in
      let h = k.laid_out.positive in
      let block : leb_ℤ cf.blksz (pos 0) ≡ false =
        ap (λ z. leb_ℤ z (pos 0)) k.laid_out.block ∙ ground (arith, h) in
      let step : enter cf (pos o) ≡ ok retry =
        simp (enter, k.linked, some_file, sign, before_end, block) in
      ok-injective retry p (sym step ∙ e)

  Step-SoundSystem :
      (s s' : System)
      → SoundSystem s
      → Step content Received link.content_length b s s'
      → SoundSystem s'
  Step-SoundSystem _ _ k (entered s len o p q e) =
      let new : Reader = record { len = len; offset_start = o; position = p } in
      record { sound = k.sound; readers = λ j r there. with_new j r there }
    where
      with_new :
          (j : ℕ) (r : Reader)
          → get_elem? (record { len = len; offset_start = o; position = p } ∷ s.readers) j ≡ some r
          → Serves s.world.downloads r
      with_new zero r there =
          subst (Serves s.world.downloads)
            (some-injective (record { len = len; offset_start = o; position = p }) r there)
            (record {
              request = q;
              good =
                  subst (Good content Received link b s.world.downloads len o)
                    (enter-retry s.world.cf len o p k.sound.intact q e) tt;
            })
      with_new (suc j) r there = k.readers j r there
  Step-SoundSystem _ _ k (reader_moved s j r i p w there free a rec e) =
      let v = k.readers j r there in
      let n =
        read_step-Next content Received link b s.world k.sound r.len r.offset_start v.request i
          r.position (p, w) v.good a rec e in
      record {
        sound = n.sound;
        readers =
            set-each (Serves w.downloads) s.readers j (record r { position = p })
              (λ j' r' there'.
                Serves-Evolves s.world.downloads w.downloads r' n.evolves (k.readers j' r' there'))
              (record { request = v.request; good = n.good });
      }
  Step-SoundSystem _ _ k (worker_moved s j z i g w there free a e) =
      let v = k.sound.workers j z there in
      let n =
        bgdl_step-Onward s.world k.sound v.q z.dl_offset v.whole v.inside i z.stage (g, w) v.has a
          e in
      record {
        sound = record {
          intact = n.sound.intact;
          below = n.sound.below;
          workers =
              set-each (Works content Received link b) w.workers j (record z { stage = g })
                n.sound.workers
                (record { q = v.q; whole = v.whole; inside = v.inside; has = n.has });
        };
        readers = λ j' r' there'.
            Serves-Evolves s.world.downloads w.downloads r' n.evolves (k.readers j' r' there');
      }
  Step-SoundSystem _ _ k (attached s offset ts ad_ptr dl e) =
      relisted s dl k (attach-Evolves s.world.downloads dl offset ts ad_ptr k.sound.below e)
  Step-SoundSystem _ _ k (detached s offset ts ad_ptr dl e) =
      relisted s dl k
        (finish_transfer-Evolves s.world.downloads dl offset ts ad_ptr k.sound.below e)
  Step-SoundSystem _ _ k (closed s dl e) =
      relisted s dl k (close_downloads-Evolves s.world.downloads dl k.sound.below e)

  pub Reached-SoundSystem :
      (start s : System)
      → SoundSystem start
      → Reached content Received link.content_length b start s
      → SoundSystem s
  Reached-SoundSystem start _ k here = k
  Reached-SoundSystem start _ k (after s s' r t) =
      Step-SoundSystem s s' (Reached-SoundSystem start s k r) t

-- Before the steps: no reader and no background download is at work, and what is marked is what the
-- server has.
pub record IsStart (content : ℕ → ℕ) (link : Link) (b : ℕ) (s : System) : Type 0 where
  pub intact : IsIntact content link b s.world.cf
  pub below : Below s.world.downloads
  pub no_workers : s.world.workers ≡ []
  pub no_readers : s.readers ≡ []

IsStart-SoundSystem :
    (content : ℕ → ℕ) (Received : ℕ → List ℕ → Type 0) (link : Link) (b : ℕ) (s : System)
    → IsStart content link b s
    → SoundSystem content Received link b s
IsStart-SoundSystem content Received link b s k = record {
  sound = record {
    intact = k.intact;
    below = k.below;
    workers = λ j z there. absurd (cc (there, ap (λ xs. get_elem? xs j) k.no_workers));
  };
  readers = λ j r there. absurd (cc (there, ap (λ xs. get_elem? xs j) k.no_readers));
}

-- Start with a cache that is laid out for its link, whose streams work, whose marked blocks are as
-- on the server, and in which no reader and no background download is at work yet; the list may have
-- downloads of others. Let readers make requests as Cache_read makes them,
-- and let each download that Link_download carries out fail, or bring the bytes that the server has
-- in its block, or end early in a block that is not the last one; what is in the buffers of the transfers meanwhile may be anything. In whatever order
-- the sections of the readers and of the background downloads, the joins and ends of transfers and
-- the shutdown then come, as long as none of them faults, the cache stays laid out for its link with
-- streams that work, its data is as long as the file, and every byte of a block that is marked is
-- that of the server.
pub Reached-IsIntact :
    (content : ℕ → ℕ) (Received : ℕ → List ℕ → Type 0) (link : Link) (b : ℕ) (start s : System)
    → IsStart content link b start
    → Reached content Received link.content_length b start s
    → IsIntact content link b s.world.cf
Reached-IsIntact content Received link b start s k r =
    (Reached-SoundSystem content Received link b start s
      (IsStart-SoundSystem content Received link b start k) r).sound.intact

-- Start with a cache that is laid out for its link, whose streams work, whose marked blocks are as
-- on the server, and in which no reader and no background download is at work yet; the list may have
-- downloads of others. Let readers make requests as Cache_read makes them,
-- and let each download that Link_download carries out fail, or bring the bytes that the server has
-- in its block, or end early in a block that is not the last one; what the transfers of an offset have received meanwhile is any bytes that
-- `Received` says of this offset, the body of an HTTP error too. In whatever order the sections of
-- the readers and of the background downloads, the joins and ends of transfers and the shutdown then
-- come, as long as none of them faults, a reader whose Cache_read_segment has returned has returned
-- a negative number, or the number of bytes that were asked for. In the second case the output
-- buffer holds exactly the bytes that the server has there, or exactly the bytes at the place of
-- the request in what a transfer from the first offset of its block had received, and this is long
-- enough.
pub Reached-Reply :
    (content : ℕ → ℕ) (Received : ℕ → List ℕ → Type 0) (link : Link) (b : ℕ) (start s : System)
    (j : ℕ) (r : Reader) (send : ℤ) (out : List ℕ)
    → IsStart content link b start
    → Reached content Received link.content_length b start s
    → get_elem? s.readers j ≡ some r
    → r.position ≡ returned send out
    → Reply content Received b r.offset_start r.len send out
Reached-Reply content Received link b start s j r send out k reached there e =
    let all =
      Reached-SoundSystem content Received link b start s
        (IsStart-SoundSystem content Received link b start k) reached in
    subst (Good content Received link b s.world.downloads r.len r.offset_start) e
      (all.readers j r there).good
