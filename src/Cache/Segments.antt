-- ===== src/Cache/Segments.antt =====
-- `Cache_read_segment`, `Cache_bgdl` and `Cache_bgdl_launcher` of src/cache.c. A thread is at a
-- position between two critical sections, and each section is one function: the positions
-- of a thread that reads, and those of one that downloads in the background.
pub mod Threads
pub mod Blocks
pub mod Positions
pub mod Sections
pub mod Waiting
pub mod Storing
pub mod Looking
pub mod Integrity
mod Tests
use httpdirfs.Prelude.{
  ℕ, zero, suc, ◌+◌, ◌-◌, ◌*◌, ◌/◌, List, [], ◌∷◌, Bool, true, false, ◌&&◌, ◌||◌, not, Option, none,
  some, ltb, leb, ◌==◌, if◌then◌else◌, length, take, drop,
}
use httpdirfs.Prelude.Int.{ℤ, pos, negsuc, pos_part, ltb_ℤ, leb_ℤ, eqb_ℤ}
use httpdirfs.Prelude.Run.{Run, ok, fault, ◌>>=◌}
use httpdirfs.Cache.State.{Cache, Link}
use httpdirfs.Cache.Seg.{seg_exist, seg_set}
use httpdirfs.Cache.Data.{DataRead, data_read, data_write, minus_einval, minus_eio}
use httpdirfs.Cache.Downloads.{
  ActiveDownload, Downloads, active_download_find, active_download_add, active_download_ref,
  active_download_unref, active_download_remove, cache_waiter_increment, cache_waiter_decrement,
}

-- where a background download is; `fetched` has what Link_download returned and its buffer
pub data Stage : Type 0 where
  fetching : Stage
  fetched : ℤ → List ℕ → Stage
  removing posting gone : Stage

-- a thread of `Cache_bgdl`, for the block at `dl_offset`
pub record Worker : Type 0 where
  pub dl_offset : ℕ
  pub stage : Stage

-- What the threads of a cache share. `w_held` says that some thread holds `w_lock`; `dl_lock` is
-- only ever held within a section.
pub record World : Type 0 where
  pub cf : Cache
  pub downloads : Downloads
  pub bgt_sem : ℕ
  pub w_held : Bool
  pub workers : List Worker

-- Where a read of a segment is. `find` to `sync` are in the order of the code; behind `received`
-- the thread has the result and the buffer of its own download, and behind `prefetch` the result
-- and the output buffer of the read.
pub data Position : Type 0 where
  retry find launch check_slot spawn recheck sync : Position
  waiting : ℕ → Position
  downloading : Position
  received : ℤ → List ℕ → Position
  clean_up : Option ℤ → List ℕ → Position
  prefetch look_next take_slot check_next spawn_next returned : ℤ → List ℕ → Position

pub record Reader : Type 0 where
  pub len : ℕ
  pub offset_start : ℕ
  pub position : Position

-- What comes from the network: the result and the buffer of Link_download, and the data that the
-- transfers at their addresses have received so far.
pub record Input : Type 0 where
  pub recv : ℤ
  pub recv_buf : List ℕ
  pub data' : ℕ → Option (List ℕ)

-- `dl_offset` for an offset
unfoldable pub block_start : Cache → ℕ → ℕ
block_start cf o = o / pos_part cf.blksz * pos_part cf.blksz

-- The tests before `retry`. A block size that is not positive, which `Meta_read` refuses, is a
-- fault here.
unfoldable pub enter : Cache → ℤ → Run Position
enter cf offset_start = elim cf.link [
  | none ↦ ok (returned minus_einval [])
  | some link ↦
      if (link.content_length == 0)
        || ltb_ℤ offset_start (pos 0)
        || leb_ℤ (pos link.content_length) offset_start
      then ok (returned (pos 0) [])
      else if leb_ℤ cf.blksz (pos 0)
      then fault
      else ok retry
]

-- the section under `w_lock` that reads the segment if it is there, and keeps the lock if not
unfoldable pub read_stored : Position → ℕ → ℕ → World → Run (Position × World)
unfolding block_start
read_stored missing len o w = seg_exist w.cf (pos (block_start w.cf o)) >>= (λ m.
    if m == 0
    then ok (missing, record w { w_held = true })
    else (data_read w.cf (pos len) (pos o)
        >>= (λ r. ok (prefetch r.count r.buf, record w { cf = r.after; w_held = false }))))

-- `dl_lock` and the search; a thread that finds a download joins it
unfoldable pub join : World → Option ℕ → Run (Position × World)
join w none = ok (launch, w)
join w (some ad) =
    active_download_ref w.downloads ad
    >>= (λ dl. ok (waiting ad, record w { downloads = cache_waiter_increment dl; w_held = false }))

unfoldable pub find_download : ℕ → World → Run (Position × World)
unfolding join block_start
find_download o w = active_download_find w.downloads (pos (block_start w.cf o)) >>= join w

-- `ts->data` of a node
unfoldable pub data_of : (ℕ → Option (List ℕ)) → ActiveDownload → Option (List ℕ)
data_of data' node = elim node.ts [ none ↦ none | some ts ↦ data' ts ]

unfoldable pub stop_waiting : ℕ → Position → World → Run (Position × World)
stop_waiting ad p w =
    active_download_unref (cache_waiter_decrement w.downloads) ad
    >>= (λ dl. ok (p, record w { downloads = dl }))

-- the test of a thread in the loop: the transfer may have the bytes already
unfoldable pub copy_early : ℕ → ℕ → ℕ → World → Option (List ℕ) → Run (Position × World)
unfolding stop_waiting block_start
copy_early ad len o w none = ok (waiting ad, w)
copy_early ad len o w (some bytes) =
    if leb (o - block_start w.cf o + len) (length bytes)
    then stop_waiting ad (prefetch (pos len) (take len (drop (o - block_start w.cf o) bytes))) w
    else ok (waiting ad, w)

-- one round of the loop around PTHREAD_COND_WAIT, and what follows the loop
unfoldable pub wait_download : (ℕ → Option (List ℕ)) → ℕ → ℕ → ℕ → World → Run (Position × World)
unfolding copy_early stop_waiting data_of
wait_download data' ad len o w = elim (w.downloads.node_at ad) [
  | none ↦ fault
  | some node ↦
      if w.downloads.shutting_down
      then stop_waiting ad (returned minus_eio []) w
      else if node.unlinked
      then stop_waiting ad recheck w
      else copy_early ad len o w (data_of data' node)
]

-- SEM_TRYWAIT
unfoldable pub try_slot : Position → Position → World → Position × World
try_slot taken busy w =
    if w.bgt_sem == 0 then (busy, w) else (taken, record w { bgt_sem = w.bgt_sem - 1 })

unfoldable pub claim_slot : ℕ → World → Option ℕ → Position × World
claim_slot start w none =
    (spawn, record w { downloads = active_download_add w.downloads (pos start) })
claim_slot start w (some ad) = (sync, record w { bgt_sem = suc w.bgt_sem })

-- the second look under `dl_lock`
unfoldable pub check_again : ℕ → World → Run (Position × World)
unfolding claim_slot block_start
check_again o w =
    active_download_find w.downloads (pos (block_start w.cf o))
    >>= (λ r. ok (claim_slot (block_start w.cf o) w r))

-- a thread that cannot be created ends the program
unfoldable pub cache_bgdl_launcher : ℕ → World → World
cache_bgdl_launcher start w = record w {
  downloads = cache_waiter_increment w.downloads;
  workers = record { dl_offset = start; stage = fetching } ∷ w.workers;
}

unfoldable pub start_sync : ℕ → World → Option ℕ → Position × World
start_sync start w (some ad) = (retry, record w { w_held = false })
start_sync start w none = (
  downloading,
  record w {
    downloads = cache_waiter_increment (active_download_add w.downloads (pos start));
    w_held = false;
  },
)

unfoldable pub sync_download : ℕ → World → Run (Position × World)
unfolding start_sync block_start
sync_download o w =
    active_download_find w.downloads (pos (block_start w.cf o))
    >>= (λ r. ok (start_sync (block_start w.cf o) w r))

-- a whole block, or the last one
unfoldable pub is_whole : Cache → ℤ → ℕ → Bool
is_whole cf recv start = elim cf.link [
  | none ↦ eqb_ℤ recv cf.blksz
  | some link ↦
      eqb_ℤ recv cf.blksz || (start == link.content_length / pos_part cf.blksz * pos_part cf.blksz)
]

-- Data_write, and Seg_set if all was written
unfoldable pub store_block : Cache → ℤ → List ℕ → ℕ → Run Cache
store_block cf recv buf start =
    data_write cf buf recv (pos start)
    >>= (λ r. if eqb_ℤ r.0 recv then seg_set r.1 (pos start) 1 else ok r.1)

-- the section under `w_lock` behind a download of the reader's own
unfoldable pub keep_block : ℤ → List ℕ → ℕ → ℕ → World → Run (Position × World)
unfolding is_whole store_block block_start
keep_block recv buf len o w =
    if ltb_ℤ recv (pos 0)
    then ok (clean_up (some recv) buf, record w { w_held = true })
    else if is_whole w.cf recv (block_start w.cf o)
    then (if ltb_ℤ recv (pos (o - block_start w.cf o + len))
        then ok (clean_up (some minus_eio) buf, record w { w_held = true })
        else (store_block w.cf recv buf (block_start w.cf o)
            >>= (λ cf. ok (clean_up none buf, record w { cf = cf; w_held = true }))))
    else ok (clean_up (some minus_eio) buf, record w { w_held = true })

-- what a reader goes on with; the copy to the output is only made inside the block
unfoldable pub after_download : Option ℤ → List ℕ → ℕ → ℕ → Cache → Position
unfolding block_start
after_download (some e) buf len o cf = returned e []
after_download none buf len o cf =
    if ltb (pos_part cf.blksz) (o - block_start cf o + len)
    then prefetch (pos 0) []
    else prefetch (pos len) (take len (drop (o - block_start cf o) buf))

-- the section under `dl_lock` that ends a download, and the unlock of `w_lock`
unfoldable pub end_download : Option ℤ → List ℕ → ℕ → ℕ → World → Run (Position × World)
unfolding after_download block_start
end_download e buf len o w =
    active_download_remove w.downloads (pos (block_start w.cf o)) >>= (λ dl. ok (
      after_download e buf len o w.cf,
      record w { downloads = cache_waiter_decrement dl; w_held = false },
    ))

-- `next_dl_offset`
unfoldable pub next_start : Cache → ℕ → ℕ
unfolding block_start
next_start cf o = block_start cf o + pos_part cf.blksz

unfoldable pub has_next : Cache → ℕ → Bool
unfolding next_start
has_next cf o = elim cf.link [
  | none ↦ false
  | some link ↦ ltb (next_start cf o) link.content_length
]

-- the first look at the next segment, under `w_lock`
unfoldable pub look_ahead : ℤ → List ℕ → ℕ → World → Run (Position × World)
unfolding next_start
look_ahead send out o w =
    seg_exist w.cf (pos (next_start w.cf o))
    >>= (λ m. ok ((if m == 0 then take_slot send out else returned send out), w))

unfoldable pub claim_next : ℤ → List ℕ → ℕ → World → ℕ → Option ℕ → Position × World
claim_next send out start w zero none =
    (spawn_next send out, record w { downloads = active_download_add w.downloads (pos start) })
claim_next send out start w (suc m) none = (returned send out, record w { bgt_sem = suc w.bgt_sem })
claim_next send out start w m (some ad) = (returned send out, record w { bgt_sem = suc w.bgt_sem })

-- the second look, under both locks
unfoldable pub look_again : ℤ → List ℕ → ℕ → World → Run (Position × World)
unfolding claim_next next_start
look_again send out o w = seg_exist w.cf (pos (next_start w.cf o)) >>= (λ m.
    active_download_find w.downloads (pos (next_start w.cf o))
    >>= (λ r. ok (claim_next send out (next_start w.cf o) w m r)))

-- The next section of a reader.
unfoldable pub read_step : Input → Position → ℕ → ℕ → World → Run (Position × World)
unfolding read_stored find_download wait_download try_slot check_again cache_bgdl_launcher
    sync_download keep_block end_download has_next look_ahead look_again
read_step i retry len o w = read_stored find len o w
read_step i find len o w = find_download o w
read_step i launch len o w = ok (try_slot check_slot sync w)
read_step i check_slot len o w = check_again o w
read_step i spawn len o w =
    ok (retry, record (cache_bgdl_launcher (block_start w.cf o) w) { w_held = false })
read_step i recheck len o w = read_stored sync len o w
read_step i sync len o w = sync_download o w
read_step i (waiting ad) len o w = wait_download i.data' ad len o w
read_step i downloading len o w = ok (received i.recv i.recv_buf, w)
read_step i (received recv buf) len o w = keep_block recv buf len o w
read_step i (clean_up e buf) len o w = end_download e buf len o w
read_step i (prefetch send out) len o w =
    ok ((if has_next w.cf o then look_next send out else returned send out), w)
read_step i (look_next send out) len o w = look_ahead send out o w
read_step i (take_slot send out) len o w = ok (try_slot (check_next send out) (returned send out) w)
read_step i (check_next send out) len o w = look_again send out o w
read_step i (spawn_next send out) len o w =
    ok (returned send out, cache_bgdl_launcher (next_start w.cf o) w)
read_step i (returned send out) len o w = ok (returned send out, w)

unfoldable pub store_fetched : ℤ → List ℕ → ℕ → World → Run (Stage × World)
unfolding is_whole store_block
store_fetched recv buf start w =
    if ltb_ℤ recv (pos 0)
    then ok (removing, w)
    else if is_whole w.cf recv start
    then (store_block w.cf recv buf start >>= (λ cf. ok (removing, record w { cf = cf })))
    else ok (removing, w)

-- The next section of `Cache_bgdl`.
unfoldable pub bgdl_step : Input → Stage → ℕ → World → Run (Stage × World)
unfolding store_fetched
bgdl_step i fetching start w = ok (fetched i.recv i.recv_buf, w)
bgdl_step i (fetched recv buf) start w = store_fetched recv buf start w
bgdl_step i removing start w =
    active_download_remove w.downloads (pos start)
    >>= (λ dl. ok (posting, record w { downloads = cache_waiter_decrement dl }))
bgdl_step i posting start w = ok (gone, record w { bgt_sem = suc w.bgt_sem })
bgdl_step i gone start w = ok (gone, w)
