-- ===== src/Cache/Segments/Threads.antt =====
-- The threads of one open cache in any order: the steps of readers, background downloads and
-- transfers, and the start of the shutdown. A step of a thread that takes `w_lock` needs the lock
-- to be free.
use httpdirfs.Prelude.{
  ◌<◌, ◌*◌, ◌/◌, ℕ, ◌+◌, ◌-◌, ◌%◌, ◌≤◌, ◌≡◌, List, ◌∷◌, Bool, true, false, ◌&&◌, not, Option, some,
  get_elem?, set, length, min,
}
use httpdirfs.Prelude.Int.{ℤ, pos, negsuc, ltb_ℤ}
use httpdirfs.Prelude.Run.{ok}
use httpdirfs.Cache.Reading.Whole.{IsSlice}
use httpdirfs.Cache.Downloads.{ActiveDownload, Downloads}
use httpdirfs.Cache.Downloads.Transfer.{attach, finish_transfer, close_downloads}
use httpdirfs.Cache.Segments.{
  Stage, fetched, Worker, World, Position, retry, recheck, received, look_next, check_next, Reader,
  Input, block_start, enter, read_step, bgdl_step,
}

-- the sections that begin with a lock of `w_lock`
unfoldable pub locks : Position → Bool
locks retry = true
locks recheck = true
locks (received recv buf) = true
locks (look_next send out) = true
locks (check_next send out) = true
locks _ = false

unfoldable pub bgdl_locks : Stage → Bool
bgdl_locks (fetched recv buf) = not (ltb_ℤ recv (pos 0))
bgdl_locks _ = false

pub record System : Type 0 where
  pub world : World
  pub readers : List Reader

-- A download of the block at `start` of a file of `total` bytes, in blocks of `b`, has failed, or
-- has put what the file has in the block into the buffer of one block, or has ended early, in a
-- block that is not the last one, with anything in the buffer.
pub data Answer (content : ℕ → ℕ) (total b start : ℕ) (recv : ℤ) (buf : List ℕ) : Type 0 where
  failed : (e : ℕ) → recv ≡ negsuc e → Answer content total b start recv buf
  complete :
      recv ≡ pos (min b (total - start))
      → length buf ≡ b
      → IsSlice content start (min b (total - start)) buf
      → Answer content total b start recv buf
  short :
      (m : ℕ)
      → recv ≡ pos m
      → m < b
      → ¬ (start ≡ total / b * b)
      → Answer content total b start recv buf

-- What the transfers of the downloads have in their buffers is what a transfer from the offset of
-- the download may have received. This is whatever HTTP body came, also that of an error.
abbrev pub Receives : (ℕ → List ℕ → Type 0) → Downloads → (ℕ → Option (List ℕ)) → Type 0
Receives Received dl data' =
    (ad : ℕ) (node : ActiveDownload) (ts o : ℕ) (bytes : List ℕ)
    → dl.node_at ad ≡ some node
    → node.ts ≡ some ts
    → node.offset ≡ pos o
    → data' ts ≡ some bytes
    → Received o bytes

-- a request as `Cache_read` makes it: some bytes of one block, inside the file
pub record IsRequest (total b len o : ℕ) : Type 0 where
  pub some_bytes : 1 ≤ len
  pub one_block : o % b + len ≤ b
  pub inside : o + len ≤ total

module _ (content : ℕ → ℕ) (Received : ℕ → List ℕ → Type 0) (total b : ℕ) where
  pub data Step : System → System → Type 0 where
    entered :
        (s : System) (len o : ℕ) (p : Position)
        → IsRequest total b len o
        → enter s.world.cf (pos o) ≡ ok p
        → Step s (record s {
          readers = record { len = len; offset_start = o; position = p } ∷ s.readers;
        })
    reader_moved :
        (s : System) (j : ℕ) (r : Reader) (i : Input) (p : Position) (w : World)
        → get_elem? s.readers j ≡ some r
        → (locks r.position && s.world.w_held) ≡ false
        → Answer content total b (block_start s.world.cf r.offset_start) i.recv i.recv_buf
        → Receives Received s.world.downloads i.data'
        → read_step i r.position r.len r.offset_start s.world ≡ ok (p, w)
        → Step s (record { world = w; readers = set s.readers j (record r { position = p }) })
    worker_moved :
        (s : System) (j : ℕ) (k : Worker) (i : Input) (g : Stage) (w : World)
        → get_elem? s.world.workers j ≡ some k
        → (bgdl_locks k.stage && s.world.w_held) ≡ false
        → Answer content total b k.dl_offset i.recv i.recv_buf
        → bgdl_step i k.stage k.dl_offset s.world ≡ ok (g, w)
        → Step s
            (record s { world = record w { workers = set w.workers j (record k { stage = g }) } })
    attached :
        (s : System) (offset : ℤ) (ts : ℕ) (ad_ptr : Option ℕ) (dl : Downloads)
        → attach s.world.downloads offset ts ≡ ok (ad_ptr, dl)
        → Step s (record s { world = record s.world { downloads = dl } })
    detached :
        (s : System) (offset : ℤ) (ts : ℕ) (ad_ptr : Option ℕ) (dl : Downloads)
        → finish_transfer s.world.downloads offset ts ad_ptr ≡ ok dl
        → Step s (record s { world = record s.world { downloads = dl } })
    closed :
        (s : System) (dl : Downloads)
        → close_downloads s.world.downloads ≡ ok dl
        → Step s (record s { world = record s.world { downloads = dl } })

  -- what comes of a system by steps
  pub data Reached (start : System) : System → Type 0 where
    here : Reached start start
    after : (s s' : System) → Reached start s → Step s s' → Reached start s'
