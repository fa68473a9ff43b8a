-- ===== src/Cache/Segments/Tests.antt =====
-- A file of five bytes in blocks of two: a reader downloads the second block, and another one
-- finds it in the cache; and a reader that is served the body of an error.
use httpdirfs.Prelude.{
  ◌<◌, ◌==◌, if◌then◌else◌, Bool-cases, inl, inr, List, ℕ, zero, suc, ◌+◌, ◌/◌, ◌≡◌, refl, [], ◌∷◌,
  true, false, ◌&&◌, none, some, get_or, arith,
}
use httpdirfs.Prelude.Int.{pos}
use httpdirfs.Prelude.Run.{ok, value_or}
use httpdirfs.Cache.Downloads.Transfer.{set_ts, attach_found, attach}
use httpdirfs.Cache.Stdio.{File, fseek, fread, fwrite, overwrite, zeros}
use httpdirfs.Cache.State.{Cache, Link}
use httpdirfs.Cache.Meta.{segments}
use httpdirfs.Cache.Seg.{quot, mark_at, seg_exist, put_mark, seg_set}
use httpdirfs.Cache.Data.{fseeko, read_stream, read_file, data_read, write_stream, data_write}
use httpdirfs.Cache.Reading.Whole.{IsSlice}
use httpdirfs.Cache.Downloads.{
  ActiveDownload, find_loop, active_download_find, active_download_add, active_download_ref,
  active_download_unref, unlink_loop, unlink, active_download_remove, cache_waiter_decrement,
  cache_waiter_increment,
}
use httpdirfs.Cache.Segments.{
  fetching, World, Position, retry, returned, Input, block_start, enter, read_stored, join,
  find_download, data_of, stop_waiting, copy_early, wait_download, try_slot, claim_slot,
  check_again, cache_bgdl_launcher, start_sync, sync_download, is_whole, store_block, keep_block,
  after_download, end_download, next_start, has_next, look_ahead, claim_next, look_again, read_step,
  bgdl_step, store_fetched,
}
use httpdirfs.Cache.Segments.Threads.{
  locks, bgdl_locks, System, Answer, complete, IsRequest, entered, reader_moved, Reached, here,
  after,
}
use httpdirfs.Cache.Segments.Blocks.{IsIntact}
use httpdirfs.Cache.Segments.Positions.{Reply}
use httpdirfs.Cache.Segments.Integrity.{IsStart, Reached-IsIntact, Reached-Reply}

program : Unit {0}
unfolding fseek fread fwrite overwrite zeros quot mark_at seg_exist put_mark seg_set fseeko
    read_stream read_file data_read write_stream data_write find_loop active_download_find
    active_download_add active_download_ref active_download_unref unlink_loop unlink
    active_download_remove cache_waiter_decrement cache_waiter_increment block_start enter
    read_stored join find_download data_of stop_waiting copy_early wait_download try_slot claim_slot
    check_again cache_bgdl_launcher start_sync sync_download is_whole store_block keep_block
    after_download end_download next_start has_next look_ahead claim_next look_again read_step
    bgdl_step store_fetched locks bgdl_locks set_ts attach_found attach
program = tt

abbrev content : ℕ → ℕ
content i = i + 1

abbrev five : Link
five = record { content_length = 5; time = pos 7 }

abbrev sparse : File
sparse = record {
  bytes = 0 ∷ 0 ∷ 0 ∷ 0 ∷ 0 ∷ [];
  position = 0;
  eof = false;
  error = false;
  seekable = true;
  healthy = true;
}

abbrev empty_cache : Cache
empty_cache = record {
  dfp = some sparse;
  mfp = none;
  link = some five;
  blksz = pos 2;
  segbc = pos 3;
  seg = 0 ∷ 0 ∷ 0 ∷ [];
}

-- no slot is free for a download in the background
abbrev quiet : World
quiet = record {
  cf = empty_cache;
  downloads = record {
    node_at = λ a. none;
    fresh = 0;
    active_dls = [];
    waiters = pos 0;
    shutting_down = false;
    broadcasts = [];
  };
  bgt_sem = 0;
  w_held = false;
  workers = [];
}

abbrev second_block : Input
second_block = record { recv = pos 2; recv_buf = 3 ∷ 4 ∷ []; data' = λ ts. none }

-- the positions of a reader of one byte at the offset 3 that runs alone
abbrev state : ℕ → Position × World
state zero = (retry, quiet)
state (suc n) = let (p, w) = state n in value_or (p, w) (read_step second_block p 1 3 w)

alone_returns : (state 10).0 ≡ returned (pos 1) (4 ∷ [])
unfolding program
alone_returns = refl

alone_marks : (state 10).1.cf.seg ≡ 0 ∷ 1 ∷ 0 ∷ []
unfolding program
alone_marks = refl

-- with a free slot, the reader waits for the background download that it launches
abbrev launched : ℕ → Position × World
launched zero = (retry, record quiet { bgt_sem = 1 })
launched (suc n) = let (p, w) = launched n in value_or (p, w) (read_step second_block p 1 3 w)

launches : (launched 5).1.workers ≡ record { dl_offset = 2; stage = fetching } ∷ []
unfolding program
launches = refl

abbrev quiet_start : System
quiet_start = record { world = quiet; readers = [] }

abbrev alone : ℕ → System
alone n =
    let (p, w) = state n in
    record { world = w; readers = record { len = 1; offset_start = 3; position = p } ∷ [] }

-- the transfers receive what comes
abbrev Anything : ℕ → List ℕ → Type 0
Anything o bytes = Unit {0}

abbrev R : System → Type 0
R s = Reached content Anything 5 2 quiet_start s

one_byte : IsRequest 5 2 1 3
one_byte = record { some_bytes = omega arith; one_block = omega arith; inside = omega arith }

block-IsSlice : IsSlice content 2 2 (3 ∷ 4 ∷ [])
block-IsSlice zero h = refl
block-IsSlice (suc zero) h = refl
block-IsSlice (suc (suc i)) h = absurd (omega arith)

brings : (start : ℕ) → start ≡ 2 → Answer content 5 2 start (pos 2) (3 ∷ 4 ∷ [])
brings start e = rw e (complete refl refl block-IsSlice)

begun : R (alone 0)
unfolding program enter
begun = after quiet_start (alone 0) here (entered quiet_start 1 3 retry one_byte refl)

-- the reader takes its next section
goes_on :
    (n : ℕ)
    → (locks (state n).0 && (state n).1.w_held) ≡ false
    → block_start (state n).1.cf 3 ≡ 2
    → read_step second_block (state n).0 1 3 (state n).1 ≡ ok (state (suc n))
    → R (alone n)
    → R (alone (suc n))
goes_on n free block e r = after (alone n) (alone (suc n)) r (
    reader_moved (alone n) 0 (record { len = 1; offset_start = 3; position = (state n).0 })
      second_block (state (suc n)).0 (state (suc n)).1 refl free
      (brings (block_start (state n).1.cf 3) block) (λ ad node ts o bytes there t z d. tt) e)

half_way : R (alone 5)
unfolding program
half_way = goes_on 4 refl refl refl (
    goes_on 3 refl refl refl
      (goes_on 2 refl refl refl (goes_on 1 refl refl refl (goes_on 0 refl refl refl begun))))

whole_way : R (alone 10)
unfolding program
whole_way = goes_on 9 refl refl refl (
    goes_on 8 refl refl refl
      (goes_on 7 refl refl refl (goes_on 6 refl refl refl (goes_on 5 refl refl refl half_way))))

empty-IsStart : IsStart content five 2 quiet_start
unfolding segments
empty-IsStart = record {
  intact = record {
    linked = refl;
    laid_out = record {
      b = 2;
      block = refl;
      positive = omega arith;
      count = refl;
      marks = refl;
      some_mark = omega arith;
    };
    sized = refl;
    small = omega arith;
    fp = sparse;
    opened = record { stream = refl; seekable = refl; healthy = refl };
    enough = omega arith;
    stored = λ i less m. absurd (omega (arith, m, no_mark (i / 2)));
  };
  below = λ a node e. absurd (cc e);
  no_workers = refl;
  no_readers = refl;
}
  where
    no_mark : (i : ℕ) → get_or empty_cache.seg i 0 ≡ 0
    no_mark zero = refl
    no_mark (suc zero) = refl
    no_mark (suc (suc zero)) = refl
    no_mark (suc (suc (suc i))) = refl

-- the state of the cache behind the whole read
Reached-IsIntact_example : IsIntact content five 2 (alone 10).world.cf
Reached-IsIntact_example =
    Reached-IsIntact content Anything five 2 quiet_start (alone 10) empty-IsStart whole_way

-- A download of the block runs, with a transfer whose buffer holds the two bytes "no" of an error's
-- body.
abbrev downloaded : World
downloaded = record quiet {
  downloads = record quiet.downloads {
    node_at = λ a.
        if a == 0
        then some (record { offset = pos 2; ts = some 9; refcount = pos 1; unlinked = false })
        else none;
    fresh = 1;
    active_dls = 0 ∷ [];
  };
}

abbrev error_body : Input
error_body = record second_block { data' = λ ts. some (b'n' ∷ b'o' ∷ []) }

abbrev misled : ℕ → Position × World
misled zero = (retry, downloaded)
misled (suc n) = let (p, w) = misled n in value_or (p, w) (read_step error_body p 1 3 w)

-- The reader of the byte 4 has returned the byte 'o'.
error_body_served : (misled 6).0 ≡ returned (pos 1) (b'o' ∷ [])
unfolding program
error_body_served = refl

abbrev busy_start : System
busy_start = record { world = downloaded; readers = [] }

abbrev misled_alone : ℕ → System
misled_alone n =
    let (p, w) = misled n in
    record { world = w; readers = record { len = 1; offset_start = 3; position = p } ∷ [] }

abbrev B : System → Type 0
B s = Reached content Anything 5 2 busy_start s

misled_on :
    (n : ℕ)
    → (locks (misled n).0 && (misled n).1.w_held) ≡ false
    → block_start (misled n).1.cf 3 ≡ 2
    → read_step error_body (misled n).0 1 3 (misled n).1 ≡ ok (misled (suc n))
    → B (misled_alone n)
    → B (misled_alone (suc n))
misled_on n free block e r = after (misled_alone n) (misled_alone (suc n)) r (
    reader_moved (misled_alone n) 0 (record { len = 1; offset_start = 3; position = (misled n).0 })
      error_body (misled (suc n)).0 (misled (suc n)).1 refl free
      (brings (block_start (misled n).1.cf 3) block) (λ ad node ts o bytes there t z d. tt) e)

misled_begun : B (misled_alone 0)
unfolding program
misled_begun = after busy_start (misled_alone 0) here (entered busy_start 1 3 retry one_byte refl)

misled_waits : B (misled_alone 2)
unfolding program
misled_waits = misled_on 1 refl refl refl (misled_on 0 refl refl refl misled_begun)

misled_served : B (misled_alone 4)
unfolding program
misled_served = misled_on 3 refl refl refl (misled_on 2 refl refl refl misled_waits)

misled_returned : B (misled_alone 6)
unfolding program
misled_returned = misled_on 5 refl refl refl (misled_on 4 refl refl refl misled_served)

busy-IsStart : IsStart content five 2 busy_start
busy-IsStart = record {
  intact = empty-IsStart.intact;
  below = only_first;
  no_workers = refl;
  no_readers = refl;
}
  where
    only_first :
        (a : ℕ) (node : ActiveDownload) → downloaded.downloads.node_at a ≡ some node → a < 1
    only_first a node e = elim (Bool-cases (a == 0)) [
      | inl z ↦ ground (arith, z)
      | inr z ↦ absurd (let none_there : none ≡ some node = rw (z) at e in cc none_there)
    ]

Reached-Reply_example : Reply content Anything 2 3 1 (pos 1) (b'o' ∷ [])
Reached-Reply_example =
    Reached-Reply content Anything five 2 busy_start (misled_alone 6) 0
      (record { len = 1; offset_start = 3; position = (misled 6).0 }) (pos 1) (b'o' ∷ [])
      busy-IsStart misled_returned refl error_body_served
