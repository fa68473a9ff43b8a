-- ===== src/Cache/Data/Tests.antt =====
-- A data file of six bytes.
use httpdirfs.Prelude.{◌≡◌, refl, [], ◌∷◌, none, some, true, false, arith}
use httpdirfs.Prelude.Int.{pos}
use httpdirfs.Prelude.Run.{ok, Returns}
use httpdirfs.Cache.Stdio.{File, fseek, fread}
use httpdirfs.Cache.State.{Cache, Link}
use httpdirfs.Cache.Data.{fseeko, read_stream, read_file, data_read, data_write, minus_einval}
use httpdirfs.Cache.Data.Bytes.{
  IsOpen, Stored, Fetched, data_write-Stored, data_read-Fetched, data_read-data_write,
}

abbrev file : File
file = record {
  bytes = 1 ∷ 2 ∷ 3 ∷ 4 ∷ 5 ∷ 6 ∷ [];
  position = 0;
  eof = false;
  error = false;
  seekable = true;
  healthy = true;
}

abbrev link : Link
link = record { content_length = 6; time = pos 0 }

abbrev cache : Cache
cache = record {
  dfp = some file;
  mfp = none;
  link = some link;
  blksz = pos 4;
  segbc = pos 2;
  seg = 0 ∷ 0 ∷ [];
}

cache-IsOpen : IsOpen cache file
cache-IsOpen = record { stream = refl; seekable = refl; healthy = refl }

data_read_clipped :
    data_read cache (pos 9) (pos 4)
    ≡ ok (record {
      count = pos 2;
      buf = 5 ∷ 6 ∷ [];
      after = record cache { dfp = some (record file { position = 6 }) };
    })
unfolding data_read read_file read_stream fseeko fseek fread
data_read_clipped = refl

data_read_zero :
    data_read cache (pos 0) (pos 4) ≡ ok (record { count = minus_einval; buf = []; after = cache })
unfolding data_read
data_read_zero = refl

data_write-Stored_example : Stored cache file (7 ∷ 8 ∷ []) 2 3
data_write-Stored_example =
    data_write-Stored cache file (7 ∷ 8 ∷ []) 2 3 cache-IsOpen (omega arith) (omega arith)

data_read-Fetched_example : Fetched cache file 6 9 4
data_read-Fetched_example =
    data_read-Fetched cache file link 9 4 cache-IsOpen refl (omega arith) (omega arith)
      (omega arith) (omega arith)

data_read-data_write_example :
    (cf' : Cache) × ((data_write cache (7 ∷ 8 ∷ []) (pos 2) (pos 3) ≡ ok (pos 2, cf'))
      × Returns (data_read cf' (pos 2) (pos 3)) (λ r. (r.count ≡ pos 2) × (r.buf ≡ 7 ∷ 8 ∷ [])))
data_read-data_write_example =
    data_read-data_write cache file link (7 ∷ 8 ∷ []) 2 3 cache-IsOpen refl (omega arith)
      (omega arith) (omega arith) (omega arith) (omega arith)
