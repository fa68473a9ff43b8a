-- ===== src/Cache/Files.antt =====
-- The files of the cache under META_DIR and DATA_DIR, by their name, and the functions of
-- src/cache.c that open, create, size and remove them. The flags of `Fs` are the answers of the
-- system to the calls that can fail: a call that fails changes nothing.
use httpdirfs.Prelude.{
  ℕ, ◌-◌, List, [], ◌∷◌, ◌++◌, Bool, true, false, ◌&&◌, not, Option, none, some, ltb, if◌then◌else◌,
  length, take, str_eq,
}
use httpdirfs.Prelude.Run.{Run, ok, fatal}
use httpdirfs.Cache.Stdio.{File, zeros}
use httpdirfs.Cache.State.{Link, int64_max}

-- the two files of one name
pub record Pair : Type 0 where
  pub meta : Option (List ℕ)
  pub data' : Option (List ℕ)

pub record Fs : Type 0 where
  pub pair : List ℕ → Pair
  -- fopen of a file that is there, fopen and open that create one, unlink, ftruncate
  pub opens : Bool
  pub creates : Bool
  pub unlinks : Bool
  pub truncates : Bool
  -- the streams serve seeks and transfers
  pub seeks : Bool
  pub transfers : Bool

unfoldable pub put_pair : Fs → List ℕ → Pair → Fs
put_pair fs fn p = record fs { pair = λ name. if str_eq name fn then p else fs.pair name }

abbrev pub opened_file : Fs → List ℕ → File
opened_file fs bytes = record {
  bytes = bytes;
  position = 0;
  eof = false;
  error = false;
  seekable = fs.seeks;
  healthy = fs.transfers;
}

-- fopen(path, "r+")
unfoldable pub open_existing : Fs → Option (List ℕ) → Option File
open_existing fs none = none
open_existing fs (some bytes) = if fs.opens then some (opened_file fs bytes) else none

-- a file that stat finds and that is not empty
unfoldable pub is_present : Option (List ℕ) → Bool
is_present none = false
is_present (some []) = false
is_present (some (c ∷ cs)) = true

-- unlink, which is no failure for a file that is not there
unfoldable pub unlinked : Fs → Option (List ℕ) → Option (List ℕ)
unlinked fs file = if fs.unlinks then none else file

-- `true` if a file is missing, the result of `Cache_exist`; the other file is removed then
unfoldable pub cache_exist : Fs → List ℕ → Run (Bool × Fs)
unfolding is_present
cache_exist fs fn =
    let p = fs.pair fn in
    if is_present p.meta && is_present p.data'
    then ok (false, fs)
    else if not (is_present p.meta) && not (is_present p.data')
    then ok (true, fs)
    else if not fs.unlinks
    then fatal
    else if is_present p.data'
    then ok (true, put_pair fs fn (record p { data' = none }))
    else ok (true, put_pair fs fn (record p { meta = none }))

unfoldable pub remove_pair : Fs → List ℕ → Fs
unfolding unlinked
remove_pair fs fn =
    put_pair fs fn
      (record { meta = unlinked fs (fs.pair fn).meta; data' = unlinked fs (fs.pair fn).data' })

-- Meta_create: an empty file
unfoldable pub meta_create : Fs → List ℕ → Run Fs
meta_create fs fn =
    if fs.creates then ok (put_pair fs fn (record (fs.pair fn) { meta = some [] })) else fatal

-- fclose of a stream of the metadata: its bytes are in the file
unfoldable pub close_meta : Fs → List ℕ → Option File → Fs
close_meta fs fn none = fs
close_meta fs fn (some fp) = put_pair fs fn (record (fs.pair fn) { meta = some fp.bytes })

unfoldable pub close_data : Fs → List ℕ → Option File → Fs
close_data fs fn none = fs
close_data fs fn (some fp) = put_pair fs fn (record (fs.pair fn) { data' = some fp.bytes })

-- ftruncate
unfoldable pub truncated : List ℕ → ℕ → List ℕ
truncated bytes n = take n bytes ++ zeros (n - length bytes)

unfoldable pub contents : Option (List ℕ) → List ℕ
contents none = []
contents (some bytes) = bytes

unfoldable pub data_create : Fs → List ℕ → Option Link → Run Fs
unfolding truncated contents
data_create fs fn link = if not fs.creates then fatal else elim link [
  | none ↦ fatal
  | some l ↦
      if ltb int64_max l.content_length
      then fatal
      else ok (
          put_pair fs fn (record (fs.pair fn) {
            data' = some (
                if fs.truncates
                then truncated (contents (fs.pair fn).data') l.content_length
                else contents (fs.pair fn).data');
          }))
]

-- `none` is the result -1
unfoldable pub data_size : Fs → List ℕ → Option ℕ
data_size fs fn = elim (fs.pair fn).data' [ none ↦ none | some bytes ↦ some (length bytes) ]
