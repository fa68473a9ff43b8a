-- ===== src/Cache/Lifecycle/Creating.antt =====
-- The files of a cache on a file system that works.
use httpdirfs.Prelude.{
  ℕ, ◌-◌, ◌≤◌, ◌≡◌, refl, sym, ap, ◌∙◌, List, [], ◌∷◌, ◌++◌, Bool, true, false, some, ltb, ◌==◌,
  length, length-append, length-take, length-replicate, take, replicate, str_eq_self, arith, ge→ltb,
}
use httpdirfs.Prelude.Int.{pos}
use httpdirfs.Prelude.Run.{ok, Returns}
use httpdirfs.Cache.Stdio.{File, zeros}
use httpdirfs.Cache.Words.{length-to_bytes, pattern_of}
use httpdirfs.Cache.Stdio.Sequential.{coded}
use httpdirfs.Cache.State.{Link, Cache, enone, int64_max}
use httpdirfs.Cache.Meta.{segments, meta_read}
use httpdirfs.Cache.Meta.Header.{Fits}
use httpdirfs.Cache.Meta.Roundtrip.{
  Writable, Opened, stored, stored-Written, meta_write-stored, read_back,
}
use httpdirfs.Cache.Data.Bytes.{length-zeros}
use httpdirfs.Cache.Files.{
  Pair, Fs, put_pair, opened_file, open_existing, is_present, cache_exist, meta_create, close_meta,
  truncated, contents, data_create, data_size,
}
use httpdirfs.Cache.Lifecycle.{
  blank, fresh_cache, create_data, write_meta, create_files, open_data, try_open,
}

-- Every call of the system succeeds.
pub record IsWorking (fs : Fs) : Type 0 where
  pub opens : fs.opens ≡ true
  pub creates : fs.creates ≡ true
  pub unlinks : fs.unlinks ≡ true
  pub truncates : fs.truncates ≡ true
  pub seeks : fs.seeks ≡ true
  pub transfers : fs.transfers ≡ true

pub pair-put_pair : (fs : Fs) (fn : List ℕ) (p : Pair) → (put_pair fs fn p).pair fn ≡ p
unfolding put_pair
pair-put_pair fs fn p = rw (str_eq_self fn) refl

pub put_pair-IsWorking :
    (fs : Fs) (fn : List ℕ) (p : Pair) → IsWorking fs → IsWorking (put_pair fs fn p)
unfolding put_pair
put_pair-IsWorking fs fn p w = record {
  opens = w.opens;
  creates = w.creates;
  unlinks = w.unlinks;
  truncates = w.truncates;
  seeks = w.seeks;
  transfers = w.transfers;
}

-- The files hold a cache of the link: metadata from which `Meta_read` gets the block size and the
-- marks, and the data, as long as the link says.
pub record IsStored (fs : Fs) (fn : List ℕ) (link : Link) (b : ℕ) (seg data' : List ℕ)
    : Type 0 where
  pub bytes : List ℕ
  pub meta : fs.pair fn ≡ record { meta = some bytes; data' = some data' }
  pub some_meta : is_present (some bytes) ≡ true
  pub some_data : is_present (some data') ≡ true
  pub enough : link.content_length ≤ length data'
  pub reads :
      (reader : Cache) (fp : File)
      → Opened reader link fp bytes
      → (fp' : File) × (meta_read reader ≡ (
        enone,
        record reader { blksz = pos b; segbc = pos (length seg); seg = seg; mfp = some fp' },
      ))

pub is_present-length : (bytes : List ℕ) → 1 ≤ length bytes → is_present (some bytes) ≡ true
unfolding is_present
is_present-length [] h = absurd (omega arith)
is_present-length (c ∷ cs) h = refl

pub cache_exist-IsStored :
    (fs : Fs) (fn : List ℕ) (link : Link) (b : ℕ) (seg data' : List ℕ)
    → IsStored fs fn link b seg data'
    → cache_exist fs fn ≡ ok (false, fs)
unfolding cache_exist
cache_exist-IsStored fs fn link b seg data' w =
    rw (cache_exist, w.meta, w.some_meta, w.some_data) refl

pub open_data-long :
    (fs : Fs) (fn : List ℕ) (link : Link) (cf : Cache) (data' : List ℕ)
    → fs.opens ≡ true
    → (fs.pair fn).data' ≡ some data'
    → link.content_length ≤ length data'
    → open_data fs fn link (enone, cf) ≡ some (record cf { dfp = some (opened_file fs data') })
unfolding open_data open_existing data_size
open_data-long fs fn link cf data' opens there enough =
    let long : ltb (length data') link.content_length ≡ false =
      ge→ltb (length data') link.content_length enough in
    rw (open_data, there, long) (rw (open_existing, there, opens) refl)

-- the cache that `Cache_open` makes of stored files
pub try_open-IsStored :
    (fs : Fs) (fn : List ℕ) (link : Link) (b : ℕ) (seg data' : List ℕ)
    → IsWorking fs
    → IsStored fs fn link b seg data'
    → (fp' : File) × (try_open fs fn link
        ≡ some (record (blank link) {
          blksz = pos b;
          segbc = pos (length seg);
          seg = seg;
          mfp = some fp';
          dfp = some (opened_file fs data');
        }))
unfolding try_open open_existing
try_open-IsStored fs fn link b seg data' k w =
    let (fp', run) =
      w.reads (record (blank link) { mfp = some (opened_file fs w.bytes) }) (opened_file fs w.bytes)
        (record {
          stream = refl;
          linked = refl;
          bytes = refl;
          seekable = k.seeks;
          healthy = k.transfers;
          error = refl;
        }) in
    (
      fp',
      rw (try_open, w.meta, k.opens, run)
          (open_data-long fs fn link
            (record (blank link) {
              blksz = pos b;
              segbc = pos (length seg);
              seg = seg;
              mfp = some fp';
            })
            data' k.opens (ap (λ p. p.data') w.meta) w.enough),
    )

some-append : (xs ys : List ℕ) → 1 ≤ length xs → 1 ≤ length (xs ++ ys)
some-append xs ys h = omega (arith, length-append xs ys)

-- what `Meta_write` leaves in the file is a stored cache, together with the data
module _ (fs : Fs) (fn : List ℕ) (cf : Cache) (link : Link) (b : ℕ) (fp : File)
    (w : Writable cf link b fp) (data' : List ℕ) (enough : link.content_length ≤ length data') where
  stored-some : 1 ≤ length (stored cf link b fp w).bytes
  stored-some =
      let c1 = coded 8 link.time in
      let first : 1 ≤ length c1 = omega (arith, length-to_bytes 8 (pattern_of 64 link.time)) in
      let c2 = coded 8 (pos link.content_length) in
      rw (stored-Written cf link b fp w).bytes (
        some-append _ _
          (some-append _ _ (some-append _ _ (some-append _ _ (some-append ([] ++ c1) c2 first)))))

  pub written-IsStored :
      fs.pair fn ≡ record { meta = some (stored cf link b fp w).bytes; data' = some data' }
      → IsStored fs fn link b cf.seg data'
  written-IsStored there = record {
    bytes = (stored cf link b fp w).bytes;
    meta = there;
    some_meta = is_present-length (stored cf link b fp w).bytes stored-some;
    some_data = is_present-length data' (omega (arith, enough, w.fits.positive));
    enough = enough;
    reads = λ reader again o. read_back cf link b fp w reader again o;
  }

length-truncated : (bytes : List ℕ) (n : ℕ) → length (truncated bytes n) ≡ n
unfolding truncated
length-truncated bytes n = omega (
  arith,
  length-append (take n bytes) (zeros (n - length bytes)),
  length-take n bytes,
  length-zeros (n - length bytes),
)

-- The marks of a new cache.
abbrev pub no_marks : Link → ℕ → List ℕ
no_marks link b = replicate (segments link.content_length b) 0

fresh-Writable :
    (fs : Fs) (link : Link) (b : ℕ)
    → IsWorking fs
    → Fits link b (no_marks link b)
    → Writable
        (record (fresh_cache link b) { mfp = some (opened_file fs []) })
        link
        b
        (opened_file fs [])
unfolding fresh_cache
fresh-Writable fs link b k f = record {
  stream = refl;
  linked = refl;
  block = refl;
  count = ap pos (sym (length-replicate (segments link.content_length b) (let z : ℕ = 0 in z)));
  fits = f;
  seekable = k.seeks;
  healthy = k.transfers;
  error = refl;
}

-- what `Data_create` makes of whatever data there was
data_create-working :
    (fs : Fs) (fn : List ℕ) (link : Link)
    → IsWorking fs
    → link.content_length ≤ int64_max
    → data_create fs fn (some link)
      ≡ ok (
          put_pair fs fn (record (fs.pair fn) {
            data' = some (truncated (contents (fs.pair fn).data') link.content_length);
          }))
unfolding data_create
data_create-working fs fn link k small =
    let fits : ltb int64_max link.content_length ≡ false =
      ge→ltb int64_max link.content_length small in
    rw (data_create, k.creates, k.truncates, fits) refl

-- the files behind `Cache_create`, on any files of a file system that works
abbrev pub Created : Fs → List ℕ → Link → ℕ → Bool × Fs → Type 0
Created fs fn link b r =
    (r.0 ≡ false)
    × (IsWorking r.1 × ((data' : List ℕ) × IsStored r.1 fn link b (no_marks link b) data'))

open_existing-some :
    (fs : Fs) (bytes : List ℕ)
    → fs.opens ≡ true
    → open_existing fs (some bytes) ≡ some (opened_file fs bytes)
unfolding open_existing
open_existing-some fs bytes h = rw h refl

create_files-write_meta :
    (fs : Fs) (fn : List ℕ) (link : Link) (b : ℕ)
    → (b == 0) ≡ false
    → IsWorking fs
    → (let fs1 = put_pair fs fn (record (fs.pair fn) { meta = some [] }) in
        create_files fs fn link b
        ≡ write_meta fs1 fn link (fresh_cache link b) (open_existing fs1 (fs1.pair fn).meta))
unfolding create_files meta_create
create_files-write_meta fs fn link b block k = rw (block, k.creates) refl

create_data-stored :
    (fs : Fs) (fn : List ℕ) (link : Link) {fs' : Fs}
    → data_create fs fn (some link) ≡ ok fs'
    → cache_exist fs' fn ≡ ok (false, fs')
    → create_data fs fn link ≡ ok (false, fs')
unfolding create_data
create_data-stored fs fn link created there = rw (created, there) refl

pub create_files-Created :
    (fs : Fs) (fn : List ℕ) (link : Link) (b : ℕ)
    → IsWorking fs
    → Fits link b (no_marks link b)
    → Returns (create_files fs fn link b) (Created fs fn link b)
unfolding write_meta close_meta segments fresh_cache
create_files-Created fs fn link b k f =
    let block : (b == 0) ≡ false = ground (arith, f.block) in
    let p0 : Pair = record (fs.pair fn) { meta = some [] } in
    let fs1 : Fs = put_pair fs fn p0 in
    let k1 : IsWorking fs1 = put_pair-IsWorking fs fn p0 k in
    let w = fresh-Writable fs1 link b k1 f in
    let cf : Cache = record (fresh_cache link b) { mfp = some (opened_file fs1 []) } in
    let out = stored cf link b (opened_file fs1 []) w in
    let p1 : Pair = record (fs1.pair fn) { meta = some out.bytes } in
    let fs2 : Fs = put_pair fs1 fn p1 in
    let k2 : IsWorking fs2 = put_pair-IsWorking fs1 fn p1 k1 in
    let bytes : List ℕ = truncated (contents (fs2.pair fn).data') link.content_length in
    let p2 : Pair = record (fs2.pair fn) { data' = some bytes } in
    let fs3 : Fs = put_pair fs2 fn p2 in
    let k3 : IsWorking fs3 = put_pair-IsWorking fs2 fn p2 k2 in
    let there : fs3.pair fn ≡ record { meta = some out.bytes; data' = some bytes } =
      pair-put_pair fs2 fn p2
      ∙ ap (λ (p : Pair). record p { data' = some bytes }) (pair-put_pair fs1 fn p1) in
    let kept =
      written-IsStored fs3 fn cf link b (opened_file fs1 []) w bytes
        (omega (arith, length-truncated (contents (fs2.pair fn).data') link.content_length))
        there in
    let empty : (fs1.pair fn).meta ≡ some [] = ap (λ (p : Pair). p.meta) (pair-put_pair fs fn p0) in
    (
      (false, fs3),
      create_files-write_meta fs fn link b block k
          ∙ ap (λ o. write_meta fs1 fn link (fresh_cache link b) o)
              (ap (open_existing fs1) empty ∙ open_existing-some fs1 [] k1.opens)
          ∙ ap (λ (r : Bool × Cache). create_data (close_meta fs1 fn r.1.mfp) fn link)
              (meta_write-stored cf link b (opened_file fs1 []) w)
          ∙ create_data-stored fs2 fn link
              (data_create-working fs2 fn link k2 (omega (arith, f.no_overflow)))
              (cache_exist-IsStored fs3 fn link b (no_marks link b) bytes kept),
      (refl, (k3, (bytes, kept))),
    )
