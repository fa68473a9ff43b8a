-- ===== src/Cache/Lifecycle/Reopening.antt =====
-- A cache that is closed and opened again.
use httpdirfs.Prelude.{
  ℕ, suc, ◌≤◌, ◌≡◌, refl, sym, ap, ◌∙◌, List, Bool, false, Option, none, some, ◌==◌, length, arith,
}
use httpdirfs.Prelude.Int.{ℤ, pos, ◌+ℤ◌, ◌-ℤ◌, ltb_ℤ}
use httpdirfs.Prelude.Run.{ok, Returns, ◌>>=◌}
use httpdirfs.Cache.Stdio.{File}
use httpdirfs.Cache.State.{Link, Cache}
use httpdirfs.Cache.Meta.{meta_write}
use httpdirfs.Cache.Meta.Roundtrip.{Writable, stored, meta_write-stored}
use httpdirfs.Cache.Files.{Pair, Fs, put_pair, opened_file, close_meta, close_data}
use httpdirfs.Cache.Lifecycle.{
  Mode, Target, OpenCache, Store, blank, ensure_files, try_open, open_loop, keep_cache, open_files,
  cache_open, flush_cache, cache_close,
}
use httpdirfs.Cache.Lifecycle.Creating.{
  IsWorking, pair-put_pair, put_pair-IsWorking, IsStored, cache_exist-IsStored, try_open-IsStored,
  written-IsStored,
}
use httpdirfs.Cache.Lifecycle.Opening.{Names}

-- A cache that can be closed and kept: its metadata may be written, and its data is complete.
pub record IsKept (c : OpenCache) (fn : List ℕ) (link : Link) (b : ℕ) (fp dfp : File) : Type 0 where
  pub path : c.path ≡ fn
  pub last : c.cache_opened ≡ pos 1
  pub writable : Writable c.cf link b fp
  pub data_stream : c.cf.dfp ≡ some dfp
  pub enough : link.content_length ≤ length dfp.bytes

ensure_files-IsStored :
    (mode : Mode) (t : Target) (k : ℕ) (fn : List ℕ) (fs : Fs) (link : Link) (b : ℕ)
    (seg data' : List ℕ)
    → IsStored fs fn link b seg data'
    → ensure_files mode t k fn fs ≡ ok (false, fs)
unfolding ensure_files
ensure_files-IsStored mode t k fn fs link b seg data' w =
    rw (ensure_files, cache_exist-IsStored fs fn link b seg data' w) refl

open_loop-first :
    (attempts : ℕ) (mode : Mode) (t : Target) (k : ℕ) (fn : List ℕ) (link : Link) (fs : Fs)
    (cf : Cache)
    → ensure_files mode t k fn fs ≡ ok (false, fs)
    → try_open fs fn link ≡ some cf
    → open_loop (suc attempts) mode t k fn link fs ≡ ok (some cf, fs)
unfolding open_loop
open_loop-first attempts mode t k fn link fs cf there h = rw (open_loop, there, h) refl

module _ (c : OpenCache) (fn : List ℕ) (link : Link) (b : ℕ) (fp dfp : File)
    (kept : IsKept c fn link b fp dfp) (fs : Fs) where
  abbrev closed_meta : Fs
  closed_meta =
      put_pair fs fn
        (record (fs.pair fn) { meta = some (stored c.cf link b fp kept.writable).bytes })

  abbrev pub closed_files : Fs
  closed_files = put_pair closed_meta fn (record (closed_meta.pair fn) { data' = some dfp.bytes })

  pub flush_cache-kept : flush_cache fs c.path c.cf ≡ closed_files
  unfolding flush_cache close_meta close_data
  flush_cache-kept =
      let written : (meta_write c.cf).1.mfp ≡ some (stored c.cf link b fp kept.writable) =
        ap (λ (r : Bool × Cache). r.1.mfp) (meta_write-stored c.cf link b fp kept.writable) in
      simp (flush_cache, kept.path, kept.writable.stream, kept.data_stream, written)

  pub closed_files-IsStored : IsStored closed_files fn link b c.cf.seg dfp.bytes
  closed_files-IsStored =
      written-IsStored closed_files fn c.cf link b fp kept.writable dfp.bytes kept.enough (
        pair-put_pair closed_meta fn _
        ∙ ap (λ (p : Pair). record p { data' = some dfp.bytes }) (pair-put_pair fs fn _))

  closed_files-IsWorking : IsWorking fs → IsWorking closed_files
  closed_files-IsWorking k = put_pair-IsWorking closed_meta fn _ (put_pair-IsWorking fs fn _ k)

cache_close-last :
    (s : Store) (c : OpenCache)
    → s.cache_ptr ≡ some c
    → c.cache_opened ≡ pos 1
    → cache_close s
      ≡ ok
          (record s { fs = flush_cache s.fs c.path c.cf; cache_ptr = none; refs = s.refs -ℤ pos 1 })
unfolding cache_close
cache_close-last s c e last =
    let gone : ltb_ℤ (pos 0) (c.cache_opened -ℤ pos 1) ≡ false =
      ap (λ z. ltb_ℤ (pos 0) (z -ℤ pos 1)) last in
    rw (cache_close, e, gone) refl

cache_open-first :
    (mode : Mode) (t : Target) (fn : List ℕ) (link : Link) (k : ℕ) (s : Store)
    → Names mode t fn link
    → s.cache_ptr ≡ none
    → 1 ≤ link.content_length
    → cache_open mode t k s ≡ (open_loop 2 mode t k fn link s.fs >>= (λ r. ok (keep_cache s fn r)))
unfolding cache_open open_files
cache_open-first mode t fn link k s n closed positive =
    let some_bytes : (link.content_length == 0) ≡ false = ground (arith, positive) in
    simp (cache_open, open_files, n.found, closed, n.opened, some_bytes)

-- the reference that was given back is taken again
taken_again : (z : ℤ) → (z -ℤ pos 1) +ℤ pos 1 ≡ z
taken_again z = ground arith

-- The cache is open again, with the layout, the marks and the data of `c`, and the references are
-- as many as in `s`; the system still works.
abbrev pub IsReopened : Store → OpenCache → File → Option OpenCache × Store → Type 0
IsReopened s c dfp r =
    (c' : OpenCache) × (r.0 ≡ some c')
    × (r.1.cache_ptr ≡ some c')
    × (c'.cf.blksz ≡ c.cf.blksz)
    × (c'.cf.segbc ≡ c.cf.segbc)
    × (c'.cf.seg ≡ c.cf.seg)
    × (c'.cf.dfp ≡ some (opened_file r.1.fs dfp.bytes))
    × (r.1.refs ≡ s.refs)
    × (c'.cf.link ≡ c.cf.link)
    × IsWorking r.1.fs

-- Let every call of the system succeed, and the paths under which the functions find the link be
-- the same. Let the open cache of the link be opened once, with a healthy stream on its metadata
-- that describes the link, and a stream on data as long as the link says. Then `Cache_close`
-- succeeds, the cache is closed, and `Cache_open` behind it, whatever the block size of the
-- options then is, opens the files as they are: the cache has the block size, the number of
-- segments and the mark of every segment of before, its data stream is on the same bytes, and the
-- references to the table are as many as before.
pub cache_open-cache_close :
    (mode : Mode) (t : Target) (fn : List ℕ) (link : Link) (b : ℕ) (s : Store) (c : OpenCache)
    (fp dfp : File) (k : ℕ)
    → Names mode t fn link
    → IsWorking s.fs
    → s.cache_ptr ≡ some c
    → IsKept c fn link b fp dfp
    → Returns
        (cache_close s)
        (λ s1. (s1.cache_ptr ≡ none) × Returns (cache_open mode t k s1) (IsReopened s c dfp))
unfolding keep_cache
cache_open-cache_close mode t fn link b s c fp dfp k n works e kept =
    let fs1 : Fs = closed_files c fn link b fp dfp kept s.fs in
    let s1 : Store = record s { fs = fs1; cache_ptr = none; refs = s.refs -ℤ pos 1 } in
    let there = closed_files-IsStored c fn link b fp dfp kept s.fs in
    let k1 = closed_files-IsWorking c fn link b fp dfp kept s.fs works in
    let (fp', opens) = try_open-IsStored fs1 fn link b c.cf.seg dfp.bytes k1 there in
    let cf : Cache = record (blank link) {
      blksz = pos b;
      segbc = pos (length c.cf.seg);
      seg = c.cf.seg;
      mfp = some fp';
      dfp = some (opened_file fs1 dfp.bytes);
    } in
    let c' : OpenCache = record { cf = cf; path = fn; cache_opened = pos 1 } in
    let run =
      open_loop-first 1 mode t k fn link fs1 cf
        (ensure_files-IsStored mode t k fn fs1 link b c.cf.seg dfp.bytes there) opens in
    (
      s1,
      cache_close-last s c e kept.last
          ∙ ap (λ (fs : Fs). ok (record s { fs = fs; cache_ptr = none; refs = s.refs -ℤ pos 1 }))
              (flush_cache-kept c fn link b fp dfp kept s.fs),
      (
        refl,
        (
          (some c', record s1 { cache_ptr = some c'; refs = s1.refs +ℤ pos 1 }),
          cache_open-first mode t fn link k s1 n refl kept.writable.fits.positive
              ∙ ap (λ m. m >>= (λ r. ok (keep_cache s1 fn r))) run,
          (
            c',
            refl,
            refl,
            sym kept.writable.block,
            sym kept.writable.count,
            refl,
            refl,
            taken_again s.refs,
            sym kept.writable.linked,
            k1,
          ),
        ),
      ),
    )
