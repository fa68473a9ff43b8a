-- ===== src/Cache/Lifecycle.antt =====
-- `Cache_create`, `Cache_delete`, `Cache_open` and `Cache_close` of src/cache.c, for one link.
pub mod Creating
pub mod Ready
pub mod Opening
pub mod Reopening
pub mod Persistence
mod Tests
use httpdirfs.Prelude.{
  ℕ, zero, suc, ◌+◌, ◌-◌, ◌/◌, ◌%◌, List, [], ◌∷◌, Bool, true, false, ◌&&◌, ◌||◌, not, Option, none,
  some, ltb, leb, ◌==◌, if◌then◌else◌, length, replicate,
}
use httpdirfs.Prelude.Int.{ℤ, pos, negsuc, leb_ℤ, ltb_ℤ, ◌+ℤ◌, ◌-ℤ◌}
use httpdirfs.Prelude.Run.{Run, ok, fatal, fault, out_of_fuel, ◌>>=◌}
use httpdirfs.Cache.Stdio.{File}
use httpdirfs.Cache.State.{Link, Cache, Errno, enone, eio, einval, ebadmsg}
use httpdirfs.Cache.Meta.{segments, meta_read, meta_write}
use httpdirfs.Cache.Files.{
  Fs, open_existing, cache_exist, remove_pair, meta_create, close_meta, close_data, data_create,
  data_size,
}

pub data Mode : Type 0 where
  normal single sonic : Mode

-- What the functions find under the path `fn`: the link, if `path_to_Link` finds one, its cache
-- path (`url_to_cache_path`), its unescaped name and its id, of which each mode uses one.
pub record Target : Type 0 where
  pub fn : List ℕ
  pub link : Option Link
  pub cache_path : Option (List ℕ)
  pub unescaped_name : Option (List ℕ)
  pub sonic_id : List ℕ

-- an open cache, with the members of `struct Cache` that only these functions use
pub record OpenCache : Type 0 where
  pub cf : Cache
  pub path : List ℕ
  pub cache_opened : ℤ

-- The files, `link->cache_ptr`, and the references to the table of the link that are taken.
pub record Store : Type 0 where
  pub fs : Fs
  pub cache_ptr : Option OpenCache
  pub refs : ℤ

unfoldable pub open_key : Mode → Target → Option (List ℕ)
open_key normal t = t.cache_path
open_key single t = some t.fn
open_key sonic t = some t.sonic_id

unfoldable pub create_key : Mode → Target → Option (List ℕ)
create_key normal t = t.cache_path
create_key single t = t.unescaped_name
create_key sonic t = some t.sonic_id

-- The files that `Cache_delete` removes. It gives the reference to the table back on every way.
unfoldable pub delete_key : Mode → Target → Option (List ℕ)
delete_key normal t = elim t.link [ none ↦ none | some link ↦ t.cache_path ]
delete_key single t = some t.fn
delete_key sonic t = elim t.link [ none ↦ none | some link ↦ some t.sonic_id ]

unfoldable pub cache_delete : Mode → Target → Fs → Fs
unfolding delete_key
cache_delete mode t fs = elim (delete_key mode t) [ none ↦ fs | some fn ↦ remove_pair fs fn ]

-- the cache that `Cache_alloc` and the lines behind it set up; `seg` is still NULL in Cache_open
abbrev pub blank : Link → Cache
blank link = record {
  dfp = none;
  mfp = none;
  link = some link;
  blksz = pos 0;
  segbc = pos 0;
  seg = [];
}

unfoldable pub fresh_cache : Link → ℕ → Cache
fresh_cache link blksz = record (blank link) {
  blksz = pos blksz;
  segbc = pos (segments link.content_length blksz);
  seg = replicate (segments link.content_length blksz) 0;
}

unfoldable pub create_data : Fs → List ℕ → Link → Run (Bool × Fs)
create_data fs fn link =
    data_create fs fn (some link)
    >>= (λ fs1. cache_exist fs1 fn >>= (λ r. if r.0 then fatal else ok r))

-- Behind a `Meta_open` that fails, the cache is used after it was freed.
unfoldable pub write_meta : Fs → List ℕ → Link → Cache → Option File → Run (Bool × Fs)
unfolding create_data
write_meta fs fn link cf none = fault
write_meta fs fn link cf (some fp) =
    let (written, cf') = meta_write (record cf { mfp = some fp }) in
    create_data (close_meta fs fn cf'.mfp) fn link

-- A block size of 0 is a division by zero.
unfoldable pub create_files : Fs → List ℕ → Link → ℕ → Run (Bool × Fs)
unfolding fresh_cache write_meta
create_files fs fn link blksz =
    if blksz == 0
    then fault
    else (meta_create fs fn >>= (λ fs1.
        write_meta fs1 fn link (fresh_cache link blksz) (open_existing fs1 (fs1.pair fn).meta)))

-- `true` is the result 1
unfoldable pub cache_create : Mode → Target → ℕ → Fs → Run (Bool × Fs)
unfolding create_key create_files
cache_create mode t blksz fs = elim t.link [
  | none ↦ ok (true, fs)
  | some link ↦ if link.content_length == 0 then ok (true, fs) else elim (create_key mode t) [
    | none ↦ ok (true, fs)
    | some fn ↦ create_files fs fn link blksz
  ]
]

-- The tests of `Cache_open` behind a `Meta_read`; `none` is a cache that is not ok.
unfoldable pub open_data : Fs → List ℕ → Link → Errno × Cache → Option Cache
open_data fs fn link (enone, cf) = elim (data_size fs fn) [
  | none ↦ none
  | some size ↦
      if ltb size link.content_length then none else elim (open_existing fs (fs.pair fn).data') [
        | none ↦ none
        | some fp ↦ some (record cf { dfp = some fp })
      ]
]
open_data fs fn link (eio, cf) = none
open_data fs fn link (einval, cf) = none
open_data fs fn link (ebadmsg, cf) = none

unfoldable pub try_open : Fs → List ℕ → Link → Option Cache
unfolding open_data
try_open fs fn link = elim (open_existing fs (fs.pair fn).meta) [
  | none ↦ none
  | some fp ↦ open_data fs fn link (meta_read (record (blank link) { mfp = some fp }))
]

-- what an attempt does about files that are missing; `true` is a failure
unfoldable pub ensure_files : Mode → Target → ℕ → List ℕ → Fs → Run (Bool × Fs)
unfolding cache_delete cache_create
ensure_files mode t blksz fn fs =
    cache_exist fs fn
    >>= (λ r. if r.0 then cache_create mode t blksz (cache_delete mode t r.1) else ok r)

-- the attempts that are left; the streams that an attempt opened have written nothing
unfoldable pub open_loop : ℕ → Mode → Target → ℕ → List ℕ → Link → Fs → Run (Option Cache × Fs)
unfolding ensure_files try_open
open_loop zero mode t blksz fn link fs = ok (none, fs)
open_loop (suc attempts) mode t blksz fn link fs = ensure_files mode t blksz fn fs >>= (λ r.
    let rest = open_loop attempts mode t blksz fn link (cache_delete mode t r.1) in
    if r.0
    then ok (none, r.1)
    else elim (try_open r.1 fn link) [ none ↦ rest | some cf ↦ ok (some cf, r.1) ])

-- the end of `Cache_open`: the reference stays with an open cache
unfoldable pub keep_cache : Store → List ℕ → Option Cache × Fs → Option OpenCache × Store
keep_cache s fn (none, fs) = (none, record s { fs = fs })
keep_cache s fn (some cf, fs) =
    let c : OpenCache = record { cf = cf; path = fn; cache_opened = pos 1 } in
    (some c, record s { fs = fs; cache_ptr = some c; refs = s.refs +ℤ pos 1 })

unfoldable pub open_files : Mode → Target → ℕ → Link → Store → Run (Option OpenCache × Store)
unfolding open_key open_loop keep_cache
open_files mode t blksz link s = elim (open_key mode t) [
  | none ↦ ok (none, s)
  | some fn ↦
      if link.content_length == 0
      then ok (none, s)
      else (open_loop 2 mode t blksz fn link s.fs >>= (λ r. ok (keep_cache s fn r)))
]

unfoldable pub cache_open : Mode → Target → ℕ → Store → Run (Option OpenCache × Store)
unfolding open_files
cache_open mode t blksz s = elim t.link [
  | none ↦ ok (none, s)
  | some link ↦ elim s.cache_ptr [
    | none ↦ open_files mode t blksz link s
    | some c ↦
        let c' : OpenCache = record c { cache_opened = c.cache_opened +ℤ pos 1 } in
        ok (some c', record s { cache_ptr = some c' })
  ]
]

-- Meta_write and the two fclose
unfoldable pub flush_cache : Fs → List ℕ → Cache → Fs
flush_cache fs fn cf = elim cf.mfp [
  | none ↦ close_data fs fn cf.dfp
  | some fp ↦ close_data (close_meta fs fn (meta_write cf).1.mfp) fn cf.dfp
]

-- `Cache_close` on the cache at `link->cache_ptr`. The wait for the background workers is over.
unfoldable pub cache_close : Store → Run Store
unfolding flush_cache
cache_close s = elim s.cache_ptr [
  | none ↦ fault
  | some c ↦
      if ltb_ℤ (pos 0) (c.cache_opened -ℤ pos 1)
      then ok (record s { cache_ptr = some (record c { cache_opened = c.cache_opened -ℤ pos 1 }) })
      else ok
          (record s { fs = flush_cache s.fs c.path c.cf; cache_ptr = none; refs = s.refs -ℤ pos 1 })
]
