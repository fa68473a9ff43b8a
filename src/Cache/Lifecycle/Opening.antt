-- ===== src/Cache/Lifecycle/Opening.antt =====
-- `Cache_open` on a file system that works, whatever is in the files.
use httpdirfs.Prelude.{
  ℕ, suc, ◌≡◌, refl, ap, ◌∙◌, List, Bool, true, false, Option, none, some, ◌==◌, if◌then◌else◌,
  length, arith, Bool-cases, Option-cases, inl, inr,
}
use httpdirfs.Prelude.Int.{pos, ◌+ℤ◌}
use httpdirfs.Prelude.Run.{ok, Returns, Returns-bind, ◌>>=◌}
use httpdirfs.Cache.State.{Link, Cache}
use httpdirfs.Cache.Meta.Header.{Fits}
use httpdirfs.Cache.Files.{
  Pair, Fs, put_pair, opened_file, is_present, cache_exist, remove_pair, unlinked,
}
use httpdirfs.Cache.Lifecycle.{
  Mode, normal, single, sonic, Target, OpenCache, Store, blank, open_key, create_key, delete_key,
  cache_delete, create_files, cache_create, try_open, ensure_files, open_loop, keep_cache,
  open_files, cache_open,
}
use httpdirfs.Cache.Lifecycle.Creating.{
  IsWorking, pair-put_pair, put_pair-IsWorking, try_open-IsStored, no_marks, Created,
  create_files-Created,
}
use httpdirfs.Cache.Lifecycle.Ready.{IsReady, try_open-IsReady}

pub remove_pair-IsWorking : (fs : Fs) (fn : List ℕ) → IsWorking fs → IsWorking (remove_pair fs fn)
unfolding remove_pair
remove_pair-IsWorking fs fn k = put_pair-IsWorking fs fn _ k

cache_exist-IsWorking :
    (fs : Fs) (fn : List ℕ) → IsWorking fs → Returns (cache_exist fs fn) (λ r. IsWorking r.1)
unfolding cache_exist
cache_exist-IsWorking fs fn k =
    let p = fs.pair fn in
    elim (Bool-cases (is_present p.meta)) [
      | inl m ↦ elim (Bool-cases (is_present p.data')) [
        | inl d ↦ ((false, fs), rw (cache_exist, m, d) refl, k)
        | inr d ↦
            let p' : Pair = record p { meta = none } in
            (
              (true, put_pair fs fn p'),
              rw (cache_exist, m, d, k.unlinks) refl,
              put_pair-IsWorking fs fn p' k,
            )
      ]
      | inr m ↦ elim (Bool-cases (is_present p.data')) [
        | inl d ↦
            let p' : Pair = record p { data' = none } in
            (
              (true, put_pair fs fn p'),
              rw (cache_exist, m, d, k.unlinks) refl,
              put_pair-IsWorking fs fn p' k,
            )
        | inr d ↦ ((true, fs), rw (cache_exist, m, d) refl, k)
      ]
    ]

-- `Cache_exist` behind `Cache_delete`
cache_exist-removed :
    (fs : Fs) (fn : List ℕ)
    → IsWorking fs
    → cache_exist (remove_pair fs fn) fn ≡ ok (true, remove_pair fs fn)
unfolding cache_exist remove_pair unlinked is_present
cache_exist-removed fs fn k =
    let gone : (remove_pair fs fn).pair fn ≡ record { meta = none; data' = none } =
      pair-put_pair fs fn _ ∙ (rw k.unlinks refl) in
    rw (cache_exist, gone) refl

-- what the functions find for the link, under one name
pub record Names (mode : Mode) (t : Target) (fn : List ℕ) (link : Link) : Type 0 where
  pub found : t.link ≡ some link
  pub opened : open_key mode t ≡ some fn
  pub created : create_key mode t ≡ some fn

delete_key-found :
    (mode : Mode) (t : Target) (fn : List ℕ) (link : Link)
    → Names mode t fn link
    → delete_key mode t ≡ some fn
unfolding delete_key open_key
delete_key-found normal t fn link n = rw (n.found, n.opened) refl
delete_key-found single t fn link n = n.opened
delete_key-found sonic t fn link n = rw n.found n.opened

module _ (mode : Mode) (t : Target) (fn : List ℕ) (link : Link) (b : ℕ) (n : Names mode t fn link)
    (f : Fits link b (no_marks link b)) where
  cache_delete-found : (fs : Fs) → cache_delete mode t fs ≡ remove_pair fs fn
  unfolding cache_delete
  cache_delete-found fs = rw (cache_delete, delete_key-found mode t fn link n) refl

  cache_create-Created :
      (fs : Fs) → IsWorking fs → Returns (cache_create mode t b fs) (Created fs fn link b)
  unfolding cache_create
  cache_create-Created fs k =
      let some_bytes : (link.content_length == 0) ≡ false = ground (arith, f.positive) in
      let (r, run, made) = create_files-Created fs fn link b k f in
      let step : cache_create mode t b fs ≡ create_files fs fn link b =
        simp (cache_create, n.found, some_bytes, n.created) in
      (r, step ∙ run, made)

  ensure_files-IsWorking :
      (fs : Fs)
      → IsWorking fs
      → Returns (ensure_files mode t b fn fs) (λ r. (r.0 ≡ false) × IsWorking r.1)
  unfolding ensure_files
  ensure_files-IsWorking fs k = Returns-bind (cache_exist-IsWorking fs fn k) (λ r k1. missing r k1)
    where
      missing :
          (r : Bool × Fs)
          → IsWorking r.1
          → Returns
              (if r.0 then cache_create mode t b (cache_delete mode t r.1) else ok r)
              (λ r. (r.0 ≡ false) × IsWorking r.1)
      missing (false, fs1) k1 = ((false, fs1), refl, (refl, k1))
      missing (true, fs1) k1 =
          let (r, run, made) =
            cache_create-Created (remove_pair fs1 fn) (remove_pair-IsWorking fs1 fn k1) in
          (r, rw (cache_delete-found fs1) run, (made.0, made.1.0))

  ensure_files-removed :
      (fs : Fs)
      → IsWorking fs
      → Returns
          (ensure_files mode t b fn (remove_pair fs fn))
          (Created (remove_pair fs fn) fn link b)
  unfolding ensure_files
  ensure_files-removed fs k =
      let fs1 : Fs = remove_pair fs fn in
      let k1 = remove_pair-IsWorking fs fn k in
      let (r, run, made) =
        cache_create-Created (remove_pair fs1 fn) (remove_pair-IsWorking fs1 fn k1) in
      (
        r,
        rw (ensure_files, cache_exist-removed fs fn k)
            (ap (cache_create mode t b) (cache_delete-found fs1) ∙ run),
        made,
      )

  -- one attempt
  module _ (attempts : ℕ) (fs fs1 : Fs)
      (there : ensure_files mode t b fn fs ≡ ok (false, fs1)) where
    loop-opened :
        (cf : Cache)
        → try_open fs1 fn link ≡ some cf
        → open_loop (suc attempts) mode t b fn link fs ≡ ok (some cf, fs1)
    unfolding open_loop
    loop-opened cf h = rw (open_loop, there, h) refl

    loop-again :
        try_open fs1 fn link ≡ none
        → open_loop (suc attempts) mode t b fn link fs
          ≡ open_loop attempts mode t b fn link (remove_pair fs1 fn)
    unfolding open_loop
    loop-again h =
        rw (open_loop, there, h) (ap (open_loop attempts mode t b fn link) (cache_delete-found fs1))

  -- an open cache that is ready, on a file system that works
  abbrev OpenedReady : Option Cache × Fs → Type 0
  OpenedReady r = (cf : Cache) × (r.0 ≡ some cf) × IsReady cf link × IsWorking r.1

  -- The attempt behind the deletion of the files opens new ones.
  loop-removed :
      (attempts : ℕ) (fs : Fs)
      → IsWorking fs
      → Returns (open_loop (suc attempts) mode t b fn link (remove_pair fs fn)) OpenedReady
  loop-removed attempts fs k =
      let (r, run, made) = ensure_files-removed fs k in
      let there : ensure_files mode t b fn (remove_pair fs fn) ≡ ok (false, r.1) =
        run ∙ ap (λ e. ok (e, r.1)) made.0 in
      let (fp', opens) =
        try_open-IsStored r.1 fn link b (no_marks link b) made.1.1.0 made.1.0 made.1.1.1 in
      let cf : Cache = record (blank link) {
        blksz = pos b;
        segbc = pos (length (no_marks link b));
        seg = no_marks link b;
        mfp = some fp';
        dfp = some (opened_file r.1 made.1.1.0);
      } in
      (
        (some cf, r.1),
        loop-opened attempts (remove_pair fs fn) r.1 there cf opens,
        (cf, refl, try_open-IsReady r.1 fn link cf made.1.0 opens, made.1.0),
      )

  open_loop-Ready : (fs : Fs) → IsWorking fs → Returns (open_loop 2 mode t b fn link fs) OpenedReady
  open_loop-Ready fs k =
      let (r, run, made) = ensure_files-IsWorking fs k in
      let there : ensure_files mode t b fn fs ≡ ok (false, r.1) =
        run ∙ ap (λ e. ok (e, r.1)) made.0 in
      elim (Option-cases (try_open r.1 fn link)) [
        | inl e ↦
            let (r', again, done) = loop-removed 0 r.1 made.1 in
            (r', loop-again 1 fs r.1 there e ∙ again, done)
        | inr (cf, e) ↦ (
          (some cf, r.1),
          loop-opened 1 fs r.1 there cf e,
          (cf, refl, try_open-IsReady r.1 fn link cf made.1 e, made.1),
        )
      ]

-- The cache of the link is open, once, and ready, and holds one more reference to the table.
abbrev pub IsOpened : List ℕ → Link → Store → Option OpenCache × Store → Type 0
IsOpened fn link s r =
    (c : OpenCache) × (r.0 ≡ some c)
    × (r.1.cache_ptr ≡ some c)
    × (c.path ≡ fn)
    × (c.cache_opened ≡ pos 1)
    × IsReady c.cf link
    × (r.1.refs ≡ s.refs +ℤ pos 1)
    × IsWorking r.1.fs

-- Let every call of the system succeed, and the paths under which `Cache_open`, `Cache_create` and
-- `Cache_delete` find the link be the same. Let the link be not open, its time a `long`, and its
-- length positive, with room for one more block below 2^63, in blocks of a positive `int`. Then
-- `Cache_open` opens the cache, whatever the files of the link hold and whether they are there or
-- not: the cache is laid out for the link, its data is as long as the link says, it is at
-- `link->cache_ptr` with the count of one opening, and one more reference to the table is taken.
pub cache_open-Opened :
    (mode : Mode) (t : Target) (fn : List ℕ) (link : Link) (b : ℕ) (s : Store)
    → Names mode t fn link
    → Fits link b (no_marks link b)
    → IsWorking s.fs
    → s.cache_ptr ≡ none
    → Returns (cache_open mode t b s) (IsOpened fn link s)
unfolding cache_open open_files keep_cache
cache_open-Opened mode t fn link b s n f k closed =
    let some_bytes : (link.content_length == 0) ≡ false = ground (arith, f.positive) in
    let ((o, fs), run, (cf, e, ready, k1)) = open_loop-Ready mode t fn link b n f s.fs k in
    let step : cache_open mode t b s
        ≡ (open_loop 2 mode t b fn link s.fs >>= (λ r. ok (keep_cache s fn r))) =
      simp (cache_open, open_files, n.found, closed, n.opened, some_bytes) in
    let c : OpenCache = record { cf = cf; path = fn; cache_opened = pos 1 } in
    let s' : Store = record s { fs = fs; cache_ptr = some c; refs = s.refs +ℤ pos 1 } in
    (
      (some c, s'),
      step
          ∙ ap (λ m. m >>= (λ r. ok (keep_cache s fn r))) run
          ∙ ap (λ (x : Option Cache). ok (keep_cache s fn (x, fs))) e,
      (c, refl, refl, refl, refl, ready, refl, k1),
    )
