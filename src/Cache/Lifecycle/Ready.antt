-- ===== src/Cache/Lifecycle/Ready.antt =====
-- An attempt of `Cache_open` that succeeds has a cache that is ready.
use httpdirfs.Prelude.{
  ℕ, ◌≤◌, ◌≡◌, refl, sym, ap, ◌∙◌, List, true, Option, none, some, ltb, length, arith, Bool-cases,
  Option-cases, inl, inr,
}
use mathlib.Core.Option.{some-injective}
use mathlib.Core.Path.{subst}
use httpdirfs.Prelude.Int.{ℤ}
use httpdirfs.Cache.Stdio.{File, fseek, fread_int}
use httpdirfs.Cache.State.{Link, Cache, Errno, enone, eio, einval, ebadmsg}
use httpdirfs.Cache.Meta.{
  read_segments, check_header, read_segbc, read_blksz, read_length, read_time, meta_read_link,
  meta_read,
}
use httpdirfs.Cache.Meta.Geometry.{IsLaidOut, meta_read-IsLaidOut}
use httpdirfs.Cache.Data.Bytes.{IsOpen}
use httpdirfs.Cache.Files.{Fs, opened_file, open_existing, data_size}
use httpdirfs.Cache.Lifecycle.{blank, open_data, try_open}
use httpdirfs.Cache.Lifecycle.Creating.{IsWorking, open_data-long}

-- No way through `Meta_read` changes the link.
read_segments-link : (cf : Cache) (n : ℕ) (fp : File) → (read_segments cf n fp).1.link ≡ cf.link
unfolding read_segments
read_segments-link cf n fp = ground arith

check_header-link :
    (cf : Cache) (link : Link) (time len : ℤ) (fp : File)
    → (check_header cf link time len fp).1.link ≡ cf.link
unfolding check_header read_segments
check_header-link cf link time len fp = ground arith

read_segbc-link :
    (cf : Cache) (link : Link) (time len : ℤ) (p : Option ℤ × File)
    → (read_segbc cf link time len p).1.link ≡ cf.link
unfolding read_segbc
read_segbc-link cf link time len (none, fp) = refl
read_segbc-link cf link time len (some n, fp) =
    ground (arith, check_header-link (record cf { segbc = n }) link time len fp)

read_blksz-link :
    (cf : Cache) (link : Link) (time len : ℤ) (p : Option ℤ × File)
    → (read_blksz cf link time len p).1.link ≡ cf.link
unfolding read_blksz
read_blksz-link cf link time len (none, fp) = refl
read_blksz-link cf link time len (some b, fp) =
    read_segbc-link (record cf { blksz = b }) link time len (fread_int 8 fp)

read_length-link :
    (cf : Cache) (link : Link) (time : ℤ) (p : Option ℤ × File)
    → (read_length cf link time p).1.link ≡ cf.link
unfolding read_length
read_length-link cf link time (none, fp) = refl
read_length-link cf link time (some len, fp) = read_blksz-link cf link time len (fread_int 4 fp)

read_time-link :
    (cf : Cache) (link : Link) (p : Option ℤ × File) → (read_time cf link p).1.link ≡ cf.link
unfolding read_time
read_time-link cf link (none, fp) = refl
read_time-link cf link (some time, fp) = read_length-link cf link time (fread_int 8 fp)

meta_read_link-link :
    (cf : Cache) (l : Option Link) (fp : File) → (meta_read_link cf l fp).1.link ≡ cf.link
unfolding meta_read_link
meta_read_link-link cf none fp = refl
meta_read_link-link cf (some link) fp = read_time-link cf link (fread_int 8 fp)

meta_read-link_kept : (cf : Cache) → (meta_read cf).1.link ≡ cf.link
unfolding meta_read
meta_read-link_kept cf = elim (Option-cases cf.mfp) [
  | inl e ↦ rw (meta_read, e) refl
  | inr (fp, e) ↦ elim (Option-cases (fseek 0 fp)) [
    | inl f ↦ rw (meta_read, e, f) refl
    | inr (start, f) ↦ rw (meta_read, e, f) (meta_read_link-link cf cf.link start)
  ]
]

-- The cache is laid out for the link, and a stream that works is on data as long as the link says.
pub record IsReady (cf : Cache) (link : Link) : Type 0 where
  pub linked : cf.link ≡ some link
  pub laid_out : IsLaidOut cf link
  pub fp : File
  pub opened : IsOpen cf fp
  pub enough : link.content_length ≤ length fp.bytes

-- the cache with its data opened
ready :
    (fs : Fs) (link : Link) (cf : Cache) (data' : List ℕ)
    → IsWorking fs
    → IsLaidOut cf link
    → cf.link ≡ some link
    → link.content_length ≤ length data'
    → IsReady (record cf { dfp = some (opened_file fs data') }) link
ready fs link cf data' k l linked enough = record {
  linked = linked;
  laid_out = record {
    b = l.b;
    block = l.block;
    positive = l.positive;
    count = l.count;
    marks = l.marks;
    some_mark = l.some_mark;
  };
  fp = opened_file fs data';
  opened = record { stream = refl; seekable = k.seeks; healthy = k.transfers };
  enough = enough;
}

open_data-none :
    (fs : Fs) (fn : List ℕ) (link : Link) (cf : Cache)
    → (fs.pair fn).data' ≡ none
    → open_data fs fn link (enone, cf) ≡ none
unfolding open_data data_size
open_data-none fs fn link cf e = rw (open_data, e) refl

open_data-short :
    (fs : Fs) (fn : List ℕ) (link : Link) (cf : Cache) (data' : List ℕ)
    → (fs.pair fn).data' ≡ some data'
    → ltb (length data') link.content_length ≡ true
    → open_data fs fn link (enone, cf) ≡ none
unfolding open_data data_size
open_data-short fs fn link cf data' e short = rw (open_data, e, short) refl

open_data-IsReady :
    (fs : Fs) (fn : List ℕ) (link : Link) (r : Errno × Cache) (cf : Cache)
    → IsWorking fs
    → (r.0 ≡ enone → IsLaidOut r.1 link)
    → r.1.link ≡ some link
    → open_data fs fn link r ≡ some cf
    → IsReady cf link
unfolding open_data
open_data-IsReady fs fn link (enone, c) cf k l linked h = elim (Option-cases (fs.pair fn).data') [
  | inl e ↦ absurd (cc (h, open_data-none fs fn link c e))
  | inr (data', e) ↦ elim (Bool-cases (ltb (length data') link.content_length)) [
    | inl short ↦ absurd (cc (h, open_data-short fs fn link c data' e short))
    | inr long ↦
        let enough : link.content_length ≤ length data' = ground (arith, long) in
        subst (λ (x : Cache). IsReady x link)
          (some-injective (record c { dfp = some (opened_file fs data') }) cf
            (sym (open_data-long fs fn link c data' k.opens e enough) ∙ h))
          (ready fs link c data' k (l refl) linked enough)
  ]
]
open_data-IsReady fs fn link (eio, c) cf k l linked h = cc
open_data-IsReady fs fn link (einval, c) cf k l linked h = cc
open_data-IsReady fs fn link (ebadmsg, c) cf k l linked h = cc

try_open-none :
    (fs : Fs) (fn : List ℕ) (link : Link)
    → open_existing fs (fs.pair fn).meta ≡ none
    → try_open fs fn link ≡ none
unfolding try_open
try_open-none fs fn link e = rw (try_open, e) refl

try_open-some :
    (fs : Fs) (fn : List ℕ) (link : Link) (fp : File)
    → open_existing fs (fs.pair fn).meta ≡ some fp
    → try_open fs fn link ≡ open_data fs fn link (meta_read (record (blank link) { mfp = some fp }))
unfolding try_open
try_open-some fs fn link fp e = rw (try_open, e) refl

-- an attempt that opens the files
pub try_open-IsReady :
    (fs : Fs) (fn : List ℕ) (link : Link) (cf : Cache)
    → IsWorking fs
    → try_open fs fn link ≡ some cf
    → IsReady cf link
try_open-IsReady fs fn link cf k h = elim (Option-cases (open_existing fs (fs.pair fn).meta)) [
  | inl e ↦ absurd (cc (h, try_open-none fs fn link e))
  | inr (fp, e) ↦
      let c : Cache = record (blank link) { mfp = some fp } in
      open_data-IsReady fs fn link (meta_read c) cf k
        (λ e. meta_read-IsLaidOut c (meta_read c).1 link refl (ap (λ n. (n, (meta_read c).1)) e))
        (meta_read-link_kept c) (sym (try_open-some fs fn link fp e) ∙ h)
]
