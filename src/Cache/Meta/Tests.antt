-- ===== src/Cache/Meta/Tests.antt =====
-- `Meta_write` and `Meta_read` run on a file of three segments, and their theorems there.
use httpdirfs.Prelude.{◌+◌, ◌*◌, ◌<◌, ◌≤◌, ◌≡◌, refl, [], ◌∷◌, true, false, none, some, arith}
use httpdirfs.Prelude.Int.{pos, negsuc}
use httpdirfs.Cache.Words.{to_bytes, of_bytes, pattern_of, signed}
use httpdirfs.Cache.Stdio.{File, fseek, fread, fread_int, fwrite, fwrite_int, overwrite, zeros}
use httpdirfs.Cache.State.{Link, Cache, enone, eio}
use httpdirfs.Cache.Meta.{
  segments, fill_seg, read_segments, check_header, read_segbc, read_blksz, read_length, read_time,
  meta_read_link, meta_read, expected_segbc, write_all, meta_write_link, meta_write,
}
use httpdirfs.Cache.Meta.Header.{Fits}
use httpdirfs.Cache.Meta.Roundtrip.{Writable, Opened, meta_read-meta_write}
use httpdirfs.Cache.Meta.Geometry.{IsLaidOut, meta_read-IsLaidOut, segments-cover}

abbrev sample_link : Link
sample_link = record { content_length = 2500; time = negsuc 0 }

abbrev empty_file : File
empty_file = record {
  bytes = [];
  position = 0;
  eof = false;
  error = false;
  seekable = true;
  healthy = true;
}

abbrev sample : Cache
sample = record {
  dfp = none;
  mfp = some empty_file;
  link = some sample_link;
  blksz = pos 1024;
  segbc = pos 3;
  seg = 1 ∷ 0 ∷ 1 ∷ [];
}

abbrev written : Cache
written = (meta_write sample).1

abbrev unread : Cache
unread = record written { blksz = pos 0; segbc = pos 0; seg = [] }

program : Unit {0}
unfolding segments fill_seg read_segments check_header read_segbc read_blksz read_length read_time
    meta_read_link meta_read expected_segbc write_all meta_write_link meta_write fseek fread
    fread_int fwrite fwrite_int overwrite zeros to_bytes of_bytes pattern_of signed
program = tt

reads_back : (meta_read unread).1.seg ≡ 1 ∷ 0 ∷ 1 ∷ []
unfolding program
reads_back = refl

reads_ok : (meta_read unread).0 ≡ enone
unfolding program
reads_ok = refl

-- an empty metadata file is no header
empty_refused : (meta_read sample).0 ≡ eio
unfolding program
empty_refused = refl

sample-Fits : Fits sample_link 1024 (1 ∷ 0 ∷ 1 ∷ [])
unfolding segments
sample-Fits = omega arith

sample-Writable : Writable sample sample_link 1024 empty_file
sample-Writable = record {
  stream = refl;
  linked = refl;
  block = refl;
  count = refl;
  fits = sample-Fits;
  seekable = refl;
  healthy = refl;
  error = refl;
}

meta_read-meta_write_example :
    ((meta_write sample).0 ≡ true)
    × ((reader : Cache) (out again : File)
        → (meta_write sample).1.mfp ≡ some out
        → Opened reader sample_link again out.bytes
        → (fp' : File) × (meta_read reader ≡ (
          enone,
          record reader {
            blksz = sample.blksz;
            segbc = sample.segbc;
            seg = sample.seg;
            mfp = some fp';
          },
        )))
meta_read-meta_write_example =
    meta_read-meta_write sample sample_link 1024 empty_file sample-Writable

unread_succeeds : meta_read unread ≡ (enone, (meta_read unread).1)
unfolding program
unread_succeeds = refl

unread-linked : unread.link ≡ some sample_link
unfolding program
unread-linked = refl

meta_read-IsLaidOut_example : IsLaidOut (meta_read unread).1 sample_link
meta_read-IsLaidOut_example =
    meta_read-IsLaidOut unread (meta_read unread).1 sample_link unread-linked unread_succeeds

segments-cover_example :
    (2500 ≤ segments 2500 1024 * 1024) × (segments 2500 1024 * 1024 < 2500 + 1024)
segments-cover_example = segments-cover 2500 1024 (omega arith) (omega arith)
