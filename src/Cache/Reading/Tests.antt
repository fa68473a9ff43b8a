-- ===== src/Cache/Reading/Tests.antt =====
-- `Cache_read` of a file of five bytes in blocks of two, from a reader that serves every segment
-- by `Data_read`.
use httpdirfs.Prelude.{
  ℕ, ◌+◌, ◌-◌, ◌≡◌, refl, ap, ◌∙◌, List, [], ◌∷◌, true, false, none, some, arith, get_or, length,
  min,
}
use httpdirfs.Prelude.Int.{pos}
use httpdirfs.Prelude.Run.{ok, Returns, ◌>>=◌}
use httpdirfs.Cache.Stdio.{File, fseek, fread, overwrite, zeros}
use httpdirfs.Cache.State.{Cache, Link}
use httpdirfs.Cache.Data.{fseeko, read_stream, read_file, data_read}
use httpdirfs.Cache.Data.Bytes.{IsOpen, data_read-Fetched}
use httpdirfs.Cache.Reading.{SegmentReader, segment_len, read_blocks, read_range, cache_read}
use httpdirfs.Cache.Reading.Whole.{ReadsSegments, served, Ended, cache_read-Ended}

abbrev contents : List ℕ
contents = 11 ∷ 12 ∷ 13 ∷ 14 ∷ 15 ∷ []

abbrev file : File
file = record {
  bytes = contents;
  position = 0;
  eof = false;
  error = false;
  seekable = true;
  healthy = true;
}

abbrev link : Link
link = record { content_length = 5; time = pos 0 }

abbrev cache : Cache
cache = record {
  dfp = some file;
  mfp = none;
  link = some link;
  blksz = pos 2;
  segbc = pos 3;
  seg = 1 ∷ 1 ∷ 1 ∷ [];
}

-- all segments are in the data file
abbrev cached : SegmentReader ℕ
cached = record {
  read_segment = λ w cf len o.
      data_read cf len o
      >>= (λ d. ok (record { count = d.count; buf = d.buf; world = w; after = d.after }));
}

record IsCached (w : ℕ) (cf : Cache) : Type 0 where
  fp : File
  opened : IsOpen cf fp
  linked : cf.link ≡ some link
  holds : fp.bytes ≡ contents

cached-ReadsSegments : ReadsSegments cached IsCached (λ i. get_or contents i 0) 5 2
cached-ReadsSegments = record {
  serves = λ w cf n o valid some_bytes one_block inside.
      let r =
        data_read-Fetched cf valid.fp link n o valid.opened valid.linked (omega arith)
          (omega (arith, ap length valid.holds)) some_bytes (omega arith) in
      let all : min n (5 - o) ≡ n = omega arith in
      (
        record {
          count = pos (min n (5 - o));
          buf = r.buf;
          world = w;
          after = record cf { dfp = some r.fp' };
        },
        ap
            (λ d.
              d >>= (λ d. ok (record { count = d.count; buf = d.buf; world = w; after = d.after })))
            r.returns,
        (
          record {
            fp = r.fp';
            opened = r.served;
            linked = valid.linked;
            holds = r.kept ∙ valid.holds;
          },
          served (ap pos all) (r.size ∙ all) (λ i h.
              r.byte i (omega (arith, r.size, all)) ∙ ap (λ b. get_or b (o + i) 0) valid.holds),
        ),
      );
}

program : Unit {0}
unfolding cache_read read_range read_blocks segment_len overwrite zeros data_read read_file
    read_stream fseeko fseek fread
program = record {}

cache_read_clipped :
    cache_read cached 0 cache (pos 9) (pos 1)
    ≡ ok (record {
      count = pos 4;
      buf = 12 ∷ 13 ∷ 14 ∷ 15 ∷ [];
      world = 0;
      after = record cache { dfp = some (record file { position = 5 }) };
    })
unfolding program
cache_read_clipped = refl

cache_read-Ended_example :
    Returns
      (cache_read cached 0 cache (pos 9) (pos 1))
      (Ended IsCached (λ i. get_or contents i 0) 1 4)
cache_read-Ended_example =
    cache_read-Ended cached IsCached (λ i. get_or contents i 0) link 1 cached-ReadsSegments 0 cache
      9 1 refl refl
      (record {
        fp = file;
        opened = record { stream = refl; seekable = refl; healthy = refl };
        linked = refl;
        holds = refl;
      })
      (omega arith) (omega arith)
