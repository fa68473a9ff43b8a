-- ===== src/Cache/Meta/Roundtrip.antt =====
-- What `Meta_write` stores, `Meta_read` gives back.
use mathlib.Core.List.{append_assoc}
use httpdirfs.Prelude.{
  ℕ, ◌≡◌, refl, sym, ap, ◌∙◌, List, [], ◌++◌, Bool, true, false, not, some, arith, length, drop,
}
use mathlib.Core.Option.{some-injective}
use httpdirfs.Prelude.Int.{pos}
use httpdirfs.Cache.Stdio.{File, fseek, fwrite_int}
use httpdirfs.Cache.Stdio.Sequential.{Reading, Written, fwrite-Written, coded}
use httpdirfs.Cache.State.{Link, Cache, enone}
use httpdirfs.Cache.Meta.{
  expected_segbc, write_all, meta_write_link, meta_write, meta_read_link, meta_read,
}
use httpdirfs.Cache.Meta.Header.{Fits, image, meta_read_link-image}

write_all-Written :
    (old : List ℕ) (cf : Cache) (link : Link) (b : ℕ) (fp : File)
    → cf.blksz ≡ pos b
    → cf.segbc ≡ pos (length cf.seg)
    → Written old [] fp
    → Written old
        (((([] ++ coded 8 link.time) ++ coded 8 (pos link.content_length)) ++ coded 4 (pos b))
          ++ coded 8 (pos (length cf.seg))
          ++ cf.seg)
        (write_all cf link fp)
unfolding write_all fwrite_int
write_all-Written old cf link b fp hb hs w =
    rw (← hb, ← hs)
      (fwrite-Written old _ cf.seg _ (
        fwrite-Written old _ (coded 8 cf.segbc) _ (
          fwrite-Written old _ (coded 4 cf.blksz) _ (
            fwrite-Written old _ (coded 8 (pos link.content_length)) _
              (fwrite-Written old [] (coded 8 link.time) fp w)))))

-- A cache that may be written: its stream works, and its fields describe its link.
pub record Writable (cf : Cache) (link : Link) (b : ℕ) (fp : File) : Type 0 where
  pub stream : cf.mfp ≡ some fp
  pub linked : cf.link ≡ some link
  pub block : cf.blksz ≡ pos b
  pub count : cf.segbc ≡ pos (length cf.seg)
  pub fits : Fits link b cf.seg
  pub seekable : fp.seekable ≡ true
  pub healthy : fp.healthy ≡ true
  pub error : fp.error ≡ false

abbrev rewound : File → File
rewound fp = record fp { position = 0; eof = false }

-- The way to the tests of `Meta_write` on its link.
meta_write-link :
    (cf : Cache) (link : Link) (fp : File)
    → cf.mfp ≡ some fp
    → cf.link ≡ some link
    → fp.seekable ≡ true
    → meta_write cf ≡ meta_write_link cf link (rewound fp)
unfolding meta_write fseek
meta_write-link cf link fp stream linked seekable = ground arith

meta_read-link :
    (cf : Cache) (link : Link) (fp : File)
    → cf.mfp ≡ some fp
    → cf.link ≡ some link
    → fp.seekable ≡ true
    → meta_read cf ≡ meta_read_link cf (some link) (rewound fp)
unfolding meta_read fseek
meta_read-link cf link fp stream linked seekable = ground arith

write_passes :
    (cf : Cache) (link : Link) (b : ℕ) (fp : File)
    → cf.blksz ≡ pos b
    → cf.segbc ≡ pos (length cf.seg)
    → Fits link b cf.seg
    → meta_write_link cf link fp
      ≡ (not (write_all cf link fp).error, record cf { mfp = some (write_all cf link fp) })
unfolding meta_write_link expected_segbc
write_passes cf link b fp hb hs f =
    let positive = f.positive in
    let block = f.block in
    let no_overflow = f.no_overflow in
    let count = f.count in let some_segment = f.some_segment in ground arith

module _ (cf : Cache) (link : Link) (b : ℕ) (fp : File) (w : Writable cf link b fp) where
  abbrev pub stored : File
  stored = write_all cf link (rewound fp)

  pub stored-Written :
      Written fp.bytes
        (((([] ++ coded 8 link.time) ++ coded 8 (pos link.content_length)) ++ coded 4 (pos b))
          ++ coded 8 (pos (length cf.seg))
          ++ cf.seg)
        stored
  stored-Written =
      write_all-Written fp.bytes cf link b (rewound fp) w.block w.count
        (record { bytes = refl; position = refl; healthy = w.healthy; error = w.error })

  -- `Meta_write` passes its tests and the writes succeed.
  pub meta_write-stored : meta_write cf ≡ (true, record cf { mfp = some stored })
  meta_write-stored =
      meta_write-link cf link fp w.stream w.linked w.seekable
      ∙ write_passes cf link b (rewound fp) w.block w.count w.fits
      ∙ ap (λ e. (not e, record cf { mfp = some stored })) stored-Written.error

  abbrev after_header : List ℕ
  after_header =
      drop
        (length (
          ((([] ++ coded 8 link.time) ++ coded 8 (pos link.content_length)) ++ coded 4 (pos b))
          ++ coded 8 (pos (length cf.seg))
          ++ cf.seg))
        fp.bytes

  stored-Reading : Reading [] (image link b cf.seg w.fits after_header) (rewound stored)
  stored-Reading = record {
    bytes = stored-Written.bytes ∙ simp append_assoc;
    position = refl;
    healthy = stored-Written.healthy;
    error = stored-Written.error;
    eof = refl;
  }

-- A cache opened on a file: its stream works and is on these bytes.
pub record Opened (cf : Cache) (link : Link) (fp : File) (content : List ℕ) : Type 0 where
  pub stream : cf.mfp ≡ some fp
  pub linked : cf.link ≡ some link
  pub bytes : fp.bytes ≡ content
  pub seekable : fp.seekable ≡ true
  pub healthy : fp.healthy ≡ true
  pub error : fp.error ≡ false

pub read_back :
    (cf : Cache) (link : Link) (b : ℕ) (fp : File) (w : Writable cf link b fp) (reader : Cache)
    (again : File)
    → Opened reader link again (stored cf link b fp w).bytes
    → (fp' : File) × (meta_read reader ≡ (
      enone,
      record reader { blksz = pos b; segbc = pos (length cf.seg); seg = cf.seg; mfp = some fp' },
    ))
read_back cf link b fp w reader again o =
    let start = stored-Reading cf link b fp w in
    let (fp', run) =
      meta_read_link-image link b cf.seg w.fits (after_header cf link b fp w) reader (rewound again)
        (record {
          bytes = o.bytes ∙ start.bytes;
          position = refl;
          healthy = o.healthy;
          error = o.error;
          eof = refl;
        }) in
    (fp', meta_read-link reader link again o.stream o.linked o.seekable ∙ run)

-- `Meta_write` of a cache whose fields describe its link succeeds on a working stream, and
-- `Meta_read` of any cache for the same link, opened on the bytes that were written, succeeds and
-- gets the block size, the number of segments and the mark of every segment back.
pub meta_read-meta_write :
    (cf : Cache) (link : Link) (b : ℕ) (fp : File)
    → Writable cf link b fp
    → ((meta_write cf).0 ≡ true)
      × ((reader : Cache) (out again : File)
          → (meta_write cf).1.mfp ≡ some out
          → Opened reader link again out.bytes
          → (fp' : File) × (meta_read reader ≡ (
            enone,
            record reader { blksz = cf.blksz; segbc = cf.segbc; seg = cf.seg; mfp = some fp' },
          )))
meta_read-meta_write cf link b fp w = (
  ap (λ (r : Bool × Cache). r.0) (meta_write-stored cf link b fp w),
  λ reader out again e o.
      let out_stored : out ≡ stored cf link b fp w =
        some-injective out (stored cf link b fp w)
          (sym e ∙ ap (λ (r : Bool × Cache). r.1.mfp) (meta_write-stored cf link b fp w)) in
      let (fp', run) = read_back cf link b fp w reader again (record {
        stream = o.stream;
        linked = o.linked;
        bytes = o.bytes ∙ ap (λ (f : File). f.bytes) out_stored;
        seekable = o.seekable;
        healthy = o.healthy;
        error = o.error;
      }) in
      (
        fp',
        run
            ∙ ap
                (λ k. (
                  enone,
                  record reader {
                    blksz = k;
                    segbc = pos (length cf.seg);
                    seg = cf.seg;
                    mfp = some fp';
                  },
                ))
                (sym w.block)
            ∙ ap
                (λ n. (
                  enone,
                  record reader { blksz = cf.blksz; segbc = n; seg = cf.seg; mfp = some fp' },
                ))
                (sym w.count),
      ),
)
