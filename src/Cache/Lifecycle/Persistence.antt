-- ===== src/Cache/Lifecycle/Persistence.antt =====
-- The marks of a cache still agree with the server after it was closed and opened again.
use mathlib.Core.Option.{some-injective}
use httpdirfs.Prelude.{ℕ, ◌/◌, ◌≡◌, sym, ap, ◌∙◌, List, Option, some, get_or, length, arith}
use httpdirfs.Prelude.Int.{pos}
use httpdirfs.Prelude.Run.{Returns}
use httpdirfs.Cache.Stdio.{File}
use httpdirfs.Cache.State.{Link}
use httpdirfs.Cache.Files.{opened_file}
use httpdirfs.Cache.Lifecycle.{Mode, Target, OpenCache, Store, cache_open, cache_close}
use httpdirfs.Cache.Lifecycle.Creating.{IsWorking}
use httpdirfs.Cache.Lifecycle.Opening.{Names}
use httpdirfs.Cache.Lifecycle.Reopening.{IsKept, IsReopened, cache_open-cache_close}
use httpdirfs.Cache.Segments.Blocks.{IsIntact}

-- an open cache that is intact
abbrev pub OpenIntact : (ℕ → ℕ) → Link → ℕ → Option OpenCache × Store → Type 0
OpenIntact content link b r = (c : OpenCache) × (r.0 ≡ some c) × IsIntact content link b c.cf

IsReopened-OpenIntact :
    (content : ℕ → ℕ) (link : Link) (b : ℕ) (s : Store) (c : OpenCache) (fn : List ℕ)
    (fp dfp : File) (r : Option OpenCache × Store)
    → IsIntact content link b c.cf
    → IsKept c fn link b fp dfp
    → IsReopened s c dfp r
    → OpenIntact content link b r
IsReopened-OpenIntact content link b s c fn fp dfp r k kept
      (c', e, at, eb, ec, em, ed, er, el, works) =
    let same : k.fp ≡ dfp = some-injective k.fp dfp (sym k.opened.stream ∙ kept.data_stream) in
    (
      c',
      e,
      record {
        linked = el ∙ k.linked;
        laid_out = record {
          b = k.laid_out.b;
          block = eb ∙ k.laid_out.block;
          positive = k.laid_out.positive;
          count = ec ∙ k.laid_out.count ∙ ap (λ (xs : List ℕ). pos (length xs)) (sym em);
          marks = ap length em ∙ k.laid_out.marks;
          some_mark = omega (arith, ap length em, k.laid_out.some_mark);
        };
        sized = k.sized;
        small = k.small;
        fp = opened_file r.1.fs dfp.bytes;
        opened = record { stream = ed; seekable = works.seeks; healthy = works.transfers };
        enough = kept.enough;
        stored = λ i inside marked.
            ap (λ (f : File). get_or f.bytes i 0) (sym same)
            ∙ k.stored i inside (omega (arith, marked, ap (λ xs. get_or xs (i / b) 0) em));
      },
    )

-- Let every call of the system succeed, and the paths under which the functions find the link be
-- the same. Let an open cache be opened once, with a healthy stream on its metadata that describes
-- the link, and a stream on data as long as the link says, and let every byte of a block that is
-- marked be that of the server. Then Cache_close succeeds, and Cache_open behind it opens a cache
-- of the same block size in which every byte of a block that is marked is still that of the server.
pub cache_open-OpenIntact :
    (content : ℕ → ℕ) (mode : Mode) (t : Target) (fn : List ℕ) (link : Link) (b : ℕ) (s : Store)
    (c : OpenCache) (fp dfp : File) (k : ℕ)
    → Names mode t fn link
    → IsWorking s.fs
    → s.cache_ptr ≡ some c
    → IsKept c fn link b fp dfp
    → IsIntact content link b c.cf
    → Returns (cache_close s) (λ s1. Returns (cache_open mode t k s1) (OpenIntact content link b))
cache_open-OpenIntact content mode t fn link b s c fp dfp k n works e kept intact =
    let (s1, closes, (none_left, (r, opens, again))) =
      cache_open-cache_close mode t fn link b s c fp dfp k n works e kept in
    (s1, closes, (r, opens, IsReopened-OpenIntact content link b s c fn fp dfp r intact kept again))
