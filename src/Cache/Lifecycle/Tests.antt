-- ===== src/Cache/Lifecycle/Tests.antt =====
-- A link of five bytes: its cache opened from broken files, closed and opened again.
use httpdirfs.Prelude.{
  ℕ, zero, suc, ◌+◌, ◌/◌, ◌<◌, ◌≤◌, ◌≡◌, refl, List, [], ◌∷◌, true, none, some, get_or, arith,
}
use httpdirfs.Prelude.Int.{pos}
use httpdirfs.Prelude.Run.{Returns}
use httpdirfs.Cache.State.{Link}
use httpdirfs.Cache.Meta.{segments}
use httpdirfs.Cache.Meta.Header.{Fits}
use httpdirfs.Cache.Files.{Fs, opened_file}
use httpdirfs.Cache.Lifecycle.{
  normal, Target, OpenCache, Store, open_key, create_key, cache_open, cache_close,
}
use httpdirfs.Cache.Lifecycle.Creating.{IsWorking, no_marks}
use httpdirfs.Cache.Lifecycle.Opening.{Names, IsOpened, cache_open-Opened}
use httpdirfs.Cache.Segments.Blocks.{IsIntact}
use httpdirfs.Cache.Lifecycle.Persistence.{OpenIntact, cache_open-OpenIntact}
use httpdirfs.Cache.Lifecycle.Reopening.{IsKept, IsReopened, cache_open-cache_close}

abbrev five : Link
five = record { content_length = 5; time = pos 7 }

abbrev key : List ℕ
key = 65 ∷ []

-- metadata that is no header, and two bytes of data
abbrev broken : Fs
broken = record {
  pair = λ name. record { meta = some (1 ∷ []); data' = some (2 ∷ 3 ∷ []) };
  opens = true;
  creates = true;
  unlinks = true;
  truncates = true;
  seeks = true;
  transfers = true;
}

abbrev target : Target
target = record {
  fn = 47 ∷ [];
  link = some five;
  cache_path = some key;
  unescaped_name = none;
  sonic_id = [];
}

abbrev closed : Store
closed = record { fs = broken; cache_ptr = none; refs = pos 0 }

abbrev half : OpenCache
half = record {
  cf = record {
    dfp = some (opened_file broken (1 ∷ 2 ∷ 0 ∷ 0 ∷ 0 ∷ []));
    mfp = some (opened_file broken []);
    link = some five;
    blksz = pos 2;
    segbc = pos 3;
    seg = 1 ∷ 0 ∷ 0 ∷ [];
  };
  path = key;
  cache_opened = pos 1;
}

abbrev half_open : Store
half_open = record { fs = broken; cache_ptr = some half; refs = pos 1 }

target-Names : Names normal target key five
unfolding open_key create_key
target-Names = record { found = refl; opened = refl; created = refl }

five-Fits : Fits five 2 (no_marks five 2)
unfolding segments
five-Fits = omega arith

half-Fits : Fits five 2 (1 ∷ 0 ∷ 0 ∷ [])
unfolding segments
half-Fits = omega arith

broken-IsWorking : IsWorking broken
broken-IsWorking = record {
  opens = refl;
  creates = refl;
  unlinks = refl;
  truncates = refl;
  seeks = refl;
  transfers = refl;
}

half-IsKept :
    IsKept half key five 2 (opened_file broken []) (opened_file broken (1 ∷ 2 ∷ 0 ∷ 0 ∷ 0 ∷ []))
half-IsKept = record {
  path = refl;
  last = refl;
  writable = record {
    stream = refl;
    linked = refl;
    block = refl;
    count = refl;
    fits = half-Fits;
    seekable = refl;
    healthy = refl;
    error = refl;
  };
  data_stream = refl;
  enough = omega arith;
}

-- The broken files are deleted, and the cache that is open has no marks yet.
cache_open-Opened_example : Returns (cache_open normal target 2 closed) (IsOpened key five closed)
cache_open-Opened_example =
    cache_open-Opened normal target key five 2 closed target-Names five-Fits broken-IsWorking refl

cache_open-cache_close_example : Returns (cache_close half_open) (λ s1.
    (s1.cache_ptr ≡ none)
    × Returns
        (cache_open normal target 1 s1)
        (IsReopened half_open half (opened_file broken (1 ∷ 2 ∷ 0 ∷ 0 ∷ 0 ∷ []))))
cache_open-cache_close_example =
    cache_open-cache_close normal target key five 2 half_open half (opened_file broken [])
      (opened_file broken (1 ∷ 2 ∷ 0 ∷ 0 ∷ 0 ∷ [])) 1 target-Names broken-IsWorking refl half-IsKept

abbrev content : ℕ → ℕ
content i = i + 1

half-IsIntact : IsIntact content five 2 half.cf
unfolding segments
half-IsIntact = record {
  linked = refl;
  laid_out = record {
    b = 2;
    block = refl;
    positive = omega arith;
    count = refl;
    marks = refl;
    some_mark = omega arith;
  };
  sized = refl;
  small = omega arith;
  fp = opened_file broken (1 ∷ 2 ∷ 0 ∷ 0 ∷ 0 ∷ []);
  opened = record { stream = refl; seekable = refl; healthy = refl };
  enough = omega arith;
  stored = λ i less m. stored i less m;
}
  where
    stored :
        (i : ℕ)
        → i < 5
        → 1 ≤ get_or half.cf.seg (i / 2) 0
        → get_or (1 ∷ 2 ∷ 0 ∷ 0 ∷ 0 ∷ []) i 0 ≡ content i
    stored zero less m = refl
    stored (suc zero) less m = refl
    stored (suc (suc zero)) less m = absurd (omega arith)
    stored (suc (suc (suc zero))) less m = absurd (omega arith)
    stored (suc (suc (suc (suc zero)))) less m = absurd (omega arith)
    stored (suc (suc (suc (suc (suc i))))) less m = absurd (omega arith)

cache_open-OpenIntact_example :
    Returns
      (cache_close half_open)
      (λ s1. Returns (cache_open normal target 1 s1) (OpenIntact content five 2))
cache_open-OpenIntact_example =
    cache_open-OpenIntact content normal target key five 2 half_open half (opened_file broken [])
      (opened_file broken (1 ∷ 2 ∷ 0 ∷ 0 ∷ 0 ∷ [])) 1 target-Names broken-IsWorking refl half-IsKept
      half-IsIntact
