-- ===== src/Cache/Seg/Tests.antt =====
-- The marks of a file of 25 bytes in blocks of 10.
use httpdirfs.Prelude.{◌≡◌, refl, [], ◌∷◌, none, some, ◌≢◌, arith, ◌/◌}
use httpdirfs.Prelude.Int.{pos, negsuc}
use httpdirfs.Prelude.Run.{ok, Returns}
use httpdirfs.Cache.State.{Cache, Link}
use httpdirfs.Cache.Meta.Geometry.{IsLaidOut}
use httpdirfs.Cache.Meta.{segments}
use httpdirfs.Cache.Seg.{quot, seg_exist, seg_set}
use httpdirfs.Cache.Seg.Marks.{seg_exist-mark_of, seg_exist-seg_set}

abbrev link : Link
link = record { content_length = 25; time = pos 0 }

abbrev cache : Cache
cache = record {
  dfp = none;
  mfp = none;
  link = some link;
  blksz = pos 10;
  segbc = pos 3;
  seg = 0 ∷ 1 ∷ 0 ∷ [];
}

cache-IsLaidOut : IsLaidOut cache link
unfolding segments
cache-IsLaidOut = record {
  b = 10;
  block = refl;
  positive = omega arith;
  count = refl;
  marks = refl;
  some_mark = omega arith;
}

seg_exist_behind : seg_exist cache (pos 30) ≡ ok 0
unfolding seg_exist quot
seg_exist_behind = refl

seg_exist_before : seg_exist cache (negsuc 9) ≡ ok 0
unfolding seg_exist quot
seg_exist_before = refl

seg_exist-mark_of_example : seg_exist cache (pos 13) ≡ ok 1
unfolding cache-IsLaidOut
seg_exist-mark_of_example = seg_exist-mark_of cache link cache-IsLaidOut 13

seg_exist-seg_set_example : Returns (seg_set cache (pos 20) 1) (λ cf'.
    IsLaidOut cf' link
    × ((20 / 10 ≡ 24 / 10 → seg_exist cf' (pos 24) ≡ ok 1)
        × (20 / 10 ≢ 24 / 10 → seg_exist cf' (pos 24) ≡ seg_exist cache (pos 24))))
unfolding cache-IsLaidOut
seg_exist-seg_set_example = seg_exist-seg_set cache link cache-IsLaidOut 20 24 1 (omega arith)
