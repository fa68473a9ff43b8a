-- ===== src/Cache/Reading.antt =====
-- `Cache_read` of src/cache.c: the loop that cuts a request at the block boundaries. It calls
-- `Cache_read_segment`, which is the operation of the interface `SegmentReader`; its state is the
-- cache and a world `W`, the rest of the process and the server.
pub mod Whole
mod Tests
use httpdirfs.Prelude.{
  ℕ, zero, suc, ◌+◌, ◌-◌, ◌*◌, ◌/◌, List, [], true, false, Option, none, some, ltb, ◌==◌,
  if◌then◌else◌, min,
}
use httpdirfs.Prelude.Int.{ℤ, pos, negsuc, pos_part, ltb_ℤ, leb_ℤ, ◌+ℤ◌}
use httpdirfs.Prelude.Run.{Run, ok, fault, out_of_fuel, ◌>>=◌}
use httpdirfs.Cache.Stdio.{overwrite}
use httpdirfs.Cache.State.{Cache}
use httpdirfs.Cache.Data.{minus_einval}

-- a result, with the bytes it stores from the start of the output buffer
pub record SegmentRead {ℓ} (W : Type ℓ) : Type ℓ where
  pub count : ℤ
  pub buf : List ℕ
  pub world : W
  pub after : Cache

-- Cache_read_segment(cf, output_buf, len, offset_start)
pub record SegmentReader {ℓ} (W : Type ℓ) : Type ℓ where
  pub read_segment : W → Cache → ℤ → ℤ → Run (SegmentRead W)

-- how far a segment read from `start` goes
unfoldable pub segment_len : ℕ → ℕ → ℕ → ℕ
segment_len b len start = min (start / b * b + b) (start + len) - start

module _ {ℓ} {W : Type ℓ} (r : SegmentReader W) where
  -- The loop of `Cache_read`, with the output buffer `out` and the sum `send`.
  unfoldable pub read_blocks : ℕ → ℕ → ℕ → W → Cache → List ℕ → ℕ → ℕ → ℤ → Run (SegmentRead W)
  read_blocks zero b offset_start w cf out len start send = out_of_fuel
  read_blocks (suc fuel) b offset_start w cf out len start send =
      if len == 0
      then ok (record { count = send; buf = out; world = w; after = cf })
      else (r.read_segment w cf (pos (segment_len b len start)) (pos start) >>= (λ s.
          let out' = overwrite out (start - offset_start) s.buf in
          let rest =
            read_blocks fuel b offset_start s.world s.after out' (len - segment_len b len start)
              (start + segment_len b len start) (send +ℤ s.count) in
          if ltb_ℤ s.count (pos 0)
          then ok (record { count = s.count; buf = out'; world = s.world; after = s.after })
          else if ltb_ℤ s.count (pos (segment_len b len start))
          then ok (record { count = send +ℤ s.count; buf = out'; world = s.world; after = s.after })
          else rest))

  -- A block size that is not positive, which `Meta_read` refuses, is a fault here.
  unfoldable pub read_range : W → Cache → ℤ → ℕ → ℕ → Run (SegmentRead W)
  unfolding read_blocks
  read_range w cf (pos zero) len start = fault
  read_range w cf (negsuc n) len start = fault
  read_range w cf (pos (suc b)) len start =
      read_blocks (suc len) (suc b) start w cf [] len start (pos 0)

  unfoldable pub cache_read : W → Cache → ℤ → ℤ → Run (SegmentRead W)
  cache_read w cf len offset_start = elim cf.link [
    | none ↦ ok (record { count = minus_einval; buf = []; world = w; after = cf })
    | some link ↦
        if ltb_ℤ len (pos 0)
        then ok (record { count = minus_einval; buf = []; world = w; after = cf })
        else if ltb_ℤ offset_start (pos 0)
        then ok (record { count = pos 0; buf = []; world = w; after = cf })
        else if leb_ℤ (pos link.content_length) offset_start
        then ok (record { count = pos 0; buf = []; world = w; after = cf })
        else if min (pos_part len) (link.content_length - pos_part offset_start) == 0
        then ok (record { count = pos 0; buf = []; world = w; after = cf })
        else read_range w cf cf.blksz
            (min (pos_part len) (link.content_length - pos_part offset_start))
            (pos_part offset_start)
  ]
