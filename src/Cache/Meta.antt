-- ===== src/Cache/Meta.antt =====
-- `Meta_read` and `Meta_write` of src/cache.c.
pub mod Header
pub mod Roundtrip
pub mod Geometry
mod Tests
use httpdirfs.Prelude.{
  ℕ, zero, suc, ◌+◌, ◌-◌, ◌/◌, ◌%◌, ◌^◌, List, [], ◌++◌, Bool, true, false, ◌||◌, not, Option, none,
  some, ◌==◌, ltb, leb, if◌then◌else◌, length, replicate,
}
use httpdirfs.Prelude.Int.{ℤ, pos, negsuc, pos_part, neg_part, leb_ℤ, ltb_ℤ, eqb_ℤ, ◌+ℤ◌, ◌-ℤ◌}
use httpdirfs.Cache.Stdio.{File, fseek, fread, fread_int, fwrite, fwrite_int}
use httpdirfs.Cache.State.{Link, Cache, Errno, enone, eio, einval, ebadmsg, int_max, int64_max}

-- the number of segments for a length and a block size, both positive
unfoldable pub segments : ℕ → ℕ → ℕ
segments len blksz =
    if leb int_max (len / blksz)
    then int_max
    else if not (len % blksz == 0)
    then len / blksz + 1
    else len / blksz

-- CALLOC(segbc, sizeof(Seg)) and the fread into it
unfoldable pub fill_seg : ℕ → List ℕ → List ℕ
fill_seg n read = read ++ replicate (n - length read) 0

-- the end of `Meta_read`: the segments, and the tests on the stream after it
unfoldable pub read_segments : Cache → ℕ → File → Errno × Cache
read_segments cf n fp =
    let (read, fp') = fread n fp in
    let cf' : Cache = record cf { seg = fill_seg n read; mfp = some fp' } in
    if fp'.eof
    then (ebadmsg, cf')
    else if fp'.error
    then (eio, cf')
    else if not (length read == n)
    then (ebadmsg, cf')
    else (enone, cf')

-- The tests of `Meta_read` on the header. A value that is not positive is refused by the first.
unfoldable pub check_header : Cache → Link → ℤ → ℤ → File → Errno × Cache
check_header cf link disk_time disk_content_length fp =
    let cf' : Cache = record cf { mfp = some fp } in
    if leb_ℤ disk_content_length (pos 0) || leb_ℤ cf.blksz (pos 0) || leb_ℤ cf.segbc (pos 0)
    then (ebadmsg, cf')
    else if ltb_ℤ (pos int64_max -ℤ cf.blksz) disk_content_length
    then (ebadmsg, cf')
    else if not (eqb_ℤ disk_time link.time)
    then (ebadmsg, cf')
    else if not (pos_part disk_content_length == link.content_length)
    then (ebadmsg, cf')
    else if not (eqb_ℤ cf.segbc (pos (segments (pos_part disk_content_length) (pos_part cf.blksz))))
    then (ebadmsg, cf')
    else read_segments cf' (pos_part cf.segbc) fp

-- the four reads of the header, in their order; a read that fails ends the chain of `||`
unfoldable pub read_segbc : Cache → Link → ℤ → ℤ → Option ℤ × File → Errno × Cache
read_segbc cf link time len (none, fp) = (eio, record cf { mfp = some fp })
read_segbc cf link time len (some segbc, fp) =
    if fp.error
    then (eio, record cf { segbc = segbc; mfp = some fp })
    else check_header (record cf { segbc = segbc }) link time len fp

unfoldable pub read_blksz : Cache → Link → ℤ → ℤ → Option ℤ × File → Errno × Cache
read_blksz cf link time len (none, fp) = (eio, record cf { mfp = some fp })
read_blksz cf link time len (some blksz, fp) =
    read_segbc (record cf { blksz = blksz }) link time len (fread_int 8 fp)

unfoldable pub read_length : Cache → Link → ℤ → Option ℤ × File → Errno × Cache
read_length cf link time (none, fp) = (eio, record cf { mfp = some fp })
read_length cf link time (some len, fp) = read_blksz cf link time len (fread_int 4 fp)

unfoldable pub read_time : Cache → Link → Option ℤ × File → Errno × Cache
read_time cf link (none, fp) = (eio, record cf { mfp = some fp })
read_time cf link (some time, fp) = read_length cf link time (fread_int 8 fp)

unfoldable pub meta_read_link : Cache → Option Link → File → Errno × Cache
meta_read_link cf none fp = (einval, record cf { mfp = some fp })
meta_read_link cf (some link) fp = read_time cf link (fread_int 8 fp)

unfoldable pub meta_read : Cache → Errno × Cache
meta_read cf = elim cf.mfp [
  | none ↦ (eio, cf)
  | some fp ↦ elim (fseek 0 fp) [ none ↦ (eio, cf) | some start ↦ meta_read_link cf cf.link start ]
]

-- `expected_segbc` of `Meta_write`
unfoldable pub expected_segbc : ℤ → ℤ → ℕ
expected_segbc blksz len =
    if ltb_ℤ (pos 0) blksz
    then (if ltb_ℤ (pos 0) len then segments (pos_part len) (pos_part blksz) else 0)
    else 0

-- the five writes
unfoldable pub write_all : Cache → Link → File → File
write_all cf link fp =
    let fp1 = fwrite_int 8 link.time fp in
    let fp2 = fwrite_int 8 (pos link.content_length) fp1 in
    let fp3 = fwrite_int 4 cf.blksz fp2 in
    let fp4 = fwrite_int 8 cf.segbc fp3 in (fwrite cf.seg fp4).1

-- The cast of a content length to `off_t` keeps it exactly below 2^63; a length that is not kept
-- is negative, and refused.
unfoldable pub meta_write_link : Cache → Link → File → Bool × Cache
meta_write_link cf link fp =
    if (link.content_length == 0)
      || ltb int64_max link.content_length
      || leb_ℤ cf.blksz (pos 0)
      || not (eqb_ℤ cf.segbc (pos (expected_segbc cf.blksz (pos link.content_length))))
      || leb_ℤ cf.segbc (pos 0)
    then (false, record cf { mfp = some fp })
    else (not (write_all cf link fp).error, record cf { mfp = some (write_all cf link fp) })

-- `true` is the result 0, `false` is -1
unfoldable pub meta_write : Cache → Bool × Cache
meta_write cf = elim cf.mfp [
  | none ↦ (false, cf)
  | some fp ↦ elim (fseek 0 fp) [
    | none ↦ (false, cf)
    | some start ↦ elim cf.link [
      | none ↦ (false, record cf { mfp = some start })
      | some link ↦ meta_write_link cf link start
    ]
  ]
]
