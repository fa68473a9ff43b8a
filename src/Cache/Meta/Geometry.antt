-- ===== src/Cache/Meta/Geometry.antt =====
-- What a success of `Meta_read` or `Meta_write` says of the cache.
use native.Mathlib.Nat.{div-add-mod, mod-lt}
use httpdirfs.Prelude.{
  ℕ, ◌+◌, ◌-◌, ◌*◌, ◌/◌, ◌%◌, ◌≤◌, ◌<◌, ◌≡◌, List, false, Option, none, some, ◌==◌, arith, length,
  length-append, length-replicate, replicate, inl, inr, Bool-cases, Option-cases, gt→leb,
}
use httpdirfs.Prelude.Int.{ℤ, pos, pos_part}
use httpdirfs.Cache.Stdio.{File, fseek, fread, fread_int}
use httpdirfs.Cache.State.{Link, Cache, enone, int_max}
use httpdirfs.Cache.Meta.{
  segments, fill_seg, read_segments, check_header, read_segbc, read_blksz, read_length, read_time,
  meta_read_link, meta_read,
}

-- The marks fit the file: a block size and a count that are positive `int`s and `long`s, the
-- count that the length gives, and one mark for each segment.
pub record IsLaidOut (cf : Cache) (link : Link) : Type 0 where
  pub b : ℕ
  pub block : cf.blksz ≡ pos b
  pub positive : 1 ≤ b
  pub count : cf.segbc ≡ pos (length cf.seg)
  pub marks : length cf.seg ≡ segments link.content_length b
  pub some_mark : 1 ≤ length cf.seg

length-fill_seg : (n : ℕ) (read : List ℕ) → length read ≤ n → length (fill_seg n read) ≡ n
unfolding fill_seg
length-fill_seg n read h = omega (
  arith,
  length-append read (replicate (n - length read) 0),
  length-replicate (n - length read) (let z : ℕ = 0 in z),
)

read_segments-count :
    (cf cf' : Cache) (n : ℕ) (fp : File)
    → read_segments cf n fp ≡ (enone, cf')
    → (length cf'.seg ≡ n) × (cf'.blksz ≡ cf.blksz) × (cf'.segbc ≡ cf.segbc)
unfolding read_segments
read_segments-count cf cf' n fp h = ground (arith, length-fill_seg n (fread n fp).0)

check_header-IsLaidOut :
    (cf cf' : Cache) (link : Link) (time len : ℤ) (fp : File)
    → check_header cf link time len fp ≡ (enone, cf')
    → IsLaidOut cf' link
unfolding check_header
check_header-IsLaidOut cf cf' link time len fp h =
    let counted = read_segments-count (record cf { mfp = some fp }) cf' (pos_part cf.segbc) fp in
    record {
      b = pos_part cf.blksz;
      block = ground (arith, counted);
      positive = ground (arith, counted);
      count = ground (arith, counted);
      marks = ground (arith, counted);
      some_mark = ground (arith, counted);
    }

read_segbc-IsLaidOut :
    (cf cf' : Cache) (link : Link) (time len : ℤ) (p : Option ℤ × File)
    → read_segbc cf link time len p ≡ (enone, cf')
    → IsLaidOut cf' link
unfolding read_segbc
read_segbc-IsLaidOut cf cf' link time len (none, fp) h = cc
read_segbc-IsLaidOut cf cf' link time len (some n, fp) h = elim (Bool-cases fp.error) [
  | inl e ↦ absurd (ground (arith, e))
  | inr e ↦
      check_header-IsLaidOut (record cf { segbc = n }) cf' link time len fp (ground (arith, e))
]

read_blksz-IsLaidOut :
    (cf cf' : Cache) (link : Link) (time len : ℤ) (p : Option ℤ × File)
    → read_blksz cf link time len p ≡ (enone, cf')
    → IsLaidOut cf' link
unfolding read_blksz
read_blksz-IsLaidOut cf cf' link time len (none, fp) h = cc
read_blksz-IsLaidOut cf cf' link time len (some b, fp) h =
    read_segbc-IsLaidOut (record cf { blksz = b }) cf' link time len (fread_int 8 fp) h

read_length-IsLaidOut :
    (cf cf' : Cache) (link : Link) (time : ℤ) (p : Option ℤ × File)
    → read_length cf link time p ≡ (enone, cf')
    → IsLaidOut cf' link
unfolding read_length
read_length-IsLaidOut cf cf' link time (none, fp) h = cc
read_length-IsLaidOut cf cf' link time (some len, fp) h =
    read_blksz-IsLaidOut cf cf' link time len (fread_int 4 fp) h

read_time-IsLaidOut :
    (cf cf' : Cache) (link : Link) (p : Option ℤ × File)
    → read_time cf link p ≡ (enone, cf')
    → IsLaidOut cf' link
unfolding read_time
read_time-IsLaidOut cf cf' link (none, fp) h = cc
read_time-IsLaidOut cf cf' link (some time, fp) h =
    read_length-IsLaidOut cf cf' link time (fread_int 8 fp) h

-- Whatever the bytes of the file are, a success of `Meta_read` leaves a cache whose block size
-- and count are positive, whose count is the one that the length of its link gives, and which has
-- one mark for each segment.
pub meta_read-IsLaidOut :
    (cf cf' : Cache) (link : Link)
    → cf.link ≡ some link
    → meta_read cf ≡ (enone, cf')
    → IsLaidOut cf' link
unfolding meta_read fseek meta_read_link
meta_read-IsLaidOut cf cf' link linked h = elim (Option-cases cf.mfp) [
  | inl e ↦ absurd (ground (arith, e))
  | inr (fp, e) ↦ elim (Bool-cases fp.seekable) [
    | inl s ↦
        read_time-IsLaidOut cf cf' link (fread_int 8 (record fp { position = 0; eof = false }))
          (ground (arith, e, s, linked))
    | inr s ↦ absurd (ground (arith, e, s))
  ]
]

-- The segments of a layout cover the file, and none lies behind its end, unless there are INT_MAX
-- of them.
pub segments-cover :
    (len b : ℕ)
    → 1 ≤ b
    → len / b < int_max
    → (len ≤ segments len b * b) × (segments len b * b < len + b)
unfolding segments
segments-cover len b h small =
    let whole = div-add-mod len b in
    let rest = mod-lt len h in
    elim (Bool-cases (len % b == 0)) [
      | inl e ↦
          let zero_rest : len % b ≡ 0 = ground (arith, e) in
          rw (gt→leb int_max (len / b) small, e) (omega arith, omega arith)
      | inr e ↦
          let some_rest : 1 ≤ len % b = ground (arith, e) in
          rw (gt→leb int_max (len / b) small, e) (omega arith, omega arith)
    ]
