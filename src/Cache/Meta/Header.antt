-- ===== src/Cache/Meta/Header.antt =====
-- `Meta_read` on a file that begins with a well-formed header and its segments.
use mathlib.Core.List.{append-nil}
use httpdirfs.Prelude.{
  ℕ, ◌+◌, ◌-◌, ◌^◌, ◌≤◌, ◌<◌, ◌≡◌, refl, ◌∙◌, List, [], ◌++◌, true, some, arith, length, ==_self,
}
use httpdirfs.Prelude.Int.{ℤ, pos, eqb_ℤ}
use httpdirfs.Cache.Words.{InRange}
use httpdirfs.Cache.Stdio.{File, fread, fread_int}
use httpdirfs.Cache.Stdio.Sequential.{
  Reading, fread-Reading, fread_int-Reading, coded, Decodes-long, Decodes-int,
}
use httpdirfs.Cache.State.{Link, Cache, enone, int64_max}
use httpdirfs.Cache.Meta.{
  segments, fill_seg, read_segments, check_header, read_segbc, read_blksz, read_length, read_time,
  meta_read_link,
}

eqb_ℤ-self : (z : ℤ) → eqb_ℤ z z ≡ true
eqb_ℤ-self z = ground arith

-- A header that `Meta_read` accepts for this link: values of their C types, and the number of
-- segments that the length and the block size give.
pub record Fits (link : Link) (b : ℕ) (seg : List ℕ) : Type 0 where
  pub time : InRange 64 link.time
  pub positive : 1 ≤ link.content_length
  pub block : 1 ≤ b
  pub block_int : b < 2 ^ 31
  pub no_overflow : link.content_length + b ≤ int64_max
  pub count : length seg ≡ segments link.content_length b
  pub some_segment : 1 ≤ length seg
  pub count_long : length seg < 2 ^ 63

module _ (link : Link) (b : ℕ) (seg : List ℕ) (ok : Fits link b seg) where
  header_passes :
      (cf : Cache) (fp : File)
      → check_header
          (record cf { blksz = pos b; segbc = pos (length seg) })
          link
          link.time
          (pos link.content_length)
          fp
        ≡ read_segments
            (record cf { blksz = pos b; segbc = pos (length seg); mfp = some fp })
            (length seg)
            fp
  unfolding check_header
  header_passes cf fp =
      let time : eqb_ℤ link.time link.time ≡ true = eqb_ℤ-self link.time in
      let positive = ok.positive in
      let block = ok.block in
      let some_segment = ok.some_segment in
      let no_overflow = ok.no_overflow in let count = ok.count in ground arith

  segments_pass :
      (pre rest : List ℕ) (cf : Cache) (fp : File)
      → Reading pre (seg ++ rest) fp
      → read_segments cf (length seg) fp
        ≡ (enone, record cf { seg = seg; mfp = some (fread (length seg) fp).1 })
  unfolding read_segments fill_seg
  segments_pass pre rest cf fp r =
      let (got, after) = fread-Reading pre seg rest fp r in
      let no_fill : length seg - length seg ≡ 0 = omega arith in
      rw (after.eof, after.error, got, ==_self (length seg), no_fill, append-nil) refl

  -- The bytes of the whole file, before `rest`.
  abbrev pub image : List ℕ → List ℕ
  image rest =
      coded 8 link.time
      ++ (coded 8 (pos link.content_length)
          ++ (coded 4 (pos b) ++ (coded 8 (pos (length seg)) ++ (seg ++ rest))))

  -- The four reads and the segments, from the start of such a file.
  pub meta_read_link-image :
      (rest : List ℕ) (cf : Cache) (fp : File)
      → Reading [] (image rest) fp
      → (fp' : File) × (meta_read_link cf (some link) fp ≡ (
        enone,
        record cf { blksz = pos b; segbc = pos (length seg); seg = seg; mfp = some fp' },
      ))
  unfolding meta_read_link
  meta_read_link-image rest cf fp r =
      let long_length : InRange 64 (pos link.content_length) = omega (arith, ok.no_overflow) in
      let (e1, r1) = fread_int-Reading [] _ 8 link.time fp (Decodes-long link.time ok.time) r in
      let fp1 : File = (fread_int 8 fp).1 in
      let (e2, r2) =
        fread_int-Reading _ _ 8 (pos link.content_length) fp1
          (Decodes-long (pos link.content_length) long_length) r1 in
      let fp2 : File = (fread_int 8 fp1).1 in
      let (e3, r3) = fread_int-Reading _ _ 4 (pos b) fp2 (Decodes-int (pos b) ok.block_int) r2 in
      let fp3 : File = (fread_int 4 fp2).1 in
      let (e4, r4) =
        fread_int-Reading _ _ 8 (pos (length seg)) fp3
          (Decodes-long (pos (length seg)) ok.count_long) r3 in
      let fp4 : File = (fread_int 8 fp3).1 in
      let cf' : Cache = record cf { blksz = pos b; segbc = pos (length seg); mfp = some fp4 } in
      (
        (fread (length seg) fp4).1,
        (unfold read_time in
            rw (e1, read_time)
              (unfold read_length in
                rw (e2, read_length)
                  (unfold read_blksz in
                    rw (e3, read_blksz)
                      (unfold read_segbc in
                        rw (e4, read_segbc)
                          (rw r4.error
                            (header_passes cf fp4 ∙ segments_pass _ rest cf' fp4 r4)))))),
      )
