-- ===== src/Cache/Seg.antt =====
-- `Seg_exist` and `Seg_set` of src/cache.c. An access outside the array of marks is a fault.
pub mod Marks
mod Tests
use httpdirfs.Prelude.{
  ℕ, zero, suc, ◌/◌, ◌%◌, List, Bool, true, false, ◌||◌, Option, none, some, ltb, if◌then◌else◌,
  get_elem?, set, length,
}
use httpdirfs.Prelude.Int.{ℤ, pos, negsuc, neg, pos_part, leb_ℤ, ltb_ℤ}
use httpdirfs.Prelude.Run.{Run, ok, fault}
use httpdirfs.Cache.State.{Cache}

-- division of a signed number by a positive one, towards zero
unfoldable pub quot : ℤ → ℕ → ℤ
quot (pos n) b = pos (n / b)
quot (negsuc n) b = neg (suc n / b)

unfoldable pub mark_at : List ℕ → ℤ → Run ℕ
mark_at seg (negsuc n) = fault
mark_at seg (pos i) = elim (get_elem? seg i) [ none ↦ fault | some m ↦ ok m ]

unfoldable pub seg_exist : Cache → ℤ → Run ℕ
unfolding quot mark_at
seg_exist cf offset =
    if leb_ℤ cf.segbc (pos 0) || leb_ℤ cf.blksz (pos 0)
    then ok 0
    else if ltb_ℤ (quot offset (pos_part cf.blksz)) (pos 0)
        || leb_ℤ cf.segbc (quot offset (pos_part cf.blksz))
    then ok 0
    else mark_at cf.seg (quot offset (pos_part cf.blksz))

unfoldable pub put_mark : Cache → ℤ → ℕ → Run Cache
put_mark cf (negsuc n) m = fault
put_mark cf (pos i) m =
    if ltb i (length cf.seg) then ok (record cf { seg = set cf.seg i m }) else fault

-- the mark is stored in a byte
unfoldable pub seg_set : Cache → ℤ → ℕ → Run Cache
unfolding quot put_mark
seg_set cf offset i =
    if leb_ℤ cf.segbc (pos 0) || leb_ℤ cf.blksz (pos 0)
    then ok cf
    else if ltb_ℤ (quot offset (pos_part cf.blksz)) (pos 0)
        || leb_ℤ cf.segbc (quot offset (pos_part cf.blksz))
    then ok cf
    else put_mark cf (quot offset (pos_part cf.blksz)) (i % 256)
