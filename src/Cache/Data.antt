-- ===== src/Cache/Data.antt =====
-- `Data_read` and `Data_write` of src/cache.c, on the stream of the data file. A result is the
-- number of bytes moved or a negated errno; `Data_read` also gives the bytes it stores in `buf`.
-- `seek_lock` is held over each transfer, so that a seek and its transfer are one step here.
pub mod Bytes
mod Tests
use httpdirfs.Prelude.{
  ℕ, ◌+◌, ◌-◌, List, [], true, false, ◌||◌, Option, none, some, ltb, if◌then◌else◌, length, take,
}
use httpdirfs.Prelude.Int.{ℤ, pos, negsuc, pos_part, ltb_ℤ, leb_ℤ, eqb_ℤ, ◌-ℤ◌}
use httpdirfs.Prelude.Run.{Run, ok, fault}
use httpdirfs.Cache.Stdio.{File, fseek, fread, fwrite}
use httpdirfs.Cache.State.{Cache, int64_max}

pub record DataRead : Type 0 where
  pub count : ℤ
  pub buf : List ℕ
  pub after : Cache

-- -EINVAL and -EIO
abbrev pub minus_einval : ℤ
minus_einval = negsuc 21

abbrev pub minus_eio : ℤ
minus_eio = negsuc 4

-- fseeko refuses a negative offset
unfoldable pub fseeko : ℤ → File → Option File
fseeko (pos n) fp = fseek n fp
fseeko (negsuc n) fp = none

unfoldable pub read_stream : Cache → ℕ → ℤ → Option File → Run DataRead
read_stream cf n offset none = fault
read_stream cf n offset (some fp) = elim (fseeko offset fp) [
  | none ↦ ok (record { count = minus_eio; buf = []; after = cf })
  | some fp1 ↦
      let (bs, fp2) = fread n fp1 in
      ok (record { count = pos (length bs); buf = bs; after = record cf { dfp = some fp2 } })
]

unfoldable pub read_file : Cache → ℕ → ℤ → ℤ → Run DataRead
read_file cf total_len len offset =
    if ltb_ℤ offset (pos 0) || leb_ℤ (pos total_len) offset
    then ok (record { count = pos 0; buf = []; after = cf })
    else if ltb_ℤ (pos total_len -ℤ offset) len
    then read_stream cf (pos_part (pos total_len -ℤ offset)) offset cf.dfp
    else read_stream cf (pos_part len) offset cf.dfp

unfoldable pub data_read : Cache → ℤ → ℤ → Run DataRead
data_read cf len offset = elim cf.link [
  | none ↦ ok (record { count = minus_einval; buf = []; after = cf })
  | some link ↦
      if ltb int64_max link.content_length
      then ok (record { count = minus_einval; buf = []; after = cf })
      else if ltb_ℤ len (pos 0)
      then ok (record { count = minus_einval; buf = []; after = cf })
      else if eqb_ℤ len (pos 0)
      then ok (record { count = minus_einval; buf = []; after = cf })
      else read_file cf link.content_length len offset
]

-- `buf` must hold the bytes that are written
unfoldable pub write_stream : Cache → List ℕ → ℕ → ℤ → Option File → Run (ℤ × Cache)
write_stream cf buf n offset none = fault
write_stream cf buf n offset (some fp) = elim (fseeko offset fp) [
  | none ↦ ok (minus_eio, cf)
  | some fp1 ↦
      if ltb (length buf) n
      then fault
      else (let (written, fp2) = fwrite (take n buf) fp1 in
          ok (pos written, record cf { dfp = some fp2 }))
]

unfoldable pub data_write : Cache → List ℕ → ℤ → ℤ → Run (ℤ × Cache)
data_write cf buf len offset =
    if leb_ℤ len (pos 0)
    then ok (minus_einval, cf)
    else write_stream cf buf (pos_part len) offset cf.dfp
