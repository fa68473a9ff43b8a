-- ===== src/Link/Disk.antt =====
-- `LinkTable_disk_save` and `LinkTable_disk_open` of src/link.c: a link table in a file. The
-- arrays of a link stand here with all their bytes, behind the first NUL too.
pub mod Entries
pub mod Roundtrip
pub mod Bounds
mod Tests
use httpdirfs.Prelude.{
  ℕ, zero, suc, ◌+◌, ◌-◌, ◌*◌, ◌/◌, List, [], ◌∷◌, ◌++◌, Bool, true, false, ◌||◌, ◌&&◌, not, Option,
  none, some, ltb, ◌==◌, if◌then◌else◌, length, take,
}
use httpdirfs.Prelude.Int.{ℤ, pos, negsuc, ltb_ℤ}
use httpdirfs.Cache.Words.{to_bytes, of_bytes, pattern_of, signed}
use httpdirfs.Cache.Stdio.{File, fseek, fread, fread_int, fwrite, fwrite_int}

abbrev pub name_max : ℕ
name_max = 255

abbrev pub path_max : ℕ
path_max = 4096

-- the members of a link that are stored; `type'` is the number of the enumeration
pub record Entry : Type 0 where
  pub linkname : List ℕ
  pub f_url : List ℕ
  pub type' : ℕ
  pub content_length : ℕ
  pub time : ℤ

pub record LinkTable : Type 0 where
  pub index_time : ℤ
  pub links : List Entry

-- what a stored entry takes, `entry_size`
unfoldable pub entry_size : ℕ
entry_size = name_max + path_max + 4 + 8 + 8

unfoldable pub save_link : Entry → File → File
save_link link fp =
    let fp1 = (fwrite (take name_max link.linkname) fp).1 in
    let fp2 = (fwrite (take path_max link.f_url) fp1).1 in
    let fp3 = (fwrite (to_bytes 4 link.type') fp2).1 in
    let fp4 = (fwrite (to_bytes 8 link.content_length) fp3).1 in fwrite_int 8 link.time fp4

unfoldable pub save_links : List Entry → File → File
unfolding save_link
save_links [] fp = fp
save_links (link ∷ links) fp = save_links links (save_link link fp)

-- the size and the time; a size that is not written ends the chain of `||`
unfoldable pub save_header : LinkTable → File → File
save_header linktbl fp =
    let (n, fp1) = fwrite (to_bytes 4 (pattern_of 32 (pos (length linktbl.links)))) fp in
    if n == 4 then fwrite_int 8 linktbl.index_time fp1 else fp1

-- The result (`true` is 0) and the file, on what fopen(path, "w") and fclose give.
unfoldable pub link_table_disk_save : LinkTable → Option File → Bool → Bool × Option File
unfolding save_links save_header
link_table_disk_save linktbl none closes = (false, none)
link_table_disk_save linktbl (some fp) closes =
    let fp' = save_links linktbl.links (save_header linktbl fp) in
    (not fp'.error && closes, some fp')

infixl 5 ◌>>=◌
abbrev pub ◌>>=◌ {ℓ κ} : {A : Type ℓ} {B : Type κ} → Option A → (A → Option B) → Option B
none >>= f = none
some a >>= f = f a

-- fread of `n` bytes, all of them
unfoldable pub fread_all : ℕ → File → Option (List ℕ × File)
fread_all n fp = let (bs, fp') = fread n fp in if length bs == n then some (bs, fp') else none

unfoldable pub read_link : File → Option (Entry × File)
unfolding fread_all
read_link fp = do
  (linkname, fp1) ← fread_all name_max fp
  (f_url, fp2) ← fread_all path_max fp1
  (type', fp3) ← fread_all 4 fp2
  (content_length, fp4) ← fread_all 8 fp3
  (time, fp5) ← fread_all 8 fp4
  some (
    record {
      -- the last byte is the one that CALLOC has cleared
      linkname = linkname ++ 0 ∷ [];
      f_url = f_url ++ 0 ∷ [];
      type' = of_bytes type';
      content_length = of_bytes content_length;
      time = signed 64 (of_bytes time);
    },
    fp5,
  )

unfoldable pub read_links : ℕ → File → Option (List Entry)
unfolding read_link
read_links zero fp = some []
read_links (suc n) fp = do (link, fp1) ← read_link fp; links ← read_links n fp1; some (link ∷ links)

-- The result of `LinkTable_disk_open`. In all cases but the first, NULL also means that the
-- directory of the table on the disk is deleted.
pub data Opened : Type 0 where
  absent : Opened
  refused : Opened
  opened : LinkTable → Opened

unfoldable pub opened_with : ℤ → Option (List Entry) → Opened
opened_with time none = refused
opened_with time (some links) = opened (record { index_time = time; links = links })

-- the test of the size against that of the file
unfoldable pub open_links : ℤ → ℤ → File → Opened
unfolding opened_with read_links entry_size
open_links (negsuc n) time fp = refused
open_links (pos sz) time fp =
    if ltb sz 1 || ltb ((length fp.bytes - 12) / entry_size) sz
    then refused
    else opened_with time (read_links sz fp)

-- fseek to the end and back
unfoldable pub check_size : ℤ → ℤ → File → Opened
unfolding open_links
check_size sz time fp = elim (fseek (length fp.bytes) fp) [
  | none ↦ refused
  | some fp1 ↦ elim (fseek 12 fp1) [ none ↦ refused | some fp2 ↦ open_links sz time fp2 ]
]

unfoldable pub read_index_time : ℤ → Option ℤ × File → Opened
unfolding check_size
read_index_time sz (none, fp) = refused
read_index_time sz (some time, fp) = check_size sz time fp

unfoldable pub read_size : Option ℤ × File → Opened
unfolding read_index_time
read_size (none, fp) = refused
read_size (some sz, fp) = read_index_time sz (fread_int 8 fp)

-- on what fopen(path, "r") gives
unfoldable pub link_table_disk_open : Option File → Opened
unfolding read_size
link_table_disk_open none = absent
link_table_disk_open (some fp) = read_size (fread_int 4 fp)
