-- ===== src/Link/Disk/Tests.antt =====
-- A table of one link: saved, opened, and a file that is too short.
use httpdirfs.Prelude.{
  ℕ, ◌≡◌, refl, List, [], ◌∷◌, ◌++◌, true, false, some, length-replicate, replicate, arith,
}
use httpdirfs.Prelude.Int.{pos}
use httpdirfs.Cache.Words.{to_bytes, of_bytes, pattern_of, signed}
use httpdirfs.Cache.Stdio.{File, fseek, fread, fread_int}
use httpdirfs.Link.Disk.{
  name_max, path_max, Entry, LinkTable, entry_size, save_links, save_header, link_table_disk_save,
  refused, opened, open_links, check_size, read_index_time, read_size, link_table_disk_open,
}
use httpdirfs.Link.Disk.Entries.{IsStorable}
use httpdirfs.Link.Disk.Roundtrip.{IsSaveable, IsFresh, link_table_disk_open-link_table_disk_save}
use httpdirfs.Link.Disk.Bounds.{Fitting, link_table_disk_open-Fitting}

abbrev stream : List ℕ → File
stream bytes = record {
  bytes = bytes;
  position = 0;
  eof = false;
  error = false;
  seekable = true;
  healthy = true;
}

program : Unit {0}
unfolding entry_size open_links check_size read_index_time read_size link_table_disk_open fseek
    fread fread_int to_bytes of_bytes pattern_of signed
program = tt

-- a size of 1, and no entry
too_short :
    link_table_disk_open (some (stream (1 ∷ 0 ∷ 0 ∷ 0 ∷ 0 ∷ 0 ∷ 0 ∷ 0 ∷ 0 ∷ 0 ∷ 0 ∷ 0 ∷ [])))
    ≡ refused
unfolding program
too_short = refl

abbrev base : Entry
base = record {
  linkname = replicate name_max 47 ++ 0 ∷ [];
  f_url = replicate path_max 104 ++ 0 ∷ [];
  type' = 72;
  content_length = 0;
  time = pos 9;
}

abbrev table : LinkTable
table = record { index_time = pos 1700000000; links = base ∷ [] }

abbrev saved : File
saved = save_links table.links (save_header table (stream []))

base-IsStorable : IsStorable base
base-IsStorable = record {
  name = replicate name_max 47;
  url = replicate path_max 104;
  name_ends = refl;
  name_length = length-replicate name_max (let c : ℕ = 47 in c);
  url_ends = refl;
  url_length = length-replicate path_max (let c : ℕ = 104 in c);
  type_fits = omega arith;
  length_fits = omega arith;
  time_fits = omega arith;
}

table-IsSaveable : IsSaveable table
table-IsSaveable = record {
  all = (base-IsStorable, tt);
  head = omega arith;
  count = omega arith;
  time_fits = omega arith;
}

stream-IsFresh : (bytes : List ℕ) → IsFresh (stream bytes) bytes
stream-IsFresh bytes = record {
  bytes = refl;
  position = refl;
  seekable = refl;
  healthy = refl;
  error = refl;
  eof = refl;
}

saves : (link_table_disk_save table (some (stream [])) true).1 ≡ some saved
unfolding link_table_disk_save
saves = refl

link_table_disk_open-link_table_disk_save_example :
    ((link_table_disk_save table (some (stream [])) true).0 ≡ true)
    × (link_table_disk_open (some (stream saved.bytes)) ≡ opened table)
link_table_disk_open-link_table_disk_save_example =
    link_table_disk_open-link_table_disk_save table (stream []) saved (stream saved.bytes)
      table-IsSaveable (stream-IsFresh []) saves (stream-IsFresh saved.bytes)

opens : link_table_disk_open (some (stream saved.bytes)) ≡ opened table
opens =
    (link_table_disk_open-link_table_disk_save table (stream []) saved (stream saved.bytes)
      table-IsSaveable (stream-IsFresh []) saves (stream-IsFresh saved.bytes)).1

link_table_disk_open-Fitting_example : Fitting saved.bytes table
link_table_disk_open-Fitting_example = link_table_disk_open-Fitting (stream saved.bytes) table opens
