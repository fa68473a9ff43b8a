-- ===== src/Link/Disk/Roundtrip.antt =====
-- A link table that is saved and opened again.
use mathlib.Core.List.{append_assoc, append-nil}
use native.Mathlib.Nat.{mul-div_cancel}
use httpdirfs.Prelude.{
  ℕ, zero, suc, ◌+◌, ◌-◌, ◌*◌, ◌/◌, ◌^◌, ◌≤◌, ◌<◌, ◌≡◌, refl, sym, ap, ◌∙◌, List, [], ◌++◌, true,
  false, ◌&&◌, not, some, ltb, length, length-append, drop, arith,
}
use httpdirfs.Prelude.Int.{pos}
use httpdirfs.Cache.Words.{pattern_of, length-to_bytes, InRange}
use httpdirfs.Cache.Stdio.{File, fseek, fread, fread_int, fwrite, fwrite_int}
use httpdirfs.Cache.Stdio.Sequential.{
  Reading, Written, fwrite-Written, fread_int-Reading, coded, Decodes-long, Decodes-int,
}
use httpdirfs.Link.Disk.{
  LinkTable, entry_size, save_links, save_header, link_table_disk_save, opened, opened_with,
  open_links, check_size, read_index_time, read_size, link_table_disk_open,
}
use mathlib.Core.Option.{some-injective}
use httpdirfs.Link.Disk.Entries.{
  AllStorable, images, save_links-Written, read_links-Reading, length-images, entry_size-positive,
  fwrite-count,
}

-- A table that can be saved: a head at least, an `int` of links, and values of their C types.
pub record IsSaveable (linktbl : LinkTable) : Type 0 where
  pub all : AllStorable linktbl.links
  pub head : 1 ≤ length linktbl.links
  pub count : length linktbl.links < 2 ^ 31
  pub time_fits : InRange 64 linktbl.index_time

-- a stream that works, at the start of its file
pub record IsFresh (fp : File) (content : List ℕ) : Type 0 where
  pub bytes : fp.bytes ≡ content
  pub position : fp.position ≡ 0
  pub seekable : fp.seekable ≡ true
  pub healthy : fp.healthy ≡ true
  pub error : fp.error ≡ false
  pub eof : fp.eof ≡ false

module _ (linktbl : LinkTable) (k : IsSaveable linktbl) where
  abbrev header : List ℕ
  header = ([] ++ coded 4 (pos (length linktbl.links))) ++ coded 8 linktbl.index_time

  abbrev body : List ℕ
  body = images linktbl.links k.all

  save_header-Written :
      (old : List ℕ) (fp : File) → Written old [] fp → Written old header (save_header linktbl fp)
  unfolding save_header fwrite_int
  save_header-Written old fp w =
      let first = fwrite-Written old [] (coded 4 (pos (length linktbl.links))) fp w in
      let count : (fwrite (coded 4 (pos (length linktbl.links))) fp).0 ≡ 4 = wrote fp w.healthy in
      rw (save_header, count) (fwrite-Written old _ (coded 8 linktbl.index_time) _ first)
    where
      wrote :
          (fp : File) → fp.healthy ≡ true → (fwrite (coded 4 (pos (length linktbl.links))) fp).0 ≡ 4
      wrote fp h =
          fwrite-count (coded 4 (pos (length linktbl.links))) fp h
          ∙ length-to_bytes 4 (pattern_of 32 (pos (length linktbl.links)))

  saved-Written :
      (fp : File)
      → IsFresh fp []
      → Written [] (header ++ body) (save_links linktbl.links (save_header linktbl fp))
  saved-Written fp f = save_links-Written [] header linktbl.links (save_header linktbl fp) k.all (
      save_header-Written [] fp
        (record { bytes = f.bytes; position = f.position; healthy = f.healthy; error = f.error }))

  length-saved : length (header ++ body) ≡ 12 + length linktbl.links * entry_size
  length-saved = omega (
    arith,
    length-append header body,
    length-append ([] ++ coded 4 (pos (length linktbl.links))) (coded 8 linktbl.index_time),
    length-to_bytes 4 (pattern_of 32 (pos (length linktbl.links))),
    length-to_bytes 8 (pattern_of 64 linktbl.index_time),
    length-images linktbl.links k.all,
  )

  open_links-saved :
      (fp : File)
      → fp.bytes ≡ header ++ body
      → Reading header body fp
      → open_links (pos (length linktbl.links)) linktbl.index_time fp ≡ opened linktbl
  unfolding open_links opened_with
  open_links-saved fp whole r =
      let n : ℕ = length linktbl.links in
      let size : length fp.bytes ≡ 12 + n * entry_size = ap length whole ∙ length-saved in
      let some_size : 1 ≤ entry_size = entry_size-positive in
      let room : (length fp.bytes - 12) / entry_size ≡ n =
        ap (λ m. (m - 12) / entry_size) size
        ∙ ap (λ m. m / entry_size) (omega arith)
        ∙ mul-div_cancel n some_size in
      let some_links : ltb n 1 ≡ false = ground (arith, k.head) in
      let enough : ltb n n ≡ false = ground arith in
      rw (open_links, room, some_links, enough, read_links-Reading header linktbl.links k.all fp r)
        refl

  check_size-saved :
      (fp : File)
      → fp.bytes ≡ header ++ body
      → fp.position ≡ length header
      → fp.seekable ≡ true
      → fp.healthy ≡ true
      → fp.error ≡ false
      → check_size (pos (length linktbl.links)) linktbl.index_time fp ≡ opened linktbl
  unfolding check_size fseek
  check_size-saved fp whole place seekable healthy error =
      let head : length header ≡ 12 = omega (
        arith,
        length-append ([] ++ coded 4 (pos (length linktbl.links))) (coded 8 linktbl.index_time),
        length-to_bytes 4 (pattern_of 32 (pos (length linktbl.links))),
        length-to_bytes 8 (pattern_of 64 linktbl.index_time),
      ) in
      let back : File = record fp { position = 12; eof = false } in
      let step : check_size (pos (length linktbl.links)) linktbl.index_time fp
          ≡ open_links (pos (length linktbl.links)) linktbl.index_time back =
        simp (check_size, fseek, seekable) in
      step
      ∙ open_links-saved back whole (record {
        bytes = whole;
        position = sym head;
        healthy = healthy;
        error = error;
        eof = refl;
      })

fread_int-seekable : (n : ℕ) (fp : File) → (fread_int n fp).1.seekable ≡ fp.seekable
unfolding fread_int fread
fread_int-seekable n fp = ground arith

-- Let the table have at least its head and no more links than an `int` counts, with arrays that end
-- with a NUL and numbers of their C types. Then LinkTable_disk_save of it to a new file, on a
-- stream that works, succeeds, and LinkTable_disk_open of the file that it leaves, on a stream that
-- works, gives the time of the table and every link with its name, its URL, its type, its length
-- and its time, in their order.
pub link_table_disk_open-link_table_disk_save :
    (linktbl : LinkTable) (fp out again : File)
    → IsSaveable linktbl
    → IsFresh fp []
    → (link_table_disk_save linktbl (some fp) true).1 ≡ some out
    → IsFresh again out.bytes
    → ((link_table_disk_save linktbl (some fp) true).0 ≡ true)
      × (link_table_disk_open (some again) ≡ opened linktbl)
unfolding link_table_disk_save link_table_disk_open read_size read_index_time
link_table_disk_open-link_table_disk_save linktbl fp out again k f e g =
    let saved : File = save_links linktbl.links (save_header linktbl fp) in
    let w = saved-Written linktbl k fp f in
    let h4 = coded 4 (pos (length linktbl.links)) in
    let h8 = coded 8 linktbl.index_time in
    let whole : saved.bytes ≡ header linktbl k ++ body linktbl k =
      w.bytes
      ∙ ap (λ xs. (header linktbl k ++ body linktbl k) ++ xs)
          (drop-none (length (header linktbl k ++ body linktbl k)))
      ∙ append-nil (header linktbl k ++ body linktbl k) in
    let same : saved.bytes ≡ out.bytes = ap (λ (x : File). x.bytes) (some-injective saved out e) in
    let content : again.bytes ≡ header linktbl k ++ body linktbl k = g.bytes ∙ sym same ∙ whole in
    let r0 : Reading [] (h4 ++ (h8 ++ body linktbl k)) again = record {
      bytes = content ∙ simp append_assoc;
      position = g.position;
      healthy = g.healthy;
      error = g.error;
      eof = g.eof;
    } in
    let (e1, r1) =
      fread_int-Reading [] (h8 ++ body linktbl k) 4 (pos (length linktbl.links)) again
        (Decodes-int (pos (length linktbl.links)) k.count) r0 in
    let fp1 : File = (fread_int 4 again).1 in
    let (e2, r2) =
      fread_int-Reading ([] ++ h4) (body linktbl k) 8 linktbl.index_time fp1
        (Decodes-long linktbl.index_time k.time_fits) r1 in
    let fp2 : File = (fread_int 8 fp1).1 in
    (
      ap (λ b. not b && true) w.error,
      ap (λ o. read_size (o, fp1)) e1
          ∙ ap (λ o. read_index_time (pos (length linktbl.links)) (o, fp2)) e2
          ∙ check_size-saved linktbl k fp2 r2.bytes r2.position
              (fread_int-seekable 8 fp1 ∙ fread_int-seekable 4 again ∙ g.seekable) r2.healthy
              r2.error,
    )
  where
    drop-none : (n : ℕ) → drop {A = ℕ} n [] ≡ []
    drop-none zero = refl
    drop-none (suc n) = refl
