-- ===== src/Link/Disk/Bounds.antt =====
-- What a link table has that was opened from any file.
use native.Mathlib.Nat.{div-add-mod', mul-le-mul_right, zero-div}
use httpdirfs.Prelude.{
  ℕ, zero, suc, ◌+◌, ◌-◌, ◌*◌, ◌/◌, ◌≤◌, ◌≡◌, refl, sym, ap, ◌∙◌, List, [], ◌∷◌, ◌++◌, false, leb,
  Option, none, some, ltb, ◌==◌, length, get_elem?, Bool-cases, Option-cases, inl, inr, arith,
}
use httpdirfs.Prelude.Int.{ℤ, pos, negsuc}
use httpdirfs.Cache.Words.{of_bytes, signed}
use httpdirfs.Cache.Stdio.{File, fseek, fread, fread_int}
use httpdirfs.Link.Disk.{
  name_max, path_max, Entry, LinkTable, entry_size, ◌>>=◌, fread_all, read_link, read_links, Opened,
  absent, refused, opened, opened_with, open_links, check_size, read_index_time, read_size,
  link_table_disk_open,
}
use mathlib.Core.Path.{subst}
use mathlib.Core.Option.{some-injective}

bind-some {ℓ κ} :
    {A : Type ℓ} {B : Type κ}
    → (m : Option A) (f : A → Option B) (b : B) → (m >>= f) ≡ some b
    → (a : A) × (m ≡ some a) × (f a ≡ some b)
bind-some none f b e = absurd (cc e)
bind-some (some a) f b e = (a, refl, e)

fread_all-length :
    (n : ℕ) (fp fp' : File) (bs : List ℕ) → fread_all n fp ≡ some (bs, fp') → length bs ≡ n
unfolding fread_all
fread_all-length n fp fp' bs e = elim (Bool-cases (length (fread n fp).0 == n)) [
  | inl h ↦
      let done : some ((fread n fp).0, (fread n fp).1) ≡ some (bs, fp') = rw (fread_all, h) at e in
      let same : (fread n fp).0 ≡ bs =
        ap (λ (x : List ℕ × File). x.0)
          (some-injective ((fread n fp).0, (fread n fp).1) (bs, fp') done) in
      let size : length (fread n fp).0 ≡ n = ground (arith, h) in sym (ap length same) ∙ size
  | inr h ↦ absurd (let bad : none ≡ some (bs, fp') = rw (fread_all, h) at e in cc bad)
]

-- The arrays of a link have the bytes of their C type, and end with a NUL.
pub record IsTerminated (link : Entry) : Type 0 where
  pub name : List ℕ
  pub url : List ℕ
  pub name_ends : link.linkname ≡ name ++ 0 ∷ []
  pub name_length : length name ≡ name_max
  pub url_ends : link.f_url ≡ url ++ 0 ∷ []
  pub url_length : length url ≡ path_max

read_link-IsTerminated :
    (fp fp' : File) (link : Entry) → read_link fp ≡ some (link, fp') → IsTerminated link
unfolding read_link
read_link-IsTerminated fp fp' link e =
    let ((name, fp1), e1, k1) = bind-some (fread_all name_max fp) _ (link, fp') e in
    let ((url, fp2), e2, k2) = bind-some (fread_all path_max fp1) _ (link, fp') k1 in
    let ((t, fp3), e3, k3) = bind-some (fread_all 4 fp2) _ (link, fp') k2 in
    let ((l, fp4), e4, k4) = bind-some (fread_all 8 fp3) _ (link, fp') k3 in
    let ((z, fp5), e5, k5) = bind-some (fread_all 8 fp4) _ (link, fp') k4 in
    let read : Entry = record {
      linkname = name ++ 0 ∷ [];
      f_url = url ++ 0 ∷ [];
      type' = of_bytes t;
      content_length = of_bytes l;
      time = signed 64 (of_bytes z);
    } in
    subst IsTerminated (ap (λ (x : Entry × File). x.0) (some-injective (read, fp5) (link, fp') k5))
      (record {
        name = name;
        url = url;
        name_ends = refl;
        name_length = fread_all-length name_max fp fp1 name e1;
        url_ends = refl;
        url_length = fread_all-length path_max fp1 fp2 url e2;
      })

-- each of the links
abbrev pub AllTerminated : List Entry → Type 0
AllTerminated links = (i : ℕ) (link : Entry) → get_elem? links i ≡ some link → IsTerminated link

read_links-AllTerminated :
    (n : ℕ) (fp : File) (links : List Entry)
    → read_links n fp ≡ some links
    → (length links ≡ n) × AllTerminated links
unfolding read_links
read_links-AllTerminated zero fp links e =
    let same : [] ≡ links = some-injective [] links e in
    subst (λ (ls : List Entry). (length ls ≡ 0) × AllTerminated ls) same
      (refl, λ i link there. absurd (cc there))
read_links-AllTerminated (suc n) fp links e =
    let ((link, fp1), e1, k1) = bind-some (read_link fp) _ links e in
    let (rest, e2, k2) = bind-some (read_links n fp1) _ links k1 in
    let (count, all) = read_links-AllTerminated n fp1 rest e2 in
    let first = read_link-IsTerminated fp fp1 link e1 in
    subst (λ (ls : List Entry). (length ls ≡ suc n) × AllTerminated ls)
      (some-injective (link ∷ rest) links k2)
      (ap suc count, λ i x there. at_place link rest first all i x there)
  where
    at_place :
        (link : Entry) (rest : List Entry)
        → IsTerminated link
        → AllTerminated rest
        → AllTerminated (link ∷ rest)
    at_place link rest first all zero x there =
        subst IsTerminated (some-injective link x there) first
    at_place link rest first all (suc i) x there = all i x there

-- a table of as many links as the file has room for
abbrev pub Fitting : List ℕ → LinkTable → Type 0
Fitting bytes linktbl =
    (1 ≤ length linktbl.links)
    × (12 + length linktbl.links * entry_size ≤ length bytes)
    × AllTerminated linktbl.links

opened-injective : (s t : LinkTable) → opened s ≡ opened t → s ≡ t
opened-injective s t e = ap (λ o. table_or s o) e
  where
    table_or : LinkTable → Opened → LinkTable
    table_or s absent = s
    table_or s refused = s
    table_or s (opened t) = t

opened_with-Fitting :
    (bytes : List ℕ) (time : ℤ) (linktbl : LinkTable) (n : ℕ) (fp : File)
    → 1 ≤ n
    → 12 + n * entry_size ≤ length bytes
    → opened_with time (read_links n fp) ≡ opened linktbl
    → Fitting bytes linktbl
unfolding opened_with
opened_with-Fitting bytes time linktbl n fp head room e = elim (Option-cases (read_links n fp)) [
  | inl h ↦ absurd (let bad : refused ≡ opened linktbl = rw (opened_with, h) at e in cc bad)
  | inr (links, h) ↦
      let done : opened (record { index_time = time; links = links }) ≡ opened linktbl =
        rw (opened_with, h) at e in
      let (count, all) = read_links-AllTerminated n fp links h in
      subst (Fitting bytes)
        (opened-injective (record { index_time = time; links = links }) linktbl done)
        (omega (arith, count, head), rw count room, all)
]

room_for :
    (sz total size : ℕ) → 1 ≤ sz → ltb ((total - 12) / size) sz ≡ false → 12 + sz * size ≤ total
room_for sz total size head e =
    let whole = div-add-mod' (total - 12) size in
    let enough : sz ≤ (total - 12) / size = ground (arith, e) in
    let product : sz * size ≤ (total - 12) / size * size = mul-le-mul_right size enough in
    let some_of : 1 ≤ (total - 12) / size = omega (arith, head, enough) in
    elim (Bool-cases (leb 12 total)) [
      | inl h ↦ ground (arith, h, whole, product)
      | inr h ↦
          let empty : total - 12 ≡ 0 = ground (arith, h) in
          let none_of : (total - 12) / size ≡ 0 = ap (λ m. m / size) empty ∙ zero-div size in
          absurd (omega (arith, none_of, some_of))
    ]

open_links-Fitting :
    (sz time : ℤ) (fp : File) (linktbl : LinkTable)
    → open_links sz time fp ≡ opened linktbl
    → Fitting fp.bytes linktbl
unfolding open_links
open_links-Fitting (negsuc n) time fp linktbl e = absurd (cc e)
open_links-Fitting (pos sz) time fp linktbl e = elim (Bool-cases (ltb sz 1)) [
  | inl h ↦ absurd (let bad : refused ≡ opened linktbl = rw (open_links, h) at e in cc bad)
  | inr h ↦ elim (Bool-cases (ltb ((length fp.bytes - 12) / entry_size) sz)) [
    | inl g ↦ absurd (let bad : refused ≡ opened linktbl = rw (open_links, h, g) at e in cc bad)
    | inr g ↦
        opened_with-Fitting fp.bytes time linktbl sz fp (ground (arith, h))
          (room_for sz (length fp.bytes) entry_size (ground (arith, h)) g)
          (rw (open_links, h, g) at e)
  ]
]

check_size-Fitting :
    (sz time : ℤ) (fp : File) (linktbl : LinkTable)
    → check_size sz time fp ≡ opened linktbl
    → Fitting fp.bytes linktbl
unfolding check_size fseek
check_size-Fitting sz time fp linktbl e = elim (Bool-cases fp.seekable) [
  | inl h ↦
      let back : File = record fp { position = 12; eof = false } in
      let step : check_size sz time fp ≡ open_links sz time back = simp (check_size, fseek, h) in
      open_links-Fitting sz time back linktbl (sym step ∙ e)
  | inr h ↦
      let step : check_size sz time fp ≡ refused = simp (check_size, fseek, h) in
      absurd (cc (sym step ∙ e))
]

fread_int-bytes : (n : ℕ) (fp : File) → (fread_int n fp).1.bytes ≡ fp.bytes
unfolding fread_int fread
fread_int-bytes n fp = ground arith

read_index_time-Fitting :
    (sz : ℤ) (p : Option ℤ × File) (linktbl : LinkTable)
    → read_index_time sz p ≡ opened linktbl
    → Fitting p.1.bytes linktbl
unfolding read_index_time
read_index_time-Fitting sz (none, fp) linktbl e = absurd (cc e)
read_index_time-Fitting sz (some time, fp) linktbl e = check_size-Fitting sz time fp linktbl e

read_size-Fitting :
    (p : Option ℤ × File) (linktbl : LinkTable)
    → read_size p ≡ opened linktbl
    → Fitting p.1.bytes linktbl
unfolding read_size
read_size-Fitting (none, fp) linktbl e = absurd (cc e)
read_size-Fitting (some sz, fp) linktbl e =
    subst (λ bytes. Fitting bytes linktbl) (fread_int-bytes 8 fp)
      (read_index_time-Fitting sz (fread_int 8 fp) linktbl e)

-- Whatever the bytes of the file are and whichever calls fail, a table that LinkTable_disk_open
-- gives has at least one link and no more links than the file has room for behind its header, and
-- the name and the URL of each link are ended by a NUL within their arrays.
pub link_table_disk_open-Fitting :
    (fp : File) (linktbl : LinkTable)
    → link_table_disk_open (some fp) ≡ opened linktbl
    → Fitting fp.bytes linktbl
unfolding link_table_disk_open
link_table_disk_open-Fitting fp linktbl e =
    subst (λ bytes. Fitting bytes linktbl) (fread_int-bytes 4 fp)
      (read_size-Fitting (fread_int 4 fp) linktbl e)
