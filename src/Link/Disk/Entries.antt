-- ===== src/Link/Disk/Entries.antt =====
-- The entries of a link table that are saved and read again.
use mathlib.Core.List.{append_assoc, append-nil}
use httpdirfs.Prelude.{
  ℕ, ◌*◌, ◌^◌, ◌≤◌, ◌<◌, ◌≡◌, refl, sym, ap, ◌∙◌, List, [], ◌∷◌, ◌++◌, true, some, length,
  length-append, take, take-append_left, arith, ==_self,
}
use httpdirfs.Cache.Words.{
  to_bytes, of_bytes, pattern_of, signed, length-to_bytes, of_bytes-to_bytes, InRange,
}
use httpdirfs.Cache.Stdio.{File, fread, fwrite, fwrite_int}
use httpdirfs.Cache.Stdio.Sequential.{
  Reading, Written, fwrite-Written, fread-Reading, coded, Decodes-long,
}
use httpdirfs.Link.Disk.{
  name_max, path_max, Entry, entry_size, save_link, save_links, fread_all, read_link, read_links,
}

-- The arrays end with a NUL, and the numbers are of their C types.
pub record IsStorable (link : Entry) : Type 0 where
  pub name : List ℕ
  pub url : List ℕ
  pub name_ends : link.linkname ≡ name ++ 0 ∷ []
  pub name_length : length name ≡ name_max
  pub url_ends : link.f_url ≡ url ++ 0 ∷ []
  pub url_length : length url ≡ path_max
  pub type_fits : link.type' < 256 ^ 4
  pub length_fits : link.content_length < 256 ^ 8
  pub time_fits : InRange 64 link.time

abbrev pub AllStorable : List Entry → Type 0
AllStorable [] = Unit {0}
AllStorable (link ∷ links) = IsStorable link × AllStorable links

pub fwrite-count : (bs : List ℕ) (fp : File) → fp.healthy ≡ true → (fwrite bs fp).0 ≡ length bs
unfolding fwrite
fwrite-count bs fp h = rw (fwrite, h) refl

pub entry_size-positive : 1 ≤ entry_size
unfolding entry_size
entry_size-positive = omega arith

abbrev pub grown : List ℕ → (link : Entry) → IsStorable link → List ℕ
grown pre link s =
    ((((pre ++ s.name) ++ s.url) ++ to_bytes 4 link.type') ++ to_bytes 8 link.content_length)
    ++ coded 8 link.time

abbrev pub image : (link : Entry) → IsStorable link → List ℕ → List ℕ
image link s rest =
    s.name
    ++ (s.url
        ++ (to_bytes 4 link.type'
            ++ (to_bytes 8 link.content_length ++ (coded 8 link.time ++ rest))))

-- the bytes of the entries
abbrev pub images : (links : List Entry) → AllStorable links → List ℕ
images [] all = []
images (link ∷ links) all = image link all.0 (images links all.1)

grown-image :
    (pre : List ℕ) (link : Entry) (s : IsStorable link) (rest : List ℕ)
    → grown pre link s ++ rest ≡ pre ++ image link s rest
grown-image pre link s rest = simp append_assoc

save_link-Written :
    (old pre : List ℕ) (link : Entry) (fp : File) (s : IsStorable link)
    → Written old pre fp
    → Written old (grown pre link s) (save_link link fp)
unfolding save_link fwrite_int
save_link-Written old pre link fp s w =
    let name : take name_max link.linkname ≡ s.name =
      ap (take name_max) s.name_ends
      ∙ ap (λ n. take n (s.name ++ 0 ∷ [])) (sym s.name_length)
      ∙ take-append_left s.name (0 ∷ []) in
    let url : take path_max link.f_url ≡ s.url =
      ap (take path_max) s.url_ends
      ∙ ap (λ n. take n (s.url ++ 0 ∷ [])) (sym s.url_length)
      ∙ take-append_left s.url (0 ∷ []) in
    rw (save_link, name, url)
      (fwrite-Written old _ (coded 8 link.time) _ (
        fwrite-Written old _ (to_bytes 8 link.content_length) _ (
          fwrite-Written old _ (to_bytes 4 link.type') _
            (fwrite-Written old _ s.url _ (fwrite-Written old pre s.name fp w)))))

pub save_links-Written :
    (old pre : List ℕ) (links : List Entry) (fp : File) (all : AllStorable links)
    → Written old pre fp
    → Written old (pre ++ images links all) (save_links links fp)
unfolding save_links
save_links-Written old pre [] fp all w = rw (append-nil pre) w
save_links-Written old pre (link ∷ links) fp all w =
    rw (← grown-image pre link all.0 (images links all.1)) (
      save_links-Written old (grown pre link all.0) links (save_link link fp) all.1
        (save_link-Written old pre link fp all.0 w))

fread_all-Reading :
    (pre mid rest : List ℕ) (n : ℕ) (fp : File)
    → length mid ≡ n
    → Reading pre (mid ++ rest) fp
    → (fp' : File) × (fread_all n fp ≡ some (mid, fp')) × Reading (pre ++ mid) rest fp'
unfolding fread_all
fread_all-Reading pre mid rest n fp e r =
    let both = fread-Reading pre mid rest fp r in
    (
      (fread (length mid) fp).1,
      (rw (← e) (rw (fread_all, both.0, ==_self (length mid)) refl)),
      both.1,
    )

restored :
    (link : Entry) (s : IsStorable link)
    → record {
      linkname = s.name ++ 0 ∷ [];
      f_url = s.url ++ 0 ∷ [];
      type' = of_bytes (to_bytes 4 link.type');
      content_length = of_bytes (to_bytes 8 link.content_length);
      time = signed 64 (of_bytes (coded 8 link.time));
    }
      ≡ link
restored link s =
    rw
      (
        of_bytes-to_bytes 4 link.type' s.type_fits,
        of_bytes-to_bytes 8 link.content_length s.length_fits,
        Decodes-long link.time s.time_fits,
        ← s.name_ends,
        ← s.url_ends,
      )
      refl

read_link-Reading :
    (pre rest : List ℕ) (link : Entry) (s : IsStorable link) (fp : File)
    → Reading pre (image link s rest) fp
    → (fp' : File) × (read_link fp ≡ some (link, fp')) × Reading (grown pre link s) rest fp'
unfolding read_link
read_link-Reading pre rest link s fp r =
    let (fp1, e1, r1) = fread_all-Reading pre s.name _ name_max fp s.name_length r in
    let (fp2, e2, r2) = fread_all-Reading _ s.url _ path_max fp1 s.url_length r1 in
    let (fp3, e3, r3) =
      fread_all-Reading _ (to_bytes 4 link.type') _ 4 fp2 (length-to_bytes 4 link.type') r2 in
    let (fp4, e4, r4) =
      fread_all-Reading _ (to_bytes 8 link.content_length) _ 8 fp3
        (length-to_bytes 8 link.content_length) r3 in
    let (fp5, e5, r5) =
      fread_all-Reading _ (coded 8 link.time) rest 8 fp4
        (length-to_bytes 8 (pattern_of 64 link.time)) r4 in
    let read : Entry = record {
      linkname = s.name ++ 0 ∷ [];
      f_url = s.url ++ 0 ∷ [];
      type' = of_bytes (to_bytes 4 link.type');
      content_length = of_bytes (to_bytes 8 link.content_length);
      time = signed 64 (of_bytes (coded 8 link.time));
    } in
    let step : read_link fp ≡ some (read, fp5) = simp (read_link, e1, e2, e3, e4, e5) in
    (fp5, step ∙ ap (λ (x : Entry). some (x, fp5)) (restored link s), r5)

pub read_links-Reading :
    (pre : List ℕ) (links : List Entry) (all : AllStorable links) (fp : File)
    → Reading pre (images links all) fp
    → read_links (length links) fp ≡ some links
unfolding read_links
read_links-Reading pre [] all fp r = refl
read_links-Reading pre (link ∷ links) all fp r =
    let (fp1, e1, r1) = read_link-Reading pre (images links all.1) link all.0 fp r in
    let e2 = read_links-Reading (grown pre link all.0) links all.1 fp1 r1 in
    rw (read_links, e1, e2) refl

pub length-images :
    (links : List Entry) (all : AllStorable links)
    → length (images links all) ≡ length links * entry_size
unfolding entry_size
length-images [] all = refl
length-images (link ∷ links) all =
    let s = all.0 in
    let rest : List ℕ = images links all.1 in
    let c5 : List ℕ = coded 8 link.time ++ rest in
    let c4 : List ℕ = to_bytes 8 link.content_length ++ c5 in
    let c3 : List ℕ = to_bytes 4 link.type' ++ c4 in
    omega (
      arith,
      length-images links all.1,
      length-append s.name (s.url ++ c3),
      length-append s.url c3,
      length-append (to_bytes 4 link.type') c4,
      length-append (to_bytes 8 link.content_length) c5,
      length-append (coded 8 link.time) rest,
      s.name_length,
      s.url_length,
      length-to_bytes 4 link.type',
      length-to_bytes 8 link.content_length,
      length-to_bytes 8 (pattern_of 64 link.time),
    )
