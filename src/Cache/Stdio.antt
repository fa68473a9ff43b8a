-- ===== src/Cache/Stdio.antt =====
-- What src/cache.c uses of a C stream: fseek, fread, fwrite, feof, ferror. A stream is its file's
-- bytes, the position and the two indicators; `seekable` and `healthy` say whether the system
-- serves the seeks and the transfers on it.
pub mod Sequential
use httpdirfs.Prelude.{
  ◌*◌, ℕ, zero, suc, ◌+◌, ◌-◌, ◌≤◌, ◌<◌, ◌≡◌, refl, sym, ap, ◌∙◌, List, [], ◌∷◌, ◌++◌, Bool, true,
  false, Option, none, some, ltb, if◌then◌else◌, arith, length, length-append, take, drop,
  length-take, length-drop, take-append_left, drop-append_left, ge→ltb,
}
use httpdirfs.Prelude.Int.{ℤ}
use httpdirfs.Cache.Words.{to_bytes, of_bytes, pattern_of, signed, length-to_bytes}

pub record File : Type 0 where
  pub bytes : List ℕ
  pub position : ℕ
  pub eof : Bool
  pub error : Bool
  pub seekable : Bool
  pub healthy : Bool

-- fseek(fp, offset, SEEK_SET), for an offset that is not negative; it clears the end-of-file
-- indicator. `none` is the failure.
unfoldable pub fseek : ℕ → File → Option File
fseek offset fp = if fp.seekable then some (record fp { position = offset; eof = false }) else none

-- fread(buf, 1, n, fp): the bytes read
unfoldable pub fread : ℕ → File → List ℕ × File
fread n fp =
    if fp.healthy
    then (
      take n (drop fp.position fp.bytes),
      record fp {
        position = fp.position + length (take n (drop fp.position fp.bytes));
        eof = if ltb (length (take n (drop fp.position fp.bytes))) n then true else fp.eof;
      },
    )
    else ([], record fp { error = true })

-- fread(&x, n, 1, fp) for an integer of n bytes; `none` is the result 0
unfoldable pub fread_int : ℕ → File → Option ℤ × File
fread_int n fp =
    let (bs, fp') = fread n fp in
    ((if ltb (length bs) n then none else some (signed (8 * n) (of_bytes bs))), fp')

-- the file's bytes after a write at a position; a gap is filled by zeros
unfoldable pub zeros : ℕ → List ℕ
zeros zero = []
zeros (suc n) = 0 ∷ zeros n

unfoldable pub overwrite : List ℕ → ℕ → List ℕ → List ℕ
overwrite old p new = (take p old ++ zeros (p - length old)) ++ (new ++ drop (p + length new) old)

-- fwrite(buf, 1, n, fp): the number of bytes written
unfoldable pub fwrite : List ℕ → File → ℕ × File
unfolding overwrite
fwrite bs fp =
    if fp.healthy
    then (
      length bs,
      record fp { bytes = overwrite fp.bytes fp.position bs; position = fp.position + length bs },
    )
    else (0, record fp { error = true })

unfoldable pub fwrite_int : ℕ → ℤ → File → File
fwrite_int n z fp = (fwrite (to_bytes n (pattern_of (8 * n) z)) fp).1
