-- ===== src/Cache/Data/Bytes.antt =====
-- The data file as a map from offsets to bytes, which `Data_write` updates and `Data_read` reads.
use httpdirfs.Prelude.{
  ℕ, zero, suc, ◌+◌, ◌-◌, ◌≤◌, ◌<◌, ◌≡◌, refl, ap, ◌∙◌, List, ◌++◌, true, false, ◌&&◌, some, ltb,
  leb, if◌then◌else◌, get_or, length, take, drop, min, max, arith, length-take, length-drop,
  length-append, get_or-append, get_or-take, get_or-drop, get_or-behind, list-ext, Bool-cases, inl,
  inr, ge→ltb,
}
use httpdirfs.Prelude.Int.{pos, leb_ℤ}
use httpdirfs.Prelude.Run.{ok, Returns}
use httpdirfs.Cache.Stdio.{File, fseek, fread, fwrite, overwrite, zeros}
use httpdirfs.Cache.State.{Cache, Link, int64_max}
use httpdirfs.Cache.Data.{fseeko, read_stream, read_file, data_read, write_stream, data_write}

pub length-zeros : (n : ℕ) → length (zeros n) ≡ n
unfolding zeros
length-zeros zero = refl
length-zeros (suc n) = ap suc (length-zeros n)

get_or-zeros : (n i : ℕ) → get_or (zeros n) i 0 ≡ 0
unfolding zeros
get_or-zeros zero i = refl
get_or-zeros (suc n) zero = refl
get_or-zeros (suc n) (suc i) = get_or-zeros n i

-- what stands in front of the bytes written at a position
abbrev head_of : List ℕ → ℕ → List ℕ
head_of old p = take p old ++ zeros (p - length old)

length-head_of : (old : List ℕ) (p : ℕ) → length (head_of old p) ≡ p
length-head_of old p = omega (
  arith,
  length-append (take p old) (zeros (p - length old)),
  length-zeros (p - length old),
  length-take p old,
)

get_or-late : (xs : List ℕ) (i : ℕ) → ltb i (length xs) ≡ false → get_or xs i 0 ≡ 0
get_or-late xs i h = get_or-behind xs i (ground (arith, h))

get_or-head_of :
    (old : List ℕ) (p i : ℕ) → get_or (head_of old p) i 0 ≡ (if ltb i p then get_or old i 0 else 0)
get_or-head_of old p i =
    get_or-append (take p old) (zeros (p - length old)) i
    ∙ (elim (Bool-cases (ltb i (length (take p old)))) [
      | inl e ↦ rw (e, get_or-take p old i) (ground (arith, e, length-take p old))
      | inr e ↦
          rw (e, get_or-zeros (p - length old) (i - length (take p old)))
            (ground (arith, e, length-take p old, get_or-late old i))
    ])

-- A write replaces the bytes of its range.
pub get_or-overwrite :
    (old new : List ℕ) (p i : ℕ)
    → get_or (overwrite old p new) i 0
      ≡ (if leb p i && ltb i (p + length new) then get_or new (i - p) 0 else get_or old i 0)
unfolding overwrite
get_or-overwrite old new p i =
    get_or-append (head_of old p) (new ++ drop (p + length new) old) i
    ∙ (elim (Bool-cases (ltb i p)) [
      | inl e ↦
          let short : ltb i (length (head_of old p)) ≡ true =
            ground (arith, e, length-head_of old p) in
          rw short (get_or-head_of old p i ∙ ground (arith, e))
      | inr e ↦
          let long : ltb i (length (head_of old p)) ≡ false =
            ground (arith, e, length-head_of old p) in
          rw (long, length-head_of old p)
            (get_or-append new (drop (p + length new) old) (i - p)
              ∙ (elim (Bool-cases (ltb (i - p) (length new))) [
                | inl f ↦ rw f (ground (arith, e, f))
                | inr f ↦
                    let back : p + length new + (i - p - length new) ≡ i = ground (arith, e, f) in
                    rw (f, get_or-drop (p + length new) old (i - p - length new), back)
                      (ground (arith, e, f))
              ]))
    ])

length-overwrite :
    (old new : List ℕ) (p : ℕ) → length (overwrite old p new) ≡ max (length old) (p + length new)
unfolding overwrite
length-overwrite old new p = omega (
  arith,
  length-append (take p old ++ zeros (p - length old)) (new ++ drop (p + length new) old),
  length-append (take p old) (zeros (p - length old)),
  length-append new (drop (p + length new) old),
  length-zeros (p - length old),
  length-take p old,
  length-drop (p + length new) old,
)

-- The data file is open, and the system serves its seeks and transfers.
pub record IsOpen (cf : Cache) (fp : File) : Type 0 where
  pub stream : cf.dfp ≡ some fp
  pub seekable : fp.seekable ≡ true
  pub healthy : fp.healthy ≡ true

-- the byte of the data file at an offset, 0 where it has none
abbrev pub byte_at : File → ℕ → ℕ
byte_at fp i = get_or fp.bytes i 0

-- `Data_write` of `n` bytes at the offset `o` has returned `n`, with the stream still served. The
-- file has the bytes of the buffer in the `n` places from `o` and the bytes it had in all others,
-- and has grown as far as the range goes.
pub record Stored (cf : Cache) (fp : File) (buf : List ℕ) (n o : ℕ) : Type 0 where
  pub fp' : File
  pub returns : data_write cf buf (pos n) (pos o) ≡ ok (pos n, record cf { dfp = some fp' })
  pub served : IsOpen (record cf { dfp = some fp' }) fp'
  pub size : length fp'.bytes ≡ max (length fp.bytes) (o + n)
  pub byte :
      (i : ℕ)
      → byte_at fp' i ≡ (if leb o i && ltb i (o + n) then get_or buf (i - o) 0 else byte_at fp i)

-- `Data_write` of some bytes that the buffer holds, at an offset that is not negative and to a
-- stream that is served, returns their number, puts them in their range and changes no other byte.
pub data_write-Stored :
    (cf : Cache) (fp : File) (buf : List ℕ) (n o : ℕ)
    → IsOpen cf fp
    → 1 ≤ n
    → n ≤ length buf
    → Stored cf fp buf n o
unfolding data_write write_stream fseeko fseek fwrite
data_write-Stored cf fp buf n o open' some_bytes enough =
    let whole : length (take n buf) ≡ n = omega (arith, length-take n buf) in
    let positive : leb_ℤ (pos n) (pos 0) ≡ false = ground (arith, some_bytes) in
    let held : ltb (length buf) n ≡ false = ground (arith, enough) in
    record {
      fp' = record fp {
        bytes = overwrite fp.bytes o (take n buf);
        position = o + length (take n buf);
        eof = false;
      };
      returns =
          rw (data_write, positive, open'.stream, open'.seekable, held, open'.healthy, whole) refl;
      served = record { stream = refl; seekable = open'.seekable; healthy = open'.healthy };
      size = length-overwrite fp.bytes (take n buf) o ∙ omega (arith, whole);
      byte = λ i.
          get_or-overwrite fp.bytes (take n buf) o i
          ∙ ground (arith, whole, get_or-take n buf (i - o));
    }

-- `Data_read` of `n` bytes at the offset `o` of a file of `total_len` bytes has returned the
-- smaller of `n` and what the file has from `o` on, and the buffer has that many bytes of the
-- data file from `o` on; the stream is still served and its bytes are as they were.
pub record Fetched (cf : Cache) (fp : File) (total_len n o : ℕ) : Type 0 where
  pub buf : List ℕ
  pub fp' : File
  pub returns :
      data_read cf (pos n) (pos o)
      ≡ ok (record {
        count = pos (min n (total_len - o));
        buf = buf;
        after = record cf { dfp = some fp' };
      })
  pub size : length buf ≡ min n (total_len - o)
  pub byte : (i : ℕ) → i < length buf → get_or buf i 0 ≡ byte_at fp (o + i)
  pub served : IsOpen (record cf { dfp = some fp' }) fp'
  pub kept : fp'.bytes ≡ fp.bytes

read_stream-Fetched :
    (cf : Cache) (fp : File) (n o : ℕ)
    → IsOpen cf fp
    → o + n ≤ length fp.bytes
    → read_stream cf n (pos o) cf.dfp
      ≡ ok (record {
        count = pos n;
        buf = take n (drop o fp.bytes);
        after = record cf {
          dfp = some (record fp { position = o + length (take n (drop o fp.bytes)); eof = false });
        };
      })
unfolding read_stream fseeko fseek fread
read_stream-Fetched cf fp n o open' inside =
    let whole : length (take n (drop o fp.bytes)) ≡ n =
      omega (arith, length-take n (drop o fp.bytes), length-drop o fp.bytes) in
    let full : ltb (length (take n (drop o fp.bytes))) n ≡ false = ground (arith, whole) in
    rw (open'.stream, open'.seekable, open'.healthy, full, whole) refl

-- `Data_read` of a positive number of bytes at an offset in the file, from a data file that is as
-- long as the link says, returns the bytes that it has there.
pub data_read-Fetched :
    (cf : Cache) (fp : File) (link : Link) (n o : ℕ)
    → IsOpen cf fp
    → cf.link ≡ some link
    → link.content_length ≤ int64_max
    → link.content_length ≤ length fp.bytes
    → 1 ≤ n
    → o < link.content_length
    → Fetched cf fp link.content_length n o
unfolding data_read read_file
data_read-Fetched cf fp link n o open' linked small sparse some_bytes inside =
    let m : ℕ = min n (link.content_length - o) in
    let whole : length (take m (drop o fp.bytes)) ≡ m =
      omega (arith, length-take m (drop o fp.bytes), length-drop o fp.bytes) in
    let fits : ltb int64_max link.content_length ≡ false =
      ge→ltb int64_max link.content_length small in
    let step : data_read cf (pos n) (pos o) ≡ read_stream cf m (pos o) cf.dfp =
      rw (data_read, linked, fits) (ground arith) in
    record {
      buf = take m (drop o fp.bytes);
      fp' = record fp { position = o + length (take m (drop o fp.bytes)); eof = false };
      returns = step ∙ read_stream-Fetched cf fp m o open' (omega arith);
      size = whole;
      byte = λ i h.
          get_or-take m (drop o fp.bytes) i ∙ ground (arith, whole, get_or-drop o fp.bytes i);
      served = record { stream = refl; seekable = open'.seekable; healthy = open'.healthy };
      kept = refl;
    }

-- After `Data_write` has put some bytes in a range of the file, `Data_read` of that range returns
-- their number and gives the bytes that were written.
pub data_read-data_write :
    (cf : Cache) (fp : File) (link : Link) (buf : List ℕ) (n o : ℕ)
    → IsOpen cf fp
    → cf.link ≡ some link
    → link.content_length ≤ int64_max
    → link.content_length ≤ length fp.bytes
    → 1 ≤ n
    → n ≤ length buf
    → o + n ≤ link.content_length
    → (cf' : Cache) × ((data_write cf buf (pos n) (pos o) ≡ ok (pos n, cf'))
        × Returns (data_read cf' (pos n) (pos o)) (λ r. (r.count ≡ pos n) × (r.buf ≡ take n buf)))
data_read-data_write cf fp link buf n o open' linked small sparse some_bytes enough inside =
    let w = data_write-Stored cf fp buf n o open' some_bytes enough in
    let cf' : Cache = record cf { dfp = some w.fp' } in
    let r =
      data_read-Fetched cf' w.fp' link n o w.served linked small (omega (arith, w.size)) some_bytes
        (omega arith) in
    let whole : min n (link.content_length - o) ≡ n = omega arith in
    (
      cf',
      (
        w.returns,
        (
          record {
            count = pos (min n (link.content_length - o));
            buf = r.buf;
            after = record cf' { dfp = some r.fp' };
          },
          r.returns,
          (
            ap pos whole,
            list-ext r.buf (take n buf) (omega (arith, r.size, length-take n buf))
                (λ i h. r.byte i h ∙ w.byte (o + i) ∙ ground (arith, r.size, get_or-take n buf i)),
          ),
        ),
      ),
    )
