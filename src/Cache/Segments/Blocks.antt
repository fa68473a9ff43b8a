-- ===== src/Cache/Segments/Blocks.antt =====
-- The data and the marks of a cache agree with the file on the server.
use native.Mathlib.Nat.{div-add-mod', mod-lt, div-eq_of_lt, mul-add-div_right}
use mathlib.Core.Path.{subst}
use httpdirfs.Prelude.{
  ℕ, ◌+◌, ◌-◌, ◌*◌, ◌/◌, ◌≤◌, ◌<◌, ◌≡◌, refl, sym, ap, ◌∙◌, List, true, false, ◌&&◌, some, ltb, leb,
  ◌==◌, if◌then◌else◌, get_or, set, length, length-set, length-take, length-drop, get_or-take,
  get_or-drop, take, drop, min, arith, Bool-cases, inl, inr, ◌⊎◌,
}
use httpdirfs.Prelude.Int.{ℤ, pos, negsuc, pos_part, eqb_ℤ}
use httpdirfs.Prelude.Run.{ok, Returns, ◌>>=◌}
use httpdirfs.Cache.Stdio.{File}
use httpdirfs.Cache.State.{Cache, Link, int64_max}
use httpdirfs.Cache.Meta.Geometry.{IsLaidOut}
use httpdirfs.Cache.Seg.{seg_exist, seg_set}
use httpdirfs.Cache.Seg.Marks.{mark_of, get_or-set, seg_set-pos, seg_exist-mark_of}
use httpdirfs.Cache.Data.{data_read}
use httpdirfs.Cache.Data.Bytes.{IsOpen, byte_at, Stored, data_write-Stored, data_read-Fetched}
use httpdirfs.Cache.Reading.Whole.{IsSlice}
use httpdirfs.Cache.Downloads.Search.{eq_of, eqb_ℤ-self}
use httpdirfs.Cache.Segments.{block_start, store_block}
use httpdirfs.Cache.Segments.Threads.{IsRequest}

-- The cache of a file in blocks of `b` is laid out and its streams work, and the data of each
-- block that is marked is that of the file on the server.
pub record IsIntact (content : ℕ → ℕ) (link : Link) (b : ℕ) (cf : Cache) : Type 0 where
  pub linked : cf.link ≡ some link
  pub laid_out : IsLaidOut cf link
  pub sized : laid_out.b ≡ b
  pub small : link.content_length ≤ int64_max
  pub fp : File
  pub opened : IsOpen cf fp
  pub enough : link.content_length ≤ length fp.bytes
  pub stored : (i : ℕ) → i < link.content_length → 1 ≤ mark_of cf (i / b) → byte_at fp i ≡ content i

module _ (content : ℕ → ℕ) (link : Link) (b : ℕ) where
  pub block_start-intact :
      (cf : Cache) (o : ℕ) → IsIntact content link b cf → block_start cf o ≡ o / b * b
  unfolding block_start
  block_start-intact cf o k =
      ap (λ z. o / pos_part z * pos_part z) (k.laid_out.block ∙ ap pos k.sized)

  pub seg_exist-intact :
      (cf : Cache) (n : ℕ)
      → IsIntact content link b cf
      → seg_exist cf (pos n) ≡ ok (mark_of cf (n / b))
  seg_exist-intact cf n k =
      seg_exist-mark_of cf link k.laid_out n ∙ ap (λ c. ok (mark_of cf (n / c))) k.sized

  pub positive : (cf : Cache) → IsIntact content link b cf → 1 ≤ b
  positive cf k = subst (λ c. 1 ≤ c) k.sized k.laid_out.positive

-- the offsets of a block
pub in_block : (q b m : ℕ) → 1 ≤ b → q * b ≤ m → m < q * b + b → m / b ≡ q
in_block q b m h low high =
    let split : q * b + (m - q * b) ≡ m = omega arith in
    let none_left : (m - q * b) / b ≡ 0 = div-eq_of_lt (omega arith) in
    ap (λ z. z / b) (sym split) ∙ mul-add-div_right h q (m - q * b) ∙ omega (arith, none_left)

pub of_block : (b m : ℕ) → 1 ≤ b → (m / b * b ≤ m) × (m < m / b * b + b)
of_block b m h = let whole = div-add-mod' m b in let rest = mod-lt m h in (omega arith, omega arith)

-- what a read of `n` bytes at the offset `o` puts out
pub data Outcome (content : ℕ → ℕ) (o n : ℕ) (send : ℤ) (out : List ℕ) : Type 0 where
  negative : (e : ℕ) → send ≡ negsuc e → Outcome content o n send out
  served : send ≡ pos n → length out ≡ n → IsSlice content o n out → Outcome content o n send out

-- the bytes of a request in the bytes of its block
pub cut-Outcome :
    (content : ℕ → ℕ) (start o len m : ℕ) (bytes : List ℕ)
    → start ≤ o
    → o - start + len ≤ m
    → m ≤ length bytes
    → IsSlice content start m bytes
    → Outcome content o len (pos len) (take len (drop (o - start) bytes))
cut-Outcome content start o len m bytes low inside enough slice =
    let whole : length (take len (drop (o - start) bytes)) ≡ len =
      omega (arith, length-take len (drop (o - start) bytes), length-drop (o - start) bytes) in
    served refl whole (λ i h.
      let place : start + (o - start + i) ≡ o + i = omega arith in
      get_or-take len (drop (o - start) bytes) i
      ∙ ground
          (arith, whole, get_or-drop (o - start) bytes i, slice (o - start + i), ap content place))

module _ (content : ℕ → ℕ) (link : Link) (b : ℕ) (cf : Cache) (k : IsIntact content link b cf) where
  -- `Data_read` for a request whose block is marked
  pub data_read-IsIntact :
      (len o : ℕ)
      → IsRequest link.content_length b len o
      → 1 ≤ mark_of cf (o / b)
      → Returns
          (data_read cf (pos len) (pos o))
          (λ r. Outcome content o len r.count r.buf × IsIntact content link b r.after)
  data_read-IsIntact len o q marked =
      let f =
        data_read-Fetched cf k.fp link len o k.opened k.linked k.small k.enough q.some_bytes
          (omega (arith, q.some_bytes, q.inside)) in
      let all : min len (link.content_length - o) ≡ len = omega (arith, q.inside) in
      let h : 1 ≤ b = positive content link b cf k in
      let block = of_block b o h in
      let rest = div-add-mod' o b in
      (
        record {
          count = pos (min len (link.content_length - o));
          buf = f.buf;
          after = record cf { dfp = some f.fp' };
        },
        f.returns,
        (
          served (ap pos all) (f.size ∙ all) (λ i less.
              let there : (o + i) / b ≡ o / b =
                in_block (o / b) b (o + i) h (omega arith) (omega (arith, q.one_block)) in
              f.byte i (omega (arith, f.size, all))
              ∙ k.stored (o + i) (omega (arith, q.inside))
                  (omega (arith, marked, ap (mark_of cf) there))),
          record {
            linked = k.linked;
            laid_out = record {
              b = k.laid_out.b;
              block = k.laid_out.block;
              positive = k.laid_out.positive;
              count = k.laid_out.count;
              marks = k.laid_out.marks;
              some_mark = k.laid_out.some_mark;
            };
            sized = k.sized;
            small = k.small;
            fp = f.fp';
            opened = f.served;
            enough = omega (arith, k.enough, ap length f.kept);
            stored = λ i less m. ap (λ bs. get_or bs i 0) f.kept ∙ k.stored i less m;
          },
        ),
      )

  -- the data stream and the marks are replaced
  abbrev stored_cache : File → ℕ → Cache
  stored_cache fp q = record cf { dfp = some fp; seg = set cf.seg q 1 }

  module _ (q n : ℕ) (buf : List ℕ) (some_of : 1 ≤ n) (in_file : q * b + n ≤ link.content_length)
      (in_buf : n ≤ length buf) (one : n ≤ b) (all : (n ≡ b) ⊎ (q * b + n ≡ link.content_length))
      (slice : IsSlice content (q * b) n buf) where
    abbrev done : Stored cf k.fp buf n (q * b)
    done = data_write-Stored cf k.fp buf n (q * b) k.opened some_of in_buf

    stored_byte :
        (i : ℕ)
        → i < link.content_length
        → 1 ≤ mark_of (stored_cache done.fp' q) (i / b)
        → byte_at done.fp' i ≡ content i
    stored_byte i less m =
        let h : 1 ≤ b = positive content link b cf k in
        let block = of_block b i h in
        elim (Bool-cases (q == i / b)) [
          | inl e ↦
              let low : q * b ≤ i = ground (arith, e, block, ap (λ z. z * b) (eq_of q (i / b) e)) in
              let high : i < q * b + b =
                ground (arith, e, block, ap (λ z. z * b) (eq_of q (i / b) e)) in
              let inside : i < q * b + n = elim all [
                | inl full ↦ omega (arith, high, full)
                | inr last ↦ omega (arith, less, last)
              ] in
              let place : q * b + (i - q * b) ≡ i = omega arith in
              done.byte i ∙ ground (arith, low, inside, slice (i - q * b), ap content place)
          | inr e ↦
              let before : 1 ≤ mark_of cf (i / b) =
                ground (arith, e, m, get_or-set cf.seg q (i / b) 1) in
              let out : (leb (q * b) i && ltb i (q * b + n)) ≡ false =
                elim (Bool-cases (leb (q * b) i && ltb i (q * b + n))) [
                  | inl o ↦
                      let there = in_block q b i h (ground (arith, o)) (ground (arith, o, one)) in
                      absurd (ground (arith, e, there))
                  | inr o ↦ o
                ] in
              done.byte i ∙ (rw out (k.stored i less before))
        ]

    pub store_block-IsIntact :
        Returns (store_block cf (pos n) buf (q * b)) (λ cf'. IsIntact content link b cf')
    unfolding store_block
    store_block-IsIntact =
        let h : 1 ≤ b = positive content link b cf k in
        let c1 : Cache = record cf { dfp = some done.fp' } in
        let laid1 : IsLaidOut c1 link = record {
          b = k.laid_out.b;
          block = k.laid_out.block;
          positive = k.laid_out.positive;
          count = k.laid_out.count;
          marks = k.laid_out.marks;
          some_mark = k.laid_out.some_mark;
        } in
        let place : q * b / k.laid_out.b ≡ q =
          ap (λ c. q * b / c) k.sized ∙ in_block q b (q * b) h (omega arith) (omega (arith, h)) in
        let full : eqb_ℤ (pos n) (pos n) ≡ true = eqb_ℤ-self (pos n) in
        let size : length (set cf.seg q 1) ≡ length cf.seg = length-set cf.seg q 1 in
        (
          stored_cache done.fp' q,
          ap (λ m. m >>= (λ r. if eqb_ℤ r.0 (pos n) then seg_set r.1 (pos (q * b)) 1 else ok r.1))
                done.returns
              ∙ (rw full (
                  seg_set-pos c1 link laid1 (q * b) 1
                  ∙ ap (λ z. ok (record c1 { seg = set cf.seg z 1 })) place)),
          record {
            linked = k.linked;
            laid_out = record {
              b = k.laid_out.b;
              block = k.laid_out.block;
              positive = k.laid_out.positive;
              count = k.laid_out.count ∙ ap pos (sym size);
              marks = size ∙ k.laid_out.marks;
              some_mark = omega (arith, size, k.laid_out.some_mark);
            };
            sized = k.sized;
            small = k.small;
            fp = done.fp';
            opened = record {
              stream = refl;
              seekable = done.served.seekable;
              healthy = done.served.healthy;
            };
            enough = omega (arith, k.enough, done.size);
            stored = stored_byte;
          },
        )
