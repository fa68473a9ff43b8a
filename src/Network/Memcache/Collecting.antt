-- ===== src/Network/Memcache/Collecting.antt =====
-- The bytes that the calls of `write_memory_callback` have received so far.
use mathlib.Core.List.{append_assoc, append-nil}
use native.Mathlib.Nat.{div-lt_iff_lt-mul, mul_comm}
use httpdirfs.Prelude.{
  ℕ, suc, ◌+◌, ◌-◌, ◌*◌, ◌/◌, ◌%◌, ◌^◌, ◌≤◌, ◌<◌, ◌≡◌, refl, sym, ap, ◌∙◌, List, [], ◌∷◌, ◌++◌,
  true, false, ◌&&◌, not, Option, none, some, ltb, ◌==◌, length, take, drop, replicate, arith,
  length-append, length-replicate, length-take, length-drop, take-length, take-append_left,
  Bool-cases, inl, inr, ge→ltb, lt→ltb,
}
use httpdirfs.Prelude.Run.{Run, ok, fatal, fault, out_of_fuel, ◌>>=◌, Returns}
use httpdirfs.Network.Memcache.{TransferStruct, size_max, resized, copy_to, write_memory_callback}

-- The buffer holds the bytes received, with a NUL behind them.
abbrev pub Holds : Option (List ℕ) → List ℕ → Type 0
Holds none bytes = bytes ≡ []
Holds (some buf) bytes = buf ≡ bytes ++ (0 ∷ [])

pub record IsCollected (ts : TransferStruct) (bytes : List ℕ) : Type 0 where
  pub holds : Holds ts.data' bytes
  pub size : ts.curr_size ≡ length bytes

drop-append_more : (xs ys : List ℕ) (k : ℕ) → drop (length xs + k) (xs ++ ys) ≡ drop k ys
drop-append_more [] ys k = let e : 0 + k ≡ k = omega arith in ap (λ n. drop n ys) e
drop-append_more (x ∷ xs) ys k =
    let e : suc (length xs) + k ≡ suc (length xs + k) = omega arith in
    ap (λ n. drop n (x ∷ (xs ++ ys))) e ∙ drop-append_more xs ys k

copy_to-append :
    (pre bs rest : List ℕ)
    → length bs ≤ length rest
    → copy_to (pre ++ rest) (length pre) bs ≡ ok ((pre ++ bs) ++ drop (length bs) rest)
unfolding copy_to
copy_to-append pre bs rest h =
    let inside : ltb (length (pre ++ rest)) (length pre + length bs) ≡ false =
      ge→ltb (length (pre ++ rest)) (length pre + length bs)
        (omega (arith, length-append pre rest)) in
    rw (inside, take-append_left pre rest, drop-append_more pre rest (length bs))
      (simp append_assoc)

resized-rest :
    (junk : ℕ) (d : Option (List ℕ)) (bytes : List ℕ) (n : ℕ)
    → Holds d bytes
    → (rest : List ℕ) × ((resized junk d (length bytes + n + 1) ≡ bytes ++ rest)
        × (length rest ≡ n + 1))
unfolding resized
resized-rest junk none bytes n h =
    let e : length bytes + n + 1 ≡ n + 1 = omega (arith, ap length h) in
    (
      replicate (n + 1) junk,
      (
        ap (λ m. replicate m junk) e ∙ ap (λ b. b ++ replicate (n + 1) junk) (sym h),
        length-replicate (n + 1) junk,
      ),
    )
resized-rest junk (some buf) bytes n h =
    let long : length buf ≡ length bytes + 1 = ap length h ∙ length-append bytes (0 ∷ []) in
    (
      (0 ∷ []) ++ replicate (length bytes + n + 1 - length buf) junk,
      (
        ap (λ b. b ++ replicate (length bytes + n + 1 - length buf) junk)
              (take-length buf (length bytes + n + 1) (omega (arith, long)) ∙ h)
            ∙ simp append_assoc,
        omega (arith, long, length-replicate (length bytes + n + 1 - length buf) junk),
      ),
    )

drop-all : (xs : List ℕ) → length xs ≡ 1 → drop 1 xs ≡ []
drop-all [] h = refl
drop-all (x ∷ []) h = refl
drop-all (x ∷ y ∷ xs) h = absurd (omega arith)

ltb_iff : (a b c d : ℕ) → (a < b → c < d) → (c < d → a < b) → ltb a b ≡ ltb c d
ltb_iff a b c d f g = elim (Bool-cases (ltb a b)) [
  | inl e ↦ e ∙ sym (lt→ltb c d (f (ground (arith, e))))
  | inr e ↦ elim (Bool-cases (ltb c d)) [
    | inl k ↦ absurd (ground (arith, e, g (ground (arith, k))))
    | inr k ↦ e ∙ sym k
  ]
]

-- The guard of the callback stands for the sum that must fit a `size_t`.
guard-fits :
    (curr size nmemb : ℕ)
    → curr + 1 ≤ size_max
    → (not (size == 0) && ltb ((size_max + 2 ^ 64 - curr - 1) % 2 ^ 64 / size) nmemb)
      ≡ ltb size_max (curr + size * nmemb + 1)
guard-fits curr size nmemb h = elim (Bool-cases (size == 0)) [
  | inl e ↦ let z : size ≡ 0 = ground (arith, e) in rw (e, z) (ground arith)
  | inr e ↦
      let left : (size_max + 2 ^ 64 - curr - 1) % 2 ^ 64 ≡ size_max - curr - 1 = omega arith in
      let turned : nmemb * size ≡ size * nmemb = mul_comm nmemb size in
      let some_size : 1 ≤ size = ground (arith, e) in
      let bound = div-lt_iff_lt-mul {k = size} {x = size_max - curr - 1} {y = nmemb} some_size in
      rw (e, left)
        (ltb_iff ((size_max - curr - 1) / size) nmemb size_max (curr + size * nmemb + 1)
          (λ k. omega (arith, bound.0 k, turned)) (λ k. bound.1 (omega (arith, k, turned))))
]

-- the two writes at the end of what was collected
module _ (junk : ℕ) (d : Option (List ℕ)) (bytes bs : List ℕ) (n : ℕ) (holds : Holds d bytes)
    (size : length bs ≡ n) where
  terminated :
      (t : List ℕ)
      → length t ≡ 1
      → copy_to ((bytes ++ bs) ++ t) (length bytes + n) (0 ∷ []) ≡ ok ((bytes ++ bs) ++ (0 ∷ []))
  terminated t one =
      let place : length bytes + n ≡ length (bytes ++ bs) =
        omega (arith, length-append bytes bs, size) in
      ap (λ p. copy_to ((bytes ++ bs) ++ t) p (0 ∷ [])) place
      ∙ copy_to-append (bytes ++ bs) (0 ∷ []) t (omega (arith, one))
      ∙ ap (λ r. ok (((bytes ++ bs) ++ (0 ∷ [])) ++ r)) (drop-all t one)
      ∙ ap ok (append-nil ((bytes ++ bs) ++ (0 ∷ [])))

  both_writes :
      (curr : ℕ)
      → curr ≡ length bytes
      → (copy_to (resized junk d (curr + n + 1)) curr bs
          >>= (λ buf. copy_to buf (curr + n) (0 ∷ [])))
        ≡ ok ((bytes ++ bs) ++ (0 ∷ []))
  both_writes curr at =
      let (rest, (split, long)) = resized-rest junk d bytes n holds in
      let t : List ℕ = drop (length bs) rest in
      ap (λ c. copy_to (resized junk d (c + n + 1)) c bs >>= (λ buf. copy_to buf (c + n) (0 ∷ [])))
        at
      ∙ ap (λ b. copy_to b (length bytes) bs >>= (λ buf. copy_to buf (length bytes + n) (0 ∷ [])))
          split
      ∙ ap (λ m. m >>= (λ buf. copy_to buf (length bytes + n) (0 ∷ [])))
          (copy_to-append bytes bs rest (omega (arith, size, long)))
      ∙ terminated t (omega (arith, length-drop (length bs) rest, size, long))

bind_assoc :
    {A B : Type 0} (m : Run A) (f : A → Run A) (g : A → Run B) (a : A)
    → (m >>= f) ≡ ok a
    → (m >>= (λ x. f x >>= g)) ≡ g a
bind_assoc (ok x) f g a h = ap (λ r. r >>= g) h
bind_assoc fatal f g a h = absurd cc
bind_assoc fault f g a h = absurd cc
bind_assoc out_of_fuel f g a h = absurd cc

-- Let the buffer hold the bytes received so far with a NUL behind them, as many as fit a `size_t`,
-- and let curl hand over at least `size * nmemb` bytes. `write_memory_callback` ends the program
-- if the old bytes, the new ones and the NUL do not fit a `size_t`. If they fit, it returns
-- `size * nmemb` without an access outside of the buffer, which then holds the old bytes, the new
-- ones behind them and a NUL.
pub write_memory_callback-IsCollected :
    (junk : ℕ) (recv_data bytes : List ℕ) (size nmemb : ℕ) (ts : TransferStruct)
    → IsCollected ts bytes
    → length bytes + 1 ≤ size_max
    → size * nmemb ≤ length recv_data
    → (size_max < length bytes + size * nmemb + 1
        → write_memory_callback junk recv_data size nmemb ts ≡ fatal)
      × (length bytes + size * nmemb + 1 ≤ size_max
          → Returns (write_memory_callback junk recv_data size nmemb ts) (λ r.
            (r.0 ≡ size * nmemb) × IsCollected r.1 (bytes ++ take (size * nmemb) recv_data)))
unfolding write_memory_callback
write_memory_callback-IsCollected junk recv_data bytes size nmemb ts w small held =
    let n : ℕ = size * nmemb in
    let guard = guard-fits ts.curr_size size nmemb (omega (arith, w.size)) in
    (
      λ over.
          let full : ltb size_max (ts.curr_size + size * nmemb + 1) ≡ true =
            lt→ltb size_max (ts.curr_size + size * nmemb + 1) (omega (arith, w.size)) in
          rw (write_memory_callback, guard, full) refl,
      λ fits.
          let room : ltb size_max (ts.curr_size + size * nmemb + 1) ≡ false =
            ge→ltb size_max (ts.curr_size + size * nmemb + 1) (omega (arith, w.size)) in
          let enough : ltb (length recv_data) (size * nmemb) ≡ false =
            ge→ltb (length recv_data) (size * nmemb) held in
          let bs : List ℕ = take n recv_data in
          let whole : length bs ≡ n = omega (arith, length-take n recv_data) in
          let writes = both_writes junk ts.data' bytes bs n w.holds whole ts.curr_size w.size in
          let result : ℕ × TransferStruct = (
            n,
            record { data' = some ((bytes ++ bs) ++ (0 ∷ [])); curr_size = ts.curr_size + n },
          ) in
          (
            result,
            rw (write_memory_callback, guard, room, enough)
                (bind_assoc (copy_to (resized junk ts.data' (ts.curr_size + n + 1)) ts.curr_size bs)
                  (λ buf. copy_to buf (ts.curr_size + n) (0 ∷ []))
                  (λ buf'. ok (n, record { data' = some buf'; curr_size = ts.curr_size + n }))
                  ((bytes ++ bs) ++ (0 ∷ [])) writes),
            (
              refl,
              record { holds = refl; size = omega (arith, w.size, length-append bytes bs, whole) },
            ),
          ),
    )
