-- ===== src/Network/Memcache.antt =====
-- `write_memory_callback` of src/memcache.c, by which curl hands over what it receives. The locking
-- of `dl_lock` and the broadcast to the waiting threads are left out.
pub mod Collecting
mod Tests
use httpdirfs.Prelude.{
  ℕ, zero, suc, ◌+◌, ◌-◌, ◌*◌, ◌/◌, ◌%◌, ◌^◌, List, [], ◌∷◌, ◌++◌, Bool, true, false, ◌&&◌, not,
  Option, none, some, ltb, ◌==◌, if◌then◌else◌, length, take, drop, replicate,
}
use httpdirfs.Prelude.Run.{Run, ok, fatal, fault, ◌>>=◌}

abbrev pub size_max : ℕ
size_max = 2 ^ 64 - 1

-- the buffer and the size received
pub record TransferStruct : Type 0 where
  pub data' : Option (List ℕ)
  pub curr_size : ℕ

-- REALLOC: the bytes behind the old ones are unspecified, `junk` here
unfoldable pub resized : ℕ → Option (List ℕ) → ℕ → List ℕ
resized junk none n = replicate n junk
resized junk (some old) n = take n old ++ replicate (n - length old) junk

-- a copy into a buffer, which has to lie in it
unfoldable pub copy_to : List ℕ → ℕ → List ℕ → Run (List ℕ)
copy_to buf p bs =
    if ltb (length buf) (p + length bs)
    then fault
    else ok (take p buf ++ (bs ++ drop (p + length bs) buf))

unfoldable pub write_memory_callback :
    ℕ → List ℕ → ℕ → ℕ → TransferStruct → Run (ℕ × TransferStruct)
unfolding resized copy_to
write_memory_callback junk recv_data size nmemb ts =
    if not (size == 0) && ltb ((size_max + 2 ^ 64 - ts.curr_size - 1) % 2 ^ 64 / size) nmemb
    then fatal
    else if ltb (length recv_data) (size * nmemb)
    then fault
    else (copy_to (resized junk ts.data' (ts.curr_size + size * nmemb + 1)) ts.curr_size
          (take (size * nmemb) recv_data)
        >>= (λ buf. copy_to buf (ts.curr_size + size * nmemb) (0 ∷ []) >>= (λ buf'.
            ok (
              size * nmemb,
              record { data' = some buf'; curr_size = ts.curr_size + size * nmemb },
            ))))
