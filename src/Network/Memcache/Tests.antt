-- ===== src/Network/Memcache/Tests.antt =====
-- Two chunks of a response.
use httpdirfs.Prelude.{◌+◌, ◌*◌, ◌≤◌, ◌<◌, ◌≡◌, refl, [], ◌∷◌, none, some, arith}
use httpdirfs.Prelude.Run.{ok, fatal, Returns}
use httpdirfs.Network.Memcache.{TransferStruct, size_max, resized, copy_to, write_memory_callback}
use httpdirfs.Network.Memcache.Collecting.{IsCollected, write_memory_callback-IsCollected}

abbrev collected : TransferStruct
collected = record { data' = some (1 ∷ 2 ∷ 0 ∷ []); curr_size = 2 }

callback_first :
    write_memory_callback 9 (1 ∷ 2 ∷ []) 1 2 (record { data' = none; curr_size = 0 })
    ≡ ok (2, collected)
unfolding write_memory_callback resized copy_to
callback_first = refl

write_memory_callback-IsCollected_example :
    (size_max < 2 + 1 * 3 + 1 → write_memory_callback 9 (5 ∷ 6 ∷ 7 ∷ []) 1 3 collected ≡ fatal)
    × (2 + 1 * 3 + 1 ≤ size_max
        → Returns
            (write_memory_callback 9 (5 ∷ 6 ∷ 7 ∷ []) 1 3 collected)
            (λ r. (r.0 ≡ 3) × IsCollected r.1 (1 ∷ 2 ∷ 5 ∷ 6 ∷ 7 ∷ [])))
write_memory_callback-IsCollected_example =
    write_memory_callback-IsCollected 9 (5 ∷ 6 ∷ 7 ∷ []) (1 ∷ 2 ∷ []) 1 3 collected
      (record { holds = refl; size = refl }) (omega arith) (omega arith)
