-- ===== src/Link/Stat/Tests.antt =====
-- A link whose first answer is to be tried again.
use httpdirfs.Prelude.{◌≡◌, refl, [], ◌∷◌, ◌++◌, true, false}
use httpdirfs.Prelude.Int.{pos, negsuc}
use httpdirfs.Link.Names.{link_dir, link_file, link_invalid, link_uninitialised_file}
use httpdirfs.Link.Download.{http_temp_failure}
use httpdirfs.Link.Stat.{Status, Info, Config, settle_file, settle, link_set_file_stat}
use httpdirfs.Link.Stat.Settling.{is_settled, answered, link_set_file_stat-settled}

program : Unit {0}
unfolding http_temp_failure settle_file settle link_set_file_stat
program = tt

abbrev unknown : Status
unknown = record { type' = link_uninitialised_file; content_length = 0; time = pos 0 }

abbrev plain : Config
plain = record { zero_len_is_dir = true; invalid_refresh = false }

abbrev busy : Info
busy = record { response_code = 429; content_length_download = negsuc 0; filetime = negsuc 0 }

abbrev success : Info
success = record { response_code = 200; content_length_download = pos 12; filetime = pos 5 }

file_found :
    answered plain (busy ∷ success ∷ []) unknown
    ≡ record { type' = link_file; content_length = 12; time = pos 5 }
unfolding program
file_found = refl

empty_is_dir :
    (link_set_file_stat plain (record success { content_length_download = pos 0 }) unknown).type'
    ≡ link_dir
unfolding program
empty_is_dir = refl

no_length :
    (link_set_file_stat plain (record success { content_length_download = negsuc 0 }) unknown).type'
    ≡ link_invalid
unfolding program
no_length = refl

link_set_file_stat-settled_example :
    is_settled (answered plain ((busy ∷ []) ++ success ∷ busy ∷ []) unknown).type' ≡ true
link_set_file_stat-settled_example =
    link_set_file_stat-settled plain (busy ∷ []) (busy ∷ []) success unknown refl
