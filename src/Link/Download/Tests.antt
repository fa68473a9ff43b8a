-- ===== src/Link/Download/Tests.antt =====
-- A server that is busy once and then gives two bytes.
use httpdirfs.Prelude.{
  ℕ, ◌≡◌, refl, List, inl, inr, [], ◌∷◌, false, Option, none, some, arith, ◌==◌, if◌then◌else◌,
}
use httpdirfs.Prelude.Int.{pos}
use httpdirfs.Prelude.Run.{ok, fault, Returns}
use httpdirfs.Link.Origin.{lower}
use httpdirfs.Cache.State.{Link}
use httpdirfs.Cache.Downloads.{Downloads, put, find_loop, active_download_find, active_download_add}
use httpdirfs.Cache.Downloads.Update.{IsOwned}
use httpdirfs.Cache.Downloads.Protocol.{no_downloads, start, started, next, Reached-IsOwned}
use httpdirfs.Link.Download.{
  Response, http_temp_failure, starts_with_nocase, strcasestr, content_range, recv_size,
  link_download_cleanup, judge, attach_cache, finish_cache, attempt_download, download_loop,
  link_download,
}
use httpdirfs.Link.Download.Retrying.{IsServed, Result, link_download-Result}

program : Unit {0}
unfolding lower http_temp_failure starts_with_nocase strcasestr recv_size link_download_cleanup
    judge attach_cache finish_cache attempt_download download_loop link_download
program = record {}

abbrev busy : Response
busy = record { header = some content_range; http_resp = 429; size = pos 0; body = [] }

abbrev partial : Response
partial = record { header = some content_range; http_resp = 206; size = pos 2; body = 7 ∷ 8 ∷ [] }

abbrev server : ℕ → ℕ → ℕ → Response
server i a z = if i == 0 then busy else partial

abbrev alone : ℕ → Option Downloads → Option Downloads
alone i cache = cache

abbrev link : Link
link = record { content_length = 5; time = pos 0 }

second_attempt :
    link_download server alone false 1 2 link 9 (pos 3) none
    ≡ ok (record { count = pos 2; buf = 7 ∷ 8 ∷ []; cache = none })
unfolding program
second_attempt = refl

-- no connection, so that there is no header to look at
unreachable : link_download_cleanup false (record busy { header = none }) ≡ fault
unfolding program
unreachable = refl

-- one other thread holds no reference, and nothing happens meanwhile
abbrev held : ℕ → List ℕ
held i = []

server-IsServed : IsServed server alone held false
unfolding program
server-IsServed = record {
  ranged = λ i a z. ground arith;
  counted = λ i a z. ground arith;
  keeps = λ i ad cache w. w;
}

-- the list with a download at the offset, which each attempt joins and leaves
abbrev running : Downloads
running = record no_downloads {
  node_at =
      put no_downloads.node_at 0
        (some (record { offset = pos 3; ts = none; refcount = pos 1; unlinked = false }));
  fresh = 1;
  active_dls = 0 ∷ [];
}

running-IsOwned : IsOwned running []
unfolding program active_download_find find_loop active_download_add
running-IsOwned =
    Reached-IsOwned running []
      (next no_downloads running [] [] start (started no_downloads [] (pos 3) refl))

link_download-Result_example :
    Returns
      (link_download server alone false 1 2 link 9 (pos 3) (some running))
      (Result server alone held false 1 server-IsServed 2 3 1)
link_download-Result_example =
    link_download-Result server alone held false 1 server-IsServed 2 1 link 9 3 (some running)
      (omega arith) (omega arith) (omega arith) (inl (inr (inl refl), refl)) running-IsOwned
