-- ===== src/Cache/Segments/Positions.antt =====
-- What holds at each position of a thread, and that each section of a reader keeps it.
use httpdirfs.Prelude.{
  ℕ, suc, ◌-◌, ◌*◌, ◌/◌, ◌<◌, ◌≡◌, ◌∙◌, List, none, some, get_elem?, length, take, drop, min, ◌≤◌,
  ◌+◌, arith,
}
use httpdirfs.Prelude.Int.{ℤ, pos, negsuc}
use httpdirfs.Cache.State.{Link}
use httpdirfs.Cache.Reading.Whole.{IsSlice}
use httpdirfs.Cache.Downloads.{ActiveDownload, Downloads}
use httpdirfs.Cache.Downloads.Identity.{Below, Evolves}
use httpdirfs.Cache.Segments.{
  Stage, fetched, Worker, World, Position, waiting, received, clean_up, prefetch, look_next,
  take_slot, check_next, spawn_next, returned,
}
use httpdirfs.Cache.Segments.Threads.{Answer}
use httpdirfs.Cache.Segments.Blocks.{IsIntact, Outcome}

-- the node at an address is for an offset, as long as it is there
pub record HasOffset (dl : Downloads) (ad : ℕ) (z : ℤ) : Type 0 where
  pub allocated : ad < dl.fresh
  pub offset : (node : ActiveDownload) → dl.node_at ad ≡ some node → node.offset ≡ z

HasOffset-Evolves :
    (dl dl' : Downloads) (ad : ℕ) (z : ℤ) → Evolves dl dl' → HasOffset dl ad z → HasOffset dl' ad z
HasOffset-Evolves dl dl' ad z e h = record {
  allocated = omega (arith, e.grows, h.allocated);
  offset = λ node' there.
      let (node, before, same) = e.kept ad node' h.allocated there in same ∙ h.offset node before;
}

-- What `Cache_read_segment` puts out for a request of `n` bytes at the offset `o`: a negative number
-- or the bytes of the server, or the cut of the request from the bytes that a transfer of its block
-- had received, which nothing has checked yet.
pub data Reply (content : ℕ → ℕ) (Received : ℕ → List ℕ → Type 0) (b o n : ℕ) (send : ℤ)
    (out : List ℕ) : Type 0 where
  own : Outcome content o n send out → Reply content Received b o n send out
  copied :
      (bytes : List ℕ)
      → Received (o / b * b) bytes
      → o - o / b * b + n ≤ length bytes
      → send ≡ pos n
      → out ≡ take n (drop (o - o / b * b) bytes)
      → Reply content Received b o n send out

module _ (content : ℕ → ℕ) (Received : ℕ → List ℕ → Type 0) (link : Link) (b : ℕ) where
  -- the read is done, and the file has a next block
  abbrev pub Ahead : ℕ → ℕ → ℤ → List ℕ → Type 0
  Ahead len o send out =
      Reply content Received b o len send out × (suc (o / b) * b < link.content_length)

  -- A reader has at its position what the sections behind it rely on.
  abbrev pub Good : Downloads → ℕ → ℕ → Position → Type 0
  Good dl len o (waiting ad) = HasOffset dl ad (pos (o / b * b))
  Good dl len o (received recv buf) = Answer content link.content_length b (o / b * b) recv buf
  Good dl len o (clean_up (some e) buf) = (k : ℕ) × (e ≡ negsuc k)
  Good dl len o (clean_up none buf) =
      (length buf ≡ b) × IsSlice content (o / b * b) (min b (link.content_length - o / b * b)) buf
  Good dl len o (prefetch send out) = Reply content Received b o len send out
  Good dl len o (look_next send out) = Ahead len o send out
  Good dl len o (take_slot send out) = Ahead len o send out
  Good dl len o (check_next send out) = Ahead len o send out
  Good dl len o (spawn_next send out) = Ahead len o send out
  Good dl len o (returned send out) = Reply content Received b o len send out
  Good dl len o _ = Unit {0}

  pub Good-Evolves :
      (dl dl' : Downloads) (len o : ℕ) (p : Position)
      → Evolves dl dl'
      → Good dl len o p
      → Good dl' len o p
  Good-Evolves dl dl' len o (waiting ad) e g = HasOffset-Evolves dl dl' ad (pos (o / b * b)) e g
  Good-Evolves dl dl' len o (received recv buf) e g = g
  Good-Evolves dl dl' len o (clean_up (some z) buf) e g = g
  Good-Evolves dl dl' len o (clean_up none buf) e g = g
  Good-Evolves dl dl' len o (prefetch send out) e g = g
  Good-Evolves dl dl' len o (look_next send out) e g = g
  Good-Evolves dl dl' len o (take_slot send out) e g = g
  Good-Evolves dl dl' len o (check_next send out) e g = g
  Good-Evolves dl dl' len o (spawn_next send out) e g = g
  Good-Evolves dl dl' len o (returned send out) e g = g
  Good-Evolves dl dl' len o _ e g = tt

  -- what a background download has
  abbrev pub Has : ℕ → Stage → Type 0
  Has start (fetched recv buf) = Answer content link.content_length b start recv buf
  Has start _ = Unit {0}

  pub record Works (k : Worker) : Type 0 where
    pub q : ℕ
    pub whole : k.dl_offset ≡ q * b
    pub inside : k.dl_offset < link.content_length
    pub has : Has k.dl_offset k.stage

  -- the invariant of what the threads share
  pub record Sound (w : World) : Type 0 where
    pub intact : IsIntact content link b w.cf
    pub below : Below w.downloads
    pub workers : (j : ℕ) (k : Worker) → get_elem? w.workers j ≡ some k → Works k

  -- A section has kept the invariant, and its thread may go on at its new position.
  pub record Next (w : World) (len o : ℕ) (x : Position × World) : Type 0 where
    pub sound : Sound x.1
    pub evolves : Evolves w.downloads x.1.downloads
    pub good : Good x.1.downloads len o x.0
