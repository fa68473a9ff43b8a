-- ===== src/Link/Download/Retrying.antt =====
-- `Link_download` against a server that answers.
use mathlib.Core.Path.{subst}
use native.Mathlib.Decide.{dec_lt}
use httpdirfs.Prelude.{
  ℕ, zero, suc, ◌+◌, ◌-◌, ◌≤◌, ◌<◌, ◌≡◌, refl, ap, ◌∙◌, List, [], Bool, true, false, ◌||◌, Option,
  none, some, ltb, ◌==◌, length, take-length, min, arith, ge→ltb, Bool-cases, inl, inr, ◌⊎◌,
}
use httpdirfs.Prelude.Int.{ℤ, pos, ltb_ℤ, leb_ℤ, eqb_ℤ}
use httpdirfs.Prelude.Run.{Run, ok, ◌>>=◌, Returns, Returns-bind}
use httpdirfs.Cache.State.{Link}
use httpdirfs.Cache.Downloads.{Downloads}
use httpdirfs.Cache.Downloads.Transfer.Joining.{joined_by, attach-IsOwned, finish_transfer-IsOwned}
use httpdirfs.Cache.Downloads.Update.{IsOwned}
use httpdirfs.Link.Download.{
  Response, recv_size, link_download_cleanup, judge, Downloaded, attach_cache, finish_cache,
  attempt_download, download_loop, link_download, minus_enoent, minus_eagain, http_temp_failure,
  strcasestr, accept_ranges, content_range,
}

-- The nodes of the cache's list are owned with just the references `held` of the other threads and
-- the transfer's, if it has one.
abbrev pub IsAttached : Option ℕ → List ℕ → Option Downloads → Type 0
IsAttached ad_ptr held (some cf) = IsOwned cf (joined_by ad_ptr held)
IsAttached none held none = Unit {0}
IsAttached (some ad) held none = true ≡ false

-- A header has come that names range requests, or this is not asked for.
abbrev pub IsRanged : Bool → Option (List ℕ) → Type 0
IsRanged true header = Unit {0}
IsRanged false none = true ≡ false
IsRanged false (some header) =
    (strcasestr header accept_ranges || strcasestr header content_range) ≡ true

-- a status that curl's count is used for
abbrev pub IsGood : Response → Type 0
IsGood r = (r.http_resp ≡ 200) ⊎ ((r.http_resp ≡ 206) ⊎ (r.http_resp ≡ 416))

-- a status that asks for another attempt later
abbrev pub IsBusy : Response → Type 0
IsBusy r = (r.http_resp ≡ 429) ⊎ ((r.http_resp ≡ 520) ⊎ (r.http_resp ≡ 524))

abbrev pub IsRefused : Response → Type 0
IsRefused r = (¬ IsGood r) × (¬ IsBusy r)

-- all `n` bytes that were asked for, under a good status
abbrev pub IsComplete : ℕ → Response → Type 0
IsComplete n r = IsGood r × (length r.body ≡ n)

-- What the parts outside are taken to do: each answer has a header with range requests where it is
-- checked, curl's count is that of the bytes it handed over, and the other threads, who have the
-- references `held i` before attempt `i`, leave the list of downloads owned with their new
-- references and with the one of this transfer.
pub record IsServed (server : ℕ → ℕ → ℕ → Response)
    (others : ℕ → Option Downloads → Option Downloads) (held : ℕ → List ℕ) (no_range_check : Bool)
    : Type 0 where
  pub ranged : (i a z : ℕ) → IsRanged no_range_check (server i a z).header
  pub counted : (i a z : ℕ) → (server i a z).size ≡ pos (length (server i a z).body)
  pub keeps :
      (i : ℕ) (ad_ptr : Option ℕ) (cache : Option Downloads)
      → IsAttached ad_ptr (held i) cache
      → IsAttached ad_ptr (held (suc i)) (others i cache)

searched :
    (r : Response) (header : Option (List ℕ))
    → r.header ≡ header
    → IsRanged false header
    → link_download_cleanup false r ≡ ok (recv_size r)
unfolding link_download_cleanup
searched r none e h = absurd (ground arith)
searched r (some header) e h = rw (link_download_cleanup, e) (ground (arith, h))

link_download_cleanup-ok :
    (no_range_check : Bool) (r : Response)
    → IsRanged no_range_check r.header
    → link_download_cleanup no_range_check r ≡ ok (recv_size r)
unfolding link_download_cleanup
link_download_cleanup-ok true r h = refl
link_download_cleanup-ok false r h = searched r r.header refl h

attach_cache-IsAttached :
    (cache : Option Downloads) (held : List ℕ) (offset : ℤ) (ts : ℕ)
    → IsAttached none held cache
    → Returns (attach_cache cache offset ts) (λ p. IsAttached p.0 held p.1)
unfolding attach_cache
attach_cache-IsAttached none held offset ts w = ((none, none), refl, record {})
attach_cache-IsAttached (some cf) held offset ts w =
    Returns-bind (attach-IsOwned cf held offset ts w) (λ p w'. ((p.0, some p.1), refl, w'))

finish_cache-IsAttached :
    (cache : Option Downloads) (held : List ℕ) (offset : ℤ) (ts : ℕ) (ad_ptr : Option ℕ)
    → IsAttached ad_ptr held cache
    → Returns (finish_cache cache offset ts ad_ptr) (λ c. IsAttached none held c)
unfolding finish_cache
finish_cache-IsAttached none held offset ts ad_ptr w = (none, refl, record {})
finish_cache-IsAttached (some cf) held offset ts ad_ptr w =
    Returns-bind (finish_transfer-IsOwned cf held offset ts ad_ptr w) (λ c w'. (some c, refl, w'))

-- the verdicts on an answer whose count is that of its bytes
pub data Verdict (n : ℕ) (r : Response) : Option (Run (ℤ × List ℕ)) → Type 0 where
  again : ¬ IsComplete n r → ¬ IsRefused r → Verdict n r none
  refused : IsRefused r → Verdict n r (some (ok (minus_enoent, [])))
  complete : IsComplete n r → Verdict n r (some (ok (pos n, r.body)))

judge-counted : (n : ℕ) (r : Response) → IsGood r → Verdict n r (judge n r (pos (length r.body)))
unfolding judge
judge-counted n r good = elim (Bool-cases (eqb_ℤ (pos (length r.body)) (pos n))) [
  | inl e ↦
      let same : length r.body ≡ n = ground (arith, e) in
      let enough : ltb (length r.body) (length r.body) ≡ false =
        ge→ltb (length r.body) (length r.body) (omega arith) in
      let all : judge n r (pos (length r.body)) ≡ some (ok (pos n, r.body)) =
        rw (judge, e, enough, take-length r.body (length r.body) (omega arith))
          (ground (arith, same)) in
      rw all (complete (good, same))
  | inr e ↦
      let none_yet : judge n r (pos (length r.body)) ≡ none = rw (judge, e) (ground arith) in
      let other : ¬ (length r.body ≡ n) = λ same. absurd (ground (arith, e, same)) in
      rw none_yet (again (λ c. other c.1) (λ c. c.0 good))
]

recv_size-cases :
    (r : Response)
    → (IsGood r × (recv_size r ≡ r.size))
      ⊎ (((¬ IsGood r) × IsBusy r × (recv_size r ≡ minus_eagain))
          ⊎ (IsRefused r × (recv_size r ≡ minus_enoent)))
unfolding recv_size http_temp_failure
recv_size-cases r =
    elim (Bool-cases (r.http_resp == 200 || r.http_resp == 206 || r.http_resp == 416)) [
      | inl e ↦ inl (ground (arith, e), rw e refl)
      | inr e ↦
          let bad : ¬ IsGood r = λ good. ground (arith, e, good) in
          elim (Bool-cases (http_temp_failure r.http_resp)) [
            | inl f ↦ inr (inl (bad, ground (arith, f), rw (e, f) refl))
            | inr f ↦
                let firm : ¬ IsBusy r = λ busy. ground (arith, f, busy) in
                inr (inr ((bad, firm), rw (e, f) refl))
          ]
    ]

judge-Verdict :
    (n : ℕ) (r : Response) → r.size ≡ pos (length r.body) → Verdict n r (judge n r (recv_size r))
unfolding judge
judge-Verdict n r counted = elim (recv_size-cases r) [
  | inl (good, e) ↦
      let same : recv_size r ≡ pos (length r.body) = e ∙ counted in rw same (judge-counted n r good)
  | inr (inl (bad, busy, e)) ↦ rw e (again (λ c. bad c.0) (λ c. c.1 busy))
  | inr (inr (firm, e)) ↦ rw e (refused firm)
]

module _ (server : ℕ → ℕ → ℕ → Response) (others : ℕ → Option Downloads → Option Downloads)
    (held : ℕ → List ℕ) (no_range_check : Bool) (ts : ℕ)
    (law : IsServed server others held no_range_check) (n o : ℕ) where
  abbrev answer : ℕ → Response
  answer i = server i o (o + n - 1)

  -- an answer that ends the attempts
  abbrev IsFinal : ℕ → Type 0
  IsFinal i = IsComplete n (answer i) ⊎ IsRefused (answer i)

  attempt-judge :
      (i : ℕ) (cache : Option Downloads)
      → IsAttached none (held i) cache
      → Returns (attempt_download server others no_range_check ts i n o cache) (λ v.
        (v.0 ≡ judge n (answer i) (recv_size (answer i))) × IsAttached none (held (suc i)) v.1)
  unfolding attempt_download
  attempt-judge i cache w =
      Returns-bind (attach_cache-IsAttached cache (held i) (pos o) ts w) (λ p w1.
        Returns-bind {P = λ recv. recv ≡ recv_size (answer i)}
          (
            recv_size (answer i),
            link_download_cleanup-ok no_range_check (answer i) (law.ranged i o (o + n - 1)),
            refl,
          )
          (λ recv same.
            Returns-bind
              (finish_cache-IsAttached (others i p.1) (held (suc i)) (pos o) ts p.0
                (law.keeps i p.0 p.1 w1))
              (λ cache' w2.
                ((judge n (answer i) recv, cache'), refl, (ap (judge n (answer i)) same, w2)))))

  -- What the loop ends with: the first answer that is complete or a refusal, and the list of
  -- downloads with the references that the others have then, and no other.
  pub Result : ℕ → Downloaded → Type 0
  Result k d =
      (j : ℕ) × (j ≤ k)
      × ((i : ℕ) → i < j → ¬ IsFinal i)
      × IsAttached none (held (suc j)) d.cache
      × ((IsRefused (answer j) × (d.count ≡ minus_enoent) × (d.buf ≡ []))
          ⊎ (IsComplete n (answer j) × (d.count ≡ pos n) × (d.buf ≡ (answer j).body)))

  pass : (i : ℕ) → ((m : ℕ) → m < i → ¬ IsFinal m) → ¬ IsFinal i → (m : ℕ) → m < suc i → ¬ IsFinal m
  pass i passed more m h = elim (dec_lt m i) [
    | yes p ↦ passed m p
    | no p ↦ let e : i ≡ m = omega arith in subst (λ (j : ℕ). ¬ IsFinal j) e more
  ]

  judge-Result :
      (fuel i k : ℕ) (cache : Option Downloads) (v : Option (Run (ℤ × List ℕ)))
      → i ≤ k
      → ((m : ℕ) → m < i → ¬ IsFinal m)
      → IsAttached none (held (suc i)) cache
      → Verdict n (answer i) v
      → (¬ IsFinal i
          → Returns
              (download_loop server others no_range_check ts fuel (suc i) n o cache)
              (Result k))
      → Returns
          (elim v [
            | none ↦ download_loop server others no_range_check ts fuel (suc i) n o cache
            | some m ↦ m >>= (λ c. ok (record { count = c.0; buf = c.1; cache = cache }))
          ])
          (Result k)
  unfolding Result
  judge-Result fuel i k cache v h passed w (again short firm) next =
      next (λ final. elim final [ inl c ↦ short c | inr c ↦ firm c ])
  judge-Result fuel i k cache v h passed w (refused firm) next = (
    record { count = minus_enoent; buf = []; cache = cache },
    refl,
    (i, h, passed, w, inl (firm, refl, refl)),
  )
  judge-Result fuel i k cache v h passed w (complete all) next = (
    record { count = pos n; buf = (answer i).body; cache = cache },
    refl,
    (i, h, passed, w, inr (all, refl, refl)),
  )

  download_loop-Result :
      (fuel i k : ℕ) (cache : Option Downloads)
      → i ≤ k
      → k < i + fuel
      → IsFinal k
      → ((m : ℕ) → m < i → ¬ IsFinal m)
      → IsAttached none (held i) cache
      → Returns (download_loop server others no_range_check ts fuel i n o cache) (Result k)
  unfolding download_loop
  download_loop-Result zero i k cache h f final passed w = absurd (omega arith)
  download_loop-Result (suc fuel) i k cache h f final passed w =
      let counted = law.counted i o (o + n - 1) in
      Returns-bind (attempt-judge i cache w) (λ v (same, w').
        judge-Result fuel i k v.1 v.0 h passed w' (rw same (judge-Verdict n (answer i) counted))
          (λ more.
            let next : suc i ≤ k = elim (dec_lt i k) [
              | yes p ↦ p
              | no p ↦
                  let e : k ≡ i = omega arith in
                  absurd (more (subst (λ (j : ℕ). IsFinal j) e final))
            ] in
            download_loop-Result fuel (suc i) k v.1 next (omega arith) final (pass i passed more)
              w'))

-- Let every answer of the server have range requests where this is checked, and curl count just the
-- bytes that it hands over, and the other threads leave the list of
-- downloads owned, with the references `held i` before attempt `i` as theirs. Call an answer final
-- if it is neither a good status (200, 206, 416) nor one that asks for patience (429, 520, 524), or
-- if its status is good and its body has as many bytes as are asked for and the file has. Let the
-- answer to attempt `k`, counted from 0, be final. Then `Link_download` of some bytes at an offset
-- in the file, with more than `k` attempts as fuel, returns after the first final answer: -ENOENT
-- if it is a refusal, and otherwise this number of bytes, which are the body of that answer. The
-- list of downloads is then owned with just the references of the others: the transfer's own,
-- taken at each attempt that finds a download for its offset, is given back.
pub link_download-Result :
    (server : ℕ → ℕ → ℕ → Response) (others : ℕ → Option Downloads → Option Downloads)
    (held : ℕ → List ℕ) (no_range_check : Bool) (ts : ℕ)
    (law : IsServed server others held no_range_check) (fuel k : ℕ) (link : Link) (req_size o : ℕ)
    (cache : Option Downloads)
    → 1 ≤ req_size
    → o < link.content_length
    → k < fuel
    → (let r = server k o (o + min req_size (link.content_length - o) - 1) in
        IsComplete (min req_size (link.content_length - o)) r ⊎ IsRefused r)
    → IsAttached none (held 0) cache
    → Returns (link_download server others no_range_check ts fuel link req_size (pos o) cache) (
        Result server others held no_range_check ts law
          (min req_size (link.content_length - o))
          o
          k)
unfolding link_download
link_download-Result server others held no_range_check ts law fuel k link req_size o cache
      some_bytes inside enough final w =
    let n : ℕ = min req_size (link.content_length - o) in
    let some_req : (req_size == 0) ≡ false = ground arith in
    let some_length : (link.content_length == 0) ≡ false = ground arith in
    let before_end : leb_ℤ (pos link.content_length) (pos o) ≡ false = ground arith in
    let o_sign : ltb_ℤ (pos o) (pos 0) ≡ false = ground arith in
    rw (some_req, some_length, before_end, o_sign)
      (download_loop-Result server others held no_range_check ts law n o fuel 0 k cache
        (omega arith) (omega arith) final (λ m h. absurd (omega (arith, h))) w)
