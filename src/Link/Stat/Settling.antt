-- ===== src/Link/Stat/Settling.antt =====
-- The type of a link after any sequence of answers.
use httpdirfs.Prelude.{
  ◌≡◌, refl, ap, ◌∙◌, List, [], ◌∷◌, ◌++◌, Bool, true, false, ◌&&◌, ◌||◌, not, ◌==◌, Bool-cases,
  inl, inr, arith,
}
use httpdirfs.Prelude.Int.{ℤ, pos, ltb_ℤ, eqb_ℤ}
use httpdirfs.Link.Names.{
  LinkType, link_head, link_dir, link_file, link_invalid, link_uninitialised_file,
  link_uninitialised_dir,
}
use httpdirfs.Link.Download.{http_temp_failure}
use httpdirfs.Link.Stat.{Status, Info, Config, settle_file, settle, link_set_file_stat}

-- The type says what the link is.
abbrev pub is_settled : LinkType → Bool
is_settled link_uninitialised_file = false
is_settled link_uninitialised_dir = false
is_settled _ = true

-- An answer that is not to be tried again: a success, or a failure that is neither temporary nor
-- refreshed.
abbrev pub is_final : Config → Info → Bool
is_final config info =
    (info.response_code == 200)
    || not (http_temp_failure info.response_code || config.invalid_refresh)

-- the answers one after the other
abbrev pub answered : Config → List Info → Status → Status
answered config [] link = link
answered config (info ∷ infos) link = answered config infos (link_set_file_stat config info link)

settle_file-settled :
    (config : Config) (cl : ℤ) (link : Status)
    → is_settled (settle_file config cl link).type' ≡ true
unfolding settle_file
settle_file-settled config cl link = elim (Bool-cases (ltb_ℤ cl (pos 0))) [
  | inl h ↦ rw (settle_file, h) refl
  | inr h ↦ elim (Bool-cases (eqb_ℤ cl (pos 0) && config.zero_len_is_dir)) [
    | inl g ↦ rw (settle_file, h, g) refl
    | inr g ↦ rw (settle_file, h, g) refl
  ]
]

settle-settled :
    (config : Config) (cl time : ℤ) (type' : LinkType) (link : Status)
    → link.type' ≡ type'
    → is_settled (settle config cl type' (record link { time = time })).type' ≡ true
unfolding settle
settle-settled config cl time link_head link e = ap is_settled e
settle-settled config cl time link_dir link e = ap is_settled e
settle-settled config cl time link_file link e = ap is_settled e
settle-settled config cl time link_invalid link e = ap is_settled e
settle-settled config cl time link_uninitialised_file link e =
    settle_file-settled config cl (record link { time = time })
settle-settled config cl time link_uninitialised_dir link e = refl

stat-ok :
    (config : Config) (info : Info) (link : Status)
    → (info.response_code == 200) ≡ true
    → is_settled (link_set_file_stat config info link).type' ≡ true
unfolding link_set_file_stat
stat-ok config info link h =
    let step : link_set_file_stat config info link
        ≡ settle config info.content_length_download link.type'
            (record link { time = info.filetime }) =
      simp (link_set_file_stat, h) in
    ap (λ (l : Status). is_settled l.type') step
    ∙ settle-settled config info.content_length_download info.filetime link.type' link refl

stat-refused :
    (config : Config) (info : Info) (link : Status)
    → (info.response_code == 200) ≡ false
    → (http_temp_failure info.response_code || config.invalid_refresh) ≡ false
    → is_settled (link_set_file_stat config info link).type' ≡ true
unfolding link_set_file_stat
stat-refused config info link h g = rw (link_set_file_stat, h, g) refl

stat-final :
    (config : Config) (info : Info) (link : Status)
    → is_final config info ≡ true
    → is_settled (link_set_file_stat config info link).type' ≡ true
stat-final config info link f = elim (Bool-cases (info.response_code == 200)) [
  | inl h ↦ stat-ok config info link h
  | inr h ↦ stat-refused config info link h (ground (arith, h, f))
]

stat-keeps :
    (config : Config) (info : Info) (link : Status)
    → is_settled link.type' ≡ true
    → is_settled (link_set_file_stat config info link).type' ≡ true
unfolding link_set_file_stat
stat-keeps config info link k = elim (Bool-cases (info.response_code == 200)) [
  | inl h ↦ stat-ok config info link h
  | inr h ↦ elim (Bool-cases (http_temp_failure info.response_code || config.invalid_refresh)) [
    | inl g ↦
        let step : link_set_file_stat config info link ≡ link = simp (link_set_file_stat, h, g) in
        ap (λ (l : Status). is_settled l.type') step ∙ k
    | inr g ↦ stat-refused config info link h g
  ]
]

answered-keeps :
    (config : Config) (infos : List Info) (link : Status)
    → is_settled link.type' ≡ true
    → is_settled (answered config infos link).type' ≡ true
answered-keeps config [] link k = k
answered-keeps config (info ∷ infos) link k =
    answered-keeps config infos (link_set_file_stat config info link)
      (stat-keeps config info link k)

-- Whatever answers came before, and whatever answers come after: from the first answer on that is a
-- success, or a failure that is neither temporary nor refreshed, a link that Link_set_file_stat
-- has handled with each answer is a directory, a file, the head of its table or invalid, and is
-- never again one that has to be asked for.
pub link_set_file_stat-settled :
    (config : Config) (before later : List Info) (info : Info) (link : Status)
    → is_final config info ≡ true
    → is_settled (answered config (before ++ info ∷ later) link).type' ≡ true
link_set_file_stat-settled config [] later info link f =
    answered-keeps config later (link_set_file_stat config info link)
      (stat-final config info link f)
link_set_file_stat-settled config (first ∷ before) later info link f =
    link_set_file_stat-settled config before later info (link_set_file_stat config first link) f
