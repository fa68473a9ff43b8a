-- ===== src/Main/Config/Reading.antt =====
-- The options written line by line are read as they are.
use mathlib.Core.List.{append_assoc, append-nil}
use httpdirfs.Prelude.{
  ℕ, ◌≡◌, refl, sym, ap, ◌∙◌, List, [], ◌∷◌, ◌++◌, Bool, true, false, ◌||◌, none, some, ◌==◌,
  if◌then◌else◌, arith,
}
use httpdirfs.Prelude.Run.{ok}
use httpdirfs.Main.Config.{
  isspace, getlines, c_string, is_empty, trim_end, trim_start, cut_blank, add_arg, add_value,
  add_option, add_line, read_lines, parse_config_file,
}

-- No byte is white space or NUL.
abbrev pub solid : List ℕ → Bool
solid [] = true
solid (c ∷ cs) = let rest = solid cs in if isspace c || (c == 0) then false else rest

-- No byte is a newline or NUL.
abbrev pub one_line : List ℕ → Bool
one_line [] = true
one_line (c ∷ cs) = let rest = one_line cs in if (c == 10) || (c == 0) then false else rest

getlines-line :
    (line rest : List ℕ)
    → one_line line ≡ true
    → getlines (line ++ 10 ∷ rest) ≡ (line ++ 10 ∷ []) ∷ getlines rest
unfolding getlines
getlines-line [] rest h = refl
getlines-line (c ∷ cs) rest h =
    let other : (c == 10) ≡ false = ground (arith, h) in
    let tail : one_line cs ≡ true = ground (arith, h) in
    rw (getlines, other, getlines-line cs rest tail) refl

c_string-line :
    (line : List ℕ) → one_line line ≡ true → c_string (line ++ 10 ∷ []) ≡ line ++ 10 ∷ []
unfolding c_string
c_string-line [] h = refl
c_string-line (c ∷ cs) h =
    let other : (c == 0) ≡ false = ground (arith, h) in
    let tail : one_line cs ≡ true = ground (arith, h) in
    rw (c_string, other, c_string-line cs tail) refl

trim_end-line : (line : List ℕ) → trim_end (line ++ 10 ∷ []) ≡ trim_end line
unfolding trim_end is_empty isspace
trim_end-line [] = refl
trim_end-line (c ∷ cs) = rw (trim_end, trim_end-line cs) refl

trim_end-solid : (line : List ℕ) → solid line ≡ true → trim_end line ≡ line
unfolding trim_end
trim_end-solid [] h = refl
trim_end-solid (c ∷ cs) h =
    let other : isspace c ≡ false = ground (arith, h) in
    let tail : solid cs ≡ true = ground (arith, h) in
    rw (trim_end, trim_end-solid cs tail, other) (ground arith)

-- what does not end with white space is kept behind anything
trim_end-append :
    (xs : List ℕ) (y : ℕ) (ys : List ℕ)
    → trim_end (y ∷ ys) ≡ y ∷ ys
    → trim_end (xs ++ y ∷ ys) ≡ xs ++ y ∷ ys
unfolding trim_end is_empty
trim_end-append [] y ys h = h
trim_end-append (x ∷ []) y ys h = rw (trim_end, h) refl
trim_end-append (x ∷ z ∷ zs) y ys h = rw (trim_end, trim_end-append (z ∷ zs) y ys h) refl

cut_blank-none : (name : List ℕ) → solid name ≡ true → cut_blank name ≡ none
unfolding cut_blank isspace
cut_blank-none [] h = refl
cut_blank-none (c ∷ cs) h =
    let other : ((c == 32) || (c == 9)) ≡ false = ground (arith, h) in
    let tail : solid cs ≡ true = ground (arith, h) in
    rw (cut_blank, other, cut_blank-none cs tail) refl

cut_blank-some :
    (name behind : List ℕ)
    → solid name ≡ true
    → cut_blank (name ++ 32 ∷ behind) ≡ some (name, behind)
unfolding cut_blank isspace
cut_blank-some [] behind h = refl
cut_blank-some (c ∷ cs) behind h =
    let other : ((c == 32) || (c == 9)) ≡ false = ground (arith, h) in
    let tail : solid cs ≡ true = ground (arith, h) in
    rw (cut_blank, other, cut_blank-some cs behind tail) refl

one_line-append :
    (name rest : List ℕ) → solid name ≡ true → one_line rest ≡ true → one_line (name ++ rest) ≡ true
unfolding isspace
one_line-append [] rest h g = g
one_line-append (c ∷ cs) rest h g =
    let other : ((c == 10) || (c == 0)) ≡ false = ground (arith, h) in
    let tail : solid cs ≡ true = ground (arith, h) in
    rw (other, one_line-append cs rest tail g) refl

-- An option: what follows the dash, and its value, which is empty for an option without one.
pub record ConfigOption : Type 0 where
  pub name : List ℕ
  pub value : List ℕ

abbrev pub behind_name : List ℕ → List ℕ
behind_name [] = []
behind_name (v ∷ vs) = 32 ∷ v ∷ vs

-- the line of an option, without its newline
abbrev pub line_of : ConfigOption → List ℕ
line_of o = 45 ∷ o.name ++ behind_name o.value

abbrev pub value_args : List ℕ → List (List ℕ)
value_args [] = []
value_args (v ∷ vs) = (v ∷ vs) ∷ []

-- the arguments of an option
abbrev pub args_of : ConfigOption → List (List ℕ)
args_of o = (45 ∷ o.name) ∷ value_args o.value

-- A value begins and ends without white space.
abbrev pub Trimmed : List ℕ → Type 0
Trimmed [] = Unit {0}
Trimmed (v ∷ vs) = (isspace v ≡ false) × (trim_end (v ∷ vs) ≡ v ∷ vs)

-- The name has no white space, the value is trimmed, and there is no newline and no NUL in it.
pub record IsOption (o : ConfigOption) : Type 0 where
  pub solid_name : solid o.name ≡ true
  pub trimmed : Trimmed o.value
  pub value_line : one_line o.value ≡ true

module _ (argv : List (List ℕ)) (n : List ℕ) (h : solid n ≡ true) where
  dashed : solid (45 ∷ n) ≡ true
  unfolding isspace
  dashed = h

  line_ends :
      (value : List ℕ)
      → Trimmed value
      → one_line value ≡ true
      → c_string ((45 ∷ n ++ behind_name value) ++ 10 ∷ [])
        ≡ (45 ∷ n ++ behind_name value) ++ 10 ∷ []
  line_ends [] t g = c_string-line (45 ∷ n ++ []) (one_line-append (45 ∷ n) [] dashed refl)
  line_ends (v ∷ vs) t g =
      c_string-line (45 ∷ n ++ 32 ∷ v ∷ vs) (one_line-append (45 ∷ n) (32 ∷ v ∷ vs) dashed g)

  line_trims :
      (value : List ℕ)
      → Trimmed value
      → trim_end (45 ∷ n ++ behind_name value) ≡ 45 ∷ n ++ behind_name value
  line_trims [] t =
      ap trim_end (append-nil (45 ∷ n)) ∙ trim_end-solid (45 ∷ n) dashed ∙ sym (append-nil (45 ∷ n))
  line_trims (v ∷ vs) t = trim_end-append (45 ∷ n) 32 (v ∷ vs) (trim_end-append (32 ∷ []) v vs t.1)

  starts_with_dash :
      (cs : List ℕ) → add_line argv (trim_start (45 ∷ cs)) ≡ add_option argv (45 ∷ cs)
  unfolding add_line trim_start isspace
  starts_with_dash cs = refl

  option_args :
      (value : List ℕ)
      → Trimmed value
      → add_option argv (45 ∷ n ++ behind_name value) ≡ argv ++ (45 ∷ n) ∷ value_args value
  unfolding add_option add_value add_arg trim_start
  option_args [] t =
      ap (add_option argv) (append-nil (45 ∷ n))
      ∙ rw (add_option, cut_blank-none (45 ∷ n) dashed) refl
  option_args (v ∷ vs) t =
      rw (add_option, cut_blank-some (45 ∷ n) (v ∷ vs) dashed, t.0)
        (append_assoc argv ((45 ∷ n) ∷ []) ((v ∷ vs) ∷ []))

add_line-option :
    (argv : List (List ℕ)) (o : ConfigOption)
    → IsOption o
    → add_line argv (trim_start (trim_end (c_string (line_of o ++ 10 ∷ [])))) ≡ argv ++ args_of o
add_line-option argv o k =
    ap (λ l. add_line argv (trim_start (trim_end l)))
      (line_ends argv o.name k.solid_name o.value k.trimmed k.value_line)
    ∙ ap (λ l. add_line argv (trim_start l))
        (trim_end-line (line_of o) ∙ line_trims argv o.name k.solid_name o.value k.trimmed)
    ∙ starts_with_dash argv o.name k.solid_name (o.name ++ behind_name o.value)
    ∙ option_args argv o.name k.solid_name o.value k.trimmed

abbrev pub AllOptions : List ConfigOption → Type 0
AllOptions [] = Unit {0}
AllOptions (o ∷ os) = IsOption o × AllOptions os

abbrev pub text_of : List ConfigOption → List ℕ
text_of [] = []
text_of (o ∷ os) = line_of o ++ 10 ∷ text_of os

abbrev pub all_args : List ConfigOption → List (List ℕ)
all_args [] = []
all_args (o ∷ os) = args_of o ++ all_args os

line_of-one_line : (o : ConfigOption) → IsOption o → one_line (line_of o) ≡ true
line_of-one_line o k =
    one_line-append (45 ∷ o.name) (behind_name o.value) (dashed [] o.name k.solid_name)
      (behind o.value k.value_line)
  where
    behind : (value : List ℕ) → one_line value ≡ true → one_line (behind_name value) ≡ true
    behind [] h = refl
    behind (v ∷ vs) h = h

read_lines-text_of :
    (argv : List (List ℕ)) (os : List ConfigOption)
    → AllOptions os
    → read_lines argv (getlines (text_of os)) ≡ argv ++ all_args os
unfolding read_lines getlines
read_lines-text_of argv [] all = sym (append-nil argv)
read_lines-text_of argv (o ∷ os) all =
    ap (read_lines argv) (getlines-line (line_of o) (text_of os) (line_of-one_line o all.0))
    ∙ ap (λ a. read_lines a (getlines (text_of os))) (add_line-option argv o all.0)
    ∙ read_lines-text_of (argv ++ args_of o) os all.1
    ∙ append_assoc argv (args_of o) (all_args os)

-- A configuration file that has one option in each line, with a dash, a name without white space,
-- and behind a space a value that neither begins nor ends with white space, or no value, all
-- without a NUL, adds to the arguments exactly the names and the values, in their order.
pub parse_config_file-text_of :
    (given : Bool) (argv : List (List ℕ)) (os : List ConfigOption)
    → AllOptions os
    → parse_config_file given (some (text_of os)) argv ≡ ok (argv ++ all_args os)
unfolding parse_config_file
parse_config_file-text_of given argv os all = ap ok (read_lines-text_of argv os all)
