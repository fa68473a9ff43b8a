-- ===== src/Main/Config.antt =====
-- `parse_config_file` and `add_arg` of src/main.c: the options of the configuration file are added
-- to the arguments. A line is a string up to its first NUL.
pub mod Reading
mod Tests
use httpdirfs.Prelude.{
  ℕ, List, [], ◌∷◌, ◌++◌, Bool, true, false, ◌&&◌, ◌||◌, Option, none, some, leb, ◌==◌,
  if◌then◌else◌,
}
use httpdirfs.Prelude.Run.{Run, ok, fatal}

-- isspace in the C locale
unfoldable pub isspace : ℕ → Bool
isspace c = (c == 32) || leb 9 c && leb c 13

-- the lines as getline gives them, with the newline at their end
abbrev pub put_first : ℕ → List (List ℕ) → List (List ℕ)
put_first c [] = (c ∷ []) ∷ []
put_first c (line ∷ lines) = (c ∷ line) ∷ lines

unfoldable pub getlines : List ℕ → List (List ℕ)
getlines [] = []
getlines (c ∷ cs) = let rest = getlines cs in if c == 10 then (c ∷ []) ∷ rest else put_first c rest

unfoldable pub c_string : List ℕ → List ℕ
c_string [] = []
c_string (c ∷ cs) = let rest = c_string cs in if c == 0 then [] else c ∷ rest

unfoldable pub is_empty : List ℕ → Bool
is_empty [] = true
is_empty (c ∷ cs) = false

unfoldable pub trim_end : List ℕ → List ℕ
unfolding is_empty isspace
trim_end [] = []
trim_end (c ∷ cs) = let rest = trim_end cs in if is_empty rest && isspace c then [] else c ∷ rest

unfoldable pub trim_start : List ℕ → List ℕ
unfolding isspace
trim_start [] = []
trim_start (c ∷ cs) = let rest = trim_start cs in if isspace c then rest else c ∷ cs

-- strpbrk(line, " \t"): what is before and behind the blank
unfoldable pub cut_blank : List ℕ → Option (List ℕ × List ℕ)
cut_blank [] = none
cut_blank (c ∷ cs) =
    let rest = cut_blank cs in
    if (c == 32) || (c == 9)
    then some ([], cs)
    else elim rest [ none ↦ none | some (before, behind) ↦ some (c ∷ before, behind) ]

unfoldable pub add_arg : List (List ℕ) → List ℕ → List (List ℕ)
add_arg argv opt_string = argv ++ opt_string ∷ []

unfoldable pub add_value : List (List ℕ) → List ℕ → List (List ℕ)
unfolding add_arg
add_value argv [] = argv
add_value argv (c ∷ cs) = add_arg argv (c ∷ cs)

unfoldable pub add_option : List (List ℕ) → List ℕ → List (List ℕ)
unfolding cut_blank add_value add_arg trim_start
add_option argv line = elim (cut_blank line) [
  | none ↦ add_arg argv line
  | some (name, rest) ↦ add_value (add_arg argv name) (trim_start rest)
]

unfoldable pub add_line : List (List ℕ) → List ℕ → List (List ℕ)
unfolding add_option
add_line argv [] = argv
add_line argv (c ∷ cs) = if c == 45 then add_option argv (c ∷ cs) else argv

unfoldable pub read_lines : List (List ℕ) → List (List ℕ) → List (List ℕ)
unfolding add_line trim_start trim_end c_string
read_lines argv [] = argv
read_lines argv (buf ∷ lines) =
    read_lines (add_line argv (trim_start (trim_end (c_string buf)))) lines

-- `given` says that the path of the file was an argument of the program; `none` is a file that
-- cannot be opened.
unfoldable pub parse_config_file : Bool → Option (List ℕ) → List (List ℕ) → Run (List (List ℕ))
unfolding read_lines getlines
parse_config_file given none argv = if given then fatal else ok argv
parse_config_file given (some text) argv = ok (read_lines argv (getlines text))
