-- ===== src/Main/Config/Tests.antt =====
-- A comment, an option without a value, and one whose value has a blank.
use httpdirfs.Prelude.{◌≡◌, refl, List, [], ◌∷◌, ◌++◌, true, false, none, some}
use httpdirfs.Prelude.Run.{ok, fatal}
use httpdirfs.Main.Config.{
  isspace, getlines, c_string, is_empty, trim_end, trim_start, cut_blank, add_arg, add_value,
  add_option, add_line, read_lines, parse_config_file,
}
use httpdirfs.Main.Config.Reading.{
  ConfigOption, AllOptions, text_of, all_args, parse_config_file-text_of,
}

program : Unit {0}
unfolding isspace getlines c_string is_empty trim_end trim_start cut_blank add_arg add_value
    add_option add_line read_lines parse_config_file
program = tt

-- "#-d\n  -d \n-u a b", with two blanks before the value and no newline at the end
reads_options :
    parse_config_file false
      (some (
        35 ∷ 45 ∷ 100 ∷ 10 ∷ 32 ∷ 32 ∷ 45 ∷ 100 ∷ 32 ∷ 10 ∷ 45 ∷ 117 ∷ 32 ∷ 32 ∷ 97 ∷ 32 ∷ 98 ∷ []))
      []
    ≡ ok ((45 ∷ 100 ∷ []) ∷ (45 ∷ 117 ∷ []) ∷ (97 ∷ 32 ∷ 98 ∷ []) ∷ [])
unfolding program
reads_options = refl

missing_config : parse_config_file true none [] ≡ fatal
unfolding program
missing_config = refl

abbrev options : List ConfigOption
options =
    record { name = 100 ∷ []; value = [] }
    ∷ record { name = 117 ∷ []; value = 97 ∷ 32 ∷ 98 ∷ [] }
    ∷ []

options-AllOptions : AllOptions options
unfolding program
options-AllOptions = (
  record { solid_name = refl; trimmed = tt; value_line = refl },
  (record { solid_name = refl; trimmed = (refl, refl); value_line = refl }, tt),
)

parse_config_file-text_of_example :
    parse_config_file false (some (text_of options)) [] ≡ ok ([] ++ all_args options)
parse_config_file-text_of_example = parse_config_file-text_of false [] options options-AllOptions
