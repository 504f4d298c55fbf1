-- ===== src/Tests/Configuration.antt =====
-- The configuration of code/config at concrete inputs.
use linux_process_analyzer.Prelude.{
  List, arith, ◌↔◌, ◌≡◌, ◌≢◌, refl, true, none, some, [], ◌∷◌, ◌++◌,
}
use linux_process_analyzer.Prelude.Int.{◌-ℤ◌}
use linux_process_analyzer.Prelude.Cstr.{Bytes, codes, is_space, trim_end, split_first}
use linux_process_analyzer.Config.{
  ConfigStatus, Config, config_success, config_default, configuration_zero, config_set_option,
  parse_bool,
}
use linux_process_analyzer.Config.File.{
  ConfigFile, readable, parse_config_file, parse_line, fgets_rest, fgets,
}
use linux_process_analyzer.Config.File.Fuel.{LineLoop, parse_config_file-LineLoop}
use linux_process_analyzer.Config.File.RoundTrip.{IsBlank, IsKey}
use linux_process_analyzer.Config.File.Whole.{
  Item, blank, comment, pair, AreItems, file_text, set_items, parse_config_file-set_items,
}
use linux_process_analyzer.Config.Directory.{
  returned, outside, mkdir_p, ensure_output_dir, without_slash, mkdir_tmp, mkdir_from,
  check_file_access,
}
use linux_process_analyzer.Config.Directory.Prefixes.{mkdir_p-Exists}
use linux_process_analyzer.Config.Init.{config_init, ended, crashed, validate_values}
use linux_process_analyzer.Config.Init.Valid.{
  Source, IsValid, config_init-IsValid, config_init-crashes,
}
use linux_process_analyzer.Tests.Models.{directories, directories-Makes, IsIn}

abbrev key : Bytes
key = codes "output_dir"

key-IsKey : IsKey key
unfolding is_space trim_end
key-IsKey = record {
  first = b'o';
  others = codes "utput_dir";
  is_cons = refl;
  not_space = refl;
  not_comment = refl;
  no_equals = (refl, (refl, (refl, (refl, (refl, (refl, (refl, (refl, (refl, (refl, tt))))))))));
  no_trailing = refl;
}

one-IsBlank : IsBlank (codes " ")
unfolding is_space
one-IsBlank = (refl, tt)

mkdir_p_run :
    mkdir_p directories (codes "/tmp/a/") [] ≡ returned true (codes "/tmp/a" ∷ codes "/tmp" ∷ [])
unfolding mkdir_p outside ◌-ℤ◌ mkdir_tmp without_slash mkdir_from
mkdir_p_run = refl

mkdir_p-Exists_example :
    IsIn (codes "/tmp/a" ∷ codes "/tmp" ∷ []) (without_slash (codes "/tmp/a/"))
    × ((a b : Bytes)
        → a ≢ []
        → without_slash (codes "/tmp/a/") ≡ a ++ (b'/' ∷ b)
        → IsIn (codes "/tmp/a" ∷ codes "/tmp" ∷ []) a)
mkdir_p-Exists_example =
    mkdir_p-Exists directories IsIn directories-Makes (codes "/tmp/a/") []
      (codes "/tmp/a" ∷ codes "/tmp" ∷ []) mkdir_p_run

default_run :
    config_init directories none configuration_zero []
    ≡ ended config_success config_default (codes "/tmp/ptime" ∷ codes "/tmp" ∷ [])
unfolding config_init ensure_output_dir mkdir_p mkdir_tmp without_slash mkdir_from check_file_access
    validate_values outside ◌-ℤ◌
default_run = refl

config_init-IsValid_example :
    Source directories none configuration_zero config_default
    × (ensure_output_dir directories config_default.output_dir []
        ≡ returned true (codes "/tmp/ptime" ∷ codes "/tmp" ∷ []))
    × IsValid config_default
config_init-IsValid_example =
    config_init-IsValid directories none configuration_zero config_default []
      (codes "/tmp/ptime" ∷ codes "/tmp" ∷ []) default_run

-- A file that sets one option, at the program's start, where the configuration is zero.
abbrev one_option : ConfigFile
one_option = readable (codes "include_self = true\n")

one_option_parsed :
    parse_config_file one_option configuration_zero
    ≡ (config_success, record configuration_zero { include_self = true })
unfolding parse_config_file parse_line config_set_option fgets split_first parse_bool fgets_rest
one_option_parsed = refl

abbrev include_self : Config
include_self = record configuration_zero { include_self = true }

config_init-crashes_example :
    (config_init directories (some one_option) configuration_zero [] ≡ crashed) ↔ (
      (f : ConfigFile) × (c : Config) × (some one_option ≡ some f)
      × (parse_config_file f configuration_zero ≡ (config_success, c))
      × (c.output_dir ≡ [])
      × (directories.stat_dir [] [] ≡ none))
config_init-crashes_example =
    config_init-crashes directories (some one_option) configuration_zero []

one_option_crashes : config_init directories (some one_option) configuration_zero [] ≡ crashed
one_option_crashes =
    config_init-crashes_example.1 (one_option, include_self, refl, one_option_parsed, refl, refl)

parse_config_file-LineLoop_example :
    LineLoop configuration_zero
      (codes "include_self = true\n")
      (parse_config_file one_option configuration_zero)
    × ((r : ConfigStatus × Config)
        → LineLoop configuration_zero (codes "include_self = true\n") r
        → r ≡ parse_config_file one_option configuration_zero)
parse_config_file-LineLoop_example =
    parse_config_file-LineLoop (codes "include_self = true\n") configuration_zero

abbrev items : List Item
items =
    comment (codes " ") (codes " the output")
    ∷ blank []
    ∷ pair (codes " ") key (codes " ") (codes " /var/log/ptime")
    ∷ []

items-AreItems : AreItems items
unfolding is_space
items-AreItems = (
  (refl, tt),
  ground arith,
  omega arith,
  (tt, tt, omega arith, (((refl, tt), key-IsKey, (refl, tt)), ground arith, omega arith, tt)),
)

parse_config_file-set_items_example :
    parse_config_file (readable (file_text items)) config_default ≡ set_items items config_default
parse_config_file-set_items_example =
    parse_config_file-set_items items config_default items-AreItems
