-- ===== src/Config/Init.antt =====
-- `validate_config` and `config_init` of code/config/config.c.
pub mod Valid
use linux_process_analyzer.Prelude.{
  ℕ, Bool, true, false, not, ◌&&◌, ◌||◌, Option, none, some, [], if◌then◌else◌,
}
use linux_process_analyzer.Prelude.Int.{ℤ, pos, ltb_ℤ}
use linux_process_analyzer.Config.{
  ConfigStatus, config_success, config_error_io, config_error_parse, config_error_validation,
  Config, config_default,
}
use linux_process_analyzer.Config.File.{ConfigFile, parse_config_file}
use linux_process_analyzer.Config.Directory.{
  FileSystem, Run, returned, out_of_bounds, ensure_output_dir,
}

abbrev pub config_min_file_size_bytes : ℤ
config_min_file_size_bytes = pos 1024

abbrev pub config_min_no_of_files : ℤ
config_min_no_of_files = pos 1

abbrev pub config_max_no_of_files : ℤ
config_max_no_of_files = pos 1000

-- The tests after the output directory.
unfoldable pub validate_values : Config → ConfigStatus
validate_values c =
    if ltb_ℤ c.max_file_size_bytes config_min_file_size_bytes
    then config_error_validation
    else if ltb_ℤ c.max_number_of_files config_min_no_of_files
        || not (ltb_ℤ c.max_number_of_files config_max_no_of_files)
    then config_error_validation
    else if not c.raw_log_enabled && not c.raw_jsonl_enabled && not c.raw_console_enabled
    then config_error_validation
    else config_success

-- How the initialization ends: the status, the configuration and the file system, or an access
-- outside an object.
pub data Initialized (S : Type 0) : Type 0 where
  ended : ConfigStatus → Config → S → Initialized S
  crashed : Initialized S

module _ {S : Type 0} (fs : FileSystem S) where
  validated : Config → Run S → Initialized S
  validated c out_of_bounds = crashed
  validated c (returned false s) = ended config_error_validation c s
  validated c (returned true s) = ended (validate_values c) c s

  validate_config : Config → S → Initialized S
  unfolding validated
  validate_config c s = validated c (ensure_output_dir fs c.output_dir s)

  after_parse : ConfigStatus × Config → S → Initialized S
  unfolding validate_config
  after_parse (config_success, c) s = validate_config c s
  after_parse (failed, c) s = ended failed c s

  -- The argument is what PROCESS_ANALYZER_CONFIG names, if it is set; `c` is `configuration_t`
  -- before the call.
  unfoldable pub config_init : Option ConfigFile → Config → S → Initialized S
  unfolding after_parse
  config_init none c s = validate_config config_default s
  config_init (some file) c s = after_parse (parse_config_file file c) s
