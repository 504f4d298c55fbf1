-- ===== src/Config.antt =====
-- The configuration of code/config/config.c: its record, and the options one by one.
pub mod File
pub mod Directory
pub mod Init
pub mod Banner
use linux_process_analyzer.Prelude.{
  ℕ, ◌*◌, ◌^◌, ◌%◌, Bool, true, false, not, ◌||◌, Option, none, some, [], ◌∷◌, ◌==◌, ltb, leb,
  if◌then◌else◌, length,
}
use linux_process_analyzer.Prelude.Int.{ℤ, pos, signed64, int_of}
use linux_process_analyzer.Prelude.Cstr.{Bytes, codes, str_eq, str_case_eq}
use linux_process_analyzer.Prelude.Strto.{Strto, strtol, strtoull}

abbrev pub path_max : ℕ
path_max = 4096

pub data ConfigStatus : Type 0 where
  config_success config_error_io config_error_parse config_error_validation : ConfigStatus

pub record Config : Type 0 where
  pub output_dir : Bytes
  pub raw_log_enabled : Bool
  pub raw_jsonl_enabled : Bool
  pub raw_console_enabled : Bool
  pub compression_enabled : Bool
  pub metrics_console_enabled : Bool
  pub metrics_json_enabled : Bool
  pub max_file_size_bytes : ℤ
  pub max_number_of_files : ℤ
  pub include_self : Bool

abbrev pub config_default : Config
config_default = record {
  output_dir = codes "/tmp/ptime";
  raw_log_enabled = true;
  raw_jsonl_enabled = true;
  raw_console_enabled = false;
  compression_enabled = false;
  metrics_console_enabled = true;
  metrics_json_enabled = true;
  max_file_size_bytes = pos (5 * 1024 * 1024);
  max_number_of_files = pos 3;
  include_self = false;
}

-- `static config_t configuration_t`, before anything is stored: C sets it to zero.
abbrev pub configuration_zero : Config
configuration_zero = record {
  output_dir = [];
  raw_log_enabled = false;
  raw_jsonl_enabled = false;
  raw_console_enabled = false;
  compression_enabled = false;
  metrics_console_enabled = false;
  metrics_json_enabled = false;
  max_file_size_bytes = pos 0;
  max_number_of_files = pos 0;
  include_self = false;
}

unfoldable pub parse_bool : Bytes → Option Bool
unfolding str_eq str_case_eq
parse_bool v =
    if str_case_eq v (codes "true") || str_case_eq v (codes "yes") || str_eq v (codes "1")
    then some true
    else if str_case_eq v (codes "false") || str_case_eq v (codes "no") || str_eq v (codes "0")
    then some false
    else none

-- `switch (*end)`; the products are taken in unsigned long long. Only the first byte behind the
-- number is looked at.
scaled : Bytes → ℕ → Option ℕ
scaled [] n = some n
scaled (c ∷ cs) n =
    if c == b'k' || c == b'K'
    then some (n * 1024 % 2 ^ 64)
    else if c == b'm' || c == b'M'
    then some (n * (1024 * 1024) % 2 ^ 64)
    else if c == b'g' || c == b'G'
    then some (n * (1024 * 1024 * 1024) % 2 ^ 64)
    else none

as_off_t : Option ℕ → Option ℤ
as_off_t none = none
as_off_t (some n) = some (signed64 n)

unfoldable pub parse_size : Bytes → Option ℤ
unfolding as_off_t scaled
parse_size v =
    let r = strtoull v in if not r.converted then none else as_off_t (scaled r.rest r.value)

abbrev pub atoi : Bytes → ℤ
atoi v = int_of (strtol v).value

abbrev with_bool : (Bool → Config) → Option Bool → Option Config
with_bool k none = none
with_bool k (some b) = some (k b)

abbrev with_size : (ℤ → Config) → Option ℤ → Option Config
with_size k none = none
with_size k (some n) = some (k n)

set_output_dir : Config → Bytes → Option Config
set_output_dir c value =
    if leb path_max (length value) then none else some (record c { output_dir = value })

-- `none` is -1: an unknown key or a refused value, with nothing stored.
unfoldable pub config_set_option : Config → Bytes → Bytes → Option Config
unfolding str_eq set_output_dir
config_set_option c key value =
    if str_eq key (codes "output_dir")
    then set_output_dir c value
    else if str_eq key (codes "raw_log_enabled")
    then with_bool (λ b. record c { raw_log_enabled = b }) (parse_bool value)
    else if str_eq key (codes "raw_jsonl_enabled")
    then with_bool (λ b. record c { raw_jsonl_enabled = b }) (parse_bool value)
    else if str_eq key (codes "raw_console_enabled")
    then with_bool (λ b. record c { raw_console_enabled = b }) (parse_bool value)
    else if str_eq key (codes "compression_enabled")
    then with_bool (λ b. record c { compression_enabled = b }) (parse_bool value)
    else if str_eq key (codes "metrics_on_console")
    then with_bool (λ b. record c { metrics_console_enabled = b }) (parse_bool value)
    else if str_eq key (codes "metrics_on_json")
    then with_bool (λ b. record c { metrics_json_enabled = b }) (parse_bool value)
    else if str_eq key (codes "max_file_size")
    then with_size (λ n. record c { max_file_size_bytes = n }) (parse_size value)
    else if str_eq key (codes "max_number_of_files")
    then some (record c { max_number_of_files = atoi value })
    else if str_eq key (codes "include_self")
    then with_bool (λ b. record c { include_self = b }) (parse_bool value)
    else none

-- The getters that do more than read their field's name: this one reads the console's flag.
abbrev pub config_get_metrics_json_enabled : Config → Bool
config_get_metrics_json_enabled c = c.metrics_console_enabled

abbrev pub config_get_metrics_console_enabled : Config → Bool
config_get_metrics_console_enabled c = c.metrics_console_enabled
