-- ===== src/Config/File.antt =====
-- `trim` and `parse_config_file` of code/config/config.c.
pub mod RoundTrip
pub mod Fuel
pub mod Lines
pub mod Whole
use linux_process_analyzer.Prelude.{
  ℕ, zero, suc, ◌+◌, Bool, true, false, Option, none, some, List, [], ◌∷◌, ◌==◌, ◌||◌,
  if◌then◌else◌, length,
}
use linux_process_analyzer.Prelude.Cstr.{Bytes, skip_space, trim_end, split_first}
use linux_process_analyzer.Config.{
  ConfigStatus, config_success, config_error_io, config_error_parse, Config, config_set_option,
}

-- The first byte stays whatever it is: after the first loop it is no white space.
keep_first : Bytes → Bytes
unfolding trim_end
keep_first [] = []
keep_first (c ∷ cs) = c ∷ trim_end cs

pub trim : Bytes → Bytes
unfolding skip_space keep_first
trim s = keep_first (skip_space s)

-- fgets(line, sizeof(line), f): at most `n` bytes, up to a newline, which is kept.
unfoldable pub fgets : ℕ → Bytes → Bytes
fgets zero s = []
fgets (suc n) [] = []
fgets (suc n) (c ∷ cs) = let rest = fgets n cs in if c == b'\n' then c ∷ [] else c ∷ rest

unfoldable pub fgets_rest : ℕ → Bytes → Bytes
fgets_rest zero s = s
fgets_rest (suc n) [] = []
fgets_rest (suc n) (c ∷ cs) = let rest = fgets_rest n cs in if c == b'\n' then cs else rest

-- The buffer holds 512 bytes, the last one for the NUL.
abbrev pub line_bytes : ℕ
line_bytes = 511

-- The text behind the line's `=`, or the error.
set_pair : Config → Option (Bytes × Bytes) → Option Config
unfolding trim
set_pair c none = none
set_pair c (some (key, value)) = config_set_option c (trim key) (trim value)

parse_trimmed : Config → Bytes → Option Config
unfolding set_pair
parse_trimmed c [] = some c
parse_trimmed c (x ∷ xs) = if x == b'#' then some c else set_pair c (split_first b'=' (x ∷ xs))

unfoldable pub parse_line : Config → Bytes → Option Config
unfolding trim parse_trimmed
parse_line c line = parse_trimmed c (trim line)

abbrev pub on_line :
    ConfigStatus × Config → Option Config → (Config → ConfigStatus × Config) → ConfigStatus × Config
on_line failed none k = failed
on_line failed (some c) k = k c

-- The loop over the lines; each round takes at least one byte, so that as many rounds as there
-- are bytes are enough.
pub parse_lines : ℕ → Config → Bytes → ConfigStatus × Config
parse_lines fuel c [] = (config_success, c)
parse_lines zero c (x ∷ xs) = (config_error_parse, c)
parse_lines (suc fuel) c (x ∷ xs) =
    on_line (config_error_parse, c) (parse_line c (fgets line_bytes (x ∷ xs)))
      λ c'. parse_lines fuel c' (fgets_rest line_bytes (x ∷ xs))

-- What stat and fopen say of the path.
pub data ConfigFile : Type 0 where
  no_access not_regular not_readable : ConfigFile
  readable : Bytes → ConfigFile

unfoldable pub parse_config_file : ConfigFile → Config → ConfigStatus × Config
unfolding parse_lines
parse_config_file no_access c = (config_error_io, c)
parse_config_file not_regular c = (config_error_io, c)
parse_config_file not_readable c = (config_error_io, c)
parse_config_file (readable text) c = parse_lines (length text) c text
