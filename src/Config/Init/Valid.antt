-- ===== src/Config/Init/Valid.antt =====
-- What holds of the configuration when the initialization succeeds.
use mathlib.Core.Path.{subst}
use linux_process_analyzer.Prelude.{
  ◌≡◌, ◌↔◌, ◌∙◌, ap, refl, sym, ◌⊎◌, true, false, Option, none, some, [], arith,
}
use linux_process_analyzer.Prelude.Int.{pos, ◌≤ℤ◌}
use linux_process_analyzer.Prelude.Cstr.{Bytes}
use linux_process_analyzer.Config.{
  ConfigStatus, config_success, config_error_io, config_error_parse, config_error_validation,
  Config, config_default,
}
use linux_process_analyzer.Config.File.{ConfigFile, parse_config_file}
use linux_process_analyzer.Config.Directory.{
  FileSystem, Run, returned, out_of_bounds, ensure_output_dir,
}
use linux_process_analyzer.Config.Directory.Outside.{
  ensure_output_dir-outside, ensure_output_dir-empty,
}
use linux_process_analyzer.Config.Init.{
  validate_values, validated, validate_config, after_parse, config_init, ended, crashed,
}

pub record IsValid (c : Config) : Type 0 where
  pub file_size : pos 1024 ≤ℤ c.max_file_size_bytes
  pub files_from : pos 1 ≤ℤ c.max_number_of_files
  pub files_to : c.max_number_of_files ≤ℤ pos 999
  pub some_output :
      (c.raw_log_enabled ≡ true) ⊎ (c.raw_jsonl_enabled ≡ true) ⊎ (c.raw_console_enabled ≡ true)

validate_values-IsValid : (c : Config) → validate_values c ≡ config_success → IsValid c
unfolding validate_values
validate_values-IsValid c h = ground arith

module _ {S : Type 0} (fs : FileSystem S) where
  -- Where the configuration that was validated comes from.
  abbrev pub Source : Option ConfigFile → Config → Config → Type 0
  Source none before c = c ≡ config_default
  Source (some file) before c = parse_config_file file before ≡ (config_success, c)

  validated-success :
      (c d : Config) (r : Run S) (t : S)
      → validated fs c r ≡ ended config_success d t
      → (c ≡ d) × (r ≡ returned true t) × IsValid d
  unfolding validated
  validated-success c d out_of_bounds t h = cc
  validated-success c d (returned false s) t h = ground arith
  validated-success c d (returned true s) t h =
      let same : c ≡ d = ground arith in
      (same, ground arith, subst IsValid same (validate_values-IsValid c (ground arith)))

  after_parse-success :
      (r : ConfigStatus × Config) (c : Config) (s t : S)
      → after_parse fs r s ≡ ended config_success c t
      → (d : Config) × (r ≡ (config_success, d))
        × (validated fs d (ensure_output_dir fs d.output_dir s) ≡ ended config_success c t)
  unfolding after_parse
  after_parse-success (config_success, d) c s t h = (d, refl, h)
  after_parse-success (config_error_io, d) c s t h = cc
  after_parse-success (config_error_parse, d) c s t h = cc
  after_parse-success (config_error_validation, d) c s t h = cc

  -- When the initialization succeeds, the configuration is the default one or the one that the
  -- file was parsed to, its output directory passed its check, files hold at least 1024 bytes and
  -- are from 1 to 999, and some raw output is enabled.
  pub config_init-IsValid :
      (file : Option ConfigFile) (before c : Config) (s t : S)
      → config_init fs file before s ≡ ended config_success c t
      → Source file before c × (ensure_output_dir fs c.output_dir s ≡ returned true t) × IsValid c
  config_init-IsValid none before c s t h =
      let (same, made, v) =
        validated-success config_default c (ensure_output_dir fs config_default.output_dir s) t
          (unfold config_init in h) in
      (sym same, subst (λ d. ensure_output_dir fs d.output_dir s ≡ returned true t) same made, v)
  config_init-IsValid (some file) before c s t h =
      let (d, parsed, ended_well) =
        after_parse-success (parse_config_file file before) c s t (unfold config_init in h) in
      let (same, made, v) =
        validated-success d c (ensure_output_dir fs d.output_dir s) t ended_well in
      (
        subst (λ x. parse_config_file file before ≡ (config_success, x)) same parsed,
        subst (λ x. ensure_output_dir fs x.output_dir s ≡ returned true t) same made,
        v,
      )

  validated-crashed : (c : Config) (r : Run S) → validated fs c r ≡ crashed → r ≡ out_of_bounds
  unfolding validated
  validated-crashed c out_of_bounds h = refl
  validated-crashed c (returned false s) h = cc
  validated-crashed c (returned true s) h = cc

  -- A configuration that makes mkdir_p read outside its buffer.
  abbrev pub IsUnnamed : Config → S → Type 0
  IsUnnamed c s = (c.output_dir ≡ []) × (fs.stat_dir s [] ≡ none)

  validate_config-crashed : (c : Config) (s : S) → validate_config fs c s ≡ crashed → IsUnnamed c s
  unfolding validate_config
  validate_config-crashed c s h =
      let o =
        ensure_output_dir-outside fs c.output_dir s
          (validated-crashed c (ensure_output_dir fs c.output_dir s) h) in
      (o.1, subst (λ (d : Bytes). fs.stat_dir s d ≡ none) o.1 o.0)

  validate_config-crashes : (c : Config) (s : S) → IsUnnamed c s → validate_config fs c s ≡ crashed
  unfolding validate_config validated
  validate_config-crashes c s (empty, missing) =
      ap (λ (d : Bytes). validated fs c (ensure_output_dir fs d s)) empty
      ∙ ap (λ (r : Run S). validated fs c r) (ensure_output_dir-empty fs s missing)

  after_parse-crashed :
      (r : ConfigStatus × Config) (s : S)
      → after_parse fs r s ≡ crashed
      → (c : Config) × (r ≡ (config_success, c)) × IsUnnamed c s
  unfolding after_parse
  after_parse-crashed (config_success, c) s h = (c, refl, validate_config-crashed c s h)
  after_parse-crashed (config_error_io, c) s h = cc
  after_parse-crashed (config_error_parse, c) s h = cc
  after_parse-crashed (config_error_validation, c) s h = cc

  crash-source :
      (file : Option ConfigFile) (before : Config) (s : S)
      → config_init fs file before s ≡ crashed
      → (f : ConfigFile) × (c : Config) × (file ≡ some f)
        × (parse_config_file f before ≡ (config_success, c))
        × IsUnnamed c s
  unfolding config_init
  crash-source none before s h = cc ((validate_config-crashed config_default s h).0)
  crash-source (some f) before s h =
      let (c, parsed, unnamed) = after_parse-crashed (parse_config_file f before) s h in
      (f, c, refl, parsed, unnamed)

  crashes-from :
      (f : ConfigFile) (before c : Config) (s : S)
      → parse_config_file f before ≡ (config_success, c)
      → IsUnnamed c s
      → config_init fs (some f) before s ≡ crashed
  unfolding config_init after_parse
  crashes-from f before c s parsed unnamed =
      ap (λ r. after_parse fs r s) parsed ∙ validate_config-crashes c s unnamed

  -- The initialization reads outside the buffer of mkdir_p exactly when a configuration file is
  -- given and parsed with success, leaves the output directory empty, as one without that option
  -- does at the program's start, and the empty path cannot be accessed. So it never does with the
  -- default configuration, nor after an error of the file.
  pub config_init-crashes :
      (file : Option ConfigFile) (before : Config) (s : S)
      → (config_init fs file before s ≡ crashed) ↔ (
          (f : ConfigFile) × (c : Config) × (file ≡ some f)
          × (parse_config_file f before ≡ (config_success, c))
          × (c.output_dir ≡ [])
          × (fs.stat_dir s [] ≡ none))
  config_init-crashes file before s = (
    (λ h.
        let (f, c, given, parsed, unnamed) = crash-source file before s h in
        (f, c, given, parsed, unnamed.0, unnamed.1)),
    λ (f, c, given, parsed, empty, missing).
        ap (λ (o : Option ConfigFile). config_init fs o before s) given
        ∙ crashes-from f before c s parsed (empty, missing),
  )
