-- ===== src/Args/Options.antt =====
-- `ap_parse_args` of code/args_parser/args_parser.c. The options are those that getopt_long
-- returns, each with its argument, up to its -1; what it does not know comes as another letter.
pub mod Accepted
pub mod LastWins
use linux_process_analyzer.Prelude.{
  ℕ, Bool, true, false, not, ◌&&◌, ◌||◌, Option, none, some, List, [], ◌∷◌, ◌==◌, if◌then◌else◌,
}
use linux_process_analyzer.Prelude.Cstr.{Bytes}
use linux_process_analyzer.Args.{
  ParseArgsStatus, parse_args_error, parse_args_ok, MetricsArguments, PidWhitelist, ApArguments,
  empty_whitelist,
}
use linux_process_analyzer.Args.Numbers.{
  parse_integer_arg, parse_number_of_snapshots, parse_duration_ms,
}
use linux_process_analyzer.Args.Whitelist.{
  FilterParseType, filter_parse_pid, filter_parse_comm, parse_filter_pid_list,
}

-- The local variables of the loop.
pub record ParseState : Type 0 where
  pub cfg : ApArguments
  pub interval_provided : Bool
  pub count_provided : Bool

-- One round of the loop goes on, or returns `parse_args_error` with this configuration.
pub data Round : Type 0 where
  goes_on : ParseState → Round
  returns : ApArguments → Round

-- The frees of the buffers and names are not visible in values; what stays is empty.
unfoldable pub ap_free_arguments : ApArguments → ApArguments
ap_free_arguments cfg = record cfg { pid_whitelist = empty_whitelist }

abbrev with_metrics : ParseState → MetricsArguments → ParseState
with_metrics s m = record s { cfg = record s.cfg { end_metrics_args = m } }

-- `case 'i'`
take_interval : ParseState → Option ℕ → Round
unfolding ap_free_arguments
take_interval s none = returns (ap_free_arguments s.cfg)
take_interval s (some ms) =
    goes_on (record s { cfg = record s.cfg { interval_ms = ms }; interval_provided = true })

-- `case 'n'`
take_count : ParseState → Option ℕ → Round
unfolding ap_free_arguments
take_count s none = returns (ap_free_arguments s.cfg)
take_count s (some n) =
    goes_on (record s { cfg = record s.cfg { count = n }; count_provided = true })

-- The eleven cases of metrics differ in the two fields that they set.
pub data Metric : Type 0 where
  cpu_average rss_average rss_increase rss_delta : Metric
  bytes_read bytes_write read_rate write_rate : Metric
  fds_increase opened_fds fds_delta : Metric

unfoldable pub set_metric : Metric → MetricsArguments → ℕ → MetricsArguments
set_metric cpu_average m n = record m {
  cpu_average_pids_to_display = n;
  cpu_average_requested = true;
}
set_metric rss_average m n = record m {
  rss_average_pids_to_display = n;
  rss_average_requested = true;
}
set_metric rss_increase m n = record m {
  rss_increase_pids_to_display = n;
  rss_increase_requested = true;
}
set_metric rss_delta m n = record m { rss_delta_pids_to_display = n; rss_delta_requested = true }
set_metric bytes_read m n = record m { bytes_read_pids_to_display = n; bytes_read_requested = true }
set_metric bytes_write m n = record m {
  bytes_write_pids_to_display = n;
  bytes_write_requested = true;
}
set_metric read_rate m n = record m { read_rate_pids_to_display = n; read_rate_requested = true }
set_metric write_rate m n = record m { write_rate_pids_to_display = n; write_rate_requested = true }
set_metric fds_increase m n = record m {
  fds_increase_pids_to_display = n;
  fds_increase_requested = true;
}
set_metric opened_fds m n = record m { opened_fds_pids_to_display = n; opened_fds_requested = true }
set_metric fds_delta m n = record m { fds_delta_pids_to_display = n; fds_delta_requested = true }

take_metric : Metric → ParseState → Option ℕ → Round
unfolding ap_free_arguments set_metric
take_metric x s none = returns (ap_free_arguments s.cfg)
take_metric x s (some n) = goes_on (with_metrics s (set_metric x s.cfg.end_metrics_args n))

-- `case 'k'` and `case 'l'`
take_filter : ParseState → ParseArgsStatus × PidWhitelist → Round
unfolding ap_free_arguments
take_filter s (parse_args_error, w) =
    returns (ap_free_arguments (record s.cfg { pid_whitelist = w }))
take_filter s (parse_args_ok, w) = goes_on (record s { cfg = record s.cfg { pid_whitelist = w } })

-- The letter of each metric.
unfoldable pub metric_of : ℕ → Option Metric
metric_of opt =
    if opt == b'c'
    then some cpu_average
    else if opt == b'r'
    then some rss_average
    else if opt == b's'
    then some rss_increase
    else if opt == b'd'
    then some rss_delta
    else if opt == b'e'
    then some bytes_read
    else if opt == b'f'
    then some bytes_write
    else if opt == b'g'
    then some read_rate
    else if opt == b'a'
    then some write_rate
    else if opt == b'm'
    then some fds_increase
    else if opt == b'p'
    then some opened_fds
    else if opt == b'o'
    then some fds_delta
    else none

-- `case 'j'`, `case 'v'` and the last case, which prints the usage text.
take_flag : ParseState → ℕ → Round
unfolding ap_free_arguments
take_flag s opt =
    if opt == b'j'
    then goes_on (record s { cfg = record s.cfg { delete_old_files = true } })
    else returns (ap_free_arguments s.cfg)

take_metric_or_flag : ParseState → ℕ → Bytes → Option Metric → Round
unfolding take_metric take_flag
take_metric_or_flag s opt optarg none = take_flag s opt
take_metric_or_flag s opt optarg (some x) = take_metric x s (parse_integer_arg optarg)

abbrev pub any_requested : MetricsArguments → Bool
any_requested m =
    m.cpu_average_requested || m.rss_average_requested || m.rss_increase_requested
    || m.rss_delta_requested || m.bytes_read_requested || m.bytes_write_requested
    || m.read_rate_requested || m.write_rate_requested || m.fds_increase_requested
    || m.opened_fds_requested || m.fds_delta_requested

-- The result: the status, the configuration, and whether `process_stats_initialize` was called.
pub record Parsed : Type 0 where
  pub status : ParseArgsStatus
  pub cfg : ApArguments
  pub stats_initialized : Bool

-- `break` out of the switch, or `return` out of the function.
abbrev pub proceed : Round → (ParseState → Round) → Round
proceed (returns cfg) k = returns cfg
proceed (goes_on s) k = k s

module _ (alloc : ℕ → Bool) where
  unfoldable pub step : ParseState → ℕ → Bytes → Round
  unfolding take_interval take_count take_filter take_metric_or_flag
  step s opt optarg =
      if opt == b'i'
      then take_interval s (parse_duration_ms optarg)
      else if opt == b'n'
      then take_count s (parse_number_of_snapshots optarg)
      else if opt == b'k'
      then take_filter s (parse_filter_pid_list alloc filter_parse_pid optarg s.cfg.pid_whitelist)
      else if opt == b'l'
      then take_filter s (parse_filter_pid_list alloc filter_parse_comm optarg s.cfg.pid_whitelist)
      else take_metric_or_flag s opt optarg (metric_of opt)

  -- while ((opt = getopt_long(...)) != -1)
  unfoldable pub parse_options : ParseState → List (ℕ × Bytes) → Round
  parse_options s [] = goes_on s
  parse_options s ((opt, optarg) ∷ options) =
      proceed (step s opt optarg) (λ s'. parse_options s' options)

-- What follows the loop; `metrics_output` is the test of the two configuration getters.
unfoldable pub conclude : Bool → Round → Parsed
unfolding ap_free_arguments
conclude metrics_output (returns cfg) = record {
  status = parse_args_error;
  cfg = cfg;
  stats_initialized = false;
}
conclude metrics_output (goes_on s) =
    if not s.count_provided || not s.interval_provided
    then record {
      status = parse_args_error;
      cfg = ap_free_arguments s.cfg;
      stats_initialized = false;
    }
    else record {
      status = parse_args_ok;
      cfg = s.cfg;
      stats_initialized = any_requested s.cfg.end_metrics_args && metrics_output;
    }

unfoldable pub ap_parse_args :
    (alloc : ℕ → Bool) (metrics_console_enabled metrics_json_enabled : Bool)
    → List (ℕ × Bytes)
    → ApArguments
    → Parsed
unfolding ap_free_arguments
ap_parse_args alloc console json options cfg = conclude (console || json) (
    parse_options alloc
      (record { cfg = ap_free_arguments cfg; interval_provided = false; count_provided = false })
      options)
