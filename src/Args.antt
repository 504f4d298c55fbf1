-- ===== src/Args.antt =====
-- The data of code/args_parser/args_parser.h and of the metric arguments in
-- code/process_stats/process_stats.h.
pub mod Numbers
pub mod Whitelist
pub mod Options
use linux_process_analyzer.Prelude.{ℕ, ◌^◌, ◌-◌, Bool, true, false, List, []}
use linux_process_analyzer.Prelude.Cstr.{Bytes}

pub data ParseArgsStatus : Type 0 where
  parse_args_error parse_args_ok : ParseArgsStatus

pub record MetricsArguments : Type 0 where
  pub cpu_average_requested : Bool
  pub cpu_average_pids_to_display : ℕ
  pub rss_average_requested : Bool
  pub rss_average_pids_to_display : ℕ
  pub rss_increase_requested : Bool
  pub rss_increase_pids_to_display : ℕ
  pub rss_delta_requested : Bool
  pub rss_delta_pids_to_display : ℕ
  pub bytes_read_requested : Bool
  pub bytes_read_pids_to_display : ℕ
  pub bytes_write_requested : Bool
  pub bytes_write_pids_to_display : ℕ
  pub read_rate_requested : Bool
  pub read_rate_pids_to_display : ℕ
  pub write_rate_requested : Bool
  pub write_rate_pids_to_display : ℕ
  pub fds_increase_requested : Bool
  pub fds_increase_pids_to_display : ℕ
  pub opened_fds_requested : Bool
  pub opened_fds_pids_to_display : ℕ
  pub fds_delta_requested : Bool
  pub fds_delta_pids_to_display : ℕ

-- The heap buffers are the lists of their used cells, so each `count` field is a length.
pub record PidWhitelist : Type 0 where
  pub filter_pids : List ℕ
  pub filter_pids_capacity : ℕ
  pub filter_comms : List Bytes
  pub filter_comms_capacity : ℕ

pub record ApArguments : Type 0 where
  pub interval_ms : ℕ
  pub count : ℕ
  pub delete_old_files : Bool
  pub end_metrics_args : MetricsArguments
  pub pid_whitelist : PidWhitelist

abbrev pub empty_whitelist : PidWhitelist
empty_whitelist = record {
  filter_pids = [];
  filter_pids_capacity = 0;
  filter_comms = [];
  filter_comms_capacity = 0;
}

-- The counts and flags of a static `ap_arguments`, which C sets to zero.
abbrev pub zero_metrics : MetricsArguments
zero_metrics = record {
  cpu_average_requested = false;
  cpu_average_pids_to_display = 0;
  rss_average_requested = false;
  rss_average_pids_to_display = 0;
  rss_increase_requested = false;
  rss_increase_pids_to_display = 0;
  rss_delta_requested = false;
  rss_delta_pids_to_display = 0;
  bytes_read_requested = false;
  bytes_read_pids_to_display = 0;
  bytes_write_requested = false;
  bytes_write_pids_to_display = 0;
  read_rate_requested = false;
  read_rate_pids_to_display = 0;
  write_rate_requested = false;
  write_rate_pids_to_display = 0;
  fds_increase_requested = false;
  fds_increase_pids_to_display = 0;
  opened_fds_requested = false;
  opened_fds_pids_to_display = 0;
  fds_delta_requested = false;
  fds_delta_pids_to_display = 0;
}

abbrev pub zero_arguments : ApArguments
zero_arguments = record {
  interval_ms = 0;
  count = 0;
  delete_old_files = false;
  end_metrics_args = zero_metrics;
  pid_whitelist = empty_whitelist;
}
