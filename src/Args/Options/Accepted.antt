-- ===== src/Args/Options/Accepted.antt =====
-- What holds of an accepted command line.
use linux_process_analyzer.Prelude.{
  ℕ, ◌≤◌, ◌<◌, ◌^◌, ◌≡◌, refl, Bool, true, false, ◌||◌, Option, none, some, List, [], ◌∷◌, inl, inr,
  Option-cases, Bool-cases, arith,
}
use linux_process_analyzer.Prelude.Cstr.{Bytes}
use linux_process_analyzer.Args.{
  ParseArgsStatus, parse_args_error, parse_args_ok, MetricsArguments, PidWhitelist, ApArguments,
  empty_whitelist,
}
use linux_process_analyzer.Args.Numbers.{
  int_max, parse_integer_arg, parse_number_of_snapshots, parse_duration_ms,
}
use linux_process_analyzer.Args.Numbers.Bounds.{
  parse_integer_arg_bounds, parse_number_of_snapshots_bounds, parse_duration_ms-lt,
}
use linux_process_analyzer.Args.Whitelist.{
  filter_parse_pid, filter_parse_comm, parse_filter_pid_list,
}
use linux_process_analyzer.Args.Whitelist.Distinct.{
  IsWellFormed, parse_filter_pid_list-IsWellFormed,
}
use linux_process_analyzer.Args.Options.{
  ParseState, Round, goes_on, returns, Metric, cpu_average, set_metric, take_interval, take_count,
  take_metric, take_filter, metric_of, take_metric_or_flag, proceed, step, parse_options, conclude,
  Parsed, ap_parse_args,
}

-- A display count is set whenever its metric is requested.
abbrev Displays : Bool → ℕ → Type 0
Displays requested n = requested ≡ true → (0 < n) × (n ≤ int_max)

pub record AreDisplayable (m : MetricsArguments) : Type 0 where
  pub cpu_average : Displays m.cpu_average_requested m.cpu_average_pids_to_display
  pub rss_average : Displays m.rss_average_requested m.rss_average_pids_to_display
  pub rss_increase : Displays m.rss_increase_requested m.rss_increase_pids_to_display
  pub rss_delta : Displays m.rss_delta_requested m.rss_delta_pids_to_display
  pub bytes_read : Displays m.bytes_read_requested m.bytes_read_pids_to_display
  pub bytes_write : Displays m.bytes_write_requested m.bytes_write_pids_to_display
  pub read_rate : Displays m.read_rate_requested m.read_rate_pids_to_display
  pub write_rate : Displays m.write_rate_requested m.write_rate_pids_to_display
  pub fds_increase : Displays m.fds_increase_requested m.fds_increase_pids_to_display
  pub opened_fds : Displays m.opened_fds_requested m.opened_fds_pids_to_display
  pub fds_delta : Displays m.fds_delta_requested m.fds_delta_pids_to_display

pub record IsReady (s : ParseState) : Type 0 where
  pub interval : s.interval_provided ≡ true → s.cfg.interval_ms < 2 ^ 64
  pub snapshots : s.count_provided ≡ true → (0 < s.cfg.count) × (s.cfg.count ≤ int_max)
  pub metrics : AreDisplayable s.cfg.end_metrics_args
  pub filters : IsWellFormed s.cfg.pid_whitelist

abbrev Inv : Round → Type 0
Inv (goes_on s) = IsReady s
Inv (returns cfg) = cfg.pid_whitelist ≡ empty_whitelist

set_metric-AreDisplayable :
    (x : Metric) (m : MetricsArguments) (n : ℕ)
    → 0 < n
    → n ≤ int_max
    → AreDisplayable m
    → AreDisplayable (set_metric x m n)
unfolding set_metric
set_metric-AreDisplayable cpu_average m n h k d = ground arith
set_metric-AreDisplayable x m n h k d = ground arith

take_metric-Inv :
    (x : Metric) (s : ParseState) (arg : Bytes)
    → IsReady s
    → Inv (take_metric x s (parse_integer_arg arg))
unfolding take_metric
take_metric-Inv x s arg r = elim (Option-cases (parse_integer_arg arg)) [
  | inl refused ↦ rw refused refl
  | inr (n, accepted) ↦
      let (lo, hi) = parse_integer_arg_bounds arg n accepted in
      rw accepted (record {
        interval = r.interval;
        snapshots = r.snapshots;
        metrics = set_metric-AreDisplayable x s.cfg.end_metrics_args n lo hi r.metrics;
        filters = r.filters;
      })
]

take_interval-Inv :
    (s : ParseState) (arg : Bytes) → IsReady s → Inv (take_interval s (parse_duration_ms arg))
unfolding take_interval
take_interval-Inv s arg r = elim (Option-cases (parse_duration_ms arg)) [
  | inl refused ↦ rw refused refl
  | inr (n, accepted) ↦ rw accepted (record {
    interval = λ _. parse_duration_ms-lt arg n accepted;
    snapshots = r.snapshots;
    metrics = r.metrics;
    filters = r.filters;
  })
]

take_count-Inv :
    (s : ParseState) (arg : Bytes) → IsReady s → Inv (take_count s (parse_number_of_snapshots arg))
unfolding take_count
take_count-Inv s arg r = elim (Option-cases (parse_number_of_snapshots arg)) [
  | inl refused ↦ rw refused refl
  | inr (n, accepted) ↦ rw accepted (record {
    interval = r.interval;
    snapshots = λ _. parse_number_of_snapshots_bounds arg n accepted;
    metrics = r.metrics;
    filters = r.filters;
  })
]

take_filter-Inv :
    (s : ParseState) (o : ParseArgsStatus × PidWhitelist)
    → IsReady s
    → IsWellFormed o.1
    → Inv (take_filter s o)
unfolding take_filter
take_filter-Inv s (parse_args_error, w) r v = refl
take_filter-Inv s (parse_args_ok, w) r v = record {
  interval = r.interval;
  snapshots = r.snapshots;
  metrics = r.metrics;
  filters = v;
}

take_metric_or_flag-Inv :
    (s : ParseState) (opt : ℕ) (arg : Bytes) (x : Option Metric)
    → IsReady s
    → Inv (take_metric_or_flag s opt arg x)
take_metric_or_flag-Inv s opt arg (some x) r =
    unfold take_metric_or_flag in take_metric-Inv x s arg r
take_metric_or_flag-Inv s opt arg none r = unfold take_metric_or_flag in ground arith

module _ (alloc : ℕ → Bool) where
  step-Inv : (s : ParseState) (opt : ℕ) (arg : Bytes) → IsReady s → Inv (step alloc s opt arg)
  unfolding step
  step-Inv s opt arg r = ground (
    arith,
    take_interval-Inv s arg r,
    take_count-Inv s arg r,
    take_filter-Inv s (parse_filter_pid_list alloc filter_parse_pid arg s.cfg.pid_whitelist) r
        (parse_filter_pid_list-IsWellFormed alloc filter_parse_pid arg _ r.filters),
    take_filter-Inv s (parse_filter_pid_list alloc filter_parse_comm arg s.cfg.pid_whitelist) r
        (parse_filter_pid_list-IsWellFormed alloc filter_parse_comm arg _ r.filters),
    take_metric_or_flag-Inv s opt arg (metric_of opt) r,
  )

  proceed-Inv :
      (r : Round) (k : ParseState → Round)
      → Inv r
      → ((s : ParseState) → IsReady s → Inv (k s))
      → Inv (proceed r k)
  proceed-Inv (returns cfg) k h g = h
  proceed-Inv (goes_on s) k h g = g s h

  parse_options-Inv :
      (options : List (ℕ × Bytes)) (s : ParseState)
      → IsReady s
      → Inv (parse_options alloc s options)
  unfolding parse_options
  parse_options-Inv [] s r = r
  parse_options-Inv ((opt, arg) ∷ options) s r =
      proceed-Inv (step alloc s opt arg) _ (step-Inv s opt arg r) (parse_options-Inv options)

pub record IsAccepted (cfg : ApArguments) : Type 0 where
  pub interval : cfg.interval_ms < 2 ^ 64
  pub snapshots : (0 < cfg.count) × (cfg.count ≤ int_max)
  pub metrics : AreDisplayable cfg.end_metrics_args
  pub filters : IsWellFormed cfg.pid_whitelist

abbrev pub Outcome : Parsed → Type 0
Outcome p =
    (p.status ≡ parse_args_ok → IsAccepted p.cfg)
    × (p.status ≡ parse_args_error
        → (p.cfg.pid_whitelist ≡ empty_whitelist) × (p.stats_initialized ≡ false))

conclude-Outcome : (metrics_output : Bool) (r : Round) → Inv r → Outcome (conclude metrics_output r)
unfolding conclude
conclude-Outcome metrics_output (returns cfg) h = (λ e. cc, λ e. (h, refl))
conclude-Outcome metrics_output (goes_on s) r = elim (Bool-cases s.count_provided) [
  | inr no_count ↦ rw no_count ((λ e. cc, λ e. (refl, refl)))
  | inl with_count ↦ elim (Bool-cases s.interval_provided) [
    | inr no_interval ↦ rw (with_count, no_interval) ((λ e. cc, λ e. (refl, refl)))
    | inl with_interval ↦
        rw (with_count, with_interval)
          ((
            λ e. record {
              interval = r.interval with_interval;
              snapshots = r.snapshots with_count;
              metrics = r.metrics;
              filters = r.filters;
            },
            λ e. cc,
          ))
  ]
]

empty-IsWellFormed : IsWellFormed empty_whitelist
empty-IsWellFormed = record {
  pids_fit = omega arith;
  comms_fit = omega arith;
  pids_distinct = tt;
  comms_distinct = tt;
  pids_positive = tt;
}

-- From a configuration whose requested metrics have positive display counts, whatever the options:
-- when the command line is accepted, the interval fits 64 bits, the snapshot count and the display
-- count of each requested metric lie between 1 and INT_MAX, and the filters are well-formed; when
-- it is not, the filters are freed and process_stats is not initialized.
pub ap_parse_args-Outcome :
    (alloc : ℕ → Bool) (console json : Bool) (options : List (ℕ × Bytes)) (cfg : ApArguments)
    → AreDisplayable cfg.end_metrics_args
    → Outcome (ap_parse_args alloc console json options cfg)
unfolding ap_parse_args
ap_parse_args-Outcome alloc console json options cfg d = conclude-Outcome (console || json) _ (
    parse_options-Inv alloc options _ (record {
      interval = λ e. cc;
      snapshots = λ e. cc;
      metrics = d;
      filters = empty-IsWellFormed;
    }))
