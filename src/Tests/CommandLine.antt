-- ===== src/Tests/CommandLine.antt =====
-- The command line of code/args_parser at concrete inputs.
use linux_process_analyzer.Prelude.{
  ℕ, ◌*◌, ◌^◌, ◌%◌, ◌≡◌, refl, Bool, true, false, ◌||◌, none, some, List, [], ◌∷◌, ◌++◌, ◌==◌, ltb,
  leb, arith, if◌then◌else◌,
}
use linux_process_analyzer.Prelude.Cstr.{
  Bytes, codes, skip_space, is_digit, is_space, trim_end, str_eq,
}
use linux_process_analyzer.Prelude.Strto.{
  decimal, after_sign, digit_prefix, minus_sign, strtol, value_of, digit_rest, saturate_long,
}
use linux_process_analyzer.Args.{
  parse_args_ok, parse_args_error, PidWhitelist, empty_whitelist, zero_arguments,
}
use linux_process_analyzer.Args.Numbers.{
  int_max, parse_integer_arg, parse_number_of_snapshots, parse_duration_ms, parse_pid_token,
}
use linux_process_analyzer.Args.Numbers.Tokens.{parse_pid_token-eq-pid_of, pid_of}
use linux_process_analyzer.Args.Numbers.RoundTrip.{
  parse_integer_arg-decimal, parse_duration_ms-decimal, seconds, suffix, factor,
}
use linux_process_analyzer.Args.Whitelist.{
  filter_parse_pid, parse_filter_pid_list, segment, append_filter_pid, append_token, segment_end,
  token_of, parse_segments, append_filter_comm, has_comm, has_pid,
}
use linux_process_analyzer.Args.Whitelist.Split.{
  tokens, append_tokens, parse_filter_pid_list-eq-append_tokens,
}
use linux_process_analyzer.Args.Whitelist.Distinct.{
  IsWellFormed, parse_filter_pid_list-IsWellFormed,
}
use linux_process_analyzer.Args.Whitelist.Members.{Added, parse_filter_pid_list-Added}
use linux_process_analyzer.Args.Options.{
  ap_parse_args, conclude, parse_options, step, ap_free_arguments, metric_of, set_metric,
}
use linux_process_analyzer.Args.Options.Accepted.{AreDisplayable, Outcome, ap_parse_args-Outcome}
use linux_process_analyzer.Args.Options.LastWins.{Last, ap_parse_args-Last}

abbrev pub plenty : ℕ → Bool
plenty bytes = true

abbrev pub pid_list : Bytes
pid_list = codes "12, 7 ,12"

abbrev pub two_pids : PidWhitelist
two_pids = record empty_whitelist { filter_pids = 12 ∷ 7 ∷ []; filter_pids_capacity = 8 }

pub pid_list_accepted :
    parse_filter_pid_list plenty filter_parse_pid pid_list empty_whitelist
    ≡ (parse_args_ok, two_pids)
unfolding parse_filter_pid_list skip_space token_of segment append_token parse_pid_token
    append_filter_pid segment_end
pid_list_accepted = refl

parse_filter_pid_list-eq-append_tokens_example :
    parse_filter_pid_list plenty filter_parse_pid pid_list empty_whitelist
    ≡ append_tokens plenty filter_parse_pid empty_whitelist (tokens pid_list)
parse_filter_pid_list-eq-append_tokens_example =
    parse_filter_pid_list-eq-append_tokens plenty filter_parse_pid pid_list empty_whitelist

empty_whitelist-IsWellFormed : IsWellFormed empty_whitelist
empty_whitelist-IsWellFormed = record {
  pids_fit = omega arith;
  comms_fit = omega arith;
  pids_distinct = tt;
  comms_distinct = tt;
  pids_positive = tt;
}

parse_filter_pid_list-IsWellFormed_example :
    IsWellFormed (parse_filter_pid_list plenty filter_parse_pid pid_list empty_whitelist).1
parse_filter_pid_list-IsWellFormed_example =
    parse_filter_pid_list-IsWellFormed plenty filter_parse_pid pid_list empty_whitelist
      empty_whitelist-IsWellFormed

parse_filter_pid_list-Added_example :
    Added filter_parse_pid (tokens pid_list) empty_whitelist two_pids
parse_filter_pid_list-Added_example =
    parse_filter_pid_list-Added plenty filter_parse_pid pid_list empty_whitelist two_pids
      pid_list_accepted

parse_pid_token-eq-pid_of_example : parse_pid_token (codes "4242") ≡ pid_of (codes "4242")
parse_pid_token-eq-pid_of_example = parse_pid_token-eq-pid_of (codes "4242")

parse_integer_arg-decimal_example :
    parse_integer_arg (decimal 25) ≡ (if 25 == 0 || ltb int_max 25 then none else some 25)
parse_integer_arg-decimal_example = parse_integer_arg-decimal 25

-- The smallest number of seconds whose milliseconds are 0 modulo 2^64 and that long holds.
parse_duration_ms-decimal_example :
    parse_duration_ms (decimal 2305843009213693952 ++ suffix seconds) ≡ (
      if 2305843009213693952 == 0 || leb (2 ^ 63) 2305843009213693952
      then none
      else some (2305843009213693952 * factor seconds % 2 ^ 64))
parse_duration_ms-decimal_example = parse_duration_ms-decimal 2305843009213693952 seconds

abbrev options : List (ℕ × Bytes)
options =
    (b'n', codes "3")
    ∷ (b'i', codes "250ms")
    ∷ (b'c', codes "5")
    ∷ (b'l', codes "bash")
    ∷ (b'n', codes "10")
    ∷ []

zero_arguments-AreDisplayable : AreDisplayable zero_arguments.end_metrics_args
zero_arguments-AreDisplayable = record {
  cpu_average = λ h. cc;
  rss_average = λ h. cc;
  rss_increase = λ h. cc;
  rss_delta = λ h. cc;
  bytes_read = λ h. cc;
  bytes_write = λ h. cc;
  read_rate = λ h. cc;
  write_rate = λ h. cc;
  fds_increase = λ h. cc;
  opened_fds = λ h. cc;
  fds_delta = λ h. cc;
}

ap_parse_args-Outcome_example : Outcome (ap_parse_args plenty true false options zero_arguments)
ap_parse_args-Outcome_example =
    ap_parse_args-Outcome plenty true false options zero_arguments zero_arguments-AreDisplayable

options_accepted : (ap_parse_args plenty true false options zero_arguments).status ≡ parse_args_ok
unfolding ap_parse_args conclude parse_options step ap_free_arguments metric_of set_metric
    parse_filter_pid_list skip_space token_of segment segment_end parse_segments append_token
    parse_pid_token append_filter_pid append_filter_comm has_comm has_pid parse_number_of_snapshots
    parse_duration_ms parse_integer_arg strtol saturate_long minus_sign after_sign value_of
    digit_prefix digit_rest is_digit is_space trim_end str_eq
options_accepted = refl

ap_parse_args-Last_example :
    Last parse_number_of_snapshots
      (some (codes "10"))
      (ap_parse_args plenty true false options zero_arguments).cfg.count
    × Last parse_duration_ms
        (some (codes "250ms"))
        (ap_parse_args plenty true false options zero_arguments).cfg.interval_ms
ap_parse_args-Last_example =
    ap_parse_args-Last plenty true false options zero_arguments options_accepted

-- A missing interval is an error, and the filters are freed.
missing_interval :
    (ap_parse_args plenty true false
      ((b'k', codes "5") ∷ (b'n', codes "3") ∷ [])
      zero_arguments).status
    ≡ parse_args_error
unfolding ap_parse_args conclude parse_options step ap_free_arguments metric_of set_metric
    parse_filter_pid_list skip_space token_of segment segment_end parse_segments append_token
    parse_pid_token append_filter_pid append_filter_comm has_comm has_pid parse_number_of_snapshots
    parse_duration_ms parse_integer_arg strtol saturate_long minus_sign after_sign value_of
    digit_prefix digit_rest is_digit is_space trim_end str_eq
missing_interval = refl
