-- ===== src/Tests/Metrics.antt =====
-- The metric blocks of code/process_stats at concrete inputs.
use linux_process_analyzer.Prelude.{arith, ℕ, ◌≡◌, refl, none, true, false, List, [], ◌∷◌, All}
use linux_process_analyzer.Prelude.Int.{ℤ, pos, negsuc, ◌+ℤ◌}
use linux_process_analyzer.Prelude.Cstr.{codes}
use linux_process_analyzer.Prelude.Strto.{decimal, digits_onto}
use linux_process_analyzer.Prelude.Calendar.{timegm}
use linux_process_analyzer.Stats.Metrics.{parse_timestamp_to_double}
use linux_process_analyzer.Snapshot.Clock.{print_timestamp, date_text, zero_padded, zeros}
use linux_process_analyzer.Snapshot.Clock.ReadBack.{civil}
use linux_process_analyzer.Snapshot.Clock.Strptime.{parse_timestamp_to_double-print_timestamp}
use linux_process_analyzer.Args.{MetricsArguments, zero_metrics}
use linux_process_analyzer.Stats.{ProcessState, Stats}
use linux_process_analyzer.Stats.Sample.{sample, fresh}
use linux_process_analyzer.Stats.Order.Sorted.{ltb_ℤ-IsWeak}
use linux_process_analyzer.Stats.Report.{
  Environment, process_stats_print_metrics, no_report, null_file, reported,
}
use linux_process_analyzer.Stats.Report.Outcome.{
  console_text, metrics_text, process_stats_print_metrics-outcome,
}
use linux_process_analyzer.Stats.Report.Blocks.{blocks}
use linux_process_analyzer.Stats.Report.Top.{IsTop, blocks-IsTop}
use linux_process_analyzer.Tests.Models.{whole_numbers, list_table, sort, sort-IsQsort}
use linux_process_analyzer.Tests.Statistics.{input, started}

abbrev requests : MetricsArguments
requests = record zero_metrics {
  rss_average_requested = true;
  rss_average_pids_to_display = 2;
  bytes_read_requested = true;
  bytes_read_pids_to_display = 1;
}

abbrev process : ℕ → ℤ → ProcessState ℤ
process p rss =
    sample whole_numbers (pos 100) (pos 2) (input p 1 rss 40 5)
      (fresh whole_numbers (input p 1 rss 40 5))

abbrev processes : List (ProcessState ℤ)
processes = process 7 (pos 300) ∷ process 8 (pos 500) ∷ process 9 (pos 400) ∷ []

blocks-IsTop_example : All (IsTop whole_numbers sort processes) (blocks whole_numbers requests)
blocks-IsTop_example = blocks-IsTop whole_numbers sort sort-IsQsort processes requests ltb_ℤ-IsWeak

abbrev environment : Environment ℤ
environment = record {
  qsort = sort;
  hostname = none;
  array_allocated = true;
  path_allocated = true;
  file_opens = true;
}

abbrev sampled : Stats ℤ (List (ProcessState ℤ))
sampled = record started { table = processes }

process_stats_print_metrics-outcome_example :
    (let report =
        process_stats_print_metrics whole_numbers list_table environment true true requests 1000
          sampled in
      (false ≡ true → report ≡ no_report)
      × (false ≡ false → true ≡ false → report ≡ null_file)
      × (false ≡ false
          → true ≡ true
          → (after : Stats ℤ (List (ProcessState ℤ))) × (report
              ≡ reported
                  (console_text whole_numbers list_table environment true requests 1000 sampled)
                  (metrics_text whole_numbers list_table environment true requests 1000 sampled)
                  after)
            × (after.json_output ≡ none)))
process_stats_print_metrics-outcome_example =
    process_stats_print_metrics-outcome whole_numbers list_table environment true requests 1000
      sampled true refl

timegm-leap_day : timegm 2024 2 29 12 0 0 ≡ pos 1709208000
unfolding timegm
timegm-leap_day = refl

timegm-before-epoch : timegm 1969 12 31 23 59 59 ≡ negsuc 0
unfolding timegm
timegm-before-epoch = refl

print_timestamp-leap_day :
    print_timestamp (civil 124 1 29 12 0 5) 123456789 ≡ codes "2024-02-29 12:00:05.123"
unfolding print_timestamp date_text zero_padded zeros decimal digits_onto ◌+ℤ◌
print_timestamp-leap_day = refl

parse_timestamp_to_double-print_timestamp_example :
    parse_timestamp_to_double whole_numbers (print_timestamp (civil 124 1 29 12 0 5) 123456789)
    ≡ whole_numbers.add
        (whole_numbers.of_ℤ (timegm 2024 2 29 12 0 5))
        (whole_numbers.div (whole_numbers.of_ℤ (pos 123)) (whole_numbers.of_ℕ 1000))
parse_timestamp_to_double-print_timestamp_example =
    parse_timestamp_to_double-print_timestamp whole_numbers 124 1 29 12 0 5 123456789 (omega arith)
      (omega arith) (omega arith) (omega arith) (omega arith) (omega arith) (omega arith)
      (omega arith)
