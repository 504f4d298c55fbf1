-- ===== src/Tests/Statistics.antt =====
-- The samples of code/process_stats at concrete inputs.
use linux_process_analyzer.Prelude.{
  ℕ, ◌-◌, ◌≤◌, ◌+◌, ◌≡◌, refl, Bool, true, false, none, List, [], ◌∷◌, arith,
}
use linux_process_analyzer.Prelude.Int.{ℤ, pos, ◌-ℤ◌}
use linux_process_analyzer.Prelude.Cstr.{codes}
use linux_process_analyzer.Args.{zero_metrics}
use linux_process_analyzer.Stats.{ProcessStateInput, ProcessState, Stats}
use linux_process_analyzer.Stats.Sample.{samples, fresh, wrap64}
use linux_process_analyzer.Stats.Sample.Cpu.{counters-samples-fresh}
use linux_process_analyzer.Stats.Sample.Fds.{fd_growth, fds-samples}
use linux_process_analyzer.Stats.Sample.Rss.{sum_ℤ, growth, rss-samples}
use linux_process_analyzer.Stats.Sample.Gaps.{Growing, gaps, disk-samples-fresh}
use linux_process_analyzer.Stats.Update.History.{history, run, find-run}
use linux_process_analyzer.Stats.Report.{with_averages}
use linux_process_analyzer.Stats.Report.Average.{Between, rss_average_bounds}
use linux_process_analyzer.Tests.Models.{whole_numbers, list_table, list_table-IsTable}

abbrev pub input : ℕ → ℕ → ℤ → ℕ → ℕ → ProcessStateInput ℤ
input process ticks rss kbytes fds = record {
  pid = process;
  comm = codes "cat";
  state = b'R';
  ppid = 1;
  utime = ticks;
  stime = ticks;
  rss_kb = rss;
  timestamp = pos (1000 + ticks);
  h_r_timestamp = codes "2026-01-01 10:00:00.000";
  threads = 1;
  read_kbytes = kbytes;
  write_kbytes = kbytes;
  is_rss_valid = true;
  is_io_valid = true;
  number_of_fds = fds;
  is_fd_valid = true;
}

abbrev first : ProcessStateInput ℤ
first = input 7 1 (pos 100) 40 5

abbrev later : List (ProcessStateInput ℤ)
later = input 7 2 (pos 300) 50 4 ∷ input 7 5 (pos 170) 90 9 ∷ []

abbrev states : ProcessState ℤ
states = samples whole_numbers (pos 100) (pos 2) (first ∷ later) (fresh whole_numbers first)

abbrev pub started : Stats ℤ (List (ProcessState ℤ))
started = record {
  table = [];
  is_module_initialized = true;
  prog_name = none;
  json_output = none;
  number_of_snapshots = 0;
  initial_timestamp = [];
  last_timestamp = [];
  is_first_json_metric = true;
  clock_ticks_per_second = pos 100;
  online_cpu_count = pos 2;
}

abbrev events : List (Bool × ProcessStateInput ℤ)
events =
    (true, first)
    ∷ (true, input 8 1 (pos 20) 0 3)
    ∷ (false, input 9 1 (pos 20) 0 3)
    ∷ (true, input 7 2 (pos 300) 50 4)
    ∷ []

find-run_example :
    list_table.find (run whole_numbers list_table events started).table 7
    ≡ history whole_numbers (pos 100) (pos 2) 7 events none
find-run_example = find-run whole_numbers list_table list_table-IsTable events started 7 refl

rss-samples_example :
    (states.rss_sum ≡ sum_ℤ (pos 100 ∷ pos 300 ∷ pos 170 ∷ []))
    × (states.num_of_rss_records ≡ wrap64 3)
    × (states.rss_variation_since_startup ≡ growth (pos 100 ∷ pos 300 ∷ pos 170 ∷ []))
rss-samples_example = rss-samples whole_numbers (pos 100) (pos 2) first (first ∷ later)

fds-samples_example :
    (states.current_num_of_fds ≡ 9) × (states.fd_delta ≡ fd_growth (5 ∷ 4 ∷ 9 ∷ []))
fds-samples_example =
    fds-samples whole_numbers (pos 100) (pos 2) first (first ∷ later)
      (omega arith, (omega arith, (omega arith, tt)))

counters-samples-fresh_example : (states.number_of_records ≡ 3) × (states.cpu_usage_samples ≤ 3 - 1)
counters-samples-fresh_example =
    counters-samples-fresh whole_numbers (pos 100) (pos 2) first (first ∷ later) (omega arith)

rss_average_bounds_example :
    Between 100 300
      (with_averages whole_numbers
        (record zero_metrics { rss_average_requested = true })
        states).rss_average_kb
rss_average_bounds_example =
    rss_average_bounds whole_numbers (pos 100) (pos 2)
      (record zero_metrics { rss_average_requested = true }) first (first ∷ later) 100 300 refl
      ((omega arith, omega arith), ((omega arith, omega arith), ((omega arith, omega arith), tt)))
      (omega arith) (omega arith) (omega arith)

-- A sample without disk data between two with them.
abbrev missing : List (ProcessStateInput ℤ)
missing = record (input 7 3 (pos 100) 0 5) { is_io_valid = false } ∷ input 7 9 (pos 100) 90 5 ∷ []

missing-Growing : Growing whole_numbers first.timestamp first.read_kbytes first.write_kbytes missing
unfolding ◌-ℤ◌
missing-Growing = (λ e. cc, omega arith, omega arith, (λ e. refl, omega arith, omega arith, tt))

disk-samples-fresh_example :
    (let ps =
        samples whole_numbers (pos 100) (pos 2) (first ∷ missing) (fresh whole_numbers first) in
      (wrap64 ps.total_read_kbytes ≡ wrap64 (90 - 40))
      × (wrap64 ps.total_write_kbytes ≡ wrap64 (90 - 40))
      × (ps.io_time_acc ≡ gaps whole_numbers first.timestamp (pos 0) missing))
disk-samples-fresh_example =
    disk-samples-fresh whole_numbers (pos 100) (pos 2) first missing refl missing-Growing
