-- ===== src/Tests/Output.antt =====
-- The filters and the rotation of code/process_snapshot at concrete inputs.
use linux_process_analyzer.Prelude.{
  ℕ, ◌+◌, ◌≤◌, ◌<◌, ◌≡◌, ◌≢◌, refl, Bool, true, false, none, some, [], arith, if◌then◌else◌,
}
use linux_process_analyzer.Prelude.Cstr.{Bytes, codes, str_eq}
use linux_process_analyzer.Args.{empty_whitelist}
use linux_process_analyzer.Args.Whitelist.{filter_parse_pid}
use linux_process_analyzer.Args.Whitelist.Split.{tokens}
use linux_process_analyzer.Snapshot.Filter.Matches.{Selects, parse_filter_pid_list-Selects}
use linux_process_analyzer.Snapshot.Rotate.{
  Settings, log_path, jsonl_path, handle_rotations, Output, numbered, numbered_gz, rotate_logs,
}
use linux_process_analyzer.Prelude.Int.{pos, ltb_ℤ}
use linux_process_analyzer.Snapshot.Files.{size_of}
use linux_process_analyzer.Snapshot.Rotate.Bound.{handle_rotations_bounds}
use linux_process_analyzer.Snapshot.Rotate.Shift.{rotate_logs_shift}
use linux_process_analyzer.Tests.CommandLine.{plenty, pid_list, two_pids, pid_list_accepted}

parse_filter_pid_list-Selects_example :
    Selects filter_parse_pid (tokens pid_list) empty_whitelist two_pids
parse_filter_pid_list-Selects_example =
    parse_filter_pid_list-Selects plenty filter_parse_pid pid_list empty_whitelist two_pids
      pid_list_accepted

abbrev log : Bytes
log = codes "/tmp/ptime/ptime.log"

-- The log and two rotated files.
abbrev before : Output
before = record {
  files = λ p.
      if str_eq p log
      then some (codes "new")
      else if str_eq p (codes "/tmp/ptime/ptime.log.1")
      then some (codes "old")
      else if str_eq p (codes "/tmp/ptime/ptime.log.2")
      then some (codes "oldest")
      else none;
  rotation_counter = 0;
  enqueued = [];
}

abbrev no_faults : Bytes → Bytes → Bool
no_faults old new = false

abbrev after : Output
after = rotate_logs no_faults false 2 0 log before

rotate_logs_shift_example :
    ((i : ℕ) → 1 ≤ i → i < 2 → after.files (numbered log (i + 1)) ≡ before.files (numbered log i))
    × (after.files (numbered log 1) ≡ before.files log)
    × (after.files log ≡ none)
    × (after.files (numbered_gz log 2) ≡ none)
    × ((q : Bytes)
        → q ≢ log
        → q ≢ numbered_gz log 2
        → ((i : ℕ) → 1 ≤ i → i ≤ 2 → q ≢ numbered log i)
        → after.files q ≡ before.files q)
    × (after.rotation_counter ≡ before.rotation_counter)
    × (after.enqueued ≡ before.enqueued)
rotate_logs_shift_example =
    rotate_logs_shift no_faults (λ a b. refl) log (omega arith) 2 0 before (omega arith)
      (omega arith)

abbrev settings : Settings
settings = record {
  raw_log_enabled = true;
  raw_jsonl_enabled = true;
  compression_enabled = true;
  max_file_size_bytes = pos 3;
  max_number_of_files = 2;
  output_dir = codes "/tmp/ptime";
  faults = no_faults;
  opens = λ path. true;
}

handle_rotations_bounds_example :
    (let after = (handle_rotations settings 1700000000 (true, true, before)).2 in
      (settings.raw_log_enabled ≡ true
        → ltb_ℤ (size_of (after.files (log_path settings))) settings.max_file_size_bytes ≡ true)
      × (settings.raw_jsonl_enabled ≡ true
          → ltb_ℤ (size_of (after.files (jsonl_path settings))) settings.max_file_size_bytes
            ≡ true))
handle_rotations_bounds_example =
    handle_rotations_bounds settings 1700000000 true true before (λ a b. refl) (omega arith) refl
