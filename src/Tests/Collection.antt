-- ===== src/Tests/Collection.antt =====
-- A snapshot of code/process_snapshot at a concrete /proc.
use linux_process_analyzer.Prelude.{
  ◌≡◌, Bool, true, false, none, some, List, [], ◌∷◌, ◌==◌, ℕ, if◌then◌else◌,
}
use linux_process_analyzer.Prelude.Int.{ℤ, pos}
use linux_process_analyzer.Prelude.Cstr.{Bytes, codes}
use linux_process_analyzer.Args.{empty_whitelist}
use linux_process_analyzer.Stats.{ProcessState}
use linux_process_analyzer.Stats.Update.History.{run}
use linux_process_analyzer.Snapshot.Proc.{ProcessDir}
use linux_process_analyzer.Snapshot.Collect.{Surroundings, Collected, collect_entries}
use linux_process_analyzer.Snapshot.Collect.Selected.{
  events, inputs, lines_written, collect_entries-inputs,
}
use linux_process_analyzer.Tests.Models.{whole_numbers, list_table}
use linux_process_analyzer.Tests.Statistics.{started}

-- Process 7 can be read, the others have no files.
abbrev pub seven : ProcessDir
seven = record {
  stat =
      some (codes "7 (cat) S 1 7 7 0 -1 4194304 100 0 0 0 15 5 0 0 20 0 1 0 900 1000000 250 18\n");
  io = some (codes "rchar: 1\nread_bytes: 4096\nwrite_bytes: 2048\n");
  fd = some (codes "0" ∷ codes "1" ∷ codes ".." ∷ []);
}

abbrev pub gone : ProcessDir
gone = record { stat = none; io = none; fd = none }

abbrev pub proc : ℕ → ProcessDir
proc p = if p == 7 then seven else gone

abbrev pub surroundings : Surroundings ℤ
surroundings = record {
  page_size_kb = 4;
  timestamp = pos 1000;
  h_r_timestamp = codes "2026-01-01 10:00:00.000";
  include_self = false;
  raw_console_enabled = false;
  self = 9;
  proc = proc;
  alloc = true;
}

abbrev pub entries : List (Bool × Bytes)
entries =
    (true, codes "self")
    ∷ (true, codes "7")
    ∷ (true, codes "8")
    ∷ (true, codes "9")
    ∷ (false, codes "10")
    ∷ []

abbrev pub at_start : Collected ℤ (List (ProcessState ℤ))
at_start = record { stats = started; console = []; log = none; jsonl = some [] }

collect_entries-inputs_example :
    ((collect_entries whole_numbers list_table surroundings empty_whitelist entries at_start).stats
      ≡ run whole_numbers list_table
          (events whole_numbers list_table surroundings empty_whitelist
            (inputs surroundings empty_whitelist entries))
          started)
    × ((collect_entries whole_numbers list_table surroundings empty_whitelist entries
          at_start).jsonl
        ≡ lines_written whole_numbers list_table surroundings empty_whitelist
            (inputs surroundings empty_whitelist entries)
            (some []))
collect_entries-inputs_example =
    collect_entries-inputs whole_numbers list_table surroundings empty_whitelist entries at_start
