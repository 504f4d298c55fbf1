-- ===== src/Tests/Snapshots.antt =====
-- Two snapshots of code/process_snapshot in a directory where the JSON file reaches its limit.
use linux_process_analyzer.Prelude.{
  ◌≡◌, refl, true, false, none, some, List, [], ◌∷◌, ◌++◌, arith, if◌then◌else◌,
}
use linux_process_analyzer.Prelude.Int.{ℤ, pos}
use linux_process_analyzer.Prelude.Cstr.{codes, str_eq}
use linux_process_analyzer.Args.{empty_whitelist}
use linux_process_analyzer.Stats.{ProcessState}
use linux_process_analyzer.Snapshot.Rotate.{Settings, jsonl_path}
use linux_process_analyzer.Snapshot.Rotate.History.{history}
use linux_process_analyzer.Snapshot.Run.{Running, Moment, run_snapshots}
use linux_process_analyzer.Snapshot.Run.Account.{all_lines, all_stats, all_lost}
use linux_process_analyzer.Snapshot.Run.Whole.{run_snapshots-history}
use linux_process_analyzer.Tests.Models.{whole_numbers, list_table}
use linux_process_analyzer.Tests.Statistics.{started}
use linux_process_analyzer.Tests.Collection.{surroundings, entries}

abbrev settings : Settings
settings = record {
  raw_log_enabled = true;
  raw_jsonl_enabled = true;
  compression_enabled = false;
  max_file_size_bytes = pos 3;
  max_number_of_files = 2;
  output_dir = codes "/tmp/ptime";
  faults = λ old new. false;
  opens = λ path. true;
}

abbrev moment : Moment ℤ
moment = record { time = 1700000000; surroundings = surroundings; entries = entries }

abbrev both : List (Moment ℤ)
both = moment ∷ moment ∷ []

-- A JSON file above the limit, and two older ones.
abbrev at_start : Running ℤ (List (ProcessState ℤ))
at_start = record {
  stats = started;
  console = [];
  log_open = true;
  jsonl_open = true;
  output = record {
    files = λ p.
        if str_eq p (codes "/tmp/ptime/ptime.jsonl")
        then some (codes "newest")
        else if str_eq p (codes "/tmp/ptime/ptime.jsonl.1")
        then some (codes "older")
        else if str_eq p (codes "/tmp/ptime/ptime.jsonl.2")
        then some (codes "oldest")
        else none;
    rotation_counter = 0;
    enqueued = [];
  };
}

present : at_start.output.files (jsonl_path settings) ≡ some (codes "newest")
unfolding str_eq
present = refl

run_snapshots-history_example :
    (let after = run_snapshots whole_numbers list_table settings empty_whitelist both at_start in
      (history (jsonl_path settings) 2 at_start.output.files
          ++ all_lines whole_numbers list_table empty_whitelist both
        ≡ all_lost whole_numbers list_table settings empty_whitelist both at_start
          ++ history (jsonl_path settings) 2 after.output.files)
      × (after.stats ≡ all_stats whole_numbers list_table empty_whitelist both at_start.stats)
      × (after.jsonl_open ≡ true))
run_snapshots-history_example =
    run_snapshots-history whole_numbers list_table settings empty_whitelist (omega arith)
      (omega arith) (λ a b. refl) (λ p. refl) refl (omega arith) refl both at_start (codes "newest")
      refl present
