-- ===== src/Tests/Lifecycle.antt =====
-- The start and the clean-up of code/process_snapshot at concrete inputs.
use linux_process_analyzer.Prelude.{
  arith, ◌≡◌, ◌≢◌, refl, Bool, true, false, none, some, List, [], ◌∷◌,
}
use linux_process_analyzer.Prelude.Cstr.{Bytes, codes}
use linux_process_analyzer.Snapshot.Files.{Files}
use linux_process_analyzer.Snapshot.Lifecycle.{
  process_snapshot_success, Opens, process_snapshot_initialize, process_snapshot_deinit,
  delete_entries,
}
use linux_process_analyzer.Snapshot.Lifecycle.Held.{all_closed, process_snapshot_initialize-Handles}
use linux_process_analyzer.Snapshot.Lifecycle.Deleted.{OfOutputs, delete_entries-outputs}

-- The log cannot be opened, and the start succeeds all the same.
abbrev no_log : Opens
no_log = record {
  raw_log_enabled = true;
  raw_jsonl_enabled = true;
  opendir_proc = true;
  open_lock = true;
  flock = true;
  fopen_log = false;
  fopen_jsonl = true;
}

process_snapshot_initialize-Handles_example :
    (let result = process_snapshot_initialize no_log all_closed in
      (result.0 ≡ process_snapshot_success
        → (true ≡ true)
          × (true ≡ true)
          × (result.1.dir ≡ true)
          × (result.1.lock ≡ true)
          × (result.1.log ≡ false)
          × (result.1.jsonl ≡ true))
      × ((true ≡ true) → (true ≡ true) → result.0 ≡ process_snapshot_success)
      × (process_snapshot_deinit result.1 ≡ all_closed))
process_snapshot_initialize-Handles_example = process_snapshot_initialize-Handles no_log

abbrev any : Bytes → Bool
any path = true

abbrev names : List Bytes
names = codes "notes" ∷ codes "ptime.log.1" ∷ []

abbrev files : Files
files p = some []

delete_entries-outputs_example :
    (let result = delete_entries any (codes "/tmp") names files in
      (result.0 ≡ process_snapshot_success)
      × OfOutputs any (codes "/tmp") (λ p. result.1 p ≡ none) names
      × ((q : Bytes) → OfOutputs any (codes "/tmp") (λ p. p ≢ q) names → result.1 q ≡ files q))
delete_entries-outputs_example =
    delete_entries-outputs any (codes "/tmp") names files (omega arith, (omega arith, tt))
      ((λ o. refl), ((λ o. refl), tt))
