-- ===== src/Snapshot/Lifecycle/Held.antt =====
-- What is held after the start and after the end of code/process_snapshot/process_snapshot.c.
use linux_process_analyzer.Prelude.{◌≡◌, Bool, true, false, ◌||◌, ◌&&◌, not, if◌then◌else◌, arith}
use linux_process_analyzer.Snapshot.Lifecycle.{
  process_snapshot_success, Handles, Opens, acquire_lock, open_log, open_jsonl, after_lock,
  process_snapshot_initialize, process_snapshot_deinit,
}

abbrev pub all_closed : Handles
all_closed = record { lock = false; dir = false; log = false; jsonl = false }

-- The output whose opening decides on the status: the jsonl file if it is enabled, else the log.
abbrev pub last_output : Opens → Bool
last_output o = if o.raw_jsonl_enabled then o.fopen_jsonl else o.fopen_log

-- From closed handles: the start succeeds exactly when /proc opens and, if some raw file is
-- enabled, the lock is taken and the last enabled file opens. Then /proc is open, the lock is held
-- if some file is enabled, and each enabled file is open that fopen opened; the log may be missing
-- although the start succeeded. The end closes all that the start opened.
pub process_snapshot_initialize-Handles :
    (o : Opens)
    → (let result = process_snapshot_initialize o all_closed in
        let some_file = o.raw_log_enabled || o.raw_jsonl_enabled in
        (result.0 ≡ process_snapshot_success
          → (o.opendir_proc ≡ true)
            × ((not some_file || (o.open_lock && o.flock && last_output o)) ≡ true)
            × (result.1.dir ≡ true)
            × (result.1.lock ≡ some_file)
            × (result.1.log ≡ (o.raw_log_enabled && o.fopen_log))
            × (result.1.jsonl ≡ o.raw_jsonl_enabled))
        × ((o.opendir_proc ≡ true)
            → ((not some_file || (o.open_lock && o.flock && last_output o)) ≡ true)
            → result.0 ≡ process_snapshot_success)
        × (process_snapshot_deinit result.1 ≡ all_closed))
unfolding process_snapshot_initialize acquire_lock after_lock open_log open_jsonl
    process_snapshot_deinit
process_snapshot_initialize-Handles o = ground arith
