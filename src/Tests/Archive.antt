-- ===== src/Tests/Archive.antt =====
-- The rotation with compression of code/process_snapshot and code/compression at concrete inputs.
use linux_process_analyzer.Prelude.{
  ℕ, ◌+◌, ◌^◌, ◌%◌, ◌≤◌, ◌<◌, ◌≡◌, ◌≢◌, refl, Bool, true, false, none, some, [], ◌∷◌, ◌++◌, arith,
  if◌then◌else◌,
}
use linux_process_analyzer.Prelude.Cstr.{Bytes, codes, str_eq}
use linux_process_analyzer.Prelude.Strto.{decimal, digits_onto}
use linux_process_analyzer.Tests.Models.{zlib, unzip}
use linux_process_analyzer.Snapshot.Files.{Files}
use linux_process_analyzer.Snapshot.Rotate.{
  Settings, Output, numbered, numbered_gz, unique_name, rotate_logs,
}
use linux_process_analyzer.Snapshot.Rotate.ShiftGz.{rotate_logs_shift_gz}
use linux_process_analyzer.Prelude.Int.{pos}
use linux_process_analyzer.Compression.{Gzip, process_job}
use linux_process_analyzer.Compression.Pending.{output_path, rotations, rotations-pending}
use linux_process_analyzer.Compression.Archive.{archive, rotate_then_compress-archive}
use linux_process_analyzer.Compression.Kept.{Outcome, process_job-Outcome}

abbrev no_faults : Bytes → Bytes → Bool
no_faults old new = false

abbrev log : Bytes
log = codes "/tmp/ptime/ptime.log"

-- The log, a compressed file and a plain one.
abbrev before : Output
before = record {
  files = λ p.
      if str_eq p log
      then some (codes "new")
      else if str_eq p (codes "/tmp/ptime/ptime.log.1.gz")
      then some (codes "zold")
      else if str_eq p (codes "/tmp/ptime/ptime.log.2")
      then some (codes "plain")
      else none;
  rotation_counter = 7;
  enqueued = [];
}

abbrev unique : Bytes
unique = unique_name log 1700000000 before.rotation_counter

unique-free : before.files unique ≡ none
unfolding unique_name decimal digits_onto str_eq
unique-free = refl

log-present : before.files log ≡ some (codes "new")
unfolding str_eq
log-present = refl

rotate_logs_shift_gz_example :
    (let after = rotate_logs no_faults true 3 1700000000 log before in
      ((i : ℕ)
        → 1 ≤ i
        → i < 3
        → after.files (numbered_gz log (i + 1)) ≡ before.files (numbered_gz log i))
      × (after.files (numbered_gz log 1) ≡ none)
      × (after.files unique ≡ before.files log)
      × (after.files log ≡ none)
      × (after.enqueued ≡ before.enqueued ++ unique ∷ [])
      × (after.rotation_counter ≡ (before.rotation_counter + 1) % 2 ^ 32)
      × ((q : Bytes)
          → q ≢ log
          → q ≢ unique
          → ((i : ℕ) → 1 ≤ i → i ≤ 3 → q ≢ numbered_gz log i)
          → ((i : ℕ) → 1 ≤ i → i ≤ 3 → q ≢ numbered log i)
          → after.files q ≡ before.files q))
rotate_logs_shift_gz_example =
    rotate_logs_shift_gz no_faults (λ a b. refl) log (omega arith) 3 1700000000 before (omega arith)
      (omega arith) (omega arith) (omega arith) unique-free

rotate_then_compress-archive_example :
    (let rotated = rotate_logs no_faults true (2 + 1) 1700000000 log before in
      let after = process_job zlib no_faults unique rotated.files in
      (rotated.enqueued ≡ before.enqueued ++ unique ∷ [])
      × (archive log 1 3 after ≡ some (codes "znew") ∷ archive log 1 2 before.files)
      × (after log ≡ none)
      × (after unique ≡ none)
      × (after (unique ++ codes ".gz") ≡ none))
rotate_then_compress-archive_example =
    rotate_then_compress-archive log (omega arith) zlib no_faults (λ a b. refl) 2 1700000000 before
      (codes "new") (omega arith) (omega arith) (omega arith) unique-free log-present
      (record { source = refl; target = refl; writes = refl }) refl

-- Nothing fails but unlink.
abbrev no_unlink : Gzip
no_unlink = record zlib { unlinks = λ path. false }

abbrev waiting : Files
waiting p = if str_eq p unique then some (codes "lines") else none

process_job-Outcome_example :
    Outcome no_unlink no_faults unzip
      (λ read closed. refl)
      unique
      waiting
      (process_job no_unlink no_faults unique waiting)
process_job-Outcome_example =
    process_job-Outcome no_unlink no_faults unzip (λ read closed. refl) unique waiting

abbrev settings : Settings
settings = record {
  raw_log_enabled = true;
  raw_jsonl_enabled = true;
  compression_enabled = true;
  max_file_size_bytes = pos 3;
  max_number_of_files = 3;
  output_dir = codes "/tmp/ptime";
  faults = no_faults;
  opens = λ path. true;
}

rotations-pending_example :
    (rotations settings
        ((true, 1700000000) ∷ (false, 1700000000) ∷ (true, 1700000001) ∷ [])
        before).files
      (unique_name (output_path settings true) 1700000000 6)
    ≡ before.files (unique_name (output_path settings true) 1700000000 6)
rotations-pending_example =
    rotations-pending settings (omega arith) (omega arith)
      ((true, 1700000000) ∷ (false, 1700000000) ∷ (true, 1700000001) ∷ []) true 1700000000 6 before
      (omega arith, (omega arith, (omega arith, tt))) (omega arith) (omega arith) (omega arith)
