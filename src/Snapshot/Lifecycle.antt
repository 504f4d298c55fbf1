-- ===== src/Snapshot/Lifecycle.antt =====
-- The start, the end and the clean-up of code/process_snapshot/process_snapshot.c: `acquire_lock`,
-- `process_snapshot_initialize`, `process_snapshot_deinit` and `process_snapshot_delete_old_files`.
pub mod Held
pub mod Deleted
use linux_process_analyzer.Prelude.{
  ℕ, ◌==◌, ◌&&◌, ◌||◌, Bool, true, false, not, Option, none, some, List, [], ◌∷◌, ◌++◌,
  if◌then◌else◌, take,
}
use linux_process_analyzer.Prelude.Cstr.{Bytes, codes}
use linux_process_analyzer.Snapshot.Files.{Files, unlink}

pub data SnapshotStatus : Type 0 where
  process_snapshot_success process_snapshot_error process_snapshot_aquire_lock_failed :
      SnapshotStatus

-- Which of the lock, the directory stream and the two FILE pointers are open.
pub record Handles : Type 0 where
  pub lock : Bool
  pub dir : Bool
  pub log : Bool
  pub jsonl : Bool

-- What the configuration asks for, and which calls of the system succeed.
pub record Opens : Type 0 where
  pub raw_log_enabled : Bool
  pub raw_jsonl_enabled : Bool
  pub opendir_proc : Bool
  pub open_lock : Bool
  pub flock : Bool
  pub fopen_log : Bool
  pub fopen_jsonl : Bool

acquire_lock : Opens → Handles → SnapshotStatus × Handles
acquire_lock o s =
    if not o.open_lock
    then (process_snapshot_aquire_lock_failed, record s { lock = false })
    else if not o.flock
    then (process_snapshot_aquire_lock_failed, record s { lock = false })
    else (process_snapshot_success, record s { lock = true })

open_log : Opens → SnapshotStatus × Handles → SnapshotStatus × Handles
open_log o (status, s) =
    if o.raw_log_enabled
    then if o.fopen_log
      then (process_snapshot_success, record s { log = true })
      else (process_snapshot_error, record s { log = false })
    else (status, s)

open_jsonl : Opens → SnapshotStatus × Handles → SnapshotStatus × Handles
open_jsonl o (status, s) =
    if o.raw_jsonl_enabled
    then if o.fopen_jsonl
      then (process_snapshot_success, record s { jsonl = true })
      else (process_snapshot_error, record s { jsonl = false })
    else (status, s)

after_lock : Opens → SnapshotStatus × Handles → SnapshotStatus × Handles
unfolding open_log open_jsonl
after_lock o (process_snapshot_success, s) = open_jsonl o (open_log o (process_snapshot_success, s))
after_lock o (failed, s) = (failed, s)

pub process_snapshot_initialize : Opens → Handles → SnapshotStatus × Handles
unfolding after_lock acquire_lock
process_snapshot_initialize o s =
    let opened = record s { dir = true } in
    if not o.opendir_proc
    then (process_snapshot_error, record s { dir = false })
    else if not o.raw_log_enabled && not o.raw_jsonl_enabled
    then (process_snapshot_success, opened)
    else after_lock o (acquire_lock o opened)

-- flock and close, fclose and closedir, each of what is open.
pub process_snapshot_deinit : Handles → Handles
process_snapshot_deinit s = record {
  lock = if s.lock then false else s.lock;
  dir = if s.dir then false else s.dir;
  log = if s.log then false else s.log;
  jsonl = if s.jsonl then false else s.jsonl;
}

-- strncmp(name, prefix, strlen(prefix)) == 0
unfoldable pub begins_with : Bytes → Bytes → Bool
begins_with [] name = true
begins_with (p ∷ ps) [] = false
begins_with (p ∷ ps) (c ∷ cs) = p == c && begins_with ps cs

unfoldable pub is_old_file : Bytes → Bool
unfolding begins_with
is_old_file name = begins_with (codes "ptime.log") name || begins_with (codes "ptime.jsonl") name

-- The path in a buffer of 512 bytes.
unfoldable pub old_path : Bytes → Bytes → Bytes
old_path output_dir name = take 511 (output_dir ++ (b'/' ∷ name))

-- `removes` tells the paths that remove succeeds for.
module _ (removes : Bytes → Bool) (output_dir : Bytes) where
  pub delete_entries : List Bytes → Files → SnapshotStatus × Files
  delete_entries [] files = (process_snapshot_success, files)
  delete_entries (name ∷ names) files =
      let path = old_path output_dir name in
      let deleted = delete_entries names (unlink path files) in
      let skipped = delete_entries names files in
      if is_old_file name
      then if removes path then deleted else (process_snapshot_error, files)
      else skipped

  -- The names in the directory, or whether opendir failed with ENOENT.
  unfoldable process_snapshot_delete_old_files :
      Bool → Option (List Bytes) → Files → SnapshotStatus × Files
  unfolding delete_entries
  process_snapshot_delete_old_files no_entry none files =
      (if no_entry then process_snapshot_success else process_snapshot_error, files)
  process_snapshot_delete_old_files no_entry (some names) files = delete_entries names files
