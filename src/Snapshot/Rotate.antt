-- ===== src/Snapshot/Rotate.antt =====
-- `rotate_logs`, `rotate_and_reopen` and `handle_rotations` of
-- code/process_snapshot/process_snapshot.c.
pub mod Chain
pub mod Names
pub mod Unique
pub mod Spared
pub mod Away
pub mod Bound
pub mod History
pub mod Paths
pub mod Shift
pub mod ShiftGz
use linux_process_analyzer.Prelude.{
  ℕ, zero, suc, ◌+◌, ◌-◌, ◌^◌, ◌%◌, Bool, true, false, not, ◌&&◌, Option, none, some, List, [], ◌∷◌,
  ◌++◌, if◌then◌else◌, take,
}
use linux_process_analyzer.Prelude.Int.{ℤ, ltb_ℤ}
use linux_process_analyzer.Prelude.Cstr.{Bytes, codes}
use linux_process_analyzer.Prelude.Strto.{decimal}
use linux_process_analyzer.Config.{path_max}
use linux_process_analyzer.Snapshot.Files.{
  Files, put, unlink, Renamed, renamed, no_entry, other_error, rename, size_of,
}

-- snprintf into a buffer of PATH_MAX bytes.
abbrev pub fit : Bytes → Bytes
fit text = take (path_max - 1) text

-- "%s.%d" and "%s.%d.gz"
unfoldable pub numbered : Bytes → ℕ → Bytes
numbered path i = fit (path ++ (b'.' ∷ decimal i))

pub numbered_gz : Bytes → ℕ → Bytes
numbered_gz path i = fit (path ++ (b'.' ∷ (decimal i ++ codes ".gz")))

-- "%s.1.%ld.%u"
unfoldable pub unique_name : Bytes → ℕ → ℕ → Bytes
unique_name path time counter =
    fit (path ++ (codes ".1." ++ (decimal time ++ (b'.' ∷ decimal counter))))

-- The directory, the static counter of rotations, and the paths handed to
-- `compression_enqueue_file`.
pub record Output : Type 0 where
  pub files : Files
  pub rotation_counter : ℕ
  pub enqueued : List Bytes

module _ (faults : Bytes → Bytes → Bool) (compression_enabled : Bool) where
  -- Where the compressed file was renamed the plain one is not tried.
  or_plain : Renamed × Files → Bytes → Bytes → Files
  or_plain (renamed, files) old new = files
  or_plain (no_entry, files) old new = (rename faults old new files).1
  or_plain (other_error, files) old new = (rename faults old new files).1

  pub rotate_one : Bytes → ℕ → Files → Files
  unfolding or_plain
  rotate_one path i files =
      if compression_enabled
      then or_plain (rename faults (numbered_gz path i) (numbered_gz path (i + 1)) files)
          (numbered path i) (numbered path (i + 1))
      else (rename faults (numbered path i) (numbered path (i + 1)) files).1

  -- for (int i = max_rotations - 1; i >= 1; i--), from the given i
  pub rotate_from : Bytes → ℕ → Files → Files
  rotate_from path zero files = files
  rotate_from path (suc i) files = rotate_from path i (rotate_one path (suc i) files)

  -- `time` is what time(NULL) returns.
  pub rotate_logs : ℕ → ℕ → Bytes → Output → Output
  rotate_logs max_rotations time path o =
      let cleared =
        unlink (numbered path max_rotations) (unlink (numbered_gz path max_rotations) o.files) in
      let shifted = rotate_from path (max_rotations - 1) cleared in
      let new_path =
        if compression_enabled then unique_name path time o.rotation_counter else numbered path 1 in
      let result = (rename faults (fit path) new_path shifted).1 in
      if compression_enabled
      then record {
        files = result;
        rotation_counter = (o.rotation_counter + 1) % 2 ^ 32;
        enqueued = o.enqueued ++ new_path ∷ [];
      }
      else record o { files = result }

abbrev or_empty : Option Bytes → Option Bytes
or_empty none = some []
or_empty (some content) = some content

-- fopen(path, "a"): the file is made if it is missing. The flag says whether fopen succeeds.
open_append : Bool → Bytes → Output → Bool × Output
open_append opens path o =
    if opens
    then (true, record o { files = put path (or_empty (o.files path)) o.files })
    else (false, o)

-- What stays the same during the run, and the answers of the system.
pub record Settings : Type 0 where
  pub raw_log_enabled : Bool
  pub raw_jsonl_enabled : Bool
  pub compression_enabled : Bool
  pub max_file_size_bytes : ℤ
  pub max_number_of_files : ℕ
  pub output_dir : Bytes
  pub faults : Bytes → Bytes → Bool
  pub opens : Bytes → Bool

abbrev pub log_path : Settings → Bytes
log_path c = fit (c.output_dir ++ codes "/ptime.log")

abbrev pub jsonl_path : Settings → Bytes
jsonl_path c = fit (c.output_dir ++ codes "/ptime.jsonl")

module _ (c : Settings) (time : ℕ) where
  -- The flag is whether the FILE pointer is set; a closed file is flushed.
  unfoldable pub rotate_and_reopen : Bytes → Output → Bool × Output
  unfolding open_append
  rotate_and_reopen path o =
      open_append (c.opens path) path
        (rotate_logs c.faults c.compression_enabled c.max_number_of_files time path o)

  unfoldable pub rotate_if_large : Bytes → Bool × Output → Bool × Output
  rotate_if_large path (is_open, o) =
      if not (ltb_ℤ (size_of (o.files path)) c.max_file_size_bytes)
      then rotate_and_reopen path o
      else (is_open, o)

  -- The FILE pointers of the two outputs, and the directory.
  unfoldable pub handle_rotations : Bool × Bool × Output → Bool × Bool × Output
  handle_rotations (log_open, jsonl_open, o) =
      let (log_open', o') =
        if c.raw_log_enabled then rotate_if_large (log_path c) (log_open, o) else (log_open, o) in
      let (jsonl_open', o'') =
        if c.raw_jsonl_enabled
        then rotate_if_large (jsonl_path c) (jsonl_open, o')
        else (jsonl_open, o') in
      if not c.raw_log_enabled && not c.raw_jsonl_enabled
      then (log_open, jsonl_open, o)
      else (log_open', jsonl_open', o'')
