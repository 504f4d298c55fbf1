-- ===== src/Compression.antt =====
-- The worker that compresses rotated files: code/compression/compression_worker.c. zlib, and the
-- failures of the calls on files, are parameters.
pub mod Job
pub mod Archive
pub mod Dots
pub mod Kept
pub mod Pending
pub mod Queue
use linux_process_analyzer.Prelude.{
  ℕ, zero, ◌+◌, ◌-◌, Bool, true, false, Option, none, some, List, [], ◌∷◌, ◌++◌, ◌==◌, ◌||◌, ◌&&◌,
  leb, if◌then◌else◌, length, take,
}
use linux_process_analyzer.Prelude.Int.{ℤ, pos, negsuc}
use linux_process_analyzer.Prelude.Cstr.{Bytes, codes, split_last}
use linux_process_analyzer.Config.{path_max}
use linux_process_analyzer.Snapshot.Files.{
  Files, put, unlink, Renamed, renamed, no_entry, other_error, rename,
}

-- char *dot = strrchr(base_out, '.'); ... *dot = '\0'
cut_at : Option (Bytes × Bytes) → Option Bytes
cut_at none = none
cut_at (some (before, behind)) = some before

without_extension : Bytes → Option Bytes
unfolding cut_at
without_extension path = cut_at (split_last b'.' path)

and_then_without : Option Bytes → Option Bytes
and_then_without none = none
and_then_without (some path) = without_extension path

-- `none` is -1.
pub extract_base_path : Bytes → Option Bytes
unfolding and_then_without
extract_base_path path =
    if length path == 0 || leb path_max (length path)
    then none
    else and_then_without (and_then_without (without_extension path))

-- fopen and fread of the source: whether it opens, and which part of a file's content is read until
-- fread returns 0, at its end or at an error. `gz_open` says whether gzopen makes a file, and
-- `gz_write` whether all writes of these bytes succeed. `gz_close` gives, for what the writes were
-- told and the bytes, whether gzclose succeeds and what the file then holds: the last of the
-- compressed data is written by it. `unlinks` says whether unlink removes a file.
pub record Gzip : Type 0 where
  pub fopen : Bytes → Bool
  pub fread : Bytes → Bytes
  pub gz_open : Bytes → Bool
  pub gz_write : Bytes → Bool
  pub gz_close : Bool → Bytes → Bool × Bytes
  pub unlinks : Bytes → Bool

-- What the file holds when the writes succeeded, whatever gzclose answers.
abbrev pub zipped : Gzip → Bytes → Bytes
zipped gz content = (gz.gz_close true (gz.fread content)).1

module _ (gz : Gzip) where
  -- The answer of gzclose is not looked at, nor ferror.
  compress_content : Bytes → Files → Option Bytes → ℤ × Files
  compress_content dst files none = (negsuc 0, files)
  compress_content dst files (some content) =
      let read = gz.fread content in
      let ok = gz.gz_write read in
      let (closed, written) = gz.gz_close ok read in
      if gz.gz_open dst
      then (if ok then pos 0 else negsuc 2, put dst (some written) files)
      else (negsuc 1, files)

  compress_file_gzip : Bytes → Bytes → Files → ℤ × Files
  unfolding compress_content
  compress_file_gzip src dst files =
      compress_content dst files (if gz.fopen src then files src else none)

  -- The original is removed only after the rename; the answer of unlink is not looked at.
  remove_original : Bytes → Renamed × Files → Files
  remove_original path (renamed, files) = if gz.unlinks path then unlink path files else files
  remove_original path (no_entry, files) = files
  remove_original path (other_error, files) = files

  module _ (faults : Bytes → Bytes → Bool) where
    after_compression : Bytes → Bytes → Bytes → ℤ × Files → Files
    unfolding remove_original
    after_compression path gz_path final (pos zero, files) =
        remove_original path (rename faults gz_path final files)
    after_compression path gz_path final (rc, files) = files

    with_base : Bytes → Option Bytes → Files → Files
    unfolding after_compression
    with_base path none files = files
    with_base path (some base) files =
        let gz_path = path ++ codes ".gz" in
        let final = base ++ codes ".1.gz" in
        if leb path_max (length gz_path)
        then files
        else if leb path_max (length final)
        then files
        else after_compression path gz_path final (compress_file_gzip path gz_path files)

    -- What the worker does with a job that it took from the queue.
    pub process_job : Bytes → Files → Files
    unfolding with_base
    process_job path files = with_base path (extract_base_path path) files

-- Where the thread is. In `waiting` it is blocked in pthread_cond_wait, without the mutex.
pub data Thread : Type 0 where
  at_lock waiting exited : Thread
  compressing : Bytes → Thread

-- What the thread does next after its critical section.
pub data Section : Type 0 where
  waits breaks : Section
  takes : Bytes → List Bytes → Section

-- From the lock of the mutex, or from the return of pthread_cond_wait, which has it again, to where
-- the mutex is released.
unfoldable pub critical_section : Bool → List Bytes → Section
critical_section worker_running (job ∷ jobs) = takes job jobs
critical_section true [] = waits
critical_section false [] = breaks

-- The thread that is blocked goes on; a signal that finds no thread blocked has no effect.
abbrev pub pthread_cond_signal : Thread → Thread
pthread_cond_signal waiting = at_lock
pthread_cond_signal at_lock = at_lock
pthread_cond_signal exited = exited
pthread_cond_signal (compressing path) = compressing path

-- The queue and the thread; `alloc` says whether malloc succeeds.
unfoldable pub compression_enqueue_file :
    (compression_enabled alloc : Bool) → Bytes → List Bytes × Thread → List Bytes × Thread
compression_enqueue_file enabled alloc path (jobs, thread) =
    if enabled && alloc
    then (jobs ++ take (path_max - 1) path ∷ [], pthread_cond_signal thread)
    else (jobs, thread)
