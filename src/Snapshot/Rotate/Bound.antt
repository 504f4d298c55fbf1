-- ===== src/Snapshot/Rotate/Bound.antt =====
-- The size of the output files after `handle_rotations` of
-- code/process_snapshot/process_snapshot.c.
use linux_process_analyzer.Prelude.{
  ℕ, ◌+◌, ◌-◌, ◌<◌, ◌≡◌, refl, sym, ap, subst, ◌∙◌, Bool, true, false, not, ◌&&◌, Option, none,
  some, [], if◌then◌else◌, if_cases, arith, length,
}
use linux_process_analyzer.Prelude.Int.{pos, ltb_ℤ}
use linux_process_analyzer.Prelude.Cstr.{Bytes}
use linux_process_analyzer.Config.{path_max}
use linux_process_analyzer.Snapshot.Files.{put_self, put-ne, size_of}
use linux_process_analyzer.Snapshot.Rotate.{
  fit, Output, rotate_logs, or_empty, open_append, Settings, log_path, jsonl_path,
  rotate_and_reopen, rotate_if_large, handle_rotations,
}
use linux_process_analyzer.Snapshot.Rotate.Away.{Away, rotate_logs-Away, rotate_logs-frees}
use linux_process_analyzer.Snapshot.Rotate.Paths.{
  jsonl_prefix, length-log_path, length-jsonl_path, fit-jsonl_path, jsonl_path-Away,
  log_path-itself,
}

module _ (c : Settings) (time : ℕ) where
  abbrev pub Small : Option Bytes → Type 0
  Small content = ltb_ℤ (size_of content) c.max_file_size_bytes ≡ true

  Small-fresh : ltb_ℤ (pos 0) c.max_file_size_bytes ≡ true → Small none × Small (some [])
  Small-fresh h = (ground arith, h)

  rotate_and_reopen-Small :
      (path : Bytes) (o : Output)
      → ((a b : Bytes) → c.faults a b ≡ false)
      → length path < path_max - 1
      → ltb_ℤ (pos 0) c.max_file_size_bytes ≡ true
      → Small ((rotate_and_reopen c time path o).1.files path)
  unfolding rotate_and_reopen open_append
  rotate_and_reopen-Small path o fine h positive =
      let after = rotate_logs c.faults c.compression_enabled c.max_number_of_files time path o in
      let free =
        rotate_logs-frees c.faults c.compression_enabled path c.max_number_of_files time o fine h in
      if_cases (λ (r : Bool × Output). Small (r.1.files path)) (c.opens path) _ _
        (λ e.
          subst Small
            (sym (
              put_self path (or_empty (after.files path)) after.files
              ∙ ap (λ (f : Option Bytes). or_empty f) free))
            (Small-fresh positive).1)
        (λ e. subst Small (sym free) (Small-fresh positive).0)

  rotate_if_large-Small :
      (path : Bytes) (is_open : Bool) (o : Output)
      → ((a b : Bytes) → c.faults a b ≡ false)
      → length path < path_max - 1
      → ltb_ℤ (pos 0) c.max_file_size_bytes ≡ true
      → Small ((rotate_if_large c time path (is_open, o)).1.files path)
  unfolding rotate_if_large
  rotate_if_large-Small path is_open o fine h positive =
      if_cases (λ (r : Bool × Output). Small (r.1.files path))
        (not (ltb_ℤ (size_of (o.files path)) c.max_file_size_bytes))
        (rotate_and_reopen c time path o) (is_open, o)
        (λ e. rotate_and_reopen-Small path o fine h positive) (λ e. ground arith)

  pub rotate_if_large-Away :
      (p path q : Bytes) (is_open : Bool) (o : Output)
      → Away p path q
      → fit path ≡ path
      → (rotate_if_large c time path (is_open, o)).1.files q ≡ o.files q
  unfolding rotate_if_large rotate_and_reopen open_append
  rotate_if_large-Away p path q is_open o away whole =
      let after = rotate_logs c.faults c.compression_enabled c.max_number_of_files time path o in
      let same =
        rotate_logs-Away c.faults c.compression_enabled p path q away c.max_number_of_files time
          o in
      if_cases (λ (r : Bool × Output). r.1.files q ≡ o.files q)
        (not (ltb_ℤ (size_of (o.files path)) c.max_file_size_bytes)) _ (is_open, o)
        (λ e.
          if_cases (λ (r : Bool × Output). r.1.files q ≡ o.files q) (c.opens path) _ _
            (λ e'.
              put-ne path q (or_empty (after.files path)) after.files
                (λ x. away.other (fit path) away.itself (sym x ∙ sym whole))
              ∙ same)
            (λ e'. same))
        (λ e. refl)

module _ (c : Settings) (time : ℕ) (log_open jsonl_open : Bool) (o : Output) where
  -- The directory after `handle_rotations`, by what is enabled.
  abbrev after_rotations : Bool → Bool → Output
  after_rotations log jsonl =
      let r = if log then rotate_if_large c time (log_path c) (log_open, o) else (log_open, o) in
      let s =
        if jsonl
        then rotate_if_large c time (jsonl_path c) (jsonl_open, r.1)
        else (jsonl_open, r.1) in
      if not log && not jsonl then o else s.1

  after_rotations-Small :
      (log jsonl : Bool)
      → ((a b : Bytes) → c.faults a b ≡ false)
      → length c.output_dir + 20 < path_max
      → ltb_ℤ (pos 0) c.max_file_size_bytes ≡ true
      → (log ≡ true → Small c time ((after_rotations log jsonl).files (log_path c)))
        × (jsonl ≡ true → Small c time ((after_rotations log jsonl).files (jsonl_path c)))
  after_rotations-Small false false fine room positive = (λ e. cc, λ e. cc)
  after_rotations-Small true false fine room positive = (
    λ e.
        rotate_if_large-Small c time (log_path c) log_open o fine
          (omega (arith, length-log_path c room, room)) positive,
    λ e. cc,
  )
  after_rotations-Small false true fine room positive = (
    λ e. cc,
    λ e.
        rotate_if_large-Small c time (jsonl_path c) jsonl_open o fine
          (omega (arith, length-jsonl_path c room, room)) positive,
  )
  after_rotations-Small true true fine room positive =
      let r = rotate_if_large c time (log_path c) (log_open, o) in
      (
        λ e.
            subst (Small c time)
              (sym (
                rotate_if_large-Away c time (jsonl_prefix c room) (jsonl_path c) (log_path c)
                  jsonl_open r.1 (jsonl_path-Away c room (log_path c) (log_path-itself c room))
                  (fit-jsonl_path c room)))
              (rotate_if_large-Small c time (log_path c) log_open o fine
                (omega (arith, length-log_path c room, room)) positive),
        λ e.
            rotate_if_large-Small c time (jsonl_path c) jsonl_open r.1 fine
              (omega (arith, length-jsonl_path c room, room)) positive,
      )

  -- After `handle_rotations`, where renames do not fail and the names have room, each output that is
  -- enabled is below the limit of the size, whether it was rotated or not and also where the file
  -- could not be opened again.
  pub handle_rotations_bounds :
      ((a b : Bytes) → c.faults a b ≡ false)
      → length c.output_dir + 20 < path_max
      → ltb_ℤ (pos 0) c.max_file_size_bytes ≡ true
      → (let after = (handle_rotations c time (log_open, jsonl_open, o)).2 in
          (c.raw_log_enabled ≡ true
            → ltb_ℤ (size_of (after.files (log_path c))) c.max_file_size_bytes ≡ true)
          × (c.raw_jsonl_enabled ≡ true
              → ltb_ℤ (size_of (after.files (jsonl_path c))) c.max_file_size_bytes ≡ true))
  unfolding handle_rotations
  handle_rotations_bounds fine room positive =
      let handled : after_rotations c.raw_log_enabled c.raw_jsonl_enabled
          ≡ (handle_rotations c time (log_open, jsonl_open, o)).2 =
        ground arith in
      subst
        (λ (f : Output).
          (c.raw_log_enabled ≡ true → Small c time (f.files (log_path c)))
          × (c.raw_jsonl_enabled ≡ true → Small c time (f.files (jsonl_path c))))
        handled (after_rotations-Small c.raw_log_enabled c.raw_jsonl_enabled fine room positive)
