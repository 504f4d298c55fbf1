-- ===== src/Snapshot/Rotate/Spared.antt =====
-- The files that a rotation in code/process_snapshot/process_snapshot.c leaves alone, also where its
-- renames fail.
use linux_process_analyzer.Prelude.{
  ℕ, zero, suc, ◌+◌, ◌%◌, ◌^◌, true, ◌-◌, ◌≤◌, ◌≡◌, ◌≢◌, refl, sym, ap, ◌∙◌, Bool, none,
  if◌then◌else◌, if_cases, arith,
}
use linux_process_analyzer.Prelude.Cstr.{Bytes}
use linux_process_analyzer.Snapshot.Files.{
  Files, Renamed, renamed, no_entry, other_error, unlink, rename, rename-others, put-ne,
}
use linux_process_analyzer.Snapshot.Rotate.{
  fit, numbered, numbered_gz, unique_name, Output, or_plain, rotate_one, rotate_from, rotate_logs,
}

module _ (faults : Bytes → Bytes → Bool) (compression_enabled : Bool) (path : Bytes) where
  -- The name that the current file gets.
  abbrev pub new_name : ℕ → ℕ → Bytes
  new_name time counter =
      if compression_enabled then unique_name path time counter else numbered path 1

  pub rotate_logs-files :
      (max time : ℕ) (o : Output)
      → (rotate_logs faults compression_enabled max time path o).files
        ≡ (rename faults (fit path) (new_name time o.rotation_counter) (
            rotate_from faults compression_enabled path
              (max - 1)
              (unlink (numbered path max) (unlink (numbered_gz path max) o.files)))).1
  unfolding rotate_logs
  rotate_logs-files max time o = ground arith

-- `q` is none of the names that a rotation of `path` uses, but perhaps the new one.
pub record Spared (path : Bytes) (max : ℕ) (q : Bytes) : Type 0 where
  pub plain : (i : ℕ) → i ≤ max → q ≢ numbered path i
  pub gz : (i : ℕ) → i ≤ max → q ≢ numbered_gz path i
  pub base : q ≢ fit path

module _ (faults : Bytes → Bytes → Bool) (compression_enabled : Bool) (path : Bytes) (max : ℕ)
    (q : Bytes) (spared : Spared path max q) where
  or_plain-Spared :
      (i : ℕ) (r : Renamed × Files)
      → i + 1 ≤ max
      → or_plain faults compression_enabled r (numbered path i) (numbered path (i + 1)) q ≡ r.1 q
  unfolding or_plain
  or_plain-Spared i (renamed, files) h = refl
  or_plain-Spared i (no_entry, files) h =
      rename-others faults (numbered path i) (numbered path (i + 1)) q files
        (spared.plain i (omega (arith, h))) (spared.plain (i + 1) h)
  or_plain-Spared i (other_error, files) h =
      rename-others faults (numbered path i) (numbered path (i + 1)) q files
        (spared.plain i (omega (arith, h))) (spared.plain (i + 1) h)

  rotate_one-Spared :
      (i : ℕ) (files : Files)
      → i + 1 ≤ max
      → rotate_one faults compression_enabled path i files q ≡ files q
  unfolding rotate_one
  rotate_one-Spared i files h =
      if_cases (λ (f : Files). f q ≡ files q) compression_enabled _ _
        (λ e.
          or_plain-Spared i (rename faults (numbered_gz path i) (numbered_gz path (i + 1)) files) h
          ∙ rename-others faults (numbered_gz path i) (numbered_gz path (i + 1)) q files
              (spared.gz i (omega (arith, h))) (spared.gz (i + 1) h))
        (λ e.
          rename-others faults (numbered path i) (numbered path (i + 1)) q files
            (spared.plain i (omega (arith, h))) (spared.plain (i + 1) h))

  rotate_from-Spared :
      (i : ℕ) (files : Files)
      → i ≤ max - 1
      → rotate_from faults compression_enabled path i files q ≡ files q
  unfolding rotate_from
  rotate_from-Spared zero files h = refl
  rotate_from-Spared (suc i) files h =
      rotate_from-Spared i (rotate_one faults compression_enabled path (suc i) files)
        (omega (arith, h))
      ∙ rotate_one-Spared (suc i) files (omega (arith, h))

  pub rotate_logs-Spared :
      (time : ℕ) (o : Output)
      → q ≢ new_name faults compression_enabled path time o.rotation_counter
      → (rotate_logs faults compression_enabled max time path o).files q ≡ o.files q
  unfolding unlink
  rotate_logs-Spared time o new =
      let cleared = unlink (numbered path max) (unlink (numbered_gz path max) o.files) in
      ap (λ (f : Files). f q) (rotate_logs-files faults compression_enabled path max time o)
      ∙ rename-others faults (fit path)
          (new_name faults compression_enabled path time o.rotation_counter) q
          (rotate_from faults compression_enabled path (max - 1) cleared) spared.base new
      ∙ rotate_from-Spared (max - 1) cleared (omega arith)
      ∙ put-ne (numbered path max) q none (unlink (numbered_gz path max) o.files)
          (λ e. spared.plain max (omega arith) (sym e))
      ∙ put-ne (numbered_gz path max) q none o.files (λ e. spared.gz max (omega arith) (sym e))

pub rotation_counter-rotate_logs :
    (faults : Bytes → Bytes → Bool) (path : Bytes) (max time : ℕ) (o : Output)
    → (rotate_logs faults true max time path o).rotation_counter ≡ (o.rotation_counter + 1) % 2 ^ 32
unfolding rotate_logs
rotation_counter-rotate_logs faults path max time o = refl
