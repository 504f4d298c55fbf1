-- ===== src/Snapshot/Run.antt =====
-- The whole of `collect_snapshot` in code/process_snapshot/process_snapshot.c with the rotation that
-- it begins with, and the snapshots of a run one after the other.
pub mod Appended
pub mod Account
pub mod Step
pub mod Whole
use linux_process_analyzer.Prelude.{ℕ, Bool, Option, none, List, [], ◌∷◌, if◌then◌else◌}
use linux_process_analyzer.Prelude.Cstr.{Bytes}
use linux_process_analyzer.Args.{PidWhitelist}
use linux_process_analyzer.Stats.{Float, ProcessTable, Stats}
use linux_process_analyzer.Snapshot.Files.{Files, put}
use linux_process_analyzer.Snapshot.Rotate.{
  Output, Settings, log_path, jsonl_path, handle_rotations,
}
use linux_process_analyzer.Snapshot.Collect.{Surroundings, Collected, collect_snapshot}

-- The statistics, the console, whether the two FILE pointers are set, and the output directory.
pub record Running (D T : Type 0) : Type 0 where
  pub stats : Stats D T
  pub console : Bytes
  pub log_open : Bool
  pub jsonl_open : Bool
  pub output : Output

-- What one snapshot meets: the time of a rotation, the system, and the entries of /proc.
pub record Moment (D : Type 0) : Type 0 where
  pub time : ℕ
  pub surroundings : Surroundings D
  pub entries : List (Bool × Bytes)

-- The content that an open FILE appends to, and the file after the flush at the end.
abbrev pub opened : Bool → Bytes → Files → Option Bytes
opened is_open path files = if is_open then files path else none

abbrev pub flushed : Bool → Bytes → Option Bytes → Files → Files
flushed is_open path content files = if is_open then put path content files else files

module _ {D T : Type 0} (F : Float D) (h : ProcessTable D T) (c : Settings) (w : PidWhitelist) where
  -- From `handle_rotations` on.
  collect_after : Moment D → Running D T → Bool × Bool × Output → Running D T
  collect_after m r (log_open, jsonl_open, o) =
      let after = collect_snapshot F h m.surroundings w m.entries (record {
        stats = r.stats;
        console = r.console;
        log = opened log_open (log_path c) o.files;
        jsonl = opened jsonl_open (jsonl_path c) o.files;
      }) in
      record {
        stats = after.stats;
        console = after.console;
        log_open = log_open;
        jsonl_open = jsonl_open;
        output = record o {
          files =
              flushed jsonl_open (jsonl_path c) after.jsonl
                (flushed log_open (log_path c) after.log o.files);
        };
      }

  pub run_snapshot_once : Moment D → Running D T → Running D T
  unfolding collect_after
  run_snapshot_once m r =
      collect_after m r (handle_rotations c m.time (r.log_open, r.jsonl_open, r.output))

  pub run_snapshots : List (Moment D) → Running D T → Running D T
  unfolding run_snapshot_once
  run_snapshots [] r = r
  run_snapshots (m ∷ ms) r = run_snapshots ms (run_snapshot_once m r)
