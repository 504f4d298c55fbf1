-- ===== src/Snapshot/Run/Account.antt =====
-- What the snapshots of a run write and drop, and what they make of the statistics, from the inputs
-- that code/process_snapshot/process_snapshot.c reads.
use linux_process_analyzer.Prelude.{List, [], ◌∷◌, ◌++◌}
use linux_process_analyzer.Prelude.Cstr.{Bytes}
use linux_process_analyzer.Args.{PidWhitelist}
use linux_process_analyzer.Stats.{Float, ProcessStateInput, ProcessTable, Stats}
use linux_process_analyzer.Stats.Update.{process_stats_snapshot_end}
use linux_process_analyzer.Stats.Update.History.{run}
use linux_process_analyzer.Snapshot.Rotate.{Settings, jsonl_path}
use linux_process_analyzer.Snapshot.Rotate.History.{lost_by}
use linux_process_analyzer.Snapshot.Collect.Ended.{lines}
use linux_process_analyzer.Snapshot.Collect.Selected.{inputs, events}
use linux_process_analyzer.Snapshot.Run.{Running, Moment, run_snapshot_once}

module _ {D T : Type 0} (F : Float D) (h : ProcessTable D T) (w : PidWhitelist) where
  abbrev pub inputs_at : Moment D → List (ProcessStateInput D)
  inputs_at m = inputs m.surroundings w m.entries

  abbrev pub stats_at : Moment D → Stats D T → Stats D T
  stats_at m s = process_stats_snapshot_end (run F h (events F h m.surroundings w (inputs_at m)) s)

  abbrev pub all_lines : List (Moment D) → Bytes
  all_lines [] = []
  all_lines (m ∷ ms) = lines (inputs_at m) ++ all_lines ms

  abbrev pub all_stats : List (Moment D) → Stats D T → Stats D T
  all_stats [] s = s
  all_stats (m ∷ ms) s = all_stats ms (stats_at m s)

module _ {D T : Type 0} (F : Float D) (h : ProcessTable D T) (c : Settings) (w : PidWhitelist) where
  -- What the rotation of the JSON file drops in the next snapshot.
  abbrev pub lost_at : Running D T → Bytes
  lost_at r = lost_by c (jsonl_path c) r.output.files

  -- What the rotations of the run drop.
  abbrev pub all_lost : List (Moment D) → Running D T → Bytes
  all_lost [] r = []
  all_lost (m ∷ ms) r = lost_at r ++ all_lost ms (run_snapshot_once F h c w m r)
