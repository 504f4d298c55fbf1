-- ===== src/Snapshot/Run/Whole.antt =====
-- What a run of snapshots leaves in the statistics and in the JSON files together.
use mathlib.Core.List.{append_assoc, append-nil}
use linux_process_analyzer.Prelude.{
  ◌+◌, ◌≤◌, ◌<◌, ◌≡◌, refl, sym, ap, ◌∙◌, true, false, some, List, [], ◌∷◌, ◌++◌, length,
}
use linux_process_analyzer.Prelude.Cstr.{Bytes}
use linux_process_analyzer.Config.{path_max}
use linux_process_analyzer.Args.{PidWhitelist}
use linux_process_analyzer.Stats.{Float, ProcessTable}
use linux_process_analyzer.Snapshot.Rotate.{Settings, jsonl_path}
use linux_process_analyzer.Snapshot.Rotate.Chain.{limit}
use linux_process_analyzer.Snapshot.Rotate.History.{history}
use linux_process_analyzer.Snapshot.Collect.Ended.{lines}
use linux_process_analyzer.Snapshot.Run.{Running, Moment, run_snapshot_once, run_snapshots}
use linux_process_analyzer.Snapshot.Run.Account.{inputs_at, all_lines, all_stats, lost_at, all_lost}
use linux_process_analyzer.Snapshot.Run.Step.{IsReady, Continued, run_snapshot_once-Continued}

module _ {D T : Type 0} (F : Float D) (h : ProcessTable D T) (c : Settings) (w : PidWhitelist)
    (room : length c.output_dir + 26 < path_max) (small : c.max_number_of_files < limit) where
  module _ (fine : (a b : Bytes) → c.faults a b ≡ false) (opens : (p : Bytes) → c.opens p ≡ true)
      (plain : c.compression_enabled ≡ false) (one : 1 ≤ c.max_number_of_files)
      (enabled : c.raw_jsonl_enabled ≡ true) where
    run_snapshots-Continued :
        (ms : List (Moment D)) (r : Running D T)
        → IsReady F h c w room small r
        → Continued F h c w room small
            (all_lost F h c w ms r)
            (all_lines F h w ms)
            (all_stats F h w ms r.stats)
            r
            (run_snapshots F h c w ms r)
    unfolding run_snapshots
    run_snapshots-Continued [] r ready = record {
      kept = append-nil (history (jsonl_path c) c.max_number_of_files r.output.files);
      ready = ready;
      stats_of = refl;
    }
    run_snapshots-Continued (m ∷ ms) r ready =
        let first =
          run_snapshot_once-Continued F h c w room small fine opens plain one enabled m r ready in
        let next = run_snapshot_once F h c w m r in
        let rest = run_snapshots-Continued ms next first.ready in
        let of = λ (x : Running D T). history (jsonl_path c) c.max_number_of_files x.output.files in
        record {
          kept =
              sym (append_assoc (of r) (lines (inputs_at F h w m)) (all_lines F h w ms))
              ∙ ap (λ (t : Bytes). t ++ all_lines F h w ms) first.kept
              ∙ append_assoc (lost_at F h c w r) (of next) (all_lines F h w ms)
              ∙ ap (λ (t : Bytes). lost_at F h c w r ++ t) rest.kept
              ∙ sym (
                  append_assoc (lost_at F h c w r) (all_lost F h c w ms next)
                    (of (run_snapshots F h c w ms next)));
          ready = rest.ready;
          stats_of = rest.stats_of ∙ ap (all_stats F h w ms) first.stats_of;
        }

    -- Any number of snapshots without compression, where the file system does not fail and the names
    -- have room: the JSON files, taken together with the oldest first, hold what they held before and
    -- then the lines of every snapshot in order, less just the oldest files that the rotations drop,
    -- each when the JSON file has reached its limit; the statistics are those of all the inputs, and
    -- the JSON file stays open.
    pub run_snapshots-history :
        (ms : List (Moment D)) (r : Running D T) (content : Bytes)
        → r.jsonl_open ≡ true
        → r.output.files (jsonl_path c) ≡ some content
        → (let after = run_snapshots F h c w ms r in
            (history (jsonl_path c) c.max_number_of_files r.output.files ++ all_lines F h w ms
              ≡ all_lost F h c w ms r
                ++ history (jsonl_path c) c.max_number_of_files after.output.files)
            × (after.stats ≡ all_stats F h w ms r.stats)
            × (after.jsonl_open ≡ true))
    run_snapshots-history ms r content is_open present =
        let k =
          run_snapshots-Continued ms r
            (record { content = content; is_open = is_open; present = present }) in
        (k.kept, k.stats_of, k.ready.is_open)
