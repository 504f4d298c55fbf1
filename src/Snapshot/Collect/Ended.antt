-- ===== src/Snapshot/Collect/Ended.antt =====
-- A whole `collect_snapshot` of code/process_snapshot/process_snapshot.c after its rotation.
use mathlib.Core.List.{append_assoc, append-nil}
use linux_process_analyzer.Prelude.{◌≡◌, sym, ap, ◌∙◌, Bool, some, List, [], ◌∷◌, ◌++◌}
use linux_process_analyzer.Prelude.Cstr.{Bytes, codes}
use linux_process_analyzer.Args.{PidWhitelist}
use linux_process_analyzer.Stats.{Float, ProcessStateInput, ProcessTable}
use linux_process_analyzer.Stats.Update.{process_stats_snapshot_end}
use linux_process_analyzer.Stats.Update.History.{run}
use linux_process_analyzer.Snapshot.Collect.{
  Surroundings, Collected, json_line, log_data, collect_snapshot,
}
use linux_process_analyzer.Snapshot.Collect.Selected.{
  inputs, events, lines_written, collect_entries-inputs,
}

module _ {D : Type 0} where
  -- The JSON lines of some inputs.
  abbrev pub lines : List (ProcessStateInput D) → Bytes
  lines [] = []
  lines (i ∷ is) = json_line i ++ lines is

module _ {D T : Type 0} (F : Float D) (h : ProcessTable D T) (w : PidWhitelist)
    (e : Surroundings D) where
  pub lines_written-lines :
      (is : List (ProcessStateInput D)) (content : Bytes)
      → lines_written F h e w is (some content) ≡ some (content ++ lines is)
  lines_written-lines [] content = ap (λ (t : Bytes). some t) (sym (append-nil content))
  lines_written-lines (i ∷ is) content =
      lines_written-lines is (content ++ json_line i)
      ∙ ap (λ (t : Bytes). some t) (append_assoc content (json_line i) (lines is))

  -- The lines around the entries go to the console and to the log only.
  pub collect_snapshot-inputs :
      (entries : List (Bool × Bytes)) (c : Collected D T)
      → (let after = collect_snapshot F h e w entries c in
          (after.stats
            ≡ process_stats_snapshot_end (run F h (events F h e w (inputs e w entries)) c.stats))
          × (after.jsonl ≡ lines_written F h e w (inputs e w entries) c.jsonl))
  unfolding collect_snapshot log_data
  collect_snapshot-inputs entries c =
      let stamped =
        log_data e.raw_console_enabled (codes "[" ++ (e.h_r_timestamp ++ codes "] ")) c in
      let opened =
        log_data e.raw_console_enabled (codes " SNAPSHOT START ################# \n") stamped in
      let read = collect_entries-inputs F h e w entries opened in
      (ap process_stats_snapshot_end read.0, read.1)
