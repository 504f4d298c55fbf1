-- ===== src/Snapshot/Run/Step.antt =====
-- One snapshot of code/process_snapshot/process_snapshot.c, with its rotation.
use mathlib.Core.List.{append_assoc}
use linux_process_analyzer.Prelude.{
  ℕ, ◌+◌, ◌≤◌, ◌<◌, ◌≡◌, refl, sym, ap, subst, ◌∙◌, Bool, true, false, not, Option, some, [], ◌∷◌,
  ◌++◌, if◌then◌else◌, if_cases, arith, length,
}
use linux_process_analyzer.Prelude.Int.{ltb_ℤ}
use linux_process_analyzer.Prelude.Cstr.{Bytes}
use linux_process_analyzer.Prelude.Strto.{decimal}
use linux_process_analyzer.Config.{path_max}
use linux_process_analyzer.Args.{PidWhitelist}
use linux_process_analyzer.Stats.{Float, ProcessTable, Stats}
use linux_process_analyzer.Snapshot.Files.{Files, size_of}
use linux_process_analyzer.Snapshot.Rotate.{
  numbered, Output, Settings, log_path, jsonl_path, rotate_if_large, handle_rotations,
}
use linux_process_analyzer.Snapshot.Rotate.Chain.{limit}
use linux_process_analyzer.Snapshot.Rotate.Away.{Begins}
use linux_process_analyzer.Snapshot.Rotate.Bound.{rotate_if_large-Away}
use linux_process_analyzer.Snapshot.Rotate.Paths.{
  log_prefix, jsonl_prefix, jsonl_path-itself, jsonl_path-Begins, log_path-Away, fit-log_path,
}
use linux_process_analyzer.Snapshot.Rotate.History.{
  history, bytes_of, lost_by, rotate_if_large-Continues,
}
use linux_process_analyzer.Snapshot.Collect.{Collected, collect_snapshot}
use linux_process_analyzer.Snapshot.Collect.Ended.{
  lines, lines_written-lines, collect_snapshot-inputs,
}
use linux_process_analyzer.Snapshot.Collect.Selected.{lines_written}
use linux_process_analyzer.Snapshot.Run.{
  Running, Moment, opened, flushed, collect_after, run_snapshot_once,
}
use linux_process_analyzer.Snapshot.Run.Appended.{
  dir_room, jsonl-HasRoom, history-cong, flushed-history,
}
use linux_process_analyzer.Snapshot.Run.Account.{inputs_at, stats_at, lost_at}

module _ {D T : Type 0} (F : Float D) (h : ProcessTable D T) (c : Settings) (w : PidWhitelist)
    (room : length c.output_dir + 26 < path_max) (small : c.max_number_of_files < limit) where
  -- The history grows by the lines of the snapshot, and the JSON file stays open.
  record Grows (m : Moment D) (r : Running D T) (before : Files) (after : Running D T)
      : Type 0 where
    content : Bytes
    grown :
        history (jsonl_path c) c.max_number_of_files before ++ lines (inputs_at F h w m)
        ≡ history (jsonl_path c) c.max_number_of_files after.output.files
    is_open : after.jsonl_open ≡ true
    present : after.output.files (jsonl_path c) ≡ some content
    stats_of : after.stats ≡ stats_at F h w m r.stats

  collect_after-Grows :
      (m : Moment D) (r : Running D T) (log_open : Bool) (o : Output) (content : Bytes)
      → o.files (jsonl_path c) ≡ some content
      → Grows m r o.files (collect_after F h c w m r (log_open, true, o))
  unfolding collect_after
  collect_after-Grows m r log_open o content e =
      let start : Collected D T = record {
        stats = r.stats;
        console = r.console;
        log = opened log_open (log_path c) o.files;
        jsonl = o.files (jsonl_path c);
      } in
      let after = collect_snapshot F h m.surroundings w m.entries start in
      let s = collect_snapshot-inputs F h w m.surroundings m.entries start in
      let text : after.jsonl ≡ some (content ++ lines (inputs_at F h w m)) =
        s.1
        ∙ ap (λ (t : Option Bytes). lines_written F h m.surroundings w (inputs_at F h w m) t) e
        ∙ lines_written-lines F h w m.surroundings (inputs_at F h w m) content in
      let f =
        flushed-history c room small log_open after.log content (lines (inputs_at F h w m)) o.files
          e in
      let files = λ (t : Option Bytes).
        flushed true (jsonl_path c) t (flushed log_open (log_path c) after.log o.files) in
      record {
        content = content ++ lines (inputs_at F h w m);
        grown =
            f.0
            ∙ ap (λ (t : Option Bytes). history (jsonl_path c) c.max_number_of_files (files t))
                (sym text);
        is_open = refl;
        present = ap (λ (t : Option Bytes). files t (jsonl_path c)) text ∙ f.1;
        stats_of = s.0;
      }

  -- The rotation of the log before that of the JSON file.
  abbrev log_rotated : ℕ → Bool → Output → Bool × Output
  log_rotated time log_open o =
      if c.raw_log_enabled then rotate_if_large c time (log_path c) (log_open, o) else (log_open, o)

  log_rotated-apart :
      (time : ℕ) (log_open : Bool) (o : Output) (q : Bytes)
      → Begins (jsonl_prefix c (dir_room c room small)) q
      → (log_rotated time log_open o).1.files q ≡ o.files q
  log_rotated-apart time log_open o q b =
      let near = dir_room c room small in
      if_cases (λ (r : Bool × Output). r.1.files q ≡ o.files q) c.raw_log_enabled
        (rotate_if_large c time (log_path c) (log_open, o)) (log_open, o)
        (λ e.
          rotate_if_large-Away c time (log_prefix c near) (log_path c) q log_open o
            (log_path-Away c near q b) (fit-log_path c near))
        (λ e. refl)

  handle_rotations-jsonl :
      (time : ℕ) (log_open jsonl_open : Bool) (o : Output)
      → c.raw_jsonl_enabled ≡ true
      → handle_rotations c time (log_open, jsonl_open, o) ≡ (
        (log_rotated time log_open o).0,
        (rotate_if_large c time (jsonl_path c) (jsonl_open, (log_rotated time log_open o).1)).0,
        (rotate_if_large c time (jsonl_path c) (jsonl_open, (log_rotated time log_open o).1)).1,
      )
  unfolding handle_rotations
  handle_rotations-jsonl time log_open jsonl_open o e = ground (arith, e)

  -- The JSON file is open, and there.
  pub record IsReady (r : Running D T) : Type 0 where
    pub content : Bytes
    pub is_open : r.jsonl_open ≡ true
    pub present : r.output.files (jsonl_path c) ≡ some content

  -- The history loses `lost` from its beginning, and gets the lines.
  pub record Continued (lost lines_of : Bytes) (s : Stats D T) (r after : Running D T)
      : Type 0 where
    pub kept :
        history (jsonl_path c) c.max_number_of_files r.output.files ++ lines_of
        ≡ lost ++ history (jsonl_path c) c.max_number_of_files after.output.files
    pub ready : IsReady after
    pub stats_of : after.stats ≡ s

  module _ (fine : (a b : Bytes) → c.faults a b ≡ false) (opens : (p : Bytes) → c.opens p ≡ true)
      (plain : c.compression_enabled ≡ false) (one : 1 ≤ c.max_number_of_files)
      (enabled : c.raw_jsonl_enabled ≡ true) where
    pub run_snapshot_once-Continued :
        (m : Moment D) (r : Running D T)
        → IsReady r
        → Continued
            (lost_at F h c w r)
            (lines (inputs_at F h w m))
            (stats_at F h w m r.stats)
            r
            (run_snapshot_once F h c w m r)
    unfolding run_snapshot_once numbered
    run_snapshot_once-Continued m r ready =
        let max = c.max_number_of_files in
        let path = jsonl_path c in
        let near = dir_room c room small in
        let logged = log_rotated m.time r.log_open r.output in
        let rotated = rotate_if_large c m.time path (true, logged.1) in
        let apart = log_rotated-apart m.time r.log_open r.output in
        let k =
          rotate_if_large-Continues c m.time path (jsonl-HasRoom c room small) fine plain one small
            logged.1 ready.content (opens path)
            (apart path (jsonl_path-itself c near) ∙ ready.present) in
        let handled : handle_rotations c m.time (r.log_open, r.jsonl_open, r.output)
            ≡ (logged.0, true, rotated.1) =
          handle_rotations-jsonl m.time r.log_open r.jsonl_open r.output enabled
          ∙ ap
              (λ (b : Bool). (
                logged.0,
                (rotate_if_large c m.time path (b, logged.1)).0,
                (rotate_if_large c m.time path (b, logged.1)).1,
              ))
              ready.is_open
          ∙ ap (λ (b : Bool). (logged.0, b, rotated.1)) k.is_open in
        let after = collect_after F h c w m r (logged.0, true, rotated.1) in
        let lost = lost_by c path logged.1.files in
        let same : lost ≡ lost_at F h c w r =
          ap
            (λ (t : Option Bytes).
              if not (ltb_ℤ (size_of t) c.max_file_size_bytes)
              then bytes_of (logged.1.files (numbered path max))
              else [])
            (apart path (jsonl_path-itself c near))
          ∙ ap
              (λ (t : Option Bytes).
                if not (ltb_ℤ (size_of (r.output.files path)) c.max_file_size_bytes)
                then bytes_of t
                else [])
              (apart (numbered path max) (jsonl_path-Begins c near (b'.' ∷ decimal max))) in
        let g = collect_after-Grows m r logged.0 rotated.1 k.content k.present in
        subst
          (λ (x : Bool × Bool × Output).
            Continued (lost_at F h c w r) (lines (inputs_at F h w m)) (stats_at F h w m r.stats) r
              (collect_after F h c w m r x))
          (sym handled)
          (record {
            kept =
                ap (λ (t : Bytes). t ++ lines (inputs_at F h w m))
                  (sym (history-cong c room small r.output.files logged.1.files apart) ∙ k.kept)
                ∙ append_assoc lost (history path max rotated.1.files) (lines (inputs_at F h w m))
                ∙ ap (λ (t : Bytes). lost ++ t) g.grown
                ∙ ap (λ (t : Bytes). t ++ history path max after.output.files) same;
            ready = record { content = g.content; is_open = g.is_open; present = g.present };
            stats_of = g.stats_of;
          })
