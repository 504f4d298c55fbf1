-- ===== src/Stats/Report/Outcome.antt =====
-- `process_stats_print_metrics` of code/process_stats/process_stats.c as a whole.
use mathlib.Core.List.{append-nil, append_assoc}
use linux_process_analyzer.Prelude.{
  ℕ, ◌≡◌, refl, sym, ap, ◌∙◌, Bool, true, false, not, ◌&&◌, ◌||◌, ◌==◌, Option, none, some, List,
  [], ◌∷◌, ◌++◌, map, if◌then◌else◌, if_both, if_cases, arith, length,
}
use linux_process_analyzer.Prelude.Cstr.{Bytes, codes}
use linux_process_analyzer.Args.{MetricsArguments}
use linux_process_analyzer.Stats.{Float, ProcessState, ProcessTable, Stats}
use linux_process_analyzer.Stats.Metrics.{
  metrics_json_begin, metrics_json_end, get_snapshot_duration,
}
use linux_process_analyzer.Stats.Report.{
  Qsort, Printing, to_display, shown, with_averages, console_block, print_block, print_blocks,
  open_metrics_file, no_report, null_file, reported, Environment, prog_text, print_open, written,
  store_all, process_stats_print_metrics,
}
use linux_process_analyzer.Stats.Report.Blocks.{Block, blocks}
use linux_process_analyzer.Stats.Report.Json.{comma, intercalate, block_texts, json-print_blocks}

module _ {D : Type 0} (F : Float D) (qsort : Qsort D) where
  -- The tables of the requested blocks, each of the array as the earlier ones left it.
  abbrev pub console_texts : List (Block D) → List (ProcessState D) → Bytes
  console_texts [] arr = []
  console_texts (b ∷ bs) arr =
      if b.requested
      then console_block b (to_display b (length arr)) (shown qsort b arr)
        ++ console_texts bs (qsort b.compare arr)
      else console_texts bs arr

  console-print_blocks :
      (console_enabled : Bool) (bs : List (Block D)) (arr : List (ProcessState D)) (console : Bytes)
      (json : Option Bytes × Bool)
      → (print_blocks F qsort console_enabled bs
          (record { arr = arr; console = console; json = json })).console
        ≡ console ++ (if console_enabled then console_texts bs arr else [])
  unfolding print_blocks print_block
  console-print_blocks true [] arr console json = sym (append-nil console)
  console-print_blocks false [] arr console json = sym (append-nil console)
  console-print_blocks true (b ∷ bs) arr console json =
      if_both (λ s t. (print_blocks F qsort true bs s).console ≡ console ++ t) b.requested _ _ _ _
        (λ asked.
          console-print_blocks true bs (qsort b.compare arr) _ _
          ∙ append_assoc console (console_block b (to_display b (length arr)) (shown qsort b arr))
              (console_texts bs (qsort b.compare arr)))
        (λ not_asked. console-print_blocks true bs arr console json)
  console-print_blocks false (b ∷ bs) arr console json =
      if_cases (λ s. (print_blocks F qsort false bs s).console ≡ console ++ []) b.requested _ _
        (λ asked. console-print_blocks false bs (qsort b.compare arr) console _)
        (λ not_asked. console-print_blocks false bs arr console json)

-- The two tests at the start, each with its return.
skip_tests :
    {A : Type 0} (a b : Bool) (x y : A)
    → (a || b ≡ true → (if a then x else if b then x else y) ≡ x)
      × (a || b ≡ false → (if a then x else if b then x else y) ≡ y)
skip_tests true b x y = (λ e. refl, λ e. cc)
skip_tests false true x y = (λ e. refl, λ e. cc)
skip_tests false false x y = (λ e. cc, λ e. refl)

open_metrics_file-opens :
    (enabled alloc opens : Bool) (before : Option Bytes)
    → before ≡ none
    → (enabled && alloc && opens ≡ false → open_metrics_file enabled alloc opens before ≡ none)
      × (enabled && alloc && opens ≡ true → open_metrics_file enabled alloc opens before ≡ some [])
unfolding open_metrics_file
open_metrics_file-opens enabled alloc opens before e = ground (arith, e)

module _ {D T : Type 0} (F : Float D) (h : ProcessTable D T) (env : Environment D)
    (console_enabled : Bool) (args : MetricsArguments) (interval_ms : ℕ) (s : Stats D T) where
  -- The records with the averages that were asked for.
  abbrev pub averaged : List (ProcessState D)
  averaged = map (with_averages F args) (h.iter s.table)

  -- The whole metrics file.
  abbrev pub metrics_text : Bytes
  metrics_text =
      metrics_json_begin F s.number_of_snapshots interval_ms s.initial_timestamp s.last_timestamp
        (prog_text s.prog_name) env.hostname
        (get_snapshot_duration F s.initial_timestamp s.last_timestamp)
      ++ (intercalate comma (block_texts F env.qsort (blocks F args) averaged)
          ++ codes "\n\t}\n}\n")

  abbrev pub console_text : Bytes
  console_text = if console_enabled then console_texts F env.qsort (blocks F args) averaged else []

  closed_text :
      (json : Option Bytes × Bool) (out : Bytes)
      → json.0 ≡ some out
      → written (metrics_json_end json).0 ≡ out ++ codes "\n\t}\n}\n"
  unfolding metrics_json_end
  closed_text (some text, is_first) out e =
      ap (λ (t : Option Bytes). written t ++ codes "\n\t}\n}\n") e
  closed_text (none, is_first) out e = cc

  -- The report when the file is open and still empty.
  print_open-reported :
      (after : Stats D T) × (print_open F h env console_enabled args interval_ms s (some [])
        ≡ reported console_text metrics_text after)
      × (after.json_output ≡ none)
  unfolding print_open
  print_open-reported =
      let begun =
        metrics_json_begin F s.number_of_snapshots interval_ms s.initial_timestamp s.last_timestamp
          (prog_text s.prog_name) env.hostname
          (get_snapshot_duration F s.initial_timestamp s.last_timestamp) in
      let start : Printing D = record { arr = averaged; console = []; json = (some begun, true) } in
      let printing = print_blocks F env.qsort console_enabled (blocks F args) start in
      let texts = intercalate comma (block_texts F env.qsort (blocks F args) averaged) in
      let after = record s {
        table = store_all F h env s.table averaged;
        json_output = none;
        is_first_json_metric = true;
      } in
      (
        after,
        ap (λ (c : Bytes). reported c (written (metrics_json_end printing.json).0) after)
              (console-print_blocks F env.qsort console_enabled (blocks F args) averaged []
                (some begun, true))
            ∙ ap (λ (j : Bytes). reported console_text j after)
                (closed_text printing.json (begun ++ texts) (
                    json-print_blocks F env.qsort console_enabled (blocks F args) averaged [] begun)
                  ∙ append_assoc begun texts (codes "\n\t}\n}\n")),
        refl,
      )

  print_open-null : print_open F h env console_enabled args interval_ms s none ≡ null_file
  unfolding print_open
  print_open-null = refl

  -- What the report does, for a file that is not open before: nothing, where the module was not
  -- started, no process was sampled or malloc fails; otherwise a write through a null pointer, where
  -- the file is disabled, its path has no memory or fopen fails; otherwise, to the console if it is
  -- enabled, the tables of the requested metrics in their order, and into the file the head, the
  -- blocks of these metrics with a comma between each two, and the end, after which it is closed.
  pub process_stats_print_metrics-outcome :
      (json_enabled : Bool)
      → s.json_output ≡ none
      → (let report =
            process_stats_print_metrics F h env console_enabled json_enabled args interval_ms s in
          let skips =
            not s.is_module_initialized || (h.count s.table == 0 || not env.array_allocated) in
          let opens = json_enabled && env.path_allocated && env.file_opens in
          (skips ≡ true → report ≡ no_report)
          × (skips ≡ false → opens ≡ false → report ≡ null_file)
          × (skips ≡ false
              → opens ≡ true
              → (after : Stats D T) × (report ≡ reported console_text metrics_text after)
                × (after.json_output ≡ none)))
  unfolding process_stats_print_metrics
  process_stats_print_metrics-outcome json_enabled e =
      let a = not s.is_module_initialized in
      let b = h.count s.table == 0 || not env.array_allocated in
      let opens = json_enabled && env.path_allocated && env.file_opens in
      let file = open_metrics_file json_enabled env.path_allocated env.file_opens s.json_output in
      let printed = print_open F h env console_enabled args interval_ms s file in
      let branches = skip_tests a b no_report printed in
      let opened =
        open_metrics_file-opens json_enabled env.path_allocated env.file_opens s.json_output e in
      let r = print_open-reported in
      (
        branches.0,
        λ goes_on fails.
            branches.1 goes_on
            ∙ ap (print_open F h env console_enabled args interval_ms s) (opened.0 fails)
            ∙ print_open-null,
        λ goes_on works. (
          r.0,
          branches.1 goes_on
              ∙ ap (print_open F h env console_enabled args interval_ms s) (opened.1 works)
              ∙ r.1,
          r.2,
        ),
      )
