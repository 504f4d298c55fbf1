-- ===== src/Snapshot/Collect/Selected.antt =====
-- Which processes a snapshot hands to the statistics and to the JSON lines.
use linux_process_analyzer.Prelude.{
  ℕ, ◌≡◌, refl, sym, ap, subst, ◌∙◌, Bool, true, false, not, ◌&&◌, ◌||◌, ◌==◌, Option, none, some,
  List, [], ◌∷◌, ◌++◌, map, if◌then◌else◌, arith, length,
}
use linux_process_analyzer.Prelude.Int.{pos_part}
use linux_process_analyzer.Prelude.Cstr.{Bytes}
use linux_process_analyzer.Prelude.Strto.{is_nil}
use linux_process_analyzer.Args.{PidWhitelist}
use linux_process_analyzer.Args.Numbers.Tokens.{all_digits}
use linux_process_analyzer.Args.Whitelist.{has_pid, has_comm}
use linux_process_analyzer.Config.{atoi}
use linux_process_analyzer.Stats.{Float, ProcessStateInput, ProcessTable, Stats}
use linux_process_analyzer.Stats.Update.History.{run}
use linux_process_analyzer.Snapshot.Filter.{is_filtering_enabled}
use linux_process_analyzer.Snapshot.Filter.Matches.{
  is_numeric-eq, is_pid_in_filter-eq, is_comm_in_filter-eq,
}
use linux_process_analyzer.Snapshot.Proc.{read_fd}
use linux_process_analyzer.Snapshot.Collect.{
  Surroundings, Collected, write, json_line, log_data, write_output_to_json, take_process, filtered,
  read_process, process_at, collect_entry, collect_entries,
}

abbrev pub is_empty {ℓ} : {A : Type ℓ} → List A → Bool
is_empty [] = true
is_empty (x ∷ xs) = false

-- No filter is given, or one of them names the process.
abbrev pub passes : PidWhitelist → ℕ → Bytes → Bool
passes w pid comm =
    (is_empty w.filter_comms && is_empty w.filter_pids)
    || (not (is_nil comm) && has_comm comm w.filter_comms)
    || has_pid pid w.filter_pids

module _ {D : Type 0} (e : Surroundings D) (w : PidWhitelist) where
  -- A directory whose name is a number, and that is not the program's own unless it is included.
  abbrev pub is_process : Bool → Bytes → Bool
  is_process is_directory name =
      is_directory
      && not (is_nil name)
      && all_digits name
      && (e.include_self || not (pos_part (atoi name) == e.self))

  abbrev pub kept : ℕ → Option (ProcessStateInput D) → List (ProcessStateInput D)
  kept pid none = []
  kept pid (some i) = if passes w pid i.comm then read_fd (e.proc pid).fd i ∷ [] else []

  -- The inputs of one snapshot, in the order of the directory.
  abbrev pub inputs : List (Bool × Bytes) → List (ProcessStateInput D)
  inputs [] = []
  inputs ((is_directory, name) ∷ entries) =
      let pid = pos_part (atoi name) in
      (if is_process is_directory name then kept pid (process_at e pid) else []) ++ inputs entries

zero_length : {A : Type 0} (xs : List A) → (length xs == 0) ≡ is_empty xs
zero_length [] = refl
zero_length (x ∷ xs) = ground arith

is_filtering_enabled-eq :
    (w : PidWhitelist)
    → is_filtering_enabled w ≡ not (is_empty w.filter_comms && is_empty w.filter_pids)
unfolding is_filtering_enabled
is_filtering_enabled-eq w =
    rw (zero_length w.filter_comms, zero_length w.filter_pids) (ground arith)

-- The tests of the loop, each with its `continue`, as one test.
filter_tests :
    {A : Type 0} (a b c : Bool) (x y : A)
    → (if not a then if not b && not c then x else y else y) ≡ (if a || b || c then y else x)
filter_tests a b c x y = ground arith

entry_tests :
    {A : Type 0} (a b c d k : Bool) (x y : A)
    → (if not a then x else if not (b && c) then x else if not d then if k then x else y else y)
      ≡ (if a && b && c && (d || not k) then y else x)
entry_tests a b c d k x y = ground arith

module _ {D T : Type 0} (F : Float D) (h : ProcessTable D T) (e : Surroundings D)
    (w : PidWhitelist) where
  filtered-passes :
      (pid : ℕ) (i : ProcessStateInput D) (c : Collected D T)
      → filtered F h e w pid i c
        ≡ (if passes w pid i.comm then take_process F h e w (read_fd (e.proc pid).fd i) c else c)
  unfolding filtered
  filtered-passes pid i c =
      rw (is_filtering_enabled-eq w, is_comm_in_filter-eq i.comm w, is_pid_in_filter-eq pid w)
        (filter_tests (is_empty w.filter_comms && is_empty w.filter_pids)
          (not (is_nil i.comm) && has_comm i.comm w.filter_comms) (has_pid pid w.filter_pids) c
          (take_process F h e w (read_fd (e.proc pid).fd i) c))

  abbrev pub lines_written : List (ProcessStateInput D) → Option Bytes → Option Bytes
  lines_written [] o = o
  lines_written (i ∷ is) o = lines_written is (write (json_line i) o)

  abbrev pub events : List (ProcessStateInput D) → List (Bool × ProcessStateInput D)
  events = map (λ i. (e.alloc, i))

  abbrev Feeds : List (ProcessStateInput D) → Collected D T → Collected D T → Type 0
  Feeds is before after =
      (after.stats ≡ run F h (events is) before.stats)
      × (after.jsonl ≡ lines_written is before.jsonl)

  run-append :
      (is js : List (ProcessStateInput D)) (s : Stats D T)
      → run F h (events (is ++ js)) s ≡ run F h (events js) (run F h (events is) s)
  run-append [] js s = refl
  run-append (i ∷ is) js s = run-append is js _

  lines_written-append :
      (is js : List (ProcessStateInput D)) (o : Option Bytes)
      → lines_written (is ++ js) o ≡ lines_written js (lines_written is o)
  lines_written-append [] js o = refl
  lines_written-append (i ∷ is) js o = lines_written-append is js _

  Feeds-append :
      (is js : List (ProcessStateInput D)) (a b c : Collected D T)
      → Feeds is a b
      → Feeds js b c
      → Feeds (is ++ js) a c
  Feeds-append is js a b c p q = (
    q.0 ∙ ap (run F h (events js)) p.0 ∙ sym (run-append is js a.stats),
    q.1 ∙ ap (lines_written js) p.1 ∙ sym (lines_written-append is js a.jsonl),
  )

  take_process-Feeds :
      (i : ProcessStateInput D) (c : Collected D T) → Feeds (i ∷ []) c (take_process F h e w i c)
  unfolding take_process log_data write_output_to_json
  take_process-Feeds i c = (refl, refl)

  Feeds-if :
      (b : Bool) (is : List (ProcessStateInput D)) (c x : Collected D T)
      → Feeds is c x
      → Feeds (if b then is else []) c (if b then x else c)
  Feeds-if true is c x f = f
  Feeds-if false is c x f = (refl, refl)

  read_process-Feeds :
      (pid : ℕ) (o : Option (ProcessStateInput D)) (c : Collected D T)
      → Feeds (kept e w pid o) c (read_process F h e w pid o c)
  unfolding read_process
  read_process-Feeds pid none c = (refl, refl)
  read_process-Feeds pid (some i) c =
      let full = read_fd (e.proc pid).fd i in
      subst (λ x. Feeds (kept e w pid (some i)) c x) (sym (filtered-passes pid i c))
        (Feeds-if (passes w pid i.comm) (full ∷ []) c (take_process F h e w full c)
          (take_process-Feeds full c))

  collect_entry-is_process :
      (is_directory : Bool) (name : Bytes) (c : Collected D T)
      → (let pid = pos_part (atoi name) in
          collect_entry F h e w is_directory name c ≡ (
            if is_process e w is_directory name
            then read_process F h e w pid (process_at e pid) c
            else c))
  unfolding collect_entry
  collect_entry-is_process is_directory name c =
      let pid = pos_part (atoi name) in
      rw (is_numeric-eq name) (
        entry_tests is_directory (not (is_nil name)) (all_digits name) e.include_self
          (pid == e.self) c (read_process F h e w pid (process_at e pid) c))

  collect_entry-Feeds :
      (is_directory : Bool) (name : Bytes) (c : Collected D T)
      → (let pid = pos_part (atoi name) in
          Feeds
            (if is_process e w is_directory name then kept e w pid (process_at e pid) else [])
            c
            (collect_entry F h e w is_directory name c))
  collect_entry-Feeds is_directory name c =
      let pid = pos_part (atoi name) in
      let is = kept e w pid (process_at e pid) in
      subst (λ x. Feeds (if is_process e w is_directory name then is else []) c x)
        (sym (collect_entry-is_process is_directory name c))
        (Feeds-if (is_process e w is_directory name) is c
          (read_process F h e w pid (process_at e pid) c)
          (read_process-Feeds pid (process_at e pid) c))

  -- Whatever the directory lists, the loop hands to the statistics, and writes as JSON lines, the
  -- same inputs in the order of the directory: those of the directories whose name is a number and
  -- not the program's own, unless it is included, that could be read and pass the filters.
  pub collect_entries-inputs :
      (entries : List (Bool × Bytes)) (c : Collected D T)
      → (let after = collect_entries F h e w entries c in
          (after.stats ≡ run F h (events (inputs e w entries)) c.stats)
          × (after.jsonl ≡ lines_written (inputs e w entries) c.jsonl))
  unfolding collect_entries
  collect_entries-inputs [] c = (refl, refl)
  collect_entries-inputs ((is_directory, name) ∷ entries) c =
      let pid = pos_part (atoi name) in
      Feeds-append
        (if is_process e w is_directory name then kept e w pid (process_at e pid) else [])
        (inputs e w entries) c (collect_entry F h e w is_directory name c)
        (collect_entries F h e w entries (collect_entry F h e w is_directory name c))
        (collect_entry-Feeds is_directory name c)
        (collect_entries-inputs entries (collect_entry F h e w is_directory name c))
