-- ===== src/Snapshot/Run/Appended.antt =====
-- What the end of a snapshot in code/process_snapshot/process_snapshot.c appends to the JSON file.
use mathlib.Core.List.{append_assoc}
use linux_process_analyzer.Prelude.{
  ℕ, ◌+◌, ◌<◌, ◌≡◌, refl, sym, ap, subst, ◌∙◌, Bool, true, false, Option, some, ◌∷◌, ◌++◌, if_cases,
  arith, length,
}
use linux_process_analyzer.Prelude.Cstr.{Bytes}
use linux_process_analyzer.Prelude.Strto.{decimal}
use linux_process_analyzer.Config.{path_max}
use linux_process_analyzer.Snapshot.Files.{Files, put, put_self, put-ne}
use linux_process_analyzer.Snapshot.Rotate.{numbered, Settings, log_path, jsonl_path}
use linux_process_analyzer.Snapshot.Rotate.Chain.{limit}
use linux_process_analyzer.Snapshot.Rotate.Names.{HasRoom}
use linux_process_analyzer.Snapshot.Rotate.Away.{Begins}
use linux_process_analyzer.Snapshot.Rotate.Paths.{
  log_prefix, jsonl_prefix, log_path-itself, jsonl_path-itself, jsonl_path-Begins,
  length-jsonl_path, prefixes-differ,
}
use linux_process_analyzer.Snapshot.Rotate.History.{
  history, rotated_history, bytes_of, rotated_history-cong, rotated_history-put,
}
use linux_process_analyzer.Snapshot.Run.{flushed}

module _ (c : Settings) (room : length c.output_dir + 26 < path_max)
    (small : c.max_number_of_files < limit) where
  abbrev pub max : ℕ
  max = c.max_number_of_files

  abbrev pub jsonl : Bytes
  jsonl = jsonl_path c

  pub dir_room : length c.output_dir + 20 < path_max
  dir_room = omega (arith, room)

  pub jsonl-HasRoom : HasRoom jsonl
  jsonl-HasRoom = omega (arith, length-jsonl_path c dir_room, room)

  -- The history of the JSON files looks only at names with their prefix.
  pub history-cong :
      (before after : Files)
      → ((q : Bytes) → Begins (jsonl_prefix c dir_room) q → after q ≡ before q)
      → history jsonl max after ≡ history jsonl max before
  unfolding numbered
  history-cong before after h =
      ap (λ (o : Option Bytes). rotated_history jsonl max after ++ bytes_of o)
        (h jsonl (jsonl_path-itself c dir_room))
      ∙ ap (λ (t : Bytes). t ++ bytes_of (before jsonl))
          (rotated_history-cong jsonl max before after
            (λ i low. h (numbered jsonl i) (jsonl_path-Begins c dir_room _)))

  pub log-apart :
      (is_open : Bool) (text : Option Bytes) (files : Files) (q : Bytes)
      → Begins (jsonl_prefix c dir_room) q
      → flushed is_open (log_path c) text files q ≡ files q
  log-apart is_open text files q b =
      if_cases (λ (f : Files). f q ≡ files q) is_open (put (log_path c) text files) files
        (λ e. put-ne (log_path c) q text files (λ x. absurd (
          prefixes-differ c dir_room q
            (subst (Begins (log_prefix c dir_room)) x (log_path-itself c dir_room)) b)))
        (λ e. refl)

  -- What is appended to the two open files is appended to the history.
  pub flushed-history :
      (log_open : Bool) (log_text : Option Bytes) (content text : Bytes) (files : Files)
      → files jsonl ≡ some content
      → (let after =
            flushed true jsonl
              (some (content ++ text))
              (flushed log_open (log_path c) log_text files) in
          (history jsonl max files ++ text ≡ history jsonl max after)
          × (after jsonl ≡ some (content ++ text)))
  unfolding numbered
  flushed-history log_open log_text content text files e =
      let logged = flushed log_open (log_path c) log_text files in
      let written = some (content ++ text) in
      let after = put jsonl written logged in
      let rot = rotated_history jsonl max files in
      let same : rotated_history jsonl max after ≡ rot =
        rotated_history-put jsonl jsonl-HasRoom (λ a b. false) (λ a b. refl) max written logged
          small
        ∙ rotated_history-cong jsonl max files logged (λ i low.
          log-apart log_open log_text files (numbered jsonl i)
            (jsonl_path-Begins c dir_room (b'.' ∷ decimal i))) in
      (
        ap (λ (o : Option Bytes). (rot ++ bytes_of o) ++ text) e
            ∙ append_assoc rot content text
            ∙ ap (λ (t : Bytes). t ++ (content ++ text)) (sym same)
            ∙ ap (λ (o : Option Bytes). rotated_history jsonl max after ++ bytes_of o)
                (sym (put_self jsonl written logged)),
        put_self jsonl written logged,
      )
