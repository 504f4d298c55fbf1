-- ===== src/Stats/Report/Json.antt =====
-- The metrics part of metrics.json: the blocks of the requested metrics, with a comma between
-- each two.
use mathlib.Core.List.{append-nil, append_assoc}
use linux_process_analyzer.Prelude.{
  ◌≡◌, ◌∙◌, inl, inr, Bool, true, false, some, List, [], ◌∷◌, ◌++◌, if◌then◌else◌, Bool-cases,
}
use linux_process_analyzer.Prelude.Cstr.{Bytes, codes}
use linux_process_analyzer.Stats.{Float, ProcessState}
use linux_process_analyzer.Stats.Metrics.{g_metrics, json_block, write_metric_block_json}
use linux_process_analyzer.Stats.Report.{Qsort, shown, print_block, print_blocks}
use linux_process_analyzer.Stats.Report.Blocks.{Block}

abbrev pub comma : Bytes
comma = codes ",\n"

abbrev pub each_behind : Bytes → List Bytes → Bytes
each_behind sep [] = []
each_behind sep (t ∷ ts) = sep ++ (t ++ each_behind sep ts)

-- The texts with the separator between each two.
abbrev pub intercalate : Bytes → List Bytes → Bytes
intercalate sep [] = []
intercalate sep (t ∷ ts) = t ++ each_behind sep ts

module _ {D : Type 0} (F : Float D) (qsort : Qsort D) where
  -- The text of each requested block, of the array as the earlier blocks left it.
  abbrev pub block_texts : List (Block D) → List (ProcessState D) → List Bytes
  block_texts [] arr = []
  block_texts (b ∷ bs) arr =
      if b.requested
      then json_block F (g_metrics b.index) (shown qsort b arr)
        ∷ block_texts bs (qsort b.compare arr)
      else block_texts bs arr

  module _ (console_enabled : Bool) where
    later_blocks :
        (bs : List (Block D)) (arr : List (ProcessState D)) (console out : Bytes)
        → (print_blocks F qsort console_enabled bs
            (record { arr = arr; console = console; json = (some out, false) })).json.0
          ≡ some (out ++ each_behind comma (block_texts bs arr))
    unfolding print_blocks print_block write_metric_block_json
    later_blocks [] arr console out = rw append-nil
    later_blocks (b ∷ bs) arr console out = elim (Bool-cases b.requested) [
      | inl asked ↦ rw asked (later_blocks bs (qsort b.compare arr) _ _ ∙ simp append_assoc)
      | inr not_asked ↦ rw not_asked (later_blocks bs arr console out)
    ]

    -- With the file open and no block written yet, the blocks append to it the texts of the
    -- requested metrics in the order of the source, a comma and a newline between each two, and
    -- nothing before the first or behind the last.
    pub json-print_blocks :
        (bs : List (Block D)) (arr : List (ProcessState D)) (console out : Bytes)
        → (print_blocks F qsort console_enabled bs
            (record { arr = arr; console = console; json = (some out, true) })).json.0
          ≡ some (out ++ intercalate comma (block_texts bs arr))
    unfolding print_blocks print_block write_metric_block_json
    json-print_blocks [] arr console out = rw append-nil
    json-print_blocks (b ∷ bs) arr console out = elim (Bool-cases b.requested) [
      | inl asked ↦ rw asked (later_blocks bs (qsort b.compare arr) _ _ ∙ simp append_assoc)
      | inr not_asked ↦ rw not_asked (json-print_blocks bs arr console out)
    ]
