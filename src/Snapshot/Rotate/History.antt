-- ===== src/Snapshot/Rotate/History.antt =====
-- What one output of code/process_snapshot/process_snapshot.c holds in all its files together, the
-- oldest first, and what a rotation without compression does to it.
use mathlib.Core.List.{append_assoc, append-nil}
use linux_process_analyzer.Prelude.{
  ℕ, zero, suc, ◌+◌, ◌≤◌, ◌<◌, ◌≡◌, refl, sym, ap, subst, ◌∙◌, Bool, true, false, not, Option, none,
  some, [], ◌++◌, if◌then◌else◌, if_cases, if_both, arith,
}
use linux_process_analyzer.Prelude.Int.{ltb_ℤ}
use linux_process_analyzer.Prelude.Cstr.{Bytes}
use linux_process_analyzer.Snapshot.Files.{Files, put, put_self, put-ne, size_of}
use linux_process_analyzer.Snapshot.Rotate.{
  numbered, Output, rotate_logs, or_empty, open_append, Settings, rotate_and_reopen,
  rotate_if_large,
}
use linux_process_analyzer.Snapshot.Rotate.Chain.{limit}
use linux_process_analyzer.Snapshot.Rotate.Names.{HasRoom, path-ne-numbered}
use linux_process_analyzer.Snapshot.Rotate.Shift.{rotate_logs_shift}

-- The bytes of a file; none where it is missing.
abbrev pub bytes_of : Option Bytes → Bytes
bytes_of none = []
bytes_of (some content) = content

-- The files path.n to path.1.
abbrev pub rotated_history : Bytes → ℕ → Files → Bytes
rotated_history path zero files = []
rotated_history path (suc n) files =
    bytes_of (files (numbered path (suc n))) ++ rotated_history path n files

-- And the file that is written.
abbrev pub history : Bytes → ℕ → Files → Bytes
history path n files = rotated_history path n files ++ bytes_of (files path)

pub rotated_history-cong :
    (path : Bytes) (n : ℕ) (before after : Files)
    → ((i : ℕ) → i ≤ n → after (numbered path i) ≡ before (numbered path i))
    → rotated_history path n after ≡ rotated_history path n before
rotated_history-cong path zero before after h = refl
rotated_history-cong path (suc n) before after h = rw (h (suc n) (omega arith)) (
    ap (λ (t : Bytes). bytes_of (before (numbered path (suc n))) ++ t)
      (rotated_history-cong path n before after (λ i small. h i (omega (arith, small)))))

rotated_history-shift :
    (path : Bytes) (m : ℕ) (before after : Files)
    → ((i : ℕ) → 1 ≤ i → i < suc m → after (numbered path (i + 1)) ≡ before (numbered path i))
    → after (numbered path 1) ≡ before path
    → rotated_history path (suc m) after ≡ rotated_history path m before ++ bytes_of (before path)
rotated_history-shift path zero before after h first =
    append-nil (bytes_of (after (numbered path 1))) ∙ ap bytes_of first
rotated_history-shift path (suc m) before after h first =
    let next : suc m + 1 ≡ suc (suc m) = omega arith in
    let top : after (numbered path (suc (suc m))) ≡ before (numbered path (suc m)) =
      ap (λ (k : ℕ). after (numbered path k)) (sym next) ∙ h (suc m) (omega arith) (omega arith) in
    ap (λ (o : Option Bytes). bytes_of o ++ rotated_history path (suc m) after) top
    ∙ ap (λ (t : Bytes). bytes_of (before (numbered path (suc m))) ++ t)
        (rotated_history-shift path m before after (λ i one more. h i one (omega (arith, more)))
          first)
    ∙ sym (
        append_assoc (bytes_of (before (numbered path (suc m)))) (rotated_history path m before)
          (bytes_of (before path)))

-- What a rotation drops: the file of the highest number.
abbrev pub dropped : Bytes → ℕ → Files → Bytes
dropped path max files = bytes_of (files (numbered path max))

module _ (path : Bytes) (room : HasRoom path) (faults : Bytes → Bytes → Bool)
    (fine : (a b : Bytes) → faults a b ≡ false) where
  rotate_logs-history :
      (max time : ℕ) (o : Output)
      → 1 ≤ max
      → max < limit
      → (let after = rotate_logs faults false max time path o in
          (history path max o.files
            ≡ dropped path max o.files ++ rotated_history path max after.files)
          × (after.files path ≡ none))
  rotate_logs-history zero time o one small = absurd (omega (arith, one))
  rotate_logs-history (suc m) time o one small =
      let s = rotate_logs_shift faults fine path room (suc m) time o (omega arith) small in
      let after = rotate_logs faults false (suc m) time path o in
      (
        append_assoc (dropped path (suc m) o.files) (rotated_history path m o.files)
              (bytes_of (o.files path))
            ∙ ap (λ (t : Bytes). dropped path (suc m) o.files ++ t)
                (sym (rotated_history-shift path m o.files after.files s.0 s.1)),
        s.2,
      )

  -- A write to the path does not touch the files that were rotated.
  pub rotated_history-put :
      (n : ℕ) (content : Option Bytes) (files : Files)
      → n < limit
      → rotated_history path n (put path content files) ≡ rotated_history path n files
  rotated_history-put n content files small =
      rotated_history-cong path n files (put path content files) (λ i low.
        put-ne path (numbered path i) content files
          (path-ne-numbered path room i (omega (arith, low, small))))

-- How an output stands after a rotation or none: it is open, its file is there, and the history
-- has lost `lost` from its beginning.
pub record Continues (path : Bytes) (max : ℕ) (before : Files) (lost : Bytes) (r : Bool × Output)
    : Type 0 where
  pub content : Bytes
  pub kept : history path max before ≡ lost ++ history path max r.1.files
  pub is_open : r.0 ≡ true
  pub present : r.1.files path ≡ some content

-- A file that has reached the limit is rotated, and then the oldest is lost.
abbrev pub lost_by : Settings → Bytes → Files → Bytes
lost_by c path files =
    if not (ltb_ℤ (size_of (files path)) c.max_file_size_bytes)
    then dropped path c.max_number_of_files files
    else []

module _ (c : Settings) (time : ℕ) (path : Bytes) (room : HasRoom path)
    (fine : (a b : Bytes) → c.faults a b ≡ false) (plain : c.compression_enabled ≡ false)
    (one : 1 ≤ c.max_number_of_files) (small : c.max_number_of_files < limit) where
  abbrev rotated : Output → Output
  rotated o = rotate_logs c.faults c.compression_enabled c.max_number_of_files time path o

  rotated-history :
      (o : Output)
      → (history path c.max_number_of_files o.files
          ≡ dropped path c.max_number_of_files o.files
            ++ rotated_history path c.max_number_of_files (rotated o).files)
        × ((rotated o).files path ≡ none)
  rotated-history o =
      subst
        (λ (b : Bool).
          let after = rotate_logs c.faults b c.max_number_of_files time path o in
          (history path c.max_number_of_files o.files
            ≡ dropped path c.max_number_of_files o.files
              ++ rotated_history path c.max_number_of_files after.files)
          × (after.files path ≡ none))
        (sym plain)
        (rotate_logs-history path room c.faults fine c.max_number_of_files time o one small)

  reopened-Continues :
      (o : Output)
      → Continues path c.max_number_of_files o.files
          (dropped path c.max_number_of_files o.files)
          (true, record (rotated o) { files = put path (some []) (rotated o).files })
  reopened-Continues o =
      let max = c.max_number_of_files in
      let files = (rotated o).files in
      let after = put path (some []) files in
      let h = rotated-history o in
      let same : history path max after ≡ rotated_history path max files =
        ap (λ (t : Option Bytes). rotated_history path max after ++ bytes_of t)
          (put_self path (some []) files)
        ∙ append-nil (rotated_history path max after)
        ∙ rotated_history-put path room c.faults fine max (some []) files small in
      record {
        content = [];
        kept = h.0 ∙ ap (λ (t : Bytes). dropped path max o.files ++ t) (sym same);
        is_open = refl;
        present = put_self path (some []) files;
      }

  rotate_and_reopen-Continues :
      (o : Output)
      → c.opens path ≡ true
      → Continues path c.max_number_of_files o.files
          (dropped path c.max_number_of_files o.files)
          (rotate_and_reopen c time path o)
  unfolding rotate_and_reopen open_append
  rotate_and_reopen-Continues o opens =
      let h = rotated-history o in
      if_cases
        (Continues path c.max_number_of_files o.files (dropped path c.max_number_of_files o.files))
        (c.opens path) _ _
        (λ e.
          subst
            (λ (t : Option Bytes).
              Continues path c.max_number_of_files o.files
                (dropped path c.max_number_of_files o.files)
                (true, record (rotated o) { files = put path (or_empty t) (rotated o).files }))
            (sym h.1) (reopened-Continues o))
        (λ e. cc (opens, e))

  pub rotate_if_large-Continues :
      (o : Output) (content : Bytes)
      → c.opens path ≡ true
      → o.files path ≡ some content
      → Continues path c.max_number_of_files o.files
          (lost_by c path o.files)
          (rotate_if_large c time path (true, o))
  unfolding rotate_if_large
  rotate_if_large-Continues o content opens e =
      if_both (λ l r. Continues path c.max_number_of_files o.files l r)
        (not (ltb_ℤ (size_of (o.files path)) c.max_file_size_bytes))
        (dropped path c.max_number_of_files o.files) [] (rotate_and_reopen c time path o) (true, o)
        (λ large. rotate_and_reopen-Continues o opens)
        (λ below. record { content = content; kept = refl; is_open = refl; present = e })
