-- ===== src/Snapshot/Rotate/Chain.antt =====
-- The loop of `rotate_logs` in code/process_snapshot/process_snapshot.c: a chain of numbered names
-- moves one number up.
use linux_process_analyzer.Prelude.{
  ℕ, zero, suc, ◌+◌, ◌≤◌, ◌<◌, ◌≡◌, ◌≢◌, refl, sym, ap, subst, ◌∙◌, inl, inr, Bool, none, arith,
  ◌==◌, ==_iff, Bool-cases,
}
use linux_process_analyzer.Prelude.Cstr.{Bytes}
use linux_process_analyzer.Snapshot.Files.{Files}
use linux_process_analyzer.Snapshot.Rotate.{rotate_one, rotate_from}

-- More rotations than any int counts.
abbrev pub limit : ℕ
limit = 10000000000

-- The file `name i` moves one number up, and no other file changes but those that `aux` names.
pub record Moved (name aux : ℕ → Bytes) (i : ℕ) (before after : Files) : Type 0 where
  pub to : after (name (i + 1)) ≡ before (name i)
  pub from : after (name i) ≡ none
  pub others :
      (q : Bytes) → q ≢ name i → q ≢ name (i + 1) → q ≢ aux i → q ≢ aux (i + 1) → after q ≡ before q

-- The files `name 1` to `name n` each move one number up, so that `name 1` is free, and no other
-- file changes but those that `aux` names.
pub record Shifted (name aux : ℕ → Bytes) (n : ℕ) (before after : Files) : Type 0 where
  pub to : (j : ℕ) → 1 ≤ j → j ≤ n → after (name (j + 1)) ≡ before (name j)
  pub from : after (name 1) ≡ none
  pub others :
      (q : Bytes)
      → ((j : ℕ) → 1 ≤ j → j ≤ n + 1 → q ≢ name j)
      → ((j : ℕ) → 1 ≤ j → j ≤ n + 1 → q ≢ aux j)
      → after q ≡ before q

abbrev pub Differ : (ℕ → Bytes) → (ℕ → Bytes) → Type 0
Differ a b = (i j : ℕ) → i < limit → j < limit → i ≢ j → a i ≢ b j

next : (i : ℕ) → i + 1 ≡ suc i
next i = omega arith

module _ (name aux : ℕ → Bytes) (ne : Differ name name) (ne' : Differ name aux) where
  shift_step :
      (i : ℕ) (before middle after : Files)
      → i + 2 < limit
      → Moved name aux (suc i) before middle
      → Shifted name aux i middle after
      → Shifted name aux (suc i) before after
  shift_step i before middle after small m ih =
      let last : after (name (suc i + 1)) ≡ before (name (suc i)) =
        ih.others (name (suc i + 1))
          (λ k low high. ne (suc i + 1) k (omega arith) (omega arith) (λ e. absurd (omega arith)))
          (λ k low high. ne' (suc i + 1) k (omega arith) (omega arith) (λ e. absurd (omega arith)))
        ∙ m.to in
      record {
        to = λ j low high. elim (Bool-cases (j == suc i)) [
          | inl e ↦
              subst (λ (k : ℕ). after (name (k + 1)) ≡ before (name k))
                (sym ((==_iff j (suc i)).0 e)) last
          | inr e ↦
              ih.to j low (ground arith)
              ∙ m.others (name j)
                  (ne j (suc i) (omega arith) (omega arith) (λ h. absurd (ground arith)))
                  (ne j (suc i + 1) (omega arith) (omega arith) (λ h. absurd (omega arith)))
                  (ne' j (suc i) (omega arith) (omega arith) (λ h. absurd (ground arith)))
                  (ne' j (suc i + 1) (omega arith) (omega arith) (λ h. absurd (omega arith)))
        ];
        from = ih.from;
        others = λ q away away'.
            ih.others q (λ j low high. away j low (omega arith))
              (λ j low high. away' j low (omega arith))
            ∙ m.others q (away (suc i) (omega arith) (omega arith))
                (away (suc i + 1) (omega arith) (omega arith))
                (away' (suc i) (omega arith) (omega arith))
                (away' (suc i + 1) (omega arith) (omega arith));
      }

  module _ (faults : Bytes → Bytes → Bool) (compression_enabled : Bool) (path : Bytes)
      (one : (i : ℕ) (files : Files)
        → i + 1 < limit
        → files (name (i + 1)) ≡ none
        → Moved name aux i files (rotate_one faults compression_enabled path i files)) where
    pub rotate_from-Shifted :
        (n : ℕ) (files : Files)
        → n + 1 < limit
        → files (name (n + 1)) ≡ none
        → Shifted name aux n files (rotate_from faults compression_enabled path n files)
    unfolding rotate_from
    rotate_from-Shifted zero files small free = record {
      to = λ j low high. absurd (omega arith);
      from = free;
      others = λ q away away'. refl;
    }
    rotate_from-Shifted (suc i) files small free =
        let m = one (suc i) files (omega arith) free in
        let middle = rotate_one faults compression_enabled path (suc i) files in
        shift_step i files middle _ (omega arith) m (
          rotate_from-Shifted i middle (omega arith)
            (ap (λ (k : ℕ). middle (name k)) (next i) ∙ m.from))
