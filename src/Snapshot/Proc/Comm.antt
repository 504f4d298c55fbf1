-- ===== src/Snapshot/Proc/Comm.antt =====
-- The name of a process in the line that the kernel writes for it.
use linux_process_analyzer.Prelude.{
  ℕ, ◌≡◌, refl, ap, ◌∙◌, false, none, some, [], ◌∷◌, ◌++◌, ◌==◌, All, arith, take,
}
use linux_process_analyzer.Prelude.Cstr.{Bytes, split_first, split_last}
use linux_process_analyzer.Prelude.Strto.{decimal}
use linux_process_analyzer.Args.Numbers.RoundTrip.{IsDigit, decimal-IsDigit}
use linux_process_analyzer.Snapshot.Proc.{comm_bytes, comm_of, from_lparen, within}

split_first-digits :
    (ds rest : Bytes)
    → All IsDigit ds
    → split_first b'(' (ds ++ (b' ' ∷ b'(' ∷ rest)) ≡ some (ds ++ b' ' ∷ [], rest)
unfolding split_first
split_first-digits [] rest h = refl
split_first-digits (d ∷ ds) rest h = rw (split_first-digits ds rest h.1) (ground arith)

abbrev pub NoClose : Bytes → Type 0
NoClose = All (λ c. (c == b')') ≡ false)

split_last-absent : (s : Bytes) → NoClose s → split_last b')' s ≡ none
unfolding split_last
split_last-absent [] h = refl
split_last-absent (c ∷ s) h = rw (split_last-absent s h.1) (rw (h.0) refl)

split_last-close :
    (s behind : Bytes) → NoClose behind → split_last b')' (s ++ (b')' ∷ behind)) ≡ some (s, behind)
unfolding split_last
split_last-close [] behind h = rw (split_last-absent behind h) refl
split_last-close (c ∷ s) behind h = rw (split_last-close s behind h) refl

-- In a line "<pid> (<name>)<rest>", where the rest has no closing parenthesis, the name is read
-- whole up to 63 bytes, whatever parentheses and spaces it has, and the rest follows it.
pub comm_of-line :
    (pid : ℕ) (comm behind : Bytes)
    → NoClose behind
    → comm_of (decimal pid ++ (b' ' ∷ b'(' ∷ (comm ++ (b')' ∷ behind))))
      ≡ some (take comm_bytes comm, behind)
unfolding comm_of from_lparen within
comm_of-line pid comm behind h =
    ap from_lparen
      (split_first-digits (decimal pid) (comm ++ (b')' ∷ behind)) (decimal-IsDigit pid))
    ∙ ap (within (decimal pid ++ b' ' ∷ []) (comm ++ (b')' ∷ behind)))
        (split_last-close comm behind h)
