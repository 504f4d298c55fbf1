-- ===== src/Snapshot/Proc/Line.antt =====
-- The lines that the kernel prints in /proc/<pid>, for code/process_snapshot/process_snapshot.c.
use linux_process_analyzer.Prelude.{
  ℕ, zero, suc, ◌+◌, ◌≤◌, ◌≡◌, refl, ap, false, List, [], ◌∷◌, ◌++◌, ◌==◌, All, All-append, arith,
  length,
}
use linux_process_analyzer.Prelude.Int.{ℤ, pos, negsuc}
use linux_process_analyzer.Prelude.Cstr.{Bytes}
use linux_process_analyzer.Prelude.Strto.{decimal, decimal_ℤ}
use linux_process_analyzer.Args.Numbers.RoundTrip.{IsDigit, decimal-IsDigit}
use linux_process_analyzer.Config.File.Lines.{NoNewline}
use linux_process_analyzer.Config.File.{fgets}
use linux_process_analyzer.Snapshot.Proc.Comm.{NoClose}
use linux_process_analyzer.Snapshot.Proc.Fields.{fields}

-- The whole text is one line, which fgets returns where the buffer has room.
abbrev pub Whole : Bytes → Type 0
Whole s = (n : ℕ) → length s ≤ n → fgets n s ≡ s

pub Whole-append : (a s : Bytes) → NoNewline a → Whole s → Whole (a ++ s)
unfolding fgets
Whole-append [] s h w n room = w n room
Whole-append (c ∷ a) s h w zero room = absurd (omega (arith, room))
Whole-append (c ∷ a) s h w (suc n) room =
    rw (h.0) (ap (◌∷◌ c) (Whole-append a s h.1 w n (omega (arith, room))))

pub newline-Whole : Whole (b'\n' ∷ [])
unfolding fgets
newline-Whole zero h = absurd (omega (arith, h))
newline-Whole (suc n) h = refl

module _ (P : ℕ → Type 0) (of_digit : (c : ℕ) → IsDigit c → P c) where
  pub All-digits : (ds : Bytes) → All IsDigit ds → All P ds
  All-digits [] h = tt
  All-digits (d ∷ ds) h = (of_digit d h.0, All-digits ds h.1)

  module _ (minus : P b'-') (space : P b' ') where
    All-decimal_ℤ : (v : ℤ) → All P (decimal_ℤ v)
    unfolding decimal_ℤ
    All-decimal_ℤ (pos n) = All-digits (decimal n) (decimal-IsDigit n)
    All-decimal_ℤ (negsuc n) = (minus, All-digits (decimal (n + 1)) (decimal-IsDigit (n + 1)))

    All-fields : (vs : List ℤ) (tail : Bytes) → All P tail → All P (fields vs tail)
    All-fields [] tail h = h
    All-fields (v ∷ vs) tail h = (
      space,
      All-append P (decimal_ℤ v) (fields vs tail) (All-decimal_ℤ v) (All-fields vs tail h),
    )

Whole-fields : (vs : List ℤ) (s : Bytes) → Whole s → Whole (fields vs s)
Whole-fields [] s w = w
Whole-fields (v ∷ vs) s w =
    Whole-append (b' ' ∷ decimal_ℤ v) (fields vs s)
      (refl, All-decimal_ℤ (λ c. (c == b'\n') ≡ false) (λ c h. ground arith) refl refl v)
      (Whole-fields vs s w)

-- "<pid> (<name>) <state> <values>" with further values behind those that are read.
unfoldable pub stat_line : ℕ → Bytes → ℕ → List ℤ → List ℤ → Bytes
stat_line pid comm state vs more =
    decimal pid
    ++ (b' ' ∷ b'(' ∷ (comm ++ (b')' ∷ b' ' ∷ state ∷ fields vs (fields more (b'\n' ∷ [])))))

module _ (pid : ℕ) (comm : Bytes) (state : ℕ) (vs more : List ℤ) where
  pub stat_line-Whole :
      NoNewline comm → (state == b'\n') ≡ false → Whole (stat_line pid comm state vs more)
  unfolding stat_line
  stat_line-Whole h s =
      let values = fields vs (fields more (b'\n' ∷ [])) in
      Whole-append (decimal pid) _
        (All-digits (λ c. (c == b'\n') ≡ false) (λ c d. ground arith) (decimal pid)
          (decimal-IsDigit pid))
        (Whole-append (b' ' ∷ b'(' ∷ []) _ (refl, (refl, tt))
          (Whole-append comm _ h (
            Whole-append (b')' ∷ b' ' ∷ state ∷ []) values (refl, (refl, (s, tt)))
              (Whole-fields vs _ (Whole-fields more (b'\n' ∷ []) newline-Whole)))))

  pub behind-NoClose :
      (state == b')') ≡ false → NoClose (b' ' ∷ state ∷ fields vs (fields more (b'\n' ∷ [])))
  behind-NoClose s =
      let of_digit : (c : ℕ) → IsDigit c → (c == b')') ≡ false = λ c d. ground arith in
      (
        refl,
        (
          s,
          All-fields (λ c. (c == b')') ≡ false) of_digit refl refl vs _
              (All-fields (λ c. (c == b')') ≡ false) of_digit refl refl more _ (refl, tt)),
        ),
      )
