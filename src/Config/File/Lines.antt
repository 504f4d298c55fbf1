-- ===== src/Config/File/Lines.antt =====
-- Lines as the fgets of code/config/config.c and code/process_snapshot/process_snapshot.c reads them.
use linux_process_analyzer.Prelude.{
  ℕ, zero, suc, ◌<◌, ◌≡◌, refl, ap, false, [], ◌∷◌, ◌++◌, ◌==◌, All, arith, length,
}
use linux_process_analyzer.Prelude.Cstr.{Bytes}
use linux_process_analyzer.Config.File.{fgets, fgets_rest}

abbrev pub NoNewline : Bytes → Type 0
NoNewline = All (λ c. (c == b'\n') ≡ false)

-- fgets takes the first line and leaves the others.
pub fgets-line :
    (n : ℕ) (line rest : Bytes)
    → NoNewline line
    → length line < n
    → (fgets n (line ++ (b'\n' ∷ rest)) ≡ line ++ b'\n' ∷ [])
      × (fgets_rest n (line ++ (b'\n' ∷ rest)) ≡ rest)
unfolding fgets fgets_rest
fgets-line zero line rest h room = absurd (omega (arith, room))
fgets-line (suc n) [] rest h room = (refl, refl)
fgets-line (suc n) (c ∷ line) rest h room =
    let ih = fgets-line n line rest h.1 (omega (arith, room)) in
    (rw (h.0) (ap (◌∷◌ c) ih.0), rw (h.0) ih.1)
