-- ===== src/Compression/Dots.antt =====
-- The extensions of a path: each that `extract_base_path` of code/compression/compression_worker.c
-- takes off has one dot, so the names of a job are different.
use linux_process_analyzer.Prelude.{
  ℕ, ◌+◌, ◌≡◌, ◌≢◌, refl, ap, ◌||◌, Option, none, some, [], ◌∷◌, ◌++◌, ◌==◌, if◌then◌else◌,
  if_cases, arith, length, leb,
}
use linux_process_analyzer.Prelude.Cstr.{Bytes, codes, split_last}
use linux_process_analyzer.Config.{path_max}
use linux_process_analyzer.Compression.{
  cut_at, without_extension, and_then_without, extract_base_path,
}

-- The number of dots.
unfoldable pub dots : Bytes → ℕ
dots [] = 0
dots (c ∷ cs) = (if c == b'.' then 1 else 0) + dots cs

pub dots_append : (a b : Bytes) → dots (a ++ b) ≡ dots a + dots b
unfolding dots
dots_append [] b = omega arith
dots_append (c ∷ a) b = rw (dots_append a b) (omega arith)

abbrev CutDots : ℕ → Option (Bytes × Bytes) → Type 0
CutDots n none = n ≡ 0
CutDots n (some (before, behind)) = n ≡ dots before + 1

split_last-CutDots : (path : Bytes) → CutDots (dots path) (split_last b'.' path)
unfolding split_last dots
split_last-CutDots [] = refl
split_last-CutDots (c ∷ cs) =
    elim (split_last b'.' cs)
        as (λ o.
          CutDots (dots cs) o
          → CutDots ((if c == b'.' then 1 else 0) + dots cs) (elim o [
            | none ↦ if c == b'.' then some ([], cs) else none
            | some (a, b) ↦ some (c ∷ a, b)
          ])) [
            | none ↦ λ h.
                if_cases
                  (λ (o : Option (Bytes × Bytes)).
                    CutDots ((if c == b'.' then 1 else 0) + dots cs) o)
                  (c == b'.') (some ([], cs)) none (λ e. ground (arith, e, h))
                  (λ e. ground (arith, e, h))
            | some (a, b) ↦ λ h. omega (arith, h)
          ]
      (split_last-CutDots cs)

abbrev pub Fewer : ℕ → ℕ → Option Bytes → Type 0
Fewer k n none = Unit
Fewer k n (some base) = n ≡ dots base + k

cut_at-Fewer :
    (k m n : ℕ) (o : Option (Bytes × Bytes)) → n ≡ m + k → CutDots m o → Fewer (k + 1) n (cut_at o)
unfolding cut_at
cut_at-Fewer k m n none e h = tt
cut_at-Fewer k m n (some (a, b)) e h = omega (arith, h)

and_then_without-Fewer :
    (k n : ℕ) (o : Option Bytes) → Fewer k n o → Fewer (k + 1) n (and_then_without o)
unfolding and_then_without without_extension
and_then_without-Fewer k n none h = tt
and_then_without-Fewer k n (some base) h =
    cut_at-Fewer k (dots base) n (split_last b'.' base) h (split_last-CutDots base)

pub extract_base_path-Fewer : (path : Bytes) → Fewer 3 (dots path) (extract_base_path path)
unfolding extract_base_path without_extension
extract_base_path-Fewer path =
    if_cases (Fewer 3 (dots path)) (length path == 0 || leb path_max (length path)) none
      (and_then_without (and_then_without (without_extension path))) (λ e. tt)
      (λ e. and_then_without-Fewer 2 (dots path) (and_then_without (without_extension path)) (
        and_then_without-Fewer 1 (dots path) (without_extension path) (
          cut_at-Fewer 0 (dots path) (dots path) (split_last b'.' path) (omega arith)
            (split_last-CutDots path))))

pub dots-ne : (a b : Bytes) → dots a ≢ dots b → a ≢ b
dots-ne a b h e = h (ap dots e)

-- The names of the original, the temporary and the final file differ.
abbrev pub Apart : Bytes → Bytes → Type 0
Apart path base =
    (path ≢ path ++ codes ".gz")
    × (path ≢ base ++ codes ".1.gz")
    × (path ++ codes ".gz" ≢ base ++ codes ".1.gz")

pub dots-Apart : (path base : Bytes) → dots path ≡ dots base + 3 → Apart path base
unfolding dots
dots-Apart path base h =
    let g = dots_append path (codes ".gz") in
    let f = dots_append base (codes ".1.gz") in
    (
      dots-ne path _ (λ e. absurd (omega (arith, e, g))),
      dots-ne path _ (λ e. absurd (omega (arith, e, f, h))),
      dots-ne _ _ (λ e. absurd (omega (arith, e, f, g, h))),
    )
