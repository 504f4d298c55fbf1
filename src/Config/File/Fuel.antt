-- ===== src/Config/File/Fuel.antt =====
-- The rounds and the end of the loop in `parse_config_file` of code/config/config.c.
use linux_process_analyzer.Prelude.{
  ℕ, zero, suc, ◌≤◌, ◌≡◌, refl, Option, none, some, [], ◌∷◌, length, arith,
}
use linux_process_analyzer.Prelude.Cstr.{Bytes}
use linux_process_analyzer.Config.{ConfigStatus, config_success, config_error_parse, Config}
use linux_process_analyzer.Config.File.{
  fgets, fgets_rest, line_bytes, parse_line, on_line, parse_lines, parse_config_file, readable,
}

length-fgets_rest : (n : ℕ) (s : Bytes) → length (fgets_rest n s) ≤ length s
unfolding fgets_rest
length-fgets_rest zero s = omega arith
length-fgets_rest (suc n) [] = omega arith
length-fgets_rest (suc n) (c ∷ cs) = ground (arith, length-fgets_rest n cs)

fgets_rest-shorter : (n c : ℕ) (cs : Bytes) → length (fgets_rest (suc n) (c ∷ cs)) ≤ length cs
unfolding fgets_rest
fgets_rest-shorter n c cs = ground (arith, length-fgets_rest n cs)

pub on_line-cong :
    (failed : ConfigStatus × Config) (o : Option Config) (k l : Config → ConfigStatus × Config)
    → ((c : Config) → k c ≡ l c)
    → on_line failed o k ≡ on_line failed o l
on_line-cong failed none k l h = refl
on_line-cong failed (some c) k l h = h c

-- The runs of the loop `while (fgets(line, sizeof(line), f))` from a configuration and the text that
-- is left, written without a count of rounds: it ends at the end of the text or at a bad line.
pub data LineLoop : Config → Bytes → ConfigStatus × Config → Type 0 where
  at_end : (c : Config) → LineLoop c [] (config_success, c)
  bad_line :
      (c : Config) (x : ℕ) (xs : Bytes)
      → parse_line c (fgets line_bytes (x ∷ xs)) ≡ none
      → LineLoop c (x ∷ xs) (config_error_parse, c)
  next_line :
      (c d : Config) (x : ℕ) (xs : Bytes) (r : ConfigStatus × Config)
      → parse_line c (fgets line_bytes (x ∷ xs)) ≡ some d
      → LineLoop d (fgets_rest line_bytes (x ∷ xs)) r
      → LineLoop c (x ∷ xs) r

on_line-LineLoop :
    (f : ℕ) (c : Config) (x : ℕ) (xs : Bytes) (o : Option Config)
    → parse_line c (fgets line_bytes (x ∷ xs)) ≡ o
    → ((d : Config)
        → LineLoop d
            (fgets_rest line_bytes (x ∷ xs))
            (parse_lines f d (fgets_rest line_bytes (x ∷ xs))))
    → LineLoop c
        (x ∷ xs)
        (on_line (config_error_parse, c) o λ d. parse_lines f d (fgets_rest line_bytes (x ∷ xs)))
on_line-LineLoop f c x xs none e h = bad_line c x xs e
on_line-LineLoop f c x xs (some d) e h = next_line c d x xs _ e (h d)

parse_lines-LineLoop :
    (f : ℕ) (c : Config) (s : Bytes) → length s ≤ f → LineLoop c s (parse_lines f c s)
unfolding parse_lines
parse_lines-LineLoop f c [] h = at_end c
parse_lines-LineLoop zero c (x ∷ xs) h = absurd (omega arith)
parse_lines-LineLoop (suc f) c (x ∷ xs) h =
    let shorter = fgets_rest-shorter 510 x xs in
    on_line-LineLoop f c x xs (parse_line c (fgets line_bytes (x ∷ xs))) refl
      (λ d. parse_lines-LineLoop f d (fgets_rest line_bytes (x ∷ xs)) (omega (arith, shorter)))

-- The result of a run is determined by where it begins.
LineLoop-unique :
    (f : ℕ) (c : Config) (s : Bytes) (r : ConfigStatus × Config)
    → length s ≤ f
    → LineLoop c s r
    → r ≡ parse_lines f c s
unfolding parse_lines
LineLoop-unique f c [] r h (at_end _) = refl
LineLoop-unique zero c (x ∷ xs) r h run = absurd (omega arith)
LineLoop-unique (suc f) c (x ∷ xs) r h (bad_line _ _ _ e) = rw e refl
LineLoop-unique (suc f) c (x ∷ xs) r h (next_line _ d _ _ _ e run) =
    let shorter = fgets_rest-shorter 510 x xs in
    rw e (LineLoop-unique f d (fgets_rest line_bytes (x ∷ xs)) r (omega (arith, shorter)) run)

-- The loop over the lines of a readable file ends, whatever the text is: from each configuration a
-- finite run of it leads to the result of the parse, and to no other result.
pub parse_config_file-LineLoop :
    (text : Bytes) (c : Config)
    → LineLoop c text (parse_config_file (readable text) c)
      × ((r : ConfigStatus × Config) → LineLoop c text r → r ≡ parse_config_file (readable text) c)
unfolding parse_config_file
parse_config_file-LineLoop text c = (
  parse_lines-LineLoop (length text) c text (omega arith),
  λ r run. LineLoop-unique (length text) c text r (omega arith) run,
)
