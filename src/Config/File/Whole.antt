-- ===== src/Config/File/Whole.antt =====
-- A whole configuration file of code/config/config.c: pairs, comments and blank lines.
use mathlib.Core.List.{append_assoc, append-nil}
use linux_process_analyzer.Prelude.{
  ℕ, zero, suc, ◌≤◌, ◌<◌, ◌≡◌, refl, sym, ap, ◌∙◌, true, Option, some, List, [], ◌∷◌, ◌++◌,
  All-append, arith, length, length-append,
}
use linux_process_analyzer.Prelude.Cstr.{Bytes, is_space, skip_space, trim_end}
use linux_process_analyzer.Config.{
  ConfigStatus, config_success, config_error_parse, Config, config_set_option,
}
use linux_process_analyzer.Config.File.{
  fgets, fgets_rest, line_bytes, trim, parse_trimmed, parse_line, on_line, parse_lines, readable,
  parse_config_file,
}
use linux_process_analyzer.Config.File.Fuel.{on_line-cong}
use linux_process_analyzer.Config.File.Lines.{NoNewline, fgets-line}
use linux_process_analyzer.Config.File.RoundTrip.{
  IsBlank, IsKey, skip_space-blank, trim_end-cons, trim-eq, parse_line-pair,
}

-- A line without its newline: white space, white space with a comment, or a pair with white space
-- before the key and behind it.
pub data Item : Type 0 where
  blank : Bytes → Item
  comment : Bytes → Bytes → Item
  pair : Bytes → Bytes → Bytes → Bytes → Item

abbrev pub body : Item → Bytes
body (blank space) = space
body (comment space text) = space ++ (b'#' ∷ text)
body (pair before key behind value) = before ++ (key ++ (behind ++ (b'=' ∷ value)))

abbrev IsItem : Item → Type 0
IsItem (blank space) = IsBlank space
IsItem (comment space text) = IsBlank space
IsItem (pair before key behind value) = IsBlank before × IsKey key × IsBlank behind

-- Lines of these forms that fit the buffer.
abbrev pub AreItems : List Item → Type 0
AreItems [] = Unit {0}
AreItems (i ∷ is) = IsItem i × NoNewline (body i) × (length (body i) < line_bytes) × AreItems is

pub file_text : List Item → Bytes
file_text [] = []
file_text (i ∷ is) = body i ++ (b'\n' ∷ file_text is)

-- What the items do to a configuration, one after the other, up to the first that is refused.
pub set_items : List Item → Config → ConfigStatus × Config
set_items [] c = (config_success, c)
set_items (blank space ∷ is) c = set_items is c
set_items (comment space text ∷ is) c = set_items is c
set_items (pair before key behind value ∷ is) c =
    on_line (config_error_parse, c) (config_set_option c key (trim (value ++ b'\n' ∷ [])))
      (set_items is)

newline-IsBlank : IsBlank (b'\n' ∷ [])
unfolding is_space
newline-IsBlank = (refl, tt)

trim-blank : (space : Bytes) → IsBlank space → trim space ≡ []
unfolding skip_space trim_end
trim-blank space h =
    trim-eq space
    ∙ ap (λ (s : Bytes). trim_end (skip_space s)) (sym (append-nil space))
    ∙ ap trim_end (skip_space-blank space [] h)

trim-comment :
    (space text : Bytes) → IsBlank space → trim (space ++ (b'#' ∷ text)) ≡ b'#' ∷ trim_end text
unfolding skip_space is_space
trim-comment space text h =
    trim-eq (space ++ (b'#' ∷ text))
    ∙ ap trim_end (skip_space-blank space (b'#' ∷ text) h)
    ∙ trim_end-cons b'#' text refl

pair-newline :
    (before key behind value : Bytes)
    → (before ++ (key ++ (behind ++ (b'=' ∷ value)))) ++ b'\n' ∷ []
      ≡ before ++ (key ++ (behind ++ (b'=' ∷ (value ++ b'\n' ∷ []))))
pair-newline before key behind value = simp append_assoc

-- What a line does.
abbrev effect : Item → Config → Option Config
effect (blank space) c = some c
effect (comment space text) c = some c
effect (pair before key behind value) c = config_set_option c key (trim (value ++ b'\n' ∷ []))

parse_line-item :
    (c : Config) (i : Item) → IsItem i → parse_line c (body i ++ b'\n' ∷ []) ≡ effect i c
unfolding parse_line parse_trimmed
parse_line-item c (blank space) h = ap (parse_trimmed c) (
    trim-blank (space ++ b'\n' ∷ [])
      (All-append (λ b. is_space b ≡ true) space (b'\n' ∷ []) h newline-IsBlank))
parse_line-item c (comment space text) h =
    ap (parse_line c) (append_assoc space (b'#' ∷ text) (b'\n' ∷ []))
    ∙ ap (parse_trimmed c) (trim-comment space (text ++ b'\n' ∷ []) h)
parse_line-item c (pair before key behind value) h =
    ap (parse_line c) (pair-newline before key behind value)
    ∙ parse_line-pair key h.1 c before behind (value ++ b'\n' ∷ []) h.0 h.2

set_items-effect :
    (i : Item) (is : List Item) (c : Config)
    → set_items (i ∷ is) c ≡ on_line (config_error_parse, c) (effect i c) (set_items is)
unfolding set_items
set_items-effect (blank space) is c = refl
set_items-effect (comment space text) is c = refl
set_items-effect (pair before key behind value) is c = refl

parse_lines-step :
    (fuel : ℕ) (c : Config) (text : Bytes)
    → 0 < length text
    → parse_lines (suc fuel) c text
      ≡ on_line
          (config_error_parse, c)
          (parse_line c (fgets line_bytes text))
          (λ d. parse_lines fuel d (fgets_rest line_bytes text))
unfolding parse_lines
parse_lines-step fuel c [] h = absurd (omega (arith, h))
parse_lines-step fuel c (x ∷ xs) h = refl

parse_lines-set_items :
    (fuel : ℕ) (is : List Item) (c : Config)
    → AreItems is
    → length (file_text is) ≤ fuel
    → parse_lines fuel c (file_text is) ≡ set_items is c
unfolding parse_lines file_text set_items
parse_lines-set_items zero [] c h room = refl
parse_lines-set_items (suc fuel) [] c h room = refl
parse_lines-set_items zero (i ∷ is) c h room =
    absurd (omega (arith, room, length-append (body i) (b'\n' ∷ file_text is)))
parse_lines-set_items (suc fuel) (i ∷ is) c h room =
    let text = body i ++ (b'\n' ∷ file_text is) in
    let longer = length-append (body i) (b'\n' ∷ file_text is) in
    let first = fgets-line line_bytes (body i) (file_text is) h.1 h.2 in
    parse_lines-step fuel c text (omega (arith, longer))
    ∙ ap
        (λ (line : Bytes).
          on_line (config_error_parse, c) (parse_line c line)
            (λ d. parse_lines fuel d (fgets_rest line_bytes text)))
        first.0
    ∙ ap
        (λ (o : Option Config).
          on_line (config_error_parse, c) o (λ d. parse_lines fuel d (fgets_rest line_bytes text)))
        (parse_line-item c i h.0)
    ∙ on_line-cong (config_error_parse, c) (effect i c) _ (set_items is)
        (λ d.
          ap (parse_lines fuel d) first.1
          ∙ parse_lines-set_items fuel is d h.3 (omega (arith, longer, room)))
    ∙ sym (set_items-effect i is c)

-- A file of pairs, comments and blank lines, with white space wherever it is allowed and lines that
-- fit the buffer, sets the options of its pairs one after the other to their trimmed values, up to
-- the first that is refused, where it fails.
pub parse_config_file-set_items :
    (is : List Item) (c : Config)
    → AreItems is
    → parse_config_file (readable (file_text is)) c ≡ set_items is c
unfolding parse_config_file
parse_config_file-set_items is c h =
    parse_lines-set_items (length (file_text is)) is c h (omega arith)
