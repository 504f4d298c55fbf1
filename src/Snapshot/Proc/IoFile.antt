-- ===== src/Snapshot/Proc/IoFile.antt =====
-- The file /proc/<pid>/io: what the kernel prints, `read_proc_io` of
-- code/process_snapshot/process_snapshot.c reads back.
use mathlib.Core.List.{append_assoc}
use linux_process_analyzer.Prelude.{
  ℕ, zero, suc, ◌/◌, ◌^◌, ◌≤◌, ◌<◌, ◌≡◌, refl, sym, ap, subst, ◌∙◌, Bool, true, false, none, some,
  List, [], ◌∷◌, ◌++◌, ◌==◌, if◌then◌else◌, All, All-append, arith, length, length-append,
}
use linux_process_analyzer.Prelude.Cstr.{Bytes, codes, str_eq, str_eq_iff, is_digit}
use linux_process_analyzer.Prelude.Strto.{decimal, digit_prefix, saturate_ullong, Strto}
use linux_process_analyzer.Args.Numbers.RoundTrip.{
  decimal-IsDigit, decimal-ne-nil, value_of-decimal,
}
use linux_process_analyzer.Config.File.Lines.{NoNewline, fgets-line}
use linux_process_analyzer.Config.File.{fgets, fgets_rest}
use linux_process_analyzer.Snapshot.Proc.{
  io_line_bytes, behind_prefix, scanned_number, scan_kbytes, on_io_line, read_io_lines,
  read_proc_io,
}
use linux_process_analyzer.Snapshot.Proc.Line.{All-digits}
use linux_process_analyzer.Snapshot.Proc.Fields.{strtoull-positive}

abbrev pub NoColon : Bytes → Type 0
NoColon = All (λ c. (c == b':') ≡ false)

-- "<name>: <value>"
abbrev pub io_line : Bytes → ℕ → Bytes
io_line name value = name ++ (b':' ∷ b' ' ∷ (decimal value ++ b'\n' ∷ []))

pub io_text : List (Bytes × ℕ) → Bytes
io_text [] = []
io_text ((name, value) ∷ es) = io_line name value ++ io_text es

behind_prefix-name :
    (p name rest : Bytes)
    → NoColon p
    → NoColon name
    → behind_prefix (p ++ b':' ∷ []) (name ++ (b':' ∷ rest))
      ≡ (if str_eq p name then some rest else none)
unfolding behind_prefix str_eq
behind_prefix-name [] [] rest h k = refl
behind_prefix-name [] (c ∷ name) rest h k = ground (arith, k.0)
behind_prefix-name (b ∷ p) [] rest h k = ground (arith, h.0)
behind_prefix-name (b ∷ p) (c ∷ name) rest h k =
    ground (arith, behind_prefix-name p name rest h.1 k.1)

scanned-decimal :
    (v : ℕ) → v < 2 ^ 64 → scanned_number (some (b' ' ∷ (decimal v ++ b'\n' ∷ []))) ≡ some v
unfolding scanned_number digit_prefix is_digit saturate_ullong
scanned-decimal v h =
    ap (λ (r : Strto ℕ). if r.converted then some r.value else none)
      (strtoull-positive (decimal v) (b'\n' ∷ []) (decimal-ne-nil v) (decimal-IsDigit v) refl)
    ∙ rw (value_of-decimal v) (ground (arith, h))

-- The kilobytes of the last line with the name, or what was there before.
unfoldable pub last_value : Bytes → List (Bytes × ℕ) → ℕ → ℕ
last_value name [] before = before
last_value name ((n, v) ∷ es) before =
    last_value name es (if str_eq name n then v / 1024 else before)

scan_kbytes-line :
    (p name : Bytes) (v : ℕ)
    → NoColon p
    → NoColon name
    → v < 2 ^ 64
    → scan_kbytes (p ++ b':' ∷ []) (io_line name v) ≡ (if str_eq p name then some v else none)
unfolding scan_kbytes scanned_number
scan_kbytes-line p name v h k small =
    ap scanned_number (behind_prefix-name p name (b' ' ∷ (decimal v ++ b'\n' ∷ [])) h k)
    ∙ ground (arith, scanned-decimal v small)

-- Names without a colon or a newline, values of 64 bits, and lines that fit the buffer.
abbrev pub Printable : List (Bytes × ℕ) → Type 0
Printable [] = Unit
Printable ((name, v) ∷ es) =
    NoColon name
    × NoNewline name
    × (v < 2 ^ 64)
    × (length (io_line name v) ≤ io_line_bytes)
    × Printable es

line_body : (name : Bytes) (v : ℕ) → NoNewline name → NoNewline (name ++ (b':' ∷ b' ' ∷ decimal v))
line_body name v h =
    All-append (λ c. (c == b'\n') ≡ false) name (b':' ∷ b' ' ∷ decimal v) h
      (
        refl,
        (
          refl,
          All-digits (λ c. (c == b'\n') ≡ false) (λ c d. ground arith) (decimal v)
              (decimal-IsDigit v),
        ),
      )

line_split :
    (name : Bytes) (v : ℕ) (rest : Bytes)
    → io_line name v ++ rest ≡ (name ++ (b':' ∷ b' ' ∷ decimal v)) ++ (b'\n' ∷ rest)
line_split name v rest = simp append_assoc

length-io_line :
    (name : Bytes) (v : ℕ) (rest : Bytes) → length rest < length (io_line name v ++ rest)
length-io_line name v rest = omega (
  arith,
  length-append (io_line name v) rest,
  length-append name (b':' ∷ b' ' ∷ (decimal v ++ b'\n' ∷ [])),
)

first_line :
    (name : Bytes) (v : ℕ) (rest : Bytes)
    → NoNewline name
    → length (io_line name v) ≤ io_line_bytes
    → (fgets io_line_bytes (io_line name v ++ rest) ≡ io_line name v)
      × (fgets_rest io_line_bytes (io_line name v ++ rest) ≡ rest)
first_line name v rest n short =
    let body = name ++ (b':' ∷ b' ' ∷ decimal v) in
    let whole : io_line name v ≡ body ++ b'\n' ∷ [] = simp append_assoc in
    let room : length body < io_line_bytes =
      omega (arith, ap length whole, length-append body (b'\n' ∷ []), short) in
    let f = fgets-line io_line_bytes body rest (line_body name v n) room in
    (
      ap (fgets io_line_bytes) (line_split name v rest) ∙ f.0 ∙ sym whole,
      ap (fgets_rest io_line_bytes) (line_split name v rest) ∙ f.1,
    )

read_bytes-NoColon : NoColon (codes "read_bytes")
read_bytes-NoColon = ground arith

write_bytes-NoColon : NoColon (codes "write_bytes")
write_bytes-NoColon = ground arith

read_io_lines-step :
    (fuel : ℕ) (text : Bytes) (kbytes : ℕ × ℕ)
    → 0 < length text
    → read_io_lines (suc fuel) text kbytes
      ≡ read_io_lines fuel (fgets_rest io_line_bytes text) (
          on_io_line
            (scan_kbytes (codes "read_bytes:") (fgets io_line_bytes text))
            (scan_kbytes (codes "write_bytes:") (fgets io_line_bytes text))
            kbytes)
unfolding read_io_lines
read_io_lines-step fuel [] kbytes h = absurd (omega (arith, h))
read_io_lines-step fuel (c ∷ cs) kbytes h = refl

on_line_tests :
    (a b : Bool) (v r w : ℕ)
    → (a ≡ true → b ≡ false)
    → on_io_line (if a then some v else none) (if b then some v else none) (r, w)
      ≡ (if a then v / 1024 else r, if b then v / 1024 else w)
unfolding on_io_line
on_line_tests true true v r w h = cc (h refl)
on_line_tests true false v r w h = refl
on_line_tests false true v r w h = refl
on_line_tests false false v r w h = refl

-- No name is that of both numbers.
read-ne-write :
    (name : Bytes)
    → str_eq (codes "read_bytes") name ≡ true
    → str_eq (codes "write_bytes") name ≡ false
unfolding str_eq
read-ne-write name e =
    subst (λ (n : Bytes). str_eq (codes "write_bytes") n ≡ false)
      ((str_eq_iff (codes "read_bytes") name).0 e) refl

-- One line of the file: the number whose name it has is set.
on_printed :
    (name : Bytes) (v r w : ℕ)
    → NoColon name
    → v < 2 ^ 64
    → on_io_line
        (scan_kbytes (codes "read_bytes:") (io_line name v))
        (scan_kbytes (codes "write_bytes:") (io_line name v))
        (r, w)
      ≡ (
        if str_eq (codes "read_bytes") name then v / 1024 else r,
        if str_eq (codes "write_bytes") name then v / 1024 else w,
      )
on_printed name v r w k small =
    rw
      (
        scan_kbytes-line (codes "read_bytes") name v read_bytes-NoColon k small,
        scan_kbytes-line (codes "write_bytes") name v write_bytes-NoColon k small,
      )
      (on_line_tests (str_eq (codes "read_bytes") name) (str_eq (codes "write_bytes") name) v r w
        (read-ne-write name))

read_io_lines-text :
    (fuel : ℕ) (es : List (Bytes × ℕ)) (r w : ℕ)
    → Printable es
    → length (io_text es) ≤ fuel
    → read_io_lines fuel (io_text es) (r, w)
      ≡ (last_value (codes "read_bytes") es r, last_value (codes "write_bytes") es w)
unfolding read_io_lines io_text last_value
read_io_lines-text zero [] r w h room = refl
read_io_lines-text (suc fuel) [] r w h room = refl
read_io_lines-text zero ((name, v) ∷ es) r w h room =
    absurd (omega (arith, room, length-io_line name v (io_text es)))
read_io_lines-text (suc fuel) ((name, v) ∷ es) r w (k, n, small, short, rest) room =
    let first = first_line name v (io_text es) n short in
    let longer = length-io_line name v (io_text es) in
    let after = λ (line others : Bytes). read_io_lines fuel others (
      on_io_line (scan_kbytes (codes "read_bytes:") line) (scan_kbytes (codes "write_bytes:") line)
        (r, w)) in
    read_io_lines-step fuel (io_line name v ++ io_text es) (r, w) (omega (arith, longer))
    ∙ ap (λ (line : Bytes). after line (fgets_rest io_line_bytes (io_line name v ++ io_text es)))
        first.0
    ∙ ap (λ (others : Bytes). after (io_line name v) others) first.1
    ∙ ap (λ (kbytes : ℕ × ℕ). read_io_lines fuel (io_text es) kbytes)
        (on_printed name v r w k small)
    ∙ read_io_lines-text fuel es (if str_eq (codes "read_bytes") name then v / 1024 else r)
        (if str_eq (codes "write_bytes") name then v / 1024 else w) rest
        (omega (arith, longer, room))

-- Of the file that the kernel prints the values of the lines "read_bytes" and "write_bytes" are
-- read, in kilobytes, and those of no other line, also not where another name ends in these; a name
-- that is missing counts 0, and of two lines with one name the last holds.
pub read_proc_io-text :
    (es : List (Bytes × ℕ))
    → Printable es
    → read_proc_io (some (io_text es))
      ≡ some (last_value (codes "read_bytes") es 0, last_value (codes "write_bytes") es 0)
unfolding read_proc_io
read_proc_io-text es h =
    ap (λ (k : ℕ × ℕ). some k) (read_io_lines-text (length (io_text es)) es 0 0 h (omega arith))
