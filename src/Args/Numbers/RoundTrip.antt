-- ===== src/Args/Numbers/RoundTrip.antt =====
-- What `printf` writes, the argument parsers read back.
use mathlib.Core.List.{append-nil}
use native.Mathlib.Numerals.{add-one}
use linux_process_analyzer.Prelude.{
  ℕ, zero, suc, ◌+◌, ◌*◌, ◌/◌, ◌%◌, ◌^◌, ◌≤◌, ◌<◌, ◌≡◌, refl, ap, ◌∙◌, inl, inr, true, false, ◌||◌,
  none, some, leb, length, length-append, [], ◌∷◌, ◌++◌, All, arith, ltb, ◌==◌, if◌then◌else◌,
  Bool-cases,
}
use linux_process_analyzer.Prelude.Cstr.{Bytes, codes, str_eq, is_space, is_digit, skip_space}
use linux_process_analyzer.Prelude.Strto.{
  Strto, strtol, is_nil, value_of, digit_prefix, digit_rest, minus_sign, after_sign, saturate_long,
  digits_onto, decimal,
}
use linux_process_analyzer.Prelude.Int.{ℤ}
use linux_process_analyzer.Args.Numbers.{int_max, parse_integer_arg, parse_duration_ms}

abbrev pub IsDigit : ℕ → Type 0
IsDigit c = (48 ≤ c) × (c ≤ 57)

value_of-digits_onto :
    (f n : ℕ) (tail : Bytes) → n < f → value_of 0 (digits_onto f n tail) ≡ value_of n tail
unfolding digits_onto value_of
value_of-digits_onto zero n tail h = absurd (omega arith)
value_of-digits_onto (suc f) n tail h = elim (Bool-cases (n / 10 == 0)) [
  | inl last ↦ rw last (ap (λ (v : ℕ). value_of v tail) (ground arith))
  | inr more ↦ rw more (
      value_of-digits_onto f (n / 10) ((48 + n % 10) ∷ tail) (ground arith)
      ∙ ap (λ (v : ℕ). value_of v tail) (omega arith))
]

digits_onto-IsDigit :
    (f n : ℕ) (tail : Bytes) → All IsDigit tail → All IsDigit (digits_onto f n tail)
unfolding digits_onto
digits_onto-IsDigit zero n tail h = h
digits_onto-IsDigit (suc f) n tail h = elim (Bool-cases (n / 10 == 0)) [
  | inl last ↦ rw last ((omega arith, omega arith), h)
  | inr more ↦
      rw more
        (digits_onto-IsDigit f (n / 10) ((48 + n % 10) ∷ tail) ((omega arith, omega arith), h))
]

pub value_of-decimal : (n : ℕ) → value_of 0 (decimal n) ≡ n
unfolding decimal
value_of-decimal n = value_of-digits_onto (n + 1) n [] (omega arith) ∙ (unfold value_of in refl)

pub decimal-IsDigit : (n : ℕ) → All IsDigit (decimal n)
unfolding decimal
decimal-IsDigit n = digits_onto-IsDigit (n + 1) n [] tt

digits_onto-ne-nil : (f n : ℕ) (tail : Bytes) → is_nil (digits_onto (suc f) n tail) ≡ false
unfolding digits_onto
digits_onto-ne-nil zero n tail = ground arith
digits_onto-ne-nil (suc f) n tail = elim (Bool-cases (n / 10 == 0)) [
  | inl last ↦ rw last refl
  | inr more ↦ rw more (digits_onto-ne-nil f (n / 10) ((48 + n % 10) ∷ tail))
]

pub decimal-ne-nil : (n : ℕ) → is_nil (decimal n) ≡ false
unfolding decimal
decimal-ne-nil n = rw add-one (digits_onto-ne-nil n n [])

pub digit_prefix-append :
    (ds rest : Bytes) → All IsDigit ds → digit_prefix rest ≡ [] → digit_prefix (ds ++ rest) ≡ ds
unfolding digit_prefix is_digit
digit_prefix-append [] rest h e = e
digit_prefix-append (d ∷ ds) rest h e = ground (arith, digit_prefix-append ds rest h.1 e)

pub digit_rest-append :
    (ds rest : Bytes) → All IsDigit ds → digit_rest (ds ++ rest) ≡ digit_rest rest
unfolding digit_rest is_digit
digit_rest-append [] rest h = refl
digit_rest-append (d ∷ ds) rest h = ground (arith, digit_rest-append ds rest h.1)

-- A text that begins with a digit has no white space and no sign in front.
pub starts_with_digit :
    (d : ℕ) (ds : Bytes)
    → IsDigit d
    → (skip_space (d ∷ ds) ≡ d ∷ ds)
      × (minus_sign (d ∷ ds) ≡ false)
      × (after_sign (d ∷ ds) ≡ d ∷ ds)
unfolding skip_space is_space minus_sign after_sign
starts_with_digit d ds h = ground arith

abbrev read : Bytes → Bytes → Strto ℤ
read ds rest = record {
  value = (saturate_long false (value_of 0 ds)).0;
  range_error = (saturate_long false (value_of 0 ds)).1;
  converted = true;
  rest = digit_rest rest;
}

pub strtol-digits :
    (ds rest : Bytes)
    → is_nil ds ≡ false
    → All IsDigit ds
    → digit_prefix rest ≡ []
    → strtol (ds ++ rest) ≡ read ds rest
strtol-digits [] rest ne h e = cc
strtol-digits (d ∷ ds) rest ne h e =
    let (a, b, c) = starts_with_digit d (ds ++ rest) h.0 in
    unfold strtol in
    rw (a, b, c, digit_prefix-append (d ∷ ds) rest h e, digit_rest-append (d ∷ ds) rest h)

pub strtol-decimal :
    (n : ℕ) (rest : Bytes)
    → digit_prefix rest ≡ []
    → strtol (decimal n ++ rest) ≡ record {
      value = (saturate_long false n).0;
      range_error = (saturate_long false n).1;
      converted = true;
      rest = digit_rest rest;
    }
strtol-decimal n rest e =
    strtol-digits (decimal n) rest (decimal-ne-nil n) (decimal-IsDigit n) e ∙ rw value_of-decimal

-- The decimal text of any number n is accepted as an integer argument exactly when
-- 0 < n ≤ INT_MAX, and is read back as n.
pub parse_integer_arg-decimal :
    (n : ℕ) → parse_integer_arg (decimal n) ≡ (if n == 0 || ltb int_max n then none else some n)
parse_integer_arg-decimal n =
    let e = strtol-decimal n [] (unfold digit_prefix in refl) in
    unfold parse_integer_arg digit_rest saturate_long in
    rw (← append-nil (decimal n)) (rw e (ground arith))

pub data DurationUnit : Type 0 where
  milliseconds seconds minutes : DurationUnit

abbrev pub suffix : DurationUnit → Bytes
suffix milliseconds = codes "ms"
suffix seconds = codes "s"
suffix minutes = codes "m"

abbrev pub factor : DurationUnit → ℕ
factor milliseconds = 1
factor seconds = 1000
factor minutes = 60000

length-append-suffix :
    (ds : Bytes) (u : DurationUnit) → is_nil ds ≡ false → ltb (length (ds ++ suffix u)) 2 ≡ false
length-append-suffix [] u h = cc
length-append-suffix (d ∷ ds) milliseconds h =
    ground (arith, length-append ds (suffix milliseconds))
length-append-suffix (d ∷ ds) seconds h = ground (arith, length-append ds (suffix seconds))
length-append-suffix (d ∷ ds) minutes h = ground (arith, length-append ds (suffix minutes))

-- The text of a number n with a unit is accepted as a duration exactly when 0 < n < 2^63, and is
-- read as n times the unit's milliseconds, reduced modulo 2^64.
pub parse_duration_ms-decimal :
    (n : ℕ) (u : DurationUnit)
    → parse_duration_ms (decimal n ++ suffix u)
      ≡ (if n == 0 || leb (2 ^ 63) n then none else some (n * factor u % 2 ^ 64))
parse_duration_ms-decimal n milliseconds =
    unfold parse_duration_ms digit_rest saturate_long str_eq in
    rw (length-append-suffix (decimal n) milliseconds (decimal-ne-nil n))
      (rw (strtol-decimal n (suffix milliseconds) (unfold digit_prefix in refl)) (ground arith))
parse_duration_ms-decimal n seconds =
    unfold parse_duration_ms digit_rest saturate_long str_eq in
    rw (length-append-suffix (decimal n) seconds (decimal-ne-nil n))
      (rw (strtol-decimal n (suffix seconds) (unfold digit_prefix in refl)) (ground arith))
parse_duration_ms-decimal n minutes =
    unfold parse_duration_ms digit_rest saturate_long str_eq in
    rw (length-append-suffix (decimal n) minutes (decimal-ne-nil n))
      (rw (strtol-decimal n (suffix minutes) (unfold digit_prefix in refl)) (ground arith))
