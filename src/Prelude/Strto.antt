-- ===== src/Prelude/Strto.antt =====
-- Decimal numbers of the C library: strtol, strtoull, atoi and printf's %d, %u and %lu.
use Prim.Native.Nat.{ℕ, zero, suc, ◌+◌, ◌-◌, ◌*◌, ◌/◌, ◌%◌, ◌^◌}
use mathlib.Core.Bool.{Bool, true, false, not}
use mathlib.Core.List.{[], ◌∷◌}
use linux_process_analyzer.Prelude.Tests.{ltb, leb, ◌==◌, if◌then◌else◌}
use linux_process_analyzer.Prelude.Int.{ℤ, pos, negsuc}
use linux_process_analyzer.Prelude.Cstr.{Bytes, is_digit, skip_space}

-- The number that a digit string stands for, read on from `acc`.
unfoldable pub value_of : ℕ → Bytes → ℕ
value_of acc [] = acc
value_of acc (c ∷ cs) = value_of (acc * 10 + (c - 48)) cs

unfoldable pub digit_prefix : Bytes → Bytes
unfolding is_digit
digit_prefix [] = []
digit_prefix (c ∷ cs) = if is_digit c then c ∷ digit_prefix cs else []

unfoldable pub digit_rest : Bytes → Bytes
unfolding is_digit
digit_rest [] = []
digit_rest (c ∷ cs) = if is_digit c then digit_rest cs else c ∷ cs

-- What follows the white space: whether a minus sign stands there, and the text behind the sign.
unfoldable pub minus_sign : Bytes → Bool
minus_sign [] = false
minus_sign (c ∷ cs) = c == b'-'

unfoldable pub after_sign : Bytes → Bytes
after_sign [] = []
after_sign (c ∷ cs) = if c == b'-' then cs else if c == b'+' then cs else c ∷ cs

abbrev pub is_nil : Bytes → Bool
is_nil [] = true
is_nil (c ∷ cs) = false

-- `converted` is `endptr != arg`, `range_error` is `errno == ERANGE`, `rest` is `endptr` when
-- something was converted.
pub record Strto (A : Type 0) : Type 0 where
  pub value : A
  pub range_error : Bool
  pub converted : Bool
  pub rest : Bytes

abbrev pub neg : ℕ → ℤ
neg zero = pos 0
neg (suc n) = negsuc n

-- A number with its sign, saturated to 64 bits.
unfoldable pub saturate_long : Bool → ℕ → ℤ × Bool
saturate_long false n = if ltb n (2 ^ 63) then (pos n, false) else (pos (2 ^ 63 - 1), true)
saturate_long true n = if leb n (2 ^ 63) then (neg n, false) else (neg (2 ^ 63), true)

unfoldable pub strtol : Bytes → Strto ℤ
strtol s =
    let t = skip_space s in
    let ds = digit_prefix (after_sign t) in
    let v = saturate_long (minus_sign t) (value_of 0 ds) in
    record {
      value = v.0;
      range_error = v.1;
      converted = not (is_nil ds);
      rest = digit_rest (after_sign t);
    }

-- strtoull negates a signed number modulo 2^64.
unfoldable pub saturate_ullong : Bool → ℕ → ℕ × Bool
saturate_ullong false n = if ltb n (2 ^ 64) then (n, false) else (2 ^ 64 - 1, true)
saturate_ullong true n =
    if ltb n (2 ^ 64) then ((2 ^ 64 - n) % 2 ^ 64, false) else (2 ^ 64 - 1, true)

unfoldable pub strtoull : Bytes → Strto ℕ
strtoull s =
    let t = skip_space s in
    let ds = digit_prefix (after_sign t) in
    let v = saturate_ullong (minus_sign t) (value_of 0 ds) in
    record {
      value = v.0;
      range_error = v.1;
      converted = not (is_nil ds);
      rest = digit_rest (after_sign t);
    }

-- printf of a non-negative number; `n + 1` rounds are enough for `n`.
unfoldable pub digits_onto : ℕ → ℕ → Bytes → Bytes
digits_onto zero n tail = tail
digits_onto (suc f) n tail =
    let rest = digits_onto f (n / 10) ((48 + n % 10) ∷ tail) in
    if n / 10 == 0 then (48 + n % 10) ∷ tail else rest

unfoldable pub decimal : ℕ → Bytes
unfolding digits_onto
decimal n = digits_onto (n + 1) n []

unfoldable pub decimal_ℤ : ℤ → Bytes
unfolding decimal
decimal_ℤ (pos n) = decimal n
decimal_ℤ (negsuc n) = b'-' ∷ decimal (n + 1)
