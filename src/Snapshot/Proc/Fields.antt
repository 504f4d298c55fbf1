-- ===== src/Snapshot/Proc/Fields.antt =====
-- The numbers behind the name in /proc/<pid>/stat: what the kernel prints, the scan of
-- `read_proc_stat` in code/process_snapshot/process_snapshot.c reads back.
use native.Mathlib.Numerals.{add-one}
use linux_process_analyzer.Prelude.{
  ℕ, ◌+◌, ◌%◌, ◌^◌, ◌≤◌, ◌<◌, ◌≡◌, refl, ap, ◌∙◌, true, false, if◌then◌else◌, Option, none, some,
  List, [], ◌∷◌, ◌++◌, map, All, arith,
}
use linux_process_analyzer.Prelude.Int.{ℤ, pos, negsuc, signed64, unsigned64}
use linux_process_analyzer.Prelude.Cstr.{Bytes, is_space, is_digit, skip_space}
use linux_process_analyzer.Prelude.Strto.{
  Strto, strtol, strtoull, is_nil, value_of, digit_prefix, digit_rest, minus_sign, after_sign,
  saturate_long, saturate_ullong, decimal, decimal_ℤ,
}
use linux_process_analyzer.Args.Numbers.RoundTrip.{
  IsDigit, decimal-IsDigit, decimal-ne-nil, value_of-decimal, digit_prefix-append,
  digit_rest-append, starts_with_digit,
}
use linux_process_analyzer.Snapshot.Proc.{Conversion, signed, unsigned, conversion, scan}

-- The values that a conversion's type has.
abbrev pub Fits : Conversion → ℤ → Type 0
Fits signed (pos n) = n < 2 ^ 63
Fits signed (negsuc n) = n < 2 ^ 63
Fits unsigned (pos n) = n < 2 ^ 64
Fits unsigned (negsuc n) = 1 ≤ 0

-- The bits of a value that fits are the value again.
pub signed64-unsigned64 : (v : ℤ) → Fits signed v → signed64 (unsigned64 v) ≡ v
signed64-unsigned64 (pos n) h = ground arith
signed64-unsigned64 (negsuc n) h = ground arith

pub pos-unsigned64 : (v : ℤ) → Fits unsigned v → pos (unsigned64 v) ≡ v
pos-unsigned64 (pos n) h = ground arith
pos-unsigned64 (negsuc n) h = absurd (omega (arith, h))

-- A text of digits behind a space, with or without a minus sign.
space_digits :
    (d : ℕ) (ds : Bytes)
    → IsDigit d
    → (skip_space (b' ' ∷ d ∷ ds) ≡ d ∷ ds)
      × (minus_sign (d ∷ ds) ≡ false)
      × (after_sign (d ∷ ds) ≡ d ∷ ds)
unfolding skip_space is_space
space_digits d ds h = starts_with_digit d ds h

space_minus : (ds : Bytes) → skip_space (b' ' ∷ b'-' ∷ ds) ≡ b'-' ∷ ds
unfolding skip_space is_space
space_minus ds = refl

strtol-positive :
    (ds rest : Bytes)
    → is_nil ds ≡ false
    → All IsDigit ds
    → digit_prefix rest ≡ []
    → strtol (b' ' ∷ (ds ++ rest)) ≡ record {
      value = (saturate_long false (value_of 0 ds)).0;
      range_error = (saturate_long false (value_of 0 ds)).1;
      converted = true;
      rest = digit_rest rest;
    }
strtol-positive [] rest ne h e = cc
strtol-positive (d ∷ ds) rest ne h e =
    let (a, b, c) = space_digits d (ds ++ rest) h.0 in
    unfold strtol in
    rw (a, b, c, digit_prefix-append (d ∷ ds) rest h e, digit_rest-append (d ∷ ds) rest h)

pub strtoull-positive :
    (ds rest : Bytes)
    → is_nil ds ≡ false
    → All IsDigit ds
    → digit_prefix rest ≡ []
    → strtoull (b' ' ∷ (ds ++ rest)) ≡ record {
      value = (saturate_ullong false (value_of 0 ds)).0;
      range_error = (saturate_ullong false (value_of 0 ds)).1;
      converted = true;
      rest = digit_rest rest;
    }
strtoull-positive [] rest ne h e = cc
strtoull-positive (d ∷ ds) rest ne h e =
    let (a, b, c) = space_digits d (ds ++ rest) h.0 in
    unfold strtoull in
    rw (a, b, c, digit_prefix-append (d ∷ ds) rest h e, digit_rest-append (d ∷ ds) rest h)

strtol-negative :
    (ds rest : Bytes)
    → is_nil ds ≡ false
    → All IsDigit ds
    → digit_prefix rest ≡ []
    → strtol (b' ' ∷ b'-' ∷ (ds ++ rest)) ≡ record {
      value = (saturate_long true (value_of 0 ds)).0;
      range_error = (saturate_long true (value_of 0 ds)).1;
      converted = true;
      rest = digit_rest rest;
    }
unfolding minus_sign after_sign
strtol-negative [] rest ne h e = cc
strtol-negative (d ∷ ds) rest ne h e =
    unfold strtol in
    rw (
      space_minus ((d ∷ ds) ++ rest),
      digit_prefix-append (d ∷ ds) rest h e,
      digit_rest-append (d ∷ ds) rest h,
    )

digit_rest-none : (rest : Bytes) → digit_prefix rest ≡ [] → digit_rest rest ≡ rest
unfolding digit_prefix digit_rest is_digit
digit_rest-none [] h = refl
digit_rest-none (c ∷ cs) h = ground arith

abbrev if_long : Strto ℤ → Option (ℕ × Bytes)
if_long r = if r.converted then some (unsigned64 r.value, r.rest) else none

abbrev if_ullong : Strto ℕ → Option (ℕ × Bytes)
if_ullong r = if r.converted then some (r.value, r.rest) else none

saturate_long-Fits :
    (n : ℕ)
    → n < 2 ^ 63
    → ((saturate_long false n).0 ≡ pos n) × ((saturate_long true (n + 1)).0 ≡ negsuc n)
unfolding saturate_long
saturate_long-Fits n h = (ground arith, rw add-one (ground arith))

saturate_ullong-Fits : (n : ℕ) → n < 2 ^ 64 → (saturate_ullong false n).0 ≡ n % 2 ^ 64
unfolding saturate_ullong
saturate_ullong-Fits n h = ground arith

-- What `%ld` or `%lu` prints behind a space is read back, up to what is no digit.
pub conversion-printed :
    (k : Conversion) (v : ℤ) (rest : Bytes)
    → Fits k v
    → digit_prefix rest ≡ []
    → conversion k (b' ' ∷ (decimal_ℤ v ++ rest)) ≡ some (unsigned64 v, rest)
unfolding conversion decimal_ℤ
conversion-printed signed (pos n) rest h e =
    ap if_long (strtol-positive (decimal n) rest (decimal-ne-nil n) (decimal-IsDigit n) e)
    ∙ rw (value_of-decimal n, digit_rest-none rest e, (saturate_long-Fits n h).0) refl
conversion-printed signed (negsuc n) rest h e =
    ap if_long
      (strtol-negative (decimal (n + 1)) rest (decimal-ne-nil (n + 1)) (decimal-IsDigit (n + 1)) e)
    ∙ rw (value_of-decimal (n + 1), digit_rest-none rest e, (saturate_long-Fits n h).1) refl
conversion-printed unsigned (pos n) rest h e =
    ap if_ullong (strtoull-positive (decimal n) rest (decimal-ne-nil n) (decimal-IsDigit n) e)
    ∙ rw (value_of-decimal n, digit_rest-none rest e, saturate_ullong-Fits n h) refl
conversion-printed unsigned (negsuc n) rest h e = absurd (omega (arith, h))

-- The values as they stand in the line, and what follows them.
abbrev pub fields : List ℤ → Bytes → Bytes
fields [] tail = tail
fields (v ∷ vs) tail = b' ' ∷ (decimal_ℤ v ++ fields vs tail)

abbrev pub AllFit : List Conversion → List ℤ → Type 0
AllFit [] [] = Unit
AllFit (k ∷ ks) (v ∷ vs) = Fits k v × AllFit ks vs
AllFit _ _ = 1 ≤ 0

pub digit_prefix-fields :
    (vs : List ℤ) (tail : Bytes) → digit_prefix tail ≡ [] → digit_prefix (fields vs tail) ≡ []
unfolding digit_prefix is_digit
digit_prefix-fields [] tail e = e
digit_prefix-fields (v ∷ vs) tail e = refl

scan-cons :
    (k : Conversion) (ks : List Conversion) (s rest : Bytes) (v : ℕ) (vs : List ℕ)
    → conversion k s ≡ some (v, rest)
    → scan ks rest ≡ some vs
    → scan (k ∷ ks) s ≡ some (v ∷ vs)
unfolding scan
scan-cons k ks s rest v vs e h = ground (arith, e, h)

pub scan-fields :
    (ks : List Conversion) (vs : List ℤ) (tail : Bytes)
    → AllFit ks vs
    → digit_prefix tail ≡ []
    → scan ks (fields vs tail) ≡ some (map unsigned64 vs)
unfolding scan
scan-fields [] [] tail h e = refl
scan-fields (k ∷ ks) (v ∷ vs) tail h e =
    scan-cons k ks (fields (v ∷ vs) tail) (fields vs tail) (unsigned64 v) (map unsigned64 vs)
      (conversion-printed k v (fields vs tail) h.0 (digit_prefix-fields vs tail e))
      (scan-fields ks vs tail h.1 e)
scan-fields [] (v ∷ vs) tail h e = absurd (omega (arith, h))
scan-fields (k ∷ ks) [] tail h e = absurd (omega (arith, h))
