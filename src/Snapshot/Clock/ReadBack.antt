-- ===== src/Snapshot/Clock/ReadBack.antt =====
-- The text of the clock in code/process_snapshot/process_snapshot.c, as
-- `parse_timestamp_to_double` of code/process_stats/process_stats.c reads it.
use linux_process_analyzer.Prelude.{
  ℕ, zero, suc, ◌+◌, ◌-◌, ◌*◌, ◌/◌, ◌%◌, ◌^◌, ◌≤◌, ◌<◌, ◌≡◌, refl, sym, ap, ◌∙◌, false, some,
  length, length-append, take-all, [], ◌∷◌, ◌++◌, All, All-append, arith, ◌==◌,
}
use mathlib.Core.List.{append-nil}
use linux_process_analyzer.Prelude.Int.{ℤ, pos, ◌+ℤ◌}
use linux_process_analyzer.Prelude.Cstr.{Bytes}
use linux_process_analyzer.Prelude.Strto.{
  strtol, saturate_long, value_of, is_nil, digits_onto, decimal, digit_prefix,
}
use linux_process_analyzer.Args.Numbers.RoundTrip.{
  IsDigit, decimal-IsDigit, decimal-ne-nil, value_of-decimal, strtol-digits,
}
use linux_process_analyzer.Prelude.Calendar.{strptime_timegm}
use linux_process_analyzer.Config.{atoi}
use linux_process_analyzer.Stats.{Float}
use linux_process_analyzer.Stats.Metrics.{parse_timestamp_to_double}
use linux_process_analyzer.Stats.Metrics.Milliseconds.{parse_timestamp_to_double-dot}
use linux_process_analyzer.Snapshot.Proc.Line.{All-digits}
use linux_process_analyzer.Snapshot.Clock.{Tm, zeros, zero_padded, date_text, print_timestamp}

-- The numbers below `bound` have `count` digits at most.
abbrev IsShort : ℕ → ℕ → Type 0
IsShort count bound =
    (f n : ℕ) (tail : Bytes) → n < bound → length (digits_onto f n tail) ≤ count + length tail

digits-IsShort : IsShort 1 10
unfolding digits_onto
digits-IsShort zero n tail h = omega arith
digits-IsShort (suc f) n tail h = ground arith

tenfold-IsShort : (count bound : ℕ) → IsShort count bound → IsShort (suc count) (10 * bound)
unfolding digits_onto
tenfold-IsShort count bound short zero n tail h = omega arith
tenfold-IsShort count bound short (suc f) n tail h =
    let more = short f (n / 10) ((48 + n % 10) ∷ tail) (omega (arith, h)) in ground (arith, more)

-- The members of struct tm, from numbers as they are read on a clock and a calendar.
abbrev pub civil : ℕ → ℕ → ℕ → ℕ → ℕ → ℕ → Tm
civil year mon mday hour min sec = record {
  tm_year = pos year;
  tm_mon = pos mon;
  tm_mday = pos mday;
  tm_hour = pos hour;
  tm_min = pos min;
  tm_sec = pos sec;
}

length-zeros : (n : ℕ) (text : Bytes) → length (zeros n text) ≡ n + length text
unfolding zeros
length-zeros zero text = omega arith
length-zeros (suc n) text = omega (arith, length-zeros n text)

zeros-IsDigit : (n : ℕ) (text : Bytes) → All IsDigit text → All IsDigit (zeros n text)
unfolding zeros
zeros-IsDigit zero text h = h
zeros-IsDigit (suc n) text h = ((omega arith, omega arith), zeros-IsDigit n text h)

value_of-zeros : (n : ℕ) (text : Bytes) → value_of 0 (zeros n text) ≡ value_of 0 text
unfolding zeros value_of
value_of-zeros zero text = refl
value_of-zeros (suc n) text = value_of-zeros n text

zeros-ne-nil : (n : ℕ) (text : Bytes) → is_nil text ≡ false → is_nil (zeros n text) ≡ false
unfolding zeros
zeros-ne-nil zero text h = h
zeros-ne-nil (suc n) text h = refl

length-zero_padded :
    (count bound n : ℕ)
    → IsShort count bound
    → n < bound
    → length (zero_padded count (pos n)) ≡ count
unfolding zero_padded decimal
length-zero_padded count bound n short h =
    omega (arith, length-zeros (count - length (decimal n)) (decimal n), short (n + 1) n [] h)

pub zero_padded-IsDigit : (width n : ℕ) → All IsDigit (zero_padded width (pos n))
unfolding zero_padded
zero_padded-IsDigit width n =
    zeros-IsDigit (width - length (decimal n)) (decimal n) (decimal-IsDigit n)

pub value_of-zero_padded : (width n : ℕ) → value_of 0 (zero_padded width (pos n)) ≡ n
unfolding zero_padded
value_of-zero_padded width n =
    value_of-zeros (width - length (decimal n)) (decimal n) ∙ value_of-decimal n

strtol-zero_padded :
    (width n : ℕ) → (strtol (zero_padded width (pos n))).value ≡ (saturate_long false n).0
unfolding zero_padded
strtol-zero_padded width n =
    let k = width - length (decimal n) in
    let e =
      strtol-digits (zeros k (decimal n)) [] (zeros-ne-nil k (decimal n) (decimal-ne-nil n))
        (zeros-IsDigit k (decimal n) (decimal-IsDigit n)) (unfold digit_prefix in refl) in
    rw (← append-nil (zeros k (decimal n)))
      (rw e (rw (value_of-zeros k (decimal n), value_of-decimal n)))

atoi-zero_padded : (width n : ℕ) → n < 2 ^ 31 → atoi (zero_padded width (pos n)) ≡ pos n
atoi-zero_padded width n h = rw (strtol-zero_padded width n) (unfold saturate_long in ground arith)

abbrev NoDot : Bytes → Type 0
NoDot = All (λ c. (c == b'.') ≡ false)

zero_padded-NoDot : (width n : ℕ) → NoDot (zero_padded width (pos n))
zero_padded-NoDot width n =
    All-digits (λ c. (c == b'.') ≡ false) (λ c d. ground arith) _ (zero_padded-IsDigit width n)

pub two_digits : (n : ℕ) → n < 100 → length (zero_padded 2 (pos n)) ≡ 2
two_digits n h = length-zero_padded 2 100 n (tenfold-IsShort 1 10 digits-IsShort) h

three_digits : (n : ℕ) → n < 1000 → length (zero_padded 3 (pos n)) ≡ 3
three_digits n h =
    length-zero_padded 3 1000 n (tenfold-IsShort 2 100 (tenfold-IsShort 1 10 digits-IsShort)) h

pub four_digits : (n : ℕ) → n < 10000 → length (zero_padded 4 (pos n)) ≡ 4
four_digits n h =
    length-zero_padded 4 10000 n
      (tenfold-IsShort 3 1000 (tenfold-IsShort 2 100 (tenfold-IsShort 1 10 digits-IsShort))) h

followed-NoDot :
    (width n c : ℕ) (rest : Bytes)
    → (c == b'.') ≡ false
    → NoDot rest
    → NoDot (zero_padded width (pos n) ++ (c ∷ rest))
followed-NoDot width n c rest e h =
    All-append _ (zero_padded width (pos n)) (c ∷ rest) (zero_padded-NoDot width n) (e, h)

pub pos_sum : (a b : ℕ) → pos a +ℤ pos b ≡ pos (a + b)
unfolding ◌+ℤ◌
pos_sum a b = ground arith

pub date_text-NoDot :
    (year mon mday hour min sec : ℕ) → NoDot (date_text (civil year mon mday hour min sec))
unfolding date_text
date_text-NoDot year mon mday hour min sec =
    rw (pos_sum year 1900, pos_sum mon 1)
      (followed-NoDot 4 (year + 1900) b'-' _ refl (
        followed-NoDot 2 (mon + 1) b'-' _ refl (
          followed-NoDot 2 mday b' ' _ refl (
            followed-NoDot 2 hour b':' _ refl
              (followed-NoDot 2 min b':' _ refl (zero_padded-NoDot 2 sec))))))

followed-length :
    (text rest : Bytes) (c k m : ℕ)
    → length text ≡ k
    → length rest ≡ m
    → length (text ++ (c ∷ rest)) ≡ k + 1 + m
followed-length text rest c k m e h = omega (arith, length-append text (c ∷ rest), e, h)

length-date_text :
    (year mon mday hour min sec : ℕ)
    → year < 8100
    → mon < 12
    → mday < 32
    → hour < 24
    → min < 60
    → sec < 61
    → length (date_text (civil year mon mday hour min sec)) ≡ 19
unfolding date_text
length-date_text year mon mday hour min sec a b c d e f =
    rw (pos_sum year 1900, pos_sum mon 1)
      (followed-length _ _ b'-' 4 14 (four_digits (year + 1900) (omega arith)) (
        followed-length _ _ b'-' 2 11 (two_digits (mon + 1) (omega arith)) (
          followed-length _ _ b' ' 2 8 (two_digits mday (omega arith)) (
            followed-length _ _ b':' 2 5 (two_digits hour (omega arith)) (
              followed-length _ _ b':' 2 2 (two_digits min (omega arith))
                (two_digits sec (omega arith)))))))

pub print_timestamp-text :
    (year mon mday hour min sec nanoseconds : ℕ)
    → year < 8100
    → mon < 12
    → mday < 32
    → hour < 24
    → min < 60
    → sec < 61
    → nanoseconds < 1000000000
    → print_timestamp (civil year mon mday hour min sec) nanoseconds
      ≡ date_text (civil year mon mday hour min sec)
        ++ (b'.' ∷ zero_padded 3 (pos (nanoseconds / 1000000)))
unfolding print_timestamp
print_timestamp-text year mon mday hour min sec nanoseconds a b c d e f g =
    let date = date_text (civil year mon mday hour min sec) in
    let ms = zero_padded 3 (pos (nanoseconds / 1000000)) in
    take-all 63 (date ++ (b'.' ∷ ms)) (
      omega (
        arith,
        length-append date (b'.' ∷ ms),
        length-date_text year mon mday hour min sec a b c d e f,
        three_digits (nanoseconds / 1000000) (omega arith),
      ))

module _ {D : Type 0} (F : Float D) where
  pub parse_timestamp_to_double-seconds :
      (year mon mday hour min sec nanoseconds : ℕ) (s : ℤ)
      → year < 8100
      → mon < 12
      → mday < 32
      → hour < 24
      → min < 60
      → sec < 61
      → nanoseconds < 1000000000
      → strptime_timegm (print_timestamp (civil year mon mday hour min sec) nanoseconds) ≡ some s
      → parse_timestamp_to_double F (print_timestamp (civil year mon mday hour min sec) nanoseconds)
        ≡ F.add (F.of_ℤ s) (F.div (F.of_ℤ (pos (nanoseconds / 1000000))) (F.of_ℕ 1000))
  parse_timestamp_to_double-seconds year mon mday hour min sec nanoseconds s a b c d e f g h =
      let date = date_text (civil year mon mday hour min sec) in
      let ms = zero_padded 3 (pos (nanoseconds / 1000000)) in
      let fits = print_timestamp-text year mon mday hour min sec nanoseconds a b c d e f g in
      rw fits (
        parse_timestamp_to_double-dot F date ms s (date_text-NoDot year mon mday hour min sec)
          (ap strptime_timegm (sym fits) ∙ h)
        ∙ ap (λ z. F.add (F.of_ℤ s) (F.div (F.of_ℤ z) (F.of_ℕ 1000)))
            (atoi-zero_padded 3 (nanoseconds / 1000000) (omega arith)))
