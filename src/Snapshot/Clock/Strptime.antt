-- ===== src/Snapshot/Clock/Strptime.antt =====
-- The text of the clock in code/process_snapshot/process_snapshot.c, as the strptime of
-- code/process_stats/process_stats.c reads it.
use linux_process_analyzer.Prelude.{
  ℕ, ◌+◌, ◌-◌, ◌*◌, ◌/◌, ◌≤◌, ◌<◌, ◌≡◌, refl, sym, ap, ◌∙◌, true, Option, some, length, [], ◌∷◌,
  ◌++◌, All, arith, leb,
}
use mathlib.Core.List.{append_assoc}
use linux_process_analyzer.Prelude.Int.{ℤ, pos}
use linux_process_analyzer.Prelude.Cstr.{Bytes, is_digit, skip_space, is_space}
use linux_process_analyzer.Prelude.Strto.{value_of}
use linux_process_analyzer.Prelude.Calendar.{
  more_digits, skip_blanks, in_range, first_digit, number, literal, timegm, strptime_timegm,
  after_year, after_month, after_day, after_hour, after_minute, after_second,
}
use linux_process_analyzer.Args.Numbers.RoundTrip.{IsDigit, starts_with_digit}
use linux_process_analyzer.Stats.{Float}
use linux_process_analyzer.Stats.Metrics.{parse_timestamp_to_double}
use linux_process_analyzer.Snapshot.Clock.{zero_padded, date_text, print_timestamp}
use linux_process_analyzer.Snapshot.Clock.ReadBack.{
  civil, zero_padded-IsDigit, value_of-zero_padded, two_digits, four_digits, pos_sum,
  parse_timestamp_to_double-seconds, print_timestamp-text,
}

value_of-grows : (value : ℕ) (ds : Bytes) → value ≤ value_of value ds
unfolding value_of
value_of-grows value [] = omega arith
value_of-grows value (d ∷ ds) = omega (arith, value_of-grows (value * 10 + (d - 48)) ds)

is_digit-IsDigit : (d : ℕ) → IsDigit d → is_digit d ≡ true
unfolding is_digit
is_digit-IsDigit d h = ground arith

more_digits-append :
    (to value : ℕ) (ds rest : Bytes)
    → All IsDigit ds
    → value_of value ds ≤ to
    → more_digits to (length ds) value (ds ++ rest) ≡ (value_of value ds, rest)
unfolding more_digits value_of
more_digits-append to value [] rest h b = refl
more_digits-append to value (d ∷ ds) rest h b =
    let small : leb (value * 10) to ≡ true =
      ground (arith, value_of-grows (value * 10 + (d - 48)) ds) in
    rw (small, is_digit-IsDigit d h.0) (more_digits-append to (value * 10 + (d - 48)) ds rest h.1 b)

skip_blanks-digit : (d : ℕ) (s : Bytes) → IsDigit d → skip_blanks (d ∷ s) ≡ d ∷ s
unfolding skip_blanks
skip_blanks-digit d s h = ground arith

module _ {A : Type 0} (k : ℕ → Bytes → Option A) where
  in_range-within :
      (from to v : ℕ) (rest : Bytes) → from ≤ v → v ≤ to → in_range from to k (v, rest) ≡ k v rest
  unfolding in_range
  in_range-within from to v rest low high = ground arith

  number-digits :
      (from to width : ℕ) (ds rest : Bytes)
      → All IsDigit ds
      → length ds ≡ width
      → 1 ≤ width
      → from ≤ value_of 0 ds
      → value_of 0 ds ≤ to
      → number from to width k (ds ++ rest) ≡ k (value_of 0 ds) rest
  number-digits from to width [] rest h e one low high = absurd (omega arith)
  number-digits from to width (d ∷ ds) rest h e one low high =
      let start : value_of 0 (d ∷ ds) ≡ value_of (d - 48) ds =
        unfold value_of in ap (λ (v : ℕ). value_of v ds) (omega arith) in
      let w : width - 1 ≡ length ds = omega arith in
      unfold number in
      rw (skip_blanks-digit d (ds ++ rest) h.0) (
        unfold first_digit in
        rw (is_digit-IsDigit d h.0, w)
          (rw (more_digits-append to (d - 48) ds rest h.1 (omega (arith, start, high))) (
            ap (λ (v : ℕ). in_range from to k (v, rest)) (sym start)
            ∙ in_range-within from to (value_of 0 (d ∷ ds)) rest low high)))

  number-zero_padded :
      (from to width n : ℕ) (rest : Bytes)
      → length (zero_padded width (pos n)) ≡ width
      → 1 ≤ width
      → from ≤ n
      → n ≤ to
      → number from to width k (zero_padded width (pos n) ++ rest) ≡ k n rest
  number-zero_padded from to width n rest e one low high =
      let v = value_of-zero_padded width n in
      number-digits from to width (zero_padded width (pos n)) rest (zero_padded-IsDigit width n) e
        one (omega (arith, v)) (omega (arith, v))
      ∙ ap (λ (m : ℕ). k m rest) v

literal_self : {A : Type 0} (c : ℕ) (k : Bytes → Option A) (s : Bytes) → literal c k (c ∷ s) ≡ k s
unfolding literal
literal_self c k s = ground arith

-- A number of the clock, with the widths and limits of the format, and the text behind it.
padded_number :
    (from to n : ℕ) (k : ℕ → Bytes → Option ℤ) (rest : Bytes)
    → from ≤ n
    → n ≤ to
    → to < 100
    → number from to 2 k (zero_padded 2 (pos n) ++ rest) ≡ k n rest
padded_number from to n k rest low high small =
    number-zero_padded k from to 2 n rest (two_digits n (omega arith)) (omega arith) low high

separated_number :
    (from to n c : ℕ) (k : ℕ → Bytes → Option ℤ) (rest : Bytes)
    → from ≤ n
    → n ≤ to
    → to < 100
    → literal c (number from to 2 k) (c ∷ (zero_padded 2 (pos n) ++ rest)) ≡ k n rest
separated_number from to n c k rest low high small =
    literal_self c (number from to 2 k) (zero_padded 2 (pos n) ++ rest)
    ∙ padded_number from to n k rest low high small

skip_space-digits :
    (ds rest : Bytes)
    → All IsDigit ds
    → 1 ≤ length ds
    → skip_space (b' ' ∷ (ds ++ rest)) ≡ ds ++ rest
unfolding skip_space is_space
skip_space-digits [] rest h e = absurd (omega arith)
skip_space-digits (d ∷ ds) rest h e = (starts_with_digit d (ds ++ rest) h.0).0

date_text-append :
    (year mon mday hour min sec : ℕ) (rest : Bytes)
    → date_text (civil year mon mday hour min sec) ++ rest
      ≡ zero_padded 4 (pos (year + 1900))
        ++ (b'-'
            ∷ (zero_padded 2 (pos (mon + 1))
                ++ (b'-'
                    ∷ (zero_padded 2 (pos mday)
                        ++ (b' '
                            ∷ (zero_padded 2 (pos hour)
                                ++ (b':'
                                    ∷ (zero_padded 2 (pos min)
                                        ++ (b':' ∷ (zero_padded 2 (pos sec) ++ rest))))))))))
unfolding date_text
date_text-append year mon mday hour min sec rest =
    rw (pos_sum year 1900, pos_sum mon 1) (simp append_assoc)

strptime_timegm-date_text :
    (year mon mday hour min sec : ℕ) (rest : Bytes)
    → year < 8100
    → mon < 12
    → 1 ≤ mday
    → mday < 32
    → hour < 24
    → min < 60
    → sec < 61
    → strptime_timegm (date_text (civil year mon mday hour min sec) ++ rest)
      ≡ some (timegm (year + 1900) (mon + 1) mday hour min sec)
unfolding strptime_timegm
strptime_timegm-date_text year mon mday hour min sec rest a b c0 c d e f =
    let y = year + 1900 in
    let m = mon + 1 in
    rw (date_text-append year mon mday hour min sec rest) (
      number-zero_padded after_year 0 9999 4 y _ (four_digits y (omega arith)) (omega arith)
        (omega arith) (omega arith)
      ∙ separated_number 1 12 m b'-' (after_month y) _ (omega arith) (omega arith) (omega arith)
      ∙ separated_number 1 31 mday b'-' (after_day y m) _ c0 (omega arith) (omega arith)
      ∙ ap (number 0 23 2 (after_hour y m mday)) (
          skip_space-digits (zero_padded 2 (pos hour)) _ (zero_padded-IsDigit 2 hour)
            (omega (arith, two_digits hour (omega arith))))
      ∙ padded_number 0 23 hour (after_hour y m mday) _ (omega arith) (omega arith) (omega arith)
      ∙ separated_number 0 59 min b':' (after_minute y m mday hour) _ (omega arith) (omega arith)
          (omega arith)
      ∙ separated_number 0 61 sec b':' (after_second y m mday hour min) rest (omega arith)
          (omega arith) (omega arith))

-- The text that a snapshot prints for a local time is read back for the duration as the time with
-- the same calendar and clock in UTC, for the years 1900 to 9999, leap seconds included: the whole
-- seconds from the epoch and the milliseconds, rounded down, in thousandths. The difference of
-- local time and UTC is not taken off.
pub parse_timestamp_to_double-print_timestamp :
    {D : Type 0} (F : Float D) (year mon mday hour min sec nanoseconds : ℕ)
    → year < 8100
    → mon < 12
    → 1 ≤ mday
    → mday < 32
    → hour < 24
    → min < 60
    → sec < 61
    → nanoseconds < 1000000000
    → parse_timestamp_to_double F (print_timestamp (civil year mon mday hour min sec) nanoseconds)
      ≡ F.add
          (F.of_ℤ (timegm (year + 1900) (mon + 1) mday hour min sec))
          (F.div (F.of_ℤ (pos (nanoseconds / 1000000))) (F.of_ℕ 1000))
parse_timestamp_to_double-print_timestamp F year mon mday hour min sec ns a b c0 c d e f g =
    parse_timestamp_to_double-seconds F year mon mday hour min sec ns
      (timegm (year + 1900) (mon + 1) mday hour min sec) a b c d e f g
      (ap strptime_timegm (print_timestamp-text year mon mday hour min sec ns a b c d e f g)
        ∙ strptime_timegm-date_text year mon mday hour min sec _ a b c0 c d e f)
