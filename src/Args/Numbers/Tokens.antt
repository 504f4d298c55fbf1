-- ===== src/Args/Numbers/Tokens.antt =====
-- The digits loop of `parse_pid_token` against the value of the whole token.
use linux_process_analyzer.Prelude.{
  ℕ, ◌+◌, ◌-◌, ◌*◌, ◌^◌, ◌%◌, ◌≤◌, ◌≡◌, Bool, true, ◌&&◌, Option, none, some, [], ◌∷◌, arith, leb,
  if◌then◌else◌,
}
use linux_process_analyzer.Prelude.Cstr.{Bytes, is_digit}
use linux_process_analyzer.Prelude.Strto.{value_of}
use linux_process_analyzer.Args.Numbers.{int_max, pid_digits, parse_pid_token}

abbrev pub all_digits : Bytes → Bool
all_digits [] = true
all_digits (c ∷ cs) = is_digit c && all_digits cs

le-value_of : (acc : ℕ) (cs : Bytes) → acc ≤ value_of acc cs
unfolding value_of
le-value_of acc [] = omega arith
le-value_of acc (c ∷ cs) = omega (arith, le-value_of (acc * 10 + (c - 48)) cs)

-- The value of a token of decimal digits that is a positive int.
abbrev pub pid_of : Bytes → Option ℕ
pid_of token =
    let v = value_of 0 token in
    if all_digits token && leb 1 v && leb v int_max then some v else none

pid_digits-eq-value_of :
    (acc : ℕ) (cs : Bytes)
    → acc ≤ int_max
    → pid_digits acc cs
      ≡ (if all_digits cs && leb (value_of acc cs) int_max then some (value_of acc cs) else none)
unfolding pid_digits value_of is_digit
pid_digits-eq-value_of acc [] h = ground arith
pid_digits-eq-value_of acc (c ∷ cs) h = ground (
  arith,
  le-value_of (acc * 10 + (c - 48)) cs,
  pid_digits-eq-value_of ((acc * 10 + (c - 48)) % 2 ^ 64) cs,
  pid_digits-eq-value_of (acc * 10 + (c - 48)) cs,
)

-- The loop with its early exits accepts exactly the non-empty tokens of decimal digits whose value
-- is between 1 and INT_MAX, and returns that value; the accumulator never wraps.
pub parse_pid_token-eq-pid_of : (token : Bytes) → parse_pid_token token ≡ pid_of token
unfolding parse_pid_token
parse_pid_token-eq-pid_of [] = unfold value_of in ground arith
parse_pid_token-eq-pid_of (c ∷ cs) =
    rw (pid_digits-eq-value_of 0 (c ∷ cs) (omega arith)) (ground arith)
