-- ===== src/Args/Numbers/Bounds.antt =====
-- Ranges of what the argument parsers accept, over every input text.
use linux_process_analyzer.Prelude.{
  ℕ, zero, suc, ◌<◌, ◌≤◌, ◌^◌, ◌≡◌, Bool, true, false, some, arith,
}
use linux_process_analyzer.Prelude.Int.{pos_part}
use linux_process_analyzer.Prelude.Strto.{strtol, saturate_long}
use linux_process_analyzer.Prelude.Cstr.{Bytes}
use linux_process_analyzer.Args.Numbers.{
  int_max, parse_integer_arg, parse_number_of_snapshots, parse_duration_ms,
}

pub parse_integer_arg_bounds :
    (arg : Bytes) (n : ℕ) → parse_integer_arg arg ≡ some n → (0 < n) × (n ≤ int_max)
unfolding parse_integer_arg
parse_integer_arg_bounds arg n h = ground arith

-- A snapshot count that is accepted lies between 1 and INT_MAX, also for "infinity".
pub parse_number_of_snapshots_bounds :
    (arg : Bytes) (n : ℕ) → parse_number_of_snapshots arg ≡ some n → (0 < n) × (n ≤ int_max)
unfolding parse_number_of_snapshots
parse_number_of_snapshots_bounds arg n h = ground arith

saturate_long-lt : (sign : Bool) (n : ℕ) → pos_part (saturate_long sign n).0 < 2 ^ 63
unfolding saturate_long
saturate_long-lt true zero = ground arith
saturate_long-lt true (suc n) = ground arith
saturate_long-lt false n = ground arith

strtol-lt : (arg : Bytes) → pos_part (strtol arg).value < 2 ^ 63
unfolding strtol
strtol-lt arg = saturate_long-lt _ _

-- A duration that is accepted fits a uint64_t.
pub parse_duration_ms-lt : (arg : Bytes) (n : ℕ) → parse_duration_ms arg ≡ some n → n < 2 ^ 64
unfolding parse_duration_ms
parse_duration_ms-lt arg n h = ground (arith, strtol-lt arg)
