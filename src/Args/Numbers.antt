-- ===== src/Args/Numbers.antt =====
-- Counts, durations and PIDs of the command line: code/args_parser/args_parser.c. `none` is
-- `parse_args_error`, which leaves the output parameter as it was.
pub mod RoundTrip
pub mod Bounds
pub mod Tokens
use linux_process_analyzer.Prelude.{
  ℕ, ◌+◌, ◌-◌, ◌*◌, ◌^◌, ◌%◌, Bool, true, false, not, ◌&&◌, ◌||◌, Option, none, some, [], ◌∷◌, ltb,
  ◌==◌, if◌then◌else◌, length,
}
use linux_process_analyzer.Prelude.Int.{ℤ, pos, negsuc}
use linux_process_analyzer.Prelude.Cstr.{Bytes, codes, str_eq, is_digit}
use linux_process_analyzer.Prelude.Strto.{Strto, strtol, is_nil}

abbrev pub int_max : ℕ
int_max = 2 ^ 31 - 1

abbrev pub max_number_of_snapshots : ℕ
max_number_of_snapshots = 0x7FFFFFFF

-- `value <= 0 || value > INT_MAX` fails
positive_int : ℤ → Option ℕ
positive_int (pos n) = if n == 0 || ltb int_max n then none else some n
positive_int (negsuc n) = none

unfoldable pub parse_integer_arg : Bytes → Option ℕ
unfolding positive_int
parse_integer_arg arg =
    let r = strtol arg in
    if r.range_error || not r.converted || not (is_nil r.rest) then none else positive_int r.value

unfoldable pub parse_number_of_snapshots : Bytes → Option ℕ
unfolding str_eq parse_integer_arg
parse_number_of_snapshots arg =
    if str_eq arg (codes "infinity") then some max_number_of_snapshots else parse_integer_arg arg

-- The product is taken in uint64_t, as in the source.
unit_ms : Bytes → ℕ → Option ℕ
unfolding str_eq
unit_ms unit v =
    if str_eq unit (codes "ms")
    then some v
    else if str_eq unit (codes "s")
    then some (v * 1000 % 2 ^ 64)
    else if str_eq unit (codes "m")
    then some (v * 60 % 2 ^ 64 * 1000 % 2 ^ 64)
    else none

positive_unit : Bytes → ℤ → Option ℕ
unfolding unit_ms
positive_unit unit (pos n) = if n == 0 then none else unit_ms unit n
positive_unit unit (negsuc n) = none

unfoldable pub parse_duration_ms : Bytes → Option ℕ
unfolding positive_unit
parse_duration_ms arg =
    let r = strtol arg in
    if ltb (length arg) 2
    then none
    else if r.range_error || not r.converted
    then none
    else positive_unit r.rest r.value

-- The digits loop of `parse_pid_token`, in unsigned long long.
pid_digits : ℕ → Bytes → Option ℕ
unfolding is_digit
pid_digits value [] = some value
pid_digits value (c ∷ cs) =
    let next = (value * 10 + (c - 48)) % 2 ^ 64 in
    if not (is_digit c) then none else if ltb int_max next then none else pid_digits next cs

positive_pid : Option ℕ → Option ℕ
positive_pid none = none
positive_pid (some v) = if v == 0 then none else some v

unfoldable pub parse_pid_token : Bytes → Option ℕ
unfolding pid_digits positive_pid
parse_pid_token token = if is_nil token then none else positive_pid (pid_digits 0 token)
