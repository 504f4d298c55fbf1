-- ===== src/Snapshot/Filter.antt =====
-- The name tests of code/process_snapshot/process_snapshot.c: numeric directory entries, and the
-- filters of the command line.
pub mod Matches
use linux_process_analyzer.Prelude.{
  ℕ, Bool, true, false, not, ◌&&◌, ◌||◌, List, [], ◌∷◌, ◌==◌, if◌then◌else◌, length,
}
use linux_process_analyzer.Prelude.Cstr.{Bytes, is_digit, str_eq}
use linux_process_analyzer.Args.{PidWhitelist}

all_digits_from : Bytes → Bool
unfolding is_digit
all_digits_from [] = true
all_digits_from (c ∷ cs) = if not (is_digit c) then false else all_digits_from cs

pub is_numeric : Bytes → Bool
unfolding all_digits_from
is_numeric [] = false
is_numeric (c ∷ cs) = all_digits_from (c ∷ cs)

pid_found : ℕ → List ℕ → Bool
pid_found pid [] = false
pid_found pid (q ∷ qs) = if q == pid then true else pid_found pid qs

pub is_pid_in_filter : ℕ → PidWhitelist → Bool
unfolding pid_found
is_pid_in_filter pid w = pid_found pid w.filter_pids

comm_found : Bytes → List Bytes → Bool
unfolding str_eq
comm_found comm [] = false
comm_found comm (c ∷ cs) = if str_eq c comm then true else comm_found comm cs

comm_in : Bytes → List Bytes → Bool
unfolding comm_found
comm_in [] cs = false
comm_in (c ∷ comm) cs = comm_found (c ∷ comm) cs

pub is_comm_in_filter : Bytes → PidWhitelist → Bool
unfolding comm_in
is_comm_in_filter comm w = comm_in comm w.filter_comms

unfoldable pub is_filtering_enabled : PidWhitelist → Bool
is_filtering_enabled w =
    if length w.filter_comms == 0 && length w.filter_pids == 0 then false else true
