-- ===== src/Snapshot/Filter/Matches.antt =====
-- The filter tests of code/process_snapshot/process_snapshot.c against the lists that
-- code/args_parser/args_parser.c builds.
use linux_process_analyzer.Prelude.{ℕ, ◌≡◌, refl, Bool, not, ◌&&◌, ◌||◌, List, [], ◌∷◌, arith}
use linux_process_analyzer.Prelude.Cstr.{Bytes, is_digit}
use linux_process_analyzer.Prelude.Strto.{is_nil}
use linux_process_analyzer.Args.{parse_args_ok, PidWhitelist}
use linux_process_analyzer.Args.Numbers.Tokens.{all_digits}
use linux_process_analyzer.Args.Whitelist.{
  has_pid, has_comm, FilterParseType, filter_parse_pid, filter_parse_comm, parse_filter_pid_list,
}
use linux_process_analyzer.Args.Whitelist.Split.{tokens}
use linux_process_analyzer.Args.Whitelist.Members.{names_pid, parse_filter_pid_list-Added}
use linux_process_analyzer.Snapshot.Filter.{
  all_digits_from, is_numeric, pid_found, is_pid_in_filter, comm_found, comm_in, is_comm_in_filter,
}

all_digits_from-eq : (s : Bytes) → all_digits_from s ≡ all_digits s
unfolding all_digits_from is_digit
all_digits_from-eq [] = refl
all_digits_from-eq (c ∷ cs) = ground (arith, all_digits_from-eq cs)

pub is_numeric-eq : (s : Bytes) → is_numeric s ≡ (not (is_nil s) && all_digits s)
unfolding is_numeric
is_numeric-eq [] = refl
is_numeric-eq (c ∷ cs) = all_digits_from-eq (c ∷ cs)

pid_found-eq : (pid : ℕ) (qs : List ℕ) → pid_found pid qs ≡ has_pid pid qs
unfolding pid_found has_pid
pid_found-eq pid [] = refl
pid_found-eq pid (q ∷ qs) = ground (arith, pid_found-eq pid qs)

comm_found-eq : (comm : Bytes) (cs : List Bytes) → comm_found comm cs ≡ has_comm comm cs
unfolding comm_found has_comm
comm_found-eq comm [] = refl
comm_found-eq comm (c ∷ cs) = ground (arith, comm_found-eq comm cs)

pub is_pid_in_filter-eq :
    (pid : ℕ) (w : PidWhitelist) → is_pid_in_filter pid w ≡ has_pid pid w.filter_pids
unfolding is_pid_in_filter
is_pid_in_filter-eq pid w = pid_found-eq pid w.filter_pids

comm_in-eq :
    (comm : Bytes) (cs : List Bytes) → comm_in comm cs ≡ (not (is_nil comm) && has_comm comm cs)
unfolding comm_in
comm_in-eq [] cs = refl
comm_in-eq (c ∷ comm) cs = comm_found-eq (c ∷ comm) cs

pub is_comm_in_filter-eq :
    (comm : Bytes) (w : PidWhitelist)
    → is_comm_in_filter comm w ≡ (not (is_nil comm) && has_comm comm w.filter_comms)
unfolding is_comm_in_filter
is_comm_in_filter-eq comm w = comm_in-eq comm w.filter_comms

and_or : (a b c : Bool) → (a && (b || c)) ≡ ((a && b) || (a && c))
and_or a b c = ground arith

-- The answers of the two filter tests, after a list of one kind, against those before it.
abbrev pub Selects : FilterParseType → List Bytes → PidWhitelist → PidWhitelist → Type 0
Selects filter_parse_pid ts w v =
    (pid : ℕ) (comm : Bytes)
    → (is_pid_in_filter pid v ≡ (is_pid_in_filter pid w || names_pid pid ts))
      × (is_comm_in_filter comm v ≡ is_comm_in_filter comm w)
Selects filter_parse_comm ts w v =
    (pid : ℕ) (comm : Bytes)
    → (is_pid_in_filter pid v ≡ is_pid_in_filter pid w)
      × (is_comm_in_filter comm v
          ≡ (is_comm_in_filter comm w || (not (is_nil comm) && has_comm comm ts)))

-- After an accepted filter list, the tests of the collector select exactly the processes that they
-- selected before, those whose PID a PID list names, and those whose name is a token of a name
-- list; a process without a name is never selected by its name.
pub parse_filter_pid_list-Selects :
    (alloc : ℕ → Bool) (type : FilterParseType) (arg : Bytes) (w v : PidWhitelist)
    → parse_filter_pid_list alloc type arg w ≡ (parse_args_ok, v)
    → Selects type (tokens arg) w v
parse_filter_pid_list-Selects alloc filter_parse_pid arg w v h = λ pid comm.
    let (c, p) = parse_filter_pid_list-Added alloc filter_parse_pid arg w v h in
    (
      rw (is_pid_in_filter-eq pid v, is_pid_in_filter-eq pid w) (p pid),
      rw (is_comm_in_filter-eq comm v, is_comm_in_filter-eq comm w, c) refl,
    )
parse_filter_pid_list-Selects alloc filter_parse_comm arg w v h = λ pid comm.
    let (p, c) = parse_filter_pid_list-Added alloc filter_parse_comm arg w v h in
    (
      rw (is_pid_in_filter-eq pid v, is_pid_in_filter-eq pid w, p) refl,
      rw (is_comm_in_filter-eq comm v, is_comm_in_filter-eq comm w, c comm)
          (and_or (not (is_nil comm)) (has_comm comm w.filter_comms) (has_comm comm (tokens arg))),
    )
