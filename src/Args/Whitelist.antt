-- ===== src/Args/Whitelist.antt =====
-- The PID and name filters of the command line: code/args_parser/args_parser.c. `alloc` says
-- whether an allocation of so many bytes succeeds.
pub mod Split
pub mod Distinct
pub mod Members
use linux_process_analyzer.Prelude.{
  ℕ, zero, suc, ◌+◌, ◌*◌, Bool, true, false, Option, none, some, List, [], ◌∷◌, ◌++◌, ◌==◌, ◌||◌,
  if◌then◌else◌, length,
}
use linux_process_analyzer.Prelude.Cstr.{Bytes, str_eq, is_space, skip_space, trim_end}
use linux_process_analyzer.Prelude.Strto.{is_nil}
use linux_process_analyzer.Args.{ParseArgsStatus, parse_args_error, parse_args_ok, PidWhitelist}
use linux_process_analyzer.Args.Numbers.{parse_pid_token}

abbrev pub ap_initial_filter_capacity : ℕ
ap_initial_filter_capacity = 8

unfoldable pub has_pid : ℕ → List ℕ → Bool
has_pid pid [] = false
has_pid pid (q ∷ qs) = q == pid || has_pid pid qs

unfoldable pub has_comm : Bytes → List Bytes → Bool
has_comm comm [] = false
has_comm comm (c ∷ cs) = str_eq c comm || has_comm comm cs

pub data FilterParseType : Type 0 where
  filter_parse_pid filter_parse_comm : FilterParseType

abbrev grown : ℕ → ℕ
grown capacity = if capacity == 0 then ap_initial_filter_capacity else capacity * 2

module _ (alloc : ℕ → Bool) where
  -- The tail of `append_filter_pid`, once there is room.
  unfoldable pub append_filter_pid : PidWhitelist → ℕ → ParseArgsStatus × PidWhitelist
  unfolding has_pid
  append_filter_pid w pid =
      let cell = w.filter_pids ++ pid ∷ [] in
      let bigger = grown w.filter_pids_capacity in
      if has_pid pid w.filter_pids
      then (parse_args_ok, w)
      else if length w.filter_pids == w.filter_pids_capacity
      then if alloc (bigger * 4)
        then (parse_args_ok, record w { filter_pids = cell; filter_pids_capacity = bigger })
        else (parse_args_error, w)
      else (parse_args_ok, record w { filter_pids = cell })

  -- The name is copied before it is stored; when that allocation fails, a grown buffer stays.
  store_comm : PidWhitelist → Bytes → ParseArgsStatus × PidWhitelist
  store_comm w comm =
      if alloc (length comm + 1)
      then (parse_args_ok, record w { filter_comms = w.filter_comms ++ comm ∷ [] })
      else (parse_args_error, w)

  unfoldable pub append_filter_comm : PidWhitelist → Bytes → ParseArgsStatus × PidWhitelist
  unfolding has_comm store_comm
  append_filter_comm w comm =
      let bigger = grown w.filter_comms_capacity in
      if has_comm comm w.filter_comms
      then (parse_args_ok, w)
      else if length w.filter_comms == w.filter_comms_capacity
      then if alloc (bigger * 8)
        then store_comm (record w { filter_comms_capacity = bigger }) comm
        else (parse_args_error, w)
      else store_comm w comm

  append_pid_token : PidWhitelist → Option ℕ → ParseArgsStatus × PidWhitelist
  append_pid_token w none = (parse_args_error, w)
  append_pid_token w (some pid) = append_filter_pid w pid

  unfoldable pub append_token :
      FilterParseType → PidWhitelist → Bytes → ParseArgsStatus × PidWhitelist
  unfolding append_pid_token
  append_token filter_parse_pid w token = append_pid_token w (parse_pid_token token)
  append_token filter_parse_comm w token = append_filter_comm w token

-- while (*segment_end != '\0' && *segment_end != ',') segment_end++
unfoldable pub segment : Bytes → Bytes
segment [] = []
segment (c ∷ cs) = if c == b',' then [] else c ∷ segment cs

unfoldable pub segment_end : Bytes → Bytes
segment_end [] = []
segment_end (c ∷ cs) = if c == b',' then c ∷ cs else segment_end cs

-- The two loops that move `token_start` and `token_end` inwards.
unfoldable pub token_of : Bytes → Bytes
unfolding skip_space trim_end
token_of s = trim_end (skip_space s)

-- What follows a token's fate: an error ends the parse, success goes on.
abbrev pub and_then :
    ParseArgsStatus × PidWhitelist
    → (PidWhitelist → ParseArgsStatus × PidWhitelist)
    → ParseArgsStatus × PidWhitelist
and_then (parse_args_error, w) k = (parse_args_error, w)
and_then (parse_args_ok, w) k = k w

module _ (alloc : ℕ → Bool) (type : FilterParseType) where
  -- `while (1)`, from `cursor`; each round leaves a shorter rest, so that `suc (length cursor)`
  -- rounds are enough.
  unfoldable pub parse_segments : ℕ → PidWhitelist → Bytes → ParseArgsStatus × PidWhitelist
  parse_segments zero w cursor = (parse_args_error, w)
  parse_segments (suc fuel) w cursor =
      let token = token_of (segment cursor) in
      if is_nil token
      then (parse_args_error, w)
      else and_then (append_token alloc type w token) λ w'. elim (segment_end cursor) [
        | [] ↦ (parse_args_ok, w')
        | comma ∷ cs ↦
            let next = skip_space cs in
            let rest = parse_segments fuel w' next in
            if is_nil next then (parse_args_error, w') else rest
      ]

  unfoldable pub parse_filter_pid_list : Bytes → PidWhitelist → ParseArgsStatus × PidWhitelist
  unfolding parse_segments
  parse_filter_pid_list arg w =
      let cursor = skip_space arg in
      let result = parse_segments (suc (length cursor)) w cursor in
      if is_nil cursor then (parse_args_error, w) else result
