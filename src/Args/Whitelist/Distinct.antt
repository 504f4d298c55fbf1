-- ===== src/Args/Whitelist/Distinct.antt =====
-- The filters have no duplicates, fit their buffers, and hold positive PIDs only.
use linux_process_analyzer.Prelude.{
  ℕ, ◌≤◌, ◌<◌, ◌≡◌, refl, inl, inr, Bool, false, some, List, [], ◌∷◌, ◌++◌, All, All-append, arith,
  ◌==◌, ◌||◌, length, length-append, Bool-cases, Option-cases,
}
use linux_process_analyzer.Prelude.Cstr.{Bytes, str_eq, str_eq_iff}
use linux_process_analyzer.Prelude.Strto.{is_nil}
use linux_process_analyzer.Args.{ParseArgsStatus, parse_args_error, parse_args_ok, PidWhitelist}
use linux_process_analyzer.Args.Numbers.{int_max, parse_pid_token}
use linux_process_analyzer.Args.Numbers.Tokens.{parse_pid_token-eq-pid_of}
use linux_process_analyzer.Args.Whitelist.{
  has_pid, has_comm, FilterParseType, filter_parse_pid, filter_parse_comm, append_filter_pid,
  append_filter_comm, append_token, and_then, parse_filter_pid_list,
}
use linux_process_analyzer.Args.Whitelist.Split.{
  append_tokens, tokens, parse_filter_pid_list-eq-append_tokens,
}

abbrev pub DistinctPids : List ℕ → Type 0
DistinctPids [] = Unit {0}
DistinctPids (p ∷ ps) = (has_pid p ps ≡ false) × DistinctPids ps

abbrev pub DistinctComms : List Bytes → Type 0
DistinctComms [] = Unit {0}
DistinctComms (c ∷ cs) = (has_comm c cs ≡ false) × DistinctComms cs

abbrev pub IsPid : ℕ → Type 0
IsPid p = (0 < p) × (p ≤ int_max)

pub record IsWellFormed (w : PidWhitelist) : Type 0 where
  pub pids_fit : length w.filter_pids ≤ w.filter_pids_capacity
  pub comms_fit : length w.filter_comms ≤ w.filter_comms_capacity
  pub pids_distinct : DistinctPids w.filter_pids
  pub comms_distinct : DistinctComms w.filter_comms
  pub pids_positive : All IsPid w.filter_pids

pub has_pid-snoc : (p q : ℕ) (ps : List ℕ) → has_pid p (ps ++ q ∷ []) ≡ (has_pid p ps || q == p)
unfolding has_pid
has_pid-snoc p q [] = ground arith
has_pid-snoc p q (r ∷ ps) = ground (arith, has_pid-snoc p q ps)

pub has_comm-snoc :
    (c d : Bytes) (cs : List Bytes) → has_comm c (cs ++ d ∷ []) ≡ (has_comm c cs || str_eq d c)
unfolding has_comm
has_comm-snoc c d [] = ground arith
has_comm-snoc c d (e ∷ cs) = ground (arith, has_comm-snoc c d cs)

DistinctPids-snoc :
    (ps : List ℕ) (q : ℕ) → has_pid q ps ≡ false → DistinctPids ps → DistinctPids (ps ++ q ∷ [])
unfolding has_pid
DistinctPids-snoc [] q h d = (refl, tt)
DistinctPids-snoc (p ∷ ps) q h d =
    (ground (arith, has_pid-snoc p q ps), DistinctPids-snoc ps q (ground arith) d.1)

DistinctComms-snoc :
    (cs : List Bytes) (d : Bytes)
    → has_comm d cs ≡ false
    → DistinctComms cs
    → DistinctComms (cs ++ d ∷ [])
unfolding has_comm
DistinctComms-snoc [] d h k = (refl, tt)
DistinctComms-snoc (c ∷ cs) d h k = (
  ground (arith, has_comm-snoc c d cs, str_eq_iff c d, str_eq_iff d c),
  DistinctComms-snoc cs d (ground arith) k.1,
)

-- A token that is accepted as a PID is one.
parse_pid_token-IsPid : (t : Bytes) (p : ℕ) → parse_pid_token t ≡ some p → IsPid p
parse_pid_token-IsPid t p h = ground (arith, parse_pid_token-eq-pid_of t)

module _ (alloc : ℕ → Bool) where
  append_filter_pid-IsWellFormed :
      (w : PidWhitelist) (p : ℕ)
      → IsPid p
      → IsWellFormed w
      → IsWellFormed (append_filter_pid alloc w p).1
  unfolding append_filter_pid
  append_filter_pid-IsWellFormed w p h v = ground (
    arith,
    length-append w.filter_pids (p ∷ []),
    DistinctPids-snoc w.filter_pids p,
    All-append IsPid w.filter_pids (p ∷ []) v.pids_positive (h, tt),
  )

  append_filter_comm-IsWellFormed :
      (w : PidWhitelist) (c : Bytes)
      → IsWellFormed w
      → IsWellFormed (append_filter_comm alloc w c).1
  unfolding append_filter_comm
  append_filter_comm-IsWellFormed w c v =
      ground (arith, length-append w.filter_comms (c ∷ []), DistinctComms-snoc w.filter_comms c)

  append_token-IsWellFormed :
      (type : FilterParseType) (w : PidWhitelist) (t : Bytes)
      → IsWellFormed w
      → IsWellFormed (append_token alloc type w t).1
  unfolding append_token
  append_token-IsWellFormed filter_parse_comm w t v = append_filter_comm-IsWellFormed w t v
  append_token-IsWellFormed filter_parse_pid w t v = elim (Option-cases (parse_pid_token t)) [
    | inl refused ↦ rw refused v
    | inr (p, accepted) ↦
        rw accepted (append_filter_pid-IsWellFormed w p (parse_pid_token-IsPid t p accepted) v)
  ]

  and_then-IsWellFormed :
      (r : ParseArgsStatus × PidWhitelist) (k : PidWhitelist → ParseArgsStatus × PidWhitelist)
      → IsWellFormed r.1
      → ((w : PidWhitelist) → IsWellFormed w → IsWellFormed (k w).1)
      → IsWellFormed (and_then r k).1
  and_then-IsWellFormed (parse_args_error, w) k h g = h
  and_then-IsWellFormed (parse_args_ok, w) k h g = g w h

  append_tokens-IsWellFormed :
      (type : FilterParseType) (ts : List Bytes) (w : PidWhitelist)
      → IsWellFormed w
      → IsWellFormed (append_tokens alloc type w ts).1
  unfolding append_tokens
  append_tokens-IsWellFormed type [] w v = v
  append_tokens-IsWellFormed type (t ∷ ts) w v = elim (Bool-cases (is_nil t)) [
    | inl empty ↦ rw empty v
    | inr token ↦ rw token (
        and_then-IsWellFormed (append_token alloc type w t) _ (append_token-IsWellFormed type w t v)
          (append_tokens-IsWellFormed type ts))
  ]

  -- Whatever the argument and the allocator, and whether the list is accepted or not, a
  -- well-formed pair of filters stays well-formed: no duplicate PID or name, PIDs between 1 and
  -- INT_MAX, and no more entries than the capacities.
  pub parse_filter_pid_list-IsWellFormed :
      (type : FilterParseType) (arg : Bytes) (w : PidWhitelist)
      → IsWellFormed w
      → IsWellFormed (parse_filter_pid_list alloc type arg w).1
  parse_filter_pid_list-IsWellFormed type arg w v =
      rw (parse_filter_pid_list-eq-append_tokens alloc type arg w)
        (append_tokens-IsWellFormed type (tokens arg) w v)
