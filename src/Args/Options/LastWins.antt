-- ===== src/Args/Options/LastWins.antt =====
-- Where an accepted configuration takes its interval and its count from.
use mathlib.Core.Path.{subst}
use linux_process_analyzer.Prelude.{
  ℕ, ==_iff, ◌≡◌, refl, sym, ap, inl, inr, Bool, true, false, ◌||◌, Option, none, some, List, [],
  ◌∷◌, ◌==◌, if◌then◌else◌, Option-cases, Bool-cases, arith,
}
use linux_process_analyzer.Prelude.Cstr.{Bytes}
use linux_process_analyzer.Args.{
  ParseArgsStatus, parse_args_error, parse_args_ok, PidWhitelist, ApArguments,
}
use linux_process_analyzer.Args.Numbers.{
  parse_integer_arg, parse_number_of_snapshots, parse_duration_ms,
}
use linux_process_analyzer.Args.Whitelist.{
  filter_parse_pid, filter_parse_comm, parse_filter_pid_list,
}
use linux_process_analyzer.Args.Options.{
  ParseState, Round, goes_on, returns, Metric, take_interval, take_count, take_metric, take_filter,
  take_metric_or_flag, metric_of, proceed, step, parse_options, conclude, ap_parse_args,
}

-- The argument of the last option of a letter.
abbrev pub last_arg : ℕ → List (ℕ × Bytes) → Option Bytes
last_arg letter [] = none
last_arg letter ((opt, arg) ∷ options) = elim (last_arg letter options) [
  | some a ↦ some a
  | none ↦ if opt == letter then some arg else none
]

-- The value of a field after some options, of which `o` is the last argument with its letter.
abbrev Set : (Bytes → Option ℕ) → Option Bytes → Bool × ℕ → Bool × ℕ → Type 0
Set parse none before after = after ≡ before
Set parse (some arg) before after = (after.0 ≡ true) × (parse arg ≡ some after.1)

abbrev count_of : ParseState → Bool × ℕ
count_of s = (s.count_provided, s.cfg.count)

abbrev interval_of : ParseState → Bool × ℕ
interval_of s = (s.interval_provided, s.cfg.interval_ms)

abbrev Keeps : ParseState → Round → Type 0
Keeps s (goes_on s') = (count_of s' ≡ count_of s) × (interval_of s' ≡ interval_of s)
Keeps s (returns cfg) = Unit {0}

take_metric-Keeps : (x : Metric) (s : ParseState) (o : Option ℕ) → Keeps s (take_metric x s o)
unfolding take_metric
take_metric-Keeps x s none = tt
take_metric-Keeps x s (some n) = (refl, refl)

take_filter-Keeps :
    (s : ParseState) (o : ParseArgsStatus × PidWhitelist) → Keeps s (take_filter s o)
unfolding take_filter
take_filter-Keeps s (parse_args_error, w) = tt
take_filter-Keeps s (parse_args_ok, w) = (refl, refl)

take_metric_or_flag-Keeps :
    (s : ParseState) (opt : ℕ) (arg : Bytes) (x : Option Metric)
    → Keeps s (take_metric_or_flag s opt arg x)
unfolding take_metric_or_flag
take_metric_or_flag-Keeps s opt arg (some x) = take_metric-Keeps x s (parse_integer_arg arg)
take_metric_or_flag-Keeps s opt arg none = elim (Bool-cases (opt == b'j')) [
  | inl yes_j ↦ rw yes_j (refl, refl)
  | inr no_j ↦ rw no_j tt
]

-- What one option with an argument does to the two fields.
abbrev OneSet : ParseState → ℕ → Bytes → Round → Type 0
OneSet s opt arg (returns cfg) = Unit {0}
OneSet s opt arg (goes_on s') =
    Set parse_number_of_snapshots (if opt == b'n' then some arg else none) (count_of s)
      (count_of s')
    × Set parse_duration_ms (if opt == b'i' then some arg else none) (interval_of s)
        (interval_of s')

take_count-Set :
    (s : ParseState) (arg : Bytes)
    → OneSet s b'n' arg (take_count s (parse_number_of_snapshots arg))
unfolding take_count
take_count-Set s arg = elim (Option-cases (parse_number_of_snapshots arg)) [
  | inl refused ↦ rw refused tt
  | inr (n, accepted) ↦ rw accepted ((refl, accepted), refl)
]

take_interval-Set :
    (s : ParseState) (arg : Bytes) → OneSet s b'i' arg (take_interval s (parse_duration_ms arg))
unfolding take_interval
take_interval-Set s arg = elim (Option-cases (parse_duration_ms arg)) [
  | inl refused ↦ rw refused tt
  | inr (n, accepted) ↦ rw accepted (refl, (refl, accepted))
]

Keeps-OneSet :
    (s : ParseState) (opt : ℕ) (arg : Bytes) (r : Round)
    → (opt == b'n') ≡ false
    → (opt == b'i') ≡ false
    → Keeps s r
    → OneSet s opt arg r
Keeps-OneSet s opt arg (returns cfg) n i h = tt
Keeps-OneSet s opt arg (goes_on s') n i h = rw (n, i) h

OneSet-letter :
    (s : ParseState) (opt letter : ℕ) (arg : Bytes) (r : Round)
    → (opt == letter) ≡ true
    → OneSet s letter arg r
    → OneSet s opt arg r
OneSet-letter s opt letter arg r e h =
    subst (λ (x : ℕ). OneSet s x arg r) (sym ((==_iff opt letter).0 e)) h

Set-trans :
    (parse : Bytes → Option ℕ) (opt letter : ℕ) (arg : Bytes) (o : Option Bytes) (a b c : Bool × ℕ)
    → Set parse (if opt == letter then some arg else none) a b
    → Set parse o b c
    → Set parse (elim o [ some x ↦ some x | none ↦ if opt == letter then some arg else none ]) a c
Set-trans parse opt letter arg (some x) a b c h k = k
Set-trans parse opt letter arg none a b c h k =
    subst (λ (x : Bool × ℕ). Set parse (if opt == letter then some arg else none) a x) (sym k) h

-- A branch that is not of 'i' or 'n'.
abbrev other : (ℕ → Bool) → ParseState → ℕ → Bytes → Round
other alloc s opt arg =
    if opt == b'k'
    then take_filter s (parse_filter_pid_list alloc filter_parse_pid arg s.cfg.pid_whitelist)
    else if opt == b'l'
    then take_filter s (parse_filter_pid_list alloc filter_parse_comm arg s.cfg.pid_whitelist)
    else take_metric_or_flag s opt arg (metric_of opt)

Keeps-if :
    (s : ParseState) (b : Bool) (x y : Round) → Keeps s x → Keeps s y → Keeps s (if b then x else y)
Keeps-if s true x y h k = h
Keeps-if s false x y h k = k

module _ (alloc : ℕ → Bool) where
  step-other :
      (s : ParseState) (opt : ℕ) (arg : Bytes)
      → (opt == b'i') ≡ false
      → (opt == b'n') ≡ false
      → step alloc s opt arg ≡ other alloc s opt arg
  unfolding step
  step-other s opt arg i n = rw (i, n) refl

  step-i :
      (s : ParseState) (opt : ℕ) (arg : Bytes)
      → (opt == b'i') ≡ true
      → step alloc s opt arg ≡ take_interval s (parse_duration_ms arg)
  unfolding step
  step-i s opt arg i = rw i refl

  step-n :
      (s : ParseState) (opt : ℕ) (arg : Bytes)
      → (opt == b'i') ≡ false
      → (opt == b'n') ≡ true
      → step alloc s opt arg ≡ take_count s (parse_number_of_snapshots arg)
  unfolding step
  step-n s opt arg i n = rw (i, n) refl

  other-Keeps : (s : ParseState) (opt : ℕ) (arg : Bytes) → Keeps s (other alloc s opt arg)
  other-Keeps s opt arg = Keeps-if s (opt == b'k') _ _ (take_filter-Keeps s _) (
      Keeps-if s (opt == b'l') _ _ (take_filter-Keeps s _)
        (take_metric_or_flag-Keeps s opt arg (metric_of opt)))

  step-OneSet : (s : ParseState) (opt : ℕ) (arg : Bytes) → OneSet s opt arg (step alloc s opt arg)
  step-OneSet s opt arg = elim (Bool-cases (opt == b'i')) [
    | inl i ↦
        subst (OneSet s opt arg) (sym (step-i s opt arg i))
          (OneSet-letter s opt b'i' arg _ i (take_interval-Set s arg))
    | inr i ↦ elim (Bool-cases (opt == b'n')) [
      | inl n ↦
          subst (OneSet s opt arg) (sym (step-n s opt arg i n))
            (OneSet-letter s opt b'n' arg _ n (take_count-Set s arg))
      | inr n ↦
          subst (OneSet s opt arg) (sym (step-other s opt arg i n))
            (Keeps-OneSet s opt arg _ n i (other-Keeps s opt arg))
    ]
  ]

  -- A loop that ends with no error went through its first round with none.
  proceed-goes_on :
      (r : Round) (k : ParseState → Round) (t : ParseState)
      → proceed r k ≡ goes_on t
      → (u : ParseState) × (r ≡ goes_on u) × (k u ≡ goes_on t)
  proceed-goes_on (returns cfg) k t h = cc
  proceed-goes_on (goes_on s) k t h = (s, refl, h)

  parse_options-Set :
      (options : List (ℕ × Bytes)) (s t : ParseState)
      → parse_options alloc s options ≡ goes_on t
      → Set parse_number_of_snapshots (last_arg b'n' options) (count_of s) (count_of t)
        × Set parse_duration_ms (last_arg b'i' options) (interval_of s) (interval_of t)
  unfolding parse_options
  parse_options-Set [] s t h = (ground arith, ground arith)
  parse_options-Set ((opt, arg) ∷ options) s t h =
      let (u, first, later) = proceed-goes_on (step alloc s opt arg) _ t h in
      let one = subst (OneSet s opt arg) first (step-OneSet s opt arg) in
      let rest = parse_options-Set options u t later in
      (
        Set-trans parse_number_of_snapshots opt b'n' arg (last_arg b'n' options) _ _ _ one.0 rest.0,
        Set-trans parse_duration_ms opt b'i' arg (last_arg b'i' options) _ _ _ one.1 rest.1,
      )

-- The last argument of a letter, if `provided` says that there was one.
provided_by :
    (parse : Bytes → Option ℕ) (o : Option Bytes) (n : ℕ) (b : Bool × ℕ)
    → Set parse o (false, n) b
    → b.0 ≡ true
    → (arg : Bytes) × (o ≡ some arg) × (parse arg ≡ some b.1)
provided_by parse none n b h e = absurd (ground (arith, ap (λ (x : Bool × ℕ). x.0) h))
provided_by parse (some arg) n b h e = (arg, refl, h.1)

abbrev pub Last : (Bytes → Option ℕ) → Option Bytes → ℕ → Type 0
Last parse o n = (arg : Bytes) × (o ≡ some arg) × (parse arg ≡ some n)

conclude-ok :
    (metrics_output : Bool) (r : Round)
    → (conclude metrics_output r).status ≡ parse_args_ok
    → (t : ParseState) × (r ≡ goes_on t)
      × (t.count_provided ≡ true)
      × (t.interval_provided ≡ true)
      × (t.cfg ≡ (conclude metrics_output r).cfg)
unfolding conclude
conclude-ok metrics_output (returns cfg) h = cc
conclude-ok metrics_output (goes_on s) h = (s, refl, ground arith, ground arith, ground arith)

-- When a command line is accepted, it has a count option and an interval option, and the snapshot
-- count and the interval are the parsed arguments of the last of each.
pub ap_parse_args-Last :
    (alloc : ℕ → Bool) (console json : Bool) (options : List (ℕ × Bytes)) (cfg : ApArguments)
    → (ap_parse_args alloc console json options cfg).status ≡ parse_args_ok
    → Last parse_number_of_snapshots
        (last_arg b'n' options)
        (ap_parse_args alloc console json options cfg).cfg.count
      × Last parse_duration_ms
          (last_arg b'i' options)
          (ap_parse_args alloc console json options cfg).cfg.interval_ms
unfolding ap_parse_args
ap_parse_args-Last alloc console json options cfg h =
    let (t, ended, c, i, e) = conclude-ok (console || json) _ h in
    let (count, interval) = parse_options-Set alloc options _ t ended in
    rw (← e) (
      (
        provided_by parse_number_of_snapshots (last_arg b'n' options) _ _ count c,
        provided_by parse_duration_ms (last_arg b'i' options) _ _ interval i,
      ))
