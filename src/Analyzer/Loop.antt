-- ===== src/Analyzer/Loop.antt =====
-- How many snapshots the loop of code/process_analyzer.c takes.
use linux_process_analyzer.Prelude.{
  ℕ, zero, suc, ◌+◌, ◌-◌, ◌*◌, ◌≤◌, ◌<◌, ◌≡◌, refl, sym, ap, ◌∙◌, inl, inr, Bool, true, false,
  if-true, if-false, lt→ltb, ltb→lt, List, [], ◌∷◌, map, ltb, arith, length, take, Bool-cases,
}
use linux_process_analyzer.Analyzer.{
  timer_value, ReadResult, expired, LoopState, run_expirations, next_iteration, on_read, loop_round,
  loop,
}

-- The timer's value is the interval, in a form that timerfd_settime accepts, and it is not zero
-- unless the interval is.
pub timer_value-interval :
    (interval_ms : ℕ)
    → (let (seconds, nanoseconds) = timer_value interval_ms in
        (seconds * 1000000000 + nanoseconds ≡ interval_ms * 1000000) × (nanoseconds < 1000000000))
unfolding timer_value
timer_value-interval interval_ms = (omega arith, omega arith)

run_expirations-eq :
    (count expirations : ℕ) (s : LoopState)
    → s.no_of_iterations < count
    → run_expirations count expirations s ≡ record s { snapshots = s.snapshots + expirations }
unfolding run_expirations
run_expirations-eq count zero s h = ap (λ (n : ℕ). record s { snapshots = n }) (omega arith)
run_expirations-eq count (suc expirations) s h =
    if-true _ s (lt→ltb s.no_of_iterations count h)
    ∙ run_expirations-eq count expirations (record s { snapshots = s.snapshots + 1 }) h
    ∙ ap (λ (n : ℕ). record s { snapshots = n }) (omega arith)

abbrev after_round : ℕ → LoopState → LoopState
after_round expirations s = record s {
  no_of_iterations = s.no_of_iterations + 1;
  snapshots = s.snapshots + expirations;
}

loop_round-expired :
    (count expirations : ℕ) (s : LoopState)
    → s.no_of_iterations < count
    → loop_round count false (expired expirations) s ≡ after_round expirations s
unfolding loop_round on_read next_iteration
loop_round-expired count expirations s h =
    if-true _ (record s { is_over = true }) (lt→ltb s.no_of_iterations count h)
    ∙ ap next_iteration (run_expirations-eq count expirations s h)

loop-over :
    (count : ℕ) (rounds : List (Bool × ReadResult)) (s : LoopState)
    → s.is_over ≡ true
    → loop count rounds s ≡ s
unfolding loop
loop-over count [] s h = refl
loop-over count ((stop, result) ∷ rounds) s h = if-true s _ h

loop_round-at_end :
    (count expirations : ℕ) (s : LoopState)
    → count ≤ s.no_of_iterations
    → loop_round count false (expired expirations) s ≡ record s { is_over = true }
unfolding loop_round
loop_round-at_end count expirations s h =
    if-false {b = ltb s.no_of_iterations count} _ (record s { is_over = true }) (ground arith)

-- The rounds in which the timer expired so often each, without a signal.
abbrev pub quiet : List ℕ → List (Bool × ReadResult)
quiet = map (λ n. (false, expired n))

abbrev pub sum : List ℕ → ℕ
sum [] = 0
sum (n ∷ ns) = n + sum ns

-- What the loop leaves behind from a state, when the timer expires often enough.
abbrev Counted : ℕ → List ℕ → LoopState → Type 0
Counted count es s =
    ((loop count (quiet es) s).no_of_iterations ≡ count)
    × ((loop count (quiet es) s).snapshots
        ≡ s.snapshots + sum (take (count - s.no_of_iterations) es))

loop_step :
    (count e : ℕ) (es : List ℕ) (s : LoopState)
    → s.is_over ≡ false
    → loop count (quiet (e ∷ es)) s ≡ loop count (quiet es) (loop_round count false (expired e) s)
unfolding loop
loop_step count e es s h = if-false s _ h

Counted-next :
    (count e : ℕ) (es : List ℕ) (s : LoopState)
    → s.is_over ≡ false
    → s.no_of_iterations < count
    → Counted count es (after_round e s)
    → Counted count (e ∷ es) s
Counted-next count e es s h below ih =
    let step =
      loop_step count e es s h ∙ ap (loop count (quiet es)) (loop_round-expired count e s below) in
    let more : count - s.no_of_iterations ≡ suc (count - (s.no_of_iterations + 1)) = omega arith in
    (
      ap (λ (x : LoopState). x.no_of_iterations) step ∙ ih.0,
      ap (λ (x : LoopState). x.snapshots) step
          ∙ ih.1
          ∙ sum_assoc s.snapshots e (sum (take (count - (s.no_of_iterations + 1)) es))
          ∙ ap (λ (k : ℕ). s.snapshots + sum (take k (e ∷ es))) (sym more),
    )
  where
    sum_assoc : (a b c : ℕ) → a + b + c ≡ a + (b + c)
    sum_assoc a b c = omega arith

Counted-end :
    (count e : ℕ) (es : List ℕ) (s : LoopState)
    → s.is_over ≡ false
    → s.no_of_iterations ≡ count
    → Counted count (e ∷ es) s
Counted-end count e es s h same =
    let step =
      loop_step count e es s h
      ∙ ap (loop count (quiet es)) (loop_round-at_end count e s (omega arith))
      ∙ loop-over count (quiet es) (record s { is_over = true }) refl in
    let none_left : count - s.no_of_iterations ≡ 0 = omega arith in
    (
      ap (λ (x : LoopState). x.no_of_iterations) step ∙ same,
      ap (λ (x : LoopState). x.snapshots) step
          ∙ zero_more s.snapshots
          ∙ ap (λ (k : ℕ). s.snapshots + sum (take k (e ∷ es))) (sym none_left),
    )
  where
    zero_more : (a : ℕ) → a ≡ a + 0
    zero_more a = omega arith

loop-Counted :
    (count : ℕ) (es : List ℕ) (s : LoopState)
    → s.is_over ≡ false
    → s.no_of_iterations ≤ count
    → count - s.no_of_iterations ≤ length es
    → Counted count es s
unfolding loop
loop-Counted count [] s h below enough =
    let none_left : count - s.no_of_iterations ≡ 0 = omega arith in
    (omega arith, rw none_left (omega arith))
loop-Counted count (e ∷ es) s h below enough = elim (Bool-cases (ltb s.no_of_iterations count)) [
  | inl more ↦
      let lt = ltb→lt s.no_of_iterations count more in
      Counted-next count e es s h lt
        (loop-Counted count es (after_round e s) h (omega (arith, lt)) (omega (arith, lt)))
  | inr last ↦ Counted-end count e es s h (ground arith)
]

abbrev pub at_start : LoopState
at_start = record { no_of_iterations = 0; snapshots = 0; is_over = false }

-- Without a signal or a failed read, when the timer is read often enough the loop makes as many
-- rounds as snapshots were requested, and takes a snapshot for each expiration of these rounds, so
-- more than were requested if the timer expired more than once between two reads.
pub loop-snapshots :
    (count : ℕ) (es : List ℕ)
    → count ≤ length es
    → ((loop count (quiet es) at_start).no_of_iterations ≡ count)
      × ((loop count (quiet es) at_start).snapshots ≡ sum (take count es))
loop-snapshots count es enough =
    let h = loop-Counted count es at_start refl (omega arith) (omega arith) in
    let whole : count - 0 ≡ count = omega arith in
    let bare : 0 + sum (take (count - 0) es) ≡ sum (take (count - 0) es) = omega arith in
    (h.0, h.1 ∙ bare ∙ ap (λ (k : ℕ). sum (take k es)) whole)
