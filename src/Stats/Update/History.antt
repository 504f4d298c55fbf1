-- ===== src/Stats/Update/History.antt =====
-- The table of processes against the samples of each process alone.
use mathlib.Core.Path.{subst}
use linux_process_analyzer.Prelude.{
  ℕ, ◌≡◌, refl, sym, ap, ◌∙◌, inl, inr, Bool, true, false, Option, none, some, List, [], ◌∷◌, ◌++◌,
  map, arith, ◌==◌, if◌then◌else◌, Bool-cases, Option-cases, if-true, if-if,
}
use linux_process_analyzer.Prelude.Int.{ℤ}
use linux_process_analyzer.Stats.{
  Float, ProcessState, ProcessStateInput, ProcessTable, IsTable, Stats, lookup_pid, replace,
}
use linux_process_analyzer.Stats.Sample.{sample, fresh}
use linux_process_analyzer.Stats.Sample.Frames.{pid-sample}
use linux_process_analyzer.Stats.Update.{
  save_timestamps, or_create, get_or_create_process, sample_at, process_stats_update,
}

module _ {D : Type 0} where
  lookup_pid-append :
      (k : ℕ) (l : List (ProcessState D)) (p : ProcessState D)
      → lookup_pid k l ≡ none
      → lookup_pid k (l ++ p ∷ []) ≡ (if p.pid == k then some p else none)
  lookup_pid-append k [] p h = refl
  lookup_pid-append k (q ∷ l) p h = ground (arith, lookup_pid-append k l p)

  lookup_pid-append_some :
      (k : ℕ) (l : List (ProcessState D)) (p q : ProcessState D)
      → lookup_pid k l ≡ some q
      → lookup_pid k (l ++ p ∷ []) ≡ some q
  lookup_pid-append_some k [] p q h = cc
  lookup_pid-append_some k (r ∷ l) p q h = ground (arith, lookup_pid-append_some k l p q)

  pid-lookup_pid :
      (k : ℕ) (l : List (ProcessState D)) (p : ProcessState D) → lookup_pid k l ≡ some p → p.pid ≡ k
  pid-lookup_pid k [] p h = cc
  pid-lookup_pid k (q ∷ l) p h = ground (arith, pid-lookup_pid k l p)

  lookup_pid-replace_ne :
      (k : ℕ) (l : List (ProcessState D)) (p : ProcessState D)
      → (p.pid == k) ≡ false
      → lookup_pid k (map (replace p) l) ≡ lookup_pid k l
  lookup_pid-replace_ne k [] p h = refl
  lookup_pid-replace_ne k (q ∷ l) p h = ground (arith, lookup_pid-replace_ne k l p)

  lookup_pid-replace_self :
      (l : List (ProcessState D)) (p q : ProcessState D)
      → lookup_pid p.pid l ≡ some q
      → lookup_pid p.pid (map (replace p) l) ≡ some p
  lookup_pid-replace_self [] p q h = cc
  lookup_pid-replace_self (r ∷ l) p q h = ground (arith, lookup_pid-replace_self l p q)

-- The record of process `k` after the events, each a sample and whether calloc would succeed,
-- given its record before them.
module _ {D : Type 0} (F : Float D) (hz cpus : ℤ) where
  abbrev pub sampled :
      Bool → ProcessStateInput D → Option (ProcessState D) → Option (ProcessState D)
  sampled alloc i (some ps) = some (sample F hz cpus i ps)
  sampled alloc i none = if alloc then some (sample F hz cpus i (fresh F i)) else none

  abbrev pub history :
      ℕ → List (Bool × ProcessStateInput D) → Option (ProcessState D) → Option (ProcessState D)
  history k [] o = o
  history k ((alloc, i) ∷ events) o = history k events (if i.pid == k then sampled alloc i o else o)

module _ {D T : Type 0} (F : Float D) (h : ProcessTable D T) where
  abbrev pub run : List (Bool × ProcessStateInput D) → Stats D T → Stats D T
  run [] s = s
  run ((alloc, i) ∷ events) s = run events (process_stats_update F h alloc i s)

  -- The table after the sample was taken of the record that was found or made.
  abbrev stored : Stats D T → ProcessStateInput D → Option (ProcessState D) × T → T
  stored s i (none, t) = t
  stored s i (some ps, t) = h.store t (sample F s.clock_ticks_per_second s.online_cpu_count i ps)

  table-sample_at :
      (s : Stats D T) (i : ProcessStateInput D) (r : Option (ProcessState D) × T)
      → (sample_at F h i (save_timestamps i.h_r_timestamp (record s { table = r.1 })) r.0).table
        ≡ stored s i r
  unfolding sample_at save_timestamps
  table-sample_at s i (none, t) = ground arith
  table-sample_at s i (some ps, t) = ground arith

  module _ (law : IsTable h) where
    find-store :
        (t : T) (p q : ProcessState D) (k : ℕ)
        → h.find t p.pid ≡ some q
        → h.find (h.store t p) k ≡ (if p.pid == k then some p else h.find t k)
    find-store t p q k e = elim (Bool-cases (p.pid == k)) [
      | inl same ↦
          let here : p.pid ≡ k = ground arith in
          rw same (
            law.find-iter _ k
            ∙ ap (lookup_pid k) (law.iter-store t p)
            ∙ subst (λ x. lookup_pid x (map (replace p) (h.iter t)) ≡ some p) here
                (lookup_pid-replace_self (h.iter t) p q (sym (law.find-iter t p.pid) ∙ e)))
      | inr other ↦ rw other (
          law.find-iter _ k
          ∙ ap (lookup_pid k) (law.iter-store t p)
          ∙ lookup_pid-replace_ne k (h.iter t) p other
          ∙ sym (law.find-iter t k))
    ]

    find-add :
        (t : T) (p : ProcessState D) (k : ℕ)
        → h.find t p.pid ≡ none
        → h.find (h.add t p) k ≡ (if p.pid == k then some p else h.find t k)
    find-add t p k e = elim (Option-cases (h.find t k)) [
      | inl new ↦
          law.find-iter _ k
          ∙ ap (lookup_pid k) (law.iter-add t p e)
          ∙ lookup_pid-append k (h.iter t) p (sym (law.find-iter t k) ∙ new)
          ∙ ap (λ o. if p.pid == k then some p else o) (sym new)
      | inr (q, old) ↦
          let distinct : (p.pid == k) ≡ false = ground (arith, ap (h.find t)) in
          law.find-iter _ k
          ∙ ap (lookup_pid k) (law.iter-add t p e)
          ∙ lookup_pid-append_some k (h.iter t) p q (sym (law.find-iter t k) ∙ old)
          ∙ rw distinct (sym old)
    ]

    pid-find : (t : T) (k : ℕ) (p : ProcessState D) → h.find t k ≡ some p → p.pid ≡ k
    pid-find t k p e = pid-lookup_pid k (h.iter t) p (sym (law.find-iter t k) ∙ e)

    -- The table after a sample of a process whose record is at hand.
    find-sample :
        (hz cpus : ℤ) (t : T) (i : ProcessStateInput D) (ps : ProcessState D) (k : ℕ)
        → h.find t i.pid ≡ some ps
        → h.find (h.store t (sample F hz cpus i ps)) k
          ≡ (if i.pid == k then some (sample F hz cpus i ps) else h.find t k)
    find-sample hz cpus t i ps k e =
        let here : (sample F hz cpus i ps).pid ≡ i.pid =
          pid-sample F hz cpus i ps ∙ pid-find t i.pid ps e in
        find-store t (sample F hz cpus i ps) ps k (ap (h.find t) here ∙ e)
        ∙ ap (λ (x : ℕ). if x == k then some (sample F hz cpus i ps) else h.find t k) here

    table-update :
        (s : Stats D T) (alloc : Bool) (i : ProcessStateInput D)
        → s.is_module_initialized ≡ true
        → (process_stats_update F h alloc i s).table
          ≡ stored s i (get_or_create_process F h alloc i s.table)
    unfolding process_stats_update
    table-update s alloc i e =
        ap (λ (u : Stats D T). u.table) (if-true _ _ e) ∙ table-sample_at s i _

    find-stored :
        (s : Stats D T) (i : ProcessStateInput D) (alloc : Bool) (o : Option (ProcessState D))
        (k : ℕ)
        → h.find s.table i.pid ≡ o
        → h.find (stored s i (or_create F h alloc i s.table o)) k ≡ (
            if i.pid == k
            then sampled F s.clock_ticks_per_second s.online_cpu_count alloc i o
            else h.find s.table k)
    unfolding or_create
    find-stored s i alloc (some ps) k e =
        find-sample s.clock_ticks_per_second s.online_cpu_count s.table i ps k e
    find-stored s i true none k e =
        let p = fresh F i in
        let same : p.pid ≡ i.pid = unfold fresh in refl in
        let found : h.find (h.add s.table p) i.pid ≡ some p =
          find-add s.table p i.pid (ap (h.find s.table) same ∙ e) ∙ (rw same (ground arith)) in
        find-sample s.clock_ticks_per_second s.online_cpu_count (h.add s.table p) i p k found
        ∙ ap
            (λ o.
              if i.pid == k
              then some (sample F s.clock_ticks_per_second s.online_cpu_count i p)
              else o)
            (find-add s.table p k (ap (h.find s.table) same ∙ e)
              ∙ ap (λ (x : ℕ). if x == k then some p else h.find s.table k) same)
        ∙ if-if (i.pid == k) _ _ _
    find-stored s i false none k e = elim (Bool-cases (i.pid == k)) [
      | inl same ↦
          let here : i.pid ≡ k = ground arith in
          rw same (subst (λ x. h.find s.table x ≡ none) here e)
      | inr other ↦ rw other refl
    ]

    -- An update takes a sample of the process with the input's PID, with a new record if it had
    -- none and there is memory, and leaves every other process as it was.
    pub find-process_stats_update :
        (alloc : Bool) (i : ProcessStateInput D) (s : Stats D T) (k : ℕ)
        → s.is_module_initialized ≡ true
        → h.find (process_stats_update F h alloc i s).table k ≡ (
            if i.pid == k
            then sampled F s.clock_ticks_per_second s.online_cpu_count alloc i
                (h.find s.table i.pid)
            else h.find s.table k)
    find-process_stats_update alloc i s k e =
        ap (λ t. h.find t k) (table-update s alloc i e)
        ∙ (unfold get_or_create_process in find-stored s i alloc (h.find s.table i.pid) k refl)

    globals-sampled :
        (s : Stats D T) (i : ProcessStateInput D) (r : Option (ProcessState D) × T)
        → (let t =
              if s.is_module_initialized
              then sample_at F h i (save_timestamps i.h_r_timestamp (record s { table = r.1 })) r.0
              else s in
            (t.is_module_initialized ≡ s.is_module_initialized)
            × (t.clock_ticks_per_second ≡ s.clock_ticks_per_second)
            × (t.online_cpu_count ≡ s.online_cpu_count))
    unfolding sample_at save_timestamps
    globals-sampled s i (none, t) = ground arith
    globals-sampled s i (some ps, t) = ground arith

    globals-update :
        (alloc : Bool) (i : ProcessStateInput D) (s : Stats D T)
        → (let t = process_stats_update F h alloc i s in
            (t.is_module_initialized ≡ s.is_module_initialized)
            × (t.clock_ticks_per_second ≡ s.clock_ticks_per_second)
            × (t.online_cpu_count ≡ s.online_cpu_count))
    unfolding process_stats_update save_timestamps
    globals-update alloc i s = globals-sampled s i (get_or_create_process F h alloc i s.table)

    same_pid :
        (s : Stats D T) (alloc : Bool) (i : ProcessStateInput D) (k : ℕ)
        → (if i.pid == k
            then sampled F s.clock_ticks_per_second s.online_cpu_count alloc i
                (h.find s.table i.pid)
            else h.find s.table k)
          ≡ (if i.pid == k
              then sampled F s.clock_ticks_per_second s.online_cpu_count alloc i (h.find s.table k)
              else h.find s.table k)
    same_pid s alloc i k = elim (Bool-cases (i.pid == k)) [
      | inr other ↦ rw other refl
      | inl same ↦
          let here : i.pid ≡ k = ground arith in
          ap
            (λ (x : ℕ).
              if i.pid == k
              then sampled F s.clock_ticks_per_second s.online_cpu_count alloc i (h.find s.table x)
              else h.find s.table k)
            here
    ]

    -- After any sequence of updates of an initialized module, the record of each PID is what the
    -- samples of that PID alone make of its record before, whatever other processes were sampled
    -- in between.
    pub find-run :
        (events : List (Bool × ProcessStateInput D)) (s : Stats D T) (k : ℕ)
        → s.is_module_initialized ≡ true
        → h.find (run events s).table k
          ≡ history F s.clock_ticks_per_second s.online_cpu_count k events (h.find s.table k)
    find-run [] s k e = refl
    find-run ((alloc, i) ∷ events) s k e =
        let u = process_stats_update F h alloc i s in
        let (on, hz, cpus) = globals-update alloc i s in
        find-run events u k (on ∙ e)
        ∙ ap (λ (c : ℤ). history F c u.online_cpu_count k events (h.find u.table k)) hz
        ∙ ap (λ (c : ℤ). history F s.clock_ticks_per_second c k events (h.find u.table k)) cpus
        ∙ ap (history F s.clock_ticks_per_second s.online_cpu_count k events)
            (find-process_stats_update alloc i s k e ∙ same_pid s alloc i k)
