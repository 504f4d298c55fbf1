-- ===== src/Compression/Queue/Exit.antt =====
-- The shutdown of code/compression/compression_worker.c: pthread_join returns.
use linux_process_analyzer.Prelude.{
  ℕ, zero, suc, ◌+◌, ◌*◌, ◌≤◌, ◌≡◌, ◌≢◌, Option, none, some, refl, ap, ◌∙◌, Bool, true, false,
  if◌then◌else◌, List, [], ◌∷◌, arith, length,
}
use linux_process_analyzer.Prelude.Cstr.{Bytes}
use linux_process_analyzer.Compression.{
  critical_section, Section, waits, breaks, takes, Gzip, Thread, at_lock, waiting, exited,
  compressing, pthread_cond_signal,
}
use linux_process_analyzer.Snapshot.Files.{Files}
use linux_process_analyzer.Compression.Queue.{
  System, stop_worker, after_section, thread_from, thread_step, free_jobs, Reaches, then_step,
  worker, shut_down, started, Reaches-in_order,
}

abbrev work : Thread → List Bytes → ℕ
work at_lock jobs = 2 * length jobs + 1
work (compressing path) jobs = 2 * length jobs + 2
work waiting jobs = 0
work exited jobs = 0

module _ (gz : Gzip) (faults : Bytes → Bytes → Bool) where
  abbrev pub run_thread : ℕ → System → System
  run_thread zero s = s
  run_thread (suc n) s = run_thread n (thread_step gz faults s)

  -- The flag is cleared, the thread is not blocked, and `n` steps are enough for its work.
  abbrev Progress : ℕ → System → Type 0
  Progress n s = (s.worker_running ≡ false) × (s.thread ≢ waiting) × (work s.thread s.jobs ≤ n)

  after_section-Progress :
      (n : ℕ) (s : System) (running : Bool) (jobs : List Bytes)
      → running ≡ false
      → s.worker_running ≡ false
      → 2 * length jobs + 1 ≤ suc n
      → Progress n (after_section gz faults s (critical_section running jobs))
  unfolding critical_section after_section
  after_section-Progress n s true [] f r h = cc
  after_section-Progress n s false [] f r h = (r, (λ x. cc), omega arith)
  after_section-Progress n s running (job ∷ jobs) f r h = (r, (λ x. cc), omega arith)

  thread_from-Progress :
      (n : ℕ) (s : System) (t : Thread)
      → s.thread ≡ t
      → s.worker_running ≡ false
      → s.thread ≢ waiting
      → work t s.jobs ≤ suc n
      → Progress n (thread_from gz faults s t)
  unfolding thread_from
  thread_from-Progress n s at_lock e r w h =
      after_section-Progress n s s.worker_running s.jobs r r h
  thread_from-Progress n s (compressing path) e r w h = (r, (λ x. cc), omega arith)
  thread_from-Progress n s waiting e r w h = absurd (w e)
  thread_from-Progress n s exited e r w h = (r, w, rw e (omega arith))

  work-exited : (t : Thread) (jobs : List Bytes) → t ≢ waiting → work t jobs ≤ 0 → t ≡ exited
  work-exited at_lock jobs w h = absurd (omega arith)
  work-exited (compressing path) jobs w h = absurd (omega arith)
  work-exited waiting jobs w h = absurd (w refl)
  work-exited exited jobs w h = refl

  run_thread-exits : (n : ℕ) (s : System) → Progress n s → (run_thread n s).thread ≡ exited
  unfolding thread_step
  run_thread-exits zero s (r, w, h) = work-exited s.thread s.jobs w h
  run_thread-exits (suc n) s (r, w, h) =
      run_thread-exits n (thread_from gz faults s s.thread)
        (thread_from-Progress n s s.thread refl r w h)

  work-bound : (t : Thread) (jobs : List Bytes) → work t jobs ≤ 2 * length jobs + 2
  work-bound at_lock jobs = omega arith
  work-bound (compressing path) jobs = omega arith
  work-bound waiting jobs = omega arith
  work-bound exited jobs = omega arith

  -- After the shutdown a worker that is not blocked exits within two steps for each job that is
  -- still queued, and two more.
  pub shut_down-exits :
      (s : System)
      → s.worker_running ≡ false
      → s.thread ≢ waiting
      → (run_thread (2 * length s.jobs + 2) s).thread ≡ exited
  shut_down-exits s r w =
      run_thread-exits (2 * length s.jobs + 2) s (r, w, work-bound s.thread s.jobs)

module _ (gz : Gzip) (faults : Bytes → Bytes → Bool) where
  -- pthread_join returns when the thread has ended. The rounds of the thread are enough for all of
  -- its work, but a thread that is blocked stays where it is, and then the join never returns.
  pub pthread_join : System → System
  pthread_join s = run_thread gz faults (2 * length s.jobs + 2) s

  after_join : Thread → System → Option System
  after_join exited s = some (record s { jobs = free_jobs s.jobs })
  after_join at_lock s = none
  after_join waiting s = none
  after_join (compressing path) s = none

  -- The main thread does nothing else meanwhile; `none` is a shutdown that does not return.
  pub compression_worker_shutdown : Bool → System → Option System
  unfolding pthread_join after_join
  compression_worker_shutdown enabled s =
      let after = pthread_join (stop_worker s) in
      if enabled then after_join after.thread after else some s

  run_thread-Reaches :
      (n : ℕ) (start s : System)
      → Reaches gz faults start s
      → Reaches gz faults start (run_thread gz faults n s)
  run_thread-Reaches zero start s r = r
  run_thread-Reaches (suc n) start s r =
      run_thread-Reaches n start (thread_step gz faults s)
        (then_step start s (thread_step gz faults s) r (worker s))

  after_section-enqueued :
      (s : System) (section : Section)
      → ((after_section gz faults s section).enqueued ≡ s.enqueued)
        × ((after_section gz faults s section).worker_running ≡ s.worker_running)
  unfolding after_section
  after_section-enqueued s waits = (refl, refl)
  after_section-enqueued s breaks = (refl, refl)
  after_section-enqueued s (takes job jobs) = (refl, refl)

  thread_from-enqueued :
      (s : System) (t : Thread)
      → ((thread_from gz faults s t).enqueued ≡ s.enqueued)
        × ((thread_from gz faults s t).worker_running ≡ s.worker_running)
  unfolding thread_from
  thread_from-enqueued s at_lock =
      after_section-enqueued s (critical_section s.worker_running s.jobs)
  thread_from-enqueued s waiting = (refl, refl)
  thread_from-enqueued s exited = (refl, refl)
  thread_from-enqueued s (compressing path) = (refl, refl)

  run_thread-enqueued :
      (n : ℕ) (s : System)
      → ((run_thread gz faults n s).enqueued ≡ s.enqueued)
        × ((run_thread gz faults n s).worker_running ≡ s.worker_running)
  unfolding thread_step
  run_thread-enqueued zero s = (refl, refl)
  run_thread-enqueued (suc n) s =
      let e = thread_from-enqueued s s.thread in
      let ih = run_thread-enqueued n (thread_step gz faults s) in (ih.0 ∙ e.0, ih.1 ∙ e.1)

  signal-ne-waiting : (t : Thread) → pthread_cond_signal t ≢ waiting
  signal-ne-waiting at_lock e = cc
  signal-ne-waiting waiting e = cc
  signal-ne-waiting exited e = cc
  signal-ne-waiting (compressing path) e = cc

  after_join-exited :
      (s : System)
      → s.thread ≡ exited
      → after_join s.thread s ≡ some (record s { jobs = free_jobs s.jobs })
  unfolding after_join
  after_join-exited s e = ap (λ (t : Thread). after_join t s) e

  -- From each state that the program can reach after the start of the worker, also one in which the
  -- worker is blocked until it is signalled, the shutdown returns: the worker has exited, each path
  -- that was enqueued has been worked on, once and in order, and the queue is empty.
  pub compression_worker_shutdown-finishes :
      (files : Files) (s : System)
      → Reaches gz faults (started files) s
      → (after : System) × (compression_worker_shutdown true s ≡ some after)
        × (after.thread ≡ exited)
        × (after.worker_running ≡ false)
        × (after.finished ≡ s.enqueued)
        × (after.jobs ≡ [])
  unfolding compression_worker_shutdown pthread_join free_jobs stop_worker
  compression_worker_shutdown-finishes files s reached =
      let stopped = stop_worker s in
      let n = 2 * length s.jobs + 2 in
      let start = started files in
      let after = run_thread gz faults n stopped in
      let exits : after.thread ≡ exited =
        shut_down-exits gz faults stopped refl (signal-ne-waiting s.thread) in
      let r =
        run_thread-Reaches n start stopped (then_step start s stopped reached (shut_down s)) in
      let e = run_thread-enqueued n stopped in
      let done = (Reaches-in_order gz faults files after r).1 exits in
      (
        record after { jobs = free_jobs after.jobs },
        after_join-exited after exits,
        exits,
        e.1,
        done.0 ∙ e.0,
        ap free_jobs done.1,
      )
