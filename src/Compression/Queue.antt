-- ===== src/Compression/Queue.antt =====
-- The program's main thread and the worker of code/compression/compression_worker.c as one system
-- of steps: each critical section, and each job, is a step. The condition variable blocks the worker
-- until it is signalled, or until it wakes without a signal.
pub mod Exit
use mathlib.Core.List.{append-nil, append_assoc}
use linux_process_analyzer.Prelude.{
  ℕ, zero, suc, ◌+◌, ◌-◌, ◌*◌, ◌≤◌, ◌≡◌, refl, sym, ap, ◌∙◌, Bool, true, false, Option, none, some,
  List, [], ◌∷◌, ◌++◌, arith, length, take, ◌≢◌, subst, if◌then◌else◌,
}
use linux_process_analyzer.Prelude.Cstr.{Bytes}
use linux_process_analyzer.Config.{path_max}
use linux_process_analyzer.Snapshot.Files.{Files}
use linux_process_analyzer.Compression.{
  Thread, at_lock, waiting, exited, compressing, pthread_cond_signal, Section, waits, breaks, takes,
  critical_section, compression_enqueue_file, Gzip, process_job,
}

-- The globals of the queue, the thread, the directory, and two histories: the paths that were
-- put into the queue and those whose job is over, both in the order of time.
pub record System : Type 0 where
  pub jobs : List Bytes
  pub worker_running : Bool
  pub thread : Thread
  pub files : Files
  pub enqueued : List Bytes
  pub finished : List Bytes

-- After `compression_worker_init`.
abbrev pub started : Files → System
started files = record {
  jobs = [];
  worker_running = true;
  thread = at_lock;
  files = files;
  enqueued = [];
  finished = [];
}

-- pthread_cond_wait returns, to a test of its condition, without a signal.
abbrev pub wake : Thread → Thread
wake waiting = at_lock
wake at_lock = at_lock
wake exited = exited
wake (compressing path) = compressing path

-- The call of the main thread for a rotated file, while compression is enabled.
unfoldable pub enqueue_job : Bool → Bytes → System → System
enqueue_job alloc path s =
    let q = compression_enqueue_file true alloc path (s.jobs, s.thread) in
    record s {
      jobs = q.0;
      thread = q.1;
      enqueued = if alloc then s.enqueued ++ take (path_max - 1) path ∷ [] else s.enqueued;
    }

-- The critical section of `compression_worker_shutdown`.
unfoldable pub stop_worker : System → System
stop_worker s = record s { worker_running = false; thread = pthread_cond_signal s.thread }

-- while (job_head) { ... free(tmp); }
unfoldable pub free_jobs : List Bytes → List Bytes
free_jobs [] = []
free_jobs (job ∷ jobs) = free_jobs jobs

module _ (gz : Gzip) (faults : Bytes → Bytes → Bool) where
  after_section : System → Section → System
  after_section s waits = record s { thread = waiting }
  after_section s breaks = record s { thread = exited }
  after_section s (takes job jobs) = record s { jobs = jobs; thread = compressing job }

  thread_from : System → Thread → System
  unfolding after_section
  thread_from s at_lock = after_section s (critical_section s.worker_running s.jobs)
  thread_from s (compressing path) = record s {
    thread = at_lock;
    files = process_job gz faults path s.files;
    finished = s.finished ++ path ∷ [];
  }
  thread_from s waiting = s
  thread_from s exited = s

  -- The next part of `compression_thread_func`. A thread that is blocked or has ended does nothing.
  unfoldable pub thread_step : System → System
  unfolding thread_from
  thread_step s = thread_from s s.thread

  -- The main thread writes and rotates files, and until it shuts the worker down it enqueues,
  -- unless malloc fails. The shutdown clears the flag and signals, and once the worker has exited and
  -- pthread_join returns it frees what is left in the queue.
  pub data Step : System → System → Type 0 where
    worker : (s : System) → Step s (thread_step s)
    wakes : (s : System) → Step s (record s { thread = wake s.thread })
    enqueue :
        (s : System) (alloc : Bool) (path : Bytes)
        → s.worker_running ≡ true
        → Step s (enqueue_job alloc path s)
    shut_down : (s : System) → Step s (stop_worker s)
    joined :
        (s : System)
        → s.thread ≡ exited
        → s.worker_running ≡ false
        → Step s (record s { jobs = free_jobs s.jobs })
    main_writes : (s : System) (files : Files) → Step s (record s { files = files })

  pub data Reaches : System → System → Type 0 where
    here : (s : System) → Reaches s s
    then_step : (s t u : System) → Reaches s t → Step t u → Reaches s u

abbrev pub in_hand : Thread → List Bytes
in_hand at_lock = []
in_hand waiting = []
in_hand exited = []
in_hand (compressing path) = path ∷ []

-- No job is lost, doubled or overtaken, the worker exits only when nothing is left to do, and no
-- signal is lost: it is blocked only while there is nothing to do.
record IsOrderly (s : System) : Type 0 where
  order : s.finished ++ (in_hand s.thread ++ s.jobs) ≡ s.enqueued
  at_exit : s.thread ≡ exited → (s.worker_running ≡ false) × (s.jobs ≡ [])
  at_wait : s.thread ≡ waiting → (s.worker_running ≡ true) × (s.jobs ≡ [])

module _ (gz : Gzip) (faults : Bytes → Bytes → Bool) where
  after_section-IsOrderly :
      (s : System) (running : Bool) (jobs : List Bytes)
      → s.worker_running ≡ running
      → s.jobs ≡ jobs
      → s.thread ≡ at_lock
      → IsOrderly s
      → IsOrderly (after_section gz faults s (critical_section running jobs))
  unfolding critical_section after_section
  after_section-IsOrderly s running (job ∷ jobs) r e t h = record {
    order = ground (arith, h.order);
    at_exit = λ x. cc;
    at_wait = λ x. cc;
  }
  after_section-IsOrderly s true [] r e t h = record {
    order = ground (arith, h.order);
    at_exit = λ x. cc;
    at_wait = λ x. (r, e);
  }
  after_section-IsOrderly s false [] r e t h = record {
    order = ground (arith, h.order);
    at_exit = λ x. (r, e);
    at_wait = λ x. cc;
  }

  thread_from-IsOrderly :
      (s : System) (t : Thread) → s.thread ≡ t → IsOrderly s → IsOrderly (thread_from gz faults s t)
  unfolding thread_from
  thread_from-IsOrderly s at_lock e h =
      after_section-IsOrderly s s.worker_running s.jobs refl refl e h
  thread_from-IsOrderly s waiting e h = h
  thread_from-IsOrderly s exited e h = h
  thread_from-IsOrderly s (compressing path) e h = record {
    order =
        append_assoc s.finished (path ∷ []) s.jobs
        ∙ ap (λ (l : Thread). s.finished ++ (in_hand l ++ s.jobs)) (sym e)
        ∙ h.order;
    at_exit = λ x. cc;
    at_wait = λ x. cc;
  }

  enqueue-order :
      (s : System) (path : Bytes)
      → IsOrderly s
      → s.finished ++ (in_hand s.thread ++ (s.jobs ++ path ∷ [])) ≡ s.enqueued ++ path ∷ []
  enqueue-order s path h =
      ap (λ (l : List Bytes). s.finished ++ l)
        (sym (append_assoc (in_hand s.thread) s.jobs (path ∷ [])))
      ∙ sym (append_assoc s.finished (in_hand s.thread ++ s.jobs) (path ∷ []))
      ∙ ap (λ (l : List Bytes). l ++ path ∷ []) h.order

  -- A thread that was woken has the same work in hand, is not blocked, and ended only before.
  woken :
      (t : Thread)
      → (in_hand (pthread_cond_signal t) ≡ in_hand t)
        × (pthread_cond_signal t ≢ waiting)
        × (pthread_cond_signal t ≡ exited → t ≡ exited)
  woken at_lock = (refl, (λ x. cc), λ x. x)
  woken waiting = (refl, (λ x. cc), λ x. cc)
  woken exited = (refl, (λ x. cc), λ x. x)
  woken (compressing path) = (refl, (λ x. cc), λ x. x)

  wake-eq : (t : Thread) → wake t ≡ pthread_cond_signal t
  wake-eq at_lock = refl
  wake-eq waiting = refl
  wake-eq exited = refl
  wake-eq (compressing path) = refl

  signal-IsOrderly :
      (s : System) → IsOrderly s → IsOrderly (record s { thread = pthread_cond_signal s.thread })
  signal-IsOrderly s h =
      let w = woken s.thread in
      record {
        order = ap (λ (l : List Bytes). s.finished ++ (l ++ s.jobs)) w.0 ∙ h.order;
        at_exit = λ x. h.at_exit (w.2 x);
        at_wait = λ x. absurd (w.1 x);
      }

  enqueue_job-IsOrderly :
      (s : System) (alloc : Bool) (path : Bytes)
      → s.worker_running ≡ true
      → IsOrderly s
      → IsOrderly (enqueue_job alloc path s)
  unfolding enqueue_job compression_enqueue_file
  enqueue_job-IsOrderly s false path running h = h
  enqueue_job-IsOrderly s true path running h =
      let w = woken s.thread in
      let p = take (path_max - 1) path in
      record {
        order =
            ap (λ (l : List Bytes). s.finished ++ (l ++ (s.jobs ++ p ∷ []))) w.0
            ∙ enqueue-order s p h;
        at_exit = λ x. cc ((h.at_exit (w.2 x)).0, running);
        at_wait = λ x. absurd (w.1 x);
      }

  Step-IsOrderly : (s t : System) → Step gz faults s t → IsOrderly s → IsOrderly t
  unfolding thread_step free_jobs stop_worker
  Step-IsOrderly s t (worker _) h = thread_from-IsOrderly s s.thread refl h
  Step-IsOrderly s t (wakes _) h =
      subst (λ (l : Thread). IsOrderly (record s { thread = l })) (sym (wake-eq s.thread))
        (signal-IsOrderly s h)
  Step-IsOrderly s t (enqueue _ alloc path running) h = enqueue_job-IsOrderly s alloc path running h
  Step-IsOrderly s t (joined _ x stopped) h = record {
    order =
        ap (λ (l : List Bytes). s.finished ++ (in_hand s.thread ++ l))
          (ap free_jobs (h.at_exit x).1 ∙ sym (h.at_exit x).1)
        ∙ h.order;
    at_exit = λ y. (stopped, ap free_jobs (h.at_exit x).1);
    at_wait = λ y. cc;
  }
  Step-IsOrderly s t (shut_down _) h =
      let w = woken s.thread in
      let k = signal-IsOrderly s h in
      record {
        order = k.order;
        at_exit = λ x. (refl, (k.at_exit x).1);
        at_wait = λ x. absurd (w.1 x);
      }
  Step-IsOrderly s t (main_writes _ files) h = record {
    order = h.order;
    at_exit = h.at_exit;
    at_wait = h.at_wait;
  }

  Reaches-IsOrderly : (s t : System) → Reaches gz faults s t → IsOrderly s → IsOrderly t
  Reaches-IsOrderly s t (here _) h = h
  Reaches-IsOrderly s u (then_step _ t _ before step) h =
      Step-IsOrderly t u step (Reaches-IsOrderly s t before h)

  started-IsOrderly : (files : Files) → IsOrderly (started files)
  started-IsOrderly files = record { order = refl; at_exit = λ x. cc; at_wait = λ x. cc }

  exited-finished :
      (s : System)
      → s.thread ≡ exited
      → s.jobs ≡ []
      → s.finished ++ (in_hand s.thread ++ s.jobs) ≡ s.enqueued
      → s.finished ≡ s.enqueued
  exited-finished s x e o =
      sym (append-nil s.finished)
      ∙ ap (λ (l : List Bytes). s.finished ++ (in_hand exited ++ l)) (sym e)
      ∙ ap (λ (t : Thread). s.finished ++ (in_hand t ++ s.jobs)) (sym x)
      ∙ o

  -- However the steps of the main thread and of the worker interleave, the finished jobs, the one
  -- in the worker's hand and those in the queue are the enqueued paths in their order; so when the
  -- worker has exited, each path that was enqueued was worked on, once and in order, and the
  -- queue that the shutdown clears is empty.
  pub Reaches-in_order :
      (files : Files) (s : System)
      → Reaches gz faults (started files) s
      → (s.finished ++ (in_hand s.thread ++ s.jobs) ≡ s.enqueued)
        × (s.thread ≡ exited → (s.finished ≡ s.enqueued) × (s.jobs ≡ []))
  Reaches-in_order files s steps =
      let h = Reaches-IsOrderly (started files) s steps (started-IsOrderly files) in
      (h.order, λ x. (exited-finished s x (h.at_exit x).1 h.order, (h.at_exit x).1))
