-- ===== src/Tests/Compressor.antt =====
-- The worker of code/compression at concrete inputs.
use linux_process_analyzer.Prelude.{
  ◌+◌, ◌<◌, ◌≡◌, ◌≢◌, refl, Bool, true, false, none, some, [], ◌∷◌, ◌++◌, arith, length,
  if◌then◌else◌,
}
use linux_process_analyzer.Prelude.Cstr.{Bytes, codes, str_eq}
use linux_process_analyzer.Prelude.Strto.{decimal, digits_onto}
use linux_process_analyzer.Tests.Models.{zlib}
use linux_process_analyzer.Snapshot.Files.{Files}
use linux_process_analyzer.Snapshot.Rotate.{unique_name}
use linux_process_analyzer.Compression.{process_job, critical_section, exited, waiting}
use linux_process_analyzer.Compression.Queue.{
  System, started, thread_step, worker, enqueue_job, stop_worker, enqueue, shut_down, Reaches, here,
  then_step, in_hand, Reaches-in_order,
}
use linux_process_analyzer.Compression.Queue.Exit.{
  run_thread, compression_worker_shutdown, compression_worker_shutdown-finishes,
}
use linux_process_analyzer.Compression.Job.{process_job-Compressed}

abbrev no_faults : Bytes → Bytes → Bool
no_faults old new = false

abbrev log : Bytes
log = codes "/tmp/ptime/ptime.log"

abbrev rotated : Bytes
rotated = codes "/tmp/ptime/ptime.log.1.1700000000.0"

rotated-eq : unique_name log 1700000000 0 ≡ rotated
unfolding unique_name decimal digits_onto
rotated-eq = refl

abbrev one_file : Files
one_file p = if str_eq p rotated then some (codes "lines") else none

one_file-rotated : one_file (unique_name log 1700000000 0) ≡ some (codes "lines")
unfolding unique_name decimal digits_onto str_eq
one_file-rotated = refl

room : length (log ++ (codes ".1." ++ (decimal 1700000000 ++ (b'.' ∷ decimal 0)))) < 4096
unfolding decimal digits_onto
room = omega arith

room_for_gz : length (unique_name log 1700000000 0) + 3 < 4096
unfolding unique_name decimal digits_onto
room_for_gz = omega arith

process_job-Compressed_example :
    (let after = process_job zlib no_faults (unique_name log 1700000000 0) one_file in
      (after (log ++ codes ".1.gz") ≡ some (b'z' ∷ codes "lines"))
      × (after (unique_name log 1700000000 0) ≡ none)
      × (after (unique_name log 1700000000 0 ++ codes ".gz") ≡ none)
      × ((q : Bytes)
          → q ≢ unique_name log 1700000000 0
          → q ≢ unique_name log 1700000000 0 ++ codes ".gz"
          → q ≢ log ++ codes ".1.gz"
          → after q ≡ one_file q))
process_job-Compressed_example =
    process_job-Compressed zlib no_faults log 1700000000 0 (codes "lines") one_file room_for_gz
      one_file-rotated (record { source = refl; target = refl; writes = refl }) refl refl

abbrev at_start : System
at_start = started one_file

-- The worker finds no job and is blocked, until the first one is enqueued.
abbrev idle : System
idle = thread_step zlib no_faults at_start

abbrev one_job : System
one_job = enqueue_job true rotated idle

abbrev in_work : System
in_work = thread_step zlib no_faults one_job

abbrev stopping : System
stopping = stop_worker in_work

abbrev blocked : System
blocked = thread_step zlib no_faults (thread_step zlib no_faults in_work)

one_job_enqueued : Reaches zlib no_faults at_start one_job
unfolding thread_step critical_section
one_job_enqueued =
    then_step at_start idle one_job
      (then_step at_start at_start idle (here at_start) (worker at_start))
      (enqueue idle true rotated refl)

in_work_reached : Reaches zlib no_faults at_start in_work
in_work_reached = then_step at_start one_job in_work one_job_enqueued (worker one_job)

stopping_reached : Reaches zlib no_faults at_start stopping
stopping_reached = then_step at_start in_work stopping in_work_reached (shut_down in_work)

blocked_reached : Reaches zlib no_faults at_start blocked
blocked_reached =
    then_step at_start (thread_step zlib no_faults in_work) blocked
      (then_step at_start in_work (thread_step zlib no_faults in_work) in_work_reached
        (worker in_work))
      (worker (thread_step zlib no_faults in_work))

Reaches-in_order_example :
    (stopping.finished ++ (in_hand stopping.thread ++ stopping.jobs) ≡ stopping.enqueued)
    × (stopping.thread ≡ exited → (stopping.finished ≡ stopping.enqueued) × (stopping.jobs ≡ []))
Reaches-in_order_example = Reaches-in_order zlib no_faults one_file stopping stopping_reached

compression_worker_shutdown-finishes_example :
    (after : System) × (compression_worker_shutdown zlib no_faults true blocked ≡ some after)
    × (after.thread ≡ exited)
    × (after.worker_running ≡ false)
    × (after.finished ≡ blocked.enqueued)
    × (after.jobs ≡ [])
compression_worker_shutdown-finishes_example =
    compression_worker_shutdown-finishes zlib no_faults one_file blocked blocked_reached

-- Without a signal a worker that is blocked does not end.
blocked_without_signal :
    (run_thread zlib no_faults 10 (record idle { worker_running = false })).thread ≡ waiting
unfolding thread_step critical_section
blocked_without_signal = refl
