-- ===== src/Analyzer.antt =====
-- The main program: code/process_analyzer.c. What the other parts answer is the input.
pub mod Loop
pub mod Calls
use linux_process_analyzer.Prelude.{
  ℕ, zero, suc, ◌+◌, ◌*◌, ◌/◌, ◌%◌, Bool, true, false, List, [], ◌∷◌, ◌++◌, ltb, if◌then◌else◌,
}
use linux_process_analyzer.Prelude.Int.{ℤ, pos, negsuc}

-- it_value and it_interval of the timer: tv_sec and tv_nsec.
pub timer_value : ℕ → ℕ × ℕ
timer_value interval_ms = (interval_ms / 1000, interval_ms % 1000 * 1000000)

-- One round of the loop: g_stop_requested at its start, and what read gives.
pub data ReadResult : Type 0 where
  expired : ℕ → ReadResult
  read_failed : ReadResult

-- The loop's counter, the calls of `run_snapshot_once` so far, and whether the loop was left.
pub record LoopState : Type 0 where
  pub no_of_iterations : ℕ
  pub snapshots : ℕ
  pub is_over : Bool

-- while(expirations-- && noOfIterations < gArguments.count)
run_expirations : ℕ → ℕ → LoopState → LoopState
run_expirations count zero s = s
run_expirations count (suc expirations) s =
    let rest = run_expirations count expirations (record s { snapshots = s.snapshots + 1 }) in
    if ltb s.no_of_iterations count then rest else s

next_iteration : LoopState → LoopState
next_iteration s = record s { no_of_iterations = s.no_of_iterations + 1 }

on_read : ℕ → ReadResult → LoopState → LoopState
unfolding run_expirations next_iteration
on_read count read_failed s = record s { is_over = true }
on_read count (expired expirations) s = next_iteration (run_expirations count expirations s)

loop_round : ℕ → Bool → ReadResult → LoopState → LoopState
unfolding on_read
loop_round count stop_requested result s =
    if ltb s.no_of_iterations count
    then if stop_requested then record s { is_over = true } else on_read count result s
    else record s { is_over = true }

-- The loop over the rounds that the timer and the signals give.
pub loop : ℕ → List (Bool × ReadResult) → LoopState → LoopState
loop count [] s = s
loop count ((stop_requested, result) ∷ rounds) s =
    let rest = loop count rounds (loop_round count stop_requested result s) in
    if s.is_over then s else rest

-- The calls of `main`, in their order.
pub data Call : Type 0 where
  config_init ap_parse_args config_print_banner process_snapshot_delete_old_files : Call
  process_snapshot_initialize compression_worker_init get_time_fd register_signal_handler : Call
  run_loop process_snapshot_deinit compression_worker_shutdown process_stats_print_metrics : Call
  ap_free_arguments : Call

-- Whether each of them succeeds, and whether the old files are to be deleted.
pub record Answers : Type 0 where
  pub is_configured : Bool
  pub is_parsed : Bool
  pub delete_old_files : Bool
  pub is_deleted : Bool
  pub is_initialized : Bool
  pub has_timer : Bool

abbrev failed : List Call → List Call × ℤ
failed calls = (calls ++ ap_free_arguments ∷ [], negsuc 0)

after_initialize : Answers → List Call → List Call × ℤ
after_initialize a calls =
    if a.has_timer
    then (
      calls
          ++ compression_worker_init ∷ get_time_fd ∷ register_signal_handler ∷ run_loop
            ∷ process_snapshot_deinit ∷ compression_worker_shutdown ∷ process_stats_print_metrics
            ∷ ap_free_arguments ∷ [],
      pos 0,
    )
    else failed (
        calls
        ++ compression_worker_init ∷ get_time_fd ∷ process_snapshot_deinit
          ∷ compression_worker_shutdown ∷ [])

after_deletion : Answers → List Call → List Call × ℤ
unfolding after_initialize
after_deletion a calls =
    if a.is_initialized
    then after_initialize a (calls ++ process_snapshot_initialize ∷ [])
    else failed (calls ++ process_snapshot_initialize ∷ [])

after_parse_args : Answers → List Call → List Call × ℤ
unfolding after_deletion
after_parse_args a calls =
    if a.delete_old_files
    then if a.is_deleted
      then after_deletion a (calls ++ process_snapshot_delete_old_files ∷ [])
      else failed (calls ++ process_snapshot_delete_old_files ∷ [])
    else after_deletion a calls

-- The calls and the exit status.
pub main : Answers → List Call × ℤ
unfolding after_parse_args
main a =
    if a.is_configured
    then if a.is_parsed
      then after_parse_args a (config_init ∷ ap_parse_args ∷ config_print_banner ∷ [])
      else failed (config_init ∷ ap_parse_args ∷ [])
    else failed (config_init ∷ [])
