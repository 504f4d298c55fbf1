-- ===== src/Analyzer/Calls.antt =====
-- The order of the calls of `main` in code/process_analyzer.c.
use linux_process_analyzer.Prelude.{
  ◌≡◌, Bool, true, false, ◌&&◌, List, [], ◌∷◌, if◌then◌else◌, arith,
}
use linux_process_analyzer.Prelude.Int.{ℤ, pos, negsuc}
use linux_process_analyzer.Analyzer.{
  Call, config_init, ap_parse_args, config_print_banner, process_snapshot_delete_old_files,
  process_snapshot_initialize, compression_worker_init, get_time_fd, register_signal_handler,
  run_loop, process_snapshot_deinit, compression_worker_shutdown, process_stats_print_metrics,
  ap_free_arguments, Answers, after_initialize, after_deletion, after_parse_args, main,
}

-- How far the program has come, as far as its calls are in an allowed order.
pub data Phase : Type 0 where
  nothing configured snapshots_open worker_runs snapshots_closed worker_stopped freed : Phase
  out_of_order : Phase

abbrev pub next_phase : Phase → Call → Phase
next_phase nothing config_init = configured
next_phase configured ap_parse_args = configured
next_phase configured config_print_banner = configured
next_phase configured process_snapshot_delete_old_files = configured
next_phase configured process_snapshot_initialize = snapshots_open
next_phase configured ap_free_arguments = freed
next_phase snapshots_open compression_worker_init = worker_runs
next_phase snapshots_open ap_free_arguments = freed
next_phase worker_runs get_time_fd = worker_runs
next_phase worker_runs register_signal_handler = worker_runs
next_phase worker_runs run_loop = worker_runs
next_phase worker_runs process_snapshot_deinit = snapshots_closed
next_phase snapshots_closed compression_worker_shutdown = worker_stopped
next_phase worker_stopped process_stats_print_metrics = worker_stopped
next_phase worker_stopped ap_free_arguments = freed
next_phase _ _ = out_of_order

abbrev pub phase : Phase → List Call → Phase
phase p [] = p
phase p (call ∷ calls) = phase (next_phase p call) calls

abbrev pub is_shown : Call → Bool
is_shown process_stats_print_metrics = true
is_shown _ = false

abbrev pub shows_metrics : List Call → Bool
shows_metrics [] = false
shows_metrics (call ∷ calls) = if is_shown call then true else shows_metrics calls

abbrev pub is_success : ℤ → Bool
is_success (pos n) = true
is_success (negsuc n) = false

-- Whatever fails, the calls of the program are in order and end with the arguments freed: once the
-- worker was started, the snapshots are closed and then the worker is stopped before the metrics
-- are printed and the arguments freed. The exit status is 0 exactly when the metrics were printed,
-- which is when every step succeeded.
pub main-phase :
    (a : Answers)
    → (phase nothing (main a).0 ≡ freed)
      × (shows_metrics (main a).0 ≡ is_success (main a).1)
      × (is_success (main a).1 ≡ (
          a.is_configured
          && a.is_parsed
          && (if a.delete_old_files then a.is_deleted else true)
          && a.is_initialized
          && a.has_timer))
unfolding main after_parse_args after_deletion after_initialize
main-phase a = ground arith
