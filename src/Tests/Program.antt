-- ===== src/Tests/Program.antt =====
-- The main program at concrete inputs.
use linux_process_analyzer.Prelude.{
  ◌+◌, ◌*◌, ◌<◌, ◌≡◌, true, false, ◌&&◌, [], ◌∷◌, arith, if◌then◌else◌,
}
use linux_process_analyzer.Analyzer.{timer_value, loop, Answers, main}
use linux_process_analyzer.Analyzer.Loop.{timer_value-interval, quiet, at_start, loop-snapshots}
use linux_process_analyzer.Analyzer.Calls.{
  nothing, freed, phase, shows_metrics, is_success, main-phase,
}

timer_value-interval_example :
    (let (seconds, nanoseconds) = timer_value 1500 in
      (seconds * 1000000000 + nanoseconds ≡ 1500 * 1000000) × (nanoseconds < 1000000000))
timer_value-interval_example = timer_value-interval 1500

-- Two rounds, the first one late by two intervals: four snapshots in place of two.
loop-snapshots_example :
    ((loop 2 (quiet (3 ∷ 1 ∷ 1 ∷ [])) at_start).no_of_iterations ≡ 2)
    × ((loop 2 (quiet (3 ∷ 1 ∷ 1 ∷ [])) at_start).snapshots ≡ 4)
loop-snapshots_example = loop-snapshots 2 (3 ∷ 1 ∷ 1 ∷ []) (omega arith)

abbrev no_timer : Answers
no_timer = record {
  is_configured = true;
  is_parsed = true;
  delete_old_files = false;
  is_deleted = false;
  is_initialized = true;
  has_timer = false;
}

main-phase_example :
    (phase nothing (main no_timer).0 ≡ freed)
    × (shows_metrics (main no_timer).0 ≡ is_success (main no_timer).1)
    × (is_success (main no_timer).1 ≡ (
        no_timer.is_configured
        && no_timer.is_parsed
        && (if no_timer.delete_old_files then no_timer.is_deleted else true)
        && no_timer.is_initialized
        && no_timer.has_timer))
main-phase_example = main-phase no_timer
