-- ===== src/Stats/Metrics/Milliseconds.antt =====
-- The milliseconds that `parse_timestamp_to_double` of code/process_stats/process_stats.c reads.
use linux_process_analyzer.Prelude.{◌≡◌, refl, false, some, ◌∷◌, ◌++◌, ◌==◌, All}
use linux_process_analyzer.Prelude.Int.{ℤ}
use linux_process_analyzer.Prelude.Cstr.{Bytes}
use linux_process_analyzer.Prelude.Calendar.{strptime_timegm}
use linux_process_analyzer.Config.{atoi}
use linux_process_analyzer.Config.File.RoundTrip.{split_first-absent}
use linux_process_analyzer.Stats.{Float}
use linux_process_analyzer.Stats.Metrics.{parse_timestamp_to_double, parsed, add_ms}

module _ {D : Type 0} (F : Float D) where
  pub parse_timestamp_to_double-dot :
      (date ms : Bytes) (s : ℤ)
      → All (λ c. (c == b'.') ≡ false) date
      → strptime_timegm (date ++ (b'.' ∷ ms)) ≡ some s
      → parse_timestamp_to_double F (date ++ (b'.' ∷ ms))
        ≡ F.add (F.of_ℤ s) (F.div (F.of_ℤ (atoi ms)) (F.of_ℕ 1000))
  unfolding parse_timestamp_to_double parsed add_ms
  parse_timestamp_to_double-dot date ms s h e = rw (e, split_first-absent b'.' date ms h) refl
