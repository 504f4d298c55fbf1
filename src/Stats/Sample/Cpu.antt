-- ===== src/Stats/Sample/Cpu.antt =====
-- The counters of a process over all its samples.
use linux_process_analyzer.Prelude.{
  ◌+◌, ◌-◌, ◌^◌, ◌≤◌, ◌<◌, ◌≡◌, ◌&&◌, List, [], ◌∷◌, length, ltb, leb, arith, if◌then◌else◌,
}
use linux_process_analyzer.Prelude.Int.{ℤ}
use linux_process_analyzer.Stats.{Float, ProcessState, ProcessStateInput}
use linux_process_analyzer.Stats.Sample.{update_cpu, sample, samples, fresh, wrap64, zero_d}
use linux_process_analyzer.Stats.Sample.Frames.{cpu_of-sample}

module _ {D : Type 0} (F : Float D) (hz cpus : ℤ) where
  counters-sample :
      (i : ProcessStateInput D) (ps : ProcessState D)
      → (let q = sample F hz cpus i ps in
          (q.number_of_records ≡ wrap64 (ps.number_of_records + 1))
          × (q.prev_cpu_ticks ≡ wrap64 (i.utime + i.stime))
          × (q.cpu_usage_samples ≡ (
              if ltb 0 ps.number_of_records
                && leb ps.prev_cpu_ticks (wrap64 (i.utime + i.stime))
                && F.lt (zero_d F) (F.sub i.timestamp ps.prev_timestamp)
              then ps.cpu_usage_samples + 1
              else ps.cpu_usage_samples)))
  unfolding update_cpu
  counters-sample i ps = ground (arith, cpu_of-sample F hz cpus i ps)

  counters-samples :
      (is : List (ProcessStateInput D)) (ps : ProcessState D)
      → ps.number_of_records + length is < 2 ^ 64
      → ps.cpu_usage_samples ≤ ps.number_of_records - 1
      → (let q = samples F hz cpus is ps in
          (q.number_of_records ≡ ps.number_of_records + length is)
          × (q.cpu_usage_samples ≤ q.number_of_records - 1))
  counters-samples [] ps small h = (omega arith, h)
  counters-samples (i ∷ is) ps small h =
      ground (arith, counters-sample i ps, counters-samples is (sample F hz cpus i ps))

  -- A process that was sampled n times, for n below 2^64, has n records, and its processor usage
  -- is averaged over at most n - 1 of them.
  pub counters-samples-fresh :
      (first : ProcessStateInput D) (is : List (ProcessStateInput D))
      → length is < 2 ^ 64
      → (let ps = samples F hz cpus is (fresh F first) in
          (ps.number_of_records ≡ length is) × (ps.cpu_usage_samples ≤ length is - 1))
  unfolding fresh
  counters-samples-fresh first is h = ground (arith, counters-samples is (fresh F first))
