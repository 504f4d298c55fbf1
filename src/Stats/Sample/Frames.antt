-- ===== src/Stats/Sample/Frames.antt =====
-- Which part of a process's record each step of a sample writes: the parts of memory, file
-- descriptors, disk and processor are independent.
use linux_process_analyzer.Prelude.{ℕ, ◌+◌, ◌≡◌, refl, ap, ◌∙◌, Bool, arith}
use linux_process_analyzer.Prelude.Int.{ℤ}
use linux_process_analyzer.Stats.{Float, ProcessState, ProcessStateInput}
use linux_process_analyzer.Stats.Sample.{
  calculate_fds_delta, calculate_rss_data, calculate_io_data, update_cpu, sample, wrap64,
}

module _ {D : Type 0} where
  abbrev pub rss_of : ProcessState D → Bool × ℤ × ℤ × ℤ × ℤ × ℕ
  rss_of ps = (
    ps.is_rss_initialized, ps.rss_initial_kb, ps.rss_kb, ps.rss_sum, ps.rss_variation_since_startup,
    ps.num_of_rss_records,
  )

  abbrev pub fds_of : ProcessState D → Bool × ℕ × ℕ × ℤ
  fds_of ps = (ps.is_fd_initialized, ps.initial_num_of_fds, ps.current_num_of_fds, ps.fd_delta)

  abbrev pub io_of : ProcessState D → Bool × ℕ × ℕ × ℕ × ℕ × D
  io_of ps = (
    ps.is_io_initialized, ps.prev_read_kbytes, ps.prev_write_kbytes, ps.total_read_kbytes,
    ps.total_write_kbytes, ps.io_time_acc,
  )

  abbrev pub cpu_of : ProcessState D → ℕ × ℕ × ℕ × D
  cpu_of ps = (ps.number_of_records, ps.cpu_usage_samples, ps.prev_cpu_ticks, ps.cpu_usage_sum)

  module _ (F : Float D) (hz cpus : ℤ) (i : ProcessStateInput D) (ps : ProcessState D) where
    pid-calculate_fds_delta : (calculate_fds_delta i ps).pid ≡ ps.pid
    unfolding calculate_fds_delta
    pid-calculate_fds_delta = ground arith

    pid-calculate_rss_data : (calculate_rss_data i ps).pid ≡ ps.pid
    unfolding calculate_rss_data
    pid-calculate_rss_data = ground arith

    pid-calculate_io_data : (calculate_io_data F i ps).pid ≡ ps.pid
    unfolding calculate_io_data
    pid-calculate_io_data = ground arith

    pid-update_cpu : (update_cpu F hz cpus i ps).pid ≡ ps.pid
    unfolding update_cpu
    pid-update_cpu = ground arith

    rss_of-calculate_fds_delta : rss_of (calculate_fds_delta i ps) ≡ rss_of ps
    unfolding calculate_fds_delta
    rss_of-calculate_fds_delta = ground arith

    rss_of-calculate_io_data : rss_of (calculate_io_data F i ps) ≡ rss_of ps
    unfolding calculate_io_data
    rss_of-calculate_io_data = ground arith

    rss_of-update_cpu : rss_of (update_cpu F hz cpus i ps) ≡ rss_of ps
    unfolding update_cpu
    rss_of-update_cpu = ground arith

    fds_of-calculate_rss_data : fds_of (calculate_rss_data i ps) ≡ fds_of ps
    unfolding calculate_rss_data
    fds_of-calculate_rss_data = ground arith

    fds_of-calculate_io_data : fds_of (calculate_io_data F i ps) ≡ fds_of ps
    unfolding calculate_io_data
    fds_of-calculate_io_data = ground arith

    fds_of-update_cpu : fds_of (update_cpu F hz cpus i ps) ≡ fds_of ps
    unfolding update_cpu
    fds_of-update_cpu = ground arith

    io_of-calculate_fds_delta : io_of (calculate_fds_delta i ps) ≡ io_of ps
    unfolding calculate_fds_delta
    io_of-calculate_fds_delta = ground arith

    io_of-calculate_rss_data : io_of (calculate_rss_data i ps) ≡ io_of ps
    unfolding calculate_rss_data
    io_of-calculate_rss_data = ground arith

    io_of-update_cpu : io_of (update_cpu F hz cpus i ps) ≡ io_of ps
    unfolding update_cpu
    io_of-update_cpu = ground arith

    cpu_of-calculate_fds_delta : cpu_of (calculate_fds_delta i ps) ≡ cpu_of ps
    unfolding calculate_fds_delta
    cpu_of-calculate_fds_delta = ground arith

    cpu_of-calculate_rss_data : cpu_of (calculate_rss_data i ps) ≡ cpu_of ps
    unfolding calculate_rss_data
    cpu_of-calculate_rss_data = ground arith

    cpu_of-calculate_io_data : cpu_of (calculate_io_data F i ps) ≡ cpu_of ps
    unfolding calculate_io_data
    cpu_of-calculate_io_data = ground arith

    prev_timestamp-calculate_fds_delta :
        (calculate_fds_delta i ps).prev_timestamp ≡ ps.prev_timestamp
    unfolding calculate_fds_delta
    prev_timestamp-calculate_fds_delta = ground arith

    prev_timestamp-calculate_rss_data : (calculate_rss_data i ps).prev_timestamp ≡ ps.prev_timestamp
    unfolding calculate_rss_data
    prev_timestamp-calculate_rss_data = ground arith

    prev_timestamp-calculate_io_data : (calculate_io_data F i ps).prev_timestamp ≡ ps.prev_timestamp
    unfolding calculate_io_data
    prev_timestamp-calculate_io_data = ground arith

    prev_timestamp-update_cpu : (update_cpu F hz cpus i ps).prev_timestamp ≡ ps.prev_timestamp
    unfolding update_cpu
    prev_timestamp-update_cpu = ground arith

  module _ (F : Float D) (hz cpus : ℤ) (i : ProcessStateInput D) where
    rss_of-cong :
        (a b : ProcessState D)
        → rss_of a ≡ rss_of b
        → rss_of (calculate_rss_data i a) ≡ rss_of (calculate_rss_data i b)
    unfolding calculate_rss_data
    rss_of-cong a b e = ground arith

    fds_of-cong :
        (a b : ProcessState D)
        → fds_of a ≡ fds_of b
        → fds_of (calculate_fds_delta i a) ≡ fds_of (calculate_fds_delta i b)
    unfolding calculate_fds_delta
    fds_of-cong a b e = ground arith

    io_of-cong :
        (a b : ProcessState D)
        → io_of a ≡ io_of b
        → a.prev_timestamp ≡ b.prev_timestamp
        → io_of (calculate_io_data F i a) ≡ io_of (calculate_io_data F i b)
    unfolding calculate_io_data
    io_of-cong a b e t = ground arith

    pub pid-sample : (ps : ProcessState D) → (sample F hz cpus i ps).pid ≡ ps.pid
    unfolding sample
    pid-sample ps =
        pid-calculate_io_data F hz cpus i _
        ∙ pid-calculate_rss_data F hz cpus i _
        ∙ pid-calculate_fds_delta F hz cpus i _
        ∙ pid-update_cpu F hz cpus i ps

    pub rss_of-sample :
        (ps : ProcessState D) → rss_of (sample F hz cpus i ps) ≡ rss_of (calculate_rss_data i ps)
    unfolding sample
    rss_of-sample ps =
        rss_of-calculate_io_data F hz cpus i _
        ∙ rss_of-cong _ ps
            (rss_of-calculate_fds_delta F hz cpus i _ ∙ rss_of-update_cpu F hz cpus i ps)

    pub fds_of-sample :
        (ps : ProcessState D) → fds_of (sample F hz cpus i ps) ≡ fds_of (calculate_fds_delta i ps)
    unfolding sample
    fds_of-sample ps =
        fds_of-calculate_io_data F hz cpus i _
        ∙ fds_of-calculate_rss_data F hz cpus i _
        ∙ fds_of-cong _ ps (fds_of-update_cpu F hz cpus i ps)

    pub io_of-sample :
        (ps : ProcessState D) → io_of (sample F hz cpus i ps) ≡ io_of (calculate_io_data F i ps)
    unfolding sample
    io_of-sample ps =
        io_of-cong _ ps
          (io_of-calculate_rss_data F hz cpus i _
            ∙ io_of-calculate_fds_delta F hz cpus i _
            ∙ io_of-update_cpu F hz cpus i ps)
          (prev_timestamp-calculate_rss_data F hz cpus i _
            ∙ prev_timestamp-calculate_fds_delta F hz cpus i _
            ∙ prev_timestamp-update_cpu F hz cpus i ps)

    pub prev_timestamp-sample :
        (ps : ProcessState D) → (sample F hz cpus i ps).prev_timestamp ≡ i.timestamp
    unfolding sample
    prev_timestamp-sample ps = refl

    -- The processor's part after a sample, but for the record count that goes up by one.
    pub cpu_of-sample :
        (ps : ProcessState D)
        → cpu_of (sample F hz cpus i ps) ≡ (
            let q = update_cpu F hz cpus i ps in
            (
              wrap64 (q.number_of_records + 1),
              q.cpu_usage_samples,
              q.prev_cpu_ticks,
              q.cpu_usage_sum,
            ))
    unfolding sample
    cpu_of-sample ps =
        ap (λ (x : ℕ × ℕ × ℕ × D). (wrap64 (x.0 + 1), x.1, x.2, x.3))
          (cpu_of-calculate_io_data F hz cpus i _
            ∙ cpu_of-calculate_rss_data F hz cpus i _
            ∙ cpu_of-calculate_fds_delta F hz cpus i _)
