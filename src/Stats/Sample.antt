-- ===== src/Stats/Sample.antt =====
-- What one sample does to the record of its process: the `calculate_` functions, and the body of
-- `process_stats_update`, of code/process_stats/process_stats.c.
pub mod Frames
pub mod Rss
pub mod Fds
pub mod Io
pub mod Gaps
pub mod Cpu
use linux_process_analyzer.Prelude.{
  ℕ, ◌+◌, ◌-◌, ◌^◌, ◌%◌, Bool, true, false, not, ◌&&◌, List, [], ◌∷◌, ltb, leb, if◌then◌else◌, take,
}
use linux_process_analyzer.Prelude.Int.{ℤ, pos, ◌+ℤ◌, ◌-ℤ◌, signed64}
use linux_process_analyzer.Stats.{Float, ProcessState, ProcessStateInput}

abbrev pub wrap64 : ℕ → ℕ
wrap64 n = n % 2 ^ 64

module _ {D : Type 0} where
  pub calculate_fds_delta : ProcessStateInput D → ProcessState D → ProcessState D
  calculate_fds_delta input ps =
      if input.is_fd_valid
      then if not ps.is_fd_initialized
        then record ps {
          current_num_of_fds = input.number_of_fds;
          initial_num_of_fds = input.number_of_fds;
          is_fd_initialized = true;
        }
        else record ps {
          current_num_of_fds = input.number_of_fds;
          fd_delta = signed64 (input.number_of_fds + 2 ^ 64 - ps.initial_num_of_fds);
        }
      else ps

  pub calculate_rss_data : ProcessStateInput D → ProcessState D → ProcessState D
  calculate_rss_data input ps =
      let initial = if not ps.is_rss_initialized then input.rss_kb else ps.rss_initial_kb in
      if input.is_rss_valid
      then record ps {
        rss_initial_kb = initial;
        is_rss_initialized = true;
        prev_rss_kb = input.rss_kb;
        rss_kb = input.rss_kb;
        rss_sum = ps.rss_sum +ℤ input.rss_kb;
        rss_variation_since_startup = input.rss_kb -ℤ initial;
        num_of_rss_records = wrap64 (ps.num_of_rss_records + 1);
      }
      else ps

  module _ (F : Float D) where
    abbrev pub zero_d : D
    zero_d = F.of_ℕ 0

    -- The counters that went backwards give no delta.
    pub calculate_io_data : ProcessStateInput D → ProcessState D → ProcessState D
    calculate_io_data input ps =
        let dt = F.sub input.timestamp ps.prev_timestamp in
        let read_delta =
          if leb ps.prev_read_kbytes input.read_kbytes
          then input.read_kbytes - ps.prev_read_kbytes
          else 0 in
        let write_delta =
          if leb ps.prev_write_kbytes input.write_kbytes
          then input.write_kbytes - ps.prev_write_kbytes
          else 0 in
        if not input.is_io_valid
        then ps
        else if not ps.is_io_initialized
        then record ps {
          prev_read_kbytes = input.read_kbytes;
          prev_write_kbytes = input.write_kbytes;
          is_io_initialized = true;
        }
        else if F.le dt zero_d
        then ps
        else record ps {
          total_read_kbytes = wrap64 (ps.total_read_kbytes + read_delta);
          total_write_kbytes = wrap64 (ps.total_write_kbytes + write_delta);
          io_time_acc = F.add ps.io_time_acc dt;
          prev_read_kbytes = input.read_kbytes;
          prev_write_kbytes = input.write_kbytes;
        }

    module _ (clock_ticks_per_second online_cpu_count : ℤ) where
      unfoldable compute_cpu_usage : ℕ → ℕ → D → D → D
      compute_cpu_usage prev_ticks curr_ticks prev_ts curr_ts =
          let delta_ticks = F.of_ℕ (wrap64 (curr_ticks + 2 ^ 64 - prev_ticks)) in
          let delta_time = F.sub curr_ts prev_ts in
          if F.le delta_time zero_d
          then zero_d
          else F.mul
              (F.div (F.div (F.div delta_ticks (F.of_ℤ clock_ticks_per_second)) delta_time)
                (F.of_ℤ online_cpu_count))
              (F.of_ℕ 100)

      -- The CPU part of `process_stats_update`, up to the new tick counts.
      pub update_cpu : ProcessStateInput D → ProcessState D → ProcessState D
      update_cpu input ps =
          let curr_ticks = wrap64 (input.utime + input.stime) in
          let usage =
            compute_cpu_usage ps.prev_cpu_ticks curr_ticks ps.prev_timestamp input.timestamp in
          let ticked = record ps {
            cpu_usage = zero_d;
            prev_cpu_ticks = curr_ticks;
            utime = input.utime;
            stime = input.stime;
          } in
          if ltb 0 ps.number_of_records
            && leb ps.prev_cpu_ticks curr_ticks
            && F.lt zero_d (F.sub input.timestamp ps.prev_timestamp)
          then record ticked {
            cpu_usage = usage;
            cpu_usage_sum = F.add ps.cpu_usage_sum usage;
            cpu_usage_samples = ps.cpu_usage_samples + 1;
          }
          else ticked

      -- The body of `process_stats_update` once the record is at hand. `strncpy` stops at 64 bytes.
      pub sample : ProcessStateInput D → ProcessState D → ProcessState D
      sample input ps =
          let ps1 = update_cpu input ps in
          let ps2 = record ps1 { threads = input.threads; comm = take 64 input.comm } in
          let ps3 = calculate_fds_delta input ps2 in
          let ps4 = calculate_rss_data input ps3 in
          let ps5 = calculate_io_data input ps4 in
          record ps5 {
            prev_timestamp = input.timestamp;
            seen_in_snapshot = true;
            number_of_records = wrap64 (ps5.number_of_records + 1);
          }

    -- The record that `get_or_create_process` makes: calloc, and the fields of the first sample.
    unfoldable pub fresh : ProcessStateInput D → ProcessState D
    fresh input = record {
      pid = input.pid;
      comm = [];
      utime = input.utime;
      stime = input.stime;
      rss_kb = input.rss_kb;
      threads = input.threads;
      state = input.state;
      total_read_kbytes = 0;
      total_write_kbytes = 0;
      prev_cpu_ticks = wrap64 (input.utime + input.stime);
      prev_rss_kb = input.rss_kb;
      prev_timestamp = zero_d;
      initial_num_of_fds = 0;
      fd_delta = pos 0;
      current_num_of_fds = 0;
      is_fd_initialized = false;
      number_of_records = 0;
      cpu_usage = zero_d;
      average_cpu_usage = zero_d;
      cpu_usage_sum = zero_d;
      cpu_usage_samples = 0;
      rss_initial_kb = pos 0;
      rss_average_kb = pos 0;
      rss_sum = pos 0;
      rss_variation_since_startup = pos 0;
      is_rss_initialized = false;
      num_of_rss_records = 0;
      prev_read_kbytes = 0;
      prev_write_kbytes = 0;
      avg_read_rate_kb_s = zero_d;
      avg_write_rate_kb_s = zero_d;
      io_time_acc = zero_d;
      is_io_initialized = false;
      seen_in_snapshot = false;
    }

-- The samples of one process, in order.
module _ {D : Type 0} (F : Float D) (hz cpus : ℤ) where
  abbrev pub samples : List (ProcessStateInput D) → ProcessState D → ProcessState D
  samples [] ps = ps
  samples (i ∷ is) ps = samples is (sample F hz cpus i ps)
