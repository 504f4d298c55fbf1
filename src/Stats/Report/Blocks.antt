-- ===== src/Stats/Report/Blocks.antt =====
-- The parts of `process_stats_print_metrics` of code/process_stats/process_stats.c that print one
-- metric each.
use linux_process_analyzer.Prelude.{ℕ, Bool, List, [], ◌∷◌}
use linux_process_analyzer.Prelude.Cstr.{Bytes, codes}
use linux_process_analyzer.Prelude.Strto.{decimal, decimal_ℤ}
use linux_process_analyzer.Args.{MetricsArguments}
use linux_process_analyzer.Stats.{Float, ProcessState}
use linux_process_analyzer.Stats.Order.{
  Comparator, cmp_average_cpu, cmp_average_rss, cmp_rss_delta, cmp_rss_variation,
  compare_avg_read_rate, compare_avg_write_rate, compare_fd_delta, compare_fd_increase,
  compare_opened_fd, compare_total_read_kbytes, compare_total_write_kbytes,
}
use linux_process_analyzer.Stats.Metrics.{
  MetricIndex, avg_cpu, avg_rss, rss_incr, rss_delta, bytes_read, written_bytes, read_rate,
  write_rate, fds_increase, no_of_fds, fds_delta,
}

pub record Block (D : Type 0) : Type 0 where
  pub requested : Bool
  pub pids_to_display : ℕ
  pub compare : Comparator D
  pub title : Bytes
  pub column : Bytes
  pub console_value : ProcessState D → Bytes
  pub index : MetricIndex

module _ {D : Type 0} (F : Float D) (args : MetricsArguments) where
  average_cpu_block : Block D
  average_cpu_block = record {
    requested = args.cpu_average_requested;
    pids_to_display = args.cpu_average_pids_to_display;
    compare = cmp_average_cpu F;
    title = codes " processes by average CPU usage:\n";
    column = codes "AVG CPU%";
    console_value = λ ps. F.show2 ps.average_cpu_usage;
    index = avg_cpu;
  }

  average_rss_block : Block D
  average_rss_block = record {
    requested = args.rss_average_requested;
    pids_to_display = args.rss_average_pids_to_display;
    compare = cmp_average_rss;
    title = codes " processes by average RSS (KB):\n";
    column = codes "AVG RSS (KB)";
    console_value = λ ps. decimal_ℤ ps.rss_average_kb;
    index = avg_rss;
  }

  rss_increase_block : Block D
  rss_increase_block = record {
    requested = args.rss_increase_requested;
    pids_to_display = args.rss_increase_pids_to_display;
    compare = cmp_rss_variation;
    title = codes " processes by RSS increase since startup (KB):\n";
    column = codes "RSS increase (KB)";
    console_value = λ ps. decimal_ℤ ps.rss_variation_since_startup;
    index = rss_incr;
  }

  rss_delta_block : Block D
  rss_delta_block = record {
    requested = args.rss_delta_requested;
    pids_to_display = args.rss_delta_pids_to_display;
    compare = cmp_rss_delta;
    title = codes " processes by RSS delta since startup (KB):\n";
    column = codes "RSS delta (KB)";
    console_value = λ ps. decimal_ℤ ps.rss_variation_since_startup;
    index = rss_delta;
  }

  bytes_read_block : Block D
  bytes_read_block = record {
    requested = args.bytes_read_requested;
    pids_to_display = args.bytes_read_pids_to_display;
    compare = compare_total_read_kbytes;
    title = codes " processes by bytes read from disk (KB):\n";
    column = codes "Bytes read (KB)";
    console_value = λ ps. decimal ps.total_read_kbytes;
    index = bytes_read;
  }

  bytes_write_block : Block D
  bytes_write_block = record {
    requested = args.bytes_write_requested;
    pids_to_display = args.bytes_write_pids_to_display;
    compare = compare_total_write_kbytes;
    title = codes " processes by bytes written to disk (KB):\n";
    column = codes "Bytes written (KB)";
    console_value = λ ps. decimal ps.total_write_kbytes;
    index = written_bytes;
  }

  read_rate_block : Block D
  read_rate_block = record {
    requested = args.read_rate_requested;
    pids_to_display = args.read_rate_pids_to_display;
    compare = compare_avg_read_rate F;
    title = codes " processes by disk read rate (KB/s):\n";
    column = codes "RR(KB/s)";
    console_value = λ ps. F.show2 ps.avg_read_rate_kb_s;
    index = read_rate;
  }

  write_rate_block : Block D
  write_rate_block = record {
    requested = args.write_rate_requested;
    pids_to_display = args.write_rate_pids_to_display;
    compare = compare_avg_write_rate F;
    title = codes " processes by disk write rate (KB/s):\n";
    column = codes "WR(KB/s)";
    console_value = λ ps. F.show2 ps.avg_write_rate_kb_s;
    index = write_rate;
  }

  fds_increase_block : Block D
  fds_increase_block = record {
    requested = args.fds_increase_requested;
    pids_to_display = args.fds_increase_pids_to_display;
    compare = compare_fd_increase;
    title = codes " processes by new file descriptors:\n";
    column = codes "NEW FDs";
    console_value = λ ps. decimal_ℤ ps.fd_delta;
    index = fds_increase;
  }

  opened_fds_block : Block D
  opened_fds_block = record {
    requested = args.opened_fds_requested;
    pids_to_display = args.opened_fds_pids_to_display;
    compare = compare_opened_fd;
    title = codes " processes by currently opened file descriptors:\n";
    column = codes "FDs";
    console_value = λ ps. decimal ps.current_num_of_fds;
    index = no_of_fds;
  }

  fds_delta_block : Block D
  fds_delta_block = record {
    requested = args.fds_delta_requested;
    pids_to_display = args.fds_delta_pids_to_display;
    compare = compare_fd_delta;
    title = codes " processes by file descriptors delta\n";
    column = codes "Delta FDs";
    console_value = λ ps. decimal_ℤ ps.fd_delta;
    index = fds_delta;
  }

  -- In the order of the source.
  unfoldable pub blocks : List (Block D)
  unfolding average_cpu_block average_rss_block rss_increase_block rss_delta_block bytes_read_block
      bytes_write_block read_rate_block write_rate_block fds_increase_block opened_fds_block
      fds_delta_block
  blocks =
      average_cpu_block ∷ average_rss_block ∷ rss_increase_block ∷ rss_delta_block
      ∷ bytes_read_block ∷ bytes_write_block ∷ read_rate_block ∷ write_rate_block
      ∷ fds_increase_block ∷ opened_fds_block ∷ fds_delta_block ∷ []
