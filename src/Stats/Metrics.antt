-- ===== src/Stats/Metrics.antt =====
-- The metric descriptors and the metrics.json file of code/process_stats/process_stats.c.
pub mod Milliseconds
use linux_process_analyzer.Prelude.{
  ℕ, ◌^◌, ◌%◌, Bool, true, false, ◌&&◌, Option, none, some, List, [], ◌∷◌, ◌++◌, if◌then◌else◌,
}
use linux_process_analyzer.Prelude.Int.{ℤ, signed32, signed64, int_of}
use linux_process_analyzer.Prelude.Cstr.{Bytes, codes, split_first}
use linux_process_analyzer.Prelude.Strto.{decimal, decimal_ℤ}
use linux_process_analyzer.Prelude.Calendar.{strptime_timegm}
use linux_process_analyzer.Config.{atoi}
use linux_process_analyzer.Stats.{Float, ProcessState}

-- A value behind one of the three getters of a descriptor.
pub data MetricValue (D : Type 0) : Type 0 where
  metric_double : D → MetricValue D
  metric_int32 : ℤ → MetricValue D
  metric_int64 : ℤ → MetricValue D

pub record MetricDesc (D : Type 0) : Type 0 where
  pub json_key : Bytes
  pub value_key : Bytes
  pub get : ProcessState D → MetricValue D

pub data MetricIndex : Type 0 where
  avg_cpu avg_rss rss_incr rss_delta bytes_read read_rate : MetricIndex
  written_bytes write_rate fds_increase no_of_fds fds_delta : MetricIndex

module _ {D : Type 0} where
  get_avg_cpu : ProcessState D → D
  get_avg_cpu ps = ps.average_cpu_usage

  get_avg_rss : ProcessState D → ℤ
  get_avg_rss ps = ps.rss_average_kb

  get_rss_increase : ProcessState D → ℤ
  get_rss_increase ps = ps.rss_variation_since_startup

  get_total_read : ProcessState D → ℤ
  get_total_read ps = signed64 ps.total_read_kbytes

  get_avg_read_rate : ProcessState D → D
  get_avg_read_rate ps = ps.avg_read_rate_kb_s

  get_total_write : ProcessState D → ℤ
  get_total_write ps = signed64 ps.total_write_kbytes

  get_avg_write_rate : ProcessState D → D
  get_avg_write_rate ps = ps.avg_write_rate_kb_s

  get_rss_delta : ProcessState D → ℤ
  get_rss_delta ps = ps.rss_variation_since_startup

  -- long to int32_t
  get_fds_delta : ProcessState D → ℤ
  get_fds_delta ps = int_of ps.fd_delta

  get_opened_fds : ProcessState D → ℤ
  get_opened_fds ps = signed64 ps.current_num_of_fds

  unfoldable pub g_metrics : MetricIndex → MetricDesc D
  unfolding get_avg_cpu get_avg_rss get_rss_increase get_total_read get_avg_read_rate
      get_total_write get_avg_write_rate get_rss_delta get_fds_delta get_opened_fds
  g_metrics avg_cpu = record {
    json_key = codes "cpu_average";
    value_key = codes "cpu_avg_pct";
    get = λ ps. metric_double (get_avg_cpu ps);
  }
  g_metrics avg_rss = record {
    json_key = codes "rss_average";
    value_key = codes "rss_avg_kb";
    get = λ ps. metric_int64 (get_avg_rss ps);
  }
  g_metrics rss_incr = record {
    json_key = codes "rss_increase";
    value_key = codes "rss_incr_kb";
    get = λ ps. metric_int64 (get_rss_increase ps);
  }
  g_metrics rss_delta = record {
    json_key = codes "rss_delta";
    value_key = codes "rss_delta_kb";
    get = λ ps. metric_int64 (get_rss_delta ps);
  }
  g_metrics bytes_read = record {
    json_key = codes "kbytes_read";
    value_key = codes "bytes_read_kb";
    get = λ ps. metric_int64 (get_total_read ps);
  }
  g_metrics read_rate = record {
    json_key = codes "read_rate";
    value_key = codes "read_rate_kbps";
    get = λ ps. metric_double (get_avg_read_rate ps);
  }
  g_metrics written_bytes = record {
    json_key = codes "written_kbytes";
    value_key = codes "written_bytes_kb";
    get = λ ps. metric_int64 (get_total_write ps);
  }
  g_metrics write_rate = record {
    json_key = codes "write_rate";
    value_key = codes "write_rate_kbps";
    get = λ ps. metric_double (get_avg_write_rate ps);
  }
  g_metrics fds_increase = record {
    json_key = codes "fds_increase";
    value_key = codes "no_of_fds_increase";
    get = λ ps. metric_int32 (get_fds_delta ps);
  }
  g_metrics no_of_fds = record {
    json_key = codes "opened_fds";
    value_key = codes "no_of_opened_fds";
    get = λ ps. metric_int64 (get_opened_fds ps);
  }
  g_metrics fds_delta = record {
    json_key = codes "fds_delta";
    value_key = codes "fds_delta";
    get = λ ps. metric_int32 (get_fds_delta ps);
  }

  module _ (F : Float D) where
    show_value : MetricValue D → Bytes
    show_value (metric_double d) = F.show2 d
    show_value (metric_int64 n) = decimal_ℤ n
    show_value (metric_int32 n) = decimal_ℤ n

    -- One object of the array; `more` is `i + 1 < n`.
    json_row : MetricDesc D → Bool → ProcessState D → Bytes
    unfolding show_value
    json_row m more ps =
        codes "\t\t\t{\n\t\t\t\"pid\": "
        ++ (decimal ps.pid
            ++ (codes ",\n\t\t\t\"comm\": \""
                ++ (ps.comm
                    ++ (codes "\",\n\t\t\t\"state\": \""
                        ++ (ps.state ∷ []
                            ++ (codes "\",\n\t\t\t\""
                                ++ (m.value_key
                                    ++ (codes "\": "
                                        ++ (show_value (m.get ps)
                                            ++ (codes ",\n\t\t\t\"threads\": "
                                                ++ (decimal_ℤ (signed32 ps.threads)
                                                    ++ (codes ",\n\t\t\t\"records\": "
                                                        ++ (decimal ps.number_of_records
                                                            ++ (codes "\n\t\t\t}"
                                                            ++ ((if more then codes "," else [])
                                                            ++ codes "\n")))))))))))))))

    json_rows : MetricDesc D → List (ProcessState D) → Bytes
    json_rows m [] = []
    json_rows m (ps ∷ []) = json_row m false ps
    json_rows m (ps ∷ qs ∷ rest) = json_row m true ps ++ json_rows m (qs ∷ rest)

    -- The text of a block, without the comma before it.
    unfoldable pub json_block : MetricDesc D → List (ProcessState D) → Bytes
    unfolding json_rows json_row
    json_block m shown =
        codes "\t\t\"" ++ (m.json_key ++ (codes "\":[\n" ++ (json_rows m shown ++ codes "\t\t]")))

    -- What was written to the open file, and `boIsFirstJsonMetric`, before and after a block of the
    -- first entries of the array.
    unfoldable pub write_metric_block_json :
        MetricDesc D → List (ProcessState D) → Option Bytes × Bool → Option Bytes × Bool
    write_metric_block_json m shown (none, is_first) = (none, is_first)
    write_metric_block_json m shown (some out, is_first) =
        (some (out ++ ((if is_first then [] else codes ",\n") ++ json_block m shown)), false)

abbrev pub process_analyzer_version : Bytes
process_analyzer_version = codes "process_analyzer V1.3"

abbrev pub proc_stats_schema_version : Bytes
proc_stats_schema_version = codes "1.0"

abbrev pub or_unknown : Option Bytes → Bytes
or_unknown none = codes "unknown"
or_unknown (some hostname) = hostname

-- `get_hostname_alloc` returns NULL when its allocation or gethostname fails.
unfoldable get_hostname_alloc : Bool → Option Bytes → Option Bytes
get_hostname_alloc false name = none
get_hostname_alloc true name = name

unfoldable pub metrics_json_end : Option Bytes × Bool → Option Bytes × Bool
metrics_json_end (none, is_first) = (none, is_first)
metrics_json_end (some out, is_first) = (some (out ++ codes "\n\t}\n}\n"), true)

module _ {D : Type 0} (F : Float D) where
  -- The text that `metrics_json_begin` writes. The interval is passed as a uint32_t.
  unfoldable pub metrics_json_begin : ℕ → ℕ → Bytes → Bytes → Bytes → Option Bytes → D → Bytes
  metrics_json_begin snapshots interval_ms start_time end_time prog hostname duration =
      codes "{\n\t\"meta\": {\n\t\t\"tool\": \""
      ++ (prog
          ++ (codes "\",\n\t\t\"version\": \""
              ++ (process_analyzer_version
                  ++ (codes "\",\n\t\t\"schema_version\": \""
                      ++ (proc_stats_schema_version
                          ++ (codes "\",\n\t\t\"hostname\": \""
                              ++ (or_unknown hostname
                                  ++ (codes "\",\n\t\t\"interval_ms\": "
                                      ++ (decimal (interval_ms % 2 ^ 32)
                                          ++ (codes ",\n\t\t\"start_time\": \""
                                              ++ (start_time
                                                  ++ (codes "\",\n\t\t\"end_time\": \""
                                                      ++ (end_time
                                                          ++ (codes "\",\n\t\t\"duration_sec\": "
                                                            ++ (F.show3 duration
                                                            ++ (codes ",\n\t\t\"snapshots\": "
                                                            ++ (decimal snapshots
                                                            ++ codes
                                                            "\n\t},\n\t\"metrics\": {\n")))))))))))))))))

  add_ms : D → Option (Bytes × Bytes) → D
  add_ms seconds none = seconds
  add_ms seconds (some (date, ms_part)) =
      F.add seconds (F.div (F.of_ℤ (atoi ms_part)) (F.of_ℕ 1000))

  parsed : Bytes → Option ℤ → D
  unfolding add_ms
  parsed ts none = F.sub (F.of_ℕ 0) (F.of_ℕ 1)
  parsed ts (some seconds) = add_ms (F.of_ℤ seconds) (split_first b'.' ts)

  unfoldable pub parse_timestamp_to_double : Bytes → D
  unfolding parsed
  parse_timestamp_to_double ts = parsed ts (strptime_timegm ts)

  unfoldable pub get_snapshot_duration : Bytes → Bytes → D
  get_snapshot_duration initial last =
      let start_time = parse_timestamp_to_double initial in
      let end_time = parse_timestamp_to_double last in
      if F.lt (F.of_ℕ 0) start_time && F.lt (F.of_ℕ 0) end_time && F.le start_time end_time
      then F.sub end_time start_time
      else F.of_ℕ 0
