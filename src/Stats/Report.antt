-- ===== src/Stats/Report.antt =====
-- `open_metrics_file` and `process_stats_print_metrics` of code/process_stats/process_stats.c.
-- `qsort` is the C library's, given the comparator and the array.
pub mod Blocks
pub mod Top
pub mod Average
pub mod Json
pub mod Outcome
use linux_process_analyzer.Prelude.{
  ℕ, zero, suc, ◌+◌, ◌-◌, ◌/◌, ◌%◌, ◌^◌, Bool, true, false, not, ◌&&◌, ◌||◌, Option, none, some,
  List, [], ◌∷◌, ◌++◌, map, ◌==◌, ltb, if◌then◌else◌, length, take,
}
use linux_process_analyzer.Prelude.Int.{ℤ, signed32, signed64, unsigned64}
use linux_process_analyzer.Prelude.Cstr.{Bytes, codes}
use linux_process_analyzer.Prelude.Strto.{decimal, decimal_ℤ}
use linux_process_analyzer.Args.{MetricsArguments}
use linux_process_analyzer.Stats.{Float, ProcessState, ProcessTable, Stats}
use linux_process_analyzer.Stats.Order.{Comparator}
use linux_process_analyzer.Stats.Metrics.{
  MetricIndex, MetricDesc, g_metrics, write_metric_block_json, metrics_json_begin, metrics_json_end,
  get_snapshot_duration,
}
use linux_process_analyzer.Stats.Report.Blocks.{Block, blocks}

-- What the loop over the table does to one record.
module _ {D : Type 0} (F : Float D) (args : MetricsArguments) where
  pub with_averages : ProcessState D → ProcessState D
  with_averages ps = record ps {
    average_cpu_usage =
        if args.cpu_average_requested && not (ps.cpu_usage_samples == 0)
        then F.div ps.cpu_usage_sum (F.of_ℕ ps.cpu_usage_samples)
        else ps.average_cpu_usage;
    rss_average_kb =
        if args.rss_average_requested && not (ps.num_of_rss_records == 0)
        then signed64 (unsigned64 ps.rss_sum / ps.num_of_rss_records)
        else ps.rss_average_kb;
    avg_read_rate_kb_s =
        if args.read_rate_requested && not (F.eq ps.io_time_acc (F.of_ℕ 0))
        then F.div (F.of_ℕ ps.total_read_kbytes) ps.io_time_acc
        else ps.avg_read_rate_kb_s;
    avg_write_rate_kb_s =
        if args.write_rate_requested && not (F.eq ps.io_time_acc (F.of_ℕ 0))
        then F.div (F.of_ℕ ps.total_write_kbytes) ps.io_time_acc
        else ps.avg_write_rate_kb_s;
  }

abbrev spaces : ℕ → Bytes
spaces zero = []
spaces (suc n) = b' ' ∷ spaces n

-- printf's `%-<n>s`
pad : ℕ → Bytes → Bytes
pad n text = text ++ spaces (n - length text)

module _ {D : Type 0} where
  console_row : (ProcessState D → Bytes) → ProcessState D → Bytes
  unfolding pad
  console_row value ps =
      pad 6 (decimal ps.pid)
      ++ (codes " "
          ++ (pad 20 (take 20 ps.comm)
              ++ (codes " "
                  ++ (pad 6 (ps.state ∷ [])
                      ++ (codes " "
                          ++ (pad 18 (value ps)
                              ++ (codes " "
                                  ++ (pad 8 (decimal_ℤ (signed32 ps.threads))
                                      ++ (codes " "
                                          ++ (pad 15 (decimal ps.number_of_records)
                                              ++ codes "\n"))))))))))

  console_rows : (ProcessState D → Bytes) → List (ProcessState D) → Bytes
  unfolding console_row
  console_rows value [] = []
  console_rows value (ps ∷ rest) = console_row value ps ++ console_rows value rest

  unfoldable pub console_block : Block D → ℕ → List (ProcessState D) → Bytes
  unfolding console_rows pad
  console_block b n shown =
      codes "\nTop "
      ++ (decimal n
          ++ (b.title
              ++ (pad 6 (codes "PID")
                  ++ (codes " "
                      ++ (pad 20 (codes "COMM")
                          ++ (codes " "
                              ++ (pad 6 (codes "STATE")
                                  ++ (codes " "
                                      ++ (pad 18 b.column
                                          ++ (codes " "
                                              ++ (pad 8 (codes "THREADS")
                                                  ++ (codes " "
                                                      ++ (pad 15 (codes "RECORDS")
                                                          ++ (codes "\n"
                                                            ++ console_rows b.console_value
                                                            shown))))))))))))))

-- The array, what was printed to the console, and the JSON output with its first-block flag.
pub record Printing (D : Type 0) : Type 0 where
  pub arr : List (ProcessState D)
  pub console : Bytes
  pub json : Option Bytes × Bool

abbrev pub Qsort : Type 0 → Type 0
Qsort D = Comparator D → List (ProcessState D) → List (ProcessState D)

module _ {D : Type 0} where
  -- n = pids_to_display < count ? pids_to_display : count
  abbrev pub to_display : Block D → ℕ → ℕ
  to_display b count = if ltb b.pids_to_display count then b.pids_to_display else count

module _ {D : Type 0} (qsort : Qsort D) where
  -- The entries that the loops over `i < n` print, of the sorted array.
  abbrev pub shown : Block D → List (ProcessState D) → List (ProcessState D)
  shown b arr = take (to_display b (length arr)) (qsort b.compare arr)

module _ {D : Type 0} (F : Float D) (qsort : Qsort D) (console_enabled : Bool) where
  print_block : Block D → Printing D → Printing D
  print_block b s =
      let text = console_block b (to_display b (length s.arr)) (shown qsort b s.arr) in
      if b.requested
      then record {
        arr = qsort b.compare s.arr;
        console = if console_enabled then s.console ++ text else s.console;
        json = write_metric_block_json F (g_metrics b.index) (shown qsort b s.arr) s.json;
      }
      else s

  pub print_blocks : List (Block D) → Printing D → Printing D
  print_blocks [] s = s
  print_blocks (b ∷ bs) s = print_blocks bs (print_block b s)

-- `open_metrics_file`: the file is opened if it is enabled and its path is allocated; fopen may
-- fail. A file that is not opened leaves `pfJsonOutput` as it was.
unfoldable pub open_metrics_file : Bool → Bool → Bool → Option Bytes → Option Bytes
open_metrics_file enabled alloc opens before =
    if enabled && alloc && opens then some [] else if enabled && alloc then none else before

-- How a report ends: nothing is done, something is written through a null `pfJsonOutput`, or the
-- console text and the closed metrics file.
pub data Report (S : Type 0) : Type 0 where
  no_report : Report S
  null_file : Report S
  reported : Bytes → Bytes → S → Report S

abbrev written : Option Bytes → Bytes
written none = []
written (some out) = out

-- What the report needs from outside.
pub record Environment (D : Type 0) : Type 0 where
  pub qsort : Qsort D
  pub hostname : Option Bytes
  pub array_allocated : Bool
  pub path_allocated : Bool
  pub file_opens : Bool

abbrev pub prog_text : Option Bytes → Bytes
prog_text none = codes "(null)"
prog_text (some prog) = prog

module _ {D T : Type 0} (F : Float D) (h : ProcessTable D T) (env : Environment D) where
  -- The records are changed through the pointers of the array.
  store_all : T → List (ProcessState D) → T
  store_all t [] = t
  store_all t (ps ∷ rest) = store_all (h.store t ps) rest

  -- From the open file to the end.
  print_open : Bool → MetricsArguments → ℕ → Stats D T → Option Bytes → Report (Stats D T)
  unfolding store_all
  print_open console_enabled args interval_ms s none = null_file
  print_open console_enabled args interval_ms s (some out) =
      let duration = get_snapshot_duration F s.initial_timestamp s.last_timestamp in
      let begun =
        metrics_json_begin F s.number_of_snapshots interval_ms s.initial_timestamp s.last_timestamp
          (prog_text s.prog_name) env.hostname duration in
      let arr = map (with_averages F args) (h.iter s.table) in
      let printing =
        print_blocks F env.qsort console_enabled (blocks F args)
          (record { arr = arr; console = []; json = (some (out ++ begun), true) }) in
      let closed = metrics_json_end printing.json in
      reported printing.console (written closed.0) (record s {
        table = store_all s.table arr;
        json_output = none;
        is_first_json_metric = true;
      })

  unfoldable pub process_stats_print_metrics :
      Bool → Bool → MetricsArguments → ℕ → Stats D T → Report (Stats D T)
  unfolding print_open
  process_stats_print_metrics console_enabled json_enabled args interval_ms s =
      if not s.is_module_initialized
      then no_report
      else if h.count s.table == 0 || not env.array_allocated
      then no_report
      else print_open console_enabled args interval_ms s
          (open_metrics_file json_enabled env.path_allocated env.file_opens s.json_output)
