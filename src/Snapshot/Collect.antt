-- ===== src/Snapshot/Collect.antt =====
-- `collect_snapshot` and `write_output_to_json` of code/process_snapshot/process_snapshot.c, from
-- the entries of /proc on: the rotation before it is `handle_rotations`.
pub mod Selected
pub mod Ended
use linux_process_analyzer.Prelude.{
  ℕ, ◌==◌, Bool, true, false, not, ◌&&◌, Option, none, some, List, [], ◌∷◌, ◌++◌, if◌then◌else◌,
}
use linux_process_analyzer.Prelude.Int.{ℤ, pos, negsuc, pos_part, signed32, signed64}
use linux_process_analyzer.Prelude.Cstr.{Bytes, codes}
use linux_process_analyzer.Prelude.Strto.{decimal, decimal_ℤ}
use linux_process_analyzer.Config.{atoi}
use linux_process_analyzer.Args.{PidWhitelist}
use linux_process_analyzer.Stats.{Float, ProcessStateInput, ProcessTable, Stats}
use linux_process_analyzer.Stats.Update.{process_stats_update, process_stats_snapshot_end}
use linux_process_analyzer.Snapshot.Filter.{
  is_numeric, is_pid_in_filter, is_comm_in_filter, is_filtering_enabled,
}
use linux_process_analyzer.Snapshot.Proc.{ProcessDir, read_proc_stat, read_fd}

-- The configuration and the system during one snapshot: the page size, the two times, the PID of
-- the program, the directory of each process, and whether calloc succeeds.
pub record Surroundings (D : Type 0) : Type 0 where
  pub page_size_kb : ℕ
  pub timestamp : D
  pub h_r_timestamp : Bytes
  pub include_self : Bool
  pub raw_console_enabled : Bool
  pub self : ℕ
  pub proc : ℕ → ProcessDir
  pub alloc : Bool

-- The statistics, and what was written to the console and to the two files, if they are open.
pub record Collected (D T : Type 0) : Type 0 where
  pub stats : Stats D T
  pub console : Bytes
  pub log : Option Bytes
  pub jsonl : Option Bytes

abbrev pub write : Bytes → Option Bytes → Option Bytes
write text none = none
write text (some content) = some (content ++ text)

module _ {D : Type 0} where
  shown_fds : ProcessStateInput D → ℤ
  shown_fds i = if i.is_fd_valid then signed64 i.number_of_fds else negsuc 0

  log_line : ProcessStateInput D → Bytes
  unfolding shown_fds
  log_line i =
      codes "PID="
      ++ (decimal i.pid
          ++ (codes " COMM="
              ++ (i.comm
                  ++ (codes " STATE="
                      ++ (i.state ∷ []
                          ++ (codes " PPID="
                              ++ (decimal_ℤ (signed32 i.ppid)
                                  ++ (codes " UTIME="
                                      ++ (decimal i.utime
                                          ++ (codes " STIME="
                                              ++ (decimal i.stime
                                                  ++ (codes " RSS(KB)="
                                                      ++ (decimal_ℤ i.rss_kb
                                                          ++ (codes " IOR(KB)="
                                                            ++ (decimal_ℤ (signed64 i.read_kbytes)
                                                            ++ (codes " IOW(KB)="
                                                            ++ (decimal_ℤ (signed64 i.write_kbytes)
                                                            ++ (codes " THREADS="
                                                            ++ (decimal_ℤ (signed32 i.threads)
                                                            ++ (codes " FD="
                                                            ++ (decimal_ℤ (shown_fds i)
                                                            ++ codes "\n")))))))))))))))))))))

  pub json_line : ProcessStateInput D → Bytes
  unfolding shown_fds
  json_line i =
      codes "{\"timestamp\":\""
      ++ (i.h_r_timestamp
          ++ (codes "\",\"pid\":"
              ++ (decimal i.pid
                  ++ (codes ",\"comm\":\""
                      ++ (i.comm
                          ++ (codes "\",\"state\":\""
                              ++ (i.state ∷ []
                                  ++ (codes "\",\"ppid\":"
                                      ++ (decimal_ℤ (signed32 i.ppid)
                                          ++ (codes ",\"utime\":"
                                              ++ (decimal i.utime
                                                  ++ (codes ",\"stime\":"
                                                      ++ (decimal i.stime
                                                          ++ (codes ",\"rss_kb\":"
                                                            ++ (decimal_ℤ i.rss_kb
                                                            ++ (codes ",\"io_read_kb\":"
                                                            ++ (decimal_ℤ (signed64 i.read_kbytes)
                                                            ++ (codes ",\"io_write_kb\":"
                                                            ++ (decimal_ℤ (signed64 i.write_kbytes)
                                                            ++ (codes ",\"threads\":"
                                                            ++ (decimal_ℤ (signed32 i.threads)
                                                            ++ (codes ",\"fds\":"
                                                            ++ (decimal_ℤ (shown_fds i)
                                                            ++ codes "}\n")))))))))))))))))))))))

module _ {D T : Type 0} where
  log_data : Bool → Bytes → Collected D T → Collected D T
  log_data console_enabled text c = record c {
    console = if console_enabled then c.console ++ text else c.console;
    log = write text c.log;
  }

  write_output_to_json : ProcessStateInput D → Collected D T → Collected D T
  unfolding json_line
  write_output_to_json i c = record c { jsonl = write (json_line i) c.jsonl }

module _ {D : Type 0} (e : Surroundings D) where
  pub process_at : ℕ → Option (ProcessStateInput D)
  process_at pid = read_proc_stat e.page_size_kb e.timestamp e.h_r_timestamp pid (e.proc pid)

module _ {D T : Type 0} (F : Float D) (h : ProcessTable D T) (e : Surroundings D)
    (w : PidWhitelist) where
  -- The loop's body for a process that was read.
  take_process : ProcessStateInput D → Collected D T → Collected D T
  unfolding log_data log_line write_output_to_json
  take_process i c =
      let logged = log_data e.raw_console_enabled (log_line i) c in
      write_output_to_json i
        (record logged { stats = process_stats_update F h e.alloc i logged.stats })

  filtered : ℕ → ProcessStateInput D → Collected D T → Collected D T
  unfolding take_process
  filtered pid i c =
      if is_filtering_enabled w
      then if not (is_comm_in_filter i.comm w) && not (is_pid_in_filter pid w)
        then c
        else take_process (read_fd (e.proc pid).fd i) c
      else take_process (read_fd (e.proc pid).fd i) c

  read_process : ℕ → Option (ProcessStateInput D) → Collected D T → Collected D T
  unfolding filtered
  read_process pid none c = c
  read_process pid (some i) c = filtered pid i c

  -- An entry of /proc: whether it is a directory, and its name.
  collect_entry : Bool → Bytes → Collected D T → Collected D T
  unfolding read_process process_at
  collect_entry is_directory name c =
      let pid = pos_part (atoi name) in
      if not is_directory
      then c
      else if not (is_numeric name)
      then c
      else if not e.include_self
      then if pid == e.self then c else read_process pid (process_at e pid) c
      else read_process pid (process_at e pid) c

  -- while ((de = readdir(dir)) != NULL)
  pub collect_entries : List (Bool × Bytes) → Collected D T → Collected D T
  unfolding collect_entry
  collect_entries [] c = c
  collect_entries ((is_directory, name) ∷ entries) c =
      collect_entries entries (collect_entry is_directory name c)

  -- The entries after `rewinddir`; the flush moves nothing between the fields.
  unfoldable pub collect_snapshot : List (Bool × Bytes) → Collected D T → Collected D T
  unfolding collect_entries log_data
  collect_snapshot entries c =
      let stamped =
        log_data e.raw_console_enabled (codes "[" ++ (e.h_r_timestamp ++ codes "] ")) c in
      let opened =
        log_data e.raw_console_enabled (codes " SNAPSHOT START ################# \n") stamped in
      let read = collect_entries entries opened in
      let ended = log_data e.raw_console_enabled (codes "SNAPSHOT END ################# \n") read in
      record ended { stats = process_stats_snapshot_end ended.stats }
