-- ===== src/Stats/Update.antt =====
-- `get_or_create_process`, `process_stats_update` and the life cycle of the module:
-- code/process_stats/process_stats.c.
pub mod History
use linux_process_analyzer.Prelude.{
  ℕ, ◌+◌, Bool, true, false, Option, none, some, List, [], ◌∷◌, if◌then◌else◌, take, length, ltb,
}
use linux_process_analyzer.Prelude.Int.{ℤ, pos, ltb_ℤ}
use linux_process_analyzer.Prelude.Cstr.{Bytes}
use linux_process_analyzer.Prelude.Strto.{is_nil}
use linux_process_analyzer.Stats.{Float, ProcessState, ProcessStateInput, ProcessTable, Stats}
use linux_process_analyzer.Stats.Sample.{wrap64, sample, fresh}

-- snprintf into a buffer of 64 bytes.
abbrev pub stamp : Bytes → Bytes
stamp text = take 63 text

module _ {D T : Type 0} where
  unfoldable pub process_stats_snapshot_end : Stats D T → Stats D T
  process_stats_snapshot_end s =
      if s.is_module_initialized
      then record s { number_of_snapshots = wrap64 (s.number_of_snapshots + 1) }
      else s

  -- `hz` and `cpus` are what sysconf returns.
  unfoldable process_stats_initialize : ℤ → ℤ → Bytes → Stats D T → Stats D T
  process_stats_initialize hz cpus prog s = record s {
    clock_ticks_per_second = if ltb_ℤ (pos 0) hz then hz else s.clock_ticks_per_second;
    online_cpu_count = if ltb_ℤ (pos 0) cpus then cpus else s.online_cpu_count;
    is_module_initialized = true;
    prog_name = some prog;
  }

  save_timestamps : Bytes → Stats D T → Stats D T
  save_timestamps text s =
      if is_nil s.initial_timestamp
      then record s { initial_timestamp = stamp text; last_timestamp = stamp text }
      else record s { last_timestamp = stamp text }

  module _ (F : Float D) (h : ProcessTable D T) where
    unfoldable process_stats_deinit : Stats D T → Stats D T
    process_stats_deinit s = record s {
      table = h.empty;
      json_output = none;
      is_module_initialized = false;
      prog_name = none;
      number_of_snapshots = 0;
      is_first_json_metric = true;
      initial_timestamp = [];
      last_timestamp = [];
    }

    or_create :
        Bool → ProcessStateInput D → T → Option (ProcessState D) → Option (ProcessState D) × T
    or_create alloc input t (some ps) = (some ps, t)
    or_create alloc input t none =
        if alloc then (some (fresh F input), h.add t (fresh F input)) else (none, t)

    -- The flag says whether calloc succeeds.
    get_or_create_process : Bool → ProcessStateInput D → T → Option (ProcessState D) × T
    unfolding or_create
    get_or_create_process alloc input t = or_create alloc input t (h.find t input.pid)

    sample_at : ProcessStateInput D → Stats D T → Option (ProcessState D) → Stats D T
    sample_at input s none = s
    sample_at input s (some ps) = record s {
      table = h.store s.table (sample F s.clock_ticks_per_second s.online_cpu_count input ps);
    }

    pub process_stats_update : Bool → ProcessStateInput D → Stats D T → Stats D T
    unfolding sample_at save_timestamps
    process_stats_update alloc input s =
        let (found, t) = get_or_create_process alloc input s.table in
        if s.is_module_initialized
        then sample_at input (save_timestamps input.h_r_timestamp (record s { table = t })) found
        else s
