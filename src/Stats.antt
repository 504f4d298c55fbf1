-- ===== src/Stats.antt =====
-- The data of code/process_stats: process_stats.h, and the structures and globals at the top of
-- process_stats.c. `D` stands for double.
pub mod Sample
pub mod Update
pub mod Order
pub mod Metrics
pub mod Report
use linux_process_analyzer.Prelude.{
  ℕ, ◌≡◌, Bool, false, Option, none, List, [], ◌∷◌, ◌++◌, map, ◌==◌, if◌then◌else◌, some, length,
}
use linux_process_analyzer.Prelude.Int.{ℤ, pos}
use linux_process_analyzer.Prelude.Cstr.{Bytes}

-- The double arithmetic that the program uses. `of_ℕ` converts from unsigned long, `of_ℤ` from long;
-- `show2` and `show3` are printf's %.2f and %.3f.
pub record Float (D : Type 0) : Type 0 where
  pub of_ℕ : ℕ → D
  pub of_ℤ : ℤ → D
  pub add : D → D → D
  pub sub : D → D → D
  pub mul : D → D → D
  pub div : D → D → D
  pub lt : D → D → Bool
  pub le : D → D → Bool
  pub eq : D → D → Bool
  pub show2 : D → Bytes
  pub show3 : D → Bytes

-- process_state_t, without the hash handle.
pub record ProcessState (D : Type 0) : Type 0 where
  pub pid : ℕ
  pub comm : Bytes
  pub utime : ℕ
  pub stime : ℕ
  pub rss_kb : ℤ
  pub threads : ℕ
  pub state : ℕ
  pub total_read_kbytes : ℕ
  pub total_write_kbytes : ℕ
  pub prev_cpu_ticks : ℕ
  pub prev_rss_kb : ℤ
  pub prev_timestamp : D
  pub initial_num_of_fds : ℕ
  pub fd_delta : ℤ
  pub current_num_of_fds : ℕ
  pub is_fd_initialized : Bool
  pub number_of_records : ℕ
  pub cpu_usage : D
  pub average_cpu_usage : D
  pub cpu_usage_sum : D
  pub cpu_usage_samples : ℕ
  pub rss_initial_kb : ℤ
  pub rss_average_kb : ℤ
  pub rss_sum : ℤ
  pub rss_variation_since_startup : ℤ
  pub is_rss_initialized : Bool
  pub num_of_rss_records : ℕ
  pub prev_read_kbytes : ℕ
  pub prev_write_kbytes : ℕ
  pub avg_read_rate_kb_s : D
  pub avg_write_rate_kb_s : D
  pub io_time_acc : D
  pub is_io_initialized : Bool
  pub seen_in_snapshot : Bool

-- process_state_input_t
pub record ProcessStateInput (D : Type 0) : Type 0 where
  pub pid : ℕ
  pub comm : Bytes
  pub state : ℕ
  pub ppid : ℕ
  pub utime : ℕ
  pub stime : ℕ
  pub rss_kb : ℤ
  pub timestamp : D
  pub h_r_timestamp : Bytes
  pub threads : ℕ
  pub read_kbytes : ℕ
  pub write_kbytes : ℕ
  pub is_rss_valid : Bool
  pub is_io_valid : Bool
  pub number_of_fds : ℕ
  pub is_fd_valid : Bool

-- The uthash macros on `g_process_table`: HASH_FIND_INT, HASH_ADD_INT, what is written through a
-- pointer that the find returned (`store`), HASH_ITER and HASH_COUNT.
pub record ProcessTable (D T : Type 0) : Type 0 where
  pub empty : T
  pub find : T → ℕ → Option (ProcessState D)
  pub add : T → ProcessState D → T
  pub store : T → ProcessState D → T
  pub iter : T → List (ProcessState D)
  pub count : T → ℕ

module _ {D : Type 0} where
  abbrev pub lookup_pid : ℕ → List (ProcessState D) → Option (ProcessState D)
  lookup_pid k [] = none
  lookup_pid k (p ∷ ps) = if p.pid == k then some p else lookup_pid k ps

  abbrev pub replace : ProcessState D → ProcessState D → ProcessState D
  replace p q = if q.pid == p.pid then p else q

-- uthash's documentation: a find returns the item with the key, new items are iterated last, and
-- the iteration visits each item once.
pub record IsTable {D T : Type 0} (h : ProcessTable D T) : Type 0 where
  pub iter-empty : h.iter h.empty ≡ []
  pub find-iter : (t : T) (k : ℕ) → h.find t k ≡ lookup_pid k (h.iter t)
  pub iter-add :
      (t : T) (p : ProcessState D) → h.find t p.pid ≡ none → h.iter (h.add t p) ≡ h.iter t ++ p ∷ []
  pub iter-store : (t : T) (p : ProcessState D) → h.iter (h.store t p) ≡ map (replace p) (h.iter t)
  pub count-iter : (t : T) → h.count t ≡ length (h.iter t)

-- The globals of process_stats.c. `json_output` is what was written to the open `pfJsonOutput`.
pub record Stats (D T : Type 0) : Type 0 where
  pub table : T
  pub is_module_initialized : Bool
  pub prog_name : Option Bytes
  pub json_output : Option Bytes
  pub number_of_snapshots : ℕ
  pub initial_timestamp : Bytes
  pub last_timestamp : Bytes
  pub is_first_json_metric : Bool
  pub clock_ticks_per_second : ℤ
  pub online_cpu_count : ℤ
