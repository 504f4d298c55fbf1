-- ===== src/Snapshot/Proc.antt =====
-- The reading of /proc: `read_proc_stat`, `read_proc_io` and `read_fd` of
-- code/process_snapshot/process_snapshot.c. An `int` or `long` that is scanned is kept as its bits.
pub mod Comm
pub mod Fields
pub mod IoFile
pub mod Line
pub mod ReadBack
use linux_process_analyzer.Prelude.{
  ℕ, zero, suc, ◌+◌, ◌-◌, ◌*◌, ◌/◌, ◌%◌, ◌^◌, Bool, true, false, not, Option, none, some, List, [],
  ◌∷◌, ◌++◌, ◌==◌, ◌&&◌, if◌then◌else◌, length, take, drop,
}
use linux_process_analyzer.Prelude.Int.{ℤ, pos, negsuc, ◌*ℤ◌, signed64, unsigned64, ltb_ℤ}
use linux_process_analyzer.Prelude.Cstr.{Bytes, codes, split_first, split_last}
use linux_process_analyzer.Prelude.Strto.{Strto, strtol, strtoull}
use linux_process_analyzer.Config.File.{fgets, fgets_rest}
use linux_process_analyzer.Stats.{ProcessStateInput}
use linux_process_analyzer.Snapshot.Filter.{is_numeric}

-- What /proc/<pid> holds: stat, io and the names in fd, `none` where they cannot be opened.
pub record ProcessDir : Type 0 where
  pub stat : Option Bytes
  pub io : Option Bytes
  pub fd : Option (List Bytes)

numeric_names : List Bytes → ℕ
numeric_names [] = 0
numeric_names (name ∷ names) =
    let rest = numeric_names names in if is_numeric name then rest + 1 else rest

-- `none` is -1.
unfoldable pub count_open_fds_for_pid : Option (List Bytes) → Option ℕ
unfolding numeric_names
count_open_fds_for_pid none = none
count_open_fds_for_pid (some names) = some (numeric_names names)

-- The buffer of `fgets(line, sizeof(line), f)` in `read_proc_io`, and that for the name.
abbrev io_line_bytes : ℕ
io_line_bytes = 255

abbrev pub stat_bytes : ℕ
stat_bytes = 1023

abbrev pub comm_bytes : ℕ
comm_bytes = 63

-- What follows a text that begins with `prefix`.
behind_prefix : Bytes → Bytes → Option Bytes
behind_prefix [] s = some s
behind_prefix (p ∷ ps) [] = none
behind_prefix (p ∷ ps) (c ∷ cs) = let rest = behind_prefix ps cs in if p == c then rest else none

scanned_number : Option Bytes → Option ℕ
unfolding strtoull
scanned_number none = none
scanned_number (some s) = if (strtoull s).converted then some (strtoull s).value else none

-- sscanf(line, "<prefix> %llu", &v) == 1
scan_kbytes : Bytes → Bytes → Option ℕ
unfolding behind_prefix scanned_number
scan_kbytes prefix line = scanned_number (behind_prefix prefix line)

on_io_line : Option ℕ → Option ℕ → ℕ × ℕ → ℕ × ℕ
on_io_line (some v) w (r, t) = (v / 1024, t)
on_io_line none (some v) (r, t) = (r, v / 1024)
on_io_line none none (r, t) = (r, t)

-- The loop over the lines; each takes at least one byte.
read_io_lines : ℕ → Bytes → ℕ × ℕ → ℕ × ℕ
unfolding on_io_line scan_kbytes
read_io_lines zero s kbytes = kbytes
read_io_lines (suc fuel) [] kbytes = kbytes
read_io_lines (suc fuel) (c ∷ cs) kbytes =
    let line = fgets io_line_bytes (c ∷ cs) in
    read_io_lines fuel (fgets_rest io_line_bytes (c ∷ cs)) (
      on_io_line (scan_kbytes (codes "read_bytes:") line) (scan_kbytes (codes "write_bytes:") line)
        kbytes)

-- The read and written kilobytes, or -1.
pub read_proc_io : Option Bytes → Option (ℕ × ℕ)
unfolding read_io_lines
read_proc_io none = none
read_proc_io (some text) = some (read_io_lines (length text) text (0, 0))

-- The name between the parentheses, cut to its buffer, and the text behind the last parenthesis.
-- Where the last `)` stands before the first `(`, the length wraps and the buffer is filled.
within : Bytes → Bytes → Option (Bytes × Bytes) → Option (Bytes × Bytes)
unfolding split_last
within before rest (some (comm, behind)) = some (take comm_bytes comm, behind)
within before rest none = elim (split_last b')' before) [
  | none ↦ none
  | some (a, behind) ↦ some (take comm_bytes rest, behind ++ (b'(' ∷ rest))
]

from_lparen : Option (Bytes × Bytes) → Option (Bytes × Bytes)
unfolding within split_last
from_lparen none = none
from_lparen (some (before, rest)) = within before rest (split_last b')' rest)

pub comm_of : Bytes → Option (Bytes × Bytes)
unfolding from_lparen
comm_of buf = from_lparen (split_first b'(' buf)

-- %d and %ld, or %u, %lu and %llu.
pub data Conversion : Type 0 where
  signed unsigned : Conversion

pub conversion : Conversion → Bytes → Option (ℕ × Bytes)
unfolding strtol strtoull
conversion signed s =
    if (strtol s).converted then some (unsigned64 (strtol s).value, (strtol s).rest) else none
conversion unsigned s =
    if (strtoull s).converted then some ((strtoull s).value, (strtoull s).rest) else none

-- The values of all the conversions, if each finds a number.
pub scan : List Conversion → Bytes → Option (List ℕ)
unfolding conversion
scan [] s = some []
scan (k ∷ ks) s = elim (conversion k s) [
  | none ↦ none
  | some (v, rest) ↦ elim (scan ks rest) [ none ↦ none | some vs ↦ some (v ∷ vs) ]
]

-- The conversions of the format behind "%c ".
abbrev pub stat_format : List Conversion
stat_format =
    signed ∷ signed ∷ signed ∷ signed ∷ signed ∷ unsigned ∷ unsigned ∷ unsigned ∷ unsigned
    ∷ unsigned ∷ unsigned ∷ unsigned ∷ signed ∷ signed ∷ signed ∷ signed ∷ signed ∷ signed
    ∷ unsigned ∷ unsigned ∷ signed ∷ []

value_at : ℕ → List ℕ → ℕ
value_at n [] = 0
value_at zero (v ∷ vs) = v
value_at (suc n) (v ∷ vs) = value_at n vs

-- The state and the numbers of the text from `rparen + 2`.
scan_stat : Bytes → Option (ℕ × List ℕ)
unfolding scan
scan_stat [] = none
scan_stat (state ∷ s) = elim (scan stat_format s) [ none ↦ none | some vs ↦ some (state, vs) ]

module _ {D : Type 0} (page_size_kb : ℕ) (timestamp : D) (h_r_timestamp : Bytes) where
  -- The input with the fields of stat; those of io and fd are still open.
  stat_input : ℕ → Bytes → ℕ → List ℕ → ProcessStateInput D
  unfolding value_at
  stat_input pid comm state vs =
      let rss_pages = signed64 (value_at 20 vs) in
      record {
        pid = pid;
        comm = comm;
        state = state;
        ppid = value_at 0 vs % 2 ^ 32;
        utime = value_at 10 vs;
        stime = value_at 11 vs;
        rss_kb = if ltb_ℤ rss_pages (pos 0) then negsuc 0 else rss_pages *ℤ pos page_size_kb;
        timestamp = timestamp;
        h_r_timestamp = h_r_timestamp;
        threads = value_at 16 vs % 2 ^ 32;
        read_kbytes = 2 ^ 64 - 1;
        write_kbytes = 2 ^ 64 - 1;
        is_rss_valid = not (ltb_ℤ rss_pages (pos 0));
        is_io_valid = false;
        number_of_fds = 0;
        is_fd_valid = false;
      }

  with_io : Option (ℕ × ℕ) → ProcessStateInput D → ProcessStateInput D
  with_io none i = record i {
    read_kbytes = 2 ^ 64 - 1;
    write_kbytes = 2 ^ 64 - 1;
    is_io_valid = false;
  }
  with_io (some (r, w)) i = record i { read_kbytes = r; write_kbytes = w; is_io_valid = true }

  with_comm : ℕ → Option Bytes → Option (Bytes × Bytes) → Option (ProcessStateInput D)
  unfolding scan_stat stat_input with_io read_proc_io
  with_comm pid io none = none
  with_comm pid io (some (comm, behind)) = elim (scan_stat (drop 1 behind)) [
    | none ↦ none
    | some (state, vs) ↦ some (with_io (read_proc_io io) (stat_input pid comm state vs))
  ]

  -- `none` is -1: an error leaves nothing of the process in use.
  unfoldable pub read_proc_stat : ℕ → ProcessDir → Option (ProcessStateInput D)
  unfolding with_comm comm_of
  read_proc_stat pid p = elim p.stat [
    | none ↦ none
    | some [] ↦ none
    | some (c ∷ cs) ↦ with_comm pid p.io (comm_of (fgets stat_bytes (c ∷ cs)))
  ]

module _ {D : Type 0} where
  unfoldable pub read_fd : Option (List Bytes) → ProcessStateInput D → ProcessStateInput D
  read_fd names i = elim (count_open_fds_for_pid names) [
    | none ↦ record i { number_of_fds = 0; is_fd_valid = false }
    | some n ↦ record i { number_of_fds = n; is_fd_valid = true }
  ]
