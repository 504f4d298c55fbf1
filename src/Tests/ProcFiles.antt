-- ===== src/Tests/ProcFiles.antt =====
-- The reading of /proc in code/process_snapshot at concrete files.
use linux_process_analyzer.Prelude.{◌≡◌, refl, some, none, List, [], ◌∷◌, ℕ, arith, ◌≤◌, length}
use linux_process_analyzer.Prelude.Int.{ℤ, pos, negsuc}
use linux_process_analyzer.Prelude.Cstr.{Bytes, codes, str_eq}
use linux_process_analyzer.Prelude.Strto.{decimal, decimal_ℤ, digits_onto}
use linux_process_analyzer.Stats.{ProcessStateInput}
use linux_process_analyzer.Snapshot.Proc.{
  ProcessDir, stat_bytes, stat_format, read_proc_io, read_proc_stat,
}
use linux_process_analyzer.Snapshot.Proc.Fields.{AllFit}
use linux_process_analyzer.Snapshot.Proc.Line.{stat_line}
use linux_process_analyzer.Snapshot.Proc.ReadBack.{IsRead, read_proc_stat-line}
use linux_process_analyzer.Snapshot.Proc.IoFile.{Printable, io_text, last_value, read_proc_io-text}

abbrev values : List ℤ
values =
    pos 1
    ∷ pos 7
    ∷ pos 7
    ∷ pos 0
    ∷ negsuc 0
    ∷ pos 4194304
    ∷ pos 100
    ∷ pos 0
    ∷ pos 0
    ∷ pos 0
    ∷ pos 15
    ∷ pos 5
    ∷ pos 0
    ∷ pos 0
    ∷ pos 20
    ∷ pos 0
    ∷ pos 1
    ∷ pos 0
    ∷ pos 900
    ∷ pos 1000000
    ∷ pos 250
    ∷ []

abbrev more : List ℤ
more = pos 18 ∷ pos 0 ∷ []

abbrev cat : ProcessDir
cat = record {
  stat =
      some (
        codes
          "7 (c (a) t) S 1 7 7 0 -1 4194304 100 0 0 0 15 5 0 0 20 0 1 0 900 1000000 250 18 0\n");
  io = none;
  fd = none;
}

cat-stat : cat.stat ≡ some (stat_line 7 (codes "c (a) t") b'S' values more)
unfolding stat_line decimal decimal_ℤ digits_onto
cat-stat = refl

cat-room : length (stat_line 7 (codes "c (a) t") b'S' values more) ≤ stat_bytes
unfolding stat_line decimal decimal_ℤ digits_onto
cat-room = omega arith

values-AllFit : AllFit stat_format values
values-AllFit = ground arith

read_proc_stat-line_example :
    (i : ProcessStateInput ℤ) × (read_proc_stat 4 (pos 1000) (codes "now") 7 cat ≡ some i)
    × IsRead 4 (pos 1000) (codes "now") 7 (codes "c (a) t") b'S' values i
read_proc_stat-line_example =
    read_proc_stat-line 4 (pos 1000) (codes "now") 7 (codes "c (a) t") b'S' values more cat cat-stat
      (ground arith) refl refl values-AllFit cat-room

abbrev io_values : List (Bytes × ℕ)
io_values =
    (codes "rchar", 10)
    ∷ (codes "read_bytes", 4096)
    ∷ (codes "write_bytes", 2048)
    ∷ (codes "cancelled_write_bytes", 5000)
    ∷ []

io_values-Printable : Printable io_values
unfolding decimal digits_onto
io_values-Printable = ground arith

read_proc_io-text_example : read_proc_io (some (io_text io_values)) ≡ some (4, 2)
unfolding str_eq last_value
read_proc_io-text_example = read_proc_io-text io_values io_values-Printable
