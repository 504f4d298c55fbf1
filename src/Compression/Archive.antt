-- ===== src/Compression/Archive.antt =====
-- The archive of compressed logs, as code/process_snapshot/process_snapshot.c and
-- code/compression/compression_worker.c keep it together: one rotates, the other compresses.
use linux_process_analyzer.Prelude.{
  ℕ, zero, suc, ◌+◌, ◌^◌, ◌≤◌, ◌<◌, ◌≡◌, refl, sym, ap, ◌∙◌, Bool, true, false, Option, none, some,
  List, [], ◌∷◌, ◌++◌, All, arith, length,
}
use linux_process_analyzer.Prelude.Cstr.{Bytes, codes}
use linux_process_analyzer.Prelude.Strto.{decimal, digits_onto}
use linux_process_analyzer.Args.Numbers.RoundTrip.{IsDigit, decimal-IsDigit}
use linux_process_analyzer.Config.{path_max}
use linux_process_analyzer.Snapshot.Files.{Files}
use linux_process_analyzer.Snapshot.Rotate.{numbered_gz, unique_name, Output, rotate_logs}
use linux_process_analyzer.Snapshot.Rotate.Chain.{limit}
use linux_process_analyzer.Snapshot.Rotate.Names.{numbered_gz-whole, path-ne-numbered_gz}
use linux_process_analyzer.Snapshot.Rotate.Unique.{
  HasUniqueRoom, HasUniqueRoom-HasRoom, whole, unique_name-whole, length-whole, numbered_gz-ne,
  numbered_gz-ne-unique_name, path-ne-unique_name,
}
use linux_process_analyzer.Snapshot.Rotate.ShiftGz.{rotate_logs_shift_gz}
use linux_process_analyzer.Compression.{Gzip, zipped, process_job}
use linux_process_analyzer.Compression.Job.{Works, process_job-Compressed}
use linux_process_analyzer.Compression.Dots.{dots, dots_append, dots-ne}

-- The contents of path.k.gz and the following names, n in all.
abbrev pub archive : Bytes → ℕ → ℕ → Files → List (Option Bytes)
archive path k zero files = []
archive path k (suc n) files = files (numbered_gz path k) ∷ archive path (k + 1) n files

archive_shift :
    (path : Bytes) (n k : ℕ) (before after : Files)
    → ((i : ℕ) → k ≤ i → i < k + n → after (numbered_gz path (i + 1)) ≡ before (numbered_gz path i))
    → archive path (k + 1) n after ≡ archive path k n before
archive_shift path zero k before after h = refl
archive_shift path (suc n) k before after h = rw (h k (omega arith) (omega arith)) (
    ap (λ (l : List (Option Bytes)). before (numbered_gz path k) ∷ l)
      (archive_shift path n (k + 1) before after (λ i a b. h i (omega arith) (omega arith))))

dots-digits : (ds : Bytes) → All IsDigit ds → dots ds ≡ 0
unfolding dots
dots-digits [] h = refl
dots-digits (d ∷ ds) h = ground (arith, dots-digits ds h.1)

module _ (path : Bytes) (room : HasUniqueRoom path) where
  first_name : numbered_gz path 1 ≡ path ++ codes ".1.gz"
  unfolding decimal digits_onto
  first_name = numbered_gz-whole path (HasUniqueRoom-HasRoom path room) 1 (omega arith)

  dots-numbered_gz : (i : ℕ) → i < limit → dots (numbered_gz path i) ≡ dots path + 2
  unfolding dots
  dots-numbered_gz i h =
      ap dots (numbered_gz-whole path (HasUniqueRoom-HasRoom path room) i h)
      ∙ omega (
        arith,
        dots_append path (b'.' ∷ (decimal i ++ codes ".gz")),
        dots_append (decimal i) (codes ".gz"),
        dots-digits (decimal i) (decimal-IsDigit i),
      )

  dots-temporary :
      (time counter : ℕ)
      → time < limit
      → counter < 2 ^ 32
      → dots (unique_name path time counter ++ codes ".gz") ≡ dots path + 4
  unfolding dots
  dots-temporary time counter t c =
      ap (λ (u : Bytes). dots (u ++ codes ".gz")) (unique_name-whole path room time counter t c)
      ∙ omega (
        arith,
        dots_append (whole path time counter) (codes ".gz"),
        dots_append path (codes ".1." ++ (decimal time ++ (b'.' ∷ decimal counter))),
        dots_append (decimal time) (b'.' ∷ decimal counter),
        dots-digits (decimal time) (decimal-IsDigit time),
        dots-digits (decimal counter) (decimal-IsDigit counter),
      )

  module _ (gz : Gzip) (faults : Bytes → Bytes → Bool)
      (fine : (a b : Bytes) → faults a b ≡ false) where
    -- A rotation with compression and then the job that it enqueues, where the files open, the writes
    -- of zlib succeed, no call of the file system fails and the names fit: of an archive of at most
    -- n + 1 compressed files, the newest becomes what gzclose makes of the part of the current log
    -- that fread delivers, the others move one place on and the last is dropped; the log, its unique
    -- name and the temporary file are gone.
    pub rotate_then_compress-archive :
        (n time : ℕ) (o : Output) (content : Bytes)
        → n + 1 < limit
        → time < limit
        → o.rotation_counter < 2 ^ 32
        → o.files (unique_name path time o.rotation_counter) ≡ none
        → o.files path ≡ some content
        → Works gz
            (unique_name path time o.rotation_counter)
            (unique_name path time o.rotation_counter ++ codes ".gz")
            content
        → gz.unlinks (unique_name path time o.rotation_counter) ≡ true
        → (let unique = unique_name path time o.rotation_counter in
            let rotated = rotate_logs faults true (n + 1) time path o in
            let after = process_job gz faults unique rotated.files in
            (rotated.enqueued ≡ o.enqueued ++ unique ∷ [])
            × (archive path 1 (suc n) after ≡ some (zipped gz content) ∷ archive path 1 n o.files)
            × (after path ≡ none)
            × (after unique ≡ none)
            × (after (unique ++ codes ".gz") ≡ none))
    rotate_then_compress-archive n time o content small t c free here works unlinked =
        let unique = unique_name path time o.rotation_counter in
        let rotated = rotate_logs faults true (n + 1) time path o in
        let s =
          rotate_logs_shift_gz faults fine path room (n + 1) time o (omega arith) small t c free in
        let short : length unique + 3 < path_max = omega (
          arith,
          ap length (unique_name-whole path room time o.rotation_counter t c),
          length-whole path room time o.rotation_counter t c,
          room,
        ) in
        let j =
          process_job-Compressed gz faults path time o.rotation_counter content rotated.files short
            (s.2 ∙ here) works unlinked (fine _ _) in
        let d = dots-temporary time o.rotation_counter t c in
        let g = λ (i : ℕ) (a : i < limit). dots-numbered_gz i a in
        let after = process_job gz faults unique rotated.files in
        let moved : (i : ℕ)
            → 1 ≤ i
            → i < 1 + n
            → after (numbered_gz path (i + 1)) ≡ o.files (numbered_gz path i) =
          λ i one more.
            j.3 (numbered_gz path (i + 1))
              (numbered_gz-ne-unique_name path room time o.rotation_counter t c (i + 1)
                (omega arith))
              (dots-ne _ _ (λ e. absurd (omega (arith, e, d, g (i + 1) (omega arith)))))
              (λ e.
                numbered_gz-ne path room (i + 1) 1 (omega arith) (omega arith)
                  (λ h. absurd (omega arith)) (e ∙ sym first_name))
            ∙ s.0 i one (omega arith) in
        (
          s.4,
          rw (ap after first_name ∙ j.0) (
              ap (λ (l : List (Option Bytes)). some (zipped gz content) ∷ l)
                (archive_shift path n 1 o.files after moved)),
          j.3 path (path-ne-unique_name path room time o.rotation_counter t c)
                (dots-ne _ _ (λ e. absurd (omega (arith, e, d))))
                (λ e.
                  path-ne-numbered_gz path (HasUniqueRoom-HasRoom path room) 1 (omega arith)
                    (e ∙ sym first_name))
              ∙ s.3,
          j.1,
          j.2,
        )
