-- ===== src/Compression/Job.antt =====
-- The work on one rotated file of code/compression/compression_worker.c, with the name that
-- code/process_snapshot/process_snapshot.c gives it.
use mathlib.Core.List.{append_assoc}
use linux_process_analyzer.Prelude.{
  ℕ, ◌+◌, ◌-◌, ◌≤◌, ◌<◌, ◌≡◌, ◌≢◌, refl, sym, ap, ◌∙◌, Bool, true, false, Option, none, some, [],
  ◌∷◌, ◌++◌, ◌==◌, ◌||◌, if-true, if-false, arith, length, length-append, All, take-all,
  length-take, subst, leb,
}
use linux_process_analyzer.Prelude.Int.{pos}
use linux_process_analyzer.Prelude.Cstr.{Bytes, codes, split_last}
use linux_process_analyzer.Prelude.Strto.{decimal, is_nil}
use linux_process_analyzer.Args.Numbers.RoundTrip.{IsDigit, decimal-IsDigit, decimal-ne-nil}
use linux_process_analyzer.Config.{path_max}
use linux_process_analyzer.Snapshot.Files.{Files, unlink, rename-onto, put_self, put-ne, put}
use linux_process_analyzer.Snapshot.Rotate.{unique_name}
use linux_process_analyzer.Compression.{
  without_extension, and_then_without, extract_base_path, compress_file_gzip, process_job, Gzip,
  zipped, with_base, compress_content, after_compression, remove_original,
}

split_last-digits : (ds : Bytes) → All IsDigit ds → split_last b'.' ds ≡ none
unfolding split_last
split_last-digits [] h = refl
split_last-digits (d ∷ ds) h = rw (split_last-digits ds h.1) (ground arith)

pub split_last-dot :
    (path ds : Bytes) → All IsDigit ds → split_last b'.' (path ++ (b'.' ∷ ds)) ≡ some (path, ds)
unfolding split_last
split_last-dot [] ds h = rw (split_last-digits ds h) refl
split_last-dot (c ∷ path) ds h = rw (split_last-dot path ds h) refl

without_extension-number :
    (path : Bytes) (n : ℕ) → without_extension (path ++ (b'.' ∷ decimal n)) ≡ some path
unfolding without_extension
without_extension-number path n = rw (split_last-dot path (decimal n) (decimal-IsDigit n)) refl

one : decimal 1 ≡ codes "1"
unfolding decimal
one = refl

-- The name of a rotated file, before it is cut to the buffer.
abbrev pub whole : Bytes → ℕ → ℕ → Bytes
whole path time counter = path ++ (codes ".1." ++ (decimal time ++ (b'.' ∷ decimal counter)))

pub whole-extensions :
    (path : Bytes) (time counter : ℕ)
    → whole path time counter
      ≡ ((path ++ (b'.' ∷ decimal 1)) ++ (b'.' ∷ decimal time)) ++ (b'.' ∷ decimal counter)
whole-extensions path time counter = rw one (simp append_assoc)

three_extensions :
    (path : Bytes) (time counter : ℕ)
    → and_then_without (and_then_without (without_extension (whole path time counter))) ≡ some path
unfolding and_then_without
three_extensions path time counter =
    ap (λ (t : Bytes). and_then_without (and_then_without (without_extension t)))
      (whole-extensions path time counter)
    ∙ ap (λ o. and_then_without (and_then_without o)) (without_extension-number _ counter)
    ∙ ap (λ o. and_then_without o) (without_extension-number _ time)
    ∙ without_extension-number path 1

not_empty : (path : Bytes) (time counter : ℕ) → 0 < length (whole path time counter)
not_empty [] time counter = omega arith
not_empty (c ∷ path) time counter = omega arith

extract_base_path-whole :
    (path : Bytes) (time counter : ℕ)
    → length (whole path time counter) < path_max
    → extract_base_path (whole path time counter) ≡ some path
unfolding extract_base_path
extract_base_path-whole path time counter room =
    if-false
      {b = length (whole path time counter) == 0 || leb path_max (length (whole path time counter))}
      none _ (ground (arith, not_empty path time counter))
    ∙ three_extensions path time counter

-- The name that `rotate_logs` makes for a file to be compressed, if it fits its buffer, is taken
-- apart to the path that was rotated, also where that path has dots.
pub extract_base_path-unique_name :
    (path : Bytes) (time counter : ℕ)
    → length (path ++ (codes ".1." ++ (decimal time ++ (b'.' ∷ decimal counter)))) < path_max
    → extract_base_path (unique_name path time counter) ≡ some path
unfolding unique_name
extract_base_path-unique_name path time counter room =
    ap extract_base_path (take-all (path_max - 1) (whole path time counter) (omega arith))
    ∙ extract_base_path-whole path time counter room

module _ (gz : Gzip) where
  -- What the job relies on: the source opens, the compressed file is made, and the writes succeed.
  pub record Works (src dst content : Bytes) : Type 0 where
    pub source : gz.fopen src ≡ true
    pub target : gz.gz_open dst ≡ true
    pub writes : gz.gz_write (gz.fread content) ≡ true

  compress_file_gzip-ok :
      (src dst content : Bytes) (files : Files)
      → files src ≡ some content
      → Works src dst content
      → compress_file_gzip gz src dst files ≡ (pos 0, put dst (some (zipped gz content)) files)
  unfolding compress_file_gzip compress_content
  compress_file_gzip-ok src dst content files e w =
      ap (λ (c : Option Bytes). compress_content gz dst files c)
        (if-true (files src) none w.source ∙ e)
      ∙ rw (w.target, w.writes) refl

  module _ (faults : Bytes → Bytes → Bool) where
    abbrev pub result : Bytes → Bytes → Bytes → Bytes → Files → Files
    result path gz_path final zipped files =
        unlink path (put final (some zipped) (put gz_path none (put gz_path (some zipped) files)))

    pub process_job-ok :
        (path base content : Bytes) (files : Files)
        → extract_base_path path ≡ some base
        → length (path ++ codes ".gz") < path_max
        → length (base ++ codes ".1.gz") < path_max
        → path ++ codes ".gz" ≢ base ++ codes ".1.gz"
        → files path ≡ some content
        → Works path (path ++ codes ".gz") content
        → gz.unlinks path ≡ true
        → faults (path ++ codes ".gz") (base ++ codes ".1.gz") ≡ false
        → process_job gz faults path files
          ≡ result path (path ++ codes ".gz") (base ++ codes ".1.gz") (zipped gz content) files
    unfolding process_job with_base after_compression remove_original
    process_job-ok path base content files e s t ne c w u ok =
        let gz_path = path ++ codes ".gz" in
        let final = base ++ codes ".1.gz" in
        let done = some (zipped gz content) in
        ap (λ b. with_base gz faults path b files) e
        ∙ if-false {b = leb path_max (length gz_path)} files _ (ground arith)
        ∙ if-false {b = leb path_max (length final)} files _ (ground arith)
        ∙ ap (λ r. after_compression gz faults path gz_path final r)
            (compress_file_gzip-ok path gz_path content files c w)
        ∙ ap (λ r. remove_original gz path r)
            (rename-onto faults gz_path final (put gz_path done files) (zipped gz content) ok
              (put_self gz_path done files) ne)
        ∙ if-true (unlink path (put final done (put gz_path none (put gz_path done files)))) _ u

    pub result-files :
        (path gz_path final zipped : Bytes) (files : Files)
        → path ≢ gz_path
        → path ≢ final
        → gz_path ≢ final
        → (let after = result path gz_path final zipped files in
            (after final ≡ some zipped)
            × (after path ≡ none)
            × (after gz_path ≡ none)
            × ((q : Bytes) → q ≢ path → q ≢ gz_path → q ≢ final → after q ≡ files q))
    unfolding unlink
    result-files path gz_path final zipped files a b c =
        let zipping = put gz_path (some zipped) files in
        let moved = put final (some zipped) (put gz_path none zipping) in
        (
          put-ne path final none moved b ∙ put_self final (some zipped) (put gz_path none zipping),
          put_self path none moved,
          put-ne path gz_path none moved a
              ∙ put-ne final gz_path (some zipped) (put gz_path none zipping) (λ e. c (sym e))
              ∙ put_self gz_path none zipping,
          λ q x y z.
              put-ne path q none moved (λ e. x (sym e))
              ∙ put-ne final q (some zipped) (put gz_path none zipping) (λ e. z (sym e))
              ∙ put-ne gz_path q none zipping (λ e. y (sym e))
              ∙ put-ne gz_path q (some zipped) files (λ e. y (sym e)),
        )

    -- The file at `rotated` becomes its compressed form at `final`; nothing else changes.
    abbrev pub Compressed : Bytes → Bytes → Bytes → Files → Type 0
    Compressed rotated final content before =
        let after = process_job gz faults rotated before in
        (after final ≡ some (zipped gz content))
        × (after rotated ≡ none)
        × (after (rotated ++ codes ".gz") ≡ none)
        × ((q : Bytes) → q ≢ rotated → q ≢ rotated ++ codes ".gz" → q ≢ final → after q ≡ before q)

    abbrev Compresses : Bytes → Bytes → Bytes → Files → Type 0
    Compresses rotated final content before =
        (before rotated ≡ some content)
        → Works rotated (rotated ++ codes ".gz") content
        → (gz.unlinks rotated ≡ true)
        → (faults (rotated ++ codes ".gz") final ≡ false)
        → Compressed rotated final content before

    length-differ : (a b : Bytes) → length a ≢ length b → a ≢ b
    length-differ a b h e = h (ap length e)

    not_nil : (ds : Bytes) → is_nil ds ≡ false → 1 ≤ length ds
    not_nil [] h = cc
    not_nil (d ∷ ds) h = omega arith

    length-whole :
        (path : Bytes) (time counter : ℕ) → length path + 6 ≤ length (whole path time counter)
    length-whole path time counter = omega (
      arith,
      length-append path (codes ".1." ++ (decimal time ++ (b'.' ∷ decimal counter))),
      length-append (decimal time) (b'.' ∷ decimal counter),
      not_nil (decimal time) (decimal-ne-nil time),
      not_nil (decimal counter) (decimal-ne-nil counter),
    )

    whole-Compresses :
        (path : Bytes) (time counter : ℕ) (content : Bytes) (before : Files)
        → length (whole path time counter) + 3 < path_max
        → Compresses (whole path time counter) (path ++ codes ".1.gz") content before
    whole-Compresses path time counter content before room c w u ok =
        let rotated = whole path time counter in
        let gz_path = rotated ++ codes ".gz" in
        let final = path ++ codes ".1.gz" in
        let n = length-whole path time counter in
        let g = length-append rotated (codes ".gz") in
        let f = length-append path (codes ".1.gz") in
        let gz_ne_final = length-differ gz_path final (λ h. absurd (omega (arith, n, g, f, h))) in
        rw
          (process_job-ok rotated path content before
            (extract_base_path-whole path time counter (omega arith)) (omega (arith, g))
            (omega (arith, n, f)) gz_ne_final c w u ok)
          (result-files rotated gz_path final (zipped gz content) before
            (length-differ rotated gz_path (λ h. absurd (omega (arith, g, h))))
            (length-differ rotated final (λ h. absurd (omega (arith, n, f, h)))) gz_ne_final)

    -- The job of a file that `rotate_logs` renamed to be compressed, with a name that has room for
    -- ".gz", where the files open, the writes of zlib succeed and the rename and the unlink do not
    -- fail: the file "<path>.1.gz" gets what gzclose makes of the part of the content that fread
    -- delivers, whatever the file held before, the original and the temporary file are gone, and no
    -- other file changes.
    pub process_job-Compressed :
        (path : Bytes) (time counter : ℕ) (content : Bytes) (before : Files)
        → length (unique_name path time counter) + 3 < path_max
        → before (unique_name path time counter) ≡ some content
        → Works
            (unique_name path time counter)
            (unique_name path time counter ++ codes ".gz")
            content
        → gz.unlinks (unique_name path time counter) ≡ true
        → faults (unique_name path time counter ++ codes ".gz") (path ++ codes ".1.gz") ≡ false
        → Compressed (unique_name path time counter) (path ++ codes ".1.gz") content before
    unfolding unique_name
    process_job-Compressed path time counter content before room c w u ok =
        let n = length-take (path_max - 1) (whole path time counter) in
        let small : length (whole path time counter) + 3 < path_max = omega (arith, n, room) in
        subst (λ (p : Bytes). Compresses p (path ++ codes ".1.gz") content before)
          (sym (take-all (path_max - 1) (whole path time counter) (omega (arith, small))))
          (whole-Compresses path time counter content before small) c w u ok
