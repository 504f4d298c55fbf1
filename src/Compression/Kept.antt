-- ===== src/Compression/Kept.antt =====
-- The work of code/compression/compression_worker.c on one file, on every path through it.
use linux_process_analyzer.Prelude.{
  ◌≡◌, ◌≢◌, refl, sym, ◌⊎◌, inl, inr, Bool, true, false, Option, none, some, ◌++◌, if◌then◌else◌,
  if_cases, if-true, if-false, ◌∙◌, length, leb, Bool-cases, subst,
}
use linux_process_analyzer.Prelude.Int.{ℤ, pos, negsuc}
use linux_process_analyzer.Prelude.Cstr.{Bytes, codes}
use linux_process_analyzer.Config.{path_max}
use linux_process_analyzer.Snapshot.Files.{
  Files, Renamed, unlink, rename, put, put-ne, rename-onto, rename-fault, put_self,
}
use linux_process_analyzer.Compression.{
  Gzip, zipped, extract_base_path, compress_content, compress_file_gzip, remove_original,
  after_compression, with_base, process_job,
}
use linux_process_analyzer.Compression.Dots.{
  dots, Fewer, Apart, extract_base_path-Fewer, dots-Apart,
}
use linux_process_analyzer.Compression.Job.{result-files}

module _ (gz : Gzip) (faults : Bytes → Bytes → Bool) (gunzip : Bytes → Option Bytes)
    (intact : (read : Bytes)
      → (gz.gz_close true read).0 ≡ true
      → gunzip (gz.gz_close true read).1 ≡ some read) where
  -- Nothing is changed but the temporary file.
  abbrev pub Untouched : Bytes → Files → Files → Type 0
  Untouched path before after = (q : Bytes) → q ≢ path ++ codes ".gz" → after q ≡ before q

  -- What was read of the original was written without an error into the final file, which gives it
  -- back when it is decompressed unless gzclose reported an error; and only then was the original
  -- removed, or kept where unlink fails.
  pub record Replaced (path base : Bytes) (before after : Files) : Type 0 where
    content : Bytes
    base_of : extract_base_path path ≡ some base
    original : before path ≡ some content
    written : gz.gz_write (gz.fread content) ≡ true
    final : after (base ++ codes ".1.gz") ≡ some (zipped gz content)
    gives_back :
        ((gz.gz_close true (gz.fread content)).0 ≡ false)
        ⊎ (gunzip (zipped gz content) ≡ some (gz.fread content))
    source : after path ≡ (if gz.unlinks path then none else before path)
    no_temporary : after (path ++ codes ".gz") ≡ none
    others :
        (q : Bytes)
        → q ≢ path
        → q ≢ path ++ codes ".gz"
        → q ≢ base ++ codes ".1.gz"
        → after q ≡ before q

  abbrev pub Outcome : Bytes → Files → Files → Type 0
  Outcome path before after =
      Untouched path before after ⊎ ((base : Bytes) × Replaced path base before after)

  closed_or_not :
      (content : Bytes)
      → ((gz.gz_close true (gz.fread content)).0 ≡ false)
        ⊎ (gunzip (zipped gz content) ≡ some (gz.fread content))
  closed_or_not content = elim (Bool-cases (gz.gz_close true (gz.fread content)).0) [
    | inl ok ↦ inr (intact (gz.fread content) ok)
    | inr failed ↦ inl failed
  ]

  -- The directory after the rename, before the unlink.
  abbrev renamed_files : Bytes → Bytes → Bytes → Files → Files
  renamed_files gz_path final z before =
      put final (some z) (put gz_path none (put gz_path (some z) before))

  renamed_files-kept :
      (gz_path final z q : Bytes) (before : Files)
      → q ≢ gz_path
      → q ≢ final
      → renamed_files gz_path final z before q ≡ before q
  renamed_files-kept gz_path final z q before a b =
      put-ne final q (some z) _ (λ e. b (sym e))
      ∙ put-ne gz_path q none _ (λ e. a (sym e))
      ∙ put-ne gz_path q (some z) before (λ e. a (sym e))

  temporary :
      (path : Bytes) (c : Option Bytes) (before : Files)
      → Untouched path before (put (path ++ codes ".gz") c before)
  temporary path c before q ne = put-ne (path ++ codes ".gz") q c before (λ e. ne (sym e))

  unchanged : (path : Bytes) (before : Files) → Untouched path before before
  unchanged path before q ne = refl

  removed-Replaced :
      (path base content : Bytes) (before : Files)
      → extract_base_path path ≡ some base
      → Apart path base
      → before path ≡ some content
      → gz.gz_write (gz.fread content) ≡ true
      → gz.unlinks path ≡ true
      → Replaced path base before (
          unlink path (
            renamed_files (path ++ codes ".gz") (base ++ codes ".1.gz") (zipped gz content) before))
  removed-Replaced path base content before e apart c w u =
      let r =
        result-files gz faults path (path ++ codes ".gz") (base ++ codes ".1.gz")
          (zipped gz content) before apart.0 apart.1 apart.2 in
      record {
        content = content;
        base_of = e;
        original = c;
        written = w;
        final = r.0;
        gives_back = closed_or_not content;
        source = r.1 ∙ sym (if-true none (before path) u);
        no_temporary = r.2;
        others = r.3;
      }

  left-Replaced :
      (path base content : Bytes) (before : Files)
      → extract_base_path path ≡ some base
      → Apart path base
      → before path ≡ some content
      → gz.gz_write (gz.fread content) ≡ true
      → gz.unlinks path ≡ false
      → Replaced path base before
          (renamed_files (path ++ codes ".gz") (base ++ codes ".1.gz") (zipped gz content) before)
  left-Replaced path base content before e apart c w u =
      let gz_path = path ++ codes ".gz" in
      let final = base ++ codes ".1.gz" in
      let zipping = put gz_path (some (zipped gz content)) before in
      let kept = renamed_files-kept gz_path final (zipped gz content) in
      record {
        content = content;
        base_of = e;
        original = c;
        written = w;
        final = put_self final (some (zipped gz content)) (put gz_path none zipping);
        gives_back = closed_or_not content;
        source = kept path before apart.0 apart.1 ∙ sym (if-false none (before path) u);
        no_temporary =
            put-ne final gz_path (some (zipped gz content)) _ (λ x. apart.2 (sym x))
            ∙ put_self gz_path none zipping;
        others = λ q x y z. kept q before y z;
      }

  moved-Outcome :
      (path base content : Bytes) (before : Files)
      → extract_base_path path ≡ some base
      → Apart path base
      → before path ≡ some content
      → gz.gz_write (gz.fread content) ≡ true
      → faults (path ++ codes ".gz") (base ++ codes ".1.gz") ≡ false
      → Outcome path before (
          remove_original gz path (
            rename faults
              (path ++ codes ".gz")
              (base ++ codes ".1.gz")
              (put (path ++ codes ".gz") (some (zipped gz content)) before)))
  unfolding remove_original
  moved-Outcome path base content before e apart c w ok =
      let gz_path = path ++ codes ".gz" in
      let final = base ++ codes ".1.gz" in
      let z = zipped gz content in
      subst (λ (m : Renamed × Files). Outcome path before (remove_original gz path m))
        (sym (
          rename-onto faults gz_path final (put gz_path (some z) before) z ok
            (put_self gz_path (some z) before) apart.2))
        (if_cases (Outcome path before) (gz.unlinks path)
          (unlink path (renamed_files gz_path final z before))
          (renamed_files gz_path final z before)
          (λ u. inr (base, removed-Replaced path base content before e apart c w u))
          (λ u. inr (base, left-Replaced path base content before e apart c w u)))

  fault-Outcome :
      (path base content : Bytes) (before : Files)
      → faults (path ++ codes ".gz") (base ++ codes ".1.gz") ≡ true
      → Outcome path before (
          remove_original gz path (
            rename faults
              (path ++ codes ".gz")
              (base ++ codes ".1.gz")
              (put (path ++ codes ".gz") (some (zipped gz content)) before)))
  unfolding remove_original
  fault-Outcome path base content before fault =
      subst (λ (m : Renamed × Files). Outcome path before (remove_original gz path m))
        (sym (rename-fault faults (path ++ codes ".gz") (base ++ codes ".1.gz") _ fault))
        (inl (temporary path (some (zipped gz content)) before))

  -- The files when gzopen made the temporary one, and `ok` tells whether the writes succeeded.
  abbrev written_to : Bytes → Bool → Bytes → Files → ℤ × Files
  written_to gz_path ok content before = (
    if ok then pos 0 else negsuc 2,
    put gz_path (some (gz.gz_close ok (gz.fread content)).1) before,
  )

  written_to-Outcome :
      (path base content : Bytes) (before : Files) (ok : Bool)
      → gz.gz_write (gz.fread content) ≡ ok
      → extract_base_path path ≡ some base
      → Apart path base
      → before path ≡ some content
      → Outcome path before (
          after_compression gz faults path
            (path ++ codes ".gz")
            (base ++ codes ".1.gz")
            (written_to (path ++ codes ".gz") ok content before))
  unfolding after_compression
  written_to-Outcome path base content before false w e apart c =
      inl (temporary path (some (gz.gz_close false (gz.fread content)).1) before)
  written_to-Outcome path base content before true w e apart c =
      elim (Bool-cases (faults (path ++ codes ".gz") (base ++ codes ".1.gz"))) [
        | inl fault ↦ fault-Outcome path base content before fault
        | inr fine ↦ moved-Outcome path base content before e apart c w fine
      ]

  content-Outcome :
      (path base : Bytes) (before : Files) (found : Option Bytes)
      → before path ≡ found
      → extract_base_path path ≡ some base
      → Apart path base
      → Outcome path before (
          after_compression gz faults path
            (path ++ codes ".gz")
            (base ++ codes ".1.gz")
            (compress_content gz (path ++ codes ".gz") before found))
  unfolding after_compression compress_content
  content-Outcome path base before none c e apart = inl (unchanged path before)
  content-Outcome path base before (some content) c e apart =
      let gz_path = path ++ codes ".gz" in
      let final = base ++ codes ".1.gz" in
      let ok = gz.gz_write (gz.fread content) in
      if_cases
        (λ (r : ℤ × Files). Outcome path before (after_compression gz faults path gz_path final r))
        (gz.gz_open gz_path) (written_to gz_path ok content before) (negsuc 1, before)
        (λ o. written_to-Outcome path base content before ok refl e apart c)
        (λ o. inl (unchanged path before))

  opened-Outcome :
      (path base : Bytes) (before : Files)
      → extract_base_path path ≡ some base
      → Apart path base
      → Outcome path before (
          after_compression gz faults path
            (path ++ codes ".gz")
            (base ++ codes ".1.gz")
            (compress_file_gzip gz path (path ++ codes ".gz") before))
  unfolding compress_file_gzip after_compression compress_content
  opened-Outcome path base before e apart =
      let gz_path = path ++ codes ".gz" in
      let final = base ++ codes ".1.gz" in
      if_cases
        (λ (f : Option Bytes).
          Outcome path before
            (after_compression gz faults path gz_path final (compress_content gz gz_path before f)))
        (gz.fopen path) (before path) none
        (λ o. content-Outcome path base before (before path) refl e apart)
        (λ o. inl (unchanged path before))

  with_base-Outcome :
      (path : Bytes) (b : Option Bytes) (before : Files)
      → extract_base_path path ≡ b
      → Fewer 3 (dots path) b
      → Outcome path before (with_base gz faults path b before)
  unfolding with_base
  with_base-Outcome path none before e h = inl (unchanged path before)
  with_base-Outcome path (some base) before e h =
      let gz_path = path ++ codes ".gz" in
      let final = base ++ codes ".1.gz" in
      if_cases (Outcome path before) (leb path_max (length gz_path)) before _
        (λ long. inl (unchanged path before))
        (λ room.
          if_cases (Outcome path before) (leb path_max (length final)) before _
            (λ long. inl (unchanged path before))
            (λ room'. opened-Outcome path base before e (dots-Apart path base h)))

  -- What a job may do, whatever the path is and whichever calls fail: either no file but the temporary
  -- "<path>.gz" changes, so the original is kept; or what fread delivered of the original was written
  -- into "<base>.1.gz" for the base name of the path, all its writes succeeded, the temporary file is
  -- gone, the original is gone too unless unlink fails, and no other file changes. Where zlib keeps
  -- its promise on a successful gzclose (`intact`), that file then decompresses to what was
  -- delivered, unless gzclose reported an error. Such an error, and an end of the reading
  -- before the end of the file, are not noticed.
  pub process_job-Outcome :
      (path : Bytes) (before : Files) → Outcome path before (process_job gz faults path before)
  unfolding process_job
  process_job-Outcome path before =
      with_base-Outcome path (extract_base_path path) before refl (extract_base_path-Fewer path)
