-- ===== src/Compression/Pending.antt =====
-- Files that wait to be compressed, while code/process_snapshot/process_snapshot.c goes on rotating.
use linux_process_analyzer.Prelude.{
  ℕ, ◌+◌, ◌^◌, ◌<◌, ◌≡◌, ◌≢◌, refl, sym, ap, ◌∙◌, Bool, true, false, Option, none, some, List, [],
  ◌∷◌, All, arith, length, if◌then◌else◌,
}
use linux_process_analyzer.Prelude.Cstr.{Bytes, split_last}
use linux_process_analyzer.Prelude.Strto.{decimal, value_of}
use linux_process_analyzer.Args.Numbers.RoundTrip.{decimal-IsDigit, value_of-decimal}
use linux_process_analyzer.Config.{path_max}
use linux_process_analyzer.Snapshot.Rotate.{
  unique_name, Output, Settings, log_path, jsonl_path, rotate_logs,
}
use linux_process_analyzer.Snapshot.Rotate.Chain.{limit}
use linux_process_analyzer.Snapshot.Rotate.Names.{fit_self}
use linux_process_analyzer.Snapshot.Rotate.Unique.{
  HasUniqueRoom, HasUniqueRoom-HasRoom, unique_name-whole, path-ne-unique_name,
  numbered-ne-unique_name, numbered_gz-ne-unique_name,
}
use linux_process_analyzer.Snapshot.Rotate.Spared.{
  Spared, rotate_logs-Spared, rotation_counter-rotate_logs,
}
use linux_process_analyzer.Snapshot.Rotate.Away.{rotate_logs-Away}
use linux_process_analyzer.Snapshot.Rotate.Paths.{
  length-log_path, length-jsonl_path, log_path-Begins, jsonl_path-Begins, log_path-Away,
  jsonl_path-Away,
}
use linux_process_analyzer.Compression.Job.{whole, split_last-dot, whole-extensions}

abbrev last_number : Option (Bytes × Bytes) → ℕ
last_number none = 0
last_number (some (before, behind)) = value_of 0 behind

counter_of-whole :
    (path : Bytes) (time counter : ℕ)
    → last_number (split_last b'.' (whole path time counter)) ≡ counter
counter_of-whole path time counter =
    ap (λ (s : Bytes). last_number (split_last b'.' s)) (whole-extensions path time counter)
    ∙ ap last_number (split_last-dot _ (decimal counter) (decimal-IsDigit counter))
    ∙ value_of-decimal counter

module _ (path : Bytes) (room : HasUniqueRoom path) where
  -- Names with different counters are different, whatever the times.
  unique_name-ne :
      (t n t' n' : ℕ)
      → t < limit
      → t' < limit
      → n < 2 ^ 32
      → n' < 2 ^ 32
      → n ≢ n'
      → unique_name path t n ≢ unique_name path t' n'
  unique_name-ne t n t' n' ht ht' hn hn' ne e = ne (
      sym (counter_of-whole path t n)
      ∙ ap (λ (s : Bytes). last_number (split_last b'.' s))
          (sym (unique_name-whole path room t n ht hn)
            ∙ e
            ∙ unique_name-whole path room t' n' ht' hn')
      ∙ counter_of-whole path t' n')

  unique_name-Spared :
      (max t n : ℕ) → max < limit → t < limit → n < 2 ^ 32 → Spared path max (unique_name path t n)
  unique_name-Spared max t n small ht hn = record {
    plain =
        λ i h e. numbered-ne-unique_name path room t n ht hn i (omega (arith, h, small)) (sym e);
    gz =
        λ i h e. numbered_gz-ne-unique_name path room t n ht hn i (omega (arith, h, small)) (sym e);
    base = λ e.
        path-ne-unique_name path room t n ht hn
          (sym (e ∙ fit_self path (HasUniqueRoom-HasRoom path room)));
  }

  same_path :
      (faults : Bytes → Bytes → Bool) (max time t n : ℕ) (o : Output)
      → max < limit
      → time < limit
      → t < limit
      → n < o.rotation_counter
      → o.rotation_counter < 2 ^ 32
      → (rotate_logs faults true max time path o).files (unique_name path t n)
        ≡ o.files (unique_name path t n)
  same_path faults max time t n o small ht' ht older hc =
      rotate_logs-Spared faults true path max (unique_name path t n)
        (unique_name-Spared max t n small ht (omega (arith, older, hc))) time o
        (unique_name-ne t n time o.rotation_counter ht ht' (omega (arith, older, hc)) hc
          (λ e. absurd (omega (arith, e, older))))

-- The path of the log, or that of the JSON file.
abbrev pub output_path : Settings → Bool → Bytes
output_path c is_log = if is_log then log_path c else jsonl_path c

-- Rotations with compression, of either output, each at its time.
abbrev pub rotations : Settings → List (Bool × ℕ) → Output → Output
rotations c [] o = o
rotations c ((is_log, time) ∷ rs) o =
    rotations c rs (rotate_logs c.faults true c.max_number_of_files time (output_path c is_log) o)

abbrev pub InTime : List (Bool × ℕ) → Type 0
InTime = All (λ r. r.1 < limit)

module _ (c : Settings) (room : length c.output_dir + 40 < path_max)
    (small : c.max_number_of_files < limit) where
  near : length c.output_dir + 20 < path_max
  near = omega (arith, room)

  output_path-HasUniqueRoom : (is_log : Bool) → HasUniqueRoom (output_path c is_log)
  output_path-HasUniqueRoom true = omega (arith, length-log_path c near, room)
  output_path-HasUniqueRoom false = omega (arith, length-jsonl_path c near, room)

  -- The other output, or the same one.
  rotate_logs-pending :
      (is_log pending : Bool) (time t n : ℕ) (o : Output)
      → time < limit
      → t < limit
      → n < o.rotation_counter
      → o.rotation_counter < 2 ^ 32
      → (let q = unique_name (output_path c pending) t n in
          (rotate_logs c.faults true c.max_number_of_files time (output_path c is_log) o).files q
          ≡ o.files q)
  unfolding unique_name
  rotate_logs-pending true true time t n o ht ht' older hc =
      same_path (log_path c) (output_path-HasUniqueRoom true) c.faults c.max_number_of_files time t
        n o small ht ht' older hc
  rotate_logs-pending false false time t n o ht ht' older hc =
      same_path (jsonl_path c) (output_path-HasUniqueRoom false) c.faults c.max_number_of_files time
        t n o small ht ht' older hc
  rotate_logs-pending true false time t n o ht ht' older hc =
      rotate_logs-Away c.faults true _ (log_path c) (unique_name (jsonl_path c) t n)
        (log_path-Away c near (unique_name (jsonl_path c) t n) (jsonl_path-Begins c near _))
        c.max_number_of_files time o
  rotate_logs-pending false true time t n o ht ht' older hc =
      rotate_logs-Away c.faults true _ (jsonl_path c) (unique_name (log_path c) t n)
        (jsonl_path-Away c near (unique_name (log_path c) t n) (log_path-Begins c near _))
        c.max_number_of_files time o

  -- A file that waits under its unique name for the worker, however slow that is, is left alone by
  -- all later rotations of both outputs, also by those whose renames fail, as long as the counter
  -- does not wrap around.
  pub rotations-pending :
      (rs : List (Bool × ℕ)) (pending : Bool) (t n : ℕ) (o : Output)
      → InTime rs
      → t < limit
      → n < o.rotation_counter
      → o.rotation_counter + length rs < 2 ^ 32
      → (rotations c rs o).files (unique_name (output_path c pending) t n)
        ≡ o.files (unique_name (output_path c pending) t n)
  rotations-pending [] pending t n o times ht older hc = refl
  rotations-pending ((is_log, time) ∷ rs) pending t n o times ht older hc =
      let after = rotate_logs c.faults true c.max_number_of_files time (output_path c is_log) o in
      let counter : after.rotation_counter ≡ o.rotation_counter + 1 = omega (
        arith,
        hc,
        rotation_counter-rotate_logs c.faults (output_path c is_log) c.max_number_of_files time o,
      ) in
      rotations-pending rs pending t n after times.1 ht (omega (arith, counter, older))
        (omega (arith, counter, hc))
      ∙ rotate_logs-pending is_log pending time t n o times.0 ht older (omega (arith, hc))
