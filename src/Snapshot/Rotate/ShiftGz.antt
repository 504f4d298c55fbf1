-- ===== src/Snapshot/Rotate/ShiftGz.antt =====
-- What `rotate_logs` of code/process_snapshot/process_snapshot.c does to the directory, with
-- compression.
use linux_process_analyzer.Prelude.{
  ℕ, ◌+◌, ◌-◌, ◌%◌, ◌^◌, ◌≤◌, ◌<◌, ◌≡◌, ◌≢◌, refl, sym, ap, subst, ◌∙◌, inl, inr, Bool, true, false,
  none, some, Option-cases, [], ◌∷◌, ◌++◌, arith,
}
use linux_process_analyzer.Prelude.Cstr.{Bytes}
use linux_process_analyzer.Snapshot.Files.{
  Files, Renamed, unlink, rename, Moves, rename-Moves, rename-onto, rename-missing, rename-others,
  put, put_self, put-ne,
}
use linux_process_analyzer.Snapshot.Rotate.{
  fit, numbered, numbered_gz, unique_name, Output, or_plain, rotate_one, rotate_from, rotate_logs,
}
use linux_process_analyzer.Snapshot.Rotate.Chain.{limit, Moved, rotate_from-Shifted}
use linux_process_analyzer.Snapshot.Rotate.Names.{
  fit_self, path-ne-numbered, path-ne-numbered_gz, numbered-ne-numbered_gz,
}
use linux_process_analyzer.Snapshot.Rotate.Unique.{
  HasUniqueRoom, HasUniqueRoom-HasRoom, numbered_gz-ne, path-ne-unique_name,
  numbered-ne-unique_name, numbered_gz-ne-unique_name,
}

module _ (faults : Bytes → Bytes → Bool) (fine : (a b : Bytes) → faults a b ≡ false) (path : Bytes)
    (room : HasUniqueRoom path) where
  abbrev gz : ℕ → Bytes
  gz i = numbered_gz path i

  abbrev plain : ℕ → Bytes
  plain i = numbered path i

  gz-ne-plain : (i j : ℕ) → i < limit → j < limit → gz i ≢ plain j
  gz-ne-plain i j a b e =
      numbered-ne-numbered_gz path (HasUniqueRoom-HasRoom path room) j i b a (sym e)

  -- There is a compressed file of the number: it moves.
  present-Moved :
      (i : ℕ) (files : Files) (content : Bytes)
      → i + 1 < limit
      → files (gz i) ≡ some content
      → files (gz (i + 1)) ≡ none
      → Moved (numbered_gz path) (numbered path) i files (rotate_one faults true path i files)
  unfolding rotate_one or_plain
  present-Moved i files content small e free =
      let ne = numbered_gz-ne path room i (i + 1) (omega arith) small (λ h. absurd (omega arith)) in
      let after = put (gz (i + 1)) (some content) (put (gz i) none files) in
      let r = rename-onto faults (gz i) (gz (i + 1)) files content (fine _ _) e ne in
      let m = rename-Moves faults (gz i) (gz (i + 1)) files (fine _ _) free ne in
      subst
        (λ (x : Renamed × Files).
          Moved (numbered_gz path) (numbered path) i files
            (or_plain faults true x (plain i) (plain (i + 1))))
        (sym r)
        (subst (λ (x : Renamed × Files). Moved (numbered_gz path) (numbered path) i files x.1) r
          (record { to = m.to; from = m.from; others = λ q a b a' b'. m.others q a b }))

  -- There is none: the plain file moves instead.
  missing-Moved :
      (i : ℕ) (files : Files)
      → i + 1 < limit
      → files (gz i) ≡ none
      → files (gz (i + 1)) ≡ none
      → Moved (numbered_gz path) (numbered path) i files (rotate_one faults true path i files)
  unfolding rotate_one or_plain
  missing-Moved i files small e free =
      let ne = numbered_gz-ne path room i (i + 1) (omega arith) small (λ h. absurd (omega arith)) in
      let still = λ (k : ℕ) (low : k < limit).
        rename-others faults (plain i) (plain (i + 1)) (gz k) files
          (gz-ne-plain k i low (omega arith)) (gz-ne-plain k (i + 1) low small) in
      subst
        (λ (x : Renamed × Files).
          Moved (numbered_gz path) (numbered path) i files
            (or_plain faults true x (plain i) (plain (i + 1))))
        (sym (rename-missing faults (gz i) (gz (i + 1)) files (fine _ _) e ne))
        (record {
          to = still (i + 1) small ∙ free ∙ sym e;
          from = still i (omega arith) ∙ e;
          others = λ q a b a' b'. rename-others faults (plain i) (plain (i + 1)) q files a' b';
        })

  rotate_one-Moved :
      (i : ℕ) (files : Files)
      → i + 1 < limit
      → files (gz (i + 1)) ≡ none
      → Moved (numbered_gz path) (numbered path) i files (rotate_one faults true path i files)
  rotate_one-Moved i files small free = elim (Option-cases (files (gz i))) [
    | inl e ↦ missing-Moved i files small e free
    | inr (content, e) ↦ present-Moved i files content small e free
  ]

  abbrev cleared : ℕ → Files → Files
  cleared max files = unlink (plain max) (unlink (gz max) files)

  cleared-free : (max : ℕ) (files : Files) → max < limit → cleared max files (gz max) ≡ none
  unfolding unlink
  cleared-free max files small =
      put-ne (plain max) (gz max) none (unlink (gz max) files)
        (λ e. gz-ne-plain max max small small (sym e))
      ∙ put_self (gz max) none files

  cleared-others :
      (max : ℕ) (files : Files) (q : Bytes)
      → q ≢ plain max
      → q ≢ gz max
      → cleared max files q ≡ files q
  unfolding unlink
  cleared-others max files q n m =
      put-ne (plain max) q none (unlink (gz max) files) (λ e. n (sym e))
      ∙ put-ne (gz max) q none files (λ e. m (sym e))

  first-Moves :
      (new : Bytes) (files : Files)
      → path ≢ new
      → files new ≡ none
      → Moves path new files (rename faults (fit path) new files).1
  first-Moves new files ne free =
      rw (fit_self path (HasUniqueRoom-HasRoom path room))
        (rename-Moves faults path new files (fine _ _) free ne)

  -- Rotation with compression, with names that fit, no fault of the file system and a unique name
  -- that is free: for a limit of max files, path.(i + 1).gz gets the content of path.i.gz for
  -- 1 ≤ i < max, path.1.gz is free for the worker, the unique name gets the content of path and is
  -- enqueued, path is free, the counter grows by one modulo 2^32, and no file changes but these
  -- and those named path.i for 1 ≤ i ≤ max.
  pub rotate_logs_shift_gz :
      (max time : ℕ) (o : Output)
      → 1 ≤ max
      → max < limit
      → time < limit
      → o.rotation_counter < 2 ^ 32
      → o.files (unique_name path time o.rotation_counter) ≡ none
      → (let after = rotate_logs faults true max time path o in
          let unique = unique_name path time o.rotation_counter in
          ((i : ℕ)
            → 1 ≤ i
            → i < max
            → after.files (numbered_gz path (i + 1)) ≡ o.files (numbered_gz path i))
          × (after.files (numbered_gz path 1) ≡ none)
          × (after.files unique ≡ o.files path)
          × (after.files path ≡ none)
          × (after.enqueued ≡ o.enqueued ++ unique ∷ [])
          × (after.rotation_counter ≡ (o.rotation_counter + 1) % 2 ^ 32)
          × ((q : Bytes)
              → q ≢ path
              → q ≢ unique
              → ((i : ℕ) → 1 ≤ i → i ≤ max → q ≢ numbered_gz path i)
              → ((i : ℕ) → 1 ≤ i → i ≤ max → q ≢ numbered path i)
              → after.files q ≡ o.files q))
  unfolding rotate_logs
  rotate_logs_shift_gz max time o low high t c free =
      let unique = unique_name path time o.rotation_counter in
      let files = cleared max o.files in
      let whole : max - 1 + 1 ≡ max = omega arith in
      let s =
        rotate_from-Shifted (numbered_gz path) (numbered path) (numbered_gz-ne path room)
          (λ i j a b d. gz-ne-plain i j a b) faults true path rotate_one-Moved (max - 1) files
          (omega arith) (ap (λ (k : ℕ). files (gz k)) whole ∙ cleared-free max o.files high) in
      let shifted = rotate_from faults true path (max - 1) files in
      let not_gz = λ (k : ℕ) (a : k < limit).
        numbered_gz-ne-unique_name path room time o.rotation_counter t c k a in
      let not_plain = λ (k : ℕ) (a : k < limit).
        numbered-ne-unique_name path room time o.rotation_counter t c k a in
      let base = HasUniqueRoom-HasRoom path room in
      let kept : (q : Bytes)
          → ((i : ℕ) → 1 ≤ i → i ≤ max → q ≢ numbered_gz path i)
          → ((i : ℕ) → 1 ≤ i → i ≤ max → q ≢ numbered path i)
          → shifted q ≡ o.files q =
        λ q away away'.
          s.others q (λ j one more. away j one (omega arith))
            (λ j one more. away' j one (omega arith))
          ∙ cleared-others max o.files q (away' max low (omega arith))
              (away max low (omega arith)) in
      let m =
        first-Moves unique shifted (path-ne-unique_name path room time o.rotation_counter t c) (
          kept unique (λ j one more e. not_gz j (omega arith) (sym e))
            (λ j one more e. not_plain j (omega arith) (sym e))
          ∙ free) in
      (
        (λ i one more.
            m.others (gz (i + 1)) (λ e. path-ne-numbered_gz path base (i + 1) (omega arith) (sym e))
              (not_gz (i + 1) (omega arith))
            ∙ s.to i one (omega arith)
            ∙ cleared-others max o.files (gz i) (gz-ne-plain i max (omega arith) high)
                (numbered_gz-ne path room i max (omega arith) high (λ e. absurd (omega arith)))),
        (m.others (gz 1) (λ e. path-ne-numbered_gz path base 1 (omega arith) (sym e))
              (not_gz 1 (omega arith))
            ∙ s.from),
        (m.to
            ∙ kept path (λ j one more. path-ne-numbered_gz path base j (omega arith))
                (λ j one more. path-ne-numbered path base j (omega arith))),
        m.from,
        refl,
        refl,
        (λ q a b away away'. m.others q a b ∙ kept q away away'),
      )
