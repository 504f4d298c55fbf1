-- ===== src/Snapshot/Rotate/Shift.antt =====
-- What `rotate_logs` of code/process_snapshot/process_snapshot.c does to the directory, without
-- compression.
use linux_process_analyzer.Prelude.{
  ℕ, ◌+◌, ◌-◌, ◌≤◌, ◌<◌, ◌≡◌, ◌≢◌, refl, sym, ap, ◌∙◌, Bool, false, none, arith,
}
use linux_process_analyzer.Prelude.Cstr.{Bytes}
use linux_process_analyzer.Snapshot.Files.{
  Files, unlink, rename, Moves, rename-Moves, put_self, put-ne,
}
use linux_process_analyzer.Snapshot.Rotate.{
  fit, numbered, numbered_gz, Output, rotate_one, rotate_from, rotate_logs,
}
use linux_process_analyzer.Snapshot.Rotate.Chain.{limit, Moved, rotate_from-Shifted}
use linux_process_analyzer.Snapshot.Rotate.Names.{
  HasRoom, fit_self, numbered-ne, path-ne-numbered, path-ne-numbered_gz, numbered-ne-numbered_gz,
}

module _ (faults : Bytes → Bytes → Bool) (fine : (a b : Bytes) → faults a b ≡ false) (path : Bytes)
    (room : HasRoom path) where
  rotate_one-Moved :
      (i : ℕ) (files : Files)
      → i + 1 < limit
      → files (numbered path (i + 1)) ≡ none
      → Moved (numbered path) (numbered path) i files (rotate_one faults false path i files)
  unfolding rotate_one
  rotate_one-Moved i files small free =
      let m =
        rename-Moves faults (numbered path i) (numbered path (i + 1)) files (fine _ _) free
          (numbered-ne path room i (i + 1) (omega arith) small (λ e. absurd (omega arith))) in
      record { to = m.to; from = m.from; others = λ q a b a' b'. m.others q a b }

  abbrev cleared : ℕ → Files → Files
  cleared max files = unlink (numbered path max) (unlink (numbered_gz path max) files)

  cleared-free : (max : ℕ) (files : Files) → cleared max files (numbered path max) ≡ none
  unfolding unlink
  cleared-free max files = put_self (numbered path max) none (unlink (numbered_gz path max) files)

  cleared-gz :
      (max : ℕ) (files : Files) → max < limit → cleared max files (numbered_gz path max) ≡ none
  unfolding unlink
  cleared-gz max files h =
      put-ne (numbered path max) (numbered_gz path max) none (unlink (numbered_gz path max) files)
        (numbered-ne-numbered_gz path room max max h h)
      ∙ put_self (numbered_gz path max) none files

  cleared-others :
      (max : ℕ) (files : Files) (q : Bytes)
      → q ≢ numbered path max
      → q ≢ numbered_gz path max
      → cleared max files q ≡ files q
  unfolding unlink
  cleared-others max files q n m =
      put-ne (numbered path max) q none (unlink (numbered_gz path max) files) (λ e. n (sym e))
      ∙ put-ne (numbered_gz path max) q none files (λ e. m (sym e))

  first-Moves :
      (files : Files)
      → files (numbered path 1) ≡ none
      → Moves path (numbered path 1) files (rename faults (fit path) (numbered path 1) files).1
  first-Moves files free = rw (fit_self path room) (
      rename-Moves faults path (numbered path 1) files (fine _ _) free
        (path-ne-numbered path room 1 (omega arith)))

  -- Rotation without compression, with names that fit and no fault of the file system: for a limit
  -- of max files, the file path.(i + 1) gets the content of path.i for 1 ≤ i < max, path.1 gets
  -- that of path, path is free, path.max.gz is gone, and no other file changes; the counter and the
  -- queue stay as they are. So what is lost is the file path.max and, if there is one, path.max.gz.
  pub rotate_logs_shift :
      (max time : ℕ) (o : Output)
      → 1 ≤ max
      → max < limit
      → (let after = rotate_logs faults false max time path o in
          ((i : ℕ)
            → 1 ≤ i
            → i < max
            → after.files (numbered path (i + 1)) ≡ o.files (numbered path i))
          × (after.files (numbered path 1) ≡ o.files path)
          × (after.files path ≡ none)
          × (after.files (numbered_gz path max) ≡ none)
          × ((q : Bytes)
              → q ≢ path
              → q ≢ numbered_gz path max
              → ((i : ℕ) → 1 ≤ i → i ≤ max → q ≢ numbered path i)
              → after.files q ≡ o.files q)
          × (after.rotation_counter ≡ o.rotation_counter)
          × (after.enqueued ≡ o.enqueued))
  unfolding rotate_logs
  rotate_logs_shift max time o low high =
      let files = cleared max o.files in
      let whole : max - 1 + 1 ≡ max = omega arith in
      let s =
        rotate_from-Shifted (numbered path) (numbered path) (numbered-ne path room)
          (numbered-ne path room) faults false path rotate_one-Moved (max - 1) files (omega arith)
          (ap (λ (k : ℕ). files (numbered path k)) whole ∙ cleared-free max o.files) in
      let m = first-Moves (rotate_from faults false path (max - 1) files) s.from in
      let ne =
        λ (a b : ℕ) (i : a < limit) (j : b < limit) (d : a ≢ b). numbered-ne path room a b i j d in
      let gz = λ (a : ℕ) (i : a < limit). numbered-ne-numbered_gz path room a max i high in
      (
        (λ i one more.
            m.others (numbered path (i + 1))
              (λ e. path-ne-numbered path room (i + 1) (omega arith) (sym e))
              (ne (i + 1) 1 (omega arith) (omega arith) (λ e. absurd (omega arith)))
            ∙ s.to i one (omega arith)
            ∙ cleared-others max o.files (numbered path i)
                (ne i max (omega arith) high (λ e. absurd (omega arith))) (gz i (omega arith))),
        (m.to
            ∙ s.others path (λ j one more. path-ne-numbered path room j (omega arith))
                (λ j one more. path-ne-numbered path room j (omega arith))
            ∙ cleared-others max o.files path (path-ne-numbered path room max high)
                (path-ne-numbered_gz path room max high)),
        m.from,
        (m.others (numbered_gz path max) (λ e. path-ne-numbered_gz path room max high (sym e))
              (λ e. gz 1 (omega arith) (sym e))
            ∙ s.others (numbered_gz path max) (λ j one more e. gz j (omega arith) (sym e))
                (λ j one more e. gz j (omega arith) (sym e))
            ∙ cleared-gz max o.files high),
        (λ q base g away.
            m.others q base (away 1 (omega arith) low)
            ∙ s.others q (λ j one more. away j one (omega arith))
                (λ j one more. away j one (omega arith))
            ∙ cleared-others max o.files q (away max low (omega arith)) g),
        refl,
        refl,
      )
