-- ===== src/Snapshot/Lifecycle/Deleted.antt =====
-- Which files `process_snapshot_delete_old_files` removes.
use linux_process_analyzer.Prelude.{
  ◌<◌, ◌≡◌, ◌≢◌, ◌⊎◌, refl, sym, ap, subst, ◌∙◌, inl, inr, ◌++◌, length, take-all, arith, Bool,
  true, none, List, [], ◌∷◌, All, if◌then◌else◌, Bool-cases, if-true, if-false,
}
use linux_process_analyzer.Prelude.Cstr.{Bytes, codes, str_eq}
use linux_process_analyzer.Snapshot.Files.{Files, unlink, put_self, put-ne}
use linux_process_analyzer.Snapshot.Lifecycle.{
  process_snapshot_success, is_old_file, begins_with, old_path, delete_entries,
}

-- A name that begins with that of the log or of the jsonl file.
abbrev pub IsOutput : Bytes → Type 0
IsOutput name =
    ((rest : Bytes) × (name ≡ codes "ptime.log" ++ rest))
    ⊎ ((rest : Bytes) × (name ≡ codes "ptime.jsonl" ++ rest))

begins_with-rest :
    (prefix name : Bytes)
    → begins_with prefix name ≡ true
    → (rest : Bytes) × (name ≡ prefix ++ rest)
unfolding begins_with
begins_with-rest [] name h = (name, refl)
begins_with-rest (p ∷ prefix) [] h = cc
begins_with-rest (p ∷ prefix) (c ∷ name) h =
    let same : c ≡ p = ground arith in
    let k = begins_with-rest prefix name (ground arith) in (k.0, rw same (ap (◌∷◌ p) k.1))

begins_with-append : (prefix rest : Bytes) → begins_with prefix (prefix ++ rest) ≡ true
unfolding begins_with
begins_with-append [] rest = refl
begins_with-append (p ∷ prefix) rest = ground (arith, begins_with-append prefix rest)

is_old_file-IsOutput : (name : Bytes) → is_old_file name ≡ true → IsOutput name
unfolding is_old_file
is_old_file-IsOutput name h = elim (Bool-cases (begins_with (codes "ptime.log") name)) [
  | inl log ↦ inl (begins_with-rest (codes "ptime.log") name log)
  | inr other ↦ inr (begins_with-rest (codes "ptime.jsonl") name (rw other at h))
]

IsOutput-is_old_file : (name : Bytes) → IsOutput name → is_old_file name ≡ true
unfolding is_old_file
IsOutput-is_old_file name (inl (rest, e)) =
    rw e (rw (begins_with-append (codes "ptime.log") rest) refl)
IsOutput-is_old_file name (inr (rest, e)) =
    rw e (rw (begins_with-append (codes "ptime.jsonl") rest) (ground arith))

-- The paths of the old files among the names.
abbrev old_paths : Bytes → List Bytes → List Bytes
old_paths output_dir [] = []
old_paths output_dir (name ∷ names) =
    if is_old_file name
    then old_path output_dir name ∷ old_paths output_dir names
    else old_paths output_dir names

abbrev without : List Bytes → Files → Files
without [] files = files
without (p ∷ ps) files = without ps (unlink p files)

without-outside :
    (ps : List Bytes) (files : Files) (q : Bytes)
    → All (λ p. p ≢ q) ps
    → without ps files q ≡ files q
unfolding unlink
without-outside [] files q h = refl
without-outside (p ∷ ps) files q h =
    without-outside ps (unlink p files) q h.1 ∙ put-ne p q none files h.0

without-none :
    (ps : List Bytes) (files : Files) (q : Bytes) → files q ≡ none → without ps files q ≡ none
unfolding unlink
without-none [] files q h = h
without-none (p ∷ ps) files q h =
    without-none ps (unlink p files) q (elim (Bool-cases (str_eq p q)) [
      | inl same ↦ if-true _ (files q) same
      | inr other ↦ if-false none (files q) other ∙ h
    ])

without-inside : (ps : List Bytes) (files : Files) → All (λ p. without ps files p ≡ none) ps
unfolding unlink
without-inside [] files = tt
without-inside (p ∷ ps) files =
    (without-none ps (unlink p files) p (put_self p none files), without-inside ps (unlink p files))

module _ (removes : Bytes → Bool) (output_dir : Bytes) where
  -- When every old file can be removed, the deletion succeeds and removes the old files one after
  -- the other.
  delete_entries-without :
      (names : List Bytes) (files : Files)
      → All (λ p. removes p ≡ true) (old_paths output_dir names)
      → delete_entries removes output_dir names files
        ≡ (process_snapshot_success, without (old_paths output_dir names) files)
  unfolding delete_entries
  delete_entries-without [] files h = refl
  delete_entries-without (name ∷ names) files h = elim (Bool-cases (is_old_file name)) [
    | inl old ↦
        let k = rw old at h in
        rw old (rw k.0 (delete_entries-without names (unlink (old_path output_dir name) files) k.1))
    | inr other ↦ let k = rw other at h in rw other (delete_entries-without names files k)
  ]

  delete_entries-old_paths :
      (names : List Bytes) (files : Files)
      → All (λ p. removes p ≡ true) (old_paths output_dir names)
      → (let result = delete_entries removes output_dir names files in
          (result.0 ≡ process_snapshot_success)
          × All (λ p. result.1 p ≡ none) (old_paths output_dir names)
          × ((q : Bytes) → All (λ p. p ≢ q) (old_paths output_dir names) → result.1 q ≡ files q))
  delete_entries-old_paths names files h = rw (delete_entries-without names files h) (
    refl,
    without-inside (old_paths output_dir names) files,
    λ q away. without-outside (old_paths output_dir names) files q away,
  )

  -- The directory, a slash and the name fit a buffer of 512 bytes.
  abbrev pub Fits : Bytes → Type 0
  Fits name = length (output_dir ++ (b'/' ∷ name)) < 512

  -- P holds of the path of each output among the names.
  abbrev pub OfOutputs : (Bytes → Type 0) → List Bytes → Type 0
  OfOutputs P names = All (λ name. IsOutput name → P (output_dir ++ (b'/' ∷ name))) names

  old_path-Fits :
      (name : Bytes) → Fits name → old_path output_dir name ≡ output_dir ++ (b'/' ∷ name)
  unfolding old_path
  old_path-Fits name h = take-all 511 (output_dir ++ (b'/' ∷ name)) (omega (arith, h))

  module _ (P : Bytes → Type 0) where
    to_old_paths :
        (names : List Bytes)
        → All Fits names
        → OfOutputs P names
        → All P (old_paths output_dir names)
    to_old_paths [] fits h = tt
    to_old_paths (name ∷ names) fits h = elim (Bool-cases (is_old_file name)) [
      | inl old ↦ rw old (
        subst P (sym (old_path-Fits name fits.0)) (h.0 (is_old_file-IsOutput name old)),
        to_old_paths names fits.1 h.1,
      )
      | inr other ↦ rw other (to_old_paths names fits.1 h.1)
    ]

    from_old_paths :
        (names : List Bytes)
        → All Fits names
        → All P (old_paths output_dir names)
        → OfOutputs P names
    from_old_paths [] fits h = tt
    from_old_paths (name ∷ names) fits h = elim (Bool-cases (is_old_file name)) [
      | inl old ↦
          let k = rw old at h in
          ((λ o. subst P (old_path-Fits name fits.0) k.0), from_old_paths names fits.1 k.1)
      | inr other ↦
          let k = rw other at h in
          ((λ o. cc (IsOutput-is_old_file name o, other)), from_old_paths names fits.1 k)
    ]

  -- Where the paths fit their buffer and each file of the directory whose name begins with ptime.log
  -- or ptime.jsonl can be removed, the deletion succeeds, these files are gone, and no other file
  -- changes.
  pub delete_entries-outputs :
      (names : List Bytes) (files : Files)
      → All Fits names
      → OfOutputs (λ p. removes p ≡ true) names
      → (let result = delete_entries removes output_dir names files in
          (result.0 ≡ process_snapshot_success)
          × OfOutputs (λ p. result.1 p ≡ none) names
          × ((q : Bytes) → OfOutputs (λ p. p ≢ q) names → result.1 q ≡ files q))
  delete_entries-outputs names files fits h =
      let d = delete_entries-old_paths names files (to_old_paths _ names fits h) in
      (d.0, from_old_paths _ names fits d.1, λ q away. d.2 q (to_old_paths _ names fits away))
