-- ===== src/Config/Directory/Outside.antt =====
-- When `ensure_output_dir` of code/config/config.c reads outside the buffer of `mkdir_p`.
use linux_process_analyzer.Prelude.{
  ◌≡◌, refl, Bool, true, false, Option, none, some, [], ◌∷◌, arith, length, Bool-cases, inl, inr,
}
use linux_process_analyzer.Prelude.Int.{pos, ◌-ℤ◌}
use linux_process_analyzer.Prelude.Cstr.{Bytes}
use linux_process_analyzer.Config.Directory.{
  FileSystem, Run, returned, out_of_bounds, outside, mkdir_p, then_access, on_stat,
  ensure_output_dir,
}

outside-last : (path : Bytes) → outside (pos (length path) -ℤ pos 1) path ≡ true → path ≡ []
unfolding outside ◌-ℤ◌
outside-last [] h = refl
outside-last (c ∷ path) h = absurd (ground arith)

outside-empty : outside (pos 0 -ℤ pos 1) [] ≡ true
unfolding outside ◌-ℤ◌
outside-empty = refl

module _ {S : Type 0} (fs : FileSystem S) where
  mkdir_p-outside : (path : Bytes) (s : S) → mkdir_p fs path s ≡ out_of_bounds → path ≡ []
  unfolding mkdir_p
  mkdir_p-outside path s h = elim (Bool-cases (outside (pos (length path) -ℤ pos 1) path)) [
    | inl o ↦ outside-last path o
    | inr i ↦ absurd (ground (arith, i, h))
  ]

  then_access-outside :
      (path : Bytes) (r : Run S) → then_access fs path r ≡ out_of_bounds → r ≡ out_of_bounds
  unfolding then_access
  then_access-outside path out_of_bounds h = refl
  then_access-outside path (returned false s) h = cc
  then_access-outside path (returned true s) h = cc

  on_stat-outside :
      (path : Bytes) (s : S) (o : Option Bool)
      → on_stat fs path s o ≡ out_of_bounds
      → (o ≡ none) × (path ≡ [])
  unfolding on_stat then_access
  on_stat-outside path s (some true) h = cc
  on_stat-outside path s (some false) h = cc
  on_stat-outside path s none h =
      (refl, mkdir_p-outside path s (then_access-outside path (mkdir_p fs path s) h))

  pub ensure_output_dir-outside :
      (path : Bytes) (s : S)
      → ensure_output_dir fs path s ≡ out_of_bounds
      → (fs.stat_dir s path ≡ none) × (path ≡ [])
  unfolding ensure_output_dir
  ensure_output_dir-outside path s h = on_stat-outside path s (fs.stat_dir s path) h

  pub ensure_output_dir-empty :
      (s : S) → fs.stat_dir s [] ≡ none → ensure_output_dir fs [] s ≡ out_of_bounds
  unfolding ensure_output_dir on_stat then_access mkdir_p
  ensure_output_dir-empty s h = rw (h, outside-empty) refl
