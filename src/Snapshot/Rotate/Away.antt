-- ===== src/Snapshot/Rotate/Away.antt =====
-- The names that a rotation in code/process_snapshot/process_snapshot.c uses: no other file changes,
-- and the current name becomes free.
use linux_process_analyzer.Prelude.{
  ℕ, zero, suc, ◌-◌, ◌≤◌, ◌<◌, ◌≡◌, ◌≢◌, refl, ap, ◌∙◌, Bool, false, none, [], ◌∷◌, ◌++◌, if_cases,
  arith, length, length-append, length-take, take, take-all,
}
use linux_process_analyzer.Prelude.Cstr.{Bytes, codes}
use linux_process_analyzer.Prelude.Strto.{decimal}
use linux_process_analyzer.Config.{path_max}
use linux_process_analyzer.Snapshot.Files.{Files, unlink, rename, rename-frees}
use linux_process_analyzer.Snapshot.Rotate.{
  fit, numbered, numbered_gz, unique_name, Output, rotate_from, rotate_logs,
}
use linux_process_analyzer.Snapshot.Rotate.Spared.{
  new_name, rotate_logs-files, Spared, rotate_logs-Spared,
}

abbrev pub Begins : Bytes → Bytes → Type 0
Begins p s = take (length p) s ≡ p

pub append-Begins : (p s : Bytes) → Begins p (p ++ s)
append-Begins [] s = refl
append-Begins (c ∷ p) s = ap (◌∷◌ c) (append-Begins p s)

take-take : (k m : ℕ) (s : Bytes) → k ≤ m → take k (take m s) ≡ take k s
take-take zero m s h = refl
take-take (suc k) zero s h = absurd (omega (arith, h))
take-take (suc k) (suc m) [] h = refl
take-take (suc k) (suc m) (c ∷ s) h = ap (◌∷◌ c) (take-take k m s (omega (arith, h)))

pub fit-Begins : (p s : Bytes) → length p ≤ path_max - 1 → Begins p (fit (p ++ s))
fit-Begins p s h = take-take (length p) (path_max - 1) (p ++ s) h ∙ append-Begins p s

-- A longer name, also where it is cut, is another one.
path-ne-fit : (path s : Bytes) → length path < path_max - 1 → 0 < length s → path ≢ fit (path ++ s)
path-ne-fit path s h more e = absurd (
    omega
      (arith, h, more, ap length e, length-take (path_max - 1) (path ++ s), length-append path s))

-- All names that a rotation of `path` uses begin with `p`, and `q` does not.
pub record Away (p path q : Bytes) : Type 0 where
  pub names : (s : Bytes) → Begins p (fit (path ++ s))
  pub itself : Begins p (fit path)
  pub other : (t : Bytes) → Begins p t → q ≢ t

module _ (faults : Bytes → Bytes → Bool) (compression_enabled : Bool) (path : Bytes) where
  new_name-ne :
      (time counter : ℕ)
      → length path < path_max - 1
      → path ≢ new_name faults compression_enabled path time counter
  unfolding unique_name numbered
  new_name-ne time counter h =
      if_cases (λ (n : Bytes). path ≢ n) compression_enabled _ _
        (λ e. path-ne-fit path _ h (omega arith)) (λ e. path-ne-fit path _ h (omega arith))

  pub rotate_logs-frees :
      (max time : ℕ) (o : Output)
      → ((a b : Bytes) → faults a b ≡ false)
      → length path < path_max - 1
      → (rotate_logs faults compression_enabled max time path o).files path ≡ none
  rotate_logs-frees max time o fine h =
      let whole : fit path ≡ path = take-all (path_max - 1) path (omega (arith, h)) in
      let new = new_name faults compression_enabled path time o.rotation_counter in
      let shifted =
        rotate_from faults compression_enabled path (max - 1)
          (unlink (numbered path max) (unlink (numbered_gz path max) o.files)) in
      ap (λ (f : Files). f path) (rotate_logs-files faults compression_enabled path max time o)
      ∙ ap (λ (old : Bytes). (rename faults old new shifted).1 path) whole
      ∙ rename-frees faults path new shifted (fine path new) (new_name-ne time o.rotation_counter h)

module _ (faults : Bytes → Bytes → Bool) (compression_enabled : Bool) (p path q : Bytes)
    (away : Away p path q) where
  not_name : (s : Bytes) → q ≢ fit (path ++ s)
  not_name s = away.other (fit (path ++ s)) (away.names s)

  Away-Spared : (max : ℕ) → Spared path max q
  unfolding numbered numbered_gz
  Away-Spared max = record {
    plain = λ i h. not_name (b'.' ∷ decimal i);
    gz = λ i h. not_name (b'.' ∷ (decimal i ++ codes ".gz"));
    base = away.other (fit path) away.itself;
  }

  new_name-Away : (time counter : ℕ) → q ≢ new_name faults compression_enabled path time counter
  unfolding unique_name numbered
  new_name-Away time counter =
      if_cases (λ (n : Bytes). q ≢ n) compression_enabled _ _ (λ e. not_name _) (λ e. not_name _)

  pub rotate_logs-Away :
      (max time : ℕ) (o : Output)
      → (rotate_logs faults compression_enabled max time path o).files q ≡ o.files q
  rotate_logs-Away max time o =
      rotate_logs-Spared faults compression_enabled path max q (Away-Spared max) time o
        (new_name-Away time o.rotation_counter)
