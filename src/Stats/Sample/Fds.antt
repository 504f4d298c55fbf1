-- ===== src/Stats/Sample/Fds.antt =====
-- The file descriptor figures of a process over all its samples.
use linux_process_analyzer.Prelude.{
  ℕ, ◌+◌, ◌-◌, ◌^◌, ◌<◌, ◌≡◌, refl, ◌∙◌, inl, inr, true, false, List, [], ◌∷◌, All, arith,
  if◌then◌else◌, Bool-cases,
}
use linux_process_analyzer.Prelude.Int.{ℤ, pos, ◌-ℤ◌, signed64}
use linux_process_analyzer.Stats.{Float, ProcessState, ProcessStateInput}
use linux_process_analyzer.Stats.Sample.{calculate_fds_delta, sample, samples, fresh}
use linux_process_analyzer.Stats.Sample.Frames.{fds_of, fds_of-sample}

module _ {D : Type 0} where
  -- The descriptor counts of the valid samples.
  abbrev pub fd_counts : List (ProcessStateInput D) → List ℕ
  fd_counts [] = []
  fd_counts (i ∷ is) = if i.is_fd_valid then i.number_of_fds ∷ fd_counts is else fd_counts is

abbrev pub last_count : ℕ → List ℕ → ℕ
last_count d [] = d
last_count d (x ∷ xs) = last_count x xs

-- The last count less the first, as a signed number.
abbrev pub fd_growth : List ℕ → ℤ
fd_growth [] = pos 0
fd_growth (x ∷ xs) = pos (last_count x xs) -ℤ pos x

abbrev pub IsSmall : ℕ → Type 0
IsSmall n = n < 2 ^ 63

signed64-sub : (n m : ℕ) → IsSmall n → IsSmall m → signed64 (n + 2 ^ 64 - m) ≡ pos n -ℤ pos m
unfolding ◌-ℤ◌
signed64-sub n m h k = ground arith

sub_self : (n : ℕ) → pos n -ℤ pos n ≡ pos 0
unfolding ◌-ℤ◌
sub_self n = ground arith

module _ {D : Type 0} (F : Float D) (hz cpus : ℤ) where
  next_sample :
      (i : ProcessStateInput D) (ps : ProcessState D)
      → i.is_fd_valid ≡ true
      → ps.is_fd_initialized ≡ true
      → fds_of (sample F hz cpus i ps) ≡ (
        true,
        ps.initial_num_of_fds,
        i.number_of_fds,
        signed64 (i.number_of_fds + 2 ^ 64 - ps.initial_num_of_fds),
      )
  unfolding calculate_fds_delta
  next_sample i ps valid on = fds_of-sample F hz cpus i ps ∙ ground arith

  first_sample :
      (i : ProcessStateInput D) (ps : ProcessState D)
      → i.is_fd_valid ≡ true
      → ps.is_fd_initialized ≡ false
      → fds_of (sample F hz cpus i ps) ≡ (true, i.number_of_fds, i.number_of_fds, ps.fd_delta)
  unfolding calculate_fds_delta
  first_sample i ps valid off = fds_of-sample F hz cpus i ps ∙ ground arith

  missing_sample :
      (i : ProcessStateInput D) (ps : ProcessState D)
      → i.is_fd_valid ≡ false
      → fds_of (sample F hz cpus i ps) ≡ fds_of ps
  unfolding calculate_fds_delta
  missing_sample i ps missing = fds_of-sample F hz cpus i ps ∙ ground arith

  fds-samples_on :
      (is : List (ProcessStateInput D)) (ps : ProcessState D)
      → ps.is_fd_initialized ≡ true
      → IsSmall ps.initial_num_of_fds
      → ps.fd_delta ≡ pos ps.current_num_of_fds -ℤ pos ps.initial_num_of_fds
      → All IsSmall (fd_counts is)
      → (let q = samples F hz cpus is ps in
          (q.current_num_of_fds ≡ last_count ps.current_num_of_fds (fd_counts is))
          × (q.fd_delta
              ≡ pos (last_count ps.current_num_of_fds (fd_counts is)) -ℤ pos ps.initial_num_of_fds))
  fds-samples_on [] ps on small e h = (refl, e)
  fds-samples_on (i ∷ is) ps on small e h = elim (Bool-cases i.is_fd_valid) [
    | inl valid ↦
        let h' : IsSmall i.number_of_fds × All IsSmall (fd_counts is) = rw valid at h in
        rw valid (
          ground (
            arith,
            next_sample i ps valid on,
            signed64-sub i.number_of_fds ps.initial_num_of_fds h'.0 small,
            fds-samples_on is (sample F hz cpus i ps),
          ))
    | inr missing ↦
        let h' : All IsSmall (fd_counts is) = rw missing at h in
        rw missing
          (ground (arith, missing_sample i ps missing, fds-samples_on is (sample F hz cpus i ps)))
  ]

  fds-samples_off :
      (is : List (ProcessStateInput D)) (ps : ProcessState D)
      → ps.is_fd_initialized ≡ false
      → ps.current_num_of_fds ≡ 0
      → ps.fd_delta ≡ pos 0
      → All IsSmall (fd_counts is)
      → (let q = samples F hz cpus is ps in
          (q.current_num_of_fds ≡ last_count 0 (fd_counts is))
          × (q.fd_delta ≡ fd_growth (fd_counts is)))
  fds-samples_off [] ps off z e h = (z, e)
  fds-samples_off (i ∷ is) ps off z e h = elim (Bool-cases i.is_fd_valid) [
    | inl valid ↦
        let h' : IsSmall i.number_of_fds × All IsSmall (fd_counts is) = rw valid at h in
        rw valid (
          ground (
            arith,
            first_sample i ps valid off,
            sub_self i.number_of_fds,
            fds-samples_on is (sample F hz cpus i ps),
          ))
    | inr missing ↦
        let h' : All IsSmall (fd_counts is) = rw missing at h in
        rw missing
          (ground (arith, missing_sample i ps missing, fds-samples_off is (sample F hz cpus i ps)))
  ]

  -- For a new process, after any samples whose valid descriptor counts are below 2^63: the current
  -- count is that of the last valid sample, and the delta is that count less the first valid one,
  -- as a signed number; both are 0 if there is no valid sample.
  pub fds-samples :
      (first : ProcessStateInput D) (is : List (ProcessStateInput D))
      → All IsSmall (fd_counts is)
      → (let ps = samples F hz cpus is (fresh F first) in
          (ps.current_num_of_fds ≡ last_count 0 (fd_counts is))
          × (ps.fd_delta ≡ fd_growth (fd_counts is)))
  unfolding fresh
  fds-samples first is h = fds-samples_off is (fresh F first) refl refl refl h
