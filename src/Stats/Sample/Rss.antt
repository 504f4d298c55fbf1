-- ===== src/Stats/Sample/Rss.antt =====
-- The memory figures of a process over all its samples.
use linux_process_analyzer.Prelude.{
  ◌+◌, ◌^◌, ◌<◌, ◌≡◌, refl, ap, ◌∙◌, inl, inr, true, false, not, List, [], ◌∷◌, length, arith,
  if◌then◌else◌, Bool-cases,
}
use linux_process_analyzer.Prelude.Int.{ℤ, pos, ◌+ℤ◌, ◌-ℤ◌, int_laws, +ℤ_assoc}
use linux_process_analyzer.Stats.{Float, ProcessState, ProcessStateInput}
use linux_process_analyzer.Stats.Sample.{calculate_rss_data, sample, samples, fresh, wrap64}
use linux_process_analyzer.Stats.Sample.Frames.{rss_of, rss_of-sample}

module _ {D : Type 0} where
  -- The memory sizes of the valid samples.
  abbrev pub rss_values : List (ProcessStateInput D) → List ℤ
  rss_values [] = []
  rss_values (i ∷ is) = if i.is_rss_valid then i.rss_kb ∷ rss_values is else rss_values is

abbrev pub sum_ℤ : List ℤ → ℤ
sum_ℤ [] = pos 0
sum_ℤ (x ∷ xs) = x +ℤ sum_ℤ xs

abbrev pub last_or : ℤ → List ℤ → ℤ
last_or d [] = d
last_or d (x ∷ xs) = last_or x xs

-- The last value less the first.
abbrev pub growth : List ℤ → ℤ
growth [] = pos 0
growth (x ∷ xs) = last_or x xs -ℤ x

zero-+ℤ : (a : ℤ) → pos 0 +ℤ a ≡ a
zero-+ℤ a = omega int_laws

module _ {D : Type 0} (F : Float D) (hz cpus : ℤ) where
  rss_sum-sample :
      (i : ProcessStateInput D) (ps : ProcessState D)
      → (sample F hz cpus i ps).rss_sum
        ≡ (if i.is_rss_valid then ps.rss_sum +ℤ i.rss_kb else ps.rss_sum)
  unfolding calculate_rss_data
  rss_sum-sample i ps = ground (arith, rss_of-sample F hz cpus i ps)

  rss_records-sample :
      (i : ProcessStateInput D) (ps : ProcessState D)
      → (sample F hz cpus i ps).num_of_rss_records
        ≡ (if i.is_rss_valid then wrap64 (ps.num_of_rss_records + 1) else ps.num_of_rss_records)
  unfolding calculate_rss_data
  rss_records-sample i ps = ground (arith, rss_of-sample F hz cpus i ps)

  rss_sum-samples :
      (is : List (ProcessStateInput D)) (ps : ProcessState D)
      → (samples F hz cpus is ps).rss_sum ≡ ps.rss_sum +ℤ sum_ℤ (rss_values is)
  rss_sum-samples [] ps = unfold ◌+ℤ◌ in ground arith
  rss_sum-samples (i ∷ is) ps = elim (Bool-cases i.is_rss_valid) [
    | inl valid ↦
        rss_sum-samples is (sample F hz cpus i ps)
        ∙ ap (λ (x : ℤ). x +ℤ sum_ℤ (rss_values is)) (rss_sum-sample i ps)
        ∙ rw valid (+ℤ_assoc ps.rss_sum i.rss_kb (sum_ℤ (rss_values is)))
    | inr missing ↦
        rss_sum-samples is (sample F hz cpus i ps)
        ∙ ap (λ (x : ℤ). x +ℤ sum_ℤ (rss_values is)) (rss_sum-sample i ps)
        ∙ rw missing refl
  ]

  rss_records-samples :
      (is : List (ProcessStateInput D)) (ps : ProcessState D)
      → ps.num_of_rss_records < 2 ^ 64
      → (samples F hz cpus is ps).num_of_rss_records
        ≡ wrap64 (ps.num_of_rss_records + length (rss_values is))
  rss_records-samples [] ps h = omega arith
  rss_records-samples (i ∷ is) ps h =
      ground (arith, rss_records-samples is (sample F hz cpus i ps), rss_records-sample i ps)

  valid_sample :
      (i : ProcessStateInput D) (ps : ProcessState D)
      → i.is_rss_valid ≡ true
      → (let q = sample F hz cpus i ps in
          let initial = if not ps.is_rss_initialized then i.rss_kb else ps.rss_initial_kb in
          (q.is_rss_initialized ≡ true)
          × (q.rss_initial_kb ≡ initial)
          × (q.rss_kb ≡ i.rss_kb)
          × (q.rss_variation_since_startup ≡ i.rss_kb -ℤ initial))
  unfolding calculate_rss_data
  valid_sample i ps valid = ground (arith, rss_of-sample F hz cpus i ps)

  missing_sample :
      (i : ProcessStateInput D) (ps : ProcessState D)
      → i.is_rss_valid ≡ false
      → rss_of (sample F hz cpus i ps) ≡ rss_of ps
  unfolding calculate_rss_data
  missing_sample i ps missing = rss_of-sample F hz cpus i ps ∙ rw missing refl

  -- Once a first valid sample is in, the variation is against it.
  variation-samples :
      (is : List (ProcessStateInput D)) (ps : ProcessState D)
      → ps.is_rss_initialized ≡ true
      → ps.rss_variation_since_startup ≡ ps.rss_kb -ℤ ps.rss_initial_kb
      → (samples F hz cpus is ps).rss_variation_since_startup
        ≡ last_or ps.rss_kb (rss_values is) -ℤ ps.rss_initial_kb
  variation-samples [] ps on e = e
  variation-samples (i ∷ is) ps on e = elim (Bool-cases i.is_rss_valid) [
    | inl valid ↦
        rw valid (ground (arith, valid_sample i ps, variation-samples is (sample F hz cpus i ps)))
    | inr missing ↦
        rw missing
          (ground (arith, missing_sample i ps, variation-samples is (sample F hz cpus i ps)))
  ]

  variation-samples_fresh :
      (is : List (ProcessStateInput D)) (ps : ProcessState D)
      → ps.is_rss_initialized ≡ false
      → ps.rss_variation_since_startup ≡ pos 0
      → (samples F hz cpus is ps).rss_variation_since_startup ≡ growth (rss_values is)
  variation-samples_fresh [] ps off e = e
  variation-samples_fresh (i ∷ is) ps off e = elim (Bool-cases i.is_rss_valid) [
    | inl valid ↦
        rw valid (ground (arith, valid_sample i ps, variation-samples is (sample F hz cpus i ps)))
    | inr missing ↦
        rw missing
          (ground (arith, missing_sample i ps, variation-samples_fresh is (sample F hz cpus i ps)))
  ]

  -- For a new process, after any samples: the memory sum is the sum of the valid samples, the
  -- number of memory records is how many there are, modulo 2^64, and the variation since startup
  -- is the last valid sample less the first, or 0 if there is none.
  pub rss-samples :
      (first : ProcessStateInput D) (is : List (ProcessStateInput D))
      → (let ps = samples F hz cpus is (fresh F first) in
          (ps.rss_sum ≡ sum_ℤ (rss_values is))
          × (ps.num_of_rss_records ≡ wrap64 (length (rss_values is)))
          × (ps.rss_variation_since_startup ≡ growth (rss_values is)))
  unfolding fresh
  rss-samples first is = (
    rss_sum-samples is (fresh F first) ∙ zero-+ℤ (sum_ℤ (rss_values is)),
    ground (arith, rss_records-samples is (fresh F first)),
    variation-samples_fresh is (fresh F first) refl refl,
  )
