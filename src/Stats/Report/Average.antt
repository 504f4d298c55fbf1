-- ===== src/Stats/Report/Average.antt =====
-- The average memory of a process lies between its smallest and its largest valid sample.
use native.Mathlib.Nat.{div-le_self}
use linux_process_analyzer.Prelude.{
  ℕ, ◌+◌, ◌*◌, ◌/◌, ◌%◌, ◌^◌, ◌≤◌, ◌<◌, ◌≡◌, refl, ap, ◌∙◌, true, not, List, [], ◌∷◌, ◌==◌, All,
  length, arith, if-true,
}
use linux_process_analyzer.Prelude.Int.{ℤ, pos, negsuc, ◌+ℤ◌, ◌≤ℤ◌, signed64, unsigned64}
use linux_process_analyzer.Args.{MetricsArguments}
use linux_process_analyzer.Stats.{Float, ProcessState, ProcessStateInput}
use linux_process_analyzer.Stats.Sample.{samples, fresh}
use linux_process_analyzer.Stats.Sample.Rss.{rss_values, sum_ℤ, rss-samples}
use linux_process_analyzer.Stats.Report.{with_averages}

abbrev pub Between : ℕ → ℕ → ℤ → Type 0
Between lo hi z = (pos lo ≤ℤ z) × (z ≤ℤ pos hi)

pos-+ℤ : (a b : ℕ) → pos a +ℤ pos b ≡ pos (a + b)
unfolding ◌+ℤ◌
pos-+ℤ a b = ground arith

-- The sum of values from lo to hi is a number from their count times lo to their count times hi.
sum_bounds :
    (lo hi : ℕ) (zs : List ℤ)
    → All (Between lo hi) zs
    → (n : ℕ) × (sum_ℤ zs ≡ pos n) × (length zs * lo ≤ n) × (n ≤ length zs * hi)
sum_bounds lo hi [] h = (0, refl, omega arith, omega arith)
sum_bounds lo hi (pos z ∷ zs) h =
    let (n, e, l, u) = sum_bounds lo hi zs h.1 in
    (z + n, ap (λ (x : ℤ). pos z +ℤ x) e ∙ pos-+ℤ z n, omega arith, omega arith)
sum_bounds lo hi (negsuc z ∷ zs) h = absurd (omega arith)

div_bounds : (lo hi n k : ℕ) → 0 < k → k * lo ≤ n → n ≤ k * hi → (lo ≤ n / k) × (n / k ≤ hi)
div_bounds lo hi n k p l u = (grind arith, grind arith)

nonzero : (k : ℕ) → 0 < k → not (k == 0) ≡ true
nonzero k p = ground arith

signed64-small : (n : ℕ) → n < 2 ^ 63 → signed64 n ≡ pos n
signed64-small n h = ground arith

whole : (n k : ℕ) → n < 2 ^ 63 → n / k ≤ n → signed64 (unsigned64 (pos n) / k) ≡ pos (n / k)
whole n k small le =
    let same : n % 2 ^ 64 ≡ n = omega arith in
    ap (λ (x : ℕ). signed64 (x / k)) same ∙ signed64-small (n / k) (omega arith)

average_of :
    (lo hi n k : ℕ) (sum average : ℤ)
    → 0 < k
    → k * lo ≤ n
    → n ≤ k * hi
    → n < 2 ^ 63
    → sum ≡ pos n
    → average ≡ signed64 (unsigned64 sum / k)
    → Between lo hi average
average_of lo hi n k sum average p l u small e d =
    let (down, up) = div_bounds lo hi n k p l u in
    let le : n / k ≤ n = div-le_self n k in
    let exact : average ≡ pos (n / k) =
      d ∙ ap (λ (x : ℤ). signed64 (unsigned64 x / k)) e ∙ whole n k small le in
    rw exact ((omega arith, omega arith))

module _ {D : Type 0} (F : Float D) (hz cpus : ℤ) (args : MetricsArguments) where
  requested_average :
      (ps : ProcessState D) (k : ℕ)
      → args.rss_average_requested ≡ true
      → 0 < k
      → ps.num_of_rss_records ≡ k
      → (with_averages F args ps).rss_average_kb ≡ signed64 (unsigned64 ps.rss_sum / k)
  unfolding with_averages
  requested_average ps k asked p e = rw (asked, e) (if-true _ _ (nonzero k p))

  -- For a new process, after samples whose valid memory sizes all lie between two numbers, there
  -- being at least one and no overflow of their number or of their sum, the average that is printed
  -- on request lies between the same two numbers.
  pub rss_average_bounds :
      (first : ProcessStateInput D) (is : List (ProcessStateInput D)) (lo hi : ℕ)
      → args.rss_average_requested ≡ true
      → All (Between lo hi) (rss_values is)
      → 0 < length (rss_values is)
      → length (rss_values is) < 2 ^ 64
      → length (rss_values is) * hi < 2 ^ 63
      → Between lo hi (with_averages F args (samples F hz cpus is (fresh F first))).rss_average_kb
  rss_average_bounds first is lo hi asked h some_value few small =
      let ps = samples F hz cpus is (fresh F first) in
      let (total, records, variation) = rss-samples F hz cpus first is in
      let (n, e, l, u) = sum_bounds lo hi (rss_values is) h in
      let k : ps.num_of_rss_records ≡ length (rss_values is) = records ∙ omega arith in
      average_of lo hi n (length (rss_values is)) ps.rss_sum _ some_value l u (omega arith)
        (total ∙ e) (requested_average ps (length (rss_values is)) asked some_value k)
