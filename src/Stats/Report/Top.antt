-- ===== src/Stats/Report/Top.antt =====
-- What a block shows: the processes with the largest values, as many as asked for.
use mathlib.Core.List.{Perm}
use mathlib.Core.Path.{subst, fun_ext}
use linux_process_analyzer.Prelude.{
  ◌≡◌, ◌≢◌, refl, sym, ◌∙◌, Bool, false, List, [], ◌∷◌, ◌++◌, All, ltb, take, drop, length,
  take-append-drop,
}
use linux_process_analyzer.Prelude.Int.{ℤ, pos, ltb_ℤ}
use linux_process_analyzer.Args.{MetricsArguments}
use linux_process_analyzer.Stats.{Float, ProcessState}
use linux_process_analyzer.Stats.Order.{
  Comparator, descending, labs, cmp_average_rss, cmp_rss_variation, cmp_rss_delta,
  compare_total_read_kbytes, compare_total_write_kbytes, compare_fd_increase, compare_opened_fd,
  compare_fd_delta, cmp_average_cpu, compare_avg_read_rate, compare_avg_write_rate,
}
use linux_process_analyzer.Stats.Order.Sorted.{
  IsOrder, Ordered, Ordered-split, IsWeak, ltb-IsWeak, ltb_ℤ-IsWeak, by-IsOrder, descending-eq_one,
}
use linux_process_analyzer.Stats.Metrics.{
  MetricIndex, avg_cpu, avg_rss, rss_incr, rss_delta, bytes_read, read_rate, written_bytes,
  write_rate, fds_increase, no_of_fds, fds_delta,
}
use linux_process_analyzer.Stats.Report.{Qsort, to_display, shown}
use linux_process_analyzer.Stats.Report.Blocks.{Block, blocks}

-- What the C library promises of qsort: the array is permuted, and by a comparator that is an
-- order it is sorted.
pub record IsQsort {D : Type 0} (qsort : Qsort D) : Type 0 where
  pub permutes : (c : Comparator D) (l : List (ProcessState D)) → Perm (qsort c l) l
  pub sorts : (c : Comparator D) → IsOrder c → (l : List (ProcessState D)) → Ordered c (qsort c l)

module _ {D : Type 0} (F : Float D) where
  -- The quantity of a metric is larger in `a` than in `b`.
  abbrev pub larger : MetricIndex → ProcessState D → ProcessState D → Bool
  larger avg_cpu a b = F.lt b.average_cpu_usage a.average_cpu_usage
  larger avg_rss a b = ltb_ℤ b.rss_average_kb a.rss_average_kb
  larger rss_incr a b = ltb_ℤ b.rss_variation_since_startup a.rss_variation_since_startup
  larger rss_delta a b =
      ltb (labs b.rss_variation_since_startup) (labs a.rss_variation_since_startup)
  larger bytes_read a b = ltb b.total_read_kbytes a.total_read_kbytes
  larger read_rate a b = F.lt b.avg_read_rate_kb_s a.avg_read_rate_kb_s
  larger written_bytes a b = ltb b.total_write_kbytes a.total_write_kbytes
  larger write_rate a b = F.lt b.avg_write_rate_kb_s a.avg_write_rate_kb_s
  larger fds_increase a b = ltb_ℤ b.fd_delta a.fd_delta
  larger no_of_fds a b = ltb b.current_num_of_fds a.current_num_of_fds
  larger fds_delta a b = ltb (labs b.fd_delta) (labs a.fd_delta)

  -- The entries that are not shown.
  abbrev pub hidden : Qsort D → Block D → List (ProcessState D) → List (ProcessState D)
  hidden qsort b arr = drop (to_display b (length arr)) (qsort b.compare arr)

  pub record IsTop (qsort : Qsort D) (arr : List (ProcessState D)) (b : Block D) : Type 0 where
    pub same_processes : Perm (shown qsort b arr ++ hidden qsort b arr) arr
    pub none_larger :
        All (λ a. All (λ c. larger b.index c a ≡ false) (hidden qsort b arr)) (shown qsort b arr)

  module _ (qsort : Qsort D) (q : IsQsort qsort) (arr : List (ProcessState D)) where
    All-All-map :
        (P Q : ProcessState D → ProcessState D → Type 0)
        → ((a c : ProcessState D) → P a c → Q a c)
        → (xs ys : List (ProcessState D)) → All (λ a. All (P a) ys) xs
        → All (λ a. All (Q a) ys) xs
    All-All-map P Q f [] ys h = tt
    All-All-map P Q f (x ∷ xs) ys h = (All-map ys h.0, All-All-map P Q f xs ys h.1)
      where
        All-map : (zs : List (ProcessState D)) → All (P x) zs → All (Q x) zs
        All-map [] k = tt
        All-map (z ∷ zs) k = (f x z k.0, All-map zs k.1)

    block-IsTop :
        {K : Type 0} (less : K → K → Bool)
        → IsWeak less
        → (key : ProcessState D → K) (b : Block D)
        → ((a c : ProcessState D) → b.compare a c ≡ descending less (key a) (key c))
        → ((a c : ProcessState D) → larger b.index c a ≡ less (key a) (key c))
        → IsTop qsort arr b
    block-IsTop less weak key b compares above =
        let sorted = qsort b.compare arr in
        let n = to_display b (length arr) in
        let same : b.compare ≡ (λ a c. descending less (key a) (key c)) =
          fun_ext (λ a. fun_ext (compares a)) in
        let order : IsOrder b.compare = subst IsOrder (sym same) (by-IsOrder less weak key) in
        record {
          same_processes =
              subst (λ l. Perm l arr) (sym (take-append-drop n sorted)) (q.permutes b.compare arr);
          none_larger =
              All-All-map (λ a c. b.compare a c ≢ pos 1) (λ a c. larger b.index c a ≡ false)
                (λ a c h.
                  above a c
                  ∙ descending-eq_one less (key a) (key c)
                      (subst (λ (z : ℤ). z ≢ pos 1) (compares a c) h))
                (take n sorted) (drop n sorted)
                (Ordered-split b.compare n sorted (q.sorts b.compare order arr));
        }

    -- For each of the eleven metrics, whatever the array, if the order of doubles has no NaN: the
    -- entries shown and those left out are the processes of the array, and no process that is left
    -- out has a larger value of the metric than one that is shown.
    pub blocks-IsTop :
        (args : MetricsArguments) → IsWeak F.lt → All (IsTop qsort arr) (blocks F args)
    unfolding blocks cmp_average_rss cmp_rss_variation cmp_rss_delta compare_total_read_kbytes
        compare_total_write_kbytes compare_fd_increase compare_opened_fd compare_fd_delta
        cmp_average_cpu compare_avg_read_rate compare_avg_write_rate
    blocks-IsTop args weak = (
      block-IsTop F.lt weak (λ p. p.average_cpu_usage) _ (λ a c. refl) (λ a c. refl),
      (
        block-IsTop ltb_ℤ ltb_ℤ-IsWeak (λ p. p.rss_average_kb) _ (λ a c. refl) (λ a c. refl),
        (
          block-IsTop ltb_ℤ ltb_ℤ-IsWeak (λ p. p.rss_variation_since_startup) _ (λ a c. refl)
              (λ a c. refl),
          (
            block-IsTop ltb ltb-IsWeak (λ p. labs p.rss_variation_since_startup) _ (λ a c. refl)
                (λ a c. refl),
            (
              block-IsTop ltb ltb-IsWeak (λ p. p.total_read_kbytes) _ (λ a c. refl) (λ a c. refl),
              (
                block-IsTop ltb ltb-IsWeak (λ p. p.total_write_kbytes) _ (λ a c. refl)
                    (λ a c. refl),
                (
                  block-IsTop F.lt weak (λ p. p.avg_read_rate_kb_s) _ (λ a c. refl) (λ a c. refl),
                  (
                    block-IsTop F.lt weak (λ p. p.avg_write_rate_kb_s) _ (λ a c. refl)
                        (λ a c. refl),
                    (
                      block-IsTop ltb_ℤ ltb_ℤ-IsWeak (λ p. p.fd_delta) _ (λ a c. refl)
                          (λ a c. refl),
                      (
                        block-IsTop ltb ltb-IsWeak (λ p. p.current_num_of_fds) _ (λ a c. refl)
                            (λ a c. refl),
                        (
                          block-IsTop ltb ltb-IsWeak (λ p. labs p.fd_delta) _ (λ a c. refl)
                              (λ a c. refl),
                          tt,
                        ),
                      ),
                    ),
                  ),
                ),
              ),
            ),
          ),
        ),
      ),
    )
