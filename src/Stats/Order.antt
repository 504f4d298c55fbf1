-- ===== src/Stats/Order.antt =====
-- The eleven qsort comparators of code/process_stats/process_stats.c. `a` and `b` are what the
-- arguments point to.
pub mod Sorted
use linux_process_analyzer.Prelude.{ℕ, suc, Bool, if◌then◌else◌, ltb}
use linux_process_analyzer.Prelude.Int.{ℤ, pos, negsuc, ltb_ℤ}
use linux_process_analyzer.Stats.{Float, ProcessState}

abbrev pub Comparator : Type 0 → Type 0
Comparator D = ProcessState D → ProcessState D → ℤ

-- if (pb->x > pa->x) return 1; if (pb->x < pa->x) return -1; return 0;
pub descending {ℓ} : {K : Type ℓ} → (K → K → Bool) → K → K → ℤ
descending less ka kb = if less ka kb then pos 1 else if less kb ka then negsuc 0 else pos 0

-- labs
abbrev pub labs : ℤ → ℕ
labs (pos n) = n
labs (negsuc n) = suc n

module _ {D : Type 0} where
  unfoldable pub cmp_average_rss : Comparator D
  unfolding descending
  cmp_average_rss a b = descending ltb_ℤ a.rss_average_kb b.rss_average_kb

  unfoldable pub cmp_rss_variation : Comparator D
  unfolding descending
  cmp_rss_variation a b =
      descending ltb_ℤ a.rss_variation_since_startup b.rss_variation_since_startup

  unfoldable pub cmp_rss_delta : Comparator D
  unfolding descending
  cmp_rss_delta a b =
      descending ltb (labs a.rss_variation_since_startup) (labs b.rss_variation_since_startup)

  unfoldable pub compare_total_read_kbytes : Comparator D
  unfolding descending
  compare_total_read_kbytes a b = descending ltb a.total_read_kbytes b.total_read_kbytes

  unfoldable pub compare_total_write_kbytes : Comparator D
  unfolding descending
  compare_total_write_kbytes a b = descending ltb a.total_write_kbytes b.total_write_kbytes

  unfoldable pub compare_fd_increase : Comparator D
  unfolding descending
  compare_fd_increase a b = descending ltb_ℤ a.fd_delta b.fd_delta

  unfoldable pub compare_opened_fd : Comparator D
  unfolding descending
  compare_opened_fd a b = descending ltb a.current_num_of_fds b.current_num_of_fds

  unfoldable pub compare_fd_delta : Comparator D
  unfolding descending
  compare_fd_delta a b = descending ltb (labs a.fd_delta) (labs b.fd_delta)

  module _ (F : Float D) where
    unfoldable pub cmp_average_cpu : Comparator D
    unfolding descending
    cmp_average_cpu a b = descending F.lt a.average_cpu_usage b.average_cpu_usage

    unfoldable pub compare_avg_read_rate : Comparator D
    unfolding descending
    compare_avg_read_rate a b = descending F.lt a.avg_read_rate_kb_s b.avg_read_rate_kb_s

    unfoldable pub compare_avg_write_rate : Comparator D
    unfolding descending
    compare_avg_write_rate a b = descending F.lt a.avg_write_rate_kb_s b.avg_write_rate_kb_s
