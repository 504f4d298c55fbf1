-- ===== src/Snapshot/Clock/PageSize.antt =====
-- The page size of code/process_snapshot/process_snapshot.c.
use linux_process_analyzer.Prelude.{ℕ, ◌<◌, ◌≡◌, arith}
use linux_process_analyzer.Prelude.Int.{ℤ}
use linux_process_analyzer.Snapshot.Clock.{initialize_page_size_kb}

-- Whatever sysconf answers, the page size is positive after the call.
pub initialize_page_size_kb_pos : (p : ℤ) (kb : ℕ) → 0 < initialize_page_size_kb p kb
unfolding initialize_page_size_kb
initialize_page_size_kb_pos p kb = ground arith

keep : (q : ℤ) (n : ℕ) → 0 < n → initialize_page_size_kb q n ≡ n
unfolding initialize_page_size_kb
keep q n h = ground arith

-- A second call changes nothing, also if sysconf then answers otherwise.
pub initialize_page_size_kb_twice :
    (p q : ℤ) (kb : ℕ)
    → initialize_page_size_kb q (initialize_page_size_kb p kb) ≡ initialize_page_size_kb p kb
initialize_page_size_kb_twice p q kb =
    keep q (initialize_page_size_kb p kb) (initialize_page_size_kb_pos p kb)
