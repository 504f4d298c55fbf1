-- ===== src/Snapshot/Clock.antt =====
-- `initialize_page_size_kb` and `print_timestamp` of code/process_snapshot/process_snapshot.c.
pub mod ReadBack
pub mod Strptime
pub mod PageSize
use linux_process_analyzer.Prelude.{
  ℕ, zero, suc, ◌+◌, ◌-◌, ◌/◌, Bool, length, take, [], ◌∷◌, ◌++◌, ltb, ◌==◌, if◌then◌else◌,
}
use linux_process_analyzer.Prelude.Int.{ℤ, pos, negsuc, pos_part, ltb_ℤ, ◌+ℤ◌}
use linux_process_analyzer.Prelude.Cstr.{Bytes, codes}
use linux_process_analyzer.Prelude.Strto.{decimal}

-- The size of a page in kilobytes, from what sysconf answers and the value so far.
unfoldable pub initialize_page_size_kb : ℤ → ℕ → ℕ
initialize_page_size_kb page_size page_size_kb =
    let kb = if ltb_ℤ (pos 0) page_size then pos_part page_size / 1024 else page_size_kb in
    if ltb 0 page_size_kb then page_size_kb else if kb == 0 then 4 else kb

-- The members of struct tm that are printed.
pub record Tm : Type 0 where
  pub tm_year : ℤ
  pub tm_mon : ℤ
  pub tm_mday : ℤ
  pub tm_hour : ℤ
  pub tm_min : ℤ
  pub tm_sec : ℤ

unfoldable pub zeros : ℕ → Bytes → Bytes
zeros zero text = text
zeros (suc n) text = b'0' ∷ zeros n text

-- printf's %0<width>d
unfoldable pub zero_padded : ℕ → ℤ → Bytes
unfolding zeros
zero_padded width (pos n) = zeros (width - length (decimal n)) (decimal n)
zero_padded width (negsuc n) = b'-' ∷ zeros (width - 1 - length (decimal (n + 1))) (decimal (n + 1))

unfoldable pub date_text : Tm → Bytes
unfolding zero_padded
date_text tm =
    zero_padded 4 (tm.tm_year +ℤ pos 1900)
    ++ (codes "-"
        ++ (zero_padded 2 (tm.tm_mon +ℤ pos 1)
            ++ (codes "-"
                ++ (zero_padded 2 tm.tm_mday
                    ++ (codes " "
                        ++ (zero_padded 2 tm.tm_hour
                            ++ (codes ":"
                                ++ (zero_padded 2 tm.tm_min
                                    ++ (codes ":" ++ zero_padded 2 tm.tm_sec)))))))))

-- The text of the clock, in a buffer of 64 bytes; the nanoseconds are those within the second.
unfoldable pub print_timestamp : Tm → ℕ → Bytes
unfolding date_text
print_timestamp tm nanoseconds =
    take 63 (date_text tm ++ (codes "." ++ zero_padded 3 (pos (nanoseconds / 1000000))))
