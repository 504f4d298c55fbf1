-- ===== src/Snapshot/Rotate/Unique.antt =====
-- The names of compressed files, and the unique names of those that wait to be compressed, in
-- code/process_snapshot/process_snapshot.c are different.
use linux_process_analyzer.Prelude.{
  ℕ, ◌+◌, ◌-◌, ◌^◌, ◌≤◌, ◌<◌, ◌≡◌, ◌≢◌, sym, ap, subst, ◌∙◌, refl, [], ◌∷◌, ◌++◌, length,
  length-append, drop, take-all, All, All-append, arith,
}
use linux_process_analyzer.Prelude.Cstr.{Bytes, codes}
use linux_process_analyzer.Prelude.Strto.{decimal, digit_prefix, value_of}
use linux_process_analyzer.Args.Numbers.RoundTrip.{
  IsDigit, value_of-decimal, decimal-IsDigit, digit_prefix-append,
}
use linux_process_analyzer.Config.{path_max}
use linux_process_analyzer.Snapshot.Rotate.{numbered, numbered_gz, unique_name}
use linux_process_analyzer.Snapshot.Rotate.Names.{
  HasRoom, All-tail, length-decimal, drop-append, numbered-whole, numbered_gz-whole,
}

-- A path that has room for ".1.<a number of ten digits>.<a number of ten digits>.gz".
abbrev pub HasUniqueRoom : Bytes → Type 0
HasUniqueRoom path = length path + 28 < path_max

-- The name before it is cut to the buffer.
abbrev pub whole : Bytes → ℕ → ℕ → Bytes
whole path time counter = path ++ (codes ".1." ++ (decimal time ++ (b'.' ∷ decimal counter)))

abbrev Low : ℕ → Type 0
Low c = c ≤ 57

digits-Low : (ds : Bytes) → All IsDigit ds → All Low ds
digits-Low [] h = tt
digits-Low (d ∷ ds) h = (h.0.1, digits-Low ds h.1)

module _ (path : Bytes) (room : HasUniqueRoom path) where
  pub HasUniqueRoom-HasRoom : HasRoom path
  HasUniqueRoom-HasRoom = omega (arith, room)

  pub numbered_gz-ne :
      (i j : ℕ)
      → i < 10000000000
      → j < 10000000000
      → i ≢ j
      → numbered_gz path i ≢ numbered_gz path j
  unfolding digit_prefix
  numbered_gz-ne i j hi hj ne e =
      let same : decimal i ++ codes ".gz" ≡ decimal j ++ codes ".gz" =
        ap (λ (t : Bytes). drop 1 t)
          (sym (drop-append path _)
            ∙ ap (drop (length path)) (
                sym (numbered_gz-whole path HasUniqueRoom-HasRoom i hi)
                ∙ e
                ∙ numbered_gz-whole path HasUniqueRoom-HasRoom j hj)
            ∙ drop-append path _) in
      ne (
        sym (value_of-decimal i)
        ∙ ap (value_of 0) (
            sym (digit_prefix-append (decimal i) (codes ".gz") (decimal-IsDigit i) refl)
            ∙ ap digit_prefix same
            ∙ digit_prefix-append (decimal j) (codes ".gz") (decimal-IsDigit j) refl)
        ∙ value_of-decimal j)

  module _ (time counter : ℕ) (t : time < 10000000000) (c : counter < 2 ^ 32) where
    pub length-whole : length (whole path time counter) ≤ length path + 24
    length-whole = omega (
      arith,
      length-append path (codes ".1." ++ (decimal time ++ (b'.' ∷ decimal counter))),
      length-append (decimal time) (b'.' ∷ decimal counter),
      length-decimal time t,
      length-decimal counter (omega (arith, c)),
    )

    pub unique_name-whole : unique_name path time counter ≡ whole path time counter
    unfolding unique_name
    unique_name-whole =
        take-all (path_max - 1) (whole path time counter) (omega (arith, length-whole, room))

    pub path-ne-unique_name : path ≢ unique_name path time counter
    path-ne-unique_name e = absurd (
        omega (
          arith,
          ap length (e ∙ unique_name-whole),
          length-append path (codes ".1." ++ (decimal time ++ (b'.' ∷ decimal counter))),
        ))

    behind_path :
        (s : Bytes)
        → path ++ (b'.' ∷ s) ≡ unique_name path time counter
        → s ≡ codes "1." ++ (decimal time ++ (b'.' ∷ decimal counter))
    behind_path s e =
        ap (λ (t : Bytes). drop 1 t)
          (sym (drop-append path _)
            ∙ ap (drop (length path)) (e ∙ unique_name-whole)
            ∙ drop-append path _)

    pub numbered-ne-unique_name :
        (i : ℕ) → i < 10000000000 → numbered path i ≢ unique_name path time counter
    numbered-ne-unique_name i h e =
        let same =
          behind_path (decimal i) (sym (numbered-whole path HasUniqueRoom-HasRoom i h) ∙ e) in
        let digits = subst (All IsDigit) same (decimal-IsDigit i) in
        absurd (omega (arith, digits.1.0.0))

    pub numbered_gz-ne-unique_name :
        (i : ℕ) → i < 10000000000 → numbered_gz path i ≢ unique_name path time counter
    numbered_gz-ne-unique_name i h e =
        let same =
          behind_path (decimal i ++ codes ".gz")
            (sym (numbered_gz-whole path HasUniqueRoom-HasRoom i h) ∙ e) in
        let low : All Low (codes "1." ++ (decimal time ++ (b'.' ∷ decimal counter))) = (
          omega arith,
          (
            omega arith,
            All-append Low (decimal time) (b'.' ∷ decimal counter)
                (digits-Low (decimal time) (decimal-IsDigit time))
                (omega arith, digits-Low (decimal counter) (decimal-IsDigit counter)),
          ),
        ) in
        let gz = All-tail Low (decimal i) (codes ".gz") (subst (All Low) (sym same) low) in
        absurd (omega (arith, gz.1.0))
