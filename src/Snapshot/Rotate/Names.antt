-- ===== src/Snapshot/Rotate/Names.antt =====
-- The names that code/process_snapshot/process_snapshot.c gives to rotated files are different.
use linux_process_analyzer.Prelude.{
  ℕ, zero, suc, ◌+◌, ◌-◌, ◌*◌, ◌/◌, ◌%◌, ◌≤◌, ◌<◌, ◌≡◌, ◌≢◌, refl, sym, ap, subst, ◌∙◌, inl, inr,
  [], ◌∷◌, ◌++◌, length, length-append, drop, take-all, All, arith, ◌==◌, Bool-cases,
}
use linux_process_analyzer.Prelude.Cstr.{Bytes, codes}
use linux_process_analyzer.Prelude.Strto.{digits_onto, decimal, value_of}
use linux_process_analyzer.Args.Numbers.RoundTrip.{IsDigit, value_of-decimal, decimal-IsDigit}
use linux_process_analyzer.Config.{path_max}
use linux_process_analyzer.Snapshot.Rotate.{fit, numbered, numbered_gz}

power_of_ten : ℕ → ℕ
power_of_ten zero = 1
power_of_ten (suc k) = 10 * power_of_ten k

length-digits_onto :
    (k f n : ℕ) (tail : Bytes)
    → n < power_of_ten (suc k)
    → length (digits_onto f n tail) ≤ suc k + length tail
unfolding digits_onto power_of_ten
length-digits_onto k zero n tail h = omega arith
length-digits_onto zero (suc f) n tail h = elim (Bool-cases (n / 10 == 0)) [
  | inl last ↦ rw last (omega arith)
  | inr more ↦ absurd (ground arith)
]
length-digits_onto (suc k) (suc f) n tail h = elim (Bool-cases (n / 10 == 0)) [
  | inl last ↦ rw last (omega arith)
  | inr more ↦
      rw more (omega (arith, length-digits_onto k f (n / 10) ((48 + n % 10) ∷ tail) (omega arith)))
]

pub length-decimal : (n : ℕ) → n < 10000000000 → length (decimal n) ≤ 10
unfolding decimal power_of_ten
length-decimal n h = omega (arith, length-digits_onto 9 (n + 1) n [] h)

-- A path that has room for ".<a number of ten digits>.gz" in a buffer of PATH_MAX bytes.
abbrev pub HasRoom : Bytes → Type 0
HasRoom path = length path + 14 < path_max

pub drop-append : (xs ys : Bytes) → drop (length xs) (xs ++ ys) ≡ ys
drop-append [] ys = refl
drop-append (x ∷ xs) ys = drop-append xs ys

pub All-tail : (P : ℕ → Type 0) (xs ys : Bytes) → All P (xs ++ ys) → All P ys
All-tail P [] ys h = h
All-tail P (x ∷ xs) ys h = All-tail P xs ys h.1

module _ (path : Bytes) (room : HasRoom path) where
  pub numbered-whole : (i : ℕ) → i < 10000000000 → numbered path i ≡ path ++ (b'.' ∷ decimal i)
  unfolding numbered
  numbered-whole i h =
      take-all (path_max - 1) _
        (omega (arith, length-append path (b'.' ∷ decimal i), length-decimal i h))

  pub numbered_gz-whole :
      (i : ℕ) → i < 10000000000 → numbered_gz path i ≡ path ++ (b'.' ∷ (decimal i ++ codes ".gz"))
  unfolding numbered_gz
  numbered_gz-whole i h = take-all (path_max - 1) _ (
      omega (
        arith,
        length-append path (b'.' ∷ (decimal i ++ codes ".gz")),
        length-append (decimal i) (codes ".gz"),
        length-decimal i h,
      ))

  pub fit_self : fit path ≡ path
  fit_self = take-all (path_max - 1) _ (omega arith)

  pub numbered-ne :
      (i j : ℕ) → i < 10000000000 → j < 10000000000 → i ≢ j → numbered path i ≢ numbered path j
  numbered-ne i j hi hj ne e = ne (
      sym (value_of-decimal i)
      ∙ ap (λ (t : Bytes). value_of 0 (drop 1 t))
          (sym (drop-append path _)
            ∙ ap (drop (length path)) (sym (numbered-whole i hi) ∙ e ∙ numbered-whole j hj)
            ∙ drop-append path _)
      ∙ value_of-decimal j)

  pub path-ne-numbered : (i : ℕ) → i < 10000000000 → path ≢ numbered path i
  path-ne-numbered i h e =
      absurd
        (omega (arith, ap length (e ∙ numbered-whole i h), length-append path (b'.' ∷ decimal i)))

  pub path-ne-numbered_gz : (i : ℕ) → i < 10000000000 → path ≢ numbered_gz path i
  path-ne-numbered_gz i h e = absurd (
      omega (
        arith,
        ap length (e ∙ numbered_gz-whole i h),
        length-append path (b'.' ∷ (decimal i ++ codes ".gz")),
      ))

  pub numbered-ne-numbered_gz :
      (i j : ℕ) → i < 10000000000 → j < 10000000000 → numbered path i ≢ numbered_gz path j
  numbered-ne-numbered_gz i j hi hj e =
      let same =
        ap (λ (t : Bytes). drop 1 t)
          (sym (drop-append path _)
            ∙ ap (drop (length path)) (sym (numbered-whole i hi) ∙ e ∙ numbered_gz-whole j hj)
            ∙ drop-append path _) in
      let dot =
        All-tail IsDigit (decimal j) (codes ".gz") (subst (All IsDigit) same (decimal-IsDigit i)) in
      absurd (omega (arith, dot.0.0))
