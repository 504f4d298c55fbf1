-- ===== src/Tests/Models.antt =====
-- Concrete instances of what code/process_stats and code/config call.
use mathlib.Core.List.{Perm}
use mathlib.Core.List.Perm
use linux_process_analyzer.Compression.{Gzip}
use linux_process_analyzer.Prelude.{
  ◌/◌, ◌≡◌, ◌≢◌, refl, inl, inr, Bool, true, false, not, ◌&&◌, Option, none, some, List, [], ◌∷◌,
  ◌++◌, map, arith, length, All, if◌then◌else◌, Bool-cases, if-true, if-false, ◌∙◌,
}
use linux_process_analyzer.Prelude.Int.{ℤ, pos, pos_part, ◌+ℤ◌, ◌-ℤ◌, ◌*ℤ◌, ltb_ℤ}
use linux_process_analyzer.Prelude.Cstr.{Bytes, str_eq}
use linux_process_analyzer.Prelude.Strto.{decimal_ℤ}
use linux_process_analyzer.Config.Directory.{FileSystem}
use linux_process_analyzer.Config.Directory.Prefixes.{Makes}
use linux_process_analyzer.Stats.{Float, ProcessState, ProcessTable, IsTable, lookup_pid, replace}
use linux_process_analyzer.Snapshot.Files.{str_eq_self}
use linux_process_analyzer.Stats.Order.{Comparator}
use linux_process_analyzer.Stats.Order.Sorted.{IsOrder, Ordered}
use linux_process_analyzer.Stats.Report.{Qsort}
use linux_process_analyzer.Stats.Report.Top.{IsQsort}

-- Whole numbers in place of doubles.
abbrev pub whole_numbers : Float ℤ
whole_numbers = record {
  of_ℕ = pos;
  of_ℤ = λ z. z;
  add = ◌+ℤ◌;
  sub = ◌-ℤ◌;
  mul = ◌*ℤ◌;
  div = λ a b. pos (pos_part a / pos_part b);
  lt = ltb_ℤ;
  le = λ a b. not (ltb_ℤ b a);
  eq = λ a b. not (ltb_ℤ a b) && not (ltb_ℤ b a);
  show2 = decimal_ℤ;
  show3 = decimal_ℤ;
}

abbrev pub list_table : ProcessTable ℤ (List (ProcessState ℤ))
list_table = record {
  empty = [];
  find = λ t k. lookup_pid k t;
  add = λ t p. t ++ p ∷ [];
  store = λ t p. map (replace p) t;
  iter = λ t. t;
  count = length;
}

pub list_table-IsTable : IsTable list_table
list_table-IsTable = record {
  iter-empty = refl;
  find-iter = λ t k. refl;
  iter-add = λ t p h. refl;
  iter-store = λ t p. refl;
  count-iter = λ t. refl;
}

abbrev goes_behind : ℤ → Bool
goes_behind z = not (ltb_ℤ z (pos 1)) && not (ltb_ℤ (pos 1) z)

module _ {D : Type 0} (c : Comparator D) where
  abbrev insert : ProcessState D → List (ProcessState D) → List (ProcessState D)
  insert x [] = x ∷ []
  insert x (y ∷ ys) = let rest = insert x ys in if goes_behind (c x y) then y ∷ rest else x ∷ y ∷ ys

  abbrev insertion_sort : List (ProcessState D) → List (ProcessState D)
  insertion_sort [] = []
  insertion_sort (x ∷ xs) = insert x (insertion_sort xs)

  insert-Perm : (x : ProcessState D) (ys : List (ProcessState D)) → Perm (insert x ys) (x ∷ ys)
  insert-Perm x [] = Perm.refl (x ∷ [])
  insert-Perm x (y ∷ ys) = elim (Bool-cases (goes_behind (c x y))) [
    | inl behind ↦ rw behind (Perm.trans (Perm.cons y (insert-Perm x ys)) (Perm.swap x y ys))
    | inr before ↦ rw before (Perm.refl (x ∷ y ∷ ys))
  ]

  insertion_sort-Perm : (l : List (ProcessState D)) → Perm (insertion_sort l) l
  insertion_sort-Perm [] = Perm.refl []
  insertion_sort-Perm (x ∷ xs) =
      Perm.trans (insert-Perm x (insertion_sort xs)) (Perm.cons x (insertion_sort-Perm xs))

  insert-All :
      (P : ProcessState D → Type 0) (x : ProcessState D) (ys : List (ProcessState D))
      → P x
      → All P ys
      → All P (insert x ys)
  insert-All P x [] h k = (h, tt)
  insert-All P x (y ∷ ys) h k = elim (Bool-cases (goes_behind (c x y))) [
    | inl behind ↦ rw behind (k.0, insert-All P x ys h k.1)
    | inr before ↦ rw before (h, k)
  ]

  All-trans :
      (o : IsOrder c) (x y : ProcessState D) (ys : List (ProcessState D))
      → c x y ≢ pos 1
      → All (λ z. c y z ≢ pos 1) ys
      → All (λ z. c x z ≢ pos 1) ys
  All-trans o x y [] h k = tt
  All-trans o x y (z ∷ zs) h k = (o.trans x y z h k.0, All-trans o x y zs h k.1)

  goes_behind-eq : (z : ℤ) → goes_behind z ≡ true → z ≡ pos 1
  goes_behind-eq z h = ground arith

  goes_behind-ne : (z : ℤ) → goes_behind z ≡ false → z ≢ pos 1
  goes_behind-ne z h = ground arith

  insert-Ordered :
      (o : IsOrder c) (x : ProcessState D) (ys : List (ProcessState D))
      → Ordered c ys
      → Ordered c (insert x ys)
  insert-Ordered o x [] h = (tt, tt)
  insert-Ordered o x (y ∷ ys) h = elim (Bool-cases (goes_behind (c x y))) [
    | inl behind ↦ rw behind (
      insert-All (λ z. c y z ≢ pos 1) x ys (o.total x y (goes_behind-eq (c x y) behind)) h.0,
      insert-Ordered o x ys h.1,
    )
    | inr before ↦
        let ne = goes_behind-ne (c x y) before in rw before ((ne, All-trans o x y ys ne h.0), h)
  ]

  insertion_sort-Ordered : IsOrder c → (l : List (ProcessState D)) → Ordered c (insertion_sort l)
  insertion_sort-Ordered o [] = tt
  insertion_sort-Ordered o (x ∷ xs) =
      insert-Ordered o x (insertion_sort xs) (insertion_sort-Ordered o xs)

abbrev pub sort : Qsort ℤ
sort c l = insertion_sort c l

pub sort-IsQsort : IsQsort sort
sort-IsQsort = record {
  permutes = λ c l. insertion_sort-Perm c l;
  sorts = λ c o l. insertion_sort-Ordered c o l;
}

abbrev holds : Bytes → List Bytes → Bool
holds p [] = false
holds p (d ∷ ds) = if str_eq d p then true else holds p ds

-- A file system that has only directories, the list of their paths, and where all may be written.
abbrev pub directories : FileSystem (List Bytes)
directories = record {
  stat_dir = λ s p. if holds p s then some true else none;
  mkdir = λ s p. (true, p ∷ s);
  create = λ s p. (true, s);
  unlink = λ s p. s;
}

abbrev pub IsIn : List Bytes → Bytes → Type 0
IsIn s p = holds p s ≡ true

pub directories-Makes : Makes directories IsIn
directories-Makes = record {
  made = λ s p h. if-true true (holds p s) (str_eq_self p);
  kept = λ s p q h. elim (Bool-cases (str_eq p q)) [
    | inl same ↦ if-true true (holds q s) same
    | inr other ↦ if-false true (holds q s) other ∙ h
  ];
}

-- A zlib that puts one byte in front, and a file system without failures.
abbrev pub zlib : Gzip
zlib = record {
  fopen = λ path. true;
  fread = λ content. content;
  gz_open = λ path. true;
  gz_write = λ read. true;
  gz_close = λ ok read. (true, b'z' ∷ read);
  unlinks = λ path. true;
}

abbrev pub unzip : Bytes → Option Bytes
unzip [] = none
unzip (c ∷ read) = some read
