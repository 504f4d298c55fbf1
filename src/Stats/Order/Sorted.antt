-- ===== src/Stats/Order/Sorted.antt =====
-- The comparators are orders in the sense that qsort wants.
use linux_process_analyzer.Prelude.{
  ℕ, zero, suc, ◌≡◌, ◌≢◌, Bool, true, false, List, [], ◌∷◌, All, arith, ltb, take, drop,
}
use linux_process_analyzer.Prelude.Int.{pos, ltb_ℤ}
use linux_process_analyzer.Stats.{ProcessState}
use linux_process_analyzer.Stats.Order.{Comparator, descending}

-- Where the comparator does not ask for an exchange, `a` may stand before `b`.
pub record IsOrder {D : Type 0} (c : Comparator D) : Type 0 where
  pub total : (a b : ProcessState D) → c a b ≡ pos 1 → c b a ≢ pos 1
  pub trans : (a b d : ProcessState D) → c a b ≢ pos 1 → c b d ≢ pos 1 → c a d ≢ pos 1

module _ {D : Type 0} where
  abbrev pub Ordered : Comparator D → List (ProcessState D) → Type 0
  Ordered c [] = Unit {0}
  Ordered c (x ∷ xs) = All (λ y. c x y ≢ pos 1) xs × Ordered c xs

-- A strict order on keys in which "not less" is transitive. For doubles this holds where no value
-- is a NaN.
pub record IsWeak {K : Type 0} (less : K → K → Bool) : Type 0 where
  pub asym : (a b : K) → less a b ≡ true → less b a ≡ false
  pub not_less_trans : (a b d : K) → less a b ≡ false → less b d ≡ false → less a d ≡ false

pub ltb-IsWeak : IsWeak ltb
ltb-IsWeak = record { asym = λ a b h. ground arith; not_less_trans = λ a b d h k. ground arith }

pub ltb_ℤ-IsWeak : IsWeak ltb_ℤ
ltb_ℤ-IsWeak = record { asym = λ a b h. ground arith; not_less_trans = λ a b d h k. ground arith }

pub descending-eq_one :
    {K : Type 0} (less : K → K → Bool) (a b : K) → descending less a b ≢ pos 1 → less a b ≡ false
unfolding descending
descending-eq_one less a b h = ground arith

descending-ne_one :
    {K : Type 0} (less : K → K → Bool) (a b : K) → less a b ≡ false → descending less a b ≢ pos 1
unfolding descending
descending-ne_one less a b h = ground arith

descending-less :
    {K : Type 0} (less : K → K → Bool) (a b : K) → descending less a b ≡ pos 1 → less a b ≡ true
unfolding descending
descending-less less a b h = ground arith

module _ {D K : Type 0} (less : K → K → Bool) (weak : IsWeak less) (key : ProcessState D → K) where
  pub by-IsOrder : IsOrder (λ a b. descending less (key a) (key b))
  by-IsOrder = record {
    total = λ a b h.
        descending-ne_one less (key b) (key a)
          (weak.asym (key a) (key b) (descending-less less (key a) (key b) h));
    trans = λ a b d h k. descending-ne_one less (key a) (key d) (
        weak.not_less_trans (key a) (key b) (key d) (descending-eq_one less (key a) (key b) h)
          (descending-eq_one less (key b) (key d) k));
  }

module _ {D : Type 0} where
  All-drop :
      (P : ProcessState D → Type 0) (n : ℕ) (xs : List (ProcessState D))
      → All P xs
      → All P (drop n xs)
  All-drop P zero xs h = h
  All-drop P (suc n) [] h = h
  All-drop P (suc n) (x ∷ xs) h = All-drop P n xs h.1

  -- Of an ordered list, what is cut off in front may stand before all that is left.
  pub Ordered-split :
      (c : Comparator D) (n : ℕ) (xs : List (ProcessState D))
      → Ordered c xs
      → All (λ a. All (λ b. c a b ≢ pos 1) (drop n xs)) (take n xs)
  Ordered-split c zero xs h = tt
  Ordered-split c (suc n) [] h = tt
  Ordered-split c (suc n) (x ∷ xs) h = (All-drop _ n xs h.0, Ordered-split c n xs h.1)
