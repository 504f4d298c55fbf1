-- ===== src/Prelude/Cstr.antt =====
-- C strings as the list of their bytes before the terminating NUL, and the tests of string.h,
-- strings.h and ctype.h (C locale) that the program uses.
use Prim.Native.Char.{code}
use Prim.Native.Nat.{ℕ, ◌+◌}
use Prim.Native.String.{String}
use mathlib.Core.Path.{◌≡◌}
use mathlib.Core.Logic.{◌↔◌}
use mathlib.Core.Bool.{Bool, true, false, ◌&&◌, ◌||◌}
use mathlib.Core.List.{List, [], ◌∷◌}
use mathlib.Core.Option.{Option, none, some}
use native.Mathlib.Omega.{arith}
use linux_process_analyzer.Prelude.Tests.{leb, ◌==◌, if◌then◌else◌}

abbrev pub Bytes : Type 0
Bytes = List ℕ

-- The bytes of an ASCII literal.
abbrev pub codes : String → Bytes
codes String.[] = []
codes (String.◌∷◌ c s) = code c ∷ codes s

-- strcmp(a, b) == 0
unfoldable pub str_eq : Bytes → Bytes → Bool
str_eq [] [] = true
str_eq (a ∷ as') (b ∷ bs) = a == b && str_eq as' bs
str_eq _ _ = false

pub str_eq_iff : (a b : Bytes) → (str_eq a b ≡ true) ↔ (a ≡ b)
unfolding str_eq
str_eq_iff (x ∷ a) (y ∷ b) = ground (arith, str_eq_iff a b)
str_eq_iff _ _ = ground arith

-- tolower
unfoldable pub to_lower : ℕ → ℕ
to_lower c = if leb b'A' c && leb c b'Z' then c + 32 else c

-- strcasecmp(a, b) == 0
unfoldable pub str_case_eq : Bytes → Bytes → Bool
unfolding to_lower
str_case_eq [] [] = true
str_case_eq (a ∷ as') (b ∷ bs) = to_lower a == to_lower b && str_case_eq as' bs
str_case_eq _ _ = false

-- isspace
unfoldable pub is_space : ℕ → Bool
is_space c = c == 32 || leb 9 c && leb c 13

-- isdigit
unfoldable pub is_digit : ℕ → Bool
is_digit c = leb 48 c && leb c 57

-- while (isspace(*s)) s++
unfoldable pub skip_space : Bytes → Bytes
unfolding is_space
skip_space [] = []
skip_space (c ∷ cs) = if is_space c then skip_space cs else c ∷ cs

-- while (end > s && isspace(end[-1])) end--
unfoldable pub trim_end : Bytes → Bytes
unfolding is_space
trim_end [] = []
trim_end (c ∷ cs) =
    let rest = trim_end cs in
    elim rest [ [] ↦ if is_space c then [] else c ∷ [] | d ∷ ds ↦ c ∷ d ∷ ds ]

-- strchr and strrchr: the bytes before the first or last `c`, and those after it.
unfoldable pub split_first : ℕ → Bytes → Option (Bytes × Bytes)
split_first c [] = none
split_first c (x ∷ xs) =
    let rest = split_first c xs in
    if x == c then some ([], xs) else elim rest [ none ↦ none | some (a, b) ↦ some (x ∷ a, b) ]

unfoldable pub split_last : ℕ → Bytes → Option (Bytes × Bytes)
split_last c [] = none
split_last c (x ∷ xs) = elim (split_last c xs) [
  | none ↦ if x == c then some ([], xs) else none
  | some (a, b) ↦ some (x ∷ a, b)
]
