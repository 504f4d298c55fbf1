-- ===== src/Config/File/RoundTrip.antt =====
-- A configuration line with white space in every place that allows it.
use mathlib.Core.List.{append_assoc}
use linux_process_analyzer.Prelude.{
  All-append, ℕ, ◌≡◌, refl, sym, ap, ◌∙◌, inl, inr, true, false, some, [], ◌∷◌, ◌++◌, All, arith,
  ◌==◌, Bool-cases,
}
use linux_process_analyzer.Prelude.Cstr.{Bytes, is_space, skip_space, trim_end, split_first}
use linux_process_analyzer.Config.{Config, config_set_option}
use linux_process_analyzer.Config.File.{keep_first, trim, set_pair, parse_trimmed, parse_line}

abbrev pub IsBlank : Bytes → Type 0
IsBlank = All (λ c. is_space c ≡ true)

-- What may stand for a key: it begins with a byte that is no white space and no `#`, and has no
-- `=` and no white space at its end.
pub record IsKey (k : Bytes) : Type 0 where
  pub first : ℕ
  pub others : Bytes
  pub is_cons : k ≡ first ∷ others
  pub not_space : is_space first ≡ false
  pub not_comment : (first == b'#') ≡ false
  pub no_equals : All (λ c. (c == b'=') ≡ false) k
  pub no_trailing : trim_end k ≡ k

pub skip_space-blank : (b s : Bytes) → IsBlank b → skip_space (b ++ s) ≡ skip_space s
unfolding skip_space
skip_space-blank [] s h = refl
skip_space-blank (c ∷ b) s h = rw (h.0) (skip_space-blank b s h.1)

pub trim_end-blank : (b : Bytes) → IsBlank b → trim_end b ≡ []
unfolding trim_end
trim_end-blank [] h = refl
trim_end-blank (c ∷ b) h = rw (trim_end-blank b h.1) (rw h.0 refl)

trim_end-blank_behind : (s b : Bytes) → IsBlank b → trim_end (s ++ b) ≡ trim_end s
unfolding trim_end
trim_end-blank_behind [] b h = trim_end-blank b h
trim_end-blank_behind (c ∷ s) b h = rw (trim_end-blank_behind s b h) refl

-- A byte that is no white space stays, and so does all before it.
pub trim_end-cons : (c : ℕ) (s : Bytes) → is_space c ≡ false → trim_end (c ∷ s) ≡ c ∷ trim_end s
unfolding trim_end
trim_end-cons c s h = ground arith

trim_end-append :
    (s : Bytes) (c : ℕ) (t : Bytes)
    → is_space c ≡ false
    → trim_end (s ++ (c ∷ t)) ≡ s ++ (c ∷ trim_end t)
unfolding trim_end
trim_end-append [] c t h = ground arith
trim_end-append (d ∷ []) c t h = rw (trim_end-append [] c t h) refl
trim_end-append (d ∷ e ∷ s) c t h = rw (trim_end-append (e ∷ s) c t h) refl

skip_space-trim_end_step :
    (c : ℕ) (s : Bytes)
    → skip_space (trim_end s) ≡ trim_end (skip_space s)
    → skip_space (trim_end (c ∷ s)) ≡ trim_end (skip_space (c ∷ s))
unfolding skip_space trim_end
skip_space-trim_end_step c s ih = ground arith

skip_space-trim_end : (s : Bytes) → skip_space (trim_end s) ≡ trim_end (skip_space s)
skip_space-trim_end [] = unfold skip_space trim_end in refl
skip_space-trim_end (c ∷ s) = skip_space-trim_end_step c s (skip_space-trim_end s)

trim_end-trim_end : (s : Bytes) → trim_end (trim_end s) ≡ trim_end s
unfolding trim_end
trim_end-trim_end [] = refl
trim_end-trim_end (c ∷ s) = ground (arith, trim_end-trim_end s)

abbrev HasFirst : Bytes → Type 0
HasFirst [] = Unit {0}
HasFirst (c ∷ cs) = is_space c ≡ false

skip_space-HasFirst : (s : Bytes) → HasFirst (skip_space s)
unfolding skip_space
skip_space-HasFirst [] = tt
skip_space-HasFirst (c ∷ cs) = elim (Bool-cases (is_space c)) [
  | inl space ↦ rw space (skip_space-HasFirst cs)
  | inr other ↦ rw other other
]

keep_first-HasFirst : (s : Bytes) → HasFirst s → keep_first s ≡ trim_end s
keep_first-HasFirst [] h = unfold keep_first trim_end in refl
keep_first-HasFirst (c ∷ cs) h = unfold keep_first in sym (trim_end-cons c cs h)

-- The two loops of `trim` are independent of each other.
pub trim-eq : (s : Bytes) → trim s ≡ trim_end (skip_space s)
trim-eq s = unfold trim in keep_first-HasFirst (skip_space s) (skip_space-HasFirst s)

trim-trim_end : (s : Bytes) → trim (trim_end s) ≡ trim s
trim-trim_end s =
    trim-eq (trim_end s)
    ∙ ap trim_end (skip_space-trim_end s)
    ∙ trim_end-trim_end (skip_space s)
    ∙ sym (trim-eq s)

no_equals-blank : (b : Bytes) → IsBlank b → All (λ c. (c == b'=') ≡ false) b
unfolding is_space
no_equals-blank [] h = tt
no_equals-blank (c ∷ b) h = (ground arith, no_equals-blank b h.1)

pub split_first-absent :
    (mark : ℕ) (k w : Bytes)
    → All (λ c. (c == mark) ≡ false) k
    → split_first mark (k ++ (mark ∷ w)) ≡ some (k, w)
unfolding split_first
split_first-absent mark [] w h = ground arith
split_first-absent mark (c ∷ k) w h = rw (h.0, split_first-absent mark k w h.1) refl

equals_not_space : is_space b'=' ≡ false
unfolding is_space
equals_not_space = refl

module _ (k : Bytes) (key : IsKey k) where
  skip_space-key : (s : Bytes) → skip_space (k ++ s) ≡ k ++ s
  unfolding skip_space
  skip_space-key s = rw (key.is_cons, key.not_space) refl

  parse_trimmed-key :
      (c : Config) (s : Bytes) → parse_trimmed c (k ++ s) ≡ set_pair c (split_first b'=' (k ++ s))
  unfolding parse_trimmed
  parse_trimmed-key c s = rw key.is_cons (rw key.not_comment refl)

  trim-line :
      (before behind z : Bytes)
      → IsBlank before
      → trim (before ++ (k ++ (behind ++ (b'=' ∷ z)))) ≡ k ++ (behind ++ (b'=' ∷ trim_end z))
  trim-line before behind z h =
      trim-eq _
      ∙ ap trim_end (skip_space-blank before _ h ∙ skip_space-key _)
      ∙ ap trim_end (sym (append_assoc k behind (b'=' ∷ z)))
      ∙ trim_end-append (k ++ behind) b'=' z equals_not_space
      ∙ append_assoc k behind (b'=' ∷ trim_end z)

  trim-key : (behind : Bytes) → IsBlank behind → trim (k ++ behind) ≡ k
  trim-key behind h =
      trim-eq (k ++ behind)
      ∙ ap trim_end (skip_space-key behind)
      ∙ trim_end-blank_behind k behind h
      ∙ key.no_trailing

  -- A line that holds a key, `=` and any text, with white space before the key and behind it,
  -- sets the option of that key to the text with the white space at both its ends removed.
  pub parse_line-pair :
      (c : Config) (before behind z : Bytes)
      → IsBlank before
      → IsBlank behind
      → parse_line c (before ++ (k ++ (behind ++ (b'=' ∷ z)))) ≡ config_set_option c k (trim z)
  parse_line-pair c before behind z h g =
      unfold parse_line in
      ap (parse_trimmed c) (trim-line before behind z h)
      ∙ parse_trimmed-key c (behind ++ (b'=' ∷ trim_end z))
      ∙ ap (λ s. set_pair c (split_first b'=' s)) (sym (append_assoc k behind (b'=' ∷ trim_end z)))
      ∙ ap (set_pair c) (
          split_first-absent b'=' (k ++ behind) (trim_end z)
            (All-append _ k behind key.no_equals (no_equals-blank behind g)))
      ∙ (unfold set_pair in rw (trim-key behind g, trim-trim_end z) refl)
