-- ===== src/Snapshot/Files.antt =====
-- The directory of the output files: what rename, unlink, fopen with "a" and stat do to it.
use linux_process_analyzer.Prelude.{
  ◌≡◌, ◌≢◌, refl, sym, ap, subst, ◌∙◌, inl, inr, Bool, true, false, Option, none, some, length,
  if◌then◌else◌, if-true, if-false, if_cases, Bool-cases,
}
use linux_process_analyzer.Prelude.Int.{ℤ, pos, negsuc}
use linux_process_analyzer.Prelude.Cstr.{Bytes, str_eq, str_eq_iff}

-- The content of each regular file.
abbrev pub Files : Type 0
Files = Bytes → Option Bytes

pub put : Bytes → Option Bytes → Files → Files
put p content files q = if str_eq p q then content else files q

unfoldable pub unlink : Bytes → Files → Files
unfolding put
unlink p files = put p none files

pub data Renamed : Type 0 where
  renamed no_entry other_error : Renamed

move : Bytes → Bytes → Files → Option Bytes → Renamed × Files
move old new files none = (no_entry, files)
move old new files (some content) = (renamed, put new (some content) (put old none files))

-- `faults` tells the renames that fail for another reason than a missing file.
pub rename : (Bytes → Bytes → Bool) → Bytes → Bytes → Files → Renamed × Files
unfolding move put
rename faults old new files =
    if faults old new
    then (other_error, files)
    else if str_eq old new
    then (renamed, files)
    else move old new files (files old)

-- st_size, or -1 where stat fails.
abbrev pub size_of : Option Bytes → ℤ
size_of none = negsuc 0
size_of (some content) = pos (length content)

str_eq-ne : (a b : Bytes) → a ≢ b → str_eq a b ≡ false
str_eq-ne a b h = elim (Bool-cases (str_eq a b)) [
  | inl same ↦ absurd (h ((str_eq_iff a b).0 same))
  | inr differ ↦ differ
]

pub str_eq_self : (a : Bytes) → str_eq a a ≡ true
str_eq_self a = (str_eq_iff a a).1 refl

pub put_self : (p : Bytes) (c : Option Bytes) (files : Files) → put p c files p ≡ c
unfolding put
put_self p c files = if-true _ _ (str_eq_self p)

pub put-ne : (p q : Bytes) (c : Option Bytes) (files : Files) → p ≢ q → put p c files q ≡ files q
unfolding put
put-ne p q c files h = if-false _ _ (str_eq-ne p q h)

-- A rename without a fault onto a name that is free moves the file, if there is one, and leaves
-- the old name free.
pub record Moves (old new : Bytes) (before after : Files) : Type 0 where
  pub to : after new ≡ before old
  pub from : after old ≡ none
  pub others : (q : Bytes) → q ≢ old → q ≢ new → after q ≡ before q

module _ (faults : Bytes → Bytes → Bool) where
  move-Moves :
      (old new : Bytes) (files : Files) (o : Option Bytes)
      → files old ≡ o
      → files new ≡ none
      → old ≢ new
      → Moves old new files (move old new files o).1
  unfolding move
  move-Moves old new files none e free h = record {
    to = free ∙ sym e;
    from = e;
    others = λ q n m. refl;
  }
  move-Moves old new files (some content) e free h = record {
    to = put_self new (some content) _ ∙ sym e;
    from = put-ne new old (some content) _ (λ x. h (sym x)) ∙ put_self old none files;
    others = λ q n m.
        put-ne new q (some content) _ (λ x. m (sym x)) ∙ put-ne old q none files (λ x. n (sym x));
  }

  pub rename-Moves :
      (old new : Bytes) (files : Files)
      → faults old new ≡ false
      → files new ≡ none
      → old ≢ new
      → Moves old new files (rename faults old new files).1
  unfolding rename
  rename-Moves old new files ok free h =
      subst (λ (r : Renamed × Files). Moves old new files r.1)
        (sym (if-false _ _ ok ∙ if-false _ _ (str_eq-ne old new h)))
        (move-Moves old new files (files old) refl free h)

  pub rename-fault :
      (old new : Bytes) (files : Files)
      → faults old new ≡ true
      → rename faults old new files ≡ (other_error, files)
  unfolding rename
  rename-fault old new files fault = if-true _ _ fault

  pub rename-missing :
      (old new : Bytes) (files : Files)
      → faults old new ≡ false
      → files old ≡ none
      → old ≢ new
      → rename faults old new files ≡ (no_entry, files)
  unfolding rename
  rename-missing old new files ok e h =
      if-false _ _ ok
      ∙ if-false _ _ (str_eq-ne old new h)
      ∙ ap (λ (o : Option Bytes). move old new files o) e

  move-frees :
      (old new : Bytes) (files : Files) (o : Option Bytes)
      → files old ≡ o
      → old ≢ new
      → (move old new files o).1 old ≡ none
  unfolding move
  move-frees old new files none e h = e
  move-frees old new files (some content) e h =
      put-ne new old (some content) _ (λ x. h (sym x)) ∙ put_self old none files

  -- Without a fault the old name is free afterwards.
  pub rename-frees :
      (old new : Bytes) (files : Files)
      → faults old new ≡ false
      → old ≢ new
      → (rename faults old new files).1 old ≡ none
  unfolding rename
  rename-frees old new files ok h =
      subst (λ (r : Renamed × Files). r.1 old ≡ none)
        (sym (if-false _ _ ok ∙ if-false _ _ (str_eq-ne old new h)))
        (move-frees old new files (files old) refl h)

  move-others :
      (old new q : Bytes) (files : Files) (o : Option Bytes)
      → q ≢ old
      → q ≢ new
      → (move old new files o).1 q ≡ files q
  unfolding move
  move-others old new q files none n m = refl
  move-others old new q files (some content) n m =
      put-ne new q (some content) _ (λ e. m (sym e)) ∙ put-ne old q none files (λ e. n (sym e))

  -- Whether it fails or not, a rename changes no third file.
  pub rename-others :
      (old new q : Bytes) (files : Files)
      → q ≢ old
      → q ≢ new
      → (rename faults old new files).1 q ≡ files q
  unfolding rename
  rename-others old new q files n m =
      if_cases (λ (r : Renamed × Files). r.1 q ≡ files q) (faults old new) (other_error, files) _
        (λ e. refl)
        (λ e.
          if_cases (λ (r : Renamed × Files). r.1 q ≡ files q) (str_eq old new) (renamed, files)
            (move old new files (files old)) (λ e'. refl)
            (λ e'. move-others old new q files (files old) n m))

  -- A rename of a file that is there, without a fault, replaces what has the new name.
  pub rename-onto :
      (old new : Bytes) (files : Files) (content : Bytes)
      → faults old new ≡ false
      → files old ≡ some content
      → old ≢ new
      → rename faults old new files ≡ (renamed, put new (some content) (put old none files))
  unfolding rename
  rename-onto old new files content ok e h =
      if-false _ _ ok
      ∙ if-false _ _ (str_eq-ne old new h)
      ∙ ap (λ (o : Option Bytes). move old new files o) e
