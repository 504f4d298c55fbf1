-- ===== src/Args/Whitelist/Split.antt =====
-- The pointer loop of `parse_filter_pid_list` against a split of the argument at its commas.
use linux_process_analyzer.Prelude.{
  ℕ, zero, suc, ◌≤◌, ◌<◌, ◌≡◌, refl, sym, ap, ◌∙◌, inl, inr, Bool, true, false, List, [], ◌∷◌, map,
  arith, ◌==◌, if◌then◌else◌, length, Bool-cases,
}
use linux_process_analyzer.Prelude.Cstr.{Bytes, is_space, skip_space, trim_end}
use linux_process_analyzer.Prelude.Strto.{is_nil}
use linux_process_analyzer.Args.{ParseArgsStatus, parse_args_error, parse_args_ok, PidWhitelist}
use linux_process_analyzer.Args.Whitelist.{
  FilterParseType, append_token, segment, segment_end, token_of, and_then, parse_segments,
  parse_filter_pid_list,
}

abbrev on_head : ℕ → List Bytes → List Bytes
on_head c [] = (c ∷ []) ∷ []
on_head c (x ∷ xs) = (c ∷ x) ∷ xs

-- The pieces between the commas, empty ones included.
unfoldable pub split_commas : Bytes → List Bytes
split_commas [] = [] ∷ []
split_commas (c ∷ cs) = if c == b',' then [] ∷ split_commas cs else on_head c (split_commas cs)

-- A piece without the white space at its two ends.
abbrev pub trimmed : Bytes → Bytes
trimmed s = trim_end (skip_space s)

abbrev pub tokens : Bytes → List Bytes
tokens s = map trimmed (split_commas s)

abbrev behind : Bytes → List Bytes
behind [] = []
behind (c ∷ cs) = split_commas cs

split_commas-segment : (s : Bytes) → split_commas s ≡ segment s ∷ behind (segment_end s)
unfolding split_commas segment segment_end
split_commas-segment [] = refl
split_commas-segment (c ∷ cs) = elim (Bool-cases (c == b',')) [
  | inl comma ↦ rw comma refl
  | inr other ↦ rw other (rw (split_commas-segment cs) refl)
]

length-segment_end : (s : Bytes) → length (segment_end s) ≤ length s
unfolding segment_end
length-segment_end [] = omega arith
length-segment_end (c ∷ cs) = ground (arith, length-segment_end cs)

length-skip_space : (s : Bytes) → length (skip_space s) ≤ length s
unfolding skip_space
length-skip_space [] = omega arith
length-skip_space (c ∷ cs) = ground (arith, length-skip_space cs)

space_ne_comma : (c : ℕ) → is_space c ≡ true → (c == b',') ≡ false
unfolding is_space
space_ne_comma c h = ground arith

trimmed-space : (c : ℕ) (s : Bytes) → is_space c ≡ true → trimmed (c ∷ s) ≡ trimmed s
trimmed-space c s h = unfold skip_space in rw h refl

skip_space-space : (c : ℕ) (s : Bytes) → is_space c ≡ true → skip_space (c ∷ s) ≡ skip_space s
unfolding skip_space
skip_space-space c s h = rw h refl

skip_space-other : (c : ℕ) (s : Bytes) → is_space c ≡ false → skip_space (c ∷ s) ≡ c ∷ s
unfolding skip_space
skip_space-other c s h = rw h refl

tokens-space : (c : ℕ) (s : Bytes) → is_space c ≡ true → tokens (c ∷ s) ≡ tokens s
unfolding split_commas
tokens-space c s h =
    rw (space_ne_comma c h, split_commas-segment s) (rw (trimmed-space c (segment s) h) refl)

-- White space in front does not change the tokens.
tokens-skip_space : (s : Bytes) → tokens (skip_space s) ≡ tokens s
tokens-skip_space [] = unfold skip_space in refl
tokens-skip_space (c ∷ cs) = elim (Bool-cases (is_space c)) [
  | inl space ↦
      ap tokens (skip_space-space c cs space) ∙ tokens-skip_space cs ∙ sym (tokens-space c cs space)
  | inr other ↦ ap tokens (skip_space-other c cs other)
]

module _ (alloc : ℕ → Bool) (type : FilterParseType) where
  -- The tokens one by one: an empty or refused token ends the work, and what was added stays.
  unfoldable pub append_tokens : PidWhitelist → List Bytes → ParseArgsStatus × PidWhitelist
  append_tokens w [] = (parse_args_ok, w)
  append_tokens w (t ∷ ts) =
      if is_nil t
      then (parse_args_error, w)
      else and_then (append_token alloc type w t) (λ w'. append_tokens w' ts)

  and_then-cong :
      (r : ParseArgsStatus × PidWhitelist) (k l : PidWhitelist → ParseArgsStatus × PidWhitelist)
      → ((w : PidWhitelist) → k w ≡ l w)
      → and_then r k ≡ and_then r l
  and_then-cong (parse_args_error, w) k l h = refl
  and_then-cong (parse_args_ok, w) k l h = h w

  append_tokens-nil : (w : PidWhitelist) → append_tokens w (tokens []) ≡ (parse_args_error, w)
  unfolding append_tokens split_commas skip_space trim_end
  append_tokens-nil w = refl

  next_segment :
      (fuel : ℕ) (w : PidWhitelist) (next : Bytes)
      → parse_segments alloc type fuel w next ≡ append_tokens w (tokens next)
      → (if is_nil next then (parse_args_error, w) else parse_segments alloc type fuel w next)
        ≡ append_tokens w (tokens next)
  next_segment fuel w [] h = sym (append_tokens-nil w)
  next_segment fuel w (c ∷ cs) h = h

  rest_segments :
      (fuel : ℕ) (end : Bytes)
      → ((w : PidWhitelist) (s : Bytes)
          → length s < fuel
          → parse_segments alloc type fuel w s ≡ append_tokens w (tokens s))
      → length end ≤ fuel
      → (w : PidWhitelist)
      → (elim end [
        | [] ↦ (parse_args_ok, w)
        | comma ∷ cs ↦
            let next = skip_space cs in
            let rest = parse_segments alloc type fuel w next in
            if is_nil next then (parse_args_error, w) else rest
      ])
        ≡ append_tokens w (map trimmed (behind end))
  rest_segments fuel [] ih h w = unfold append_tokens in refl
  rest_segments fuel (c ∷ cs) ih h w =
      next_segment fuel w (skip_space cs)
        (ih w (skip_space cs) (omega (arith, length-skip_space cs)))
      ∙ rw (tokens-skip_space cs) refl

  parse_segments_step :
      (fuel : ℕ)
      → ((w : PidWhitelist) (s : Bytes)
          → length s < fuel
          → parse_segments alloc type fuel w s ≡ append_tokens w (tokens s))
      → (w : PidWhitelist) (s : Bytes) → length s < suc fuel
      → parse_segments alloc type (suc fuel) w s ≡ append_tokens w (tokens s)
  unfolding parse_segments append_tokens token_of trim_end
  parse_segments_step fuel ih w s h = rw (split_commas-segment s) (
      ap (λ r. if is_nil (trimmed (segment s)) then (parse_args_error, w) else r)
        (and_then-cong (append_token alloc type w (trimmed (segment s))) _ _
          (rest_segments fuel (segment_end s) ih (omega (arith, length-segment_end s)))))

  parse_segments-eq-append_tokens :
      (fuel : ℕ) (w : PidWhitelist) (s : Bytes)
      → length s < fuel
      → parse_segments alloc type fuel w s ≡ append_tokens w (tokens s)
  parse_segments-eq-append_tokens zero w s h = absurd (omega arith)
  parse_segments-eq-append_tokens (suc fuel) w s h =
      parse_segments_step fuel (parse_segments-eq-append_tokens fuel) w s h

  -- The list parser has the status and the filters of going through the comma-separated pieces of
  -- its argument, each with the white space at both ends removed, from the left: an empty or
  -- refused piece is an error, and what was added before it stays.
  pub parse_filter_pid_list-eq-append_tokens :
      (arg : Bytes) (w : PidWhitelist)
      → parse_filter_pid_list alloc type arg w ≡ append_tokens w (tokens arg)
  unfolding parse_filter_pid_list
  parse_filter_pid_list-eq-append_tokens arg w =
      next_segment (suc (length (skip_space arg))) w (skip_space arg) (
        parse_segments-eq-append_tokens (suc (length (skip_space arg))) w (skip_space arg)
          (omega arith))
      ∙ rw (tokens-skip_space arg) refl
