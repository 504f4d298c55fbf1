-- ===== src/Args/Whitelist/Members.antt =====
-- Which PIDs and names an accepted filter list adds.
use linux_process_analyzer.Prelude.{
  ℕ, ◌≡◌, refl, ◌∙◌, sym, ap, inl, inr, Bool, true, false, Option, none, some, List, [], ◌∷◌, arith,
  ◌==◌, ◌||◌, Bool-cases, Option-cases,
}
use linux_process_analyzer.Prelude.Cstr.{Bytes, str_eq, str_eq_iff}
use linux_process_analyzer.Prelude.Strto.{is_nil}
use linux_process_analyzer.Args.{ParseArgsStatus, parse_args_error, parse_args_ok, PidWhitelist}
use linux_process_analyzer.Args.Numbers.{parse_pid_token}
use linux_process_analyzer.Args.Whitelist.{
  has_pid, has_comm, FilterParseType, filter_parse_pid, filter_parse_comm, append_filter_pid,
  append_filter_comm, append_token, and_then, parse_filter_pid_list,
}
use linux_process_analyzer.Args.Whitelist.Split.{
  append_tokens, tokens, parse_filter_pid_list-eq-append_tokens,
}
use linux_process_analyzer.Args.Whitelist.Distinct.{has_pid-snoc, has_comm-snoc}

abbrev pub is_pid : ℕ → Option ℕ → Bool
is_pid q none = false
is_pid q (some p) = p == q

abbrev pub names_pid : ℕ → List Bytes → Bool
names_pid q [] = false
names_pid q (t ∷ ts) = is_pid q (parse_pid_token t) || names_pid q ts

-- The PIDs and names of `v` are those of `w` and those that the tokens name.
abbrev pub Added : FilterParseType → List Bytes → PidWhitelist → PidWhitelist → Type 0
Added filter_parse_pid ts w v =
    (v.filter_comms ≡ w.filter_comms)
    × ((q : ℕ) → has_pid q v.filter_pids ≡ (has_pid q w.filter_pids || names_pid q ts))
Added filter_parse_comm ts w v =
    (v.filter_pids ≡ w.filter_pids)
    × ((c : Bytes) → has_comm c v.filter_comms ≡ (has_comm c w.filter_comms || has_comm c ts))

or_assoc : (a b c : Bool) → (a || b || c) ≡ ((a || b) || c)
or_assoc a b c = ground arith

or_false : (a : Bool) → (a || false) ≡ a
or_false a = ground arith

has_pid-eq : (p q : ℕ) (ps : List ℕ) → (p == q) ≡ true → has_pid p ps ≡ has_pid q ps
has_pid-eq p q ps h = ap (λ (x : ℕ). has_pid x ps) (ground arith)

has_comm-eq : (c d : Bytes) (cs : List Bytes) → str_eq c d ≡ true → has_comm c cs ≡ has_comm d cs
has_comm-eq c d cs h = ap (λ (x : Bytes). has_comm x cs) ((str_eq_iff c d).0 h)

module _ (alloc : ℕ → Bool) where
  append_filter_pid-members :
      (w v : PidWhitelist) (p q : ℕ)
      → append_filter_pid alloc w p ≡ (parse_args_ok, v)
      → (v.filter_comms ≡ w.filter_comms)
        × (has_pid q v.filter_pids ≡ (has_pid q w.filter_pids || p == q))
  unfolding append_filter_pid
  append_filter_pid-members w v p q h =
      ground (arith, has_pid-snoc q p w.filter_pids, has_pid-eq p q w.filter_pids)

  append_filter_comm-members :
      (w v : PidWhitelist) (c d : Bytes)
      → append_filter_comm alloc w c ≡ (parse_args_ok, v)
      → (v.filter_pids ≡ w.filter_pids)
        × (has_comm d v.filter_comms ≡ (has_comm d w.filter_comms || str_eq c d))
  unfolding append_filter_comm
  append_filter_comm-members w v c d h =
      ground (arith, has_comm-snoc d c w.filter_comms, has_comm-eq c d w.filter_comms)

  append_token-Added :
      (type : FilterParseType) (w v : PidWhitelist) (t : Bytes)
      → append_token alloc type w t ≡ (parse_args_ok, v)
      → Added type (t ∷ []) w v
  unfolding append_token has_comm
  append_token-Added filter_parse_comm w v t h =
      let m = append_filter_comm-members w v t in
      ((m t h).0, λ c. (m c h).1 ∙ ap (λ b. has_comm c w.filter_comms || b) (sym (or_false _)))
  append_token-Added filter_parse_pid w v t h = elim (Option-cases (parse_pid_token t)) [
    | inl refused ↦ ground (arith, refused)
    | inr (p, accepted) ↦
        let h' = rw accepted at h in
        let m = append_filter_pid-members w v p in
        (
          (m p h').0,
          λ q. (m q h').1 ∙ rw accepted (ap (λ b. has_pid q w.filter_pids || b) (sym (or_false _))),
        )
  ]

  Added-cons :
      (type : FilterParseType) (t : Bytes) (ts : List Bytes) (w u v : PidWhitelist)
      → Added type (t ∷ []) w u
      → Added type ts u v
      → Added type (t ∷ ts) w v
  unfolding has_comm
  Added-cons filter_parse_pid t ts w u v a b = (b.0 ∙ a.0, λ q. ground (arith, a.1 q, b.1 q))
  Added-cons filter_parse_comm t ts w u v a b = (b.0 ∙ a.0, λ c. ground (arith, a.1 c, b.1 c))

  Added-nil : (type : FilterParseType) (w : PidWhitelist) → Added type [] w w
  unfolding has_comm
  Added-nil filter_parse_pid w = (refl, λ q. sym (or_false _))
  Added-nil filter_parse_comm w = (refl, λ c. sym (or_false _))

  and_then-ok :
      (r : ParseArgsStatus × PidWhitelist) (k : PidWhitelist → ParseArgsStatus × PidWhitelist)
      (v : PidWhitelist)
      → and_then r k ≡ (parse_args_ok, v)
      → (u : PidWhitelist) × (r ≡ (parse_args_ok, u)) × (k u ≡ (parse_args_ok, v))
  and_then-ok (parse_args_error, w) k v h = ground arith
  and_then-ok (parse_args_ok, w) k v h = (w, refl, h)

  append_tokens-Added :
      (type : FilterParseType) (ts : List Bytes) (w v : PidWhitelist)
      → append_tokens alloc type w ts ≡ (parse_args_ok, v)
      → Added type ts w v
  unfolding append_tokens
  append_tokens-Added type [] w v h = rw (← ap (λ r. r.1) h) (Added-nil type w)
  append_tokens-Added type (t ∷ ts) w v h = elim (Bool-cases (is_nil t)) [
    | inl empty ↦ absurd (ground arith)
    | inr token ↦
        let (u, first, later) = and_then-ok (append_token alloc type w t) _ v (rw token at h) in
        Added-cons type t ts w u v (append_token-Added type w u t first)
          (append_tokens-Added type ts u v later)
  ]

  -- After a list is accepted, the filter of its kind holds what it held before and what the
  -- tokens of the argument name, nothing else, and the other filter is as it was.
  pub parse_filter_pid_list-Added :
      (type : FilterParseType) (arg : Bytes) (w v : PidWhitelist)
      → parse_filter_pid_list alloc type arg w ≡ (parse_args_ok, v)
      → Added type (tokens arg) w v
  parse_filter_pid_list-Added type arg w v h =
      append_tokens-Added type (tokens arg) w v
        (sym (parse_filter_pid_list-eq-append_tokens alloc type arg w) ∙ h)
