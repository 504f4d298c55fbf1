-- ===== src/Config/Directory/Prefixes.antt =====
-- `mkdir_p` leaves the whole chain of directories behind.
use mathlib.Core.List.{append-nil, append_assoc}
use mathlib.Core.Path.{subst}
use linux_process_analyzer.Prelude.{
  ℕ, ◌≡◌, ◌≢◌, refl, inl, inr, true, [], ◌∷◌, ◌++◌, arith, ◌==◌, Bool-cases, ==_iff,
}
use linux_process_analyzer.Prelude.Cstr.{Bytes}
use linux_process_analyzer.Config.Directory.{
  FileSystem, returned, without_slash, mkdir_from, mkdir_tmp, mkdir_p,
}

-- What is relied on of mkdir: with its success the path exists, and it removes nothing.
pub record Makes {S : Type 0} (fs : FileSystem S) (Exists : S → Bytes → Type 0) : Type 0 where
  pub made : (s : S) (p : Bytes) → (fs.mkdir s p).0 ≡ true → Exists (fs.mkdir s p).1 p
  pub kept : (s : S) (p q : Bytes) → Exists s q → Exists (fs.mkdir s p).1 q

module _ {S : Type 0} (fs : FileSystem S) (Exists : S → Bytes → Type 0) (m : Makes fs Exists) where
  -- All that lies before a slash of `rest`, and the whole.
  abbrev Chain : Bytes → Bytes → S → Type 0
  Chain done rest t =
      Exists t (done ++ rest) × ((a b : Bytes) → rest ≡ a ++ b'/' ∷ b → Exists t (done ++ a))

  mkdir_from-kept :
      (rest done : Bytes) (s : S) (q : Bytes) → Exists s q → Exists (mkdir_from fs done rest s).1 q
  unfolding mkdir_from
  mkdir_from-kept [] done s q e = m.kept s done q e
  mkdir_from-kept (c ∷ cs) done s q e = ground (
    arith,
    mkdir_from-kept cs (done ++ c ∷ []) s q e,
    mkdir_from-kept cs (done ++ c ∷ []) (fs.mkdir s done).1 q (m.kept s done q e),
    m.kept s done q e,
  )

  nil-ne-append : (a : Bytes) (c : ℕ) (b : Bytes) → [] ≢ a ++ (c ∷ b)
  nil-ne-append [] c b e = cc
  nil-ne-append (x ∷ a) c b e = cc

  Chain-split :
      (c : ℕ) (cs done : Bytes) (t : S)
      → Chain (done ++ c ∷ []) cs t
      → ((c == b'/') ≡ true → Exists t done)
      → (a b : Bytes) → c ∷ cs ≡ a ++ (b'/' ∷ b)
      → Exists t (done ++ a)
  Chain-split c cs done t h at_slash [] b e =
      let first : c ≡ b'/' = cc in rw append-nil (at_slash ((==_iff c b'/').1 first))
  Chain-split c cs done t h at_slash (x ∷ a) b e =
      let first : c ≡ x = cc in
      let others : cs ≡ a ++ (b'/' ∷ b) = cc in
      subst (λ y. Exists t (done ++ (y ∷ a))) first
        (subst (Exists t) (append_assoc done (c ∷ []) a) (h.1 a b others))

  Chain-cons :
      (c : ℕ) (cs done : Bytes) (t : S)
      → Chain (done ++ c ∷ []) cs t
      → ((c == b'/') ≡ true → Exists t done)
      → Chain done (c ∷ cs) t
  Chain-cons c cs done t h at_slash =
      (subst (Exists t) (append_assoc done (c ∷ []) cs) h.0, Chain-split c cs done t h at_slash)

  mkdir_from-Chain :
      (rest done : Bytes) (s : S)
      → (mkdir_from fs done rest s).0 ≡ true
      → Chain done rest (mkdir_from fs done rest s).1
  unfolding mkdir_from
  mkdir_from-Chain [] done s h =
      (rw append-nil (m.made s done h), λ a b e. absurd (nil-ne-append a b'/' b e))
  mkdir_from-Chain (c ∷ cs) done s h = elim (Bool-cases (c == b'/')) [
    | inr other ↦ rw other (
        Chain-cons c cs done _ (mkdir_from-Chain cs (done ++ c ∷ []) s (rw other at h))
          (λ slash. cc))
    | inl slash ↦ elim (Bool-cases (fs.mkdir s done).0) [
      | inr failed ↦ absurd (ground arith)
      | inl made ↦
          rw (slash, made)
            (Chain-cons c cs done _
              (mkdir_from-Chain cs (done ++ c ∷ []) (fs.mkdir s done).1 (rw (slash, made) at h))
              (λ _.
                mkdir_from-kept cs (done ++ c ∷ []) (fs.mkdir s done).1 done (m.made s done made)))
    ]
  ]

  mkdir_tmp-Exists :
      (tmp : Bytes) (s : S)
      → (mkdir_tmp fs tmp s).0 ≡ true
      → Exists (mkdir_tmp fs tmp s).1 tmp
        × ((a b : Bytes) → a ≢ [] → tmp ≡ a ++ (b'/' ∷ b) → Exists (mkdir_tmp fs tmp s).1 a)
  unfolding mkdir_tmp
  mkdir_tmp-Exists [] s h = (m.made s [] h, λ a b ne e. absurd (nil-ne-append a b'/' b e))
  mkdir_tmp-Exists (c ∷ cs) s h =
      let chain = mkdir_from-Chain cs (c ∷ []) s h in (chain.0, λ a b ne e. inner a b chain ne e)
    where
      inner :
          (a b : Bytes)
          → Chain (c ∷ []) cs (mkdir_from fs (c ∷ []) cs s).1
          → a ≢ []
          → c ∷ cs ≡ a ++ (b'/' ∷ b)
          → Exists (mkdir_from fs (c ∷ []) cs s).1 a
      inner [] b chain ne e = absurd (ne refl)
      inner (x ∷ a) b chain ne e =
          let first : c ≡ x = cc in
          let others : cs ≡ a ++ (b'/' ∷ b) = cc in
          subst (λ y. Exists (mkdir_from fs (c ∷ []) cs s).1 (y ∷ a)) first (chain.1 a b others)

  mkdir_p-returned :
      (path : Bytes) (s t : S)
      → mkdir_p fs path s ≡ returned true t
      → ((mkdir_tmp fs (without_slash path) s).0 ≡ true)
        × ((mkdir_tmp fs (without_slash path) s).1 ≡ t)
  unfolding mkdir_p
  mkdir_p-returned path s t h = ground arith

  -- When `mkdir_p` succeeds, the path without a slash at its end exists, and so does every part of
  -- it that lies before a slash, whatever existed before.
  pub mkdir_p-Exists :
      (path : Bytes) (s t : S)
      → mkdir_p fs path s ≡ returned true t
      → Exists t (without_slash path)
        × ((a b : Bytes) → a ≢ [] → without_slash path ≡ a ++ (b'/' ∷ b) → Exists t a)
  mkdir_p-Exists path s t h =
      let (ok, end) = mkdir_p-returned path s t h in
      rw (← end) (mkdir_tmp-Exists (without_slash path) s ok)
