-- ===== src/Snapshot/Rotate/Paths.antt =====
-- The paths of the two outputs of code/process_snapshot/process_snapshot.c: the rotation of the one
-- does not touch the other.
use mathlib.Core.List.{append_assoc}
use linux_process_analyzer.Prelude.{
  ℕ, ◌+◌, ◌-◌, ◌<◌, ◌≡◌, sym, ap, subst, ◌∙◌, ◌++◌, arith, length, length-append, take, take-all,
  drop,
}
use linux_process_analyzer.Prelude.Cstr.{Bytes, codes}
use linux_process_analyzer.Prelude.Strto.{value_of}
use linux_process_analyzer.Config.{path_max}
use linux_process_analyzer.Snapshot.Rotate.{fit, Settings, log_path, jsonl_path}
use linux_process_analyzer.Snapshot.Rotate.Names.{drop-append}
use linux_process_analyzer.Snapshot.Rotate.Away.{Begins, append-Begins, fit-Begins, Away}

module _ (c : Settings) (room : length c.output_dir + 20 < path_max) where
  abbrev pub log_prefix : Bytes
  log_prefix = c.output_dir ++ codes "/ptime.l"

  abbrev pub jsonl_prefix : Bytes
  jsonl_prefix = c.output_dir ++ codes "/ptime.j"

  length-in_dir : (s : Bytes) → length (c.output_dir ++ s) ≡ length c.output_dir + length s
  length-in_dir s = length-append c.output_dir s

  pub log_path-whole : log_path c ≡ log_prefix ++ codes "og"
  log_path-whole =
      take-all (path_max - 1) (c.output_dir ++ codes "/ptime.log")
        (omega (arith, length-in_dir (codes "/ptime.log"), room))
      ∙ sym (append_assoc c.output_dir (codes "/ptime.l") (codes "og"))

  pub jsonl_path-whole : jsonl_path c ≡ jsonl_prefix ++ codes "sonl"
  jsonl_path-whole =
      take-all (path_max - 1) (c.output_dir ++ codes "/ptime.jsonl")
        (omega (arith, length-in_dir (codes "/ptime.jsonl"), room))
      ∙ sym (append_assoc c.output_dir (codes "/ptime.j") (codes "sonl"))

  pub length-log_path : length (log_path c) ≡ length c.output_dir + 10
  length-log_path = omega (
    arith,
    ap length log_path-whole,
    length-append log_prefix (codes "og"),
    length-in_dir (codes "/ptime.l"),
  )

  pub length-jsonl_path : length (jsonl_path c) ≡ length c.output_dir + 12
  length-jsonl_path = omega (
    arith,
    ap length jsonl_path-whole,
    length-append jsonl_prefix (codes "sonl"),
    length-in_dir (codes "/ptime.j"),
  )

  pub fit-log_path : fit (log_path c) ≡ log_path c
  fit-log_path = take-all (path_max - 1) (log_path c) (omega (arith, length-log_path, room))

  pub fit-jsonl_path : fit (jsonl_path c) ≡ jsonl_path c
  fit-jsonl_path = take-all (path_max - 1) (jsonl_path c) (omega (arith, length-jsonl_path, room))

  -- The names that the rotation of each output uses, cut or not, begin with its prefix.
  pub log_path-Begins : (s : Bytes) → Begins log_prefix (fit (log_path c ++ s))
  log_path-Begins s =
      subst (λ (b : Bytes). Begins log_prefix (fit b))
        (sym (append_assoc log_prefix (codes "og") s)
          ∙ ap (λ (b : Bytes). b ++ s) (sym log_path-whole))
        (fit-Begins log_prefix (codes "og" ++ s)
          (omega (arith, length-in_dir (codes "/ptime.l"), room)))

  pub jsonl_path-Begins : (s : Bytes) → Begins jsonl_prefix (fit (jsonl_path c ++ s))
  jsonl_path-Begins s =
      subst (λ (b : Bytes). Begins jsonl_prefix (fit b))
        (sym (append_assoc jsonl_prefix (codes "sonl") s)
          ∙ ap (λ (b : Bytes). b ++ s) (sym jsonl_path-whole))
        (fit-Begins jsonl_prefix (codes "sonl" ++ s)
          (omega (arith, length-in_dir (codes "/ptime.j"), room)))

  pub log_path-itself : Begins log_prefix (log_path c)
  log_path-itself =
      subst (Begins log_prefix) (sym log_path-whole) (append-Begins log_prefix (codes "og"))

  pub jsonl_path-itself : Begins jsonl_prefix (jsonl_path c)
  jsonl_path-itself =
      subst (Begins jsonl_prefix) (sym jsonl_path-whole) (append-Begins jsonl_prefix (codes "sonl"))

  pub prefixes-differ : (q : Bytes) → Begins log_prefix q → ¬ Begins jsonl_prefix q
  unfolding value_of
  prefixes-differ q h k =
      let both : log_prefix ≡ jsonl_prefix =
        sym h
        ∙ ap (λ (n : ℕ). take n q)
            (length-in_dir (codes "/ptime.l") ∙ sym (length-in_dir (codes "/ptime.j")))
        ∙ k in
      let same : codes "/ptime.l" ≡ codes "/ptime.j" =
        sym (drop-append c.output_dir (codes "/ptime.l"))
        ∙ ap (drop (length c.output_dir)) both
        ∙ drop-append c.output_dir (codes "/ptime.j") in
      absurd (omega (arith, ap (λ (t : Bytes). value_of 0 (drop 7 t)) same))

  -- The rotation of the one output does not touch a name of the other.
  pub jsonl_path-Away : (q : Bytes) → Begins log_prefix q → Away jsonl_prefix (jsonl_path c) q
  jsonl_path-Away q h = record {
    names = jsonl_path-Begins;
    itself = subst (Begins jsonl_prefix) (sym fit-jsonl_path) jsonl_path-itself;
    other = λ t begins e. prefixes-differ q h (subst (Begins jsonl_prefix) (sym e) begins);
  }

  pub log_path-Away : (q : Bytes) → Begins jsonl_prefix q → Away log_prefix (log_path c) q
  log_path-Away q h = record {
    names = log_path-Begins;
    itself = subst (Begins log_prefix) (sym fit-log_path) log_path-itself;
    other = λ t begins e. prefixes-differ q (subst (Begins log_prefix) (sym e) begins) h;
  }
