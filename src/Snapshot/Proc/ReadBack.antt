-- ===== src/Snapshot/Proc/ReadBack.antt =====
-- The whole line of /proc/<pid>/stat: what the kernel prints, `read_proc_stat` of
-- code/process_snapshot/process_snapshot.c reads back.
use linux_process_analyzer.Prelude.{
  ℕ, zero, suc, ◌%◌, ◌^◌, ◌≤◌, ◌<◌, ◌≡◌, refl, ap, ◌∙◌, false, not, Option, none, some, List, [],
  ◌∷◌, ◌++◌, ◌==◌, if◌then◌else◌, map, arith, length, length-append, take,
}
use linux_process_analyzer.Prelude.Int.{ℤ, pos, negsuc, ◌*ℤ◌, signed64, unsigned64, ltb_ℤ}
use linux_process_analyzer.Prelude.Cstr.{Bytes, is_digit}
use linux_process_analyzer.Prelude.Strto.{decimal, digit_prefix}
use linux_process_analyzer.Config.File.Lines.{NoNewline}
use linux_process_analyzer.Config.File.{fgets}
use linux_process_analyzer.Stats.{ProcessStateInput}
use linux_process_analyzer.Snapshot.Proc.{
  ProcessDir, Conversion, unsigned, comm_bytes, stat_bytes, stat_format, comm_of, value_at,
  scan_stat, stat_input, with_io, with_comm, read_proc_io, read_proc_stat,
}
use linux_process_analyzer.Snapshot.Proc.Comm.{comm_of-line}
use linux_process_analyzer.Snapshot.Proc.Fields.{
  Fits, AllFit, fields, scan-fields, digit_prefix-fields, signed64-unsigned64, pos-unsigned64,
}
use linux_process_analyzer.Snapshot.Proc.Line.{stat_line, stat_line-Whole, behind-NoClose}

pub field : ℕ → List ℤ → ℤ
field n [] = pos 0
field zero (v ∷ vs) = v
field (suc n) (v ∷ vs) = field n vs

kind : ℕ → List Conversion → Conversion
kind n [] = unsigned
kind zero (k ∷ ks) = k
kind (suc n) (k ∷ ks) = kind n ks

value_at-field : (n : ℕ) (vs : List ℤ) → value_at n (map unsigned64 vs) ≡ unsigned64 (field n vs)
unfolding value_at field
value_at-field n [] = ground arith
value_at-field zero (v ∷ vs) = refl
value_at-field (suc n) (v ∷ vs) = value_at-field n vs

field-Fits :
    (n : ℕ) (ks : List Conversion) (vs : List ℤ)
    → AllFit ks vs
    → n < length ks
    → Fits (kind n ks) (field n vs)
unfolding field kind
field-Fits n [] vs h small = absurd (omega (arith, small))
field-Fits n (k ∷ ks) [] h small = absurd (omega (arith, h))
field-Fits zero (k ∷ ks) (v ∷ vs) h small = h.0
field-Fits (suc n) (k ∷ ks) (v ∷ vs) h small = field-Fits n ks vs h.1 (omega (arith, small))

module _ {D : Type 0} (page_size_kb : ℕ) (timestamp : D) (h_r_timestamp : Bytes) where
  -- The fields of stat as the kernel printed them.
  abbrev pub IsRead : ℕ → Bytes → ℕ → List ℤ → ProcessStateInput D → Type 0
  IsRead pid comm state vs i =
      (i.pid ≡ pid)
      × (i.comm ≡ take comm_bytes comm)
      × (i.state ≡ state)
      × (i.ppid ≡ unsigned64 (field 0 vs) % 2 ^ 32)
      × (pos i.utime ≡ field 10 vs)
      × (pos i.stime ≡ field 11 vs)
      × (i.threads ≡ unsigned64 (field 16 vs) % 2 ^ 32)
      × (i.rss_kb
          ≡ (if ltb_ℤ (field 20 vs) (pos 0) then negsuc 0 else field 20 vs *ℤ pos page_size_kb))
      × (i.is_rss_valid ≡ not (ltb_ℤ (field 20 vs) (pos 0)))

  stat_input-IsRead :
      (pid : ℕ) (comm : Bytes) (state : ℕ) (vs : List ℤ)
      → AllFit stat_format vs
      → IsRead pid comm state vs (
          stat_input page_size_kb timestamp h_r_timestamp pid
            (take comm_bytes comm)
            state
            (map unsigned64 vs))
  unfolding stat_input kind
  stat_input-IsRead pid comm state vs h =
      let rss : signed64 (value_at 20 (map unsigned64 vs)) ≡ field 20 vs =
        ap signed64 (value_at-field 20 vs)
        ∙ signed64-unsigned64 (field 20 vs) (field-Fits 20 stat_format vs h (omega arith)) in
      (
        refl,
        refl,
        refl,
        ap (λ (v : ℕ). v % 2 ^ 32) (value_at-field 0 vs),
        ap pos (value_at-field 10 vs)
            ∙ pos-unsigned64 (field 10 vs) (field-Fits 10 stat_format vs h (omega arith)),
        ap pos (value_at-field 11 vs)
            ∙ pos-unsigned64 (field 11 vs) (field-Fits 11 stat_format vs h (omega arith)),
        ap (λ (v : ℕ). v % 2 ^ 32) (value_at-field 16 vs),
        ap (λ (p : ℤ). if ltb_ℤ p (pos 0) then negsuc 0 else p *ℤ pos page_size_kb) rss,
        ap (λ (p : ℤ). not (ltb_ℤ p (pos 0))) rss,
      )

  with_io-IsRead :
      (pid : ℕ) (comm : Bytes) (state : ℕ) (vs : List ℤ) (io : Option (ℕ × ℕ))
      (i : ProcessStateInput D)
      → IsRead pid comm state vs i
      → IsRead pid comm state vs (with_io page_size_kb timestamp h_r_timestamp io i)
  unfolding with_io
  with_io-IsRead pid comm state vs none i h = h
  with_io-IsRead pid comm state vs (some (r, w)) i h = h

  scan_stat-fields :
      (state : ℕ) (vs more : List ℤ)
      → AllFit stat_format vs
      → scan_stat (state ∷ fields vs (fields more (b'\n' ∷ []))) ≡ some (state, map unsigned64 vs)
  unfolding scan_stat digit_prefix is_digit
  scan_stat-fields state vs more h = ground (
    arith,
    scan-fields stat_format vs (fields more (b'\n' ∷ [])) h
        (digit_prefix-fields more (b'\n' ∷ []) refl),
  )

  abbrev as_read : ℕ → Bytes → ℕ → List ℤ → Option Bytes → ProcessStateInput D
  as_read pid comm state vs io = with_io page_size_kb timestamp h_r_timestamp (read_proc_io io) (
      stat_input page_size_kb timestamp h_r_timestamp pid (take comm_bytes comm) state
        (map unsigned64 vs))

  with_comm-line :
      (pid : ℕ) (comm : Bytes) (state : ℕ) (vs more : List ℤ) (io : Option Bytes)
      → (state == b')') ≡ false
      → AllFit stat_format vs
      → with_comm page_size_kb timestamp h_r_timestamp pid io
          (comm_of (stat_line pid comm state vs more))
        ≡ some (as_read pid comm state vs io)
  unfolding stat_line with_comm
  with_comm-line pid comm state vs more io s h =
      ap (with_comm page_size_kb timestamp h_r_timestamp pid io)
        (comm_of-line pid comm _ (behind-NoClose pid comm state vs more s))
      ∙ ground (arith, scan_stat-fields state vs more h)

  read_text :
      (pid : ℕ) (p : ProcessDir) (text : Bytes)
      → p.stat ≡ some text
      → 0 < length text
      → read_proc_stat page_size_kb timestamp h_r_timestamp pid p
        ≡ with_comm page_size_kb timestamp h_r_timestamp pid p.io (comm_of (fgets stat_bytes text))
  unfolding read_proc_stat
  read_text pid p [] e h = absurd (omega (arith, h))
  read_text pid p (c ∷ cs) e h = ground (arith, e)

  not_empty :
      (pid : ℕ) (comm : Bytes) (state : ℕ) (vs more : List ℤ)
      → 0 < length (stat_line pid comm state vs more)
  unfolding stat_line
  not_empty pid comm state vs more = omega (
    arith,
    length-append (decimal pid)
        (b' ' ∷ b'(' ∷ (comm ++ (b')' ∷ b' ' ∷ state ∷ fields vs (fields more (b'\n' ∷ []))))),
  )

  -- The line that the kernel prints for a process is read back, where it has room in the buffer,
  -- whatever parentheses and spaces the name has: the state, the parent, the two times, the threads
  -- and the resident memory are those printed, the memory is invalid exactly when the printed
  -- number of pages is negative, and the name is cut to 63 bytes.
  pub read_proc_stat-line :
      (pid : ℕ) (comm : Bytes) (state : ℕ) (vs more : List ℤ) (p : ProcessDir)
      → p.stat ≡ some (stat_line pid comm state vs more)
      → NoNewline comm
      → (state == b'\n') ≡ false
      → (state == b')') ≡ false
      → AllFit stat_format vs
      → length (stat_line pid comm state vs more) ≤ stat_bytes
      → (i : ProcessStateInput D) × (read_proc_stat page_size_kb timestamp h_r_timestamp pid p
          ≡ some i)
        × IsRead pid comm state vs i
  read_proc_stat-line pid comm state vs more p e no_newline s s' fit room =
      let input =
        stat_input page_size_kb timestamp h_r_timestamp pid (take comm_bytes comm) state
          (map unsigned64 vs) in
      (
        as_read pid comm state vs p.io,
        read_text pid p (stat_line pid comm state vs more) e (not_empty pid comm state vs more)
            ∙ ap
                (λ (t : Bytes). with_comm page_size_kb timestamp h_r_timestamp pid p.io (comm_of t))
                (stat_line-Whole pid comm state vs more no_newline s stat_bytes room)
            ∙ with_comm-line pid comm state vs more p.io s' fit,
        with_io-IsRead pid comm state vs (read_proc_io p.io) input
            (stat_input-IsRead pid comm state vs fit),
      )
