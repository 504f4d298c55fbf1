-- ===== src/Stats/Sample/Io.antt =====
-- The disk figures of a process over all its samples.
use linux_process_analyzer.Prelude.{ℕ, ◌+◌, ◌-◌, ◌≤◌, ◌≡◌, ◌∙◌, true, false, List, [], ◌∷◌, arith}
use linux_process_analyzer.Prelude.Int.{ℤ}
use linux_process_analyzer.Stats.{Float, ProcessState, ProcessStateInput}
use linux_process_analyzer.Stats.Sample.{calculate_io_data, sample, samples, fresh, wrap64, zero_d}
use linux_process_analyzer.Stats.Sample.Frames.{io_of-sample, prev_timestamp-sample}

module _ {D : Type 0} (F : Float D) where
  -- Samples with valid disk data, whose times grow and whose counters do not fall, after a sample
  -- at time `t` with counters `r` and `w`.
  abbrev pub Rising : D → ℕ → ℕ → List (ProcessStateInput D) → Type 0
  Rising t r w [] = Unit {0}
  Rising t r w (i ∷ is) =
      (i.is_io_valid ≡ true)
      × (F.le (F.sub i.timestamp t) (zero_d F) ≡ false)
      × (r ≤ i.read_kbytes)
      × (w ≤ i.write_kbytes)
      × Rising i.timestamp i.read_kbytes i.write_kbytes is

module _ {D : Type 0} where
  abbrev pub last_read : ℕ → List (ProcessStateInput D) → ℕ
  last_read r [] = r
  last_read r (i ∷ is) = last_read i.read_kbytes is

  abbrev pub last_write : ℕ → List (ProcessStateInput D) → ℕ
  last_write w [] = w
  last_write w (i ∷ is) = last_write i.write_kbytes is

module _ {D : Type 0} (F : Float D) (hz cpus : ℤ) where
  rising_sample :
      (i : ProcessStateInput D) (ps : ProcessState D)
      → i.is_io_valid ≡ true
      → ps.is_io_initialized ≡ true
      → F.le (F.sub i.timestamp ps.prev_timestamp) (zero_d F) ≡ false
      → ps.prev_read_kbytes ≤ i.read_kbytes
      → ps.prev_write_kbytes ≤ i.write_kbytes
      → (let q = sample F hz cpus i ps in
          (q.is_io_initialized ≡ true)
          × (q.prev_read_kbytes ≡ i.read_kbytes)
          × (q.prev_write_kbytes ≡ i.write_kbytes)
          × (q.total_read_kbytes
              ≡ wrap64 (ps.total_read_kbytes + (i.read_kbytes - ps.prev_read_kbytes)))
          × (q.total_write_kbytes
              ≡ wrap64 (ps.total_write_kbytes + (i.write_kbytes - ps.prev_write_kbytes)))
          × (q.prev_timestamp ≡ i.timestamp))
  unfolding calculate_io_data
  rising_sample i ps valid on later r w =
      ground (arith, io_of-sample F hz cpus i ps, prev_timestamp-sample F hz cpus i ps)

  Rising-le_read :
      (is : List (ProcessStateInput D)) (t : D) (r w : ℕ)
      → Rising F t r w is
      → (r ≤ last_read r is) × (w ≤ last_write w is)
  Rising-le_read [] t r w h = (omega arith, omega arith)
  Rising-le_read (i ∷ is) t r w h =
      omega (arith, Rising-le_read is i.timestamp i.read_kbytes i.write_kbytes h.4)

  totals-samples :
      (is : List (ProcessStateInput D)) (ps : ProcessState D)
      → ps.is_io_initialized ≡ true
      → Rising F ps.prev_timestamp ps.prev_read_kbytes ps.prev_write_kbytes is
      → (let q = samples F hz cpus is ps in
          (wrap64 q.total_read_kbytes
            ≡ wrap64
                (ps.total_read_kbytes + (last_read ps.prev_read_kbytes is - ps.prev_read_kbytes)))
          × (wrap64 q.total_write_kbytes
              ≡ wrap64 (
                  ps.total_write_kbytes
                  + (last_write ps.prev_write_kbytes is - ps.prev_write_kbytes))))
  totals-samples [] ps on h = (ground arith, ground arith)
  totals-samples (i ∷ is) ps on h =
      let q = sample F hz cpus i ps in
      let (on', pr, pw, tr, tw, ts) = rising_sample i ps h.0 on h.1 h.2 h.3 in
      let h' : Rising F q.prev_timestamp q.prev_read_kbytes q.prev_write_kbytes is =
        rw (ts, pr, pw) h.4 in
      let later = Rising-le_read is i.timestamp i.read_kbytes i.write_kbytes h.4 in
      let (reads, writes) = totals-samples is q on' h' in
      (reads ∙ rw (pr, tr) (omega arith), writes ∙ rw (pw, tw) (omega arith))

  starting_sample :
      (i : ProcessStateInput D)
      → i.is_io_valid ≡ true
      → (let q = sample F hz cpus i (fresh F i) in
          (q.is_io_initialized ≡ true)
          × (q.prev_read_kbytes ≡ i.read_kbytes)
          × (q.prev_write_kbytes ≡ i.write_kbytes)
          × (q.total_read_kbytes ≡ 0)
          × (q.total_write_kbytes ≡ 0)
          × (q.prev_timestamp ≡ i.timestamp))
  unfolding calculate_io_data fresh
  starting_sample i valid =
      ground
        (arith, io_of-sample F hz cpus i (fresh F i), prev_timestamp-sample F hz cpus i (fresh F i))

  -- For a process whose samples all have disk data, with times that grow and counters that do not
  -- fall, the totals are the growth of the counters since its first sample, modulo 2^64.
  pub totals-samples-fresh :
      (first : ProcessStateInput D) (is : List (ProcessStateInput D))
      → first.is_io_valid ≡ true
      → Rising F first.timestamp first.read_kbytes first.write_kbytes is
      → (let ps = samples F hz cpus (first ∷ is) (fresh F first) in
          (wrap64 ps.total_read_kbytes
            ≡ wrap64 (last_read first.read_kbytes is - first.read_kbytes))
          × (wrap64 ps.total_write_kbytes
              ≡ wrap64 (last_write first.write_kbytes is - first.write_kbytes)))
  totals-samples-fresh first is valid h =
      let q = sample F hz cpus first (fresh F first) in
      let (on, pr, pw, tr, tw, ts) = starting_sample first valid in
      let h' : Rising F q.prev_timestamp q.prev_read_kbytes q.prev_write_kbytes is =
        rw (ts, pr, pw) h in
      let (reads, writes) = totals-samples is q on h' in
      (reads ∙ rw (pr, tr) (omega arith), writes ∙ rw (pw, tw) (omega arith))
