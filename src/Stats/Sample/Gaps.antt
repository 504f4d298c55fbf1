-- ===== src/Stats/Sample/Gaps.antt =====
-- The disk figures of a process of which some samples have no disk data.
use linux_process_analyzer.Prelude.{
  ℕ, ◌+◌, ◌-◌, ◌≤◌, ◌≡◌, refl, ◌∙◌, inl, inr, true, false, List, [], ◌∷◌, if◌then◌else◌, Bool-cases,
  arith,
}
use linux_process_analyzer.Prelude.Int.{ℤ}
use linux_process_analyzer.Stats.{Float, ProcessState, ProcessStateInput}
use linux_process_analyzer.Stats.Sample.{calculate_io_data, sample, samples, fresh, wrap64, zero_d}
use linux_process_analyzer.Stats.Sample.Frames.{io_of-sample, prev_timestamp-sample}

module _ {D : Type 0} where
  -- The counters at the last sample that has them.
  abbrev pub valid_read : ℕ → ProcessStateInput D → ℕ
  valid_read r i = if i.is_io_valid then i.read_kbytes else r

  abbrev pub valid_write : ℕ → ProcessStateInput D → ℕ
  valid_write w i = if i.is_io_valid then i.write_kbytes else w

  abbrev pub last_valid_read : ℕ → List (ProcessStateInput D) → ℕ
  last_valid_read r [] = r
  last_valid_read r (i ∷ is) = last_valid_read (valid_read r i) is

  abbrev pub last_valid_write : ℕ → List (ProcessStateInput D) → ℕ
  last_valid_write w [] = w
  last_valid_write w (i ∷ is) = last_valid_write (valid_write w i) is

module _ {D : Type 0} (F : Float D) where
  -- The sum of the times between a sample with disk data and the sample before it, whichever that
  -- is: the times between two others are left out.
  abbrev pub gaps : D → D → List (ProcessStateInput D) → D
  gaps t acc [] = acc
  gaps t acc (i ∷ is) =
      gaps i.timestamp (if i.is_io_valid then F.add acc (F.sub i.timestamp t) else acc) is

  -- Of the samples with disk data the times grow and the counters do not fall.
  abbrev pub Growing : D → ℕ → ℕ → List (ProcessStateInput D) → Type 0
  Growing t r w [] = Unit {0}
  Growing t r w (i ∷ is) =
      (i.is_io_valid ≡ true → F.le (F.sub i.timestamp t) (zero_d F) ≡ false)
      × (r ≤ valid_read r i)
      × (w ≤ valid_write w i)
      × Growing i.timestamp (valid_read r i) (valid_write w i) is

module _ {D : Type 0} (F : Float D) (hz cpus : ℤ) where
  any_sample :
      (i : ProcessStateInput D) (ps : ProcessState D)
      → ps.is_io_initialized ≡ true
      → (i.is_io_valid ≡ true → F.le (F.sub i.timestamp ps.prev_timestamp) (zero_d F) ≡ false)
      → ps.prev_read_kbytes ≤ valid_read ps.prev_read_kbytes i
      → ps.prev_write_kbytes ≤ valid_write ps.prev_write_kbytes i
      → (let q = sample F hz cpus i ps in
          (q.is_io_initialized ≡ true)
          × (q.prev_read_kbytes ≡ valid_read ps.prev_read_kbytes i)
          × (q.prev_write_kbytes ≡ valid_write ps.prev_write_kbytes i)
          × (wrap64 q.total_read_kbytes
              ≡ wrap64
                  (ps.total_read_kbytes + (valid_read ps.prev_read_kbytes i - ps.prev_read_kbytes)))
          × (wrap64 q.total_write_kbytes
              ≡ wrap64 (
                  ps.total_write_kbytes
                  + (valid_write ps.prev_write_kbytes i - ps.prev_write_kbytes)))
          × (q.io_time_acc ≡ (
              if i.is_io_valid
              then F.add ps.io_time_acc (F.sub i.timestamp ps.prev_timestamp)
              else ps.io_time_acc))
          × (q.prev_timestamp ≡ i.timestamp))
  unfolding calculate_io_data
  any_sample i ps on later r w = elim (Bool-cases i.is_io_valid) [
    | inl valid ↦ ground (
      arith,
      valid,
      later valid,
      io_of-sample F hz cpus i ps,
      prev_timestamp-sample F hz cpus i ps,
    )
    | inr not_valid ↦
        ground (arith, not_valid, io_of-sample F hz cpus i ps, prev_timestamp-sample F hz cpus i ps)
  ]

  Growing-le :
      (is : List (ProcessStateInput D)) (t : D) (r w : ℕ)
      → Growing F t r w is
      → (r ≤ last_valid_read r is) × (w ≤ last_valid_write w is)
  Growing-le [] t r w h = (omega arith, omega arith)
  Growing-le (i ∷ is) t r w h =
      omega (arith, Growing-le is i.timestamp (valid_read r i) (valid_write w i) h.3, h.1, h.2)

  disk-samples :
      (is : List (ProcessStateInput D)) (ps : ProcessState D)
      → ps.is_io_initialized ≡ true
      → Growing F ps.prev_timestamp ps.prev_read_kbytes ps.prev_write_kbytes is
      → (let q = samples F hz cpus is ps in
          (wrap64 q.total_read_kbytes
            ≡ wrap64 (
                ps.total_read_kbytes
                + (last_valid_read ps.prev_read_kbytes is - ps.prev_read_kbytes)))
          × (wrap64 q.total_write_kbytes
              ≡ wrap64 (
                  ps.total_write_kbytes
                  + (last_valid_write ps.prev_write_kbytes is - ps.prev_write_kbytes)))
          × (q.io_time_acc ≡ gaps F ps.prev_timestamp ps.io_time_acc is))
  disk-samples [] ps on h = (ground arith, ground arith, refl)
  disk-samples (i ∷ is) ps on h =
      let q = sample F hz cpus i ps in
      let (on', pr, pw, tr, tw, time, ts) = any_sample i ps on h.0 h.1 h.2 in
      let h' : Growing F q.prev_timestamp q.prev_read_kbytes q.prev_write_kbytes is =
        rw (ts, pr, pw) h.3 in
      let r = valid_read ps.prev_read_kbytes i in
      let w = valid_write ps.prev_write_kbytes i in
      let later = Growing-le is i.timestamp r w h.3 in
      let (reads, writes, times) = disk-samples is q on' h' in
      (
        reads ∙ rw pr (omega (arith, tr, later, h.1)),
        writes ∙ rw pw (omega (arith, tw, later, h.2)),
        times ∙ rw (ts, time) refl,
      )

  starting :
      (i : ProcessStateInput D)
      → i.is_io_valid ≡ true
      → (let q = sample F hz cpus i (fresh F i) in
          (q.is_io_initialized ≡ true)
          × (q.prev_read_kbytes ≡ i.read_kbytes)
          × (q.prev_write_kbytes ≡ i.write_kbytes)
          × (q.total_read_kbytes ≡ 0)
          × (q.total_write_kbytes ≡ 0)
          × (q.io_time_acc ≡ zero_d F)
          × (q.prev_timestamp ≡ i.timestamp))
  unfolding calculate_io_data fresh
  starting i valid =
      ground
        (arith, io_of-sample F hz cpus i (fresh F i), prev_timestamp-sample F hz cpus i (fresh F i))

  -- For a process whose first sample has disk data and whose counters do not fall, where later
  -- samples may lack them: the totals are the growth of the counters from the first sample to the
  -- last that has them, modulo 2^64, while the time that the rates divide by is the sum of the times
  -- between each later sample that has them and the sample just before it, so that the time up to a
  -- sample that lacks them is not counted.
  pub disk-samples-fresh :
      (first : ProcessStateInput D) (is : List (ProcessStateInput D))
      → first.is_io_valid ≡ true
      → Growing F first.timestamp first.read_kbytes first.write_kbytes is
      → (let ps = samples F hz cpus (first ∷ is) (fresh F first) in
          (wrap64 ps.total_read_kbytes
            ≡ wrap64 (last_valid_read first.read_kbytes is - first.read_kbytes))
          × (wrap64 ps.total_write_kbytes
              ≡ wrap64 (last_valid_write first.write_kbytes is - first.write_kbytes))
          × (ps.io_time_acc ≡ gaps F first.timestamp (zero_d F) is))
  disk-samples-fresh first is valid h =
      let q = sample F hz cpus first (fresh F first) in
      let (on, pr, pw, tr, tw, time, ts) = starting first valid in
      let h' : Growing F q.prev_timestamp q.prev_read_kbytes q.prev_write_kbytes is =
        rw (ts, pr, pw) h in
      let (reads, writes, times) = disk-samples is q on h' in
      (
        reads ∙ rw (pr, tr) (omega arith),
        writes ∙ rw (pw, tw) (omega arith),
        times ∙ rw (ts, time) refl,
      )
