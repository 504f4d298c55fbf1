-- ===== src/Config/Directory.antt =====
-- `mkdir_p`, `check_file_access` and `ensure_output_dir` of code/config/config.c, over the calls
-- of the operating system.
pub mod Prefixes
pub mod Outside
use linux_process_analyzer.Prelude.{
  ℕ, ◌+◌, ◌-◌, ◌≤◌, Bool, true, false, Option, none, some, List, [], ◌∷◌, ◌++◌, ◌||◌, ◌==◌, leb,
  ltb, if◌then◌else◌, length, take,
}
use linux_process_analyzer.Prelude.Int.{ℤ, pos, ltb_ℤ, ◌-ℤ◌}
use linux_process_analyzer.Prelude.Cstr.{Bytes, codes}
use linux_process_analyzer.Config.{path_max}

-- The file system, as the calls of stat, mkdir, open with O_CREAT, and unlink show it.
-- `stat_dir` is `none` where stat fails, and else S_ISDIR. `mkdir` is true if it made the
-- directory or failed with EEXIST.
pub record FileSystem (S : Type 0) : Type 0 where
  pub stat_dir : S → Bytes → Option Bool
  pub mkdir : S → Bytes → Bool × S
  pub create : S → Bytes → Bool × S
  pub unlink : S → Bytes → S

-- A run of C code: it returns, or it accesses memory outside an object.
pub data Run (S : Type 0) : Type 0 where
  returned : Bool → S → Run S
  out_of_bounds : Run S

-- Whether the index is outside a string with its NUL.
unfoldable pub outside : ℤ → Bytes → Bool
outside i s = ltb_ℤ i (pos 0) || ltb_ℤ (pos (length s)) i

-- tmp[len - 1] == '/'
unfoldable pub without_slash : Bytes → Bytes
without_slash [] = []
without_slash (c ∷ []) = if c == b'/' then [] else c ∷ []
without_slash (c ∷ d ∷ ds) = c ∷ without_slash (d ∷ ds)

module _ {S : Type 0} (fs : FileSystem S) where
  -- `done` is what lies before `p`, in reading order.
  unfoldable pub mkdir_from : Bytes → Bytes → S → Bool × S
  mkdir_from done [] s = fs.mkdir s done
  mkdir_from done (c ∷ cs) s =
      if c == b'/'
      then (let (ok, s') = fs.mkdir s done in
          elim ok [ true ↦ mkdir_from (done ++ c ∷ []) cs s' | false ↦ (false, s') ])
      else mkdir_from (done ++ c ∷ []) cs s

  unfoldable pub mkdir_tmp : Bytes → S → Bool × S
  mkdir_tmp [] s = fs.mkdir s []
  mkdir_tmp (c ∷ cs) s = mkdir_from (c ∷ []) cs s

  -- `true` is 0. The byte at len - 1 is read without a test of len.
  unfoldable pub mkdir_p : Bytes → S → Run S
  mkdir_p path s =
      if leb path_max (length path)
      then returned false s
      else if outside (pos (length path) -ℤ pos 1) path
      then out_of_bounds
      else (let (ok, s') = mkdir_tmp (without_slash path) s in returned ok s')

  unfoldable pub check_file_access : Bytes → S → Bool × S
  check_file_access dir s =
      let path = dir ++ codes "/dummyfile" in
      if leb path_max (length path)
      then (false, s)
      else (let (ok, s') = fs.create s path in
          if ok then (true, fs.unlink s' path) else (false, s'))

  then_access : Bytes → Run S → Run S
  then_access path out_of_bounds = out_of_bounds
  then_access path (returned false s) = returned false s
  then_access path (returned true s) = (let (ok, s') = check_file_access path s in returned ok s')

  on_stat : Bytes → S → Option Bool → Run S
  on_stat path s (some true) = then_access path (returned true s)
  on_stat path s (some false) = returned false s
  on_stat path s none = then_access path (mkdir_p path s)

  unfoldable pub ensure_output_dir : Bytes → S → Run S
  unfolding on_stat then_access
  ensure_output_dir path s = on_stat path s (fs.stat_dir s path)
