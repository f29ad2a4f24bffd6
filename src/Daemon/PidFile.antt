-- ===== src/Daemon/PidFile.antt =====
-- The pid file of `main` in src/evcollect/evcollectd.cc. What the system calls answer comes from the world.
pub mod Closing
use evcollect.Prelude.{
  ℕ, Bool, true, false, Option, none, some, [], ◌∷◌, ◌++◌, Bytes, codes, c_str, ltb, if◌then◌else◌,
}
use evcollect.Util.ReturnCode.{ReturnCode, success, error, error_fmt, is_success}
use evcollect.Util.StringUtil.{to_string}

-- `open` gives a descriptor or none; `flock`, `ftruncate` and a whole `write` succeed or not.
pub record FileSystem (W : Type 0) : Type 0 where
  pub open_file : Bytes → W → W × Option ℕ
  pub strerror : W → Bytes
  pub lock : ℕ → W → W × Bool
  pub truncate : ℕ → W → W × Bool
  pub getpid : W → ℕ
  pub write_all : ℕ → Bytes → W → W × Bool
  pub unlink : Bytes → W → W
  pub unlock : ℕ → W → W
  pub close : ℕ → W → W

module _ {W : Type 0} (fs : FileSystem W) where
  -- The status, and the descriptor that is still open.
  abbrev pub Opened : Type 0
  Opened = W × (ReturnCode × Option ℕ)

  abbrev closed_with : Bytes → ℕ → W → Opened
  closed_with message fd w = (fs.close fd w, (error (codes "IO_ERROR") message, none))

  write_pid : ℕ → W → Opened
  write_pid fd w =
      let (w', ok) = fs.write_all fd (to_string (fs.getpid w)) w in
      if ok then (w', (success, some fd)) else closed_with (codes "writing pidfile failed") fd w'

  truncate_pidfile : ℕ → W → Opened
  unfolding write_pid
  truncate_pidfile fd w =
      let (w', ok) = fs.truncate fd w in
      if ok then write_pid fd w' else closed_with (codes "writing pidfile failed") fd w'

  lock_pidfile : ℕ → W → Opened
  unfolding truncate_pidfile
  lock_pidfile fd w =
      let (w', ok) = fs.lock fd w in
      if ok then truncate_pidfile fd w' else closed_with (codes "locking pidfile failed") fd w'

  abbrev opened : W × Option ℕ → Opened
  opened (w, none) = (
    w,
    (
      error_fmt (codes "IO_ERROR") (codes "writing pidfile failed: " ++ c_str (fs.strerror w)),
      none,
    ),
  )
  opened (w, some fd) = lock_pidfile fd w

  unfoldable pub write_pidfile : Bytes → ReturnCode → W → Opened
  unfolding lock_pidfile
  write_pidfile [] rc w = (w, (rc, none))
  write_pidfile (c ∷ path) rc w =
      if is_success rc then opened (fs.open_file (c_str (c ∷ path)) w) else (w, (rc, none))

  -- At the end; the test is `pidfile_fd > 0`.
  unfoldable pub release_pidfile : Bytes → Option ℕ → W → W
  release_pidfile path none w = w
  release_pidfile path (some fd) w =
      if ltb 0 fd then fs.close fd (fs.unlock fd (fs.unlink (c_str path) w)) else w
