-- ===== src/Daemon/PidFile/Closing.antt =====
-- Every descriptor of the pid file is closed.
mod Tests
use evcollect.Prelude.{
  ℕ, zero, suc, ◌≡◌, ◌≢◌, ◌<◌, refl, sym, ap, ◌∙◌, Bool, true, false, Bool-cases, inl, inr, Option,
  none, some, List, [], ◌∷◌, Bytes, codes, c_str, arith, ltb, if◌then◌else◌,
}
use evcollect.Util.ReturnCode.{ReturnCode, is_success}
use evcollect.Util.StringUtil.{to_string}
use evcollect.Daemon.PidFile.{
  FileSystem, Opened, opened, write_pid, truncate_pidfile, lock_pidfile, closed_with, write_pidfile,
  release_pidfile,
}

-- What the calls do to the descriptors that are open: `open` adds one, `close` takes it away, and the others leave
-- them alone.
pub record Descriptors {W : Type 0} (fs : FileSystem W) (held : W → List ℕ) : Type 0 where
  pub opens :
      (path : Bytes) (w : W) (fd : ℕ)
      → (fs.open_file path w).1 ≡ some fd
      → held (fs.open_file path w).0 ≡ fd ∷ held w
  pub open_fails :
      (path : Bytes) (w : W)
      → (fs.open_file path w).1 ≡ none
      → held (fs.open_file path w).0 ≡ held w
  pub locks : (fd : ℕ) (w : W) → held (fs.lock fd w).0 ≡ held w
  pub truncates : (fd : ℕ) (w : W) → held (fs.truncate fd w).0 ≡ held w
  pub writes : (fd : ℕ) (text : Bytes) (w : W) → held (fs.write_all fd text w).0 ≡ held w
  pub unlinks : (path : Bytes) (w : W) → held (fs.unlink path w) ≡ held w
  pub unlocks : (fd : ℕ) (w : W) → held (fs.unlock fd w) ≡ held w
  pub closes :
      (fd : ℕ) (others : List ℕ) (w : W) → held w ≡ fd ∷ others → held (fs.close fd w) ≡ others

positive : (fd : ℕ) → some fd ≢ some 0 → ltb 0 fd ≡ true
positive zero n = absurd (n refl)
positive (suc fd) n = ground arith

module _ {W : Type 0} (fs : FileSystem W) (held : W → List ℕ) (laws : Descriptors fs held) where
  -- The descriptor that comes back is the one that is open, and the status says whether there is one.
  abbrev IsOpened : List ℕ → Opened fs → Type 0
  IsOpened before r = elim r.1.1 [
    | none ↦ held r.0 ≡ before
    | some fd ↦ (held r.0 ≡ fd ∷ before) × (is_success r.1.0 ≡ true)
  ]

  -- Of the descriptors, this one is open more than before.
  abbrev StillOpen : List ℕ → Option ℕ → W → Type 0
  StillOpen before none w = held w ≡ before
  StillOpen before (some fd) w = held w ≡ fd ∷ before

  either-IsOpened :
      (before : List ℕ) (b : Bool) (x y : Opened fs)
      → IsOpened before x
      → IsOpened before y
      → IsOpened before (if b then x else y)
  either-IsOpened before true x y p q = p
  either-IsOpened before false x y p q = q

  module _ (fd : ℕ) (before : List ℕ) where
    closed-IsOpened :
        (message : Bytes) (w : W)
        → held w ≡ fd ∷ before
        → IsOpened before (closed_with fs message fd w)
    closed-IsOpened message w h = laws.closes fd before w h

    write_pid-IsOpened : (w : W) → held w ≡ fd ∷ before → IsOpened before (write_pid fs fd w)
    unfolding write_pid
    write_pid-IsOpened w h =
        let h' = laws.writes fd (to_string (fs.getpid w)) w ∙ h in
        either-IsOpened before (fs.write_all fd (to_string (fs.getpid w)) w).1 _ _ (h', refl)
          (closed-IsOpened (codes "writing pidfile failed") _ h')

    truncate_pidfile-IsOpened :
        (w : W) → held w ≡ fd ∷ before → IsOpened before (truncate_pidfile fs fd w)
    unfolding truncate_pidfile
    truncate_pidfile-IsOpened w h =
        let h' = laws.truncates fd w ∙ h in
        either-IsOpened before (fs.truncate fd w).1 _ _ (write_pid-IsOpened _ h')
          (closed-IsOpened (codes "writing pidfile failed") _ h')

    lock_pidfile-IsOpened : (w : W) → held w ≡ fd ∷ before → IsOpened before (lock_pidfile fs fd w)
    unfolding lock_pidfile
    lock_pidfile-IsOpened w h =
        let h' = laws.locks fd w ∙ h in
        either-IsOpened before (fs.lock fd w).1 _ _ (truncate_pidfile-IsOpened _ h')
          (closed-IsOpened (codes "locking pidfile failed") _ h')

  opened-IsOpened :
      (before : List ℕ) (w : W) (o : Option ℕ)
      → StillOpen before o w
      → IsOpened before (opened fs (w, o))
  opened-IsOpened before w none h = h
  opened-IsOpened before w (some fd) h = lock_pidfile-IsOpened fd before w h

  open_file-held :
      (path : Bytes) (w : W) (o : Option ℕ)
      → (fs.open_file path w).1 ≡ o
      → StillOpen (held w) o (fs.open_file path w).0
  open_file-held path w none e = laws.open_fails path w e
  open_file-held path w (some fd) e = laws.opens path w fd e

  write_pidfile-IsOpened :
      (path : Bytes) (rc : ReturnCode) (w : W) → IsOpened (held w) (write_pidfile fs path rc w)
  unfolding write_pidfile
  write_pidfile-IsOpened [] rc w = refl
  write_pidfile-IsOpened (c ∷ path) rc w =
      let name = c_str (c ∷ path) in
      either-IsOpened (held w) (is_success rc) _ _
        (opened-IsOpened (held w) (fs.open_file name w).0 (fs.open_file name w).1
          (open_file-held name w (fs.open_file name w).1 refl))
        refl

  release-held :
      (path : Bytes) (before : List ℕ) (o : Option ℕ) (w : W)
      → StillOpen before o w
      → o ≢ some 0
      → held (release_pidfile fs path o w) ≡ before
  unfolding release_pidfile
  release-held path before none w h n = h
  release-held path before (some fd) w h n = rw (positive fd n) (
      laws.closes fd before _
        (laws.unlocks fd (fs.unlink (c_str path) w) ∙ laws.unlinks (c_str path) w ∙ h))

  -- Whatever fails on the way, no descriptor of the pid file is left: it is closed at once where writing the
  -- file fails, and at the end, after whatever the service did with descriptors of its own, otherwise. Descriptor 0
  -- is the exception: the test at the end takes it for none.
  pub release-write_pidfile :
      (path : Bytes) (rc : ReturnCode) (w w' : W)
      → held w' ≡ held (write_pidfile fs path rc w).0
      → (write_pidfile fs path rc w).1.1 ≢ some 0
      → held (release_pidfile fs path (write_pidfile fs path rc w).1.1 w') ≡ held w
  release-write_pidfile path rc w w' same n =
      release-held path (held w) (write_pidfile fs path rc w).1.1 w'
        (later (write_pidfile fs path rc w) same (write_pidfile-IsOpened path rc w)) n
    where
      later :
          (r : Opened fs) → held w' ≡ held r.0 → IsOpened (held w) r → StillOpen (held w) r.1.1 w'
      later (w1, (rc1, none)) e h = e ∙ h
      later (w1, (rc1, some fd)) e h = e ∙ h.0
