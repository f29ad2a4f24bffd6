-- ===== src/Daemon/PidFile/Closing/Tests.antt =====
-- A file system that is the list of its open descriptors, and on which the lock is taken.
use evcollect.Prelude.{
  ℕ, ◌≡◌, ◌≢◌, refl, ap, true, false, Option, none, some, List, [], ◌∷◌, codes, arith,
}
use evcollect.Util.ReturnCode.{success, is_success}
use evcollect.Daemon.PidFile.{FileSystem, write_pidfile, release_pidfile, lock_pidfile}
use evcollect.Daemon.PidFile.Closing.{Descriptors, release-write_pidfile}

abbrev closed : ℕ → List ℕ → List ℕ
closed fd [] = []
closed fd (x ∷ xs) = xs

abbrev locked : FileSystem (List ℕ)
locked = record {
  open_file = λ path w. (7 ∷ w, some 7);
  strerror = λ w. codes "error";
  lock = λ fd w. (w, false);
  truncate = λ fd w. (w, true);
  getpid = λ w. 42;
  write_all = λ fd text w. (w, true);
  unlink = λ path w. w;
  unlock = λ fd w. w;
  close = closed;
}

open-first : (w : List ℕ) (fd : ℕ) → some 7 ≡ some fd → 7 ∷ w ≡ fd ∷ w
open-first w fd e = ground arith

locked-Descriptors : Descriptors locked (λ w. w)
locked-Descriptors = record {
  opens = λ path w fd e. open-first w fd e;
  open_fails = λ path w e. absurd (ground arith);
  locks = λ fd w. refl;
  truncates = λ fd w. refl;
  writes = λ fd text w. refl;
  unlinks = λ path w. refl;
  unlocks = λ fd w. refl;
  closes = λ fd others w e. ap (closed fd) e;
}

-- The file is locked by another process: the status is an error.
locked_out : is_success (write_pidfile locked (codes "pid") success (3 ∷ [])).1.0 ≡ false
unfolding write_pidfile lock_pidfile
locked_out = refl

not_zero : ◌≢◌ {A = Option ℕ} none (some 0)
not_zero e = ground arith

release-write_pidfile_example :
    release_pidfile locked
      (codes "pid")
      (write_pidfile locked (codes "pid") success (3 ∷ [])).1.1
      (3 ∷ [])
    ≡ 3 ∷ []
unfolding write_pidfile lock_pidfile
release-write_pidfile_example =
    release-write_pidfile locked (λ w. w) locked-Descriptors (codes "pid") success (3 ∷ []) (3 ∷ [])
      refl not_zero
