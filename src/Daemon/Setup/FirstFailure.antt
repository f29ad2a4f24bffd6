-- ===== src/Daemon/Setup/FirstFailure.antt =====
-- The loops of `main` stop at the first failure.
use mathlib.Core.Path.{subst}
use evcollect.Prelude.{
  ◌≡◌, refl, sym, ap, ◌⊎◌, inl, inr, true, false, Bool-cases, List, [], ◌∷◌, ◌++◌,
}
use evcollect.Util.ReturnCode.{ReturnCode, is_success}
use evcollect.Service.{Service}
use evcollect.Daemon.Setup.{Progress, while_success}

module _ {W : Type 0} {A : Type 0} (step : A → Service W → W → Progress W) where
  -- Every step of a list succeeds, from one state to another.
  pub data AllSucceed : List A → Service W × W → Service W × W → Type 0 where
    done : (p : Service W × W) → AllSucceed [] p p
    more :
        (x : A) (xs : List A) (s : Service W) (w : W) (q : Service W × W)
        → is_success (step x s w).1 ≡ true
        → AllSucceed xs (step x s w).0 q
        → AllSucceed (x ∷ xs) (s, w) q

  -- The step that failed, with those before it, which succeeded, and those behind it, which were not taken.
  pub record FailedAt (xs : List A) (p : Service W × W) (r : Progress W) : Type 0 where
    pub before : List A
    pub failed : A
    pub behind : List A
    pub reached : Service W × W
    pub items : xs ≡ before ++ (failed ∷ behind)
    pub succeeded : AllSucceed before p reached
    pub result : r ≡ step failed reached.0 reached.1

  -- All of them, or those up to the first failure.
  abbrev UpToFailure : List A → Service W × W → Progress W → Type 0
  UpToFailure xs p r =
      (is_success r.1 ≡ true) × AllSucceed xs p r.0 ⊎ (is_success r.1 ≡ false) × FailedAt xs p r

  after_first :
      (x : A) (xs : List A) (s : Service W) (w : W) (r : Progress W)
      → is_success (step x s w).1 ≡ true
      → UpToFailure xs (step x s w).0 r
      → UpToFailure (x ∷ xs) (s, w) r
  after_first x xs s w r ok (inl (e, all)) = inl (e, AllSucceed.more x xs s w r.0 ok all)
  after_first x xs s w r ok (inr (e, f)) = inr (
    e,
    record {
      before = x ∷ f.before;
      failed = f.failed;
      behind = f.behind;
      reached = f.reached;
      items = ap (◌∷◌ x) f.items;
      succeeded = AllSucceed.more x f.before s w f.reached ok f.succeeded;
      result = f.result;
    },
  )

  at_first :
      (x : A) (xs : List A) (s : Service W) (w : W)
      → is_success (step x s w).1 ≡ false
      → UpToFailure (x ∷ xs) (s, w) (step x s w)
  at_first x xs s w e = inr (
    e,
    record {
      before = [];
      failed = x;
      behind = xs;
      reached = (s, w);
      items = refl;
      succeeded = AllSucceed.done (s, w);
      result = refl;
    },
  )

  pub while_success-failed :
      (xs : List A) (s : Service W) (w : W) (rc : ReturnCode)
      → is_success rc ≡ false
      → while_success step xs ((s, w), rc) ≡ ((s, w), rc)
  unfolding while_success
  while_success-failed [] s w rc e = refl
  while_success-failed (x ∷ xs) s w rc e = rw e refl

  while_success-step :
      (x : A) (xs : List A) (s : Service W) (w : W) (rc : ReturnCode)
      → is_success rc ≡ true
      → while_success step (x ∷ xs) ((s, w), rc) ≡ while_success step xs (step x s w)
  unfolding while_success
  while_success-step x xs s w rc e = rw e refl

  -- A loop of `main` takes its steps in order: all of them if all succeed, and otherwise those up to the first
  -- one that fails, with whose status and state it ends.
  pub while_success-UpToFailure :
      (xs : List A) (s : Service W) (w : W) (rc : ReturnCode)
      → is_success rc ≡ true
      → UpToFailure xs (s, w) (while_success step xs ((s, w), rc))
  unfolding while_success
  while_success-UpToFailure [] s w rc e = inl (e, AllSucceed.done (s, w))
  while_success-UpToFailure (x ∷ xs) s w rc e =
      subst (UpToFailure (x ∷ xs) (s, w)) (sym (while_success-step x xs s w rc e))
        (elim (Bool-cases (is_success (step x s w).1)) [
          | inl ok ↦
              after_first x xs s w (while_success step xs (step x s w)) ok
                (while_success-UpToFailure xs (step x s w).0.0 (step x s w).0.1 (step x s w).1 ok)
          | inr bad ↦
              subst (UpToFailure (x ∷ xs) (s, w))
                (sym (while_success-failed xs (step x s w).0.0 (step x s w).0.1 (step x s w).1 bad))
                (at_first x xs s w bad)
        ])
