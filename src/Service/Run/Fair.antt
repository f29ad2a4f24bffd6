-- ===== src/Service/Run/Fair.antt =====
-- An event that is due comes nearer to the front of the queue with each round that is taken.
pub mod Round
mod Tests
use mathlib.Core.Path.{subst}
use evcollect.Prelude.{
  ℕ, zero, suc, ◌+◌, ◌≤◌, ◌<◌, ◌≡◌, ◌≢◌, refl, sym, ap, ◌∙◌, ◌⊎◌, inl, inr, Bool, true, false,
  Bool-cases, Option, none, some, List, [], ◌∷◌, arith, All, count, length, get_elem?, get_elem?-lt,
  set_elem, ltb, ◌==◌, if◌then◌else◌,
}
use evcollect.Util.ReturnCode.{ReturnCode}
use evcollect.Service.{EventBinding, TargetBinding, Service}
use evcollect.Service.Queue.{next_tick_of, queue_insert}
use evcollect.Service.Queue.Order.{
  Sorted, Queued, requeue-Queued, others-tick, Sorted-cong, get_elem?-other, get_elem?-set_elem,
  get_elem?-inside,
}
use evcollect.Service.Process.{process_event}
use evcollect.Service.Run.{
  Turn, rescheduled, Step, stopped, went_on, out_of_fuel, requeue, run_job, run_step, run,
}
use evcollect.Service.Run.Place.{position, All-get}
use evcollect.Service.Run.Fair.Round.{DueBy, Answers, Waits, run_step-due, round-Waits}

module _ {W : Type 0} (fuel : ℕ) where
  abbrev rounds : Step W → List Turn → Step W
  rounds r turns = elim r [
    | stopped s' w' ↦ stopped s' w'
    | out_of_fuel ↦ out_of_fuel
    | went_on s' w' ↦ run fuel turns s' w'
  ]

  -- As many rounds as there are events before it bring it to the front.
  run-Waits :
      (targets : List (TargetBinding W)) (turns : List Turn) (s : Service W) (w : W) (i : ℕ)
      (b : EventBinding W)
      → Waits fuel targets i (length turns) b s
      → All (DueBy b.next_tick) turns
      → (s' : Service W) × (w' : W) × (run fuel turns s w ≡ went_on s' w')
        × Waits fuel targets i 0 b s'
  unfolding run
  run-Waits targets [] s w i b h due = (s, w, refl, h)
  run-Waits targets (t ∷ ts) s w i b h due =
      let (s1, w1, e, h1) = round-Waits fuel targets t s w i (length ts) b h due.0 in
      let (s', w', e', h') = run-Waits targets ts s1 w1 i b h1 due.1 in
      (s', w', ap (λ r. rounds r ts) e ∙ e', h')

  front_of :
      (targets : List (TargetBinding W)) (s : Service W) (i : ℕ) (b : EventBinding W)
      → Waits fuel targets i 0 b s
      → (queue : List ℕ) → s.queue ≡ queue
      → (q : List ℕ) × (s.queue ≡ i ∷ q)
  unfolding position
  front_of targets s i b h [] eq =
      let inside = get_elem?-inside i s.event_bindings b h.binding in
      let none_there : count i s.queue ≡ 0 = ap (count i) eq in
      absurd (ground (arith, h.queued.once i))
  front_of targets s i b h (j ∷ q) eq =
      let here : position i (j ∷ q) ≡ 0 = ap (position i) (sym eq) ∙ h.place in
      let same : j ≡ i = ground arith in (q, eq ∙ ap (λ k. k ∷ q) same)

  -- Take rounds in which each `select` comes back, unwoken, at a time when the event `i` is due, and plugins that
  -- come to an end. If `length turns` others stand before it in the queue, it is at the front after as many
  -- rounds, and the next round processes it and puts it back into the queue: others that become due again do not
  -- get before it. How long a `select` takes is not said.
  pub run_due :
      (targets : List (TargetBinding W)) (turns : List Turn) (last : Turn) (s : Service W) (w : W)
      (i : ℕ) (b : EventBinding W)
      → Waits fuel targets i (length turns) b s
      → All (DueBy b.next_tick) turns
      → DueBy b.next_tick last
      → (s' : Service W) × (w' : W) × (q : List ℕ) × (r : W × ReturnCode) × (run fuel turns s w
          ≡ went_on s' w')
        × (s'.queue ≡ i ∷ q)
        × (process_event fuel targets b last.wall w' ≡ some r)
        × (run_step fuel last s' w' ≡ went_on (requeue i q b last.finished s') r.0)
  run_due targets turns last s w i b h due due_last =
      let (s', w', e, h') = run-Waits targets turns s w i b h due in
      let (q, eq) = front_of targets s' i b h' s'.queue refl in
      let (r, er) =
        All-get (Answers fuel targets) i s'.event_bindings b h'.answers h'.binding b.next_tick
          last.wall w' in
      (
        s',
        w',
        q,
        r,
        e,
        eq,
        er,
        run_step-due fuel last s' w' i q b r eq h'.binding due_last
            (ap (λ ts. process_event fuel ts b last.wall w') h'.same_targets ∙ er),
      )
