-- ===== src/Service/Run/Sleep.antt =====
-- How long the service sleeps.
use evcollect.Prelude.{
  ℕ, ◌+◌, ◌-◌, ◌*◌, ◌^◌, ◌<◌, ◌≤◌, ◌≡◌, inl, inr, Bool-cases, ap, ◌∙◌, ◌⊎◌, true, false, some, List,
  ◌∷◌, get_elem?, arith, ltb, if◌then◌else◌,
}
use evcollect.Service.{EventBinding, Service}
use evcollect.Service.Run.{Turn, slept, sleep_time, stopped, run_job, run_step}
use evcollect.Service.Run.Fair.Round.{on_binding, on_queue}

-- The time that `select` gets, in seconds and less than a million microseconds, is what is left until the tick;
-- when the tick is over already, it is 2^64 microseconds less what has passed since.
pub sleep_time-exact :
    (next_tick now : ℕ)
    → next_tick < 2 ^ 64
    → now < 2 ^ 64
    → let (seconds, micros) = sleep_time next_tick now in
      (micros < 1000000)
      × (seconds * 1000000 + micros
          ≡ (if ltb next_tick now then 2 ^ 64 - (now - next_tick) else next_tick - now))
unfolding sleep_time
sleep_time-exact next_tick now h l = elim (Bool-cases (ltb next_tick now)) [
  | inl e ↦ let late : next_tick < now = ground arith in rw e (omega arith, omega arith)
  | inr e ↦ let early : now ≤ next_tick = ground arith in rw e (omega arith, omega arith)
]

-- `select` comes back unwoken only when its time has passed.
unfoldable pub Honours : Turn → Type 0
Honours turn =
    (timeout : ℕ × ℕ)
    → (turn.select timeout).0 ≡ false
    → turn.now + (timeout.0 * 1000000 + timeout.1) ≤ (turn.select timeout).1

-- When the sleep before an event is over.
abbrev pub wakes : ℕ → ℕ → ℕ
wakes next_tick now = if ltb next_tick now then next_tick + 2 ^ 64 else next_tick

wakes-le :
    (next_tick now asked awake : ℕ)
    → now < 2 ^ 64
    → asked ≡ (if ltb next_tick now then 2 ^ 64 - (now - next_tick) else next_tick - now)
    → now + asked ≤ awake
    → wakes next_tick now ≤ awake
wakes-le next_tick now asked awake l e h = ground arith

module _ {W : Type 0} (fuel : ℕ) (turn : Turn) (s : Service W) (w : W) where
  run_step-woken :
      (i : ℕ) (q : List ℕ) (job : EventBinding W)
      → s.queue ≡ i ∷ q
      → get_elem? s.event_bindings i ≡ some job
      → (slept turn job).0 ≡ true
      → run_step fuel turn s w ≡ stopped s w
  unfolding run_step
  run_step-woken i q job eq ej ew =
      ap (on_queue fuel turn s w) eq
      ∙ ap (on_binding fuel turn s w i q) ej
      ∙ ap (λ b. if b then stopped s w else run_job fuel turn i q job s w) ew

  -- Take a `select` that comes back unwoken only when its time has passed. A round of `run` whose first event is
  -- `job` ends the loop and changes nothing, or it sleeps at least until the tick of the event: until 2^64
  -- microseconds after the tick, if the tick was over already when the round began.
  pub run_step-sleeps :
      (i : ℕ) (q : List ℕ) (job : EventBinding W)
      → s.queue ≡ i ∷ q
      → get_elem? s.event_bindings i ≡ some job
      → job.next_tick < 2 ^ 64
      → turn.now < 2 ^ 64
      → Honours turn
      → (run_step fuel turn s w ≡ stopped s w) ⊎ (wakes job.next_tick turn.now ≤ (slept turn job).1)
  unfolding Honours
  run_step-sleeps i q job eq ej h l honours = elim (Bool-cases (slept turn job).0) [
    | inl woken ↦ inl (run_step-woken i q job eq ej woken)
    | inr undisturbed ↦
        let (_, asked) = sleep_time-exact job.next_tick turn.now h l in
        let passed = honours (sleep_time job.next_tick turn.now) undisturbed in
        inr (wakes-le job.next_tick turn.now _ _ l asked passed)
  ]
