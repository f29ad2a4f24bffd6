-- ===== src/Util/Logging/Delivery.antt =====
-- Which targets get a message.
use evcollect.Prelude.{
  ℕ, zero, suc, ◌+◌, ◌-◌, ◌≤◌, ◌<◌, ◌≡◌, refl, sym, ap, ◌∙◌, Option, none, some, List, [], ◌∷◌,
  ◌++◌, map, append_assoc, append-nil, Bytes, lt→ltb, leb, length, length-append, set_elem,
  replicate, arith, if◌then◌else◌,
}
use evcollect.Util.Logging.{
  LogLevel, level_value, LogTarget, Logger, logger_max_listeners, new_logger, add_target,
  set_minimum_log_level, log_loop, log,
}

module _ {W : Type 0} where
  -- `addTarget`, one after the other.
  pub add_targets : List (LogTarget W) → Logger W → Option (Logger W)
  add_targets [] l = some l
  add_targets (t ∷ ts) l = elim (add_target t l) [ none ↦ none | some l' ↦ add_targets ts l' ]

  -- Each target in turn gets the message.
  pub deliver : List (LogTarget W) → LogLevel → Bytes → W → W
  deliver [] level message w = w
  deliver (t ∷ ts) level message w = deliver ts level message (t level message w)

  abbrev slots : List (LogTarget W) → ℕ → List (Option (LogTarget W))
  slots ts n = map some ts ++ replicate n none

  set_elem-slots :
      (ts : List (LogTarget W)) (t : LogTarget W) (n : ℕ)
      → set_elem (length ts) (some t) (slots ts (suc n)) ≡ slots (ts ++ (t ∷ [])) n
  set_elem-slots [] t n = refl
  set_elem-slots (u ∷ ts) t n = ap (◌∷◌ (some u)) (set_elem-slots ts t n)

  abbrev with_targets : LogLevel → List (LogTarget W) → ℕ → Logger W
  with_targets level ts n = record {
    min_level = level;
    max_listener_index = length ts;
    listeners = slots ts n;
  }

  add_target-slots :
      (level : LogLevel) (ts : List (LogTarget W)) (t : LogTarget W) (n : ℕ)
      → length ts + suc n ≡ logger_max_listeners
      → add_target t (with_targets level ts (suc n)) ≡ some (with_targets level (ts ++ (t ∷ [])) n)
  unfolding add_target
  add_target-slots level ts t n h =
      rw (lt→ltb (length ts) logger_max_listeners (omega arith), set_elem-slots ts t n)
        (ap
          (λ m. some (record {
            min_level = level;
            max_listener_index = m;
            listeners = slots (ts ++ (t ∷ [])) n;
          }))
          (omega (arith, length-append ts (t ∷ []))))

  add_target-full :
      (level : LogLevel) (ts : List (LogTarget W)) (t : LogTarget W)
      → length ts ≡ logger_max_listeners
      → add_target t (with_targets level ts 0) ≡ none
  unfolding add_target
  add_target-full level ts t h = ground arith

  abbrev then_add : List (LogTarget W) → Option (Logger W) → Option (Logger W)
  then_add us o = elim o [ none ↦ none | some l ↦ add_targets us l ]

  add_targets-cons :
      (u : LogTarget W) (us : List (LogTarget W)) (l : Logger W)
      → add_targets (u ∷ us) l ≡ then_add us (add_target u l)
  unfolding add_targets
  add_targets-cons u us l = refl

  add_targets-room :
      (level : LogLevel) (ts us : List (LogTarget W)) (m n : ℕ)
      → m ≡ length us + n
      → length ts + m ≡ logger_max_listeners
      → add_targets us (with_targets level ts m) ≡ some (with_targets level (ts ++ us) n)
  unfolding add_targets
  add_targets-room level ts [] m n e h =
      ap (λ k. some (with_targets level ts k)) (e ∙ omega arith)
      ∙ ap (λ us. some (with_targets level us n)) (sym (append-nil ts))
  add_targets-room level ts (u ∷ us) zero n e h = absurd (omega arith)
  add_targets-room level ts (u ∷ us) (suc m) n e h =
      ap (then_add us) (add_target-slots level ts u m h)
      ∙ add_targets-room level (ts ++ (u ∷ [])) us m n (omega arith)
          (omega (arith, length-append ts (u ∷ [])))
      ∙ ap (λ vs. some (with_targets level vs n)) (append_assoc ts (u ∷ []) us)

  add_targets-full :
      (level : LogLevel) (ts us : List (LogTarget W)) (n : ℕ)
      → n < length us
      → length ts + n ≡ logger_max_listeners
      → add_targets us (with_targets level ts n) ≡ none
  add_targets-full level ts [] n l h = absurd (omega arith)
  add_targets-full level ts (u ∷ us) zero l h =
      add_targets-cons u us (with_targets level ts 0)
      ∙ ap (then_add us) (add_target-full level ts u (omega arith))
  add_targets-full level ts (u ∷ us) (suc n) l h =
      add_targets-cons u us (with_targets level ts (suc n))
      ∙ ap (then_add us) (add_target-slots level ts u n h)
      ∙ add_targets-full level (ts ++ (u ∷ [])) us n (omega arith)
          (omega (arith, length-append ts (u ∷ [])))

  log_loop-slots :
      (ts : List (LogTarget W)) (n : ℕ) (level : LogLevel) (message : Bytes) (w : W)
      → log_loop (length ts) (slots ts n) level message w ≡ deliver ts level message w
  unfolding log_loop deliver
  log_loop-slots [] n level message w = refl
  log_loop-slots (t ∷ ts) n level message w = log_loop-slots ts n level message (t level message w)

  -- A logger takes 128 targets at most. Of a logger with these, `log` hands a message to every target, in the
  -- order in which they were added, if its level is at least the minimum, and to none otherwise.
  pub add_targets-log :
      (min : LogLevel) (ts : List (LogTarget W))
      → (logger_max_listeners < length ts
          → add_targets ts (set_minimum_log_level min new_logger) ≡ none)
        × (length ts ≤ logger_max_listeners
            → (l : Logger W) × (add_targets ts (set_minimum_log_level min new_logger) ≡ some l)
              × ((level : LogLevel) (message : Bytes) (w : W)
                  → log level message l w ≡ (
                      if leb (level_value min) (level_value level)
                      then deliver ts level message w
                      else w)))
  unfolding set_minimum_log_level new_logger log
  add_targets-log min ts = (
    λ h. add_targets-full min [] ts logger_max_listeners h refl,
    λ h. (
      with_targets min ts (logger_max_listeners - length ts),
      add_targets-room min [] ts logger_max_listeners (logger_max_listeners - length ts)
          (omega arith) refl,
      λ level message w.
          ground (arith, log_loop-slots ts (logger_max_listeners - length ts) level message w),
    ),
  )
