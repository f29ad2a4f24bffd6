-- ===== src/Util/Time/Order.antt =====
-- The points in time of two readings of the clock are in the order of the readings.
use evcollect.Prelude.{◌+◌, ◌*◌, ◌<◌, ◌≡◌, ◌↔◌, ◌⊎◌, true, ltb→lt, lt→ltb, wrap64-small, arith, ℕ}
use evcollect.Util.Time.{Reading, unix_micros, unix_time_now, time_lt}

-- Before the other reading: in an earlier second, or in the same one at an earlier microsecond.
abbrev Earlier : Reading → Reading → Type 0
Earlier a b = (a.seconds < b.seconds) ⊎ ((a.seconds ≡ b.seconds) × (a.fraction < b.fraction))

earlier-micros :
    (s t f g : ℕ)
    → f < 1000000
    → g < 1000000
    → ((s * 1000000 + f < t * 1000000 + g) → (s < t) ⊎ ((s ≡ t) × (f < g)))
      × ((s < t) ⊎ ((s ≡ t) × (f < g)) → s * 1000000 + f < t * 1000000 + g)
earlier-micros s t f g hf hg = (λ h. ground arith, λ e. ground arith)

-- Of two readings up to the year 586,000, `UnixTime` has the one that is earlier as the smaller one.
time_lt-Earlier :
    (a b : Reading)
    → a.fraction < 1000000
    → b.fraction < 1000000
    → a.seconds < 18446744073709
    → b.seconds < 18446744073709
    → (time_lt (unix_time_now a) (unix_time_now b) ≡ true) ↔ Earlier a b
unfolding time_lt unix_time_now unix_micros
time_lt-Earlier a b fa fb sa sb =
    rw
      (
        wrap64-small (a.seconds * 1000000 + a.fraction) (omega arith),
        wrap64-small (b.seconds * 1000000 + b.fraction) (omega arith),
      )
      (
        λ e. (earlier-micros a.seconds b.seconds a.fraction b.fraction fa fb).0 (ltb→lt _ _ e),
        λ h. lt→ltb _ _ ((earlier-micros a.seconds b.seconds a.fraction b.fraction fa fb).1 h),
      )
