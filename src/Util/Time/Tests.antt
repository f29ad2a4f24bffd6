-- ===== src/Util/Time/Tests.antt =====
-- Two readings in one second.
use evcollect.Prelude.{◌≡◌, ◌*◌, refl}
use evcollect.Util.Time.{millis_per_week, millis_per_day, days_per_week}

-- The constant for the milliseconds of a week is a thousand times too large.
week : millis_per_week ≡ 1000 * (days_per_week * millis_per_day)
week = refl
