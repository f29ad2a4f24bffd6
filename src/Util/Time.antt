-- ===== src/Util/Time.antt =====
-- src/evcollect/util/time.h, time_impl.h and time.cc: the units, the clocks, and points in time. What the clocks
-- read is an argument; the calendar is that of the C library.
pub mod Order
mod Tests
use evcollect.Prelude.{
  ℕ, ◌+◌, ◌*◌, ◌/◌, ◌^◌, ◌-◌, Bool, not, Option, none, some, Bytes, [], ltb, leb, ◌==◌, length,
  c_str, if◌then◌else◌, wrap64,
}

abbrev micros_per_milli : ℕ
micros_per_milli = 1000

abbrev micros_per_second : ℕ
micros_per_second = 1000000

abbrev millis_per_second : ℕ
millis_per_second = 1000

abbrev seconds_per_minute : ℕ
seconds_per_minute = 60

-- `kMiillisPerMinute`.
abbrev miillis_per_minute : ℕ
miillis_per_minute = seconds_per_minute * millis_per_second

abbrev micros_per_minute : ℕ
micros_per_minute = seconds_per_minute * micros_per_second

abbrev minutes_per_hour : ℕ
minutes_per_hour = 60

abbrev seconds_per_hour : ℕ
seconds_per_hour = seconds_per_minute * minutes_per_hour

abbrev millis_per_hour : ℕ
millis_per_hour = seconds_per_hour * millis_per_second

abbrev micros_per_hour : ℕ
micros_per_hour = seconds_per_hour * micros_per_second

abbrev hours_per_day : ℕ
hours_per_day = 24

abbrev seconds_per_day : ℕ
seconds_per_day = seconds_per_hour * hours_per_day

abbrev pub millis_per_day : ℕ
millis_per_day = seconds_per_day * millis_per_second

abbrev micros_per_day : ℕ
micros_per_day = seconds_per_day * micros_per_second

abbrev pub days_per_week : ℕ
days_per_week = 7

abbrev seconds_per_week : ℕ
seconds_per_week = seconds_per_day * days_per_week

-- Microseconds, in spite of its name.
abbrev pub millis_per_week : ℕ
millis_per_week = seconds_per_week * micros_per_second

abbrev micros_per_week : ℕ
micros_per_week = seconds_per_week * micros_per_second

abbrev days_per_year : ℕ
days_per_year = 365

abbrev seconds_per_year : ℕ
seconds_per_year = days_per_year * seconds_per_day

abbrev millis_per_year : ℕ
millis_per_year = days_per_year * millis_per_day

abbrev micros_per_year : ℕ
micros_per_year = days_per_year * micros_per_day

-- A reading of `gettimeofday`, or of `clock_gettime` with nanoseconds.
pub record Reading : Type 0 where
  pub seconds : ℕ
  pub fraction : ℕ

unix_seconds : Reading → ℕ
unix_seconds tv = tv.seconds

unix_millis : Reading → ℕ
unix_millis tv = wrap64 (tv.seconds * 1000 + tv.fraction / 1000)

pub unix_micros : Reading → ℕ
unix_micros tv = wrap64 (tv.seconds * 1000000 + tv.fraction)

-- `MonotonicClock::now`; `none` where the clock fails, and the program aborts.
monotonic_now : Option Reading → Option ℕ
monotonic_now none = none
monotonic_now (some ts) = some (wrap64 (ts.seconds * 1000000 + ts.fraction / 1000))

pub record UnixTime : Type 0 where
  pub utc_micros : ℕ

-- `UnixTime::now` and `WallClock::now`.
pub unix_time_now : Reading → UnixTime
unfolding unix_micros
unix_time_now tv = record { utc_micros = unix_micros tv }

epoch : UnixTime
epoch = record { utc_micros = 0 }

-- `numeric_limits<UnixTime>::min` and `max`.
min_time : UnixTime
unfolding epoch
min_time = epoch

max_time : UnixTime
max_time = record { utc_micros = 2 ^ 64 - 1 }

-- The operators.
time_eq : UnixTime → UnixTime → Bool
time_eq a b = a.utc_micros == b.utc_micros

time_ne : UnixTime → UnixTime → Bool
time_ne a b = not (a.utc_micros == b.utc_micros)

pub time_lt : UnixTime → UnixTime → Bool
time_lt a b = ltb a.utc_micros b.utc_micros

time_gt : UnixTime → UnixTime → Bool
time_gt a b = ltb b.utc_micros a.utc_micros

time_le : UnixTime → UnixTime → Bool
time_le a b = leb a.utc_micros b.utc_micros

time_ge : UnixTime → UnixTime → Bool
time_ge a b = leb b.utc_micros a.utc_micros

-- `toString`: `strftime` on the calendar time of so many seconds. A text that does not fit into 256 bytes with
-- its NUL is none: `strftime` then leaves the buffer undefined, which it leaves alone in practice.
time_to_string : (Bytes → ℕ → Bytes) → Bytes → UnixTime → Bytes
time_to_string strftime_gmtime fmt t =
    let text = strftime_gmtime (c_str fmt) (t.utc_micros / 1000000) in
    if ltb (length text) 256 then text else []
