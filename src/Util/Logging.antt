-- ===== src/Util/Logging.antt =====
-- src/evcollect/util/logging.h and logging.cc: the levels, the logger with its targets, and the two targets.
-- `W` is the state of the world that a target writes to.
pub mod Levels
pub mod Delivery
pub mod Lines
mod Tests
use evcollect.Prelude.{
  ℕ, zero, suc, ◌+◌, Bool, true, false, Option, none, some, List, [], ◌∷◌, ◌++◌, Bytes, codes,
  c_str, str_eq, ltb, leb, ◌==◌, replicate, set_elem, wrap64, if◌then◌else◌,
}
use evcollect.Util.StringUtil.{format, replace_all}

pub data LogLevel : Type 0 where
  fatal emergency alert critical error warning notice info debug trace : LogLevel

-- The numbers of the `enum class`.
unfoldable pub level_value : LogLevel → ℕ
level_value fatal = 10000
level_value emergency = 9000
level_value alert = 8000
level_value critical = 7000
level_value error = 6000
level_value warning = 5000
level_value notice = 4000
level_value info = 3000
level_value debug = 2000
level_value trace = 1000

unfoldable pub log_level_to_str : LogLevel → Bytes
log_level_to_str fatal = codes "FATAL"
log_level_to_str emergency = codes "EMERGENCY"
log_level_to_str alert = codes "ALERT"
log_level_to_str critical = codes "CRITICAL"
log_level_to_str error = codes "ERROR"
log_level_to_str warning = codes "WARNING"
log_level_to_str notice = codes "NOTICE"
log_level_to_str info = codes "INFO"
log_level_to_str debug = codes "DEBUG"
log_level_to_str trace = codes "TRACE"

-- `none` where the assertion fails.
unfoldable pub str_to_log_level : Bytes → Option LogLevel
str_to_log_level s =
    if str_eq s (codes "FATAL")
    then some fatal
    else if str_eq s (codes "EMERGENCY")
    then some emergency
    else if str_eq s (codes "ALERT")
    then some alert
    else if str_eq s (codes "CRITICAL")
    then some critical
    else if str_eq s (codes "ERROR")
    then some error
    else if str_eq s (codes "WARNING")
    then some warning
    else if str_eq s (codes "NOTICE")
    then some notice
    else if str_eq s (codes "INFO")
    then some info
    else if str_eq s (codes "DEBUG")
    then some debug
    else if str_eq s (codes "TRACE")
    then some trace
    else none

-- The levels of the C interface in src/evcollect/evcollect.h, by their numbers.
unfoldable pub evcollect_loglevel : ℕ → Option LogLevel
evcollect_loglevel n =
    if n == 10
    then some fatal
    else if n == 9
    then some emergency
    else if n == 8
    then some alert
    else if n == 7
    then some critical
    else if n == 6
    then some error
    else if n == 5
    then some warning
    else if n == 4
    then some notice
    else if n == 3
    then some info
    else if n == 2
    then some debug
    else if n == 1
    then some trace
    else none

-- `LOGGER_MAX_LISTENERS`.
abbrev pub logger_max_listeners : ℕ
logger_max_listeners = 128

-- The method `log` of a target.
abbrev pub LogTarget : Type 0 → Type 0
LogTarget W = LogLevel → Bytes → W → W

pub record Logger (W : Type 0) : Type 0 where
  pub min_level : LogLevel
  pub max_listener_index : ℕ
  pub listeners : List (Option (LogTarget W))

-- `StderrLogOutputStream::log`, with the time as `strftime` writes it. The pattern is not empty, so that
-- `replaceAll` returns.
unfoldable stderr_prefix : Bytes → Bytes → LogLevel → Bytes
unfolding log_level_to_str
stderr_prefix now program level =
    format (codes "$0 $1 [$2] ") (now ∷ program ∷ log_level_to_str level ∷ [])

unfoldable pub stderr_lines : Bytes → Bytes → Bytes
stderr_lines prefix message =
    elim (replace_all (prefix ++ message) (codes "\n") (codes "\n" ++ prefix)) [
      | none ↦ []
      | some lines ↦ lines ++ codes "\n"
    ]

module _ {W : Type 0} where
  unfoldable pub new_logger : Logger W
  new_logger = record {
    min_level = notice;
    max_listener_index = 0;
    listeners = replicate logger_max_listeners none;
  }

  -- `none`: the write is behind the array.
  unfoldable pub add_target : LogTarget W → Logger W → Option (Logger W)
  add_target target l =
      let id = l.max_listener_index in
      if ltb id logger_max_listeners
      then some (record l {
        max_listener_index = wrap64 (id + 1);
        listeners = set_elem id (some target) l.listeners;
      })
      else none

  pub set_minimum_log_level : LogLevel → Logger W → Logger W
  set_minimum_log_level level l = record l { min_level = level }

  -- The loop of `log`, over so many of the listeners.
  unfoldable pub log_loop : ℕ → List (Option (LogTarget W)) → LogLevel → Bytes → W → W
  log_loop zero listeners level message w = w
  log_loop (suc n) [] level message w = w
  log_loop (suc n) (none ∷ listeners) level message w = log_loop n listeners level message w
  log_loop (suc n) (some target ∷ listeners) level message w =
      log_loop n listeners level message (target level message w)

  unfoldable pub log : LogLevel → Bytes → Logger W → W → W
  unfolding log_loop
  log level message l w =
      if ltb (level_value level) (level_value l.min_level)
      then w
      else log_loop l.max_listener_index l.listeners level message w

  -- `log` with arguments for the message: it is formatted only where it is logged.
  unfoldable log_format : LogLevel → Bytes → List Bytes → Logger W → W → W
  unfolding log
  log_format level message args l w =
      if leb (level_value l.min_level) (level_value level)
      then log level (format message args) l w
      else w

  -- `logFatal` down to `logTrace`: with no arguments, the overload that does not format is taken.
  unfoldable pub log_message : LogLevel → Bytes → List Bytes → Logger W → W → W
  unfolding log log_format
  log_message level message [] l w = log level message l w
  log_message level message (arg ∷ args) l w = log_format level message (arg ∷ args) l w

  stderr_target : (W → Bytes) → (Bytes → W → W) → Bytes → LogTarget W
  unfolding stderr_prefix stderr_lines
  stderr_target now cerr program level message w =
      cerr (stderr_lines (stderr_prefix (now w) program level) message) w

  -- `logToStderr`.
  unfoldable pub log_to_stderr :
      (W → Bytes) → (Bytes → W → W) → Bytes → LogLevel → Logger W → Option (Logger W)
  unfolding stderr_target set_minimum_log_level add_target
  log_to_stderr now cerr program level l =
      add_target (stderr_target now cerr program) (set_minimum_log_level level l)

  -- `SyslogTarget::log`: every message goes to the system log at the level NOTICE.
  syslog_target : (Bytes → W → W) → LogTarget W
  unfolding log_level_to_str
  syslog_target syslog level message w =
      syslog (codes "[" ++ (log_level_to_str level ++ (codes "] " ++ c_str message))) w

  -- `logToSyslog`; the level that it is given is not used. `openlog` changes the world.
  unfoldable pub log_to_syslog :
      (Bytes → W → W) → (Bytes → W → W) → Bytes → LogLevel → Logger W → W → Option (Logger W) × W
  unfolding syslog_target add_target
  log_to_syslog openlog syslog name level l w =
      (add_target (syslog_target syslog) l, openlog (c_str name) w)

  -- `evcollect_log` of src/evcollect/plugin.cc: no case of its `switch` is for a number outside.
  unfoldable pub evcollect_log : ℕ → Bytes → Logger W → W → W
  unfolding evcollect_loglevel log_message
  evcollect_log n msg l w = elim (evcollect_loglevel n) [
    | none ↦ w
    | some level ↦ log_message level (c_str msg) [] l w
  ]
