-- ===== src/Util/Logging/Levels.antt =====
-- The names of the levels.
use evcollect.Prelude.{◌≡◌, ◌↔◌, refl, ap, ◌∙◌, some, Bytes, codes, str_eq, str_eq_iff, arith}
use evcollect.Util.Logging.{
  LogLevel, fatal, emergency, alert, critical, error, warning, notice, info, debug, trace,
  log_level_to_str, str_to_log_level,
}

str_to_log_level-log_level_to_str :
    (level : LogLevel) → str_to_log_level (log_level_to_str level) ≡ some level
unfolding str_to_log_level log_level_to_str str_eq
str_to_log_level-log_level_to_str fatal = refl
str_to_log_level-log_level_to_str emergency = refl
str_to_log_level-log_level_to_str alert = refl
str_to_log_level-log_level_to_str critical = refl
str_to_log_level-log_level_to_str error = refl
str_to_log_level-log_level_to_str warning = refl
str_to_log_level-log_level_to_str notice = refl
str_to_log_level-log_level_to_str info = refl
str_to_log_level-log_level_to_str debug = refl
str_to_log_level-log_level_to_str trace = refl

log_level_to_str-str_to_log_level :
    (s : Bytes) (level : LogLevel) → str_to_log_level s ≡ some level → s ≡ log_level_to_str level
unfolding str_to_log_level log_level_to_str
log_level_to_str-str_to_log_level s level e = ground (
  arith,
  str_eq_iff s (codes "FATAL"),
  str_eq_iff s (codes "EMERGENCY"),
  str_eq_iff s (codes "ALERT"),
  str_eq_iff s (codes "CRITICAL"),
  str_eq_iff s (codes "ERROR"),
  str_eq_iff s (codes "WARNING"),
  str_eq_iff s (codes "NOTICE"),
  str_eq_iff s (codes "INFO"),
  str_eq_iff s (codes "DEBUG"),
  str_eq_iff s (codes "TRACE"),
)

-- `strToLogLevel` reads the names that `logLevelToStr` writes, and no other text: there its assertion fails.
str_to_log_level_iff :
    (s : Bytes) (level : LogLevel)
    → (str_to_log_level s ≡ some level) ↔ (s ≡ log_level_to_str level)
str_to_log_level_iff s level = (
  log_level_to_str-str_to_log_level s level,
  λ e. ap str_to_log_level e ∙ str_to_log_level-log_level_to_str level,
)
