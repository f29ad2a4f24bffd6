-- ===== src/Util/Logging/Tests.antt =====
-- A logger that counts, and the theorems on it.
use mathlib.Core.List.{flatten}
use evcollect.Prelude.{
  ℕ, ◌+◌, ◌<◌, ◌≤◌, ◌≡◌, refl, none, some, List, [], ◌∷◌, Bytes, codes, c_str, leb, length,
  if◌then◌else◌,
}
use evcollect.Util.StringUtil.{join, includes, find, starts_with}
use evcollect.Util.Logging.{
  LogLevel, info, level_value, LogTarget, Logger, logger_max_listeners, new_logger,
  set_minimum_log_level, log, log_loop, stderr_lines, evcollect_log, evcollect_loglevel,
  log_message,
}
use evcollect.Util.Logging.Delivery.{add_targets, deliver, add_targets-log}
use evcollect.Util.Logging.Lines.{prefixed, newline, stderr_lines-flatten}

abbrev counting : List (LogTarget ℕ)
counting = (λ level message w. w + 1) ∷ (λ level message w. w + length message) ∷ []

abbrev logger : Logger ℕ
logger = record {
  min_level = info;
  max_listener_index = 2;
  listeners = some (λ level message w. w + 1) ∷ none ∷ [];
}

plugin_message :
    (evcollect_log 10 (codes "a") logger 3 ≡ 4) × (evcollect_log 2 (codes "a") logger 3 ≡ 3)
unfolding evcollect_log evcollect_loglevel log_message log log_loop level_value c_str
plugin_message = (refl, refl)

add_targets-log_example :
    (logger_max_listeners < length counting
      → add_targets counting (set_minimum_log_level info new_logger) ≡ none)
    × (length counting ≤ logger_max_listeners
        → (l : Logger ℕ) × (add_targets counting (set_minimum_log_level info new_logger) ≡ some l)
          × ((level : LogLevel) (message : Bytes) (w : ℕ)
              → log level message l w ≡ (
                  if leb (level_value info) (level_value level)
                  then deliver counting level message w
                  else w)))
add_targets-log_example = add_targets-log info counting

stderr_lines-flatten_example :
    stderr_lines (codes "p ") (join (codes "a" ∷ codes "b" ∷ []) newline)
    ≡ flatten (prefixed (codes "p ") (codes "a" ∷ codes "b" ∷ []))
unfolding includes find starts_with
stderr_lines-flatten_example =
    stderr_lines-flatten (codes "p ") (codes "a") (codes "b" ∷ []) refl (refl, (refl, tt))
