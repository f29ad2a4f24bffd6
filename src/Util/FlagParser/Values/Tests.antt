-- ===== src/Util/FlagParser/Values/Tests.antt =====
-- A switch, a flag that is required, and the theorem on them.
use evcollect.Prelude.{
  ◌≡◌, refl, true, false, none, some, List, [], ◌∷◌, Bytes, codes, c_str, str_eq, length, ◌<◌,
  arith,
}
use evcollect.Util.ReturnCode.{success, is_success}
use evcollect.Util.FlagParser.{FlagParser, t_switch, t_string, new_flag_parser, define_flag}
use evcollect.Util.FlagParser.Argv.{
  match_short, match_flag, take_value, push_value, take_arg, require, parse_argv,
}
use evcollect.Util.FlagParser.Values.{IsParsed, parse_argv-IsParsed}

abbrev parser : FlagParser
parser =
    define_flag (record { address = 2; text = codes "config" }) t_string true (some (codes "c"))
      none
      (define_flag (record { address = 1; text = codes "daemonize" }) t_switch false none none
        new_flag_parser)

abbrev args : List Bytes
args = codes "--daemonize" ∷ codes "-c" ∷ codes "a.conf" ∷ codes "rest" ∷ []

config_given :
    ((parse_argv args parser).1 ≡ success) × ((parse_argv args parser).0.argv ≡ codes "rest" ∷ [])
unfolding new_flag_parser define_flag parse_argv require take_arg push_value take_value match_flag
    match_short c_str str_eq
config_given = (refl, refl)

-- `--config=` has no value, and `--config=a` is not a flag.
equals_sign :
    (is_success (parse_argv (codes "--config=" ∷ []) parser).1 ≡ false)
    × ((parse_argv (codes "--config=a" ∷ []) parser).0.argv ≡ codes "--config=a" ∷ [])
unfolding new_flag_parser define_flag parse_argv require take_arg push_value take_value match_flag
    match_short c_str str_eq
equals_sign = (refl, refl)

parse_argv-IsParsed_example :
    IsParsed (λ value. length value < 12) (omega arith) (parse_argv args parser)
unfolding new_flag_parser define_flag
parse_argv-IsParsed_example =
    parse_argv-IsParsed (λ value. length value < 12) (omega arith) args parser
      (omega arith, (omega arith, (omega arith, (omega arith, tt)))) (tt, (tt, tt))
