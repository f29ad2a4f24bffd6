-- ===== src/Util/FlagParser/Argv.antt =====
-- `parseArgv` of src/evcollect/util/flagparser.cc.
use evcollect.Prelude.{
  ℕ, Bool, true, false, ◌&&◌, Option, none, some, List, [], ◌∷◌, ◌++◌, Bytes, codes, c_str, length,
  take, drop, ◌==◌, str_eq, if◌then◌else◌, map,
}
use evcollect.Util.ReturnCode.{ReturnCode, success, error_fmt}
use evcollect.Util.FlagParser.{
  FlagType, FlagState, FlagParser, t_switch, t_string, t_float, t_integer,
}

abbrev pub is_switch : FlagType → Bool
is_switch t_switch = true
is_switch t_string = false
is_switch t_float = false
is_switch t_integer = false

-- How an argument names a flag: as a whole, or up to a `=` that ends at `eq_len`.
pub data Match : Type 0 where
  no_match plain_match : Match
  eq_match : ℕ → Match

-- `arg.compare(0, text.size(), text) == 0`.
abbrev pub compares : Bytes → Bytes → Bool
compares arg text = str_eq (take (length text) arg) text

unfoldable pub match_short : Bytes → Option Bytes → Match
match_short arg none = no_match
match_short arg (some name) =
    let shortopt = codes "-" ++ c_str name in
    let shortopt_eq = shortopt ++ codes "=" in
    if compares arg shortopt
    then plain_match
    else if compares arg shortopt_eq
    then eq_match (length shortopt_eq)
    else no_match

unfoldable pub match_flag : Bytes → FlagState → Match
unfolding match_short
match_flag arg flag =
    let longopt = codes "--" ++ c_str flag.longopt.text in
    let longopt_eq = longopt ++ codes "=" in
    if length arg == length longopt && compares arg longopt
    then plain_match
    else if length arg == length longopt_eq && compares arg longopt_eq
    then eq_match (length longopt_eq)
    else match_short arg flag.shortopt

-- One argument at a flag, with the argument behind it, if there is one. `taken next` says that the one behind
-- is the value of the flag.
pub data Taken : Type 0 where
  refused : ReturnCode → Taken
  taken : Bool → Bytes → Taken

unfoldable pub take_value : Bytes → Option Bytes → Option ℕ → FlagState → Taken
take_value arg next eq_len flag =
    if is_switch flag.flag_type then taken false (codes "true") else elim eq_len [
      | some n ↦
          if length arg == n
          then refused (
              error_fmt (codes "FLAG_ERROR")
                (codes "flag --" ++ (c_str flag.longopt.text ++ codes "=... has no value")))
          else taken false (drop n arg)
      | none ↦ elim next [
        | none ↦ refused (
            error_fmt (codes "FLAG_ERROR")
              (codes "flag --" ++ (c_str flag.longopt.text ++ codes " has no value")))
        | some value ↦ taken true value
      ]
    ]

-- What an argument does: the flags, with the value added to the first flag that the argument names, and whether
-- the next argument is used up; `unknown` if it names none.
pub data Step : Type 0 where
  unknown : Step
  stops : ReturnCode → Step
  goes_on : Bool → List FlagState → Step

unfoldable pub push_value : FlagState → List FlagState → Taken → Step
push_value flag flags (refused rc) = stops rc
push_value flag flags (taken next value) =
    goes_on next (record flag { values = flag.values ++ (value ∷ []) } ∷ flags)

abbrev pub keep : FlagState → Step → Step
keep flag unknown = unknown
keep flag (stops rc) = stops rc
keep flag (goes_on next flags) = goes_on next (flag ∷ flags)

abbrev pub at_flag : Bytes → Option Bytes → Match → FlagState → List FlagState → Step → Step
at_flag arg next no_match flag flags others = keep flag others
at_flag arg next plain_match flag flags others =
    push_value flag flags (take_value arg next none flag)
at_flag arg next (eq_match eq_len) flag flags others =
    push_value flag flags (take_value arg next (some eq_len) flag)

unfoldable pub take_arg : Bytes → Option Bytes → List FlagState → Step
unfolding match_flag take_value push_value
take_arg arg next [] = unknown
take_arg arg next (flag ∷ flags) =
    let others = take_arg arg next flags in at_flag arg next (match_flag arg flag) flag flags others

-- The loop behind: the first flag that is required and has no value.
unfoldable pub require : List FlagState → ReturnCode
require [] = success
require (flag ∷ flags) = elim flag.values [
  | [] ↦
      if flag.required
      then error_fmt (codes "FLAG_ERROR")
          (codes "flag --" ++ (c_str flag.longopt.text ++ codes " is required"))
      else require flags
  | _ ∷ _ ↦ require flags
]

-- The loop over the arguments.
unfoldable pub parse_argv : List Bytes → FlagParser → FlagParser × ReturnCode
unfolding take_arg require
parse_argv [] p = (p, require p.flags)
parse_argv ([] ∷ args) p = parse_argv args p
parse_argv ((c ∷ cs) ∷ []) p = elim (take_arg (c ∷ cs) none p.flags) [
  | unknown ↦ parse_argv [] (record p { argv = p.argv ++ ((c ∷ cs) ∷ []) })
  | stops rc ↦ (p, rc)
  | goes_on _ flags ↦ parse_argv [] (record p { flags = flags })
]
parse_argv ((c ∷ cs) ∷ next ∷ args) p = elim (take_arg (c ∷ cs) (some next) p.flags) [
  | unknown ↦ parse_argv (next ∷ args) (record p { argv = p.argv ++ ((c ∷ cs) ∷ []) })
  | stops rc ↦ (p, rc)
  | goes_on used flags ↦ elim used [
    | true ↦ parse_argv args (record p { flags = flags })
    | false ↦ parse_argv (next ∷ args) (record p { flags = flags })
  ]
]

-- `parseArgv(argc, argv)`: the name of the program is left out.
unfoldable pub parse_argc_argv : List Bytes → FlagParser → FlagParser × ReturnCode
unfolding parse_argv
parse_argc_argv argv p = parse_argv (map c_str (drop 1 argv)) p
