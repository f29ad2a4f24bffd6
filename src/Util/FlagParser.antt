-- ===== src/Util/FlagParser.antt =====
-- src/evcollect/util/flagparser.cc: the class FlagParser.
pub mod Argv
mod EqualsSign
pub mod Values
use evcollect.Prelude.{
  ℕ, zero, suc, ◌+◌, Bool, true, false, not, ◌&&◌, ◌||◌, Option, none, some, List, [], ◌∷◌, ◌++◌,
  Bytes, codes, c_str, length, take, drop, ltb, ◌==◌, str_eq, if◌then◌else◌,
}
use evcollect.Util.ReturnCode.{ReturnCode, success, error_fmt}

pub data FlagType : Type 0 where
  t_switch t_string t_float t_integer : FlagType

-- A `const char*`: where it points to, and the text that is there.
pub record Literal : Type 0 where
  pub address : ℕ
  pub text : Bytes

pub record FlagState : Type 0 where
  pub flag_type : FlagType
  pub required : Bool
  pub longopt : Literal
  pub shortopt : Option Bytes
  pub default_value : Option Bytes
  pub values : List Bytes

pub record FlagParser : Type 0 where
  pub argv : List Bytes
  pub flags : List FlagState
  pub ignore_unknown : Bool

unfoldable pub new_flag_parser : FlagParser
new_flag_parser = record { argv = []; flags = []; ignore_unknown = false }

unfoldable pub define_flag :
    Literal → FlagType → Bool → Option Bytes → Option Bytes → FlagParser → FlagParser
define_flag longopt flag_type required shortopt default_value p = record p {
  flags =
      p.flags
      ++ (record {
        flag_type = flag_type;
        required = required;
        longopt = longopt;
        shortopt = shortopt;
        default_value = default_value;
        values = [];
      }
          ∷ []);
}

ignore_unknown_flags : FlagParser → FlagParser
ignore_unknown_flags p = record p { ignore_unknown = true }

-- The loop of the readers: `==` on two `const char*` compares where they point to.
unfoldable flag_at : Literal → List FlagState → Option FlagState
flag_at longopt [] = none
flag_at longopt (flag ∷ flags) =
    if flag.longopt.address == longopt.address then some flag else flag_at longopt flags

abbrev is_empty : List Bytes → Bool
is_empty [] = true
is_empty (_ ∷ _) = false

abbrev is_some : Option Bytes → Bool
is_some none = false
is_some (some _) = true

unfoldable pub is_set : Literal → FlagParser → Bool
unfolding flag_at
is_set longopt p = elim (flag_at longopt p.flags) [
  | none ↦ false
  | some flag ↦ is_some flag.default_value || not (is_empty flag.values)
]

-- The values of a flag, or else its default.
values_or_default : FlagState → List Bytes
values_or_default flag = elim flag.values [
  | [] ↦ elim flag.default_value [ none ↦ [] | some value ↦ c_str value ∷ [] ]
  | value ∷ more ↦ value ∷ more
]

abbrev is_string : FlagType → Bool
is_string t_switch = false
is_string t_string = true
is_string t_float = false
is_string t_integer = false

abbrev is_integer : FlagType → Bool
is_integer t_switch = false
is_integer t_string = false
is_integer t_float = false
is_integer t_integer = true

-- `values.back()`, where there is one.
abbrev back : List Bytes → Bytes
back [] = []
back (value ∷ []) = value
back (value ∷ next ∷ more) = back (next ∷ more)

-- The readers give `none` where their assertion fails.
unfoldable pub get_strings : Literal → FlagParser → Option (List Bytes)
unfolding flag_at values_or_default
get_strings longopt p = elim (flag_at longopt p.flags) [
  | none ↦ some []
  | some flag ↦ if is_string flag.flag_type then some (values_or_default flag) else none
]

unfoldable pub get_string : Literal → FlagParser → Option Bytes
unfolding flag_at values_or_default
get_string longopt p = elim (flag_at longopt p.flags) [
  | none ↦ some []
  | some flag ↦ if is_string flag.flag_type then some (back (values_or_default flag)) else none
]

-- `getInt`, where `std::stoll` gives `none` for its exceptions; 0 for a flag without a value.
get_int {ℓ} :
    {Int64 : Type ℓ} → (Bytes → Option Int64) → Int64 → Literal → FlagParser → Option Int64
unfolding flag_at
get_int stoll no_value longopt p = elim (flag_at longopt p.flags) [
  | none ↦ some no_value
  | some flag ↦
      if is_integer flag.flag_type
      then elim (values_or_default flag) [
        | [] ↦ some no_value
        | value ∷ more ↦ elim (stoll (back (value ∷ more))) [
          | none ↦ some no_value
          | some n ↦ some n
        ]
      ]
      else none
]
