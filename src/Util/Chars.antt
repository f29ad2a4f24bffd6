-- ===== src/Util/Chars.antt =====
-- The parts of src/evcollect/util/stringutil.cc that go over the bytes of a text one by one, in the C
-- locale. A byte is a number below 256, where the source compares a `char`: those from 128 on are negative
-- there, and in no range.
pub mod Laws
mod Tests
use evcollect.Prelude.{
  ℕ, zero, suc, ◌+◌, ◌-◌, Bool, true, false, ◌&&◌, ◌||◌, Option, none, some, List, [], ◌∷◌, ◌++◌,
  Bytes, length, all, map, ltb, leb, ◌==◌, if◌then◌else◌, codes,
}
use evcollect.Util.StringUtil.{includes, ends_with}

abbrev within : ℕ → ℕ → ℕ → Bool
within lo hi c = leb lo c && leb c hi

pub is_hex_digit : ℕ → Bool
is_hex_digit c = within b'0' b'9' c || within b'a' b'f' c || within b'A' b'F' c

pub is_hex_string : Bytes → Bool
unfolding is_hex_digit
is_hex_string [] = true
is_hex_string (c ∷ cs) = if is_hex_digit c then is_hex_string cs else false

pub is_alphanumeric_char : ℕ → Bool
is_alphanumeric_char c = within b'0' b'9' c || within b'a' b'z' c || within b'A' b'Z' c

pub is_alphanumeric : Bytes → Bool
unfolding is_alphanumeric_char
is_alphanumeric [] = true
is_alphanumeric (c ∷ cs) = if is_alphanumeric_char c then is_alphanumeric cs else false

is_shell_safe_char : ℕ → Bool
is_shell_safe_char c =
    within b'0' b'9' c
    || within b'a' b'z' c
    || within b'A' b'Z' c
    || c == b'_'
    || c == b'-'
    || c == b'.'

unfoldable pub is_shell_safe : Bytes → Bool
unfolding is_shell_safe_char
is_shell_safe [] = true
is_shell_safe (c ∷ cs) = if is_shell_safe_char c then is_shell_safe cs else false

abbrev is_digit : ℕ → Bool
is_digit c = within b'0' b'9' c

pub is_digit_string : Bytes → Bool
is_digit_string [] = true
is_digit_string (c ∷ cs) = if is_digit c then is_digit_string cs else false

-- `isNumber`: the first loop already answers false at a byte that is no digit, a separator too.
abbrev skip_minus : Bytes → Bytes
skip_minus [] = []
skip_minus (c ∷ cs) = if c == b'-' then cs else c ∷ cs

pub first_digits : Bytes → Option Bytes
first_digits [] = some []
first_digits (c ∷ cs) = if is_digit c then first_digits cs else none

abbrev skip_separator : Bytes → Bytes
skip_separator [] = []
skip_separator (c ∷ cs) = if c == b'.' || c == b',' then cs else c ∷ cs

pub is_number : Bytes → Bool
unfolding first_digits is_digit_string
is_number s = elim (first_digits (skip_minus s)) [
  | none ↦ false
  | some rest ↦ is_digit_string (skip_separator rest)
]

-- `compare`: -1, 0 or 1.
pub data Comparison : Type 0 where
  less equal greater : Comparison

pub compare : Bytes → Bytes → Comparison
compare [] [] = equal
compare [] (d ∷ ds) = less
compare (c ∷ cs) [] = greater
compare (c ∷ cs) (d ∷ ds) =
    let more = compare cs ds in if c == d then more else if ltb c d then less else greater

pub to_lower_char : ℕ → ℕ
to_lower_char c = if within b'A' b'Z' c then c + 32 else c

to_upper_char : ℕ → ℕ
to_upper_char c = if within b'a' b'z' c then c - 32 else c

pub to_lower : Bytes → Bytes
unfolding to_lower_char
to_lower [] = []
to_lower (c ∷ cs) = to_lower_char c ∷ to_lower cs

to_upper : Bytes → Bytes
unfolding to_upper_char
to_upper [] = []
to_upper (c ∷ cs) = to_upper_char c ∷ to_upper cs

-- `includesi`.
includesi : Bytes → Bytes → Bool
unfolding to_lower
includesi str subject = includes (to_lower str) (to_lower subject)

-- The first and the last position of a byte; `none` for -1.
pub find_char : ℕ → Bytes → Option ℕ
find_char chr [] = none
find_char chr (c ∷ cs) =
    let later : Option ℕ = elim (find_char chr cs) [ none ↦ none | some i ↦ some (suc i) ] in
    if c == chr then some 0 else later

pub find_last_char : ℕ → Bytes → Option ℕ
find_last_char chr [] = none
find_last_char chr (c ∷ cs) = elim (find_last_char chr cs) [
  | none ↦ if c == chr then some 0 else none
  | some i ↦ some (suc i)
]

strip_shell : Bytes → Bytes
unfolding is_alphanumeric_char
strip_shell [] = []
strip_shell (c ∷ cs) =
    let rest = strip_shell cs in
    if is_alphanumeric_char c || c == b'_' || c == b'-' || c == b'.' then c ∷ rest else rest
