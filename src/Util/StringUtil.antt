-- ===== src/Util/StringUtil.antt =====
-- src/evcollect/util/stringutil.cc and stringutil_impl.h: search, split, join, replace and format.
-- Positions stay below 2^31, where the `int` cursors of the source hold them.
mod Search
pub mod Split
pub mod Join
mod Tests
use evcollect.Prelude.{
  ℕ, zero, suc, ◌+◌, ◌-◌, ◌/◌, ◌%◌, Bool, true, false, not, ◌&&◌, Option, none, some, List, [], ◌∷◌,
  ◌++◌, Bytes, codes, c_str, length, take, drop, ltb, ◌==◌, str_eq, if◌then◌else◌,
}
use mathlib.Core.Option
use mathlib.Core.Option.{get_or}
use mathlib.Core.List.{reverse}

-- `std::to_string` of an unsigned number.
digits_onto : ℕ → ℕ → Bytes → Bytes
digits_onto zero n out = out
digits_onto (suc fuel) n out =
    let more = digits_onto fuel (n / 10) ((b'0' + n % 10) ∷ out) in if n == 0 then out else more

pub to_string : ℕ → Bytes
unfolding digits_onto
to_string n = if n == 0 then codes "0" else digits_onto n n []

-- `str.compare(0, prefix.length(), prefix) == 0`, on a text that may be shorter.
unfoldable pub starts_with : Bytes → Bytes → Bool
starts_with [] s = true
starts_with (p ∷ ps) [] = false
starts_with (p ∷ ps) (c ∷ cs) = p == c && starts_with ps cs

pub begins_with : Bytes → Bytes → Bool
unfolding starts_with
begins_with str prefix =
    if ltb (length str) (length prefix) then false else str_eq (take (length prefix) str) prefix

pub ends_with : Bytes → Bytes → Bool
ends_with str suffix =
    if ltb (length str) (length suffix)
    then false
    else str_eq (drop (length str - length suffix) str) suffix

-- `std::string::find`: the first position of the pattern, from the start, and from `pos`.
unfoldable pub find : Bytes → Bytes → Option ℕ
unfolding starts_with
find pattern [] = if starts_with pattern [] then some 0 else none
find pattern (c ∷ cs) =
    let later = Option.map suc (find pattern cs) in
    if starts_with pattern (c ∷ cs) then some 0 else later

unfoldable pub find_from : Bytes → Bytes → ℕ → Option ℕ
unfolding find
find_from pattern str pos =
    if ltb (length str) pos then none else Option.map (◌+◌ pos) (find pattern (drop pos str))

-- `includes`: is the subject anywhere in the text?
unfoldable pub includes : Bytes → Bytes → Bool
unfolding find
includes str subject = elim (find subject str) [ none ↦ false | some _ ↦ true ]

-- The loops of `replaceAll` and `split`. `none`: the fuel ran out, as the loop of an empty pattern does
-- not end.
pub replace_loop : ℕ → Bytes → Bytes → Bytes → ℕ → Option Bytes
replace_loop zero pattern replacement str cur = none
replace_loop (suc fuel) pattern replacement str cur = elim (find_from pattern str cur) [
  | none ↦ some str
  | some at ↦
      replace_loop fuel pattern replacement
        (take at str ++ (replacement ++ drop (at + length pattern) str)) (at + length replacement)
]

pub replace_all : Bytes → Bytes → Bytes → Option Bytes
unfolding replace_loop
replace_all str pattern replacement =
    if length str == 0 then some str else replace_loop (suc (length str)) pattern replacement str 0

unfoldable pub split_loop : ℕ → Bytes → Bytes → ℕ → Option (List Bytes)
split_loop zero str pattern begin = none
split_loop (suc fuel) str pattern begin = elim (find_from pattern str begin) [
  | none ↦ some (drop begin str ∷ [])
  | some stop ↦
      Option.map (λ parts. take (stop - begin) (drop begin str) ∷ parts)
        (split_loop fuel str pattern (stop + length pattern))
]

unfoldable pub split : Bytes → Bytes → Option (List Bytes)
unfolding split_loop find_from find starts_with
split str pattern = split_loop (suc (length str)) str pattern 0

-- `join`: the separator stands before every part but the first.
unfoldable pub join_more : List Bytes → Bytes → Bytes
join_more [] sep = []
join_more (x ∷ xs) sep = sep ++ (x ++ join_more xs sep)

unfoldable pub join : List Bytes → Bytes → Bytes
unfolding join_more
join [] sep = []
join (x ∷ xs) sep = x ++ join_more xs sep

-- `format` and `formatv` replace `$0`, `$1`, … one after the other, each in what the ones before it
-- left. The pattern is never empty, so that every call returns.
pub format_args : Bytes → ℕ → List Bytes → Option Bytes
unfolding replace_all to_string
format_args str n [] = some str
format_args str n (v ∷ vs) = elim (replace_all str (b'$' ∷ to_string n) v) [
  | none ↦ none
  | some str' ↦ format_args str' (n + 1) vs
]

unfoldable pub format : Bytes → List Bytes → Bytes
unfolding format_args replace_loop find_from find starts_with digits_onto
format fmt values = get_or (format_args fmt 0 values) []

-- `formatv`, whose format is a C string.
formatv : Bytes → List Bytes → Bytes
unfolding format
formatv fmt values = format (c_str fmt) values

-- `stripTrailingSlashes`, on the text from its end: with no byte left that is no slash, the source reads the last
-- byte of an empty string, which is undefined.
strip_slashes : Bytes → Option Bytes
strip_slashes [] = none
strip_slashes (c ∷ cs) = let rest = strip_slashes cs in if c == b'/' then rest else some (c ∷ cs)

pub strip_trailing_slashes : Bytes → Option Bytes
unfolding strip_slashes
strip_trailing_slashes str = Option.map reverse (strip_slashes (reverse str))

-- `toString` of a truth value.
bool_to_string : Bool → Bytes
bool_to_string value = if value then codes "true" else codes "false"
