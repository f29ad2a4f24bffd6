-- ===== src/Util/Sha1.antt =====
-- src/evcollect/util/sha1.cc: the class SHA1Hash, 20 bytes and their text. The hash function itself is a copy of
-- another project's code and is an argument where it is used.
pub mod Hex
pub mod Order
use evcollect.Prelude.{
  ℕ, zero, suc, ◌+◌, ◌-◌, ◌*◌, ◌/◌, ◌%◌, Bool, true, false, not, Option, none, some, [], ◌∷◌, ◌++◌,
  Bytes, length, take, drop, get_or, replicate, str_eq, le_value, ltb, leb, ◌==◌, ◌&&◌,
  if◌then◌else◌,
}
use evcollect.Util.Chars.{Comparison, less, equal, greater}

-- `SHA1Hash::kSize`.
abbrev pub hash_size : ℕ
hash_size = 20

-- `decode_char`: any other byte counts as 0.
unfoldable pub decode_char : ℕ → ℕ
decode_char c =
    if leb b'0' c && leb c b'9'
    then c - b'0'
    else if leb b'A' c && leb c b'F'
    then (c - b'A') + 10
    else if leb b'a' c && leb c b'f'
    then (c - b'a') + 10
    else 0

-- The loop of `fromHexString`, for as many bytes as the hash has left. Behind the last byte of a string is a NUL.
unfoldable pub hex_bytes : ℕ → Bytes → Bytes
unfolding decode_char
hex_bytes zero str = []
hex_bytes (suc n) [] = []
hex_bytes (suc n) (c ∷ []) = (decode_char c * 16 + decode_char 0) ∷ []
hex_bytes (suc n) (c ∷ d ∷ str) = (decode_char c * 16 + decode_char d) ∷ hex_bytes n str

-- `fromHexString`, with the hash that it writes into.
unfoldable pub from_hex_string : Bytes → Bytes → Bool × Bytes
unfolding hex_bytes
from_hex_string str hash =
    let bytes = hex_bytes hash_size str in
    (length bytes == hash_size, bytes ++ drop (length bytes) hash)

-- `hexTable` and `toString`.
unfoldable pub hex_table : ℕ → ℕ
hex_table n = if ltb n 10 then b'0' + n else b'a' + (n - 10)

unfoldable pub hash_to_string : Bytes → Bytes
unfolding hex_table
hash_to_string [] = []
hash_to_string (byte ∷ hash) = hex_table (byte / 16) ∷ hex_table (byte % 16) ∷ hash_to_string hash

-- `SHA1Hash()`, and `SHA1Hash(data, size)`, whose assertion is on the size.
zero_hash : Bytes
zero_hash = replicate hash_size 0

hash_of_bytes : Bytes → Option Bytes
hash_of_bytes bytes = if length bytes == hash_size then some bytes else none

-- `SHA1::compare`: the loop goes from the last byte to the first.
unfoldable pub compare_from : ℕ → Bytes → Bytes → Comparison
compare_from zero a b = equal
compare_from (suc i) a b =
    let rest = compare_from i a b in
    if ltb (get_or a i 0) (get_or b i 0)
    then less
    else if ltb (get_or b i 0) (get_or a i 0)
    then greater
    else rest

unfoldable pub hash_compare : Bytes → Bytes → Comparison
unfolding compare_from
hash_compare a b = compare_from hash_size a b

-- The operators.
unfoldable pub hash_eq : Bytes → Bytes → Bool
hash_eq a b = str_eq (take hash_size a) (take hash_size b)

unfoldable hash_ne : Bytes → Bytes → Bool
hash_ne a b = not (str_eq (take hash_size a) (take hash_size b))

unfoldable pub hash_lt : Bytes → Bytes → Bool
unfolding hash_compare
hash_lt a b = elim (hash_compare a b) [ less ↦ true | equal ↦ false | greater ↦ false ]

unfoldable pub hash_gt : Bytes → Bytes → Bool
unfolding hash_compare
hash_gt a b = elim (hash_compare a b) [ less ↦ false | equal ↦ false | greater ↦ true ]

-- `std::hash`: the first eight bytes as a `size_t`.
std_hash : Bytes → ℕ
std_hash a = le_value (take 8 a)
