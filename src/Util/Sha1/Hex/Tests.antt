-- ===== src/Util/Sha1/Hex/Tests.antt =====
-- The hash of the empty text.
use evcollect.Prelude.{◌≡◌, refl, true, Bytes, [], ◌∷◌, codes, replicate, arith}
use evcollect.Util.Sha1.{decode_char, hex_bytes, from_hex_string, hex_table, hash_to_string}
use evcollect.Util.Sha1.Hex.{from_hex_string-hash_to_string}

abbrev empty_hash : Bytes
empty_hash =
    218 ∷ 57 ∷ 163 ∷ 238 ∷ 94 ∷ 107 ∷ 75 ∷ 13 ∷ 50 ∷ 85 ∷ 191 ∷ 239 ∷ 149 ∷ 96 ∷ 24 ∷ 144 ∷ 175
    ∷ 216 ∷ 7 ∷ 9 ∷ []

empty_text : hash_to_string empty_hash ≡ codes "da39a3ee5e6b4b0d3255bfef95601890afd80709"
unfolding hash_to_string hex_table
empty_text = refl

no_digits : from_hex_string (replicate 39 b'?') [] ≡ (true, replicate 20 0)
unfolding from_hex_string hex_bytes decode_char
no_digits = refl

from_hex_string-hash_to_string_example :
    from_hex_string (hash_to_string empty_hash) (replicate 20 0) ≡ (true, empty_hash)
from_hex_string-hash_to_string_example =
    from_hex_string-hash_to_string empty_hash (replicate 20 0) refl refl (ground arith)
