-- ===== src/Util/Sha1/Hex.antt =====
-- The text of a hash and the hash of a text.
mod Tests
use mathlib.Core.Path.{subst}
use evcollect.Prelude.{
  ◌≤◌, ◌⊎◌, inl, inr, ℕ, zero, suc, ◌+◌, ◌*◌, ◌/◌, ◌%◌, ◌<◌, ◌≡◌, refl, ap, ◌∙◌, true, [], ◌∷◌,
  ◌++◌, Bytes, length, drop, leb, ◌==◌, All, arith, append-nil,
}
use evcollect.Util.Sha1.{decode_char, hex_bytes, from_hex_string, hex_table, hash_to_string}

decode_char-hex_table : (n : ℕ) → n < 16 → decode_char (hex_table n) ≡ n
unfolding decode_char hex_table
decode_char-hex_table n h = ground arith

hex_bytes-hash_to_string :
    (hash : Bytes)
    → All (λ byte. byte < 256) hash
    → hex_bytes (length hash) (hash_to_string hash) ≡ hash
unfolding hex_bytes hash_to_string
hex_bytes-hash_to_string [] h = refl
hex_bytes-hash_to_string (byte ∷ hash) h =
    rw
      (
        decode_char-hex_table (byte / 16) (omega (arith, h.0)),
        decode_char-hex_table (byte % 16) (omega arith),
        hex_bytes-hash_to_string hash h.1,
      )
      (ap (λ c. c ∷ hash) (omega arith))

drop-all : (n : ℕ) (bs : Bytes) → length bs ≤ n → drop n bs ≡ []
drop-all zero [] h = refl
drop-all (suc n) [] h = refl
drop-all zero (b ∷ bs) h = absurd (omega arith)
drop-all (suc n) (b ∷ bs) h = drop-all n bs (omega arith)

-- The text of a hash of 20 bytes is read back as the hash, whatever hash was in its place.
pub from_hex_string-hash_to_string :
    (hash old : Bytes)
    → length hash ≡ 20
    → length old ≡ 20
    → All (λ byte. byte < 256) hash
    → from_hex_string (hash_to_string hash) old ≡ (true, hash)
unfolding from_hex_string
from_hex_string-hash_to_string hash old size old_size h =
    let read : hex_bytes 20 (hash_to_string hash) ≡ hash =
      subst (λ n. hex_bytes n (hash_to_string hash) ≡ hash) size
        (hex_bytes-hash_to_string hash h) in
    rw (read, size, drop-all 20 old (omega arith), append-nil hash) refl

length-hex_bytes :
    (n : ℕ) (str : Bytes)
    → (2 * n ≤ suc (length str) × (length (hex_bytes n str) ≡ n))
      ⊎ ((suc (length str) < 2 * n) × length (hex_bytes n str) < n)
unfolding hex_bytes
length-hex_bytes zero str = inl (omega arith, refl)
length-hex_bytes (suc n) [] = inr (omega arith, omega arith)
length-hex_bytes (suc zero) (c ∷ []) = inl (omega arith, refl)
length-hex_bytes (suc (suc n)) (c ∷ []) = inr (omega arith, omega arith)
length-hex_bytes (suc n) (c ∷ d ∷ str) = elim (length-hex_bytes n str) [
  | inl (le, e) ↦ inl (omega arith, omega arith)
  | inr (lt, l) ↦ inr (omega arith, omega arith)
]

same_test : (a b : ℕ) → (40 ≤ suc b × (a ≡ 20)) ⊎ ((suc b < 40) × a < 20) → (a == 20) ≡ leb 39 b
same_test a b (inl (le, e)) = ground arith
same_test a b (inr (lt, l)) = ground arith

-- `fromHexString` takes a text for a hash by its length alone: 39 bytes or more, whatever they are.
from_hex_string-length : (str old : Bytes) → (from_hex_string str old).0 ≡ leb 39 (length str)
unfolding from_hex_string
from_hex_string-length str old =
    same_test (length (hex_bytes 20 str)) (length str) (length-hex_bytes 20 str)
