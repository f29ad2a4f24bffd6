-- ===== src/Util/Chars/Tests.antt =====
-- Small texts.
use evcollect.Prelude.{some, ◌≡◌, refl, true, false, [], codes}
use evcollect.Util.Chars.{
  to_lower, find_char, find_last_char, is_number, is_hex_string, is_hex_digit, is_alphanumeric,
  is_alphanumeric_char, is_digit_string, first_digits, to_lower_char,
}

numbers :
    (is_number (codes "-12") ≡ true) × (is_number (codes "1.5") ≡ false) × (is_number [] ≡ true)
unfolding is_number first_digits is_digit_string
numbers = (refl, refl, refl)

classes :
    (is_hex_string (codes "09afAF") ≡ true)
    × (is_alphanumeric (codes "a_") ≡ false)
    × (to_lower (codes "Ab-Z") ≡ codes "ab-z")
unfolding is_hex_string is_hex_digit is_alphanumeric is_alphanumeric_char to_lower to_lower_char
classes = (refl, refl, refl)

places :
    (find_char b'a' (codes "banana") ≡ some 1) × (find_last_char b'a' (codes "banana") ≡ some 5)
unfolding find_char find_last_char
places = (refl, refl)
