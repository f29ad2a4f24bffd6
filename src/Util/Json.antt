-- ===== src/Util/Json.antt =====
-- `StringUtil::jsonEscape` of src/evcollect/util/stringutil.cc.
pub mod Decode
mod Tests
use evcollect.Prelude.{ℕ, ◌+◌, ◌-◌, ◌/◌, ◌%◌, [], ◌∷◌, ◌++◌, Bytes, codes, ltb, ◌==◌, if◌then◌else◌}

-- A hexadecimal digit, in lower case.
unfoldable pub hex_digit : ℕ → ℕ
hex_digit n = if ltb n 10 then b'0' + n else (b'a' + n) - 10

-- The cases of the `switch`: the control characters, the quote and the backslash; the rest is copied.
unfoldable pub escape_byte : ℕ → Bytes
unfolding hex_digit
escape_byte c =
    if c == b'"'
    then codes "\\\""
    else if c == b'\\'
    then codes "\\\\"
    else if c == 8
    then codes "\\b"
    else if c == 9
    then codes "\\t"
    else if c == 10
    then codes "\\n"
    else if c == 12
    then codes "\\f"
    else if c == 13
    then codes "\\r"
    else if ltb c 32
    then codes "\\u00" ++ hex_digit (c / 16) ∷ hex_digit (c % 16) ∷ []
    else c ∷ []

unfoldable pub json_escape : Bytes → Bytes
unfolding escape_byte
json_escape [] = []
json_escape (c ∷ cs) = escape_byte c ++ json_escape cs
