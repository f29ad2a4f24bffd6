-- ===== src/Util/Json/Tests.antt =====
-- The escaping and its reader on small texts.
use evcollect.Prelude.{◌≡◌, refl, [], ◌∷◌, ◌++◌, Bytes, codes, some}
use evcollect.Util.Json.{hex_digit, escape_byte, json_escape}
use evcollect.Util.Json.Decode.{plain, decode, decode-json_escape}

abbrev quoted : Bytes
quoted = codes "a\"b\\" ++ (10 ∷ 1 ∷ 200 ∷ [])

escape-quoted : json_escape quoted ≡ codes "a\\\"b\\\\\\n\\u0001" ++ (200 ∷ [])
unfolding json_escape escape_byte hex_digit
escape-quoted = refl

decode-json_escape_example :
    decode plain (json_escape quoted ++ (b'"' ∷ codes ", 7")) ≡ some (quoted, codes ", 7")
decode-json_escape_example = decode-json_escape quoted (codes ", 7")
