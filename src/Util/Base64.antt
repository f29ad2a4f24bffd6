-- ===== src/Util/Base64.antt =====
-- src/evcollect/util/base64.h. Bytes and sextets are numbers; an `|` of parts that share no bit is a sum.
pub mod RoundTrip
use evcollect.Prelude.{
  ℕ, ◌+◌, ◌-◌, ◌*◌, ◌/◌, ◌%◌, Option, none, some, List, [], ◌∷◌, ◌++◌, Bytes, ltb, leb, ◌==◌, ◌&&◌,
  if◌then◌else◌,
}

-- `chrtbl` and `pr2six`; 64 is for a byte that is no character of the alphabet.
unfoldable pub chrtbl : ℕ → ℕ
chrtbl n =
    if ltb n 26
    then b'A' + n
    else if ltb n 52
    then b'a' + (n - 26)
    else if ltb n 62
    then b'0' + (n - 52)
    else if n == 62
    then b'+'
    else b'/'

unfoldable pub pr2six : ℕ → ℕ
pr2six c =
    if leb b'A' c && leb c b'Z'
    then c - b'A'
    else if leb b'a' c && leb c b'z'
    then (c - b'a') + 26
    else if leb b'0' c && leb c b'9'
    then (c - b'0') + 52
    else if c == b'+'
    then 62
    else if c == b'/'
    then 63
    else 64

-- The loop of `encode`, and what is behind it for one or two bytes that are left.
unfoldable pub encode_groups : Bytes → Bytes
unfolding chrtbl
encode_groups [] = []
encode_groups (a ∷ []) = chrtbl ((a / 4) % 64) ∷ chrtbl (a % 4 * 16) ∷ b'=' ∷ b'=' ∷ []
encode_groups (a ∷ b ∷ []) =
    chrtbl ((a / 4) % 64) ∷ chrtbl (a % 4 * 16 + b / 16) ∷ chrtbl (b % 16 * 4) ∷ b'=' ∷ []
encode_groups (a ∷ b ∷ c ∷ s) =
    chrtbl ((a / 4) % 64)
    ∷ chrtbl (a % 4 * 16 + b / 16)
    ∷ chrtbl (b % 16 * 4 + c / 64)
    ∷ chrtbl (c % 64)
    ∷ encode_groups s

-- `encode`: with fewer than two bytes `len - 2` wraps around, and the loop reads past the end (`none`).
unfoldable pub encode : Bytes → Option Bytes
unfolding encode_groups
encode [] = none
encode (a ∷ []) = none
encode (a ∷ b ∷ s) = some (encode_groups (a ∷ b ∷ s))

-- The sextets up to the first byte that is no character of the alphabet: `nprbytes` of them.
unfoldable pub sextets : Bytes → Bytes
unfolding pr2six
sextets [] = []
sextets (c ∷ cs) = let rest = sextets cs in if leb (pr2six c) 63 then pr2six c ∷ rest else []

unfoldable pub decode_groups : Bytes → Bytes
decode_groups [] = []
decode_groups (a ∷ []) = []
decode_groups (a ∷ b ∷ []) = (a * 4 + b / 16) % 256 ∷ []
decode_groups (a ∷ b ∷ c ∷ []) = (a * 4 + b / 16) % 256 ∷ (b * 16 % 256 + c / 4) ∷ []
decode_groups (a ∷ b ∷ c ∷ d ∷ s) =
    (a * 4 + b / 16) % 256 ∷ (b * 16 % 256 + c / 4) ∷ (c * 64 % 256 + d) ∷ decode_groups s

unfoldable pub decode : Bytes → Bytes
unfolding sextets decode_groups
decode s = decode_groups (sextets s)
