-- ===== src/Util/Base64/RoundTrip/Tests.antt =====
-- The user and the password of a header.
use evcollect.Prelude.{◌≡◌, refl, some, Bytes, codes, arith}
use evcollect.Util.Base64.{encode, encode_groups, chrtbl, decode}
use evcollect.Util.Base64.RoundTrip.{decode-encode}

abbrev user : Bytes
user = codes "bob:pw"

encode-user : encode user ≡ some (codes "Ym9iOnB3")
unfolding encode encode_groups chrtbl
encode-user = refl

decode-encode_example : (t : Bytes) × (encode user ≡ some t) × (decode t ≡ user)
decode-encode_example =
    decode-encode user (omega arith)
      (omega arith, (omega arith, (omega arith, (omega arith, (omega arith, (omega arith, tt))))))
