-- ===== src/Util/Base64/RoundTrip.antt =====
-- What is encoded is read back.
mod Tests
use evcollect.Prelude.{
  ℕ, suc, ◌+◌, ◌-◌, ◌*◌, ◌/◌, ◌%◌, ◌≤◌, ◌<◌, ◌≡◌, refl, sym, ap, ◌∙◌, true, Option, none, some,
  List, [], ◌∷◌, Bytes, length, All, arith, leb, if◌then◌else◌,
}
use evcollect.Util.Base64.{chrtbl, pr2six, encode_groups, encode, sextets, decode_groups, decode}

pr2six-chrtbl : (n : ℕ) → n < 64 → pr2six (chrtbl n) ≡ n
unfolding pr2six chrtbl
pr2six-chrtbl n h = ground arith

sextets-chrtbl : (n : ℕ) (s : Bytes) → n < 64 → sextets (chrtbl n ∷ s) ≡ n ∷ sextets s
unfolding sextets
sextets-chrtbl n s h = let e : leb n 63 ≡ true = ground arith in rw (pr2six-chrtbl n h, e) refl

sextets-pad : (s : Bytes) → sextets (b'=' ∷ s) ≡ []
unfolding sextets pr2six
sextets-pad s = refl

abbrev IsByte : ℕ → Type 0
IsByte c = c < 256

-- The bits of three bytes, put together again.
first-bits :
    (a b : ℕ) → IsByte a → IsByte b → ((a / 4) % 64 * 4 + (a % 4 * 16 + b / 16) / 16) % 256 ≡ a
first-bits a b ha hb = omega arith

second-bits :
    (a b c : ℕ)
    → IsByte b
    → IsByte c
    → ((a % 4 * 16 + b / 16) * 16) % 256 + (b % 16 * 4 + c / 64) / 4 ≡ b
second-bits a b c hb hc = omega arith

third-bits : (b c : ℕ) → IsByte c → ((b % 16 * 4 + c / 64) * 64) % 256 + c % 64 ≡ c
third-bits b c hc = omega arith

last-bits : (a : ℕ) → IsByte a → ((a / 4) % 64 * 4 + a % 4 * 16 / 16) % 256 ≡ a
last-bits a ha = omega arith

last_two-bits : (a b : ℕ) → IsByte b → ((a % 4 * 16 + b / 16) * 16) % 256 + b % 16 * 4 / 4 ≡ b
last_two-bits a b hb = omega arith

decode-encode_groups : (s : Bytes) → All IsByte s → decode (encode_groups s) ≡ s
unfolding encode_groups decode decode_groups
decode-encode_groups [] h = refl
decode-encode_groups (a ∷ []) h =
    rw
      (
        sextets-chrtbl ((a / 4) % 64) _ (omega arith),
        sextets-chrtbl (a % 4 * 16) _ (omega arith),
        sextets-pad (b'=' ∷ []),
        last-bits a h.0,
      )
      refl
decode-encode_groups (a ∷ b ∷ []) h =
    rw
      (
        sextets-chrtbl ((a / 4) % 64) _ (omega arith),
        sextets-chrtbl (a % 4 * 16 + b / 16) _ (omega (arith, h.1.0)),
        sextets-chrtbl (b % 16 * 4) _ (omega arith),
        sextets-pad [],
        first-bits a b h.0 h.1.0,
        last_two-bits a b h.1.0,
      )
      refl
decode-encode_groups (a ∷ b ∷ c ∷ s) h =
    let ih : decode_groups (sextets (encode_groups s)) ≡ s = decode-encode_groups s h.1.1.1 in
    rw
      (
        sextets-chrtbl ((a / 4) % 64) _ (omega arith),
        sextets-chrtbl (a % 4 * 16 + b / 16) _ (omega (arith, h.1.0)),
        sextets-chrtbl (b % 16 * 4 + c / 64) _ (omega (arith, h.1.1.0)),
        sextets-chrtbl (c % 64) _ (omega arith),
        first-bits a b h.0 h.1.0,
        second-bits a b c h.1.0 h.1.1.0,
        third-bits b c h.1.1.0,
        ih,
      )
      refl

-- Two bytes or more are encoded, and are read back as they were.
pub decode-encode :
    (s : Bytes)
    → 2 ≤ length s
    → All (λ c. c < 256) s
    → (t : Bytes) × (encode s ≡ some t) × (decode t ≡ s)
unfolding encode
decode-encode [] l h = absurd (omega arith)
decode-encode (a ∷ []) l h = absurd (omega arith)
decode-encode (a ∷ b ∷ s) l h =
    (encode_groups (a ∷ b ∷ s), refl, decode-encode_groups (a ∷ b ∷ s) h)
