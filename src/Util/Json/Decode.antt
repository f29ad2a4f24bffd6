-- ===== src/Util/Json/Decode.antt =====
-- A reader of JSON strings, RFC 8259 section 7, against which the escaping is held. It is restricted to
-- `\u` escapes below 128, which stand for one byte; other bytes of a text are taken as they are.
use mathlib.Core.Option
use evcollect.Prelude.{
  ℕ, ◌+◌, ◌-◌, ◌*◌, ◌/◌, ◌%◌, ◌<◌, ◌≡◌, refl, ◌∙◌, ap, true, false, Bool-cases, inl, inr, ◌&&◌,
  Option, none, some, [], ◌∷◌, ◌++◌, append_assoc, arith, Bytes, codes, ltb, ltb→lt, ==_iff, leb,
  ◌==◌, if◌then◌else◌,
}
use evcollect.Util.Json.{hex_digit, escape_byte, json_escape}

-- Between characters, behind a backslash, or in the digits of a `\u` escape.
pub data Mode : Type 0 where
  plain escaped : Mode
  unicode : ℕ → ℕ → Mode

hex_value : ℕ → Option ℕ
hex_value c =
    if leb b'0' c && leb c b'9'
    then some (c - b'0')
    else if leb b'a' c && leb c b'f'
    then some (c - b'a' + 10)
    else if leb b'A' c && leb c b'F'
    then some (c - b'A' + 10)
    else none

short_escape : ℕ → Option ℕ
short_escape c =
    if c == b'"'
    then some b'"'
    else if c == b'\\'
    then some b'\\'
    else if c == b'/'
    then some b'/'
    else if c == b'b'
    then some 8
    else if c == b'f'
    then some 12
    else if c == b'n'
    then some 10
    else if c == b'r'
    then some 13
    else if c == b't'
    then some 9
    else none

-- The text of a string, from behind its opening quote, and what stands behind the closing one.
abbrev push : ℕ → Option (Bytes × Bytes) → Option (Bytes × Bytes)
push c r = Option.map (λ (t : Bytes × Bytes). (c ∷ t.0, t.1)) r

unfoldable pub decode : Mode → Bytes → Option (Bytes × Bytes)
unfolding hex_value short_escape
decode m [] = none
decode plain (c ∷ cs) =
    let in_escape = decode escaped cs in
    let more = push c (decode plain cs) in
    if c == b'"'
    then some ([], cs)
    else if c == b'\\'
    then in_escape
    else if ltb c 32
    then none
    else more
decode escaped (c ∷ cs) =
    let in_unicode = decode (unicode 4 0) cs in
    let more = decode plain cs in
    if c == b'u' then in_unicode else elim (short_escape c) [ none ↦ none | some d ↦ push d more ]
decode (unicode n acc) (c ∷ cs) = elim (hex_value c) [
  | none ↦ none
  | some v ↦
      let value = acc * 16 + v in
      let more = decode (unicode (n - 1) value) cs in
      let last = if ltb value 128 then push value (decode plain cs) else none in
      if n == 1 then last else more
]

hex_value-digit : (n : ℕ) → n < 16 → hex_value (hex_digit n) ≡ some n
unfolding hex_value hex_digit
hex_value-digit n h = ground arith

decode-unicode :
    (n acc d : ℕ) (t : Bytes)
    → d < 16
    → decode (unicode n acc) (hex_digit d ∷ t) ≡ (
        if n == 1
        then if ltb (acc * 16 + d) 128 then push (acc * 16 + d) (decode plain t) else none
        else decode (unicode (n - 1) (acc * 16 + d)) t)
unfolding decode
decode-unicode n acc d t h = rw (hex_value-digit d h, decode)

decode-control :
    (c : ℕ) (t : Bytes)
    → c < 32
    → decode plain (codes "\\u00" ++ (hex_digit (c / 16) ∷ hex_digit (c % 16) ∷ t))
      ≡ push c (decode plain t)
decode-control c t h =
    start
    ∙ decode-unicode 2 0 (c / 16) _ (omega arith)
    ∙ decode-unicode 1 (0 * 16 + c / 16) (c % 16) t (omega arith)
    ∙ finish
  where
    start :
        decode plain (codes "\\u00" ++ (hex_digit (c / 16) ∷ hex_digit (c % 16) ∷ t))
        ≡ decode (unicode 2 0) (hex_digit (c / 16) ∷ hex_digit (c % 16) ∷ t)
    start = unfold decode in refl

    value : (0 * 16 + c / 16) * 16 + c % 16 ≡ c
    value = omega arith

    finish :
        (if 1 == 1
          then if ltb ((0 * 16 + c / 16) * 16 + c % 16) 128
            then push ((0 * 16 + c / 16) * 16 + c % 16) (decode plain t)
            else none
          else decode (unicode (1 - 1) ((0 * 16 + c / 16) * 16 + c % 16)) t)
        ≡ push c (decode plain t)
    finish = rw value (ground arith)

abbrev ReadsBack : ℕ → Bytes → Type 0
ReadsBack c t = decode plain (escape_byte c ++ t) ≡ push c (decode plain t)

special-ReadsBack : (c k : ℕ) (t : Bytes) → ReadsBack k t → (c == k) ≡ true → ReadsBack c t
special-ReadsBack c k t h e = rw ((==_iff c k).0 e) h

-- A byte that is no quote and no backslash, and prints, stands for itself.
plain-ReadsBack :
    (c : ℕ) (t : Bytes)
    → (c == b'"') ≡ false
    → (c == b'\\') ≡ false
    → ltb c 32 ≡ false
    → decode plain (c ∷ t) ≡ push c (decode plain t)
unfolding decode
plain-ReadsBack c t q b p = rw (q, b, p)

-- Reading back one escaped byte.
decode-escape_byte : (c : ℕ) (t : Bytes) → ReadsBack c t
unfolding escape_byte
decode-escape_byte c t = elim (Bool-cases (c == b'"')) [
  | inl e ↦ special-ReadsBack c b'"' t (unfold decode in refl) e
  | inr q ↦ elim (Bool-cases (c == b'\\')) [
    | inl e ↦ special-ReadsBack c b'\\' t (unfold decode in refl) e
    | inr b ↦ elim (Bool-cases (c == 8)) [
      | inl e ↦ special-ReadsBack c 8 t (unfold decode in refl) e
      | inr c8 ↦ elim (Bool-cases (c == 9)) [
        | inl e ↦ special-ReadsBack c 9 t (unfold decode in refl) e
        | inr c9 ↦ elim (Bool-cases (c == 10)) [
          | inl e ↦ special-ReadsBack c 10 t (unfold decode in refl) e
          | inr c10 ↦ elim (Bool-cases (c == 12)) [
            | inl e ↦ special-ReadsBack c 12 t (unfold decode in refl) e
            | inr c12 ↦ elim (Bool-cases (c == 13)) [
              | inl e ↦ special-ReadsBack c 13 t (unfold decode in refl) e
              | inr c13 ↦ rw (q, b, c8, c9, c10, c12, c13) (last q b)
            ]
          ]
        ]
      ]
    ]
  ]
]
  where
    last :
        (c == b'"') ≡ false
        → (c == b'\\') ≡ false
        → decode plain (
            (if ltb c 32
              then codes "\\u00" ++ hex_digit (c / 16) ∷ hex_digit (c % 16) ∷ []
              else c ∷ [])
            ++ t)
          ≡ push c (decode plain t)
    last q b = elim (Bool-cases (ltb c 32)) [
      | inl l ↦ rw l (decode-control c t (ltb→lt c 32 l))
      | inr l ↦ rw l (plain-ReadsBack c t q b l)
    ]

-- A text that has been escaped and is closed by a quote is a JSON string, and it is read back as it was:
-- nothing in it ends the string early or hides the quote.
pub decode-json_escape :
    (s rest : Bytes) → decode plain (json_escape s ++ (b'"' ∷ rest)) ≡ some (s, rest)
unfolding json_escape
decode-json_escape [] rest = unfold decode in refl
decode-json_escape (c ∷ cs) rest =
    ap (decode plain) (append_assoc (escape_byte c) (json_escape cs) (b'"' ∷ rest))
    ∙ decode-escape_byte c (json_escape cs ++ (b'"' ∷ rest))
    ∙ ap (push c) (decode-json_escape cs rest)
