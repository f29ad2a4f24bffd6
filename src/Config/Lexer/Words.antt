-- ===== src/Config/Lexer/Words.antt =====
-- Whole tokens: a word, and a quoted text, are read back as they were written.
use evcollect.Prelude.{
  ℕ, zero, suc, ◌<◌, ◌≤◌, ◌≡◌, sym, ap, ◌∙◌, true, false, none, some, [], ◌∷◌, ◌++◌, append_assoc,
  append-nil, length-append, arith, Bytes, all, ◌||◌, length, while, ◌==◌, inl, ◌⊎◌,
}
use evcollect.Config.Lexer.{
  ConfigLexer, ConfigToken, pending, next_token, after_space, is_eof, is_skipped, is_line_break,
  at_end_of_line, skip_blanks, consume_space, consume_end_of_line, read_line_or_token, isprint,
  isspace, next_char, current_is, isalpha, is_name_char, take_char, at_name_char, take_word,
  keyword, parse_name, read_token, with_token, is_quote,
}

-- The characters from the current one on.
abbrev ahead : ConfigLexer → Bytes
ahead lx = elim lx.current_char [ none ↦ [] | some c ↦ c ∷ lx.rest ]

-- Nothing has looked past the end of the input.
abbrev IsFresh : ConfigLexer → Type 0
IsFresh lx = (lx.eofbit ≡ false) ⊎ (ahead lx ≡ [])

-- The lexer has come to `tail`, with `word` added to the text of the token.
record Took (lx lx' : ConfigLexer) (word tail : Bytes) : Type 0 where
  text : lx'.string_value ≡ lx.string_value ++ word
  rest : ahead lx' ≡ tail
  fresh : IsFresh lx'

take_char-Took :
    (lx : ConfigLexer) (c : ℕ) (tail : Bytes)
    → ahead lx ≡ c ∷ tail
    → IsFresh lx
    → Took lx (take_char lx) (c ∷ []) tail
unfolding take_char next_char
take_char-Took lx c tail h f = ground arith

Took-trans :
    (a : ConfigLexer) {b c : ConfigLexer} (v w : Bytes) {s t : Bytes}
    → Took a b v s
    → Took b c w t
    → Took a c (v ++ w) t
Took-trans a v w f g = record {
  text = g.text ∙ ap (λ x. x ++ w) f.text ∙ append_assoc a.string_value v w;
  rest = g.rest;
  fresh = g.fresh;
}

-- No character of a name stands in front.
abbrev Stops : Bytes → Type 0
Stops [] = Unit
Stops (c ∷ _) = is_name_char c ≡ false

at_name_char-stop :
    (lx : ConfigLexer) (tail : Bytes) → ahead lx ≡ tail → Stops tail → at_name_char lx ≡ false
unfolding at_name_char
at_name_char-stop lx [] h s = ground arith
at_name_char-stop lx (c ∷ cs) h s = ground arith

at_name_char-go :
    (lx : ConfigLexer) (c : ℕ) (tail : Bytes)
    → ahead lx ≡ c ∷ tail
    → is_name_char c ≡ true
    → at_name_char lx ≡ true
unfolding at_name_char
at_name_char-go lx c tail h s = ground arith

word_loop :
    (fuel : ℕ) (word tail : Bytes) (lx : ConfigLexer)
    → ahead lx ≡ word ++ tail
    → all is_name_char word ≡ true
    → Stops tail
    → IsFresh lx
    → length word < fuel
    → Took lx (while fuel at_name_char take_char lx) word tail
unfolding while
word_loop zero word tail lx h w s f l = absurd (omega arith)
word_loop (suc fuel) [] tail lx h w s f l =
    rw (at_name_char-stop lx tail h s, while)
      (record { text = sym (append-nil _); rest = h; fresh = f })
word_loop (suc fuel) (c ∷ word) tail lx h w s f l =
    rw (at_name_char-go lx c (word ++ tail) h (ground arith), while)
      (let one = take_char-Took lx c (word ++ tail) h f in
        Took-trans lx (c ∷ []) word one (
          word_loop fuel word tail (take_char lx) one.rest (ground arith) s one.fresh
            (omega arith)))

length-ahead : (lx : ConfigLexer) → length (ahead lx) ≤ pending lx
unfolding pending
length-ahead lx = ground arith

length-word :
    (lx : ConfigLexer) (word tail : Bytes)
    → ahead lx ≡ word ++ tail
    → length word < suc (pending lx)
length-word lx word tail h = omega (arith, length-ahead lx, ap length h, length-append word tail)

take_word-Took :
    (lx : ConfigLexer) (c : ℕ) (word tail : Bytes)
    → ahead lx ≡ c ∷ (word ++ tail)
    → all is_name_char word ≡ true
    → Stops tail
    → IsFresh lx
    → Took lx (take_word lx) (c ∷ word) tail
unfolding take_word
take_word-Took lx c word tail h w s f =
    let one = take_char-Took lx c (word ++ tail) h f in
    Took-trans lx (c ∷ []) word one (
      word_loop (suc (pending (take_char lx))) word tail (take_char lx) one.rest w s one.fresh
        (length-word (take_char lx) word tail one.rest))

next_token-ready :
    (lx lx' : ConfigLexer)
    → (let cleared = record lx { string_value = [] } in
        consume_space (suc (pending cleared)) cleared ≡ (lx', true))
    → next_token lx ≡ read_line_or_token lx'
unfolding next_token
next_token-ready lx lx' h = ap after_space h

-- A lexer in front of a character that is part of a token and opens no comment.
record AtToken (lx : ConfigLexer) (c : ℕ) : Type 0 where
  here : lx.current_char ≡ some c
  live : lx.eofbit ≡ false
  prints : isprint c ≡ true
  solid : isspace c ≡ false
  plain : (c == b'#' || c == b'/') ≡ false

module _ (lx : ConfigLexer) (c : ℕ) (a : AtToken lx c) where
  not_eof : is_eof lx ≡ false
  unfolding is_eof
  not_eof = ground arith

  not_skipped : is_skipped lx ≡ false
  unfolding is_skipped
  not_skipped = ground arith

  not_line_break : current_is is_line_break lx ≡ false
  unfolding is_line_break isspace
  not_line_break = ground arith

  not_end : at_end_of_line lx ≡ false
  unfolding at_end_of_line isspace
  not_end = ground arith

  not_hash : current_is (λ d. d == b'#') lx ≡ false
  not_hash = ground arith

  not_slash : current_is (λ d. d == b'/') lx ≡ false
  not_slash = ground arith

  not_cr : current_is (λ d. d == b'\r') lx ≡ false
  unfolding isspace
  not_cr = ground arith

  nothing_skipped : skip_blanks lx ≡ lx
  unfolding skip_blanks while
  nothing_skipped = rw (not_skipped, while)

  no_space : (fuel : ℕ) → consume_space (suc fuel) lx ≡ (lx, true)
  unfolding consume_space
  no_space fuel = rw nothing_skipped (rw (not_eof, not_line_break, not_hash, not_slash))

  no_line_end : consume_end_of_line lx ≡ (lx, false)
  unfolding consume_end_of_line while
  no_line_end = rw (not_end, while) (rw (not_eof, not_cr))

  read_line_or_token-read : read_line_or_token lx ≡ read_token lx
  unfolding read_line_or_token
  read_line_or_token-read = rw no_line_end

at_token :
    (lx : ConfigLexer) (c : ℕ)
    → AtToken (record lx { string_value = [] }) c
    → next_token lx ≡ read_token (record lx { string_value = [] })
at_token lx c a =
    next_token-ready lx _
      (no_space (record lx { string_value = [] }) c a (pending (record lx { string_value = [] })))
    ∙ read_line_or_token-read (record lx { string_value = [] }) c a

current_ahead :
    (lx : ConfigLexer) (c : ℕ) (tail : Bytes) → ahead lx ≡ c ∷ tail → lx.current_char ≡ some c
current_ahead lx c tail h = ground arith

read_token-name :
    (lx : ConfigLexer) (c : ℕ)
    → lx.current_char ≡ some c
    → isalpha c ≡ true
    → read_token lx ≡ with_token (parse_name lx)
unfolding read_token is_quote isalpha
read_token-name lx c h a = ground arith

alpha-AtToken :
    (lx : ConfigLexer) (c : ℕ)
    → lx.current_char ≡ some c
    → lx.eofbit ≡ false
    → isalpha c ≡ true
    → AtToken (record lx { string_value = [] }) c
unfolding isalpha isprint isspace
alpha-AtToken lx c h e a = ground arith

-- What the lexer holds behind a token.
pub record HasRead (lx : ConfigLexer) (t : ConfigToken) (text tail : Bytes) : Type 0 where
  pub token_is : lx.current_token ≡ t
  pub text_is : lx.string_value ≡ text
  pub ahead_is : ahead lx ≡ tail
  pub fresh_is : IsFresh lx

name-HasRead :
    (lx : ConfigLexer) (word tail : Bytes)
    → Took (record lx { string_value = [] }) (take_word (record lx { string_value = [] })) word tail
    → HasRead (with_token (parse_name (record lx { string_value = [] }))) (keyword word) word tail
unfolding parse_name
name-HasRead lx word tail t = record {
  token_is = ap keyword t.text;
  text_is = t.text;
  ahead_is = t.rest;
  fresh_is = t.fresh;
}

-- A word, a letter and then characters of a name, up to a character of another kind, is read whole: the
-- token is the keyword that it spells, or a name, its text is the word, and the lexer stops right behind it.
pub next_token-word :
    (lx : ConfigLexer) (c : ℕ) (word tail : Bytes)
    → lx.eofbit ≡ false
    → ahead lx ≡ c ∷ (word ++ tail)
    → isalpha c ≡ true
    → all is_name_char word ≡ true
    → Stops tail
    → HasRead (next_token lx) (keyword (c ∷ word)) (c ∷ word) tail
next_token-word lx c word tail e h a w s =
    let here = current_ahead lx c (word ++ tail) h in
    rw
      (at_token lx c (alpha-AtToken lx c here e a)
        ∙ read_token-name (record lx { string_value = [] }) c here a)
      (name-HasRead lx (c ∷ word) tail
        (take_word-Took (record lx { string_value = [] }) c word tail h w s (inl e)))
