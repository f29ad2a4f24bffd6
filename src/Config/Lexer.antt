-- ===== src/Config/Lexer.antt =====
-- `ConfigLexer` of src/evcollect/config.cc, over an input stream that holds the bytes still unread
-- and the `eofbit` of `std::istream`, which `peek()` sets as well as `get()`. The `printf` traces are
-- left out. Line and column numbers are unbounded here.
pub mod Follow
pub mod Space
pub mod Progress
pub mod Tokens
pub mod Words
mod Tests
use evcollect.Prelude.{
  ℕ, zero, suc, ◌+◌, Bool, true, false, not, ◌&&◌, ◌||◌, Option, none, some, [], ◌∷◌, ◌++◌, Bytes,
  codes, str_eq, length, leb, ◌==◌, if◌then◌else◌, while,
}

pub data ConfigToken : Type 0 where
  unknown eof end name value event source output plugin : ConfigToken

-- `StringUtil::toString(ConfigToken)`.
pub token_to_string : ConfigToken → Bytes
token_to_string unknown = codes "<UNKNOWN>"
token_to_string eof = codes "<EOF>"
token_to_string end = codes "<END>"
token_to_string name = codes "<NAME>"
token_to_string value = codes "<VALUE>"
token_to_string event = codes "event"
token_to_string source = codes "source"
token_to_string output = codes "output"
token_to_string plugin = codes "plugin"

-- `current_char` is `none` where the source has `EOF`.
pub record ConfigLexer : Type 0 where
  pub label : Bytes
  pub rest : Bytes
  pub eofbit : Bool
  pub current_token : ConfigToken
  pub current_line_nr : ℕ
  pub current_column : ℕ
  pub current_char : Option ℕ
  pub string_value : Bytes

-- The character classes of the C locale.
abbrev within : ℕ → ℕ → ℕ → Bool
within lo hi c = leb lo c && leb c hi

pub isalpha : ℕ → Bool
isalpha c = within b'a' b'z' c || within b'A' b'Z' c

pub isdigit : ℕ → Bool
isdigit c = within b'0' b'9' c

pub isspace : ℕ → Bool
isspace c = within 9 13 c || c == 32

pub isprint : ℕ → Bool
isprint c = within 32 126 c

-- The characters that the loops of `parseName` and `parseValue` take.
pub is_name_char : ℕ → Bool
unfolding isalpha isdigit
is_name_char c = isalpha c || isdigit c || c == b'_' || c == b'.' || c == b':'

pub is_line_break : ℕ → Bool
is_line_break c = c == b'\r' || c == b'\n'

-- A test on `currentChar()`; no class holds `EOF`.
abbrev pub current_is : (ℕ → Bool) → ConfigLexer → Bool
current_is p lx = elim lx.current_char [ none ↦ false | some c ↦ p c ]

pub is_eof : ConfigLexer → Bool
is_eof lx = elim lx.current_char [ none ↦ true | some _ ↦ lx.eofbit ]

-- `input_->get()`, stored in `currentChar_`: a stream that is not good gives `EOF`.
get_char : ConfigLexer → ConfigLexer
get_char lx = if lx.eofbit then record lx { current_char = none } else elim lx.rest [
  | [] ↦ record lx { current_char = none; eofbit = true }
  | c ∷ cs ↦ record lx { current_char = some c; rest = cs }
]

advance_position : ConfigLexer → ConfigLexer
advance_position lx = elim lx.current_char [
  | none ↦ record lx { current_column = lx.current_column + 1 }
  | some c ↦
      if c == b'\n'
      then record lx { current_line_nr = lx.current_line_nr + 1; current_column = 1 }
      else record lx { current_column = lx.current_column + 1 }
]

pub next_char : ConfigLexer → ConfigLexer
unfolding get_char advance_position
next_char lx = elim lx.current_char [ none ↦ lx | some _ ↦ advance_position (get_char lx) ]

-- `input_->peek()`: what it returns, and what it does to the stream.
peeked : ConfigLexer → Option ℕ
peeked lx = if lx.eofbit then none else elim lx.rest [ [] ↦ none | c ∷ _ ↦ some c ]

pub peek_char : ConfigLexer → ConfigLexer
peek_char lx = elim lx.rest [ [] ↦ record lx { eofbit = true } | _ ∷ _ ↦ lx ]

pub peeks : ℕ → ConfigLexer → Bool
unfolding peeked
peeks b lx = elim (peeked lx) [ none ↦ false | some c ↦ c == b ]

-- The characters still to come: the fuel of every loop, which each round of it lowers.
pub pending : ConfigLexer → ℕ
pending lx = length lx.rest + (elim lx.current_char [ none ↦ 0 | some _ ↦ 1 ])

-- The first loop of `consumeSpace` goes on over blanks and over what does not print.
pub is_skipped : ConfigLexer → Bool
unfolding is_eof isspace isprint is_line_break
is_skipped lx =
    not (is_eof lx) && current_is (λ c. not (is_line_break c) && (isspace c || not (isprint c))) lx

pub skip_blanks : ConfigLexer → ConfigLexer
skip_blanks lx = while (suc (pending lx)) is_skipped next_char lx

-- The loop behind `#`, up to the end of the line.
pub in_line_comment : ConfigLexer → Bool
unfolding is_eof is_line_break
in_line_comment lx = not (is_eof lx) && current_is (λ c. not (is_line_break c)) lx

pub skip_line_comment : ConfigLexer → ConfigLexer × Bool
skip_line_comment lx0 =
    let lx = while (suc (pending lx0)) in_line_comment next_char lx0 in
    if is_eof lx then (record lx { current_token = eof }, false) else (lx, true)

-- The loop of a block comment; only a `*` makes it peek.
pub in_block_comment : ConfigLexer → Bool
unfolding is_eof peeks
in_block_comment lx = not (is_eof lx) && not (current_is (λ c. c == b'*') lx && peeks b'/' lx)

pub next_in_block_comment : ConfigLexer → ConfigLexer
unfolding next_char peek_char
next_in_block_comment lx =
    if current_is (λ c. c == b'*') lx then next_char (peek_char lx) else next_char lx

pub skip_block_comment : ConfigLexer → ConfigLexer
skip_block_comment lx = while (suc (pending lx)) in_block_comment next_in_block_comment lx

-- `true`: data pending. The recursive call behind a block comment takes fuel.
pub consume_space : ℕ → ConfigLexer → ConfigLexer × Bool
consume_space zero lx = (lx, false)
consume_space (suc fuel) lx0 =
    let lx = skip_blanks lx0 in
    let peeking = peek_char lx in
    let behind = skip_block_comment (next_char peeking) in
    let again = consume_space fuel (next_char (next_char behind)) in
    if is_eof lx
    then (lx, false)
    else if current_is is_line_break lx
    then (lx, true)
    else if current_is (λ c. c == b'#') lx
    then skip_line_comment (next_char lx)
    else if not (current_is (λ c. c == b'/') lx)
    then (lx, true)
    else if not (peeks b'*' lx)
    then (peeking, true)
    else if is_eof behind
    then (record behind { current_token = eof }, false)
    else again

-- One round of the loop of `consumeEndOfLine`: an LF, or a CR with an LF behind it.
pub at_end_of_line : ConfigLexer → Bool
unfolding is_eof peeks
at_end_of_line lx =
    not (is_eof lx)
    && (current_is (λ c. c == b'\n') lx || (current_is (λ c. c == b'\r') lx && peeks b'\n' lx))

pub next_end_of_line : ConfigLexer → ConfigLexer
unfolding next_char peek_char
next_end_of_line lx =
    if current_is (λ c. c == b'\n') lx then next_char lx else next_char (next_char (peek_char lx))

-- A CR with no LF behind it ends the loop, once it has been peeked behind.
pub consume_end_of_line : ConfigLexer → ConfigLexer × Bool
consume_end_of_line lx0 =
    let lx = while (suc (pending lx0)) at_end_of_line next_end_of_line lx0 in
    let done = if not (is_eof lx) && current_is (λ c. c == b'\r') lx then peek_char lx else lx in
    if at_end_of_line lx0
    then (record done { string_value = done.string_value ++ codes "LF" }, true)
    else (done, false)

-- `stringValue_ << (char) currentChar(); nextChar();`
pub take_char : ConfigLexer → ConfigLexer
unfolding next_char
take_char lx =
    let c : ℕ = elim lx.current_char [ none ↦ 255 | some c ↦ c ] in
    next_char (record lx { string_value = lx.string_value ++ c ∷ [] })

pub at_name_char : ConfigLexer → Bool
unfolding is_name_char
at_name_char lx = current_is is_name_char lx

pub take_word : ConfigLexer → ConfigLexer
take_word lx0 = let lx = take_char lx0 in while (suc (pending lx)) at_name_char take_char lx

pub parse_value : ConfigLexer → ConfigLexer × ConfigToken
unfolding take_word
parse_value lx = (take_word lx, value)

pub keyword : Bytes → ConfigToken
keyword word =
    if str_eq word (codes "event")
    then event
    else if str_eq word (codes "source")
    then source
    else if str_eq word (codes "output")
    then output
    else if str_eq word (codes "plugin")
    then plugin
    else name

pub parse_name : ConfigLexer → ConfigLexer × ConfigToken
unfolding take_word keyword
parse_name lx0 = let lx = take_word lx0 in (lx, keyword lx.string_value)

-- The loop of `parseString` over the lexer and `last`.
abbrev pub is_delim : Option ℕ → ConfigLexer → Bool
is_delim delim lx = elim delim [
  | none ↦ elim lx.current_char [ none ↦ true | some _ ↦ false ]
  | some d ↦ current_is (λ c. c == d) lx
]

pub in_string : Option ℕ → ConfigLexer × Option ℕ → Bool
unfolding is_eof
in_string delim (lx, last) =
    not (is_eof lx)
    && (not (is_delim delim lx) || (elim last [ none ↦ false | some c ↦ c == b'\\' ]))

pub next_in_string : ConfigLexer × Option ℕ → ConfigLexer × Option ℕ
unfolding take_char
next_in_string (lx, last) = (take_char lx, lx.current_char)

pub parse_string : ConfigLexer → ConfigLexer × ConfigToken
parse_string lx0 =
    let delim = lx0.current_char in
    let lx1 = next_char lx0 in
    let lx = (while (suc (pending lx1)) (in_string delim) next_in_string (lx1, none)).0 in
    if is_delim delim lx then (next_char lx, value) else (lx, unknown)

abbrev pub with_token : ConfigLexer × ConfigToken → ConfigLexer
with_token (lx, t) = record lx { current_token = t }

pub is_quote : ℕ → Bool
is_quote c = c == b'"' || c == b'\''

-- The tail of `nextToken`, on the first character of a token. `parseRegEx` is `parseString`.
pub read_token : ConfigLexer → ConfigLexer
unfolding is_quote
read_token lx =
    if current_is is_quote lx
    then with_token (parse_string lx)
    else if current_is (λ c. c == b'/') lx
    then with_token (parse_string lx)
    else if current_is isalpha lx
    then with_token (parse_name lx)
    else if current_is isdigit lx
    then with_token (parse_value lx)
    else record lx { current_token = unknown }

pub read_line_or_token : ConfigLexer → ConfigLexer
read_line_or_token lx0 =
    let (lx, found) = consume_end_of_line lx0 in
    if found then record lx { current_token = end } else read_token lx

abbrev pub after_space : ConfigLexer × Bool → ConfigLexer
after_space (lx, more) = if more then read_line_or_token lx else record lx { current_token = eof }

unfoldable pub next_token : ConfigLexer → ConfigLexer
unfolding consume_space skip_blanks is_skipped read_line_or_token consume_end_of_line at_end_of_line
    next_end_of_line read_token parse_name parse_value parse_string in_string next_in_string
    at_name_char isalpha isdigit is_line_break peeks peek_char skip_line_comment in_line_comment
    skip_block_comment in_block_comment next_in_block_comment pending while str_eq
next_token lx0 =
    let cleared = record lx0 { string_value = [] } in
    after_space (consume_space (suc (pending cleared)) cleared)

-- The constructor, with `fromString`: it reads the first token.
unfoldable pub new_lexer : Bytes → Bytes → ConfigLexer
unfolding next_token
new_lexer label input = next_token (record {
  label = label;
  rest = input;
  eofbit = false;
  current_token = unknown;
  current_line_nr = 1;
  current_column = 0;
  current_char = some 0;
  string_value = [];
})
