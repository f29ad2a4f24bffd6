-- ===== src/Config/Lexer/Tests.antt =====
-- The lexer's own tests, src/evcollect/evcollectd_test.cc, and the inputs of the theorems.
use evcollect.Prelude.{
  some, false, ◌<◌, ◌⊎◌, arith, ℕ, zero, suc, ◌≡◌, refl, some, List, [], ◌∷◌, Bytes, codes, while,
  str_eq,
}
use evcollect.Config.Lexer.Tokens.{nth_token, nth_token-ends}
use evcollect.Config.Lexer.Words.{HasRead, next_token-word}
use evcollect.Config.Lexer.{
  keyword, is_name_char, ConfigToken, unknown, eof, end, name, value, event, source, output, plugin,
  ConfigLexer, next_token, new_lexer, is_skipped, skip_blanks, consume_space, read_line_or_token,
  pending, consume_end_of_line, at_end_of_line, next_end_of_line, read_token, parse_name,
  parse_value, parse_string, in_string, next_in_string, at_name_char, isalpha, isdigit,
  is_line_break, peeks, peek_char, skip_line_comment, in_line_comment, skip_block_comment,
  in_block_comment, next_in_block_comment,
}

lexes : ℕ → ConfigLexer → List (ConfigToken × Bytes)
unfolding next_token consume_space skip_blanks is_skipped read_line_or_token consume_end_of_line
    at_end_of_line next_end_of_line read_token parse_name parse_value parse_string in_string
    next_in_string at_name_char isalpha isdigit is_line_break peeks peek_char skip_line_comment
    in_line_comment skip_block_comment in_block_comment next_in_block_comment while pending str_eq
lexes zero lx = []
lexes (suc n) lx = (lx.current_token, lx.string_value) ∷ lexes n (next_token lx)

keywords :
    lexes 6 (new_lexer (codes "<string>") (codes "event source output plugin SomeThing"))
    ≡ (event, codes "event")
      ∷ (source, codes "source")
      ∷ (output, codes "output")
      ∷ (plugin, codes "plugin")
      ∷ (name, codes "SomeThing")
      ∷ (eof, [])
      ∷ []
unfolding lexes new_lexer
keywords = refl

newlines :
    lexes 6 (new_lexer (codes "<string>") (codes "event\nsource\n\noutput"))
    ≡ (event, codes "event")
      ∷ (end, codes "LF")
      ∷ (source, codes "source")
      ∷ (end, codes "LF")
      ∷ (output, codes "output")
      ∷ (eof, [])
      ∷ []
unfolding lexes new_lexer
newlines = refl

comments :
    lexes 6 (new_lexer (codes "<string>") (codes "a /* x \n * */ 'q\\'s' # z\n1s:b/"))
    ≡ (name, codes "a")
      ∷ (value, codes "q\\'s")
      ∷ (end, codes "LF")
      ∷ (value, codes "1s:b")
      ∷ (unknown, [])
      ∷ (eof, [])
      ∷ []
unfolding lexes new_lexer
comments = refl

abbrev text : Bytes
text = codes "event a\n# b\noutput"

nth_token-ends_example :
    (k : ℕ) × (k < 20)
    × (((nth_token (suc k) (new_lexer (codes "f") text)).current_token ≡ unknown)
        ⊎ ((nth_token (suc k) (new_lexer (codes "f") text)).current_token ≡ eof))
unfolding new_lexer
nth_token-ends_example = nth_token-ends 20 (new_lexer (codes "f") text) (omega arith)

-- The lexer before a blank, a comment and a word.
abbrev before_word : ConfigLexer
before_word = record {
  label = [];
  rest = codes "/* c */ # d\nabc";
  eofbit = false;
  current_token = unknown;
  current_line_nr = 1;
  current_column = 1;
  current_char = some 32;
  string_value = [];
}

abbrev at_word : ConfigLexer
at_word = record before_word { rest = codes "vent:1 x"; current_char = some b'e' }

next_token-word_example :
    HasRead (next_token at_word) (keyword (codes "event:1")) (codes "event:1") (codes " x")
unfolding isalpha is_name_char
next_token-word_example =
    next_token-word at_word b'e' (codes "vent:1") (codes " x") refl refl refl refl refl
