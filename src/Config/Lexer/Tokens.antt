-- ===== src/Config/Lexer/Tokens.antt =====
-- The sequence of tokens that repeated calls of `nextToken` read.
use evcollect.Prelude.{ℕ, zero, suc, ◌+◌, ◌<◌, ◌≡◌, ◌⊎◌, inl, inr, arith, Bytes, count}
use evcollect.Config.Lexer.{ConfigLexer, unknown, eof, pending, next_token, new_lexer}
use evcollect.Config.Lexer.Follow.{Follows, Follows-refl, Follows-trans}
use evcollect.Config.Lexer.Progress.{next_token-NextToken}

abbrev pub nth_token : ℕ → ConfigLexer → ConfigLexer
nth_token zero lx = lx
nth_token (suc n) lx = nth_token n (next_token lx)

nth_token-Follows : (n : ℕ) (lx : ConfigLexer) → Follows lx (nth_token n lx)
nth_token-Follows zero lx = Follows-refl lx
nth_token-Follows (suc n) lx =
    Follows-trans (next_token-NextToken lx).follows (nth_token-Follows n (next_token lx))

-- At every token the line number and the line feeds still unread make one more than those of the input.
nth_token-lines :
    (label input : Bytes) (n : ℕ)
    → let lx = nth_token n (new_lexer label input) in
      lx.current_line_nr + count b'\n' lx.rest ≡ 1 + count b'\n' input
unfolding new_lexer
nth_token-lines label input n = omega (
  arith,
  (next_token-NextToken _).follows.lines,
  (nth_token-Follows n (new_lexer label input)).lines,
)

-- Within as many calls as there are characters, and one more, the lexer reports the end of the input or a
-- character that begins no token.
pub nth_token-ends :
    (n : ℕ) (lx : ConfigLexer)
    → pending lx < n
    → (k : ℕ) × (k < n)
      × (((nth_token (suc k) lx).current_token ≡ unknown)
          ⊎ ((nth_token (suc k) lx).current_token ≡ eof))
nth_token-ends zero lx h = absurd (omega arith)
nth_token-ends (suc n) lx h = elim (next_token-NextToken lx).advances [
  | inl u ↦ (0, omega arith, inl u)
  | inr (inl u) ↦ (0, omega arith, inr u)
  | inr (inr lt) ↦
      let (k, l, e) = nth_token-ends n (next_token lx) (omega arith) in (suc k, omega arith, e)
]
