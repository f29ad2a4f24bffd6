-- ===== src/Config/Lexer/Space.antt =====
-- How `consumeSpace` ends: before the next token, or at the end of the input.
use evcollect.Prelude.{
  ℕ, zero, suc, ◌<◌, ◌≡◌, Bool, true, false, not, ◌&&◌, ◌||◌, Bool-cases, inl, inr, ◌==◌,
  if◌then◌else◌, arith, while,
}
use evcollect.Config.Lexer.{
  ConfigLexer, eof, pending, next_char, peek_char, is_eof, current_is, is_line_break, isprint,
  isspace, peeks, skip_blanks, is_skipped, in_line_comment, skip_line_comment, skip_block_comment,
  consume_space,
}
use evcollect.Config.Lexer.Follow.{
  Follows, Follows-refl, Follows-trans, next_char-Follows, peek_char-Follows, skip_blanks-Follows,
  line_loop, block_comment-Follows,
}

-- What the next token can begin with: a line break, or a character that prints and is no blank.
pub starts_token : ℕ → Bool
unfolding is_line_break isprint isspace
starts_token c = is_line_break c || (isprint c && not (isspace c) && not (c == b'#'))

pub record Spaced (lx : ConfigLexer) (r : ConfigLexer × Bool) : Type 0 where
  pub follows : Follows lx r.0
  pub ready : r.1 ≡ true → current_is starts_token r.0 ≡ true
  pub ended : r.1 ≡ false → is_eof r.0 ≡ true

Spaced-trans : {a b : ConfigLexer} {r : ConfigLexer × Bool} → Follows a b → Spaced b r → Spaced a r
Spaced-trans f s = record { follows = Follows-trans f s.follows; ready = s.ready; ended = s.ended }

stop-Spaced : (lx : ConfigLexer) → is_eof lx ≡ true → Spaced lx (lx, false)
stop-Spaced lx h = record { follows = Follows-refl lx; ready = λ e. cc; ended = λ _. h }

stop_in_comment-Spaced :
    (lx : ConfigLexer) → is_eof lx ≡ true → Spaced lx (record lx { current_token = eof }, false)
unfolding is_eof pending
stop_in_comment-Spaced lx h = ground arith

line_break-starts_token :
    (lx : ConfigLexer) → current_is is_line_break lx ≡ true → current_is starts_token lx ≡ true
unfolding starts_token
line_break-starts_token lx h = ground arith

line_break-Spaced : (lx : ConfigLexer) → current_is is_line_break lx ≡ true → Spaced lx (lx, true)
line_break-Spaced lx h = record {
  follows = Follows-refl lx;
  ready = λ _. line_break-starts_token lx h;
  ended = λ e. cc;
}

line_comment_end :
    (lx : ConfigLexer)
    → in_line_comment lx ≡ false
    → is_eof lx ≡ false
    → current_is is_line_break lx ≡ true
unfolding in_line_comment is_eof
line_comment_end lx h e = ground arith

skip_line_comment-Spaced : (lx : ConfigLexer) → Spaced lx (skip_line_comment lx)
unfolding skip_line_comment
skip_line_comment-Spaced lx =
    let ended = while (suc (pending lx)) in_line_comment next_char lx in
    let (f, stopped) = line_loop lx in
    elim (Bool-cases (is_eof ended)) [
      | inl e ↦ rw e (Spaced-trans f (stop_in_comment-Spaced ended e))
      | inr e ↦ rw e (Spaced-trans f (line_break-Spaced ended (line_comment_end ended stopped e)))
    ]

token-starts :
    (lx : ConfigLexer)
    → is_eof lx ≡ false
    → is_skipped lx ≡ false
    → current_is (λ c. c == b'#') lx ≡ false
    → current_is starts_token lx ≡ true
unfolding is_skipped is_eof starts_token
token-starts lx h s c = ground arith

current-peek_char : (lx : ConfigLexer) → (peek_char lx).current_char ≡ lx.current_char
unfolding peek_char
current-peek_char lx = ground arith

token-Spaced :
    (lx : ConfigLexer)
    → current_is starts_token lx ≡ true
    → Spaced lx (lx, true) × Spaced lx (peek_char lx, true)
token-Spaced lx h = (
  record { follows = Follows-refl lx; ready = λ _. h; ended = λ e. cc },
  record {
    follows = peek_char-Follows lx;
    ready = λ _. rw (current-peek_char lx) h;
    ended = λ e. cc;
  },
)

abbrev behind : ConfigLexer → ConfigLexer
behind lx = skip_block_comment (next_char (peek_char lx))

-- The last branches of `consumeSpace`, with `again` for its recursive call.
slash-Spaced :
    (lx : ConfigLexer) (again : ConfigLexer × Bool)
    → current_is starts_token lx ≡ true
    → (is_eof (behind lx) ≡ false → Spaced (behind lx) again)
    → Follows lx (behind lx)
    → Spaced lx (
        if not (current_is (λ c. c == b'/') lx)
        then (lx, true)
        else if not (peeks b'*' lx)
        then (peek_char lx, true)
        else if is_eof (behind lx)
        then (record (behind lx) { current_token = eof }, false)
        else again)
slash-Spaced lx again starts looped f = elim (Bool-cases (current_is (λ c. c == b'/') lx)) [
  | inr c ↦ rw c (token-Spaced lx starts).0
  | inl c ↦ rw c (elim (Bool-cases (peeks b'*' lx)) [
    | inr p ↦ rw p (token-Spaced lx starts).1
    | inl p ↦ rw p (elim (Bool-cases (is_eof (behind lx))) [
      | inl e ↦ rw e (Spaced-trans f (stop_in_comment-Spaced (behind lx) e))
      | inr e ↦ rw e (Spaced-trans f (looped e))
    ])
  ])
]

-- With more fuel than there are characters, `consumeSpace` never stops for want of it: it answers
-- "data pending" only before a character that starts a token, and "end" only at the end.
pub consume_space-Spaced :
    (fuel : ℕ) (lx : ConfigLexer) → pending lx < fuel → Spaced lx (consume_space fuel lx)
unfolding consume_space
consume_space-Spaced zero lx h = absurd (omega arith)
consume_space-Spaced (suc fuel) lx0 h = Spaced-trans f (elim (Bool-cases (is_eof lx)) [
  | inl e ↦ rw e (stop-Spaced lx e)
  | inr e ↦ rw e (elim (Bool-cases (current_is is_line_break lx)) [
    | inl l ↦ rw l (line_break-Spaced lx l)
    | inr l ↦ rw l (elim (Bool-cases (current_is (λ c. c == b'#') lx)) [
      | inl c ↦ rw c (Spaced-trans (next_char-Follows lx) (skip_line_comment-Spaced (next_char lx)))
      | inr c ↦ rw c (
          slash-Spaced lx (consume_space fuel (next_char (next_char (behind lx))))
            (token-starts lx e (skip_blanks-Follows lx0).1 c)
            (λ g.
              (Spaced-trans (Follows-trans (next_char-Follows _) (next_char-Follows _)) (
                consume_space-Spaced fuel (next_char (next_char (behind lx))) (
                  omega (
                    arith,
                    f.pending_le,
                    block_comment-Follows lx e,
                    next_char-Follows (behind lx),
                    next_char-Follows (next_char (behind lx)),
                  )))))
            (block_comment-Follows lx e).0)
    ])
  ])
])
  where
    lx : ConfigLexer
    lx = skip_blanks lx0

    f : Follows lx0 lx
    f = (skip_blanks-Follows lx0).0
