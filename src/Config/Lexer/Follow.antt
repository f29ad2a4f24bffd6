-- ===== src/Config/Lexer/Follow.antt =====
-- How the lexer moves through its input: never back, and in step with its line counter.
use evcollect.Prelude.{
  ℕ, suc, ◌+◌, ◌≤◌, ◌<◌, ◌≡◌, refl, Bool, true, false, arith, count, while, while_inv,
}
use evcollect.Config.Lexer.{
  ConfigLexer, pending, next_char, peek_char, is_eof, current_is, skip_blanks, is_skipped,
  in_line_comment, skip_line_comment, in_block_comment, next_in_block_comment, skip_block_comment,
  at_end_of_line, next_end_of_line, take_char,
}

-- `lx'` is reached from `lx`: no input is given back, and the line number has grown by the LFs read.
pub record Follows (lx lx' : ConfigLexer) : Type 0 where
  pub pending_le : pending lx' ≤ pending lx
  pub lines : lx'.current_line_nr + count b'\n' lx'.rest ≡ lx.current_line_nr + count b'\n' lx.rest

pub Follows-refl : (lx : ConfigLexer) → Follows lx lx
Follows-refl lx = record { pending_le = omega arith; lines = refl }

pub Follows-trans : {a b c : ConfigLexer} → Follows a b → Follows b c → Follows a c
Follows-trans f g = record { pending_le = omega arith; lines = omega arith }

pub next_char-Follows : (lx : ConfigLexer) → Follows lx (next_char lx)
unfolding next_char pending
next_char-Follows lx = ground arith

pub peek_char-Follows : (lx : ConfigLexer) → Follows lx (peek_char lx)
unfolding peek_char pending
peek_char-Follows lx = ground arith

-- Where there is a character, reading the next one leaves fewer.
pub pending-next_char :
    (lx : ConfigLexer) → current_is (λ _. true) lx ≡ true → pending (next_char lx) < pending lx
unfolding next_char pending
pending-next_char lx h = ground arith

live-has_char : (lx : ConfigLexer) → is_eof lx ≡ false → current_is (λ _. true) lx ≡ true
unfolding is_eof
live-has_char lx h = ground arith

-- A loop whose rounds follow, and take a character each, follows and ends by its test.
pub fuel-Follows :
    (test : ConfigLexer → Bool) (body : ConfigLexer → ConfigLexer)
    → ((lx : ConfigLexer)
        → test lx ≡ true
        → Follows lx (body lx) × (pending (body lx) < pending lx))
    → (fuel : ℕ) (lx : ConfigLexer) → pending lx < fuel
    → Follows lx (while fuel test body lx) × (test (while fuel test body lx) ≡ false)
fuel-Follows test body keep fuel lx h =
    while_inv (Follows lx) pending test body (λ s f t. (Follows-trans f (keep s t).0, (keep s t).1))
      fuel lx h (Follows-refl lx)

pub loop-Follows :
    (test : ConfigLexer → Bool) (body : ConfigLexer → ConfigLexer)
    → ((lx : ConfigLexer)
        → test lx ≡ true
        → Follows lx (body lx) × (pending (body lx) < pending lx))
    → (lx : ConfigLexer)
    → Follows lx (while (suc (pending lx)) test body lx)
      × (test (while (suc (pending lx)) test body lx) ≡ false)
loop-Follows test body keep lx = fuel-Follows test body keep (suc (pending lx)) lx (omega arith)

is_skipped-eof : (lx : ConfigLexer) → is_skipped lx ≡ true → is_eof lx ≡ false
unfolding is_skipped
is_skipped-eof lx h = ground arith

in_line_comment-eof : (lx : ConfigLexer) → in_line_comment lx ≡ true → is_eof lx ≡ false
unfolding in_line_comment
in_line_comment-eof lx h = ground arith

module _ (lx : ConfigLexer) where
  pub skip_blanks-Follows : Follows lx (skip_blanks lx) × (is_skipped (skip_blanks lx) ≡ false)
  unfolding skip_blanks
  skip_blanks-Follows =
      loop-Follows is_skipped next_char
        (λ s t. (next_char-Follows s, pending-next_char s (live-has_char s (is_skipped-eof s t))))
        lx

  pub line_loop :
      Follows lx (while (suc (pending lx)) in_line_comment next_char lx)
      × (in_line_comment (while (suc (pending lx)) in_line_comment next_char lx) ≡ false)
  line_loop =
      loop-Follows in_line_comment next_char
        (λ s t.
          (next_char-Follows s, pending-next_char s (live-has_char s (in_line_comment-eof s t))))
        lx

  skip_line_comment-Follows : Follows lx (skip_line_comment lx).0
  unfolding skip_line_comment pending
  skip_line_comment-Follows = ground (arith, line_loop)

in_block_comment-eof : (lx : ConfigLexer) → in_block_comment lx ≡ true → is_eof lx ≡ false
unfolding in_block_comment
in_block_comment-eof lx h = ground arith

next_in_block_comment-Follows :
    (lx : ConfigLexer)
    → is_eof lx ≡ false
    → Follows lx (next_in_block_comment lx) × (pending (next_in_block_comment lx) < pending lx)
unfolding next_in_block_comment pending is_eof
next_in_block_comment-Follows lx h = ground arith

skip_block_comment-Follows :
    (lx : ConfigLexer)
    → Follows lx (skip_block_comment lx) × (in_block_comment (skip_block_comment lx) ≡ false)
unfolding skip_block_comment
skip_block_comment-Follows lx =
    loop-Follows in_block_comment next_in_block_comment
      (λ s t. next_in_block_comment-Follows s (in_block_comment-eof s t)) lx

peeked-Follows :
    (lx : ConfigLexer)
    → is_eof lx ≡ false
    → Follows lx (next_char (peek_char lx)) × (pending (next_char (peek_char lx)) < pending lx)
unfolding next_char peek_char pending is_eof
peeked-Follows lx h = ground arith

-- What is left behind the two characters that open a block comment: fewer than were before it.
pub block_comment-Follows :
    (lx : ConfigLexer)
    → is_eof lx ≡ false
    → let behind = skip_block_comment (next_char (peek_char lx)) in
      Follows lx behind × (pending behind < pending lx)
block_comment-Follows lx h =
    let inner = next_char (peek_char lx) in
    let f = (skip_block_comment-Follows inner).0 in
    let start = peeked-Follows lx h in (Follows-trans start.0 f, omega arith)

pub at_end_of_line-eof : (lx : ConfigLexer) → at_end_of_line lx ≡ true → is_eof lx ≡ false
unfolding at_end_of_line
at_end_of_line-eof lx h = ground arith

pub next_end_of_line-Follows :
    (lx : ConfigLexer)
    → is_eof lx ≡ false
    → Follows lx (next_end_of_line lx) × (pending (next_end_of_line lx) < pending lx)
unfolding next_end_of_line pending is_eof
next_end_of_line-Follows lx h = ground arith

pub take_char-Follows : (lx : ConfigLexer) → Follows lx (take_char lx)
unfolding take_char pending
take_char-Follows lx = ground arith

pub pending-take_char :
    (lx : ConfigLexer) → current_is (λ _. true) lx ≡ true → pending (take_char lx) < pending lx
unfolding take_char pending
pending-take_char lx h = ground arith
