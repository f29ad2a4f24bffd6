-- ===== src/Config/Lexer/Progress.antt =====
-- Every call of `nextToken` moves forward: the stream of tokens is finite.
use evcollect.Prelude.{
  [], ◌&&◌, ◌++◌, codes, ℕ, zero, suc, ◌<◌, ◌≡◌, ◌⊎◌, refl, Bool, true, false, not, Bool-cases, inl,
  inr, if◌then◌else◌, ◌==◌, arith, while, none, while_inv, Option,
}
use evcollect.Config.Lexer.{
  ConfigLexer, ConfigToken, is_quote, eof, unknown, value, end, is_delim, with_token, pending,
  next_char, peek_char, is_eof, current_is, isalpha, isdigit, at_end_of_line, next_end_of_line,
  consume_end_of_line, take_char, at_name_char, take_word, parse_value, parse_name, parse_string,
  in_string, next_in_string, read_token, read_line_or_token, next_token, consume_space,
}
use evcollect.Config.Lexer.Follow.{
  Follows, Follows-refl, Follows-trans, fuel-Follows, loop-Follows, next_char-Follows,
  pending-next_char, at_end_of_line-eof, next_end_of_line-Follows, take_char-Follows,
  pending-take_char,
}
use evcollect.Config.Lexer.Space.{consume_space-Spaced}

abbrev has_char : ConfigLexer → Bool
has_char lx = current_is (λ _. true) lx

-- Moves forward, and by a character at least.
abbrev Advances : ConfigLexer → ConfigLexer → Type 0
Advances lx lx' = Follows lx lx' × (pending lx' < pending lx)

end_of_line_round :
    (lx : ConfigLexer) → at_end_of_line lx ≡ true → Advances lx (next_end_of_line lx)
end_of_line_round lx h = next_end_of_line-Follows lx (at_end_of_line-eof lx h)

end_of_line_loop :
    (fuel : ℕ) (lx : ConfigLexer)
    → pending lx < fuel
    → at_end_of_line lx ≡ true
    → Advances lx (while fuel at_end_of_line next_end_of_line lx)
unfolding while
end_of_line_loop zero lx h t = absurd (omega arith)
end_of_line_loop (suc fuel) lx h t =
    let (f, lt) = end_of_line_round lx t in
    let g =
      (fuel-Follows at_end_of_line next_end_of_line end_of_line_round fuel (next_end_of_line lx)
        (omega arith)).0 in
    rw (t, while) (Follows-trans f g, omega (arith, g.pending_le))

end_of_line_result :
    (lx last : ConfigLexer)
    → Follows lx last
    → (at_end_of_line lx ≡ true → Advances lx last)
    → let done =
        if not (is_eof last) && current_is (λ c. c == b'\r') last then peek_char last else last in
      let r : ConfigLexer × Bool =
        if at_end_of_line lx
        then (record done { string_value = done.string_value ++ codes "LF" }, true)
        else (done, false) in
      Follows lx r.0 × (r.1 ≡ true → pending r.0 < pending lx)
unfolding pending peek_char
end_of_line_result lx last f adv = ground arith

consume_end_of_line-Follows :
    (lx : ConfigLexer)
    → Follows lx (consume_end_of_line lx).0
      × ((consume_end_of_line lx).1 ≡ true → pending (consume_end_of_line lx).0 < pending lx)
unfolding consume_end_of_line
consume_end_of_line-Follows lx =
    let last = while (suc (pending lx)) at_end_of_line next_end_of_line lx in
    let f = (loop-Follows at_end_of_line next_end_of_line end_of_line_round lx).0 in
    let adv = end_of_line_loop (suc (pending lx)) lx (omega arith) in
    end_of_line_result lx last f adv

name_char-has_char : (lx : ConfigLexer) → at_name_char lx ≡ true → has_char lx ≡ true
unfolding at_name_char
name_char-has_char lx h = ground arith

take_word-Advances : (lx : ConfigLexer) → has_char lx ≡ true → Advances lx (take_word lx)
unfolding take_word
take_word-Advances lx h =
    let g =
      (loop-Follows at_name_char take_char
        (λ s t. (take_char-Follows s, pending-take_char s (name_char-has_char s t)))
        (take_char lx)).0 in
    (Follows-trans (take_char-Follows lx) g, omega (arith, g.pending_le, pending-take_char lx h))

in_string_round :
    (delim : Option ℕ) (lx : ConfigLexer) (s : ConfigLexer × Option ℕ)
    → Follows lx s.0
    → in_string delim s ≡ true
    → Follows lx (next_in_string s).0 × (pending (next_in_string s).0 < pending s.0)
unfolding in_string next_in_string is_eof
in_string_round delim lx (s, last) f h =
    (Follows-trans f (take_char-Follows s), pending-take_char s (ground arith))

string_result :
    (delim : Option ℕ) (lx last : ConfigLexer)
    → Advances lx last
    → let r : ConfigLexer × ConfigToken =
        if is_delim delim last then (next_char last, value) else (last, unknown) in
      Advances lx r.0
string_result delim lx last a = elim (Bool-cases (is_delim delim last)) [
  | inl e ↦
      rw e (Follows-trans a.0 (next_char-Follows last), omega (arith, a.1, next_char-Follows last))
  | inr e ↦ rw e a
]

parse_string-Advances : (lx : ConfigLexer) → has_char lx ≡ true → Advances lx (parse_string lx).0
unfolding parse_string
parse_string-Advances lx h =
    let start = next_char lx in
    let loop =
      while_inv (λ s. Follows start s.0) (λ s. pending s.0) (in_string lx.current_char)
        next_in_string (in_string_round lx.current_char start) (suc (pending start)) (start, none)
        (omega arith) (Follows-refl start) in
    string_result lx.current_char lx _ (
      Follows-trans (next_char-Follows lx) loop.0,
      omega (arith, loop.0.pending_le, pending-next_char lx h),
    )

-- Follows, and by a character at least unless the token is `unknown`.
abbrev Reads : ConfigLexer → ConfigLexer → Type 0
Reads lx lx' = Follows lx lx' × ((lx'.current_token ≡ unknown) ⊎ (pending lx' < pending lx))

with_token-Reads :
    (lx : ConfigLexer) (r : ConfigLexer × ConfigToken) → Advances lx r.0 → Reads lx (with_token r)
unfolding pending
with_token-Reads lx (lx', t) a = ground arith

unknown-Reads : (lx : ConfigLexer) → Reads lx (record lx { current_token = unknown })
unfolding pending
unknown-Reads lx = ground arith

string-Reads : (lx : ConfigLexer) → has_char lx ≡ true → Reads lx (with_token (parse_string lx))
string-Reads lx h = with_token-Reads lx (parse_string lx) (parse_string-Advances lx h)

name-Reads : (lx : ConfigLexer) → has_char lx ≡ true → Reads lx (with_token (parse_name lx))
unfolding parse_name
name-Reads lx h = with_token-Reads lx (parse_name lx) (take_word-Advances lx h)

value-Reads : (lx : ConfigLexer) → has_char lx ≡ true → Reads lx (with_token (parse_value lx))
unfolding parse_value
value-Reads lx h = with_token-Reads lx (parse_value lx) (take_word-Advances lx h)

has_char-intro : (p : ℕ → Bool) (lx : ConfigLexer) → current_is p lx ≡ true → has_char lx ≡ true
has_char-intro p lx h = ground arith

read_token-Reads : (lx : ConfigLexer) → Reads lx (read_token lx)
unfolding read_token
read_token-Reads lx = elim (Bool-cases (current_is is_quote lx)) [
  | inl q ↦ rw q (string-Reads lx (has_char-intro is_quote lx q))
  | inr q ↦ rw q (elim (Bool-cases (current_is (λ c. c == b'/') lx)) [
    | inl r ↦ rw r (string-Reads lx (has_char-intro (λ c. c == b'/') lx r))
    | inr r ↦ rw r (elim (Bool-cases (current_is isalpha lx)) [
      | inl a ↦ rw a (name-Reads lx (has_char-intro isalpha lx a))
      | inr a ↦ rw a (elim (Bool-cases (current_is isdigit lx)) [
        | inl d ↦ rw d (value-Reads lx (has_char-intro isdigit lx d))
        | inr d ↦ rw d (unknown-Reads lx)
      ])
    ])
  ])
]

end-Reads :
    (lx lx' : ConfigLexer)
    → Follows lx lx'
    → pending lx' < pending lx
    → Reads lx (record lx' { current_token = end })
unfolding pending
end-Reads lx lx' f lt = ground arith

Reads-trans : {a b c : ConfigLexer} → Follows a b → Reads b c → Reads a c
Reads-trans f (g, r) = (Follows-trans f g, ground (arith, f.pending_le))

read_line_or_token-Reads : (lx : ConfigLexer) → Reads lx (read_line_or_token lx)
unfolding read_line_or_token
read_line_or_token-Reads lx =
    let (f, lt) = consume_end_of_line-Follows lx in
    elim (Bool-cases (consume_end_of_line lx).1) [
      | inl e ↦ rw e (end-Reads lx (consume_end_of_line lx).0 f (lt e))
      | inr e ↦ rw e (Reads-trans f (read_token-Reads (consume_end_of_line lx).0))
    ]

eof-Follows :
    (lx lx' : ConfigLexer) → Follows lx lx' → Follows lx (record lx' { current_token = eof })
unfolding pending
eof-Follows lx lx' f = ground arith

-- How `nextToken` leaves the lexer.
pub record NextToken (lx lx' : ConfigLexer) : Type 0 where
  pub follows : Follows lx lx'
  pub advances :
      (lx'.current_token ≡ unknown) ⊎ (lx'.current_token ≡ eof) ⊎ (pending lx' < pending lx)

cleared-Follows : (lx : ConfigLexer) → Follows lx (record lx { string_value = [] })
unfolding pending
cleared-Follows lx = ground arith

pub next_token-NextToken : (lx : ConfigLexer) → NextToken lx (next_token lx)
unfolding next_token
next_token-NextToken lx =
    let cleared = record lx { string_value = [] } in
    let s = consume_space-Spaced (suc (pending cleared)) cleared (omega arith) in
    let f = Follows-trans (cleared-Follows lx) s.follows in
    let after = (consume_space (suc (pending cleared)) cleared).0 in
    elim (Bool-cases (consume_space (suc (pending cleared)) cleared).1) [
      | inl e ↦ rw e (
          let (g, r) = Reads-trans f (read_line_or_token-Reads after) in
          record { follows = g; advances = ground arith })
      | inr e ↦ rw e (record { follows = eof-Follows lx after f; advances = inr (inl refl) })
    ]
