-- ===== src/Logfile/Input/Blocks.antt =====
-- What a line is, and that the blocks in which a file is read do not show in its lines.
use mathlib.Core.List.{flatten}
use mathlib.Core.Option
use evcollect.Prelude.{
  ℕ, zero, suc, ◌≤◌, ◌<◌, ◌≡◌, refl, ap, ◌∙◌, inl, inr, true, false, Bool-cases, Option, none, some,
  List, [], ◌∷◌, ◌++◌, append_assoc, arith, Bytes, length, length-append, length-drop, drop, Bool,
  get_elem?, All, ltb, ◌==◌, if◌then◌else◌,
}
use evcollect.Logfile.Input.{
  Reader, refill, take_byte, read_next_byte, read_line_loop, read_line, available,
}

-- The first line of a text, its line feed included, and what stands behind it.
unfoldable pub first_line : Bytes → Option (Bytes × Bytes)
first_line [] = none
first_line (c ∷ cs) =
    let more = Option.map (λ (r : Bytes × Bytes). (c ∷ r.0, r.1)) (first_line cs) in
    if c == b'\n' then some (c ∷ [], cs) else more

-- A reader between two calls: the buffer holds a whole block, and no block is empty.
pub record IsReader (rd : Reader) : Type 0 where
  pub filled : rd.buf_len ≡ length rd.buf
  pub within : rd.buf_pos ≤ rd.buf_len
  pub blocks : All (λ block. 0 < length block) rd.reads

abbrev pub unread : Reader → Bytes
unread rd = drop rd.buf_pos rd.buf ++ flatten rd.reads

-- The two outcomes of reading a byte.
pub data ReadsByte (rd : Reader) : Type 0 where
  at_end : unread rd ≡ [] → (read_next_byte rd).1 ≡ none → ReadsByte rd
  got :
      (c : ℕ) (rd' : Reader)
      → unread rd ≡ c ∷ unread rd'
      → read_next_byte rd ≡ (rd', some c)
      → IsReader rd'
      → ReadsByte rd

drop-get {ℓ} :
    {A : Type ℓ} (i : ℕ) (xs : List A)
    → i < length xs
    → (x : A) × (get_elem? xs i ≡ some x) × (drop i xs ≡ x ∷ drop (suc i) xs)
drop-get i [] h = absurd (omega arith)
drop-get zero (x ∷ xs) h = (x, refl, refl)
drop-get (suc i) (x ∷ xs) h = drop-get i xs (omega arith)

drop-all {ℓ} : {A : Type ℓ} (i : ℕ) (xs : List A) → length xs ≤ i → drop i xs ≡ []
drop-all zero [] h = refl
drop-all zero (x ∷ xs) h = absurd (omega arith)
drop-all (suc i) [] h = refl
drop-all (suc i) (x ∷ xs) h = drop-all i xs (omega arith)

take_byte-got :
    (rd : Reader)
    → IsReader rd
    → rd.buf_pos < rd.buf_len
    → (c : ℕ) × (unread rd ≡ c ∷ unread (record rd { buf_pos = suc rd.buf_pos }))
      × (take_byte rd ≡ (record rd { buf_pos = suc rd.buf_pos }, some c))
unfolding take_byte
take_byte-got rd w h =
    let (c, g, d) = drop-get rd.buf_pos rd.buf (omega (arith, w.filled)) in
    (c, rw d refl, rw g (ground arith))

step-IsReader :
    (rd : Reader)
    → IsReader rd
    → rd.buf_pos < rd.buf_len
    → IsReader (record rd { buf_pos = suc rd.buf_pos })
step-IsReader rd w h = record { filled = w.filled; within = omega arith; blocks = w.blocks }

-- With the buffer used up: what the next block gives.
drained : (rd : Reader) → IsReader rd → rd.buf_len ≤ rd.buf_pos → unread rd ≡ flatten rd.reads
drained rd w h =
    ap (λ t. t ++ flatten rd.reads) (drop-all rd.buf_pos rd.buf (omega (arith, w.filled)))

abbrev loaded : Bytes → List Bytes → Reader
loaded block more = record { buf = block; buf_len = length block; buf_pos = 0; reads = more }

module _ (b : Bytes) (n i : ℕ) where
  abbrev reader : List Bytes → Reader
  reader blocks = record { buf = b; buf_len = n; buf_pos = i; reads = blocks }

  refill-empty : n ≤ i → refill (reader []) ≡ (reader [], false)
  unfolding refill
  refill-empty h = ground arith

  refill-block :
      (block : Bytes) (more : List Bytes)
      → n ≤ i
      → 0 < length block
      → refill (reader (block ∷ more)) ≡ (loaded block more, true)
  unfolding refill
  refill-block block more h l = ground arith

  no-refill : (blocks : List Bytes) → i < n → refill (reader blocks) ≡ (reader blocks, true)
  unfolding refill
  no-refill blocks h = ground arith

abbrev then_take : Reader × Bool → Reader × Option ℕ
then_take r = if r.1 then take_byte r.0 else (r.0, none)

read_next_byte-refill :
    (rd : Reader) (r : Reader × Bool) → refill rd ≡ r → read_next_byte rd ≡ then_take r
unfolding read_next_byte
read_next_byte-refill rd r e = ap then_take e

take-ReadsByte :
    (rd rd' : Reader)
    → unread rd ≡ unread rd'
    → refill rd ≡ (rd', true)
    → IsReader rd'
    → rd'.buf_pos < rd'.buf_len
    → ReadsByte rd
take-ReadsByte rd rd' e r w lt =
    let (c, u, t) = take_byte-got rd' w lt in
    ReadsByte.got c (record rd' { buf_pos = suc rd'.buf_pos }) (e ∙ u)
      (read_next_byte-refill rd (rd', true) r ∙ t) (step-IsReader rd' w lt)

used-ReadsByte :
    (b : Bytes) (n i : ℕ) (blocks : List Bytes)
    → IsReader (reader b n i blocks)
    → n ≤ i
    → ReadsByte (reader b n i blocks)
unfolding flatten
used-ReadsByte b n i [] w le =
    ReadsByte.at_end (drained (reader b n i []) w le)
      (ap (λ r. r.1) (read_next_byte-refill _ _ (refill-empty b n i le)))
used-ReadsByte b n i (block ∷ more) w le =
    take-ReadsByte (reader b n i (block ∷ more)) (loaded block more)
      (drained (reader b n i (block ∷ more)) w le) (refill-block b n i block more le w.blocks.0)
      (record { filled = refl; within = omega arith; blocks = w.blocks.1 }) w.blocks.0

read_next_byte-ReadsByte : (rd : Reader) → IsReader rd → ReadsByte rd
read_next_byte-ReadsByte rd w = elim (Bool-cases (ltb rd.buf_pos rd.buf_len)) [
  | inl more ↦
      let lt : rd.buf_pos < rd.buf_len = ground arith in
      take-ReadsByte rd rd refl (no-refill rd.buf rd.buf_len rd.buf_pos rd.reads lt) w lt
  | inr used ↦ used-ReadsByte rd.buf rd.buf_len rd.buf_pos rd.reads w (ground arith)
]

-- Where `read_line` is on the bytes that are left.
pub data ReadLine (line s : Bytes) (r : Reader × (Bool × Bytes)) : Type 0 where
  no_line : first_line s ≡ none → r.1.0 ≡ false → ReadLine line s r
  a_line :
      (l : Bytes) (rd' : Reader)
      → first_line s ≡ some (l, unread rd')
      → r ≡ (rd', (true, line ++ l))
      → IsReader rd'
      → ReadLine line s r

read_line_loop-end :
    (fuel : ℕ) (line : Bytes) (rd : Reader)
    → (read_next_byte rd).1 ≡ none
    → (read_line_loop (suc fuel) line rd).1.0 ≡ false
unfolding read_line_loop
read_line_loop-end fuel line rd e = rw (e, read_line_loop)

read_line_loop-got :
    (fuel : ℕ) (line : Bytes) (rd rd' : Reader) (c : ℕ)
    → read_next_byte rd ≡ (rd', some c)
    → read_line_loop (suc fuel) line rd ≡ (
        if c == b'\n'
        then (rd', (true, line ++ c ∷ []))
        else read_line_loop fuel (line ++ c ∷ []) rd')
unfolding read_line_loop
read_line_loop-got fuel line rd rd' c e = rw (e, read_line_loop) (rw e refl)

pub first_line-feed :
    (c : ℕ) (cs : Bytes) → (c == b'\n') ≡ true → first_line (c ∷ cs) ≡ some (c ∷ [], cs)
unfolding first_line
first_line-feed c cs e = rw e

pub first_line-none :
    (c : ℕ) (cs : Bytes) → (c == b'\n') ≡ false → first_line cs ≡ none → first_line (c ∷ cs) ≡ none
unfolding first_line
first_line-none c cs e f = rw (e, f)

pub first_line-some :
    (c : ℕ) (cs l r : Bytes)
    → (c == b'\n') ≡ false
    → first_line cs ≡ some (l, r)
    → first_line (c ∷ cs) ≡ some (c ∷ l, r)
unfolding first_line
first_line-some c cs l r e f = rw (e, f)

longer :
    (c : ℕ) (line cs : Bytes) (r : Reader × (Bool × Bytes))
    → (c == b'\n') ≡ false
    → ReadLine (line ++ c ∷ []) cs r
    → ReadLine line (c ∷ cs) r
longer c line cs r e (ReadLine.no_line f n) = ReadLine.no_line (first_line-none c cs e f) n
longer c line cs r e (ReadLine.a_line l rd' f q w) =
    ReadLine.a_line (c ∷ l) rd' (first_line-some c cs l (unread rd') e f)
      (q ∙ ap (λ t. (rd', (true, t))) (append_assoc line (c ∷ []) l)) w

read_line_loop-ReadLine :
    (fuel : ℕ) (line : Bytes) (rd : Reader)
    → IsReader rd
    → length (unread rd) < fuel
    → ReadLine line (unread rd) (read_line_loop fuel line rd)
unfolding first_line
read_line_loop-ReadLine zero line rd w h = absurd (omega arith)
read_line_loop-ReadLine (suc fuel) line rd w h = elim (read_next_byte-ReadsByte rd w) [
  | at_end u e ↦ ReadLine.no_line (ap first_line u) (read_line_loop-end fuel line rd e)
  | got c rd' u e w' ↦
      rw (u, read_line_loop-got fuel line rd rd' c e)
        (elim (Bool-cases (c == b'\n')) [
          | inl f ↦ rw f (ReadLine.a_line (c ∷ []) rd' (first_line-feed c (unread rd') f) refl w')
          | inr f ↦ rw f (
              longer c line (unread rd') _ f
                (read_line_loop-ReadLine fuel (line ++ c ∷ []) rd' w' (omega (arith, ap length u))))
        ])
]

pub length-unread : (rd : Reader) → IsReader rd → length (unread rd) ≡ available rd
length-unread rd w = omega (
  arith,
  length-append (drop rd.buf_pos rd.buf) (flatten rd.reads),
  length-drop rd.buf_pos rd.buf,
  w.filled,
)

-- `readLine` returns the first line of what is left, whatever blocks it comes in.
pub read_line-ReadLine : (rd : Reader) → IsReader rd → ReadLine [] (unread rd) (read_line rd)
read_line-ReadLine rd w =
    read_line_loop-ReadLine (suc (available rd)) [] rd w (omega (arith, length-unread rd w))
