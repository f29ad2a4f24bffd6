-- ===== src/Logfile/Input.antt =====
-- `readNextByte` and `readLine` of src/evcollect/logfile.cc: lines from a file that is read in blocks.
pub mod Blocks
use mathlib.Core.List.{flatten}
use evcollect.Prelude.{
  ℕ, zero, suc, ◌+◌, ◌-◌, Bool, true, false, Option, none, some, List, [], ◌∷◌, ◌++◌, Bytes, length,
  get_elem?, ltb, leb, ◌==◌, if◌then◌else◌,
}

-- `buf_`, `buf_len_` and `buf_pos_`, and what the calls of `read` on the descriptor will give, one entry
-- each; no bytes where `read` returns 0 or an error.
pub record Reader : Type 0 where
  pub buf : Bytes
  pub buf_len : ℕ
  pub buf_pos : ℕ
  pub reads : List Bytes

-- A block is read when the buffer is used up; false where `read` gave nothing.
pub refill : Reader → Reader × Bool
refill rd =
    if leb rd.buf_len rd.buf_pos
    then elim rd.reads [
      | [] ↦ (rd, false)
      | block ∷ more ↦
          if length block == 0
          then (record rd { reads = more }, false)
          else (record { buf = block; buf_len = length block; buf_pos = 0; reads = more }, true)
    ]
    else (rd, true)

pub take_byte : Reader → Reader × Option ℕ
take_byte rd =
    if ltb rd.buf_pos rd.buf_len
    then elim (get_elem? rd.buf rd.buf_pos) [
      | none ↦ (rd, none)
      | some c ↦ (record rd { buf_pos = suc rd.buf_pos }, some c)
    ]
    else (rd, none)

unfoldable pub read_next_byte : Reader → Reader × Option ℕ
unfolding refill take_byte
read_next_byte rd0 = let (rd, filled) = refill rd0 in if filled then take_byte rd else (rd, none)

-- The bytes that are still to come, at most.
abbrev pub available : Reader → ℕ
available rd = (rd.buf_len - rd.buf_pos) + length (flatten rd.reads)

-- `readLine`: the loop behind `line->clear()`, with what it answers and the line.
unfoldable pub read_line_loop : ℕ → Bytes → Reader → Reader × (Bool × Bytes)
unfolding read_next_byte
read_line_loop zero line rd = (rd, (false, line))
read_line_loop (suc fuel) line rd =
    let next = read_next_byte rd in
    elim next.1 [
      | none ↦ (next.0, (false, line))
      | some byte ↦
          let line' = line ++ byte ∷ [] in
          let more = read_line_loop fuel line' next.0 in
          if byte == b'\n' then (next.0, (true, line')) else more
    ]

abbrev pub read_line : Reader → Reader × (Bool × Bytes)
read_line rd = read_line_loop (suc (available rd)) [] rd
