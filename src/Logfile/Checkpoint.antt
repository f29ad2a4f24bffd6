-- ===== src/Logfile/Checkpoint.antt =====
-- The checkpoint of src/evcollect/logfile.cc: `readCheckpoint`, `writeCheckpoint`, and `getNextLine`,
-- which writes one from time to time.
pub mod RoundTrip
pub mod NextLine
use evcollect.Prelude.{
  ℕ, zero, suc, ◌+◌, ◌-◌, ◌*◌, ◌/◌, ◌%◌, Bool, true, false, ◌&&◌, Option, none, some, List, [], ◌∷◌,
  ◌++◌, Bytes, codes, c_str, length, take, drop, ltb, leb, ◌==◌, if◌then◌else◌, wrap64, sub64,
  le_value,
}
use evcollect.Util.ReturnCode.{ReturnCode, success, error_fmt, is_success}
use evcollect.Logfile.{LogfileSource, LogFile, read_lines, is_empty}

-- The bytes of a `uint64_t`, which `memcpy` takes in the machine's order: the lowest first.
pub le_bytes : ℕ → ℕ → Bytes
le_bytes zero n = []
le_bytes (suc k) n = n % 256 ∷ le_bytes k (n / 256)

-- The source, and what the checkpoint file holds.
pub record Tail : Type 0 where
  pub source : LogfileSource
  pub checkpoint : Bytes

-- What `readCheckpoint` finds, on the descriptor that `open` gave and the bytes that `read` gave.
unfoldable pub checkpoint_read : Option (ℕ × Bytes) → ℕ × ℕ
unfolding le_value
checkpoint_read none = (0, 0)
checkpoint_read (some (fd, cdata)) =
    if ltb 0 fd && length cdata == 16
    then (le_value (take 8 cdata), le_value (drop 8 cdata))
    else (0, 0)

unfoldable pub read_checkpoint : Option (ℕ × Bytes) → LogfileSource → LogfileSource
unfolding checkpoint_read
read_checkpoint opened src =
    let (file_inode, file_offset) = checkpoint_read opened in
    record src {
      inode = file_inode;
      offset = file_offset;
      consumed_offset = file_offset;
      checkpoint_inode = file_inode;
      checkpoint_offset = file_offset;
    }

-- How a write of the checkpoint goes: `open` fails, or `write` does, or it writes so many bytes.
pub data WriteOutcome : Type 0 where
  open_failed write_failed : WriteOutcome
  written : ℕ → WriteOutcome

abbrev checkpoint_error : Bytes → LogfileSource → ReturnCode
checkpoint_error call src =
    error_fmt (codes "IOERR")
      (call ++ (codes "('" ++ (c_str src.checkpoint_filename ++ codes "') failed")))

-- `cdata`.
abbrev pub checkpoint_data : LogfileSource → Bytes
unfolding le_bytes
checkpoint_data src = le_bytes 8 src.checkpoint_inode ++ le_bytes 8 src.checkpoint_offset

abbrev pub is_checkpointed : LogfileSource → Bool
is_checkpointed src =
    src.checkpoint_inode == src.inode && src.checkpoint_offset == src.consumed_offset

-- `open` cuts the file; a short `write` is no error to `writeCheckpoint`.
pub store : WriteOutcome → LogfileSource → Bytes → Tail × ReturnCode
store open_failed src file =
    (record { source = src; checkpoint = file }, checkpoint_error (codes "open") src)
store write_failed src file =
    (record { source = src; checkpoint = [] }, checkpoint_error (codes "write") src)
store (written n) src file =
    (record { source = src; checkpoint = take n (checkpoint_data src) }, success)

unfoldable pub write_checkpoint : WriteOutcome → Tail → Tail × ReturnCode
unfolding store
write_checkpoint outcome t =
    if is_checkpointed t.source
    then (t, success)
    else store outcome
        (record (t.source) {
          checkpoint_inode = t.source.inode;
          checkpoint_offset = t.source.consumed_offset;
        })
        t.checkpoint

-- What a call of `getNextLine` meets: the log file, two readings of the clock, and the write, if any.
pub record Moment : Type 0 where
  pub file : LogFile
  pub now : ℕ
  pub later : ℕ
  pub outcome : WriteOutcome

-- The line buffer hands out its first line, without the line feed; `line` stays if it has none.
pub pop_line : Bytes → LogfileSource → LogfileSource × Bytes
pop_line line src = elim src.line_buf [
  | [] ↦ (src, line)
  | front ∷ others ↦ (
    record src { line_buf = others; consumed_offset = wrap64 (src.consumed_offset + length front) },
    take (length front - 1) front,
  )
]

-- A checkpoint is written when the last one is old; a failure is only logged.
pub checkpoint_if_due : Moment → Tail → Tail
unfolding write_checkpoint
checkpoint_if_due m t0 =
    if leb t0.source.checkpoint_interval_micros (sub64 m.now t0.source.last_checkpoint)
    then (let (t, rc) = write_checkpoint m.outcome t0 in
        record t { source = record (t.source) { last_checkpoint = m.later } })
    else t0

abbrev pub fill : LogFile → LogfileSource → LogfileSource × ReturnCode
fill file src = if is_empty src.line_buf then read_lines file src else (src, success)

unfoldable pub get_next_line : Moment → Bytes → Tail → Tail × (ReturnCode × Bytes)
unfolding pop_line checkpoint_if_due
get_next_line m line t =
    let (src, rc) = fill m.file t.source in
    if is_success rc
    then (let (src', line') = pop_line line src in
        (checkpoint_if_due m (record t { source = src' }), (success, line')))
    else (record t { source = src }, (rc, line))
