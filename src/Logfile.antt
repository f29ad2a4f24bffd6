-- ===== src/Logfile.antt =====
-- `LogfileSource` of src/evcollect/logfile.cc, the source that tails a log file: what it keeps, and how
-- it reads lines. What the system calls answer is an argument.
pub mod Input
pub mod Checkpoint
pub mod Lines
pub mod Event
pub mod Reading
pub mod Examples
mod Tests
use mathlib.Core.List.{flatten}
use evcollect.Prelude.{
  ℕ, zero, suc, ◌+◌, ◌-◌, ◌*◌, Bool, true, false, not, ◌&&◌, ◌||◌, Option, none, some, List, [],
  ◌∷◌, ◌++◌, Bytes, codes, c_str, length, ltb, ◌==◌, if◌then◌else◌, wrap64,
}
use evcollect.Util.ReturnCode.{ReturnCode, success, error_fmt}
use evcollect.Util.StringUtil.{to_string}
use evcollect.Util.Sha1.{hash_to_string}
use evcollect.Logfile.Input.{Reader, read_line, available}

-- A compiled regular expression of the PCRE library, as `pcre_exec` sees it: `none` for a negative
-- answer, else the first entries of `ovector`, `none` for a group that is not set.
abbrev pub Pcre : Type 0
Pcre = Bytes → Option (List (Option (ℕ × ℕ)))

pub record LogfileSource : Type 0 where
  pub filename : Bytes
  pub checkpoint_filename : Bytes
  pub pcre_handle : Option Pcre
  pub pcre_fields : List Bytes
  pub inode : ℕ
  pub offset : ℕ
  pub consumed_offset : ℕ
  pub checkpoint_inode : ℕ
  pub checkpoint_offset : ℕ
  pub checkpoint_interval_micros : ℕ
  pub last_checkpoint : ℕ
  pub line_buf : List Bytes
  pub line_buf_maxsize : ℕ

-- The answers of the system on the log file: `stat` (inode and size), `open` (a descriptor), `lseek`,
-- and what the calls of `read` give from an offset on.
pub record LogFile : Type 0 where
  pub stat : Option (ℕ × ℕ)
  pub opened : Option ℕ
  pub seeks : Bool
  pub blocks : ℕ → List Bytes

-- The constructor. `SHA1::compute` of the file's name makes the name of the checkpoint file.
pub new_logfile : (Bytes → Bytes) → Bytes → Bytes → LogfileSource
new_logfile sha1_compute filename spool_dir = record {
  filename = filename;
  checkpoint_filename = spool_dir ++ (codes "/log_" ++ hash_to_string (sha1_compute filename));
  pcre_handle = none;
  pcre_fields = [];
  inode = 0;
  offset = 0;
  consumed_offset = 0;
  checkpoint_inode = 0;
  checkpoint_offset = 0;
  checkpoint_interval_micros = 10 * 1000000;
  last_checkpoint = 0;
  line_buf = [];
  line_buf_maxsize = 8192;
}

abbrev io_error : Bytes → Bytes → ReturnCode
io_error call name =
    error_fmt (codes "IOERR") (call ++ (codes "('" ++ (c_str name ++ codes "') failed")))

-- Another file under the name, or one that has been cut short, is read from its start.
pub is_replaced : ℕ → ℕ → LogfileSource → Bool
is_replaced file_inode file_size src = not (file_inode == src.inode) || ltb file_size src.offset

pub restart : ℕ → LogfileSource → LogfileSource
restart file_inode src = record src {
  line_buf = [];
  inode = file_inode;
  offset = 0;
  consumed_offset = 0;
}

abbrev pub push_line : Bytes → LogfileSource → LogfileSource
push_line line src = record src {
  line_buf = src.line_buf ++ line ∷ [];
  offset = wrap64 (src.offset + length line);
}

-- The loop of `readLines`. A line that is read when the buffer is full is dropped, and is read again
-- another time, as `offset_` stands before it.
unfoldable pub read_lines_loop : ℕ → Reader → LogfileSource → LogfileSource
read_lines_loop zero rd src = src
read_lines_loop (suc fuel) rd src =
    let r = read_line rd in
    elim (r.1.0 && ltb (length src.line_buf) src.line_buf_maxsize) [
      | true ↦ read_lines_loop fuel r.0 (push_line r.1.1 src)
      | false ↦ src
    ]

abbrev pub reader_at : LogFile → ℕ → Reader
reader_at file offset = record { buf = []; buf_len = 0; buf_pos = 0; reads = file.blocks offset }

abbrev pub read_from : LogFile → LogfileSource → LogfileSource
read_from file src =
    let rd = reader_at file src.offset in read_lines_loop (suc (available rd)) rd src

abbrev pub read_opened : LogFile → LogfileSource → LogfileSource × ReturnCode
read_opened file src = elim file.opened [
  | none ↦ (src, io_error (codes "open") src.filename)
  | some fd ↦
      if file.seeks
      then (read_from file src, success)
      else (src, io_error (codes "lseek") (to_string fd))
]

unfoldable pub read_lines : LogFile → LogfileSource → LogfileSource × ReturnCode
unfolding is_replaced restart read_lines_loop
read_lines file src0 = elim file.stat [
  | none ↦ (src0, io_error (codes "fstat") src0.filename)
  | some st ↦
      let src = if is_replaced st.0 st.1 src0 then restart st.0 src0 else src0 in
      if st.1 == src.offset then (src, success) else read_opened file src
]

abbrev pub is_empty {ℓ} : {A : Type ℓ} → List A → Bool
is_empty [] = true
is_empty (x ∷ xs) = false

-- `hasNextLine`: the answer of `readLines` is not looked at.
unfoldable pub has_next_line : LogFile → LogfileSource → LogfileSource × Bool
unfolding read_lines
has_next_line file src0 =
    let src = if is_empty src0.line_buf then (read_lines file src0).0 else src0 in
    (src, not (is_empty src.line_buf))
