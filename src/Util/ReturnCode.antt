-- ===== src/Util/ReturnCode.antt =====
-- src/evcollect/util/return_code.h: the status that every fallible operation returns.
use evcollect.Prelude.{ℕ, ◌-◌, Bool, true, false, not, [], ◌++◌, Bytes, length, take, replicate}

pub record ReturnCode : Type 0 where
  pub success_flag : Bool
  pub code : Bytes
  pub message : Bytes

abbrev pub success : ReturnCode
success = record { success_flag = true; code = []; message = [] }

abbrev pub error : Bytes → Bytes → ReturnCode
error c m = record { success_flag = false; code = c; message = m }

-- `int bufsize = 1024`: `vsnprintf` gets one byte more, for its final NUL.
abbrev bufsize : ℕ
bufsize = 1024

-- What is in `message_` after `vsnprintf` and `resize`: `vsnprintf` returns the length of the whole
-- text, of which it wrote the first `bufsize` bytes and a NUL; `resize` adds NULs to that length.
unfoldable pub vsnprintf_resized : Bytes → Bytes
vsnprintf_resized text = take bufsize text ++ replicate (length text - bufsize) 0

-- `error(code, fmt, ...)` on the text that the format and its arguments stand for.
abbrev pub error_fmt : Bytes → Bytes → ReturnCode
error_fmt c text = error c (vsnprintf_resized text)

abbrev is_error : ReturnCode → Bool
is_error rc = not rc.success_flag

abbrev pub is_success : ReturnCode → Bool
is_success rc = rc.success_flag
