-- ===== src/Logfile/Tests.antt =====
-- A small log file, served in two blocks, and the theorems on it.
use mathlib.Core.List.{flatten}
use evcollect.Prelude.{
  suc, ◌≡◌, refl, inl, some, [], ◌∷◌, Bytes, codes, take, arith, replicate, ◌++◌,
}
use evcollect.Util.ReturnCode.{success}
use evcollect.Logfile.Input.Blocks.{ReadLine, read_line-ReadLine}
use evcollect.Logfile.Input.{read_line}
use evcollect.Logfile.{new_logfile, read_lines}
use evcollect.Logfile.Reading.{Reads, HasRead, read_lines-Reads, read_lines-restart}
use evcollect.Logfile.Checkpoint.{
  Tail, WriteOutcome, written, open_failed, get_next_line, write_checkpoint, read_checkpoint,
}
use evcollect.Logfile.Checkpoint.NextLine.{Handed, get_next_line-Handed}
use evcollect.Logfile.Checkpoint.RoundTrip.{write_checkpoint-resumes, write_checkpoint-lost}
use evcollect.Logfile.Examples.{text, log_file, log_file-Serves, tailing, tailing-StandsIn, moment}

abbrev zeros : Bytes
zeros = 7 ∷ 0 ∷ 0 ∷ 0 ∷ 0 ∷ 0 ∷ 0 ∷ 0 ∷ 0 ∷ 0 ∷ 0 ∷ 0 ∷ 0 ∷ 0 ∷ 0 ∷ 0 ∷ []

abbrev tail : Tail
tail = record { source = tailing; checkpoint = zeros }

read_line-ReadLine_example : ReadLine [] text (
    read_line
      (record { buf = codes "xone"; buf_len = 4; buf_pos = 1; reads = codes "\ntwo\nth" ∷ [] }))
unfolding flatten
read_line-ReadLine_example =
    read_line-ReadLine
      (record { buf = codes "xone"; buf_len = 4; buf_pos = 1; reads = codes "\ntwo\nth" ∷ [] })
      (record { filled = refl; within = omega arith; blocks = (omega arith, tt) })

read_lines-Reads_example : Reads text tailing (read_lines log_file tailing)
read_lines-Reads_example = read_lines-Reads log_file text tailing log_file-Serves tailing-StandsIn

-- A hash function of 20 bytes.
abbrev sha1 : Bytes → Bytes
sha1 name = take 20 (name ++ replicate 20 0)

read_lines-restart_example :
    ((read_lines log_file (new_logfile sha1 [] [])).1 ≡ success)
    × HasRead text (read_lines log_file (new_logfile sha1 [] [])).0
    × ((read_lines log_file (new_logfile sha1 [] [])).0.consumed_offset ≡ 0)
    × ((read_lines log_file (new_logfile sha1 [] [])).0.inode ≡ 7)
unfolding new_logfile
read_lines-restart_example =
    read_lines-restart log_file 7 text (new_logfile sha1 [] []) log_file-Serves
      (inl (λ e. omega (arith, e)))

get_next_line-Handed_example : Handed text [] tail (get_next_line moment [] tail)
get_next_line-Handed_example =
    get_next_line-Handed moment text [] tail log_file-Serves tailing-StandsIn (omega arith)

write_checkpoint-resumes_example :
    let resumed =
      read_checkpoint
        (some (suc 4, take 16 (write_checkpoint (written 16) tail).0.checkpoint))
        tailing in
    (resumed.inode ≡ 7)
    × (resumed.offset ≡ 4)
    × (resumed.consumed_offset ≡ 4)
    × ((outcome : WriteOutcome)
        → write_checkpoint outcome (write_checkpoint (written 16) tail).0
          ≡ ((write_checkpoint (written 16) tail).0, success))
write_checkpoint-resumes_example =
    write_checkpoint-resumes 16 4 tail tailing refl (omega arith) (omega arith) (omega arith)

write_checkpoint-lost_example :
    write_checkpoint (written 16) (write_checkpoint open_failed tail).0
    ≡ ((write_checkpoint open_failed tail).0, success)
write_checkpoint-lost_example = write_checkpoint-lost open_failed (written 16) tail refl
