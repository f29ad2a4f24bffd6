-- ===== src/Logfile/Checkpoint/NextLine.antt =====
-- `getNextLine` hands out the lines of the file one by one.
mod Place
pub mod Pop
use mathlib.Core.List.{flatten}
use mathlib.Core.Path.{subst}
use evcollect.Prelude.{
  ◌+◌, ◌-◌, ◌≤◌, ◌<◌, ◌^◌, ◌≡◌, refl, ap, ◌∙◌, ◌⊎◌, inl, inr, true, false, Bool, Bool-cases, none,
  some, List, [], ◌∷◌, ◌++◌, append_assoc, arith, Bytes, length, length-append, take, drop, All,
  leb, wrap64, wrap64-small, sub64, if◌then◌else◌,
}
use evcollect.Util.ReturnCode.{success, is_success, ReturnCode}
use evcollect.Logfile.Input.Blocks.{first_line}
use evcollect.Logfile.Lines.{IsLine, first_line-FirstLine, drop-more}
use evcollect.Logfile.{LogfileSource, LogFile, read_lines, is_empty}
use evcollect.Logfile.Reading.{Serves, StandsIn, read_lines-Reads}
use evcollect.Logfile.Checkpoint.{
  Tail, Moment, WriteOutcome, open_failed, write_failed, written, store, write_checkpoint,
  is_checkpointed, pop_line, checkpoint_if_due, get_next_line, fill,
}
use evcollect.Logfile.Checkpoint.RoundTrip.{write_checkpoint-skip, write_checkpoint-store, marked}
use evcollect.Logfile.Checkpoint.NextLine.Place.{
  SamePlace, moved-StandsIn, checkpoint_if_due-SamePlace,
}
use evcollect.Logfile.Checkpoint.NextLine.Pop.{
  NextLine, Filled, fill-Filled, Popped, pop_line-Popped,
}

-- The outcome of `getNextLine`.
pub record Handed (contents line : Bytes) (t : Tail) (r : Tail × (ReturnCode × Bytes))
    : Type 0 where
  pub ok : r.1.0 ≡ success
  pub next : NextLine contents t.source line (r.0.source, r.1.1)
  pub stands : StandsIn contents r.0.source
  pub inode : r.0.source.inode ≡ t.source.inode
  pub maxsize : r.0.source.line_buf_maxsize ≡ t.source.line_buf_maxsize
  pub pcre : r.0.source.pcre_handle ≡ t.source.pcre_handle
  pub fields : r.0.source.pcre_fields ≡ t.source.pcre_fields

abbrev handed : Moment → Bytes → Tail → LogfileSource × ReturnCode → Tail × (ReturnCode × Bytes)
handed m line t r =
    if is_success r.1
    then (
      checkpoint_if_due m (record t { source = (pop_line line r.0).0 }),
      (success, (pop_line line r.0).1),
    )
    else (record t { source = r.0 }, (r.1, line))

get_next_line-handed :
    (m : Moment) (line : Bytes) (t : Tail)
    → get_next_line m line t ≡ handed m line t (fill m.file t.source)
unfolding get_next_line
get_next_line-handed m line t = refl

moved-NextLine :
    (contents line text : Bytes) (src a b : LogfileSource)
    → SamePlace a b
    → NextLine contents src line (a, text)
    → NextLine contents src line (b, text)
moved-NextLine contents line text src a b p (NextLine.nothing_new n e c) =
    NextLine.nothing_new n e (p.consumed ∙ c)
moved-NextLine contents line text src a b p (NextLine.next_line l rest n e c) =
    NextLine.next_line l rest n e (p.consumed ∙ c)

from-NextLine :
    (contents line : Bytes) (a b : LogfileSource) (r : LogfileSource × Bytes)
    → b.consumed_offset ≡ a.consumed_offset
    → NextLine contents b line r
    → NextLine contents a line r
from-NextLine contents line a b r e (NextLine.nothing_new n f c) =
    NextLine.nothing_new (rw (← e) n) f (c ∙ e)
from-NextLine contents line a b r e (NextLine.next_line l rest n f c) =
    NextLine.next_line l rest (rw (← e) n) f (c ∙ ap (λ k. k + length l) e)

-- `getNextLine` in a file that is there: it succeeds, and hands out the first complete line behind the
-- consumed offset, without its line feed, and moves the offset behind it. If there is no complete line,
-- the line and the offset stay. This holds whatever the blocks are, whatever is in the buffer, and whether
-- a checkpoint is written, fails, or is not due. The bound of the buffer, the expression and its names stay.
pub get_next_line-Handed :
    (m : Moment) (contents line : Bytes) (t : Tail)
    → Serves m.file t.source.inode contents
    → StandsIn contents t.source
    → 0 < t.source.line_buf_maxsize
    → Handed contents line t (get_next_line m line t)
get_next_line-Handed m contents line t s h pos =
    let f = fill-Filled m.file contents t.source s h pos in
    let src = (fill m.file t.source).0 in
    let p = pop_line-Popped contents line src s.bounded f.stands f.ready in
    let popped_tail = record t { source = (pop_line line src).0 } in
    let q = checkpoint_if_due-SamePlace m popped_tail in
    let n = moved-NextLine contents line _ src _ _ q p.next in
    rw (get_next_line-handed m line t, f.ok)
      (record {
        ok = refl;
        next = from-NextLine contents line t.source src _ f.consumed n;
        stands = moved-StandsIn contents _ _ q p.stands;
        inode = q.inode ∙ p.inode ∙ f.inode;
        maxsize = q.maxsize ∙ p.maxsize ∙ f.maxsize;
        pcre = q.pcre ∙ p.pcre ∙ f.pcre;
        fields = q.fields ∙ p.fields ∙ f.fields;
      })
