-- ===== src/Tailing/Taking.antt =====
-- What a call of the log file plugin does in a file that stays as it is.
use mathlib.Core.Path.{subst}
use mathlib.Core.List.{flatten}
use evcollect.Prelude.{
  ℕ, ◌+◌, ◌-◌, ◌<◌, ◌≡◌, refl, sym, ap, ◌∙◌, ◌⊎◌, inl, inr, Bool, Bool-cases, true, false, not,
  Option, none, some, List, [], ◌∷◌, ◌++◌, append_assoc, arith, Bytes, length, take, drop, All,
  if◌then◌else◌,
}
use evcollect.Util.ReturnCode.{ReturnCode, success}
use evcollect.Logfile.{LogfileSource, LogFile, Pcre, has_next_line, is_empty}
use evcollect.Logfile.Input.Blocks.{first_line}
use evcollect.Logfile.Lines.{IsLine, first_line-FirstLine, drop-more}
use evcollect.Logfile.Reading.{Serves, StandsIn}
use evcollect.Logfile.Checkpoint.{Tail, Moment, fill, get_next_line}
use evcollect.Logfile.Checkpoint.NextLine.{Handed, get_next_line-Handed}
use evcollect.Logfile.Checkpoint.NextLine.Pop.{NextLine, Filled, fill-Filled}
use evcollect.Logfile.Event.{get_next_event, make_event}
use evcollect.Tailing.{World, get_next_event_of, has_pending_event_of}

-- A line without its line feed, and what `getNextEvent` makes of it.
abbrev pub text_of : Bytes → Bytes
text_of l = take (length l - 1) l

abbrev pub data_of : Option Pcre → List Bytes → Bytes → Bytes
data_of handle fields raw = if is_empty raw then [] else make_event handle fields raw []

-- The source stands in a file that stays as it is, with this expression and its names.
pub record Tails (moments : ℕ → Moment) (contents : Bytes) (handle : Option Pcre)
    (fields : List Bytes) (w : World) : Type 0 where
  pub served : (n : ℕ) → Serves ((moments n).file) w.tail.source.inode contents
  pub stands : StandsIn contents w.tail.source
  pub room : 0 < w.tail.source.line_buf_maxsize
  pub expression : w.tail.source.pcre_handle ≡ handle
  pub names : w.tail.source.pcre_fields ≡ fields

get_next_event-data_of :
    (m : Moment) (t : Tail) (handle : Option Pcre) (fields : List Bytes)
    → (get_next_line m [] t).1.0 ≡ success
    → (get_next_line m [] t).0.source.pcre_handle ≡ handle
    → (get_next_line m [] t).0.source.pcre_fields ≡ fields
    → get_next_event m [] t
      ≡ ((get_next_line m [] t).0, (success, data_of handle fields (get_next_line m [] t).1.1))
unfolding get_next_event
get_next_event-data_of m t handle fields ok e e' =
    let r = get_next_line m [] t in
    rw (ok, get_next_event)
      (ap (λ handle. (r.0, (success, data_of handle r.0.source.pcre_fields r.1.1))) e
        ∙ ap (λ fields. (r.0, (success, data_of handle fields r.1.1))) e')

-- What is left of the file behind the lines that have been handed out.
abbrev pub left : Bytes → World → Bytes
left contents w = drop w.tail.source.consumed_offset contents

module _ (moments : ℕ → Moment) (contents : Bytes) (handle : Option Pcre)
    (fields : List Bytes) where
  has_next_line-fill :
      (file : LogFile) (src : LogfileSource)
      → has_next_line file src ≡ ((fill file src).0, not (is_empty (fill file src).0.line_buf))
  unfolding has_next_line
  has_next_line-fill file src = elim (Bool-cases (is_empty src.line_buf)) [
    | inl e ↦ rw e refl
    | inr e ↦ rw e refl
  ]

  -- Whether a filled buffer has a line is whether the file has one.
  abbrev Pending : LogfileSource → List Bytes → Type 0
  Pending src lines =
      ((is_empty lines ≡ true) × (first_line (drop src.consumed_offset contents) ≡ none))
      ⊎ ((is_empty lines ≡ false)
          × (l : Bytes) × (rest : Bytes) × (first_line (drop src.consumed_offset contents)
              ≡ some (l, rest)))

  pub Filled-Pending :
      (src : LogfileSource) (r : LogfileSource × ReturnCode)
      → Filled contents src r
      → Pending src r.0.line_buf
  unfolding flatten
  Filled-Pending src r f = buffered r.0.line_buf refl
    where
      same : drop src.consumed_offset contents ≡ flatten r.0.line_buf ++ drop r.0.offset contents
      same = ap (λ n. drop n contents) (sym f.consumed) ∙ f.stands.buffered

      buffered : (xs : List Bytes) → r.0.line_buf ≡ xs → Pending src xs
      buffered [] e = elim f.ready [
        | inl filled ↦ absurd (ground arith)
        | inr n ↦
            inl
              (refl, ap first_line (same ∙ ap (λ xs. flatten xs ++ drop r.0.offset contents) e) ∙ n)
      ]
      buffered (x ∷ xs) e =
          let lines : All IsLine (x ∷ xs) = subst (All IsLine) e f.stands.lines in
          let behind = flatten xs ++ drop r.0.offset contents in
          inr (
            refl,
            x,
            behind,
            ap first_line (
                  same
                  ∙ ap (λ xs. flatten xs ++ drop r.0.offset contents) e
                  ∙ append_assoc x (flatten xs) (drop r.0.offset contents))
                ∙ (first_line-FirstLine x x [] lines.0).stays behind,
          )

  -- What a call of `getNextLine` takes of the file.
  abbrev pub Taken : World → World → Bytes → Type 0
  Taken w w' raw_line =
      ((first_line (left contents w) ≡ none)
        × (raw_line ≡ [])
        × (left contents w' ≡ left contents w))
      ⊎ ((l : Bytes) × (rest : Bytes) × (first_line (left contents w) ≡ some (l, rest))
          × (raw_line ≡ text_of l)
          × (left contents w' ≡ rest))

  abbrev pub line_at : World → Tail × (ReturnCode × Bytes)
  line_at w = get_next_line (moments w.calls) [] w.tail

  abbrev pub after_get : World → World
  after_get w = record w { tail = (line_at w).0; calls = w.calls + 1 }

  pub get-Handed :
      (w : World) → Tails moments contents handle fields w → Handed contents [] w.tail (line_at w)
  get-Handed w h =
      get_next_line-Handed (moments w.calls) contents [] w.tail (h.served w.calls) h.stands h.room

  pub get-data_of :
      (w : World)
      → Tails moments contents handle fields w
      → get_next_event_of moments [] w
        ≡ (after_get w, (success, data_of handle fields (line_at w).1.1))
  unfolding get_next_event_of
  get-data_of w h =
      let handed = get-Handed w h in
      ap (λ (r : Tail × (ReturnCode × Bytes)). (record w { tail = r.0; calls = w.calls + 1 }, r.1))
        (get_next_event-data_of (moments w.calls) w.tail handle fields handed.ok
          (handed.pcre ∙ h.expression) (handed.fields ∙ h.names))

  pub get-Tails :
      (w : World)
      → Tails moments contents handle fields w
      → Tails moments contents handle fields (after_get w)
  get-Tails w h =
      let handed = get-Handed w h in
      record {
        served = λ n.
            subst (λ inode. Serves ((moments n).file) inode contents) (sym handed.inode)
              (h.served n);
        stands = handed.stands;
        room = rw handed.maxsize h.room;
        expression = handed.pcre ∙ h.expression;
        names = handed.fields ∙ h.names;
      }

  pub next-Taken :
      (w : World)
      → NextLine contents w.tail.source [] ((line_at w).0.source, (line_at w).1.1)
      → Taken w (after_get w) (line_at w).1.1
  next-Taken w (NextLine.nothing_new n e c) = inl (n, e, ap (λ k. drop k contents) c)
  next-Taken w (NextLine.next_line l rest f e c) = inr (
    l,
    rest,
    f,
    e,
    ap (λ k. drop k contents) c
        ∙ drop-more w.tail.source.consumed_offset l rest contents
            (first_line-FirstLine (left contents w) l rest f).whole,
  )

  abbrev pub after_pending : World → World
  after_pending w = record w {
    tail = record (w.tail) { source = (fill ((moments w.calls).file) w.tail.source).0 };
    calls = w.calls + 1;
  }

  abbrev pub filled_buffer : World → List Bytes
  filled_buffer w = (fill ((moments w.calls).file) w.tail.source).0.line_buf

  pub pending-fill :
      (w : World)
      → has_pending_event_of moments w ≡ (after_pending w, not (is_empty (filled_buffer w)))
  unfolding has_pending_event_of
  pending-fill w =
      ap
        (λ (r : LogfileSource × Bool).
          (record w { tail = record (w.tail) { source = r.0 }; calls = w.calls + 1 }, r.1))
        (has_next_line-fill ((moments w.calls).file) w.tail.source)

  pub pending-Filled :
      (w : World)
      → Tails moments contents handle fields w
      → Filled contents w.tail.source (fill ((moments w.calls).file) w.tail.source)
  pending-Filled w h =
      fill-Filled ((moments w.calls).file) contents w.tail.source (h.served w.calls) h.stands h.room

  pub pending-Tails :
      (w : World)
      → Tails moments contents handle fields w
      → Tails moments contents handle fields (after_pending w)
        × (left contents (after_pending w) ≡ left contents w)
  pending-Tails w h =
      let f = pending-Filled w h in
      (
        record {
          served = λ n.
              subst (λ inode. Serves ((moments n).file) inode contents) (sym f.inode) (h.served n);
          stands = f.stands;
          room = rw f.maxsize h.room;
          expression = f.pcre ∙ h.expression;
          names = f.fields ∙ h.names;
        },
        ap (λ k. drop k contents) f.consumed,
      )
