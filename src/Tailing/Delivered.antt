-- ===== src/Tailing/Delivered.antt =====
-- What is in the log file arrives at the target.
use mathlib.Core.Path.{subst}
use evcollect.Prelude.{
  Option, some-none, ℕ, zero, suc, ◌<◌, ◌≡◌, refl, sym, ap, ◌∙◌, inl, inr, Bool, true, false, not,
  none, some, List, [], ◌∷◌, ◌++◌, append-nil, append_assoc, arith, Bytes, length, length-append,
  length-drop,
}
use evcollect.Events.{EventData}
use evcollect.Util.ReturnCode.{success}
use evcollect.Plugin.{SourcePlugin, OutputPlugin}
use evcollect.Service.{TargetBinding, EventBinding}
use evcollect.Service.Process.{emit_event, emit_merged, process_rounds, process_event}
use evcollect.Logfile.{Pcre, is_empty}
use evcollect.Logfile.Input.Blocks.{first_line}
use evcollect.Logfile.Lines.{first_line-FirstLine}
use evcollect.Logfile.Checkpoint.{Moment, fill}
use evcollect.Tailing.{World, log_source, keeper, log_event}
use evcollect.Tailing.Taking.{
  text_of, data_of, Tails, left, Filled-Pending, Taken, line_at, after_get, get-Handed, get-data_of,
  get-Tails, next-Taken, after_pending, filled_buffer, pending-fill, pending-Filled, pending-Tails,
}
use evcollect.Tailing.Round.{sources_round-one, more_or_end, process_rounds-one}

-- The complete lines at the beginning of a text, with their line feeds.
pub data Lines : Bytes → List Bytes → Type 0 where
  no_more : {text : Bytes} → first_line text ≡ none → Lines text []
  one_more :
      {text rest : Bytes} {l : Bytes} {ls : List Bytes}
      → first_line text ≡ some (l, rest)
      → Lines rest ls
      → Lines text (l ∷ ls)

-- The events of a datum, and of lines; where there is no datum, there is no event.
abbrev pub event_of : Bytes → ℕ → Bytes → List EventData
event_of name now [] = []
event_of name now (c ∷ cs) = record { time = now; event_name = name; event_data = c ∷ cs } ∷ []

pub all_events : Option Pcre → List Bytes → Bytes → ℕ → List Bytes → List EventData
all_events handle fields name now [] = []
all_events handle fields name now (l ∷ ls) =
    event_of name now (data_of handle fields (text_of l)) ++ all_events handle fields name now ls

module _ (moments : ℕ → Moment) (contents : Bytes) (handle : Option Pcre) (fields : List Bytes)
    (plugin : SourcePlugin World) (output : OutputPlugin World) (name : Bytes)
    (interval next_tick now : ℕ) where
  abbrev tailing : EventBinding World
  tailing = log_event moments plugin name interval next_tick

  abbrev targets : List (TargetBinding World)
  targets = keeper output ∷ []

  abbrev kept : Bytes → World → World
  kept raw w = record w { sent = w.sent ++ event_of name now (data_of handle fields raw) }

  emit-kept :
      (event : Bytes) (w : World)
      → emit_merged targets tailing now event w
        ≡ (record w { sent = w.sent ++ event_of name now event }, success)
  unfolding emit_event keeper
  emit-kept [] w = ap (λ sent. (record w { sent = sent }, success)) (sym (append-nil w.sent))
  emit-kept (c ∷ cs) w = refl

  -- The rest of the file has arrived.
  record Arrived (fuel : ℕ) (w : World) : Type 0 where
    w' : World
    ls : List Bytes
    ends : process_rounds fuel targets tailing now w ≡ some (w', success)
    lines : Lines (left contents w) ls
    sent : w'.sent ≡ w.sent ++ all_events handle fields name now ls
    stands : Tails moments contents handle fields w'
    nothing : first_line (left contents w') ≡ none

  module _ (fuel : ℕ) (w : World) (h : Tails moments contents handle fields w) where
    abbrev w1 : World
    w1 = after_get moments contents handle fields w

    abbrev raw : Bytes
    raw = (line_at moments contents handle fields w).1.1

    abbrev w2 : World
    w2 = after_pending moments contents handle fields w1

    h1 : Tails moments contents handle fields w1
    h1 = get-Tails moments contents handle fields w h

    abbrev more : Bool
    more = not (is_empty (filled_buffer moments contents handle fields w1))

    round-kept :
        process_rounds (suc fuel) targets tailing now w
        ≡ more_or_end fuel targets tailing now more (kept raw w2)
    unfolding log_source
    round-kept =
        process_rounds-one fuel targets tailing now w w2 (kept raw w2) (data_of handle fields raw)
          more
          (sources_round-one (log_source moments plugin) w w1 w2 (data_of handle fields raw) more
            (get-data_of moments contents handle fields w h)
            (pending-fill moments contents handle fields w1))
          (emit-kept (data_of handle fields raw) w2)

    stands-kept : Tails moments contents handle fields (kept raw w2)
    stands-kept =
        let t = (pending-Tails moments contents handle fields w1 h1).0 in
        record {
          served = t.served;
          stands = t.stands;
          room = t.room;
          expression = t.expression;
          names = t.names;
        }

    left-kept : left contents (kept raw w2) ≡ left contents w1
    left-kept = (pending-Tails moments contents handle fields w1 h1).1

    ended :
        is_empty (filled_buffer moments contents handle fields w1) ≡ true
        → first_line (left contents w1) ≡ none
        → Taken moments contents handle fields w w1 raw
        → Arrived (suc fuel) w
    unfolding all_events
    ended b n (inl (n0, r, same)) = record {
      w' = kept raw w2;
      ls = [];
      ends = round-kept ∙ ap (λ b. more_or_end fuel targets tailing now (not b) (kept raw w2)) b;
      lines = Lines.no_more n0;
      sent = ap (λ raw. w.sent ++ event_of name now (data_of handle fields raw)) r;
      stands = stands-kept;
      nothing = ap first_line left-kept ∙ n;
    }
    ended b n (inr (l, rest, f, r, same)) = record {
      w' = kept raw w2;
      ls = l ∷ [];
      ends = round-kept ∙ ap (λ b. more_or_end fuel targets tailing now (not b) (kept raw w2)) b;
      lines = Lines.one_more f (Lines.no_more (ap first_line (sym same) ∙ n));
      sent =
          ap (λ raw. w.sent ++ event_of name now (data_of handle fields raw)) r
          ∙ ap (λ t. w.sent ++ t)
              (sym (append-nil (event_of name now (data_of handle fields (text_of l)))));
      stands = stands-kept;
      nothing = ap first_line left-kept ∙ n;
    }

    goes_on :
        is_empty (filled_buffer moments contents handle fields w1) ≡ false
        → (l' rest' : Bytes) → first_line (left contents w1) ≡ some (l', rest')
        → ((v : World)
            → Tails moments contents handle fields v
            → length (left contents v) < fuel
            → Arrived fuel v)
        → length (left contents w) < suc fuel
        → Taken moments contents handle fields w w1 raw
        → Arrived (suc fuel) w
    unfolding all_events
    goes_on b l' rest' f' others lt (inl (n0, r, same)) =
        let none_left : first_line (left contents w1) ≡ none = ap first_line same ∙ n0 in
        absurd (some-none (l', rest') _ f' none_left)
    goes_on b l' rest' f' others lt (inr (l, rest, f, r, same)) =
        let here : left contents (kept raw w2) ≡ rest = left-kept ∙ same in
        let fl = first_line-FirstLine (left contents w) l rest f in
        let a =
          others (kept raw w2) stands-kept (
            omega (arith, ap length here, ap length fl.whole, length-append l rest, fl.long, lt)) in
        record {
          w' = a.w';
          ls = l ∷ a.ls;
          ends =
              round-kept
              ∙ ap (λ b. more_or_end fuel targets tailing now (not b) (kept raw w2)) b
              ∙ a.ends;
          lines = Lines.one_more f (subst (λ t. Lines t a.ls) here a.lines);
          sent =
              a.sent
              ∙ append_assoc w.sent (event_of name now (data_of handle fields raw))
                  (all_events handle fields name now a.ls)
              ∙ ap
                  (λ raw.
                    w.sent
                    ++ (event_of name now (data_of handle fields raw)
                        ++ all_events handle fields name now a.ls))
                  r;
          stands = a.stands;
          nothing = a.nothing;
        }

  arrives :
      (fuel : ℕ) (w : World)
      → Tails moments contents handle fields w
      → length (left contents w) < fuel
      → Arrived fuel w
  arrives zero w h lt = absurd (omega arith)
  arrives (suc fuel) w h lt =
      let taken =
        next-Taken moments contents handle fields w
          (get-Handed moments contents handle fields w h).next in
      let w1 = after_get moments contents handle fields w in
      elim (Filled-Pending moments contents handle fields w1.tail.source
        (fill ((moments w1.calls).file) w1.tail.source)
        (pending-Filled moments contents handle fields w1
          (get-Tails moments contents handle fields w h))) [
            | inl (b, n) ↦ ended fuel w h b n taken
            | inr (b, l, rest, f) ↦ goes_on fuel w h b l rest f (λ v. arrives fuel v) lt taken
          ]

  -- An event whose source is a log file, and a target: if the file stays as it is, `processEvent` returns with success,
  -- and the target has taken, in order, the event that `getNextEvent` makes of each complete line behind the consumed
  -- offset, once; none is left then. A line that is blank, or that an expression does not match, has no event. This holds
  -- whatever the blocks are, whatever is in the buffer, however small it is, and whenever a checkpoint is written or fails.
  pub process_event-Lines :
      (fuel : ℕ) (w : World)
      → Tails moments contents handle fields w
      → length contents < fuel
      → (w' : World) × (ls : List Bytes) × (process_event fuel
            (keeper output ∷ [])
            (log_event moments plugin name interval next_tick)
            now
            w
          ≡ some (w', success))
        × Lines (left contents w) ls
        × (w'.sent ≡ w.sent ++ all_events handle fields name now ls)
        × Tails moments contents handle fields w'
        × (first_line (left contents w') ≡ none)
  unfolding process_event
  process_event-Lines fuel w h lt =
      let a =
        arrives fuel w h (omega (arith, length-drop w.tail.source.consumed_offset contents)) in
      (a.w', a.ls, a.ends, a.lines, a.sent, a.stands, a.nothing)
