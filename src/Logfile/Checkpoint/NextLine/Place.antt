-- ===== src/Logfile/Checkpoint/NextLine/Place.antt =====
-- Writing a checkpoint leaves the place of the source as it is.
use evcollect.Prelude.{
  ◌≡◌, refl, inl, inr, true, false, Bool, Bool-cases, Bytes, leb, sub64, if◌then◌else◌,
}
use evcollect.Logfile.{LogfileSource}
use evcollect.Logfile.Reading.{StandsIn}
use evcollect.Logfile.Checkpoint.{
  Tail, Moment, WriteOutcome, open_failed, write_failed, written, store, write_checkpoint,
  is_checkpointed, checkpoint_if_due,
}
use evcollect.Logfile.Checkpoint.RoundTrip.{write_checkpoint-skip, write_checkpoint-store, marked}

-- The place of a source: what the checkpoint does not touch.
pub record SamePlace (a b : LogfileSource) : Type 0 where
  pub inode : b.inode ≡ a.inode
  pub offset : b.offset ≡ a.offset
  pub consumed : b.consumed_offset ≡ a.consumed_offset
  pub lines : b.line_buf ≡ a.line_buf
  pub maxsize : b.line_buf_maxsize ≡ a.line_buf_maxsize
  pub pcre : b.pcre_handle ≡ a.pcre_handle
  pub fields : b.pcre_fields ≡ a.pcre_fields

pub moved-StandsIn :
    (contents : Bytes) (a b : LogfileSource)
    → SamePlace a b
    → StandsIn contents a
    → StandsIn contents b
moved-StandsIn contents a b p h = record {
  buffered = rw (p.consumed, p.offset, p.lines) h.buffered;
  offsets = rw (p.consumed, p.offset, p.lines) h.offsets;
  inside = rw p.offset h.inside;
  lines = rw p.lines h.lines;
}

store-SamePlace :
    (o : WriteOutcome) (src : LogfileSource) (file : Bytes)
    → SamePlace src (store o src file).0.source
unfolding store
store-SamePlace open_failed src file = record {
  inode = refl;
  offset = refl;
  consumed = refl;
  lines = refl;
  maxsize = refl;
  pcre = refl;
  fields = refl;
}
store-SamePlace write_failed src file = record {
  inode = refl;
  offset = refl;
  consumed = refl;
  lines = refl;
  maxsize = refl;
  pcre = refl;
  fields = refl;
}
store-SamePlace (written n) src file = record {
  inode = refl;
  offset = refl;
  consumed = refl;
  lines = refl;
  maxsize = refl;
  pcre = refl;
  fields = refl;
}

SamePlace-refl : (a : LogfileSource) → SamePlace a a
SamePlace-refl a = record {
  inode = refl;
  offset = refl;
  consumed = refl;
  lines = refl;
  maxsize = refl;
  pcre = refl;
  fields = refl;
}

either-SamePlace :
    (a : LogfileSource) (b : Bool) (x y : Tail)
    → SamePlace a x.source
    → SamePlace a y.source
    → SamePlace a (if b then x else y).source
either-SamePlace a true x y hx hy = hx
either-SamePlace a false x y hx hy = hy

write_checkpoint-SamePlace :
    (o : WriteOutcome) (t : Tail) → SamePlace t.source (write_checkpoint o t).0.source
write_checkpoint-SamePlace o t = elim (Bool-cases (is_checkpointed t.source)) [
  | inl e ↦ rw (write_checkpoint-skip o t e) (SamePlace-refl t.source)
  | inr e ↦
      let p = store-SamePlace o (marked t) t.checkpoint in
      rw (write_checkpoint-store o t e) (record {
        inode = p.inode;
        offset = p.offset;
        consumed = p.consumed;
        lines = p.lines;
        maxsize = p.maxsize;
        pcre = p.pcre;
        fields = p.fields;
      })
]

pub checkpoint_if_due-SamePlace :
    (m : Moment) (t : Tail) → SamePlace t.source (checkpoint_if_due m t).source
unfolding checkpoint_if_due
checkpoint_if_due-SamePlace m t =
    let p = write_checkpoint-SamePlace m.outcome t in
    either-SamePlace t.source
      (leb t.source.checkpoint_interval_micros (sub64 m.now t.source.last_checkpoint)) _ t
      (record {
        inode = p.inode;
        offset = p.offset;
        consumed = p.consumed;
        lines = p.lines;
        maxsize = p.maxsize;
        pcre = p.pcre;
        fields = p.fields;
      })
      (SamePlace-refl t.source)
