-- ===== src/Logfile/Checkpoint/NextLine/Pop.antt =====
-- A source whose buffer has been filled, and the line that it hands out.
use mathlib.Core.List.{flatten}
use mathlib.Core.Path.{subst}
use evcollect.Prelude.{
  ◌+◌, ◌-◌, ◌≤◌, ◌<◌, ◌^◌, ◌≡◌, refl, ap, ◌∙◌, ◌⊎◌, inl, inr, false, Bool-cases, none, some, List,
  [], ◌∷◌, ◌++◌, append_assoc, arith, Bytes, length, length-append, take, drop, All, wrap64,
  wrap64-small,
}
use evcollect.Util.ReturnCode.{success, ReturnCode}
use evcollect.Logfile.Input.Blocks.{first_line}
use evcollect.Logfile.Lines.{IsLine, first_line-FirstLine, drop-more}
use evcollect.Logfile.{LogfileSource, LogFile, read_lines, is_empty}
use evcollect.Logfile.Reading.{Serves, StandsIn, read_lines-Reads}
use evcollect.Logfile.Checkpoint.{pop_line, fill}

-- A buffer that is ready: it has a line, or the rest of the file has none.
abbrev Ready : Bytes → LogfileSource → Type 0
Ready contents src =
    (is_empty src.line_buf ≡ false) ⊎ (first_line (drop src.offset contents) ≡ none)

pub record Filled (contents : Bytes) (src : LogfileSource) (r : LogfileSource × ReturnCode)
    : Type 0 where
  pub ok : r.1 ≡ success
  pub stands : StandsIn contents r.0
  pub ready : Ready contents r.0
  pub consumed : r.0.consumed_offset ≡ src.consumed_offset
  pub inode : r.0.inode ≡ src.inode
  pub maxsize : r.0.line_buf_maxsize ≡ src.line_buf_maxsize
  pub pcre : r.0.pcre_handle ≡ src.pcre_handle
  pub fields : r.0.pcre_fields ≡ src.pcre_fields

full-ready :
    (src : LogfileSource)
    → 0 < src.line_buf_maxsize
    → src.line_buf_maxsize ≤ length src.line_buf
    → is_empty src.line_buf ≡ false
full-ready src h l = some_line src.line_buf (omega arith)
  where
    some_line : (xs : List Bytes) → 0 < length xs → is_empty xs ≡ false
    some_line [] h = absurd (omega arith)
    some_line (x ∷ xs) h = refl

pub fill-Filled :
    (file : LogFile) (contents : Bytes) (src : LogfileSource)
    → Serves file src.inode contents
    → StandsIn contents src
    → 0 < src.line_buf_maxsize
    → Filled contents src (fill file src)
fill-Filled file contents src s h pos = elim (Bool-cases (is_empty src.line_buf)) [
  | inr e ↦ rw e (record {
    ok = refl;
    stands = h;
    ready = inl e;
    consumed = refl;
    inode = refl;
    maxsize = refl;
    pcre = refl;
    fields = refl;
  })
  | inl e ↦
      let (ok, (stands, done), kept) = read_lines-Reads file contents src s h in
      rw e (record {
        ok = ok;
        stands = stands;
        ready = elim done [
          | inl f ↦ inl (full-ready (read_lines file src).0 (rw kept.maxsize pos) f)
          | inr n ↦ inr n
        ];
        consumed = kept.consumed;
        inode = kept.inode;
        maxsize = kept.maxsize;
        pcre = kept.pcre;
        fields = kept.fields;
      })
]

-- What `pop_line` hands out, of a source that stands in a file and is ready.
pub data NextLine (contents : Bytes) (src : LogfileSource) (line : Bytes)
    (r : LogfileSource × Bytes) : Type 0 where
  nothing_new :
      first_line (drop src.consumed_offset contents) ≡ none
      → r.1 ≡ line
      → r.0.consumed_offset ≡ src.consumed_offset
      → NextLine contents src line r
  next_line :
      (l rest : Bytes)
      → first_line (drop src.consumed_offset contents) ≡ some (l, rest)
      → r.1 ≡ take (length l - 1) l
      → r.0.consumed_offset ≡ src.consumed_offset + length l
      → NextLine contents src line r

-- One line more, and the source still stands in the file.
pub record Popped (contents : Bytes) (src : LogfileSource) (line : Bytes)
    (r : LogfileSource × Bytes) : Type 0 where
  pub next : NextLine contents src line r
  pub stands : StandsIn contents r.0
  pub inode : r.0.inode ≡ src.inode
  pub maxsize : r.0.line_buf_maxsize ≡ src.line_buf_maxsize
  pub pcre : r.0.pcre_handle ≡ src.pcre_handle
  pub fields : r.0.pcre_fields ≡ src.pcre_fields

abbrev popped : List Bytes → Bytes → LogfileSource → LogfileSource
popped others front src = record src {
  line_buf = others;
  consumed_offset = wrap64 (src.consumed_offset + length front);
}

abbrev pop : Bytes → LogfileSource → List Bytes → LogfileSource × Bytes
pop line src lines = elim lines [
  | [] ↦ (src, line)
  | front ∷ others ↦ (popped others front src, take (length front - 1) front)
]

pop_line-nil :
    (line : Bytes) (src : LogfileSource) → src.line_buf ≡ [] → pop_line line src ≡ (src, line)
unfolding pop_line
pop_line-nil line src e = ap (pop line src) e

pop_line-cons :
    (line : Bytes) (src : LogfileSource) (front : Bytes) (others : List Bytes)
    → src.line_buf ≡ front ∷ others
    → pop_line line src ≡ (popped others front src, take (length front - 1) front)
unfolding pop_line
pop_line-cons line src front others e = ap (pop line src) e

nil-Popped :
    (contents line : Bytes) (src : LogfileSource)
    → StandsIn contents src
    → first_line (drop src.offset contents) ≡ none
    → src.line_buf ≡ []
    → Popped contents src line (src, line)
unfolding flatten
nil-Popped contents line src h n e = record {
  next = NextLine.nothing_new (ap first_line h.buffered ∙ rw e n) refl refl;
  stands = h;
  inode = refl;
  maxsize = refl;
  pcre = refl;
  fields = refl;
}

cons-Popped :
    (contents line front : Bytes) (others : List Bytes) (src : LogfileSource)
    → length contents < 2 ^ 64
    → StandsIn contents src
    → src.line_buf ≡ front ∷ others
    → Popped contents src line (popped others front src, take (length front - 1) front)
unfolding flatten
cons-Popped contents line front others src small h e =
    let lines : All IsLine (front ∷ others) = subst (All IsLine) e h.lines in
    let f = first_line-FirstLine front front [] lines.0 in
    let behind = flatten others ++ drop src.offset contents in
    let here : drop src.consumed_offset contents ≡ front ++ behind =
      h.buffered ∙ rw e (append_assoc front (flatten others) (drop src.offset contents)) in
    let sum : src.consumed_offset + (length front + length (flatten others)) ≡ src.offset =
      omega (
        arith,
        h.offsets,
        ap (λ xs. length (flatten xs)) e,
        length-append front (flatten others),
      ) in
    let no_wrap : wrap64 (src.consumed_offset + length front) ≡ src.consumed_offset + length front =
      wrap64-small _ (omega (arith, h.inside)) in
    record {
      next = NextLine.next_line front behind (ap first_line here ∙ f.stays behind) refl no_wrap;
      stands = rw no_wrap (record {
        buffered = drop-more src.consumed_offset front behind contents here;
        offsets = omega arith;
        inside = h.inside;
        lines = lines.1;
      });
      inode = refl;
      maxsize = refl;
      pcre = refl;
      fields = refl;
    }

pub pop_line-Popped :
    (contents line : Bytes) (src : LogfileSource)
    → length contents < 2 ^ 64
    → StandsIn contents src
    → Ready contents src
    → Popped contents src line (pop_line line src)
pop_line-Popped contents line src small h ready = go src.line_buf refl ready
  where
    go :
        (xs : List Bytes)
        → src.line_buf ≡ xs
        → (is_empty xs ≡ false) ⊎ (first_line (drop src.offset contents) ≡ none)
        → Popped contents src line (pop_line line src)
    go [] e (inl f) = absurd (ground arith)
    go [] e (inr n) = rw (pop_line-nil line src e) (nil-Popped contents line src h n e)
    go (front ∷ others) e r =
        rw (pop_line-cons line src front others e)
          (cons-Popped contents line front others src small h e)
