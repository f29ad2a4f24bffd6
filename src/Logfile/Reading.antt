-- ===== src/Logfile/Reading.antt =====
-- What `readLines` reads: the complete lines of the file, from where the last call stopped.
use mathlib.Core.List.{flatten}
use evcollect.Prelude.{
  ℕ, zero, suc, ◌+◌, ◌≤◌, ◌≢◌, ◌<◌, ◌^◌, ◌≡◌, refl, sym, ap, ◌∙◌, ◌⊎◌, inl, inr, true, false, Bool,
  Bool-cases, none, some, List, [], ◌∷◌, ◌++◌, append_assoc, append-nil, arith, Bytes, length,
  length-append, length-drop, drop, All, ltb, ==_iff, ◌==◌, ◌&&◌, wrap64, wrap64-small,
  if◌then◌else◌,
}
use evcollect.Util.ReturnCode.{success, ReturnCode}
use evcollect.Logfile.Lines.{
  IsLine, FirstLine, first_line-FirstLine, first_line-nil, drop-more, nothing_left,
}
use evcollect.Logfile.Input.{Reader, read_line}
use evcollect.Logfile.Input.Blocks.{
  first_line, IsReader, unread, no_line, a_line, read_line-ReadLine, length-unread,
}
use evcollect.Logfile.{
  LogfileSource, LogFile, is_replaced, restart, push_line, read_lines_loop, reader_at, read_from,
  read_opened, read_lines,
}

-- The system serves a file: its inode, its size, and from every offset the bytes behind it.
pub record Serves (file : LogFile) (inode : ℕ) (contents : Bytes) : Type 0 where
  pub fd : ℕ
  pub stat : file.stat ≡ some (inode, length contents)
  pub opened : file.opened ≡ some fd
  pub seeks : file.seeks ≡ true
  pub reads : (offset : ℕ) → flatten (file.blocks offset) ≡ drop offset contents
  pub filled : (offset : ℕ) → All (λ block. 0 < length block) (file.blocks offset)
  pub bounded : length contents < 2 ^ 64

-- The source stands in a file: behind the consumed offset come the lines of the buffer, and then what is
-- not read.
pub record StandsIn (contents : Bytes) (src : LogfileSource) : Type 0 where
  pub buffered :
      drop src.consumed_offset contents ≡ flatten src.line_buf ++ drop src.offset contents
  pub offsets : src.consumed_offset + length (flatten src.line_buf) ≡ src.offset
  pub inside : src.offset ≤ length contents
  pub lines : All IsLine src.line_buf

flatten-snoc : (xs : List Bytes) (l : Bytes) → flatten (xs ++ l ∷ []) ≡ flatten xs ++ l
unfolding flatten
flatten-snoc [] l = append-nil l
flatten-snoc (x ∷ xs) l = ap (◌++◌ x) (flatten-snoc xs l) ∙ sym (append_assoc x (flatten xs) l)

All-snoc {ℓ κ} :
    {A : Type ℓ} (P : A → Type κ) (xs : List A) (x : A) → All P xs → P x → All P (xs ++ x ∷ [])
All-snoc P [] x h p = (p, tt)
All-snoc P (y ∷ xs) x h p = (h.0, All-snoc P xs x h.1 p)

push_line-StandsIn :
    (contents l r : Bytes) (src : LogfileSource)
    → length contents < 2 ^ 64
    → StandsIn contents src
    → FirstLine (drop src.offset contents) l r
    → StandsIn contents (push_line l src) × (drop (push_line l src).offset contents ≡ r)
push_line-StandsIn contents l r src small h f =
    let fits : src.offset + length l ≤ length contents =
      omega
        (arith, ap length f.whole, length-append l r, length-drop src.offset contents, f.long) in
    let no_wrap : wrap64 (src.offset + length l) ≡ src.offset + length l =
      wrap64-small _ (omega arith) in
    let rest : drop (src.offset + length l) contents ≡ r =
      drop-more src.offset l r contents f.whole in
    rw no_wrap (
      record {
        buffered =
            h.buffered
            ∙ ap (◌++◌ (flatten src.line_buf)) f.whole
            ∙ rw (rest, flatten-snoc) (sym (append_assoc (flatten src.line_buf) l r));
        offsets = omega (
          arith,
          h.offsets,
          ap length (flatten-snoc src.line_buf l),
          length-append (flatten src.line_buf) l,
        );
        inside = fits;
        lines = All-snoc IsLine src.line_buf l h.lines f.line;
      },
      rest,
    )

-- What `readLines` leaves: a buffer that is full, or no complete line in the rest of the file.
abbrev pub HasRead : Bytes → LogfileSource → Type 0
HasRead contents src =
    StandsIn contents src
    × ((src.line_buf_maxsize ≤ length src.line_buf)
        ⊎ (first_line (drop src.offset contents) ≡ none))

-- What the loop does not touch.
pub record Keeps (src src' : LogfileSource) : Type 0 where
  pub consumed : src'.consumed_offset ≡ src.consumed_offset
  pub inode : src'.inode ≡ src.inode
  pub maxsize : src'.line_buf_maxsize ≡ src.line_buf_maxsize
  pub pcre : src'.pcre_handle ≡ src.pcre_handle
  pub fields : src'.pcre_fields ≡ src.pcre_fields

abbrev round : ℕ → LogfileSource → Reader × (Bool × Bytes) → LogfileSource
round fuel src r = elim (r.1.0 && ltb (length src.line_buf) src.line_buf_maxsize) [
  | true ↦ read_lines_loop fuel r.0 (push_line r.1.1 src)
  | false ↦ src
]

read_lines_loop-round :
    (fuel : ℕ) (rd : Reader) (src : LogfileSource) (r : Reader × (Bool × Bytes))
    → read_line rd ≡ r
    → read_lines_loop (suc fuel) rd src ≡ round fuel src r
unfolding read_lines_loop
read_lines_loop-round fuel rd src r e = ap (round fuel src) e

read_lines_loop-stop :
    (fuel : ℕ) (rd : Reader) (src : LogfileSource)
    → (read_line rd).1.0 ≡ false
    → read_lines_loop (suc fuel) rd src ≡ src
unfolding read_lines_loop
read_lines_loop-stop fuel rd src e = rw (e, read_lines_loop)

read_lines_loop-more :
    (fuel : ℕ) (rd rd' : Reader) (src : LogfileSource) (l : Bytes)
    → read_line rd ≡ (rd', (true, l))
    → ltb (length src.line_buf) src.line_buf_maxsize ≡ true
    → read_lines_loop (suc fuel) rd src ≡ read_lines_loop fuel rd' (push_line l src)
read_lines_loop-more fuel rd rd' src l e room =
    read_lines_loop-round fuel rd src _ e ∙ rw (room, round) refl

read_lines_loop-full :
    (fuel : ℕ) (rd rd' : Reader) (src : LogfileSource) (l : Bytes)
    → read_line rd ≡ (rd', (true, l))
    → ltb (length src.line_buf) src.line_buf_maxsize ≡ false
    → read_lines_loop (suc fuel) rd src ≡ src
read_lines_loop-full fuel rd rd' src l e full =
    read_lines_loop-round fuel rd src _ e ∙ rw (full, round) refl

read_lines_loop-HasRead :
    (fuel : ℕ) (contents : Bytes) (rd : Reader) (src : LogfileSource)
    → length contents < 2 ^ 64
    → IsReader rd
    → unread rd ≡ drop src.offset contents
    → StandsIn contents src
    → length (unread rd) < fuel
    → HasRead contents (read_lines_loop fuel rd src) × Keeps src (read_lines_loop fuel rd src)
read_lines_loop-HasRead zero contents rd src small w u h lt = absurd (omega arith)
read_lines_loop-HasRead (suc fuel) contents rd src small w u h lt = elim (read_line-ReadLine rd w) [
  | no_line n e ↦
      rw (read_lines_loop-stop fuel rd src e) ((h, inr (ap first_line (sym u) ∙ n)), kept_all)
  | a_line l rd' f e w' ↦ elim (Bool-cases (ltb (length src.line_buf) src.line_buf_maxsize)) [
    | inr full ↦
        rw (read_lines_loop-full fuel rd rd' src l e full) ((h, inl (ground arith)), kept_all)
    | inl room ↦
        let fl = first_line-FirstLine (unread rd) l (unread rd') f in
        let (h', r) = push_line-StandsIn contents l (unread rd') src small h (rw (← u) fl) in
        let (done, kept) =
          read_lines_loop-HasRead fuel contents rd' (push_line l src) small w' (sym r) h'
            (omega (arith, ap length fl.whole, length-append l (unread rd'), fl.long)) in
        rw (read_lines_loop-more fuel rd rd' src l e room) (
          done,
          record {
            consumed = kept.consumed;
            inode = kept.inode;
            maxsize = kept.maxsize;
            pcre = kept.pcre;
            fields = kept.fields;
          },
        )
  ]
]
  where
    kept_all : Keeps src src
    kept_all = record { consumed = refl; inode = refl; maxsize = refl; pcre = refl; fields = refl }

reader_at-IsReader :
    (file : LogFile) (inode : ℕ) (contents : Bytes) (offset : ℕ)
    → Serves file inode contents
    → IsReader (reader_at file offset)
reader_at-IsReader file inode contents offset s = record {
  filled = refl;
  within = omega arith;
  blocks = s.filled offset;
}

-- A source that stands in the file reads on from its offset.
read_from-HasRead :
    (file : LogFile) (contents : Bytes) (src : LogfileSource)
    → Serves file src.inode contents
    → StandsIn contents src
    → HasRead contents (read_from file src) × Keeps src (read_from file src)
read_from-HasRead file contents src s h =
    let w = reader_at-IsReader file src.inode contents src.offset s in
    read_lines_loop-HasRead _ contents (reader_at file src.offset) src s.bounded w
      (s.reads src.offset) h (omega (arith, length-unread (reader_at file src.offset) w))

abbrev read_rest : LogFile → ℕ → LogfileSource → LogfileSource × ReturnCode
read_rest file size src = if size == src.offset then (src, success) else read_opened file src

read_lines-rest :
    (file : LogFile) (src : LogfileSource) (st : ℕ × ℕ)
    → file.stat ≡ some st
    → read_lines file src
      ≡ read_rest file st.1 (if is_replaced st.0 st.1 src then restart st.0 src else src)
unfolding read_lines
read_lines-rest file src st e = rw (e, read_lines) refl

same-not_replaced :
    (src : LogfileSource) (size : ℕ) → src.offset ≤ size → is_replaced src.inode size src ≡ false
unfolding is_replaced
same-not_replaced src size h = ground arith

read_opened-from :
    (file : LogFile) (src : LogfileSource) (inode : ℕ) (contents : Bytes)
    → Serves file inode contents
    → read_opened file src ≡ (read_from file src, success)
read_opened-from file src inode contents s = rw (s.opened, s.seeks, read_opened) refl

-- The outcome of `readLines` in a file of these contents.
abbrev pub Reads : Bytes → LogfileSource → LogfileSource × ReturnCode → Type 0
Reads contents src r = (r.1 ≡ success) × HasRead contents r.0 × Keeps src r.0

read_rest-Reads :
    (file : LogFile) (contents : Bytes) (src : LogfileSource)
    → Serves file src.inode contents
    → StandsIn contents src
    → Reads contents src (read_rest file (length contents) src)
read_rest-Reads file contents src s h = elim (Bool-cases (length contents == src.offset)) [
  | inr more ↦
      rw (more, read_opened-from file src src.inode contents s)
        (let (done, kept) = read_from-HasRead file contents src s h in (refl, done, kept))
  | inl e ↦ rw e (
    refl,
    (h, inr (ap first_line (nothing_left contents src.offset ((==_iff _ _).0 e)) ∙ first_line-nil)),
    record { consumed = refl; inode = refl; maxsize = refl; pcre = refl; fields = refl },
  )
]

-- `readLines` in the file that the source stands in: it never fails, keeps its place, and stops with a full
-- buffer or with no complete line left.
pub read_lines-Reads :
    (file : LogFile) (contents : Bytes) (src : LogfileSource)
    → Serves file src.inode contents
    → StandsIn contents src
    → Reads contents src (read_lines file src)
read_lines-Reads file contents src s h =
    rw (read_lines-rest file src _ s.stat, same-not_replaced src (length contents) h.inside)
      (read_rest-Reads file contents src s h)

restart-StandsIn :
    (contents : Bytes) (inode : ℕ) (src : LogfileSource) → StandsIn contents (restart inode src)
unfolding restart flatten
restart-StandsIn contents inode src = record {
  buffered = refl;
  offsets = refl;
  inside = omega arith;
  lines = tt;
}

-- A file with another inode, or one that is shorter than what has been read of it, is read from its first line
-- on, and nothing is left of the lines of the old one; its inode is the one that is kept, so that the next call
-- reads on in it.
pub read_lines-restart :
    (file : LogFile) (inode : ℕ) (contents : Bytes) (src : LogfileSource)
    → Serves file inode contents
    → (inode ≢ src.inode) ⊎ (length contents < src.offset)
    → ((read_lines file src).1 ≡ success)
      × HasRead contents (read_lines file src).0
      × ((read_lines file src).0.consumed_offset ≡ 0)
      × ((read_lines file src).0.inode ≡ inode)
unfolding restart is_replaced
read_lines-restart file inode contents src s other =
    let t : is_replaced inode (length contents) src ≡ true = elim other [
      | inl n ↦ ground arith
      | inr l ↦ ground arith
    ] in
    rw (read_lines-rest file src _ s.stat, t)
      (let (ok, done, kept) =
          read_rest-Reads file contents (restart inode src) s
            (restart-StandsIn contents inode src) in
        (ok, done, kept.consumed, kept.inode))
