-- ===== src/Logfile/Checkpoint/RoundTrip.antt =====
-- The checkpoint that is written is the one that is read back.
use evcollect.Prelude.{
  le_value, take-all, ℕ, zero, suc, ◌/◌, ◌^◌, ◌≤◌, ◌<◌, ◌≡◌, refl, sym, ap, ◌∙◌, true, false, some,
  ◌++◌, arith, Bytes, length, take, drop, take-append, drop-append,
}
use evcollect.Util.ReturnCode.{success}
use evcollect.Logfile.{LogfileSource}
use evcollect.Logfile.Checkpoint.{
  le_bytes, Tail, checkpoint_read, read_checkpoint, WriteOutcome, open_failed, write_failed,
  written, checkpoint_data, is_checkpointed, store, write_checkpoint,
}

-- Shifted right by so many bytes, nothing is left.
abbrev Fits : ℕ → ℕ → Type 0
Fits zero n = n ≡ 0
Fits (suc k) n = Fits k (n / 256)

le_value-le_bytes : (k n : ℕ) → Fits k n → le_value (le_bytes k n) ≡ n
unfolding le_value le_bytes
le_value-le_bytes zero n h = sym h
le_value-le_bytes (suc k) n h = omega (arith, le_value-le_bytes k (n / 256) h)

length-le_bytes : (k n : ℕ) → length (le_bytes k n) ≡ k
unfolding le_bytes
length-le_bytes zero n = refl
length-le_bytes (suc k) n = ap suc (length-le_bytes k (n / 256))

word-Fits : (n : ℕ) → n < 2 ^ 64 → Fits 8 n
word-Fits n h = omega arith

-- The two words of a checkpoint.
abbrev words : ℕ → ℕ → Bytes
words a b = le_bytes 8 a ++ le_bytes 8 b

length-words : (a b : ℕ) → length (words a b) ≡ 16
unfolding le_bytes
length-words a b = refl

take-words : (a b : ℕ) → take 8 (words a b) ≡ le_bytes 8 a
take-words a b =
    ap (λ n. take n (words a b)) (sym (length-le_bytes 8 a))
    ∙ take-append (le_bytes 8 a) (le_bytes 8 b)

drop-words : (a b : ℕ) → drop 8 (words a b) ≡ le_bytes 8 b
drop-words a b =
    ap (λ n. drop n (words a b)) (sym (length-le_bytes 8 a))
    ∙ drop-append (le_bytes 8 a) (le_bytes 8 b)

checkpoint_read-words :
    (fd a b : ℕ) → a < 2 ^ 64 → b < 2 ^ 64 → checkpoint_read (some (suc fd, words a b)) ≡ (a, b)
unfolding checkpoint_read
checkpoint_read-words fd a b ha hb =
    rw
      (
        length-words a b,
        take-words a b,
        drop-words a b,
        le_value-le_bytes 8 a (word-Fits a ha),
        le_value-le_bytes 8 b (word-Fits b hb),
      )
      (ground arith)

-- What `readCheckpoint` would find in the checkpoint file is what the source takes for the last checkpoint.
unfoldable pub Saved : Tail → Type 0
Saved t =
    (fd : ℕ)
    → checkpoint_read (some (suc fd, take 16 t.checkpoint))
      ≡ (t.source.checkpoint_inode, t.source.checkpoint_offset)

any_descriptor :
    (a b : ℕ) (cdata : Bytes)
    → checkpoint_read (some (suc a, cdata)) ≡ checkpoint_read (some (suc b, cdata))
unfolding checkpoint_read
any_descriptor a b cdata = ground arith

-- A source that has read its checkpoint is in step with it.
read_checkpoint-Saved :
    (fd : ℕ) (file : Bytes) (src : LogfileSource)
    → Saved
        (record { source = read_checkpoint (some (suc fd, take 16 file)) src; checkpoint = file })
unfolding Saved read_checkpoint
read_checkpoint-Saved fd file src fd' = any_descriptor fd' fd (take 16 file)

abbrev pub marked : Tail → LogfileSource
marked t = record (t.source) {
  checkpoint_inode = t.source.inode;
  checkpoint_offset = t.source.consumed_offset;
}

pub write_checkpoint-store :
    (outcome : WriteOutcome) (t : Tail)
    → is_checkpointed t.source ≡ false
    → write_checkpoint outcome t ≡ store outcome (marked t) t.checkpoint
unfolding write_checkpoint
write_checkpoint-store outcome t e = rw e refl

pub write_checkpoint-skip :
    (outcome : WriteOutcome) (t : Tail)
    → is_checkpointed t.source ≡ true
    → write_checkpoint outcome t ≡ (t, success)
unfolding write_checkpoint
write_checkpoint-skip outcome t e = rw e refl

stored-Saved :
    (n : ℕ) (src : LogfileSource) (file : Bytes)
    → 16 ≤ n
    → src.checkpoint_inode < 2 ^ 64
    → src.checkpoint_offset < 2 ^ 64
    → Saved (store (written n) src file).0
unfolding Saved store checkpoint_data le_bytes
stored-Saved n src file h hi ho fd =
    let data_length : length (checkpoint_data src) ≡ 16 =
      length-words src.checkpoint_inode src.checkpoint_offset in
    rw
      (
        take-all n (checkpoint_data src) (omega (arith, data_length)),
        take-all 16 (checkpoint_data src) (omega (arith, data_length)),
      )
      (checkpoint_read-words fd src.checkpoint_inode src.checkpoint_offset hi ho)

-- Where the source has moved on since the last checkpoint, a write that puts down all 16 bytes leads a new source
-- to the inode and to the end of the last line that was handed out, both below 2^64, as long as the file has not
-- the descriptor 0; and until the source moves on again, a further write does nothing.
pub write_checkpoint-resumes :
    (n fd : ℕ) (t : Tail) (fresh : LogfileSource)
    → is_checkpointed t.source ≡ false
    → 16 ≤ n
    → t.source.inode < 2 ^ 64
    → t.source.consumed_offset < 2 ^ 64
    → let t' = (write_checkpoint (written n) t).0 in
      let resumed = read_checkpoint (some (suc fd, take 16 t'.checkpoint)) fresh in
      (resumed.inode ≡ t.source.inode)
      × (resumed.offset ≡ t.source.consumed_offset)
      × (resumed.consumed_offset ≡ t.source.consumed_offset)
      × ((outcome : WriteOutcome) → write_checkpoint outcome t' ≡ (t', success))
unfolding Saved read_checkpoint store
write_checkpoint-resumes n fd t fresh e h hi ho =
    let new = stored-Saved n (marked t) t.checkpoint h hi ho in
    let done : is_checkpointed (marked t) ≡ true = ground arith in
    rw (write_checkpoint-store (written n) t e) (
      ap (λ w. w.0) (new fd),
      ap (λ w. w.1) (new fd),
      ap (λ w. w.1) (new fd),
      λ outcome. write_checkpoint-skip outcome _ done,
    )

-- A write whose `open` or `write` fails is not tried again: the next one, with no line taken in between,
-- takes the checkpoint for written, succeeds, and leaves the file as the failure left it.
pub write_checkpoint-lost :
    (failure retry : WriteOutcome) (t : Tail)
    → is_checkpointed t.source ≡ false
    → (write_checkpoint retry (write_checkpoint failure t).0
        ≡ ((write_checkpoint failure t).0, success))
unfolding store
write_checkpoint-lost failure retry t e = write_checkpoint-skip retry _ (now failure)
  where
    here : is_checkpointed (marked t) ≡ true
    here = ground arith

    now : (o : WriteOutcome) → is_checkpointed (write_checkpoint o t).0.source ≡ true
    now open_failed = rw (write_checkpoint-store open_failed t e) here
    now write_failed = rw (write_checkpoint-store write_failed t e) here
    now (written n) = rw (write_checkpoint-store (written n) t e) here
