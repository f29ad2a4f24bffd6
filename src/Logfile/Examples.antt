-- ===== src/Logfile/Examples.antt =====
-- A log file and a source that has handed out its first line.
use mathlib.Core.List.{flatten}
use evcollect.Prelude.{
  ◌≡◌, refl, true, none, some, List, [], ◌∷◌, Bytes, codes, length, drop, All, arith, ◌<◌,
}
use evcollect.Logfile.{LogfileSource, LogFile}
use evcollect.Logfile.Reading.{Serves, StandsIn}
use evcollect.Logfile.Checkpoint.{Moment, written}

abbrev pub text : Bytes
text = codes "one\ntwo\nth"

-- A system that gives one byte at a time.
abbrev bytewise : Bytes → List Bytes
bytewise [] = []
bytewise (c ∷ cs) = (c ∷ []) ∷ bytewise cs

flatten-bytewise : (s : Bytes) → flatten (bytewise s) ≡ s
unfolding flatten
flatten-bytewise [] = refl
flatten-bytewise (c ∷ cs) = rw (flatten-bytewise cs) refl

bytewise-filled : (s : Bytes) → All (λ block. 0 < length block) (bytewise s)
bytewise-filled [] = tt
bytewise-filled (c ∷ cs) = (omega arith, bytewise-filled cs)

abbrev pub log_file : LogFile
log_file = record {
  stat = some (7, length text);
  opened = some 3;
  seeks = true;
  blocks = λ offset. bytewise (drop offset text);
}

pub log_file-Serves : Serves log_file 7 text
log_file-Serves = record {
  fd = 3;
  stat = refl;
  opened = refl;
  seeks = refl;
  reads = λ offset. flatten-bytewise (drop offset text);
  filled = λ offset. bytewise-filled (drop offset text);
  bounded = omega arith;
}

-- A source that has handed out the first line.
abbrev pub tailing : LogfileSource
tailing = record {
  filename = codes "/tmp/log";
  checkpoint_filename = codes "/spool/log_0";
  pcre_handle = none;
  pcre_fields = [];
  inode = 7;
  offset = 4;
  consumed_offset = 4;
  checkpoint_inode = 7;
  checkpoint_offset = 0;
  checkpoint_interval_micros = 10000000;
  last_checkpoint = 0;
  line_buf = [];
  line_buf_maxsize = 8192;
}

pub tailing-StandsIn : StandsIn text tailing
unfolding flatten
tailing-StandsIn = record { buffered = refl; offsets = refl; inside = omega arith; lines = tt }

abbrev pub moment : Moment
moment = record { file = log_file; now = 20000000; later = 20000001; outcome = written 16 }
