-- ===== src/Logfile/Event.antt =====
-- `setRegex`, `getNextEvent` and `LogfileSourcePlugin` of src/evcollect/logfile.cc. The PCRE library and
-- the hash of the file's name are arguments.
pub mod Json
mod Tests
use evcollect.Prelude.{
  ℕ, zero, suc, ◌+◌, ◌-◌, ◌*◌, Bool, true, false, Option, none, some, List, [], ◌∷◌, ◌++◌, Bytes,
  codes, length, take, drop, get_or, set_elem, replicate, ltb, if◌then◌else◌,
}
use evcollect.Util.ReturnCode.{ReturnCode, success, error, error_fmt, is_success}
use evcollect.Util.StringUtil.{format}
use evcollect.Util.Json.{json_escape}
use evcollect.Config.PropertyList.{get}
use evcollect.Logfile.{LogfileSource, Pcre, LogFile, new_logfile, has_next_line, is_empty}
use evcollect.Logfile.Checkpoint.{
  Tail, Moment, WriteOutcome, get_next_line, read_checkpoint, write_checkpoint,
}

-- What `pcre_compile` and `pcre_fullinfo` tell of an expression.
pub record PcreInfo : Type 0 where
  pub exec : Pcre
  pub namecount : ℕ
  pub capture_count : ℕ
  pub name_table : Bytes
  pub name_entry_size : ℕ

pub data Compiled : Type 0 where
  invalid : Bytes → Compiled
  compiled : PcreInfo → Compiled

-- The loop over the name table. An entry is the number of the group, in two bytes, and a name that is filled
-- up with NULs to the length of the longest one and one NUL more.
pub name_fields : ℕ → ℕ → Bytes → List Bytes → List Bytes
name_fields zero entry_size table fields = fields
name_fields (suc n) entry_size table fields =
    let idx = get_or table 0 0 * 256 + get_or table 1 0 in
    name_fields n entry_size (drop entry_size table)
      (set_elem idx (take (entry_size - 3) (drop 2 table)) fields)

set_regex : Compiled → LogfileSource → LogfileSource × ReturnCode
unfolding name_fields
set_regex (invalid error_msg) src = (
  record src { pcre_handle = none },
  error_fmt (codes "REGEX_ERROR") (codes "invalid regex: " ++ error_msg),
)
set_regex (compiled re) src =
    if ltb re.namecount 1
    then (
      record src { pcre_handle = none },
      error (codes "REGEX_ERROR") (codes "regex has no named capture groups"),
    )
    else (
      record src {
        pcre_handle = some re.exec;
        pcre_fields =
            name_fields re.namecount re.name_entry_size re.name_table
              (replicate (re.capture_count + 1) []);
      },
      success,
    )

-- The text of a group.
pub evdata : Bytes → Option (ℕ × ℕ) → Bytes
evdata line none = []
evdata line (some (start, stop)) = take (stop - start) (drop start line)

abbrev pub quoted : Bytes → Bytes
quoted text = codes "\"" ++ (json_escape text ++ codes "\"")

abbrev pub field : Bytes → Bytes → Bytes
field name text = quoted name ++ (codes ":" ++ quoted text)

-- The loop over the groups from 1 on; `n` fields have been written.
pub capture_json : ℕ → Bytes → List (Option (ℕ × ℕ)) → List Bytes → Bytes
unfolding evdata
capture_json n line [] names = []
capture_json n line (g ∷ gs) [] = []
capture_json n line (g ∷ gs) ([] ∷ names) = capture_json n line gs names
capture_json n line (g ∷ gs) ((c ∷ cs) ∷ names) =
    (if ltb 1 (suc n) then codes "," else [])
    ++ (field (c ∷ cs) (evdata line g) ++ capture_json (suc n) line gs names)

-- The event of a line, behind what is in `*event_json`.
unfoldable pub make_event : Option Pcre → List Bytes → Bytes → Bytes → Bytes
unfolding capture_json
make_event none fields line event_json =
    format (codes "{ \"data\": \"$0\" }") (json_escape line ∷ [])
make_event (some exec) fields line event_json = elim (exec line) [
  | none ↦ event_json
  | some groups ↦
      event_json
      ++ (codes "{" ++ (capture_json 0 line (drop 1 groups) (drop 1 fields) ++ codes "}"))
]

unfoldable pub get_next_event : Moment → Bytes → Tail → Tail × (ReturnCode × Bytes)
unfolding make_event
get_next_event m event_json t0 =
    let (t, (rc, raw_line)) = get_next_line m [] t0 in
    if is_success rc
    then (
      t,
      (
        success,
        if is_empty raw_line
            then event_json
            else make_event t.source.pcre_handle t.source.pcre_fields raw_line event_json,
      ),
    )
    else (t, (rc, event_json))

-- `LogfileSourcePlugin::pluginAttach`: `none` in place of a source where it fails.
abbrev attached :
    (Bytes → Compiled) → Option Bytes → LogfileSource → Option LogfileSource × ReturnCode
attached compile regex src = elim regex [
  | none ↦ (some src, success)
  | some re ↦
      let (src', rc) = set_regex (compile re) src in
      if is_success rc then (some src', success) else (none, rc)
]

unfoldable pub plugin_attach :
    (Bytes → Bytes)
    → (Bytes → Compiled)
    → (Bytes → Option (ℕ × Bytes))
    → Bytes
    → List (Bytes × List Bytes)
    → Option LogfileSource × ReturnCode
unfolding set_regex
plugin_attach sha1_compute compile open_checkpoint spool_dir config =
    elim (get (codes "logfile") config) [
      | none ↦ (none, error (codes "EINVAL") (codes "logfile needs a filename"))
      | some filename ↦
          let src = new_logfile sha1_compute filename spool_dir in
          attached compile (get (codes "regex") config)
            (read_checkpoint (open_checkpoint src.checkpoint_filename) src)
    ]

-- `pluginDetach` writes the checkpoint, whatever comes of it.
plugin_detach : WriteOutcome → Tail → Tail
plugin_detach outcome t = (write_checkpoint outcome t).0
