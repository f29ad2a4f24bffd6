-- ===== src/Eventql/Target/Request.antt =====
-- What the upload sends.
use evcollect.Prelude.{◌≡◌, refl, ap, ◌∙◌, [], ◌∷◌, ◌++◌, append_assoc, Bytes, codes, drop, some}
use evcollect.Util.StringUtil.{
  format, split, split_loop, find_from, find, starts_with, join, join_more,
}
use evcollect.Util.StringUtil.Split.{format-join}
use evcollect.Util.Json.{json_escape}
use evcollect.Util.Json.Decode.{plain, decode, decode-json_escape}
use evcollect.Eventql.Target.{EnqueuedEvent, upload_body}

database-join :
    (text : Bytes)
    → format (codes "\"database\": \"$0\",") (text ∷ [])
      ≡ codes "\"database\": \"" ++ (text ++ codes "\",")
unfolding split split_loop find_from find starts_with join join_more
database-join text =
    format-join (codes "\"database\": \"$0\",") text (codes "\"database\": \"" ∷ codes "\"," ∷ [])
      refl

table-join :
    (text : Bytes)
    → format (codes "\"table\": \"$0\"") (text ∷ []) ≡ codes "\"table\": \"" ++ (text ++ codes "\"")
unfolding split split_loop find_from find starts_with join join_more
table-join text =
    format-join (codes "\"table\": \"$0\"") text (codes "\"table\": \"" ∷ codes "\"" ∷ []) refl

-- What follows the string of the table.
abbrev pub after_table : EnqueuedEvent → Bytes
after_table ev = codes "\"data\":" ++ (ev.payload ++ codes "}]")

abbrev table_text : EnqueuedEvent → Bytes
table_text ev = codes "\"table\": \"" ++ (json_escape ev.table ++ (b'"' ∷ after_table ev))

body-text :
    (ev : EnqueuedEvent)
    → format (codes "\"database\": \"$0\",") (json_escape ev.database ∷ [])
        ++ (format (codes "\"table\": \"$0\"") (json_escape ev.table ∷ []) ++ after_table ev)
      ≡ codes "\"database\": \"" ++ (json_escape ev.database ++ (b'"' ∷ b',' ∷ table_text ev))
body-text ev =
    rw (database-join (json_escape ev.database), table-join (json_escape ev.table))
      (simp append_assoc)

-- The body of a request, read as JSON strings: from its quote on, the string of the database is the database, and
-- what follows it begins with a comma; the string of the table is the table, but the key `data` follows it with
-- no comma in between, so that the body is not JSON.
pub upload_body-decode :
    (ev : EnqueuedEvent)
    → let tail = codes "\"table\": \"" ++ (json_escape ev.table ++ (b'"' ∷ after_table ev)) in
      (decode plain (drop 16 (upload_body ev)) ≡ some (ev.database, b',' ∷ tail))
      × (decode plain (drop 10 tail) ≡ some (ev.table, after_table ev))
unfolding upload_body
upload_body-decode ev = (
  ap (λ t. decode plain (drop 13 t)) (body-text ev)
      ∙ decode-json_escape ev.database (b',' ∷ table_text ev),
  decode-json_escape ev.table (after_table ev),
)
