-- ===== src/Hostname/Escaped.antt =====
-- The event of the hostname plugin is JSON.
use evcollect.Prelude.{
  ℕ, ◌≡◌, ◌≢◌, refl, ap, ◌∙◌, sym, true, Option, none, some, [], ◌∷◌, ◌++◌, append_assoc, arith,
  Bytes, codes, c_str, take-whole, drop,
}
use evcollect.Util.StringUtil.{
  starts_with, find, find_from, includes, split, split_loop, join, join_more, replace_all, format,
}
use evcollect.Util.StringUtil.Split.{replace_all-split, format-twice}
use evcollect.Util.StringUtil.Join.{Lacks, Lacks-cons, Lacks-append, replace_all-once}
use evcollect.Util.Json.{json_escape, escape_byte, hex_digit}
use evcollect.Util.Json.Decode.{plain, decode, decode-json_escape}
use evcollect.Events.{EventData}
use evcollect.Plugin.Dynamic.{event_setdata}
use evcollect.Hostname.{HostSystem, template, host_data, get_event}

Lacks-escape_byte : (c : ℕ) → c ≢ b'$' → Lacks b'$' (escape_byte c)
unfolding escape_byte hex_digit includes find starts_with
Lacks-escape_byte c n = ground arith

Lacks-json_escape : (s : Bytes) → Lacks b'$' s → Lacks b'$' (json_escape s)
unfolding json_escape
Lacks-json_escape [] h = h
Lacks-json_escape (c ∷ s) h =
    let (n, h') = Lacks-cons b'$' c s h in
    Lacks-append b'$' (escape_byte c) (json_escape s) (Lacks-escape_byte c n)
      (Lacks-json_escape s h')

-- What the event holds before, between and behind the two names.
abbrev before : Bytes
before = codes "{ \"hostname\": \""

abbrev between : Bytes
between = codes "\", \"hostname_fqdn\": \""

abbrev behind : Bytes
behind = codes "\" }"

-- The first argument takes the place of `$0`.
first_argument :
    (x : Bytes)
    → replace_all template (codes "$0") x
      ≡ some (before ++ (x ++ (between ++ (codes "$1" ++ behind))))
unfolding template split split_loop find_from find starts_with join join_more
first_argument x = replace_all-split template (codes "$0") x (ground arith)

-- The second one takes that of the `$1` of the template, where there is none before it.
second_argument :
    (x y : Bytes)
    → Lacks b'$' x
    → replace_all (before ++ (x ++ (between ++ (codes "$1" ++ behind)))) (codes "$1") y
      ≡ some (before ++ (x ++ (between ++ (y ++ behind))))
unfolding includes find starts_with
second_argument x y h =
    ap (λ t. replace_all (before ++ t) (codes "$1") y)
      (sym (append_assoc x between (codes "$1" ++ behind)))
    ∙ replace_all-once b'$' (codes "1") (before ++ (x ++ between)) behind y
        (Lacks-append b'$' before (x ++ between) refl (Lacks-append b'$' x between h refl)) refl
    ∙ ap (λ t. some (before ++ t)) (append_assoc x between (y ++ behind))

format-template :
    (x y : Bytes)
    → Lacks b'$' x
    → format template (x ∷ y ∷ []) ≡ before ++ (x ++ (between ++ (y ++ behind)))
format-template x y h =
    format-twice template x y (before ++ (x ++ (between ++ (codes "$1" ++ behind))))
      (before ++ (x ++ (between ++ (y ++ behind)))) (first_argument x) (second_argument x y h)

host_data-parts :
    (hostname : Bytes) (found : Option Bytes)
    → Lacks b'$' hostname
    → host_data hostname found
      ≡ before
        ++ (json_escape hostname
            ++ (between
                ++ (json_escape (elim found [ none ↦ [] | some h_name ↦ c_str h_name ]) ++ behind)))
unfolding host_data
host_data-parts hostname found h =
    format-template (json_escape hostname)
      (json_escape (elim found [ none ↦ [] | some h_name ↦ c_str h_name ]))
      (Lacks-json_escape hostname h)

module _ {W : Type 0} (sys : HostSystem W) where
  -- When `gethostname` answers with a name that holds no dollar sign, the event keeps its own name, and its data is
  -- `{ "hostname": "`, a text that reads back as the host name up to its closing quote, `, "hostname_fqdn": "`, a
  -- text that reads back as the name that `gethostbyname` finds, or as nothing where it finds none, and ` }`.
  pub get_event-decode :
      (userdata : ℕ) (ev : EventData) (w w1 w2 : W) (buffer : Bytes) (found : Option Bytes)
      → sys.gethostname 1024 w ≡ (w1, some buffer)
      → sys.gethostbyname (c_str buffer) w1 ≡ (w2, found)
      → Lacks b'$' (c_str buffer)
      → let (w', (ok, ev')) = get_event sys userdata ev w in
        (w' ≡ w2)
        × (ok ≡ true)
        × (ev'.event_name ≡ ev.event_name)
        × (value : Bytes) × (rest : Bytes) × (ev'.event_data ≡ codes "{ \"hostname\": \"" ++ value)
        × (decode plain value ≡ some (c_str buffer, codes ", \"hostname_fqdn\": \"" ++ rest))
        × (decode plain rest
            ≡ some (elim found [ none ↦ [] | some h_name ↦ c_str h_name ], codes " }"))
  unfolding get_event event_setdata
  get_event-decode userdata ev w w1 w2 buffer found e e' h =
      let fqdn : Bytes = elim found [ none ↦ [] | some h_name ↦ c_str h_name ] in
      let text = host_data (c_str buffer) found in
      let parts = take-whole text ∙ host_data-parts (c_str buffer) found h in
      rw (e, e')
        (
          refl,
          refl,
          refl,
          json_escape (c_str buffer) ++ (between ++ (json_escape fqdn ++ behind)),
          json_escape fqdn ++ behind,
          parts,
          decode-json_escape (c_str buffer) (drop 1 between ++ (json_escape fqdn ++ behind)),
          decode-json_escape fqdn (drop 1 behind),
        )
