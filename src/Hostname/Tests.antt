-- ===== src/Hostname/Tests.antt =====
-- The hostname plugin on a host.
use evcollect.Prelude.{◌≡◌, refl, true, false, none, some, List, [], ◌∷◌, ◌++◌, Bytes, codes, c_str}
use evcollect.Events.{EventData}
use evcollect.Util.StringUtil.{includes, find, starts_with}
use evcollect.Util.Json.Decode.{plain, decode}
use evcollect.Hostname.{HostSystem, get_event, host_data}
use evcollect.Hostname.Escaped.{get_event-decode}

-- The world is what has been reported as an error.
abbrev system : HostSystem (List Bytes)
system = record {
  gethostname = λ size w. (w, some (codes "ev\"1" ++ (0 ∷ 0 ∷ [])));
  gethostbyname = λ name w. (w, some (name ++ codes ".local"));
  seterror = λ error w. error ∷ w;
}

abbrev empty_event : EventData
empty_event = record { time = 0; event_name = codes "h"; event_data = [] }

nameless :
    get_event (record system { gethostname = λ size w. (w, none) }) 0 empty_event []
    ≡ (codes "gethostname() failed" ∷ [], (false, empty_event))
unfolding get_event
nameless = refl

-- A name with `$1` in it takes the full name in.
dollar :
    host_data (codes "a$1") (some (codes "b"))
    ≡ codes "{ \"hostname\": \"ab\", \"hostname_fqdn\": \"b\" }"
unfolding host_data c_str
dollar = refl

get_event-decode_example :
    let (w', (ok, ev')) = get_event system 0 empty_event [] in
    (w' ≡ [])
    × (ok ≡ true)
    × (ev'.event_name ≡ codes "h")
    × (value : Bytes) × (rest : Bytes) × (ev'.event_data ≡ codes "{ \"hostname\": \"" ++ value)
    × (decode plain value ≡ some (codes "ev\"1", codes ", \"hostname_fqdn\": \"" ++ rest))
    × (decode plain rest ≡ some (codes "ev\"1.local", codes " }"))
unfolding includes find starts_with c_str
get_event-decode_example =
    get_event-decode system 0 empty_event [] [] [] (codes "ev\"1" ++ (0 ∷ 0 ∷ []))
      (some (codes "ev\"1.local")) refl refl refl
