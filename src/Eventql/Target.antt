-- ===== src/Eventql/Target.antt =====
-- `EventQLTarget` of plugins/eventql/eventql_plugin.cc by one thread: the routes of an event, the request, and
-- `pluginAttach`.
mod Tests
pub mod Routes
pub mod Request
pub mod Attach
use evcollect.Prelude.{
  ℕ, zero, suc, ◌+◌, ◌-◌, ◌*◌, ◌/◌, ◌%◌, ◌^◌, wrap64, Bool, true, false, not, ◌&&◌, ◌||◌, Option,
  none, some, List, [], ◌∷◌, ◌++◌, Bytes, codes, c_str, str_eq, ltb, ◌==◌, if◌then◌else◌, length,
}
use evcollect.Util.ReturnCode.{ReturnCode, success, error, error_fmt, is_success}
use evcollect.Util.StringUtil.{split, format, to_string}
use evcollect.Util.Json.{json_escape}
use evcollect.Util.Base64.{encode}
use evcollect.Config.PropertyList.{get, getv, missing, found, out_of_bounds}

pub record EnqueuedEvent : Type 0 where
  pub database : Bytes
  pub table : Bytes
  pub payload : Bytes

pub record EventRouting : Type 0 where
  pub event_name_match : Bytes
  pub target : Bytes

-- What a target is set up with.
pub record EventQlTarget : Type 0 where
  pub hostname : Bytes
  pub port : ℕ
  pub username : Bytes
  pub password : Bytes
  pub auth_token : Bytes
  pub queue_max_length : ℕ
  pub routes : List EventRouting
  pub http_timeout : ℕ

pub new_target : Bytes → ℕ → EventQlTarget
new_target hostname port = record {
  hostname = hostname;
  port = port;
  username = [];
  password = [];
  auth_token = [];
  queue_max_length = 8192;
  routes = [];
  http_timeout = 30 * 1000000;
}

pub add_route : Bytes → Bytes → EventQlTarget → EventQlTarget
add_route event_name_match target t = record t {
  routes = t.routes ++ record { event_name_match = event_name_match; target = target } ∷ [];
}

abbrev pub invalid_target : ReturnCode
invalid_target =
    error (codes "EINVAL") (codes "invalid target specification. format is: database/table")

-- The parts of `target.size() == 2`.
abbrev pub two_parts : Option (List Bytes) → Option (Bytes × Bytes)
two_parts (some (d ∷ t ∷ [])) = some (d, t)
two_parts _ = none

-- `emitEvent`: the events that it enqueues, in order, and its status. `enqueueEvent` always succeeds, once the
-- queue has room.
unfoldable pub emit_event : List EventRouting → Bytes → Bytes → List EnqueuedEvent × ReturnCode
emit_event [] event_name event_data = ([], success)
emit_event (route ∷ routes) event_name event_data =
    let rest = emit_event routes event_name event_data in
    if not (str_eq route.event_name_match event_name)
    then rest
    else (elim (two_parts (split route.target (codes "/"))) [
      | none ↦ ([], invalid_target)
      | some dt ↦ (record { database = dt.0; table = dt.1; payload = event_data } ∷ rest.0, rest.1)
    ])

-- `uploadEvent`: the address, the body and the headers of the request.
upload_url : EventQlTarget → Bytes
upload_url t =
    format (codes "http://$0:$1/api/v1/tables/insert") (t.hostname ∷ to_string t.port ∷ [])

unfoldable pub upload_body : EnqueuedEvent → Bytes
upload_body ev =
    codes "[{ "
    ++ (format (codes "\"database\": \"$0\",") (json_escape ev.database ∷ [])
        ++ (format (codes "\"table\": \"$0\"") (json_escape ev.table ∷ [])
            ++ (codes "\"data\":" ++ (ev.payload ++ codes "}]"))))

abbrev is_empty : Bytes → Bool
is_empty [] = true
is_empty (c ∷ cs) = false

-- `none` where the encoding of the credentials reads past its end.
unfoldable upload_headers : EventQlTarget → Option (List Bytes)
unfolding encode
upload_headers t =
    let content = codes "Content-Type: application/json; charset=utf-8" in
    let token =
      if not (is_empty t.auth_token)
      then c_str (codes "Authorization: Token " ++ t.auth_token) ∷ []
      else [] in
    if not (is_empty t.username) || not (is_empty t.password)
    then (elim (encode (t.username ++ (codes ":" ++ t.password))) [
      | none ↦ none
      | some basic ↦ some (content ∷ (token ++ (codes "Authorization: Basic " ++ basic) ∷ []))
    ])
    else some (content ∷ token)

-- How the request went: the text of the error of `curl_easy_perform`, or the code and body of the response.
pub data Response : Type 0 where
  transfer_failed : Bytes → Response
  response : ℕ → Bytes → Response

abbrev http_error : Bytes → Bytes → ℕ → Bytes → ReturnCode
http_error code kind http_res_code res_body =
    error_fmt code
      (kind ++ (codes " error: " ++ (to_string http_res_code ++ (codes " -- " ++ c_str res_body))))

upload_status : Response → ReturnCode
upload_status (transfer_failed message) =
    error_fmt (codes "EIO") (codes "http request failed: " ++ message)
upload_status (response code body) =
    if code == 201
    then success
    else if code == 400
    then http_error (codes "EINVAL") (codes "http") code body
    else if code == 403 || code == 401
    then http_error (codes "EACCESS") (codes "auth") code body
    else http_error (codes "EIO") (codes "http") code body

-- `uploadEvent`: with no handle of the curl library it fails; else the request is performed, by `perform`.
upload_event :
    Bool
    → (Bytes → List Bytes → Bytes → ℕ → Response)
    → EventQlTarget
    → EnqueuedEvent
    → Option ReturnCode
unfolding upload_headers upload_body upload_url upload_status
upload_event has_curl perform t ev =
    if not has_curl
    then some (error (codes "EIO") (codes "curl_init() failed"))
    else (elim (upload_headers t) [
      | none ↦ none
      | some headers ↦ some (
          upload_status
            (perform (upload_url t) headers (c_str (upload_body ev)) (t.http_timeout / 1000)))
    ])

-- `++i` of an `int`, as a parameter of type `size_t` takes it. Past 2^31 - 1 the overflow is undefined; here it
-- wraps around.
unfoldable int_suc : ℕ → ℕ
int_suc i = if i == 2 ^ 31 - 1 then 2 ^ 64 - 2 ^ 31 else wrap64 (suc i)

-- A value of a route, as the C interface hands it out.
pub route_args : ℕ → ℕ → ℕ → List (Bytes × List Bytes) → List Bytes
unfolding int_suc
route_args zero i j config = []
route_args (suc fuel) i j config =
    let rest = route_args fuel i (int_suc j) config in
    elim (getv (codes "route") i j config) [
      | found arg ↦ c_str arg ∷ rest
      | missing ↦ []
      | out_of_bounds ↦ []
    ]

-- An error is the text for `evcollect_seterror`.
pub data Attached : Type 0 where
  attach_error : Bytes → Attached
  attached : EventQlTarget → Attached

-- The loop over the routes: the fuel counts the routes, and `width` the values of one of them.
pub attach_routes : ℕ → ℕ → ℕ → List (Bytes × List Bytes) → EventQlTarget → Attached
unfolding route_args
attach_routes zero width i config t = attached t
attach_routes (suc fuel) width i config t = elim (route_args width i 0 config) [
  | [] ↦ attached t
  | name ∷ others ↦ elim others [
    | [] ↦
        attach_error
          (codes "invalid number of arguments to route. format is: route <event> <target>")
    | target ∷ more ↦ elim more [
      | [] ↦ attach_routes fuel width (int_suc i) config (add_route name target t)
      | _ ∷ _ ↦
          attach_error
            (codes "invalid number of arguments to route. format is: route <event> <target>")
    ]
  ]
]

-- As many rounds as there are entries, and as many values as there are in all, are enough.
abbrev pub value_count : List (Bytes × List Bytes) → ℕ
value_count [] = 0
value_count ((k, vs) ∷ config) = length vs + value_count config

unfoldable pub attach_all_routes : List (Bytes × List Bytes) → EventQlTarget → Attached
unfolding attach_routes
attach_all_routes config t =
    attach_routes (suc (length config)) (suc (value_count config)) 0 config t

-- An option that is a number, by `std::stoull` (`none` where it throws).
abbrev number_option :
    (Bytes → Option ℕ)
    → Bytes
    → Bytes
    → List (Bytes × List Bytes)
    → (ℕ → EventQlTarget)
    → EventQlTarget
    → (EventQlTarget → Attached)
    → Attached
number_option stoull key message config set t next = elim (get key config) [
  | none ↦ next t
  | some text ↦ elim (stoull (c_str text)) [ none ↦ attach_error message | some n ↦ next (set n) ]
]

abbrev text_option : Bytes → Bytes → List (Bytes × List Bytes) → Bytes
text_option key default config = elim (get key config) [ none ↦ default | some text ↦ c_str text ]

abbrev with_credentials : Bytes → Bytes → EventQlTarget → EventQlTarget
with_credentials username password t =
    if not (is_empty username) || not (is_empty password)
    then record t { username = username; password = password }
    else t

attach_target : (Bytes → Option ℕ) → List (Bytes × List Bytes) → EventQlTarget → Attached
unfolding attach_all_routes
attach_target stoull config t0 =
    let t1 =
      with_credentials (text_option (codes "username") [] config)
        (text_option (codes "password") [] config) t0 in
    let t2 = record t1 { auth_token = text_option (codes "auth_token") t1.auth_token config } in
    number_option stoull (codes "http_timeout") (codes "invalid value for http_timeout") config
      (λ n. record t2 { http_timeout = n }) t2
      λ t3.
        number_option stoull (codes "queue_maxlen") (codes "invalid value for queue_maxlen") config
          (λ n. record t3 { queue_max_length = n }) t3 λ t4. attach_all_routes config t4

-- `pluginAttach`; the port is cut to 16 bits.
unfoldable pub plugin_attach : (Bytes → Option ℕ) → List (Bytes × List Bytes) → Attached
unfolding attach_target
plugin_attach stoull config =
    let hostname = text_option (codes "hostname") (codes "localhost") config in
    elim (get (codes "port") config) [
      | none ↦ attach_target stoull config (new_target hostname 9175)
      | some text ↦ elim (stoull (c_str text)) [
        | none ↦ attach_error (codes "invalid port")
        | some n ↦ attach_target stoull config (new_target hostname (n % 2 ^ 16))
      ]
    ]
