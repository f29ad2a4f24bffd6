-- ===== src/Hostname.antt =====
-- The plugin of src/plugins/hostname/hostname_plugin.cc: an event that names the host.
pub mod Escaped
mod Tests
use evcollect.Prelude.{
  ℕ, Bool, true, false, Option, none, some, [], ◌∷◌, Bytes, codes, c_str, length,
}
use evcollect.Events.{EventData}
use evcollect.Util.StringUtil.{format}
use evcollect.Util.Json.{json_escape}
use evcollect.Plugin.Map.{PluginMap}
use evcollect.Plugin.Dynamic.{event_setdata, source_plugin_register}

-- `gethostname` fills so many bytes, or fails; `gethostbyname` gives the official name of a host that it knows.
-- `seterror` keeps the error in the context of the plugin.
pub record HostSystem (W : Type 0) : Type 0 where
  pub gethostname : ℕ → W → W × Option Bytes
  pub gethostbyname : Bytes → W → W × Option Bytes
  pub seterror : Bytes → W → W

unfoldable pub template : Bytes
template = codes "{ \"hostname\": \"$0\", \"hostname_fqdn\": \"$1\" }"

-- The data of the event. A host that is not known has no full name.
unfoldable pub host_data : Bytes → Option Bytes → Bytes
unfolding template format json_escape
host_data hostname found =
    let hostname_fqdn : Bytes = elim found [ none ↦ [] | some h_name ↦ c_str h_name ] in
    format template (json_escape hostname ∷ json_escape hostname_fqdn ∷ [])

module _ {W : Type 0} (sys : HostSystem W) where
  abbrev named_event : Bytes → EventData → W × Option Bytes → W × (Bool × EventData)
  named_event hostname ev (w, found) =
      let evdata = host_data hostname found in (w, (true, event_setdata ev evdata (length evdata)))

  abbrev with_hostname : EventData → W × Option Bytes → W × (Bool × EventData)
  with_hostname ev (w, none) = (sys.seterror (codes "gethostname() failed") w, (false, ev))
  with_hostname ev (w, some buffer) =
      named_event (c_str buffer) ev (sys.gethostbyname (c_str buffer) w)

  -- `getEvent`.
  unfoldable pub get_event : ℕ → EventData → W → W × (Bool × EventData)
  unfolding host_data event_setdata
  get_event userdata ev w = with_hostname ev (sys.gethostname 1024 w)

  -- `plugin_hostname_init`.
  hostname_init : (W → Bytes) → ℕ → PluginMap W → W → (PluginMap W × W) × Bool
  unfolding get_event
  hostname_init plugin_error indeterminate pm w = (
    (
      source_plugin_register plugin_error indeterminate (codes "hostname") get_event none none none
          none none pm,
      w,
    ),
    true,
  )
