-- ===== src/Eventql/Interface.antt =====
-- The functions that plugins/eventql/eventql_plugin.cc registers: a target for each `userdata` pointer, from
-- `pluginAttach` to `pluginDetach`. A pointer is the place of its target among all that were ever attached.
pub mod Lifetime
mod Tests
use evcollect.Prelude.{
  ℕ, Bool, true, false, Option, none, some, List, [], ◌∷◌, ◌++◌, Bytes, codes, c_str, length,
  get_elem?, set_elem, if◌then◌else◌,
}
use evcollect.Events.{PropertyList, EventData}
use evcollect.Util.ReturnCode.{is_success}
use evcollect.Plugin.Map.{PluginMap}
use evcollect.Plugin.Dynamic.{output_plugin_register}
use evcollect.Eventql.Target.{
  EnqueuedEvent, EventQlTarget, Attached, attach_error, attached, plugin_attach, emit_event,
}

-- What the threads of the targets do, whose steps are in Threads: `enqueue` is a call of `enqueueEvent`, which comes
-- back when the queue has room; `start` and `stop` are `startUploadThread` and `stopUploadThread`.
pub record UploadThreads (T : Type 0) : Type 0 where
  pub enqueue : ℕ → EnqueuedEvent → T → T
  pub start : ℕ → EventQlTarget → T → T
  pub stop : ℕ → T → T

-- The targets, `none` after `delete`, and the error of the context.
pub record Targets (T : Type 0) : Type 0 where
  pub targets : List (Option EventQlTarget)
  pub error : Bytes
  pub threads : T

module _ {T : Type 0} (ops : UploadThreads T) where
  unfoldable pub enqueue_all : ℕ → List EnqueuedEvent → T → T
  enqueue_all userdata [] t = t
  enqueue_all userdata (ev ∷ evs) t = enqueue_all userdata evs (ops.enqueue userdata ev t)

  -- `pluginAttach` with its `startUploadThread`. `indeterminate` is in the user data where it fails.
  unfoldable pub eventql_attach :
      (Bytes → Option ℕ) → ℕ → PropertyList → Targets T → Targets T × (Bool × ℕ)
  eventql_attach stoull indeterminate config p = elim (plugin_attach stoull config.properties) [
    | attach_error message ↦ (record p { error = c_str message }, (false, indeterminate))
    | attached target ↦
        let userdata = length p.targets in
        (
          record p {
            targets = p.targets ++ some target ∷ [];
            threads = ops.start userdata target p.threads;
          },
          (true, userdata),
        )
  ]

  -- `pluginDetach`.
  unfoldable pub eventql_detach : ℕ → Targets T → Targets T
  eventql_detach userdata p = record p {
    targets = set_elem userdata none p.targets;
    threads = ops.stop userdata p.threads;
  }

  abbrev pub emitted : ℕ → EventQlTarget → EventData → Targets T → Targets T × Bool
  emitted userdata target event p =
      let (evs, rc) = emit_event target.routes event.event_name event.event_data in
      let p' = record p { threads = enqueue_all userdata evs p.threads } in
      if is_success rc then (p', true) else (record p' { error = c_str rc.message }, false)

  -- `pluginEmitEvent`. Of a pointer that is none of a target the source says nothing; here it fails.
  unfoldable pub eventql_emit_event : ℕ → EventData → Targets T → Targets T × Bool
  eventql_emit_event userdata event p = elim (get_elem? p.targets userdata) [
    | none ↦ (p, false)
    | some o ↦ elim o [ none ↦ (p, false) | some target ↦ emitted userdata target event p ]
  ]

  -- `plugin_eventql_init`.
  eventql_init :
      (Bytes → Option ℕ)
      → ℕ
      → PluginMap (Targets T)
      → Targets T
      → (PluginMap (Targets T) × Targets T) × Bool
  unfolding eventql_attach eventql_detach eventql_emit_event
  eventql_init stoull indeterminate pm p = (
    (
      output_plugin_register (λ (p : Targets T). p.error) indeterminate (codes "eventql")
          eventql_emit_event (some (eventql_attach stoull indeterminate)) (some eventql_detach) none
          none pm,
      p,
    ),
    true,
  )
