-- ===== src/Plugin/Map/Once.antt =====
-- The table of the plugins: a plugin that was found is ready from then on.
use mathlib.Core.Path.{subst}
use evcollect.Prelude.{
  Option-cases, Bool, not, ◌++◌, codes, c_str, ◌≡◌, refl, ap, ◌∙◌, inl, inr, true, false,
  Bool-cases, Option, none, some, [], ◌∷◌, Bytes, arith, if◌then◌else◌,
}
use evcollect.Util.ReturnCode.{ReturnCode, success, error_fmt, is_success}
use evcollect.Plugin.Map.{
  Binding, Bindings, find_plugin, set_initialized, Found, initialized, get_plugin, PluginMap,
  get_source_plugin, get_output_plugin,
}

abbrev pub is_some : {A : Type 0} → Option A → Bool
is_some none = false
is_some (some _) = true

module _ {P : Type 0} where
  find_plugin-set_initialized :
      (name : Bytes) (bs : Bindings P) (b : Binding P)
      → find_plugin name bs ≡ some b
      → find_plugin name (set_initialized name bs) ≡ some (record b { plugin_initialized = true })
  unfolding find_plugin set_initialized
  find_plugin-set_initialized name [] b e = absurd (ground arith)
  find_plugin-set_initialized name ((k, c) ∷ bs) b e =
      ground (arith, find_plugin-set_initialized name bs b)

  module _ {W : Type 0} (init : P → W → W × ReturnCode) (message name : Bytes) where
    abbrev pub picked : Bindings P → W → Option (Binding P) → Found P W
    picked bs w o = elim o [
      | none ↦ (bs, (w, (error_fmt (codes "PLUGIN_NOT_FOUND") (message ++ c_str name), none)))
      | some b ↦
          if not b.plugin_initialized
          then initialized name b.plugin bs (init b.plugin w)
          else (bs, (w, (success, some b.plugin)))
    ]

    get_plugin-picked :
        (bs : Bindings P) (w : W) (o : Option (Binding P))
        → find_plugin name bs ≡ o
        → get_plugin init message name bs w ≡ picked bs w o
    unfolding get_plugin
    get_plugin-picked bs w o e = ap (picked bs w) e

    get_plugin-ready :
        (b : Binding P) (bs : Bindings P) (w : W)
        → find_plugin name bs ≡ some b
        → b.plugin_initialized ≡ true
        → get_plugin init message name bs w ≡ (bs, (w, (success, some b.plugin)))
    get_plugin-ready b bs w e i = get_plugin-picked bs w (some b) e ∙ rw i refl

    get_plugin-fresh :
        (b : Binding P) (bs : Bindings P) (w : W)
        → find_plugin name bs ≡ some b
        → b.plugin_initialized ≡ false
        → get_plugin init message name bs w ≡ initialized name b.plugin bs (init b.plugin w)
    get_plugin-fresh b bs w e i = get_plugin-picked bs w (some b) e ∙ rw i refl

    -- Found now, and found again whatever the world is.
    abbrev FoundForGood : Found P W → Type 0
    FoundForGood r =
        (p : P) × (r.1.1.1 ≡ some p)
        × ((w' : W) → get_plugin init message name r.0 w' ≡ (r.0, (w', (success, some p))))

    fresh-FoundForGood :
        (b : Binding P) (bs : Bindings P) (r : W × ReturnCode)
        → find_plugin name bs ≡ some b
        → is_success (initialized name b.plugin bs r).1.1.0 ≡ true
        → FoundForGood (initialized name b.plugin bs r)
    fresh-FoundForGood b bs (w', rc) e ok = elim (Bool-cases (is_success rc)) [
      | inl s ↦ rw s (
        b.plugin,
        refl,
        λ w''.
            get_plugin-ready (record b { plugin_initialized = true }) (set_initialized name bs) w''
              (find_plugin-set_initialized name bs b e) refl,
      )
      | inr f ↦ absurd (ground arith)
    ]

    -- A plugin that was found is initialised for good: it is found again, at once, in whatever state the world
    -- is, which stays as it is.
    pub get_plugin-once :
        (bs : Bindings P) (w : W)
        → is_success (get_plugin init message name bs w).1.1.0 ≡ true
        → (p : P) × ((get_plugin init message name bs w).1.1.1 ≡ some p)
          × ((w' : W)
              → get_plugin init message name (get_plugin init message name bs w).0 w'
                ≡ ((get_plugin init message name bs w).0, (w', (success, some p))))
    get_plugin-once bs w ok = elim (Option-cases (find_plugin name bs)) [
      | inl n ↦ absurd (
          let no : false ≡ true =
            subst (λ (r : Found P W). is_success r.1.1.0 ≡ true) (get_plugin-picked bs w none n)
              ok in
          ground arith)
      | inr (b, e) ↦ elim (Bool-cases b.plugin_initialized) [
        | inl i ↦
            rw (get_plugin-ready b bs w e i) (b.plugin, refl, λ w'. get_plugin-ready b bs w' e i)
        | inr f ↦
            let fresh = get_plugin-fresh b bs w e f in
            rw fresh (
              fresh-FoundForGood b bs (init b.plugin w) e
                (subst (λ (r : Found P W). is_success r.1.1.0 ≡ true) fresh ok))
      ]
    ]

    abbrev Agrees : Found P W → Type 0
    Agrees r = is_success r.1.1.0 ≡ is_some r.1.1.1

    initialized-Agrees :
        (b : Binding P) (bs : Bindings P) (r : W × ReturnCode)
        → Agrees (initialized name b.plugin bs r)
    initialized-Agrees b bs (w', rc) = elim (Bool-cases (is_success rc)) [
      | inl s ↦ rw s refl
      | inr f ↦ rw f refl
    ]

    picked-Agrees : (bs : Bindings P) (w : W) (o : Option (Binding P)) → Agrees (picked bs w o)
    picked-Agrees bs w none = refl
    picked-Agrees bs w (some b) = elim (Bool-cases b.plugin_initialized) [
      | inl i ↦ rw i refl
      | inr f ↦ rw f (initialized-Agrees b bs (init b.plugin w))
    ]

    -- The status says whether a plugin was found.
    get_plugin-Agrees : (bs : Bindings P) (w : W) → Agrees (get_plugin init message name bs w)
    get_plugin-Agrees bs w =
        rw (get_plugin-picked bs w (find_plugin name bs) refl)
          (picked-Agrees bs w (find_plugin name bs))

module _ {W : Type 0} where
  pub get_output_plugin-Agrees :
      (name : Bytes) (pm : PluginMap W) (w : W)
      → let r = get_output_plugin name pm w in is_success r.1.1.0 ≡ is_some r.1.1.1
  unfolding get_output_plugin
  get_output_plugin-Agrees name pm w =
      get_plugin-Agrees (λ p. p.init pm.spool_dir) (codes "output plugin not found: ") name
        pm.output_plugins w

  pub get_source_plugin-Agrees :
      (name : Bytes) (pm : PluginMap W) (w : W)
      → let r = get_source_plugin name pm w in is_success r.1.1.0 ≡ is_some r.1.1.1
  unfolding get_source_plugin
  get_source_plugin-Agrees name pm w =
      get_plugin-Agrees (λ p. p.init pm.spool_dir) (codes "plugin not found: ") name
        pm.source_plugins w
