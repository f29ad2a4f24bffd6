-- ===== src/Service/Setup/Balance.antt =====
-- What is attached to the plugins while events and targets are added, and when the service goes.
pub mod Added
pub mod Destroyed
use mathlib.Core.Path.{subst}
use evcollect.Prelude.{
  ℕ, suc, ◌≡◌, refl, inl, inr, true, Bool-cases, Option, none, some, List, [], ◌∷◌, Bytes, arith,
  str_eq, All, if◌then◌else◌, not,
}
use evcollect.Events.{PropertyList}
use evcollect.Util.ReturnCode.{ReturnCode, is_success}
use evcollect.Plugin.{SourcePlugin, OutputPlugin}
use evcollect.Plugin.Map.{
  Binding, Bindings, find_plugin, set_initialized, emplace, Found, initialized, get_plugin,
}
use evcollect.Plugin.Map.Once.{picked}

-- `held` counts what is attached to the plugins.
module _ {W : Type 0} (held : W → ℕ) where
  -- What `attach` and `detach` do to the count: one more where it succeeds, and one less.
  abbrev Attaches : (PropertyList → W → W × (ReturnCode × ℕ)) → Type 0
  Attaches attach =
      (config : PropertyList) (w : W)
      → held (attach config w).0
        ≡ (if is_success (attach config w).1.0 then suc (held w) else held w)

  abbrev Detaches : (ℕ → W → W) → Type 0
  Detaches detach = (u : ℕ) (w : W) (n : ℕ) → held w ≡ suc n → held (detach u w) ≡ n

  pub record CountsSource (p : SourcePlugin W) : Type 0 where
    pub inits : (dir : Bytes) (w : W) → held (p.init dir w).0 ≡ held w
    pub frees : (w : W) → held (p.free w) ≡ held w
    pub attaches : Attaches p.attach
    pub detaches : Detaches p.detach

  pub record CountsOutput (p : OutputPlugin W) : Type 0 where
    pub inits : (dir : Bytes) (w : W) → held (p.init dir w).0 ≡ held w
    pub attaches : Attaches p.attach
    pub detaches : Detaches p.detach

  module _ {P : Type 0} (Q : P → Type 0) where
    abbrev pub AllPlugins : Bindings P → Type 0
    AllPlugins = All (λ kb. Q kb.1.plugin)

    abbrev pub IfFound : Option P → Type 0
    IfFound none = Unit
    IfFound (some p) = Q p

    find_plugin-All :
        (name : Bytes) (bs : Bindings P) (b : Binding P)
        → AllPlugins bs
        → find_plugin name bs ≡ some b
        → Q b.plugin
    unfolding find_plugin
    find_plugin-All name [] b h e = absurd (ground arith)
    find_plugin-All name ((k, c) ∷ bs) b (q, h) e = elim (Bool-cases (str_eq k name)) [
      | inl t ↦ let same : c ≡ b = ground arith in subst (λ x. Q x.plugin) same q
      | inr f ↦ find_plugin-All name bs b h (ground arith)
    ]

    set_initialized-All :
        (name : Bytes) (bs : Bindings P) → AllPlugins bs → AllPlugins (set_initialized name bs)
    unfolding set_initialized
    set_initialized-All name [] h = tt
    set_initialized-All name ((k, b) ∷ bs) (q, h) = elim (Bool-cases (str_eq k name)) [
      | inl t ↦ rw t (q, h)
      | inr f ↦ rw f (q, set_initialized-All name bs h)
    ]

    pub emplace-All :
        (name : Bytes) (b : Binding P) (bs : Bindings P)
        → Q b.plugin
        → AllPlugins bs
        → AllPlugins (emplace name b bs)
    unfolding emplace
    emplace-All name b [] p h = (p, tt)
    emplace-All name b ((k, c) ∷ bs) p (q, h) = elim (Bool-cases (str_eq k name)) [
      | inl t ↦ rw t (q, h)
      | inr f ↦ rw f (q, emplace-All name b bs p h)
    ]

    -- Every plugin is one of the table's, and nothing is attached in looking it up.
    abbrev Looked : ℕ → Found P W → Type 0
    Looked n r = (AllPlugins r.0 × (held r.1.0 ≡ n)) × IfFound r.1.1.1

    module _ (init : P → W → W × ReturnCode)
        (keeps : (p : P) → Q p → (w : W) → held (init p w).0 ≡ held w) (message name : Bytes) where
      initialized-Looked :
          (p : P) (bs : Bindings P) (r : W × ReturnCode) (n : ℕ)
          → AllPlugins bs
          → Q p
          → held r.0 ≡ n
          → Looked n (initialized name p bs r)
      initialized-Looked p bs (w, rc) n h q e = elim (Bool-cases (is_success rc)) [
        | inl s ↦ rw s ((set_initialized-All name bs h, e), q)
        | inr f ↦ rw f ((h, e), tt)
      ]

      picked-Looked :
          (bs : Bindings P) (w : W) (o : Option (Binding P))
          → find_plugin name bs ≡ o
          → AllPlugins bs
          → Looked (held w) (picked init message name bs w o)
      picked-Looked bs w none e h = ((h, refl), tt)
      picked-Looked bs w (some b) e h =
          let q = find_plugin-All name bs b h e in
          elim (Bool-cases (not b.plugin_initialized)) [
            | inl i ↦
                rw i (
                  initialized-Looked b.plugin bs (init b.plugin w) (held w) h q
                    (keeps b.plugin q w))
            | inr i ↦ rw i ((h, refl), q)
          ]

      pub get_plugin-Looked :
          (bs : Bindings P) (w : W)
          → AllPlugins bs
          → Looked (held w) (get_plugin init message name bs w)
      unfolding get_plugin
      get_plugin-Looked bs w h = picked-Looked bs w (find_plugin name bs) refl h
