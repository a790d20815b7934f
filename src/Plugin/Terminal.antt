-- ===== src/Plugin/Terminal.antt =====
-- The lifecycle: what a registration claims, and what is left after a shutdown.
use cpa_plugin_reset_priorit.Config.{Config}
use cpa_plugin_reset_priorit.Bridge.{quiesce}
use cpa_plugin_reset_priorit.Engine.{Engine}
use cpa_plugin_reset_priorit.Engine.Sys.{tick}
use cpa_plugin_reset_priorit.Engine.Life.{new, reconfigure}
use cpa_plugin_reset_priorit.Engine.Configured.{Runs, new-Runs, start-Runs, reconfigure-Runs}
use cpa_plugin_reset_priorit.Plugin.Wire.{
  LifecycleRequest, Envelope, registered, error, Runtime, Services, negotiate, implemented_schema,
  on_sys,
}
use cpa_plugin_reset_priorit.Plugin.Runtime.{
  quiesce_runtime, shutdown_engine, shutdown_runtime, install, configure, handle_lifecycle,
  dispatch, dispatch_all,
}
use cpa_plugin_reset_priorit.Base.{
  ◌==◌, if◌then◌else◌, Bool-cases, Str, bytes, is_empty, ℕ, ◌≤◌, ◌≡◌, refl, sym, subst, ◌⊎◌, inl,
  inr, true, false, not, Option, none, some, List, [], ◌∷◌, arith,
}

abbrev pub refused : List (Str × Str) → List Envelope
refused [] = []
refused (_ ∷ calls) = error (bytes "plugin_shutdown") ∷ refused calls

Option-cases : {A : Type 0} (o : Option A) → ((a : A) × (o ≡ some a)) ⊎ (o ≡ none)
Option-cases none = inr refl
Option-cases (some e) = inl (e, refl)

module _ (v : Services) where
  dispatch_all-refused :
      (calls : List (Str × Str)) (r : Runtime)
      → r.shutting_down ≡ true
      → dispatch_all v calls r ≡ (r, refused calls)
  unfolding dispatch_all dispatch
  dispatch_all-refused [] r h = refl
  dispatch_all-refused ((method, request) ∷ calls) r h =
      let rest = dispatch_all-refused calls r h in ground arith

  record Closed (r : Runtime) : Type 0 where
    shut : r.shutting_down ≡ true
    gate : r.bridge.accepting ≡ false

  quiesce-Closed : (r : Runtime) → Closed r → Closed (quiesce_runtime v r)
  unfolding quiesce_runtime
  quiesce-Closed r c = elim (Option-cases r.engine) [
    | inr n ↦ record { shut = ground arith; gate = ground arith }
    | inl (e, s) ↦ record { shut = ground arith; gate = ground arith }
  ]

  shutdown_engine-Closed : (r : Runtime) → Closed r → Closed (shutdown_engine v r)
  unfolding shutdown_engine
  shutdown_engine-Closed r c = elim (Option-cases r.engine) [
    | inr n ↦ record { shut = ground arith; gate = ground arith }
    | inl (e, s) ↦ record { shut = ground arith; gate = ground arith }
  ]

  closing : (r : Runtime) → Closed (record r { shutting_down = true; bridge = quiesce r.bridge })
  unfolding quiesce
  closing r = record { shut = refl; gate = refl }

  shutdown-Closed : (r : Runtime) → r.shutting_down ≡ false → Closed (shutdown_runtime v r)
  unfolding shutdown_runtime
  shutdown-Closed r h =
      let start : Closed (record r { shutting_down = true; bridge = quiesce r.bridge }) =
        closing r in
      let last = shutdown_engine-Closed _ (quiesce-Closed _ start) in
      subst
        (λ b. Closed (
          if b
          then r
          else shutdown_engine v
              (quiesce_runtime v (record r { shutting_down = true; bridge = quiesce r.bridge }))))
        (sym h) last

  shutdown_again : (r : Runtime) → r.shutting_down ≡ true → shutdown_runtime v r ≡ r
  unfolding shutdown_runtime
  shutdown_again r h = ground arith

  -- Shutdown of a runtime that was not shutting down closes the gate of host callbacks; and every
  -- sequence of dispatches after it is answered by plugin_shutdown errors only, and changes nothing;
  -- nor does a second Shutdown.
  pub shutdown_is_final :
      (calls : List (Str × Str)) (r : Runtime)
      → r.shutting_down ≡ false
      → ((shutdown_runtime v r).bridge.accepting ≡ false)
        × (dispatch_all v calls (shutdown_runtime v r) ≡ (shutdown_runtime v r, refused calls))
        × (shutdown_runtime v (shutdown_runtime v r) ≡ shutdown_runtime v r)
  shutdown_is_final calls r h =
      let c = shutdown-Closed r h in
      (c.gate, dispatch_all-refused calls _ c.shut, shutdown_again _ c.shut)

negotiate_bounds :
    (n : ℕ) → (1 ≤ negotiate n) × (negotiate n ≤ implemented_schema) × ((negotiate n ≤ n) ⊎ (n ≡ 0))
unfolding negotiate
negotiate_bounds n = elim (Bool-cases (n == 0)) [
  | inl z ↦ (ground arith, ground arith, inr (ground arith))
  | inr p ↦ (ground arith, ground arith, inl (ground arith))
]

install-engine :
    (v : Services) (cfg : Config) (r : Runtime)
    → (e : Engine) × ((install v cfg r).engine ≡ some e) × Runs cfg e
unfolding install
install-engine v cfg r = elim (Option-cases r.engine) [
  | inl (e, s) ↦
      rw (s, install)
        (
          (reconfigure v.host cfg (on_sys e r)).engine,
          refl,
          reconfigure-Runs v.host cfg (on_sys e r),
        )
  | inr n ↦
      let made = new-Runs cfg (v.host.now r.trace) in
      rw (n, install)
        (
          _,
          refl,
          start-Runs cfg.enabled
              (tick (record { engine = new cfg (v.host.now r.trace); trace = r.trace })) made,
        )
]

-- What a lifecycle request comes to: the configuration does not parse, and there is an error and the
-- runtime as it was; or it does, an engine runs under it, and a schema is registered.
abbrev pub LifecycleOutcome : Services → LifecycleRequest → Runtime → Runtime × Envelope → Type 0
LifecycleOutcome v req r out =
    ((v.parse_config req.config_yaml ≡ none) × (out ≡ (r, error (bytes "invalid_config"))))
    ⊎ ((cfg : Config) × (e : Engine) × (schema : ℕ) × (v.parse_config req.config_yaml ≡ some cfg)
        × (out.1 ≡ registered schema)
        × (out.0.engine ≡ some e)
        × (e.cfg ≡ cfg)
        × (e.stopped ≡ not cfg.enabled)
        × (1 ≤ schema)
        × (schema ≤ implemented_schema)
        × ((schema ≤ req.schema_version) ⊎ (req.schema_version ≡ 0)))

configure-installs :
    (v : Services) (req : LifecycleRequest) (r : Runtime) {cfg : Config}
    → v.parse_config req.config_yaml ≡ some cfg
    → configure v req r ≡ (install v cfg r, registered (negotiate req.schema_version))
unfolding configure
configure-installs v req r e = rw (e, configure)

configure-refuses :
    (v : Services) (req : LifecycleRequest) (r : Runtime)
    → v.parse_config req.config_yaml ≡ none
    → configure v req r ≡ (r, error (bytes "invalid_config"))
unfolding configure
configure-refuses v req r e = rw (e, configure)

configure-outcome :
    (v : Services) (req : LifecycleRequest) (r : Runtime)
    → LifecycleOutcome v req r (configure v req r)
configure-outcome v req r = elim (Option-cases (v.parse_config req.config_yaml)) [
  | inr n ↦ inl (n, configure-refuses v req r n)
  | inl (cfg, p) ↦
      let (low, high, within) = negotiate_bounds req.schema_version in
      let (e, i, k) = install-engine v cfg r in
      subst (LifecycleOutcome v req r) (sym (configure-installs v req r p)) (
        inr (
          cfg,
          e,
          negotiate req.schema_version,
          p,
          refl,
          i,
          k.configured,
          k.halted,
          low,
          high,
          within,
        ))
]

decoded :
    (v : Services) (request : Str) (r : Runtime) {req : LifecycleRequest}
    → is_empty request ≡ false
    → v.decode_lifecycle request ≡ some req
    → handle_lifecycle v request r ≡ configure v req r
unfolding handle_lifecycle
decoded v request r e d = rw (e, d, handle_lifecycle)

-- A lifecycle request that decodes: if its configuration does not parse, the answer is invalid_config
-- and the runtime is as it was. If it does, there is an engine afterwards that
-- has exactly this configuration and is stopped exactly if the configuration disables it; and the
-- schema that is registered is at least 1, at most what the plugin implements, and at most what the
-- host offered unless it offered none.
pub lifecycle_lem :
    (v : Services) (request : Str) (r : Runtime) {req : LifecycleRequest}
    → is_empty request ≡ false
    → v.decode_lifecycle request ≡ some req
    → LifecycleOutcome v req r (handle_lifecycle v request r)
lifecycle_lem v request r {req} e d =
    subst (LifecycleOutcome v req r) (sym (decoded v request r e d)) (configure-outcome v req r)
