-- ===== src/Engine/Configured.antt =====
-- What New and Reconfigure make of a configuration.
use cpa_plugin_reset_priorit.Times.{Time}
use cpa_plugin_reset_priorit.Config.{Config}
use cpa_plugin_reset_priorit.Host.{Host}
use cpa_plugin_reset_priorit.Engine.{Engine, Account, reconcile}
use cpa_plugin_reset_priorit.Engine.Work.{stop_option, run_async}
use cpa_plugin_reset_priorit.Engine.Publish.{publish_status}
use cpa_plugin_reset_priorit.Engine.Sys.{Sys, with_engine, now_of, tick}
use cpa_plugin_reset_priorit.Engine.Setup.{
  SameSetup, SameSetup-refl, SameSetup-trans, stop_timers-SameSetup, stop_option-SameSetup,
  run_async-SameSetup, publish_status-SameSetup,
}
use cpa_plugin_reset_priorit.Engine.Life.{
  blank, empty_status, new, start, stop_all, stop, stop_disabled_generation, publish_config,
  reconfigure,
}
use cpa_plugin_reset_priorit.Base.{
  if◌then◌else◌, ℕ, ◌≡◌, refl, ◌∙◌, Bool, true, false, not, List, [], ◌∷◌, arith,
}

-- The engine runs under this configuration, and is stopped exactly if it is disabled.
pub record Runs (cfg : Config) (e : Engine) : Type 0 where
  pub configured : e.cfg ≡ cfg
  pub halted : e.stopped ≡ not cfg.enabled

Runs-SameSetup : {cfg : Config} {e e' : Engine} → SameSetup e e' → Runs cfg e → Runs cfg e'
Runs-SameSetup p r = record { configured = p.cfg ∙ r.configured; halted = p.stopped ∙ r.halted }

stop_all-SameSetup : (l : List Account) (e : Engine) → SameSetup e (stop_all l e)
unfolding stop_all
stop_all-SameSetup [] e = SameSetup-refl e
stop_all-SameSetup (a ∷ rest) e =
    SameSetup-trans (stop_timers-SameSetup a.retry_timers e) (stop_all-SameSetup rest _)

-- The timers that stopLocked cancels.
abbrev timers_off : Engine → Engine
timers_off e = stop_all e.accounts (
    stop_option e.health_poll_timer
      (stop_option e.deadline_timer (stop_option e.reconcile_timer e)))

timers_off-SameSetup : (e : Engine) → SameSetup e (timers_off e)
timers_off-SameSetup e = SameSetup-trans (stop_option-SameSetup e.reconcile_timer e) (
    SameSetup-trans (stop_option-SameSetup e.deadline_timer _) (
      SameSetup-trans (stop_option-SameSetup e.health_poll_timer _)
        (stop_all-SameSetup e.accounts _)))

stop-cfg : (now : Time) (e : Engine) → (stop now e).cfg ≡ e.cfg
unfolding stop publish_status
stop-cfg now e = (timers_off-SameSetup e).cfg

stop-stopped : (now : Time) (e : Engine) → (stop now e).stopped ≡ true
unfolding stop publish_status
stop-stopped now e = refl

disabled-Runs :
    {cfg : Config} (seq : ℕ) (now : Time) (e : Engine)
    → cfg.enabled ≡ false
    → Runs cfg e
    → Runs cfg (stop_disabled_generation seq now e)
unfolding stop_disabled_generation
disabled-Runs seq now e d r =
    let same : e.cfg ≡ _ = r.configured in
    let off : e.stopped ≡ _ = r.halted in
    let kept = stop-cfg now e in
    let off_now = stop-stopped now e in record { configured = ground arith; halted = ground arith }

publish-Runs : (cfg : Config) (e : Engine) → Runs cfg (publish_config cfg e)
unfolding publish_config
publish-Runs cfg e = record { configured = refl; halted = refl }

either-Runs :
    {cfg : Config} (b : Bool) (s t : Sys)
    → (b ≡ true → Runs cfg s.engine)
    → (b ≡ false → Runs cfg t.engine)
    → Runs cfg (if not b then t else s).engine
either-Runs true s t f g = f refl
either-Runs false s t f g = g refl

pub reconfigure-Runs : (h : Host) (cfg : Config) (s : Sys) → Runs cfg (reconfigure h cfg s).engine
unfolding reconfigure
reconfigure-Runs h cfg s =
    let e = publish_config cfg s.engine in
    let r = publish-Runs cfg s.engine in
    either-Runs cfg.enabled (with_engine (run_async reconcile e) s)
      (tick (with_engine (stop_disabled_generation e.config_seq (now_of h s) e) s))
      (λ on. Runs-SameSetup (run_async-SameSetup reconcile e) r)
      (λ off. disabled-Runs e.config_seq (now_of h s) e off r)

pub new-Runs : (cfg : Config) (now : Time) → Runs cfg (new cfg now)
unfolding new
new-Runs cfg now =
    Runs-SameSetup (publish_status-SameSetup now (blank cfg empty_status))
      (record { configured = refl; halted = refl })

pub start-Runs :
    {cfg : Config} (b : Bool) (s : Sys)
    → Runs cfg s.engine
    → Runs cfg (if b then with_engine (start s.engine) s else s).engine
unfolding start
start-Runs true s r = Runs-SameSetup (run_async-SameSetup reconcile s.engine) r
start-Runs false s r = r
