-- ===== src/Engine/Life.antt =====
-- The life of an engine: New, Start, Stop, Shutdown, Reconfigure.
use cpa_plugin_reset_priorit.Times.{Time, zero_time}
use cpa_plugin_reset_priorit.Config.{Config, manages}
use cpa_plugin_reset_priorit.Host.{Host}
use cpa_plugin_reset_priorit.Status.{Snapshot}
use cpa_plugin_reset_priorit.Engine.{Engine, Account, reconcile, bump}
use cpa_plugin_reset_priorit.Engine.Work.{stop_option, stop_timers, run_async, cancelled}
use cpa_plugin_reset_priorit.Engine.Publish.{publish_status}
use cpa_plugin_reset_priorit.Engine.Sys.{Sys, with_engine, now_of, tick}
use cpa_plugin_reset_priorit.Base.{
  ◌==◌, if◌then◌else◌, ℕ, Bool, true, false, not, ◌&&◌, ◌||◌, none, List, [], ◌∷◌,
}

abbrev pub blank : Config → Snapshot → Engine
blank cfg status = record {
  terminal = false;
  work = 0;
  cfg = cfg;
  config_seq = 0;
  accounts = [];
  stopped = not cfg.enabled;
  reconcile_timer = none;
  next_reconcile_at = zero_time;
  deadline_timer = none;
  next_deadline_at = zero_time;
  deadline_seq = 0;
  health_poll_timer = none;
  health_poll_seq = 0;
  last_roster_error = [];
  next_timer = 0;
  pending = [];
  queue = [];
  status = status;
}

abbrev pub empty_status : Snapshot
empty_status = record {
  generated_at = zero_time;
  dry_run = false;
  enabled = false;
  stopped = false;
  display_timezone = [];
  warnings = [];
  roster_error = [];
  next_reconcile_at = none;
  next_deadline_at = none;
  providers = [];
}

-- `New` at the instant `now`.
unfoldable pub new : Config → Time → Engine
unfolding publish_status
new cfg now = publish_status now (blank cfg empty_status)

unfoldable pub start : Engine → Engine
unfolding run_async
start = run_async reconcile

unfoldable pub cancel_all : List Account → List Account
unfolding cancelled
cancel_all [] = []
cancel_all (a ∷ rest) = cancelled a ∷ cancel_all rest

unfoldable pub stop_all : List Account → Engine → Engine
unfolding stop_timers
stop_all [] e = e
stop_all (a ∷ rest) e = stop_all rest (stop_timers a.retry_timers e)

-- `stopLocked`
unfoldable pub stop : Time → Engine → Engine
unfolding stop_option stop_all cancel_all publish_status
stop now e =
    let e1 = stop_option e.reconcile_timer e in
    let e2 = stop_option e.deadline_timer e1 in
    let e3 = stop_option e.health_poll_timer e2 in
    let e4 = stop_all e.accounts e3 in
    publish_status now (record e4 {
      stopped = true;
      reconcile_timer = none;
      next_reconcile_at = zero_time;
      deadline_seq = bump e.deadline_seq;
      deadline_timer = none;
      next_deadline_at = zero_time;
      health_poll_seq = bump e.health_poll_seq;
      health_poll_timer = none;
      accounts = cancel_all e.accounts;
    })

-- `stopDisabledGeneration`
unfoldable pub stop_disabled_generation : ℕ → Time → Engine → Engine
unfolding stop
stop_disabled_generation seq now e =
    if not (e.config_seq == seq) || e.cfg.enabled then e else stop now e

-- `Shutdown`, up to the wait for the work that is left.
unfoldable pub shutdown : Time → Engine → Engine
unfolding stop
shutdown now e = stop now (record e { terminal = true })

-- The account of a provider that the new configuration opts out.
unfoldable pub opted_out : Account → Account
unfolding cancelled
opted_out a = record (cancelled a) {
  fetch_epoch = bump a.fetch_epoch;
  reconcile_fetch_pending = false;
  want_retry_schedule = false;
  want_awaiting_retry = false;
  awaiting_needs_immediate = false;
}

unfoldable pub is_opted_out : (previous cfg : Config) → Account → Bool
unfolding manages
is_opted_out previous cfg a =
    manages previous a.provider && (not cfg.enabled || not (manages cfg a.provider))

unfoldable pub opt_out : (previous cfg : Config) → List Account → List Account
unfolding is_opted_out opted_out
opt_out previous cfg [] = []
opt_out previous cfg (a ∷ rest) =
    (if is_opted_out previous cfg a then opted_out a else a) ∷ opt_out previous cfg rest

unfoldable pub stop_opted_out : (previous cfg : Config) → List Account → Engine → Engine
unfolding is_opted_out stop_timers
stop_opted_out previous cfg [] e = e
stop_opted_out previous cfg (a ∷ rest) e =
    stop_opted_out previous cfg rest
      (if is_opted_out previous cfg a then stop_timers a.retry_timers e else e)

-- The critical section of `Reconfigure`.
unfoldable pub publish_config : Config → Engine → Engine
unfolding opt_out stop_opted_out
publish_config cfg e =
    let e1 = stop_opted_out e.cfg cfg e.accounts e in
    record e1 {
      cfg = cfg;
      config_seq = bump e.config_seq;
      stopped = not cfg.enabled;
      accounts = opt_out e.cfg cfg e.accounts;
    }

-- `Reconfigure`; the clock is read only to stop a disabled generation.
unfoldable pub reconfigure : Host → Config → Sys → Sys
unfolding publish_config stop_disabled_generation run_async
reconfigure h cfg s =
    let e = publish_config cfg s.engine in
    if not cfg.enabled
    then tick (with_engine (stop_disabled_generation e.config_seq (now_of h s) e) s)
    else with_engine (run_async reconcile e) s
