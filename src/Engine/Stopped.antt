-- ===== src/Engine/Stopped.antt =====
-- What a stopped engine, and an answer to a request of an earlier configuration, can still do.
use cpa_plugin_reset_priorit.Config.{Config}
use cpa_plugin_reset_priorit.Host.{Host}
use cpa_plugin_reset_priorit.Providers.{Observation}
use cpa_plugin_reset_priorit.Engine.{
  Engine, Account, Task, retry_fetch, on_deadline, on_health_poll, reconcile, bump, find,
}
use cpa_plugin_reset_priorit.Engine.Work.{reserve_work, release_work}
use cpa_plugin_reset_priorit.Engine.Accounts.{
  FetchAttempt, attempt_current, failure_current, observation_admitted,
}
use cpa_plugin_reset_priorit.Engine.Sys.{Sys, with_engine, account_of}
use cpa_plugin_reset_priorit.Engine.Fetch.{apply_fetch_failure, apply_observation}
use cpa_plugin_reset_priorit.Engine.Reconcile
use cpa_plugin_reset_priorit.Engine.Reconcile.{no_op, reconcile_pass}
use cpa_plugin_reset_priorit.Engine.Callbacks.{
  retry_needed, retry_still_needed, run_retry, run_deadline, run_health_poll, run_closure, run_task,
}
use cpa_plugin_reset_priorit.Engine.Life.{publish_config}
use cpa_plugin_reset_priorit.Engine.Touch.{Option-cases}
use cpa_plugin_reset_priorit.Engine.Reconcile.{no_op, reconcile_pass}
use cpa_plugin_reset_priorit.Engine.Reconcile.{ReconcileResult}
use cpa_plugin_reset_priorit.Base.{
  ◌==◌, if◌then◌else◌, Str, u64_mod, ℕ, ◌<◌, ◌≡◌, refl, ap, ◌∙◌, inl, inr, Bool, true, false, not,
  arith,
}

retry_not_needed :
    (idx : Str) (seq : ℕ) (e : Engine) → e.stopped ≡ true → retry_still_needed idx seq e ≡ false
unfolding retry_still_needed retry_needed
retry_not_needed idx seq e t = elim (Option-cases (find idx e.accounts)) [
  | inl n ↦ rw (n, retry_still_needed) refl
  | inr (a, f) ↦ rw (f, retry_still_needed) (rw t refl)
]

-- What a task of a stopped engine leaves: no call was made and no account changed.
record Inert (s s' : Sys) : Type 0 where
  trace : s'.trace ≡ s.trace
  accounts : s'.engine.accounts ≡ s.engine.accounts

pass_stopped : (h : Host) (s : Sys) → s.engine.stopped ≡ true → reconcile_pass h s ≡ (no_op, s)
unfolding reconcile_pass
pass_stopped h s t = rw t refl

if-Inert :
    {s : Sys} (b : Bool) (x y : ReconcileResult × Sys)
    → Inert s x.1
    → Inert s y.1
    → Inert s (if b then x else y).1
if-Inert true x y p q = p
if-Inert false x y p q = q

reserve_keeps :
    (e : Engine)
    → ((reserve_work e).0.stopped ≡ e.stopped) × ((reserve_work e).0.accounts ≡ e.accounts)
unfolding reserve_work
reserve_keeps e = ground arith

reconcile_stopped :
    (h : Host) (s : Sys) → s.engine.stopped ≡ true → Inert s (Reconcile.reconcile h s).1
unfolding Reconcile.reconcile release_work
reconcile_stopped h s t =
    let s0 = with_engine (reserve_work s.engine).0 s in
    let kept = reserve_keeps s.engine in
    let p = pass_stopped h s0 (kept.0 ∙ t) in
    if-Inert (not (reserve_work s.engine).1) _ _ (record { trace = refl; accounts = refl })
      (record {
        trace = ap (λ r. r.1.trace) p;
        accounts = ap (λ r. r.1.engine.accounts) p ∙ kept.1;
      })

closure_stopped :
    (h : Host) (task : Task) (s : Sys) → s.engine.stopped ≡ true → Inert s (run_closure h task s)
unfolding run_closure run_retry run_deadline run_health_poll
closure_stopped h (retry_fetch idx seq) s t =
    rw (retry_not_needed idx seq s.engine t) (record { trace = refl; accounts = refl })
closure_stopped h (on_deadline seq) s t = rw t (record { trace = refl; accounts = refl })
closure_stopped h (on_health_poll seq) s t = rw t (record { trace = refl; accounts = refl })
closure_stopped h reconcile s t = reconcile_stopped h s t

-- A task that runs in a stopped engine makes no call and changes no account.
pub stopped_does_nothing :
    (h : Host) (task : Task) (s : Sys)
    → s.engine.stopped ≡ true
    → ((run_task h task s).trace ≡ s.trace)
      × ((run_task h task s).engine.accounts ≡ s.engine.accounts)
unfolding run_task release_work
stopped_does_nothing h task s t = let p = closure_stopped h task s t in (p.trace, p.accounts)

bump_differs : (n : ℕ) → n < u64_mod → (n == bump n) ≡ false
bump_differs n h = ground arith

stale_attempt :
    (cfg : Config) (e : Engine) (a : Account) (at : FetchAttempt)
    → at.config_seq ≡ e.config_seq
    → e.config_seq < u64_mod
    → attempt_current (publish_config cfg e) a at ≡ false
unfolding attempt_current publish_config
stale_attempt cfg e a at p fits = rw p (rw (bump_differs e.config_seq fits) (ground arith))

-- After Reconfigure has published a configuration, neither an answer nor a failure of a request of
-- the configuration just before it changes anything, the number of that configuration being one of
-- 64 bits.
pub stale_answers_dropped :
    (h : Host) (cfg : Config) (at : FetchAttempt) (obs : Observation) (text : Str) (s : Sys)
    → at.config_seq ≡ s.engine.config_seq
    → s.engine.config_seq < u64_mod
    → let s' = with_engine (publish_config cfg s.engine) s in
      (apply_observation h at obs s' ≡ s') × (apply_fetch_failure h at text s' ≡ s')
unfolding apply_observation apply_fetch_failure observation_admitted failure_current
stale_answers_dropped h cfg at obs text s p fits =
    let s' = with_engine (publish_config cfg s.engine) s in
    elim (Option-cases (account_of at.auth_index s')) [
      | inl n ↦ (rw (n, apply_observation) refl, rw (n, apply_fetch_failure) refl)
      | inr (a, f) ↦ (
        rw (f, apply_observation) (rw (stale_attempt cfg s.engine a at p fits) refl),
        rw (f, apply_fetch_failure) (rw (stale_attempt cfg s.engine a at p fits) refl),
      )
    ]
