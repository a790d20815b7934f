-- ===== src/Engine/Setup.antt =====
-- The configuration, its generation, and the stopped and terminal marks are left alone by the timers,
-- the retries, the roster and the reservations.
use cpa_plugin_reset_priorit.Times.{Time, Duration}
use cpa_plugin_reset_priorit.Engine.{Engine, Account, TimerHandle, inactive, tracked, Task, find}
use cpa_plugin_reset_priorit.Engine.Work.{
  after_func, stop_timer, stop_timers, stop_option, run_async,
}
use cpa_plugin_reset_priorit.Engine.Publish.{publish_status}
use cpa_plugin_reset_priorit.Engine.Desired.{recompute_desired}
use cpa_plugin_reset_priorit.Engine.Schedule.{
  arm_delays, start_retry_sequence, RetrySchedule, arm_awaiting, schedule_recovery,
  schedule_recovery_retries, reschedule_deadline, may_arm,
}
use cpa_plugin_reset_priorit.Engine.{retry_fetch, bump}
use cpa_plugin_reset_priorit.Engine.Schedule.{
  reset_retry_delays, schedule_health_poll, schedule_next_reconcile,
}
use cpa_plugin_reset_priorit.Engine.{is_recovering, store}
use cpa_plugin_reset_priorit.Base.{
  if◌then◌else◌, ◌≡◌, refl, ◌∙◌, Bool, true, false, not, ◌||◌, Option, none, some, List, [], ◌∷◌,
  arith,
}

pub record SameSetup (e e' : Engine) : Type 0 where
  pub cfg : e'.cfg ≡ e.cfg
  pub config_seq : e'.config_seq ≡ e.config_seq
  pub stopped : e'.stopped ≡ e.stopped
  pub terminal : e'.terminal ≡ e.terminal

pub SameSetup-refl : (e : Engine) → SameSetup e e
SameSetup-refl e = record { cfg = refl; config_seq = refl; stopped = refl; terminal = refl }

pub SameSetup-trans : {e e' e'' : Engine} → SameSetup e e' → SameSetup e' e'' → SameSetup e e''
SameSetup-trans p q = record {
  cfg = q.cfg ∙ p.cfg;
  config_seq = q.config_seq ∙ p.config_seq;
  stopped = q.stopped ∙ p.stopped;
  terminal = q.terminal ∙ p.terminal;
}

pub stop_timer-SameSetup : (t : TimerHandle) (e : Engine) → SameSetup e (stop_timer t e)
unfolding stop_timer
stop_timer-SameSetup inactive e = SameSetup-refl e
stop_timer-SameSetup (tracked n) e = ground arith

pub stop_timers-SameSetup : (ts : List TimerHandle) (e : Engine) → SameSetup e (stop_timers ts e)
unfolding stop_timers
stop_timers-SameSetup [] e = SameSetup-refl e
stop_timers-SameSetup (t ∷ ts) e =
    SameSetup-trans (stop_timer-SameSetup t e) (stop_timers-SameSetup ts (stop_timer t e))

pub stop_option-SameSetup : (t : Option TimerHandle) (e : Engine) → SameSetup e (stop_option t e)
unfolding stop_option
stop_option-SameSetup none e = SameSetup-refl e
stop_option-SameSetup (some t) e = stop_timer-SameSetup t e

pub after_func-SameSetup : (d : Duration) (t : Task) (e : Engine) → SameSetup e (after_func d t e).0
unfolding after_func
after_func-SameSetup d t e = ground arith

pub run_async-SameSetup : (t : Task) (e : Engine) → SameSetup e (run_async t e)
unfolding run_async
run_async-SameSetup t e = ground arith

arm_delays-SameSetup :
    (t : Task) (ds : List Duration) (e : Engine) → SameSetup e (arm_delays t ds e).0
unfolding arm_delays
arm_delays-SameSetup t [] e = SameSetup-refl e
arm_delays-SameSetup t (d ∷ ds) e =
    SameSetup-trans (after_func-SameSetup d t e) (arm_delays-SameSetup t ds (after_func d t e).0)

-- A branch, each side of which keeps the setup.
pub if-SameSetup :
    {e e1 e2 : Engine} (b : Bool)
    → SameSetup e e1
    → SameSetup e e2
    → SameSetup e (if b then e1 else e2)
if-SameSetup true p q = p
if-SameSetup false p q = q

pub accounts-SameSetup :
    {e e' : Engine} (l : List Account) → SameSetup e e' → SameSetup e (record e' { accounts = l })
accounts-SameSetup l p = record {
  cfg = p.cfg;
  config_seq = p.config_seq;
  stopped = p.stopped;
  terminal = p.terminal;
}

pub start_retry_sequence-SameSetup :
    (a : Account) (immediate : Bool) (e : Engine) → SameSetup e (start_retry_sequence a immediate e)
unfolding start_retry_sequence
start_retry_sequence-SameSetup a immediate e =
    let e1 = stop_timers a.retry_timers e in
    let task = retry_fetch a.auth_index (bump a.retry_seq) in
    let e2 = if immediate then run_async task e1 else e1 in
    accounts-SameSetup _ (
      SameSetup-trans
        (SameSetup-trans (stop_timers-SameSetup a.retry_timers e)
          (if-SameSetup immediate (run_async-SameSetup task e1) (SameSetup-refl e1)))
        (arm_delays-SameSetup task reset_retry_delays e2))

arm_found-SameSetup :
    (immediate : Bool) (r : RetrySchedule) (e : Engine) (o : Option Account)
    → SameSetup e (elim o [
      | none ↦ e
      | some a ↦
          if may_arm e r a
          then start_retry_sequence
              (record a { want_retry_schedule = false })
              (immediate || r.immediate)
              e
          else e
    ])
arm_found-SameSetup immediate r e none = SameSetup-refl e
arm_found-SameSetup immediate r e (some a) =
    if-SameSetup (may_arm e r a) (start_retry_sequence-SameSetup _ _ e) (SameSetup-refl e)

pub arm_awaiting-SameSetup :
    (immediate : Bool) (rs : List RetrySchedule) (e : Engine)
    → SameSetup e (arm_awaiting immediate rs e)
unfolding arm_awaiting
arm_awaiting-SameSetup immediate [] e = SameSetup-refl e
arm_awaiting-SameSetup immediate (r ∷ rs) e =
    SameSetup-trans (arm_found-SameSetup immediate r e (find r.auth_index e.accounts))
      (arm_awaiting-SameSetup immediate rs _)

schedule_recovery-SameSetup :
    (as' : List Account) (e : Engine) → SameSetup e (schedule_recovery as' e)
unfolding schedule_recovery
schedule_recovery-SameSetup [] e = SameSetup-refl e
schedule_recovery-SameSetup (a ∷ rest) e =
    let cleared = record a { want_retry_schedule = false } in
    SameSetup-trans
      (if-SameSetup (not a.want_retry_schedule) (SameSetup-refl e) (
        if-SameSetup (not (is_recovering a.health))
          (accounts-SameSetup (store cleared e.accounts) (SameSetup-refl e))
          (start_retry_sequence-SameSetup cleared false e)))
      (schedule_recovery-SameSetup rest _)

pub schedule_recovery_retries-SameSetup : (e : Engine) → SameSetup e (schedule_recovery_retries e)
unfolding schedule_recovery_retries
schedule_recovery_retries-SameSetup e = schedule_recovery-SameSetup e.accounts e

pub publish_status-SameSetup : (now : Time) (e : Engine) → SameSetup e (publish_status now e)
unfolding publish_status
publish_status-SameSetup now e = record {
  cfg = refl;
  config_seq = refl;
  stopped = refl;
  terminal = refl;
}

pub recompute_desired-SameSetup : (now : Time) (e : Engine) → SameSetup e (recompute_desired now e)
unfolding recompute_desired
recompute_desired-SameSetup now e = record {
  cfg = refl;
  config_seq = refl;
  stopped = refl;
  terminal = refl;
}

pub reschedule_deadline-SameSetup :
    (now : Time) (e : Engine) → SameSetup e (reschedule_deadline now e)
unfolding reschedule_deadline
reschedule_deadline-SameSetup now e = ground (
  arith,
  stop_option-SameSetup e.deadline_timer e,
  λ (d : Duration) (t : Task). after_func-SameSetup d t (stop_option e.deadline_timer e),
)

pub schedule_health_poll-SameSetup : (e : Engine) → SameSetup e (schedule_health_poll e)
unfolding schedule_health_poll
schedule_health_poll-SameSetup e = ground (
  arith,
  stop_option-SameSetup e.health_poll_timer e,
  λ (d : Duration) (t : Task). after_func-SameSetup d t e,
)

pub schedule_next_reconcile-SameSetup :
    (now : Time) (e : Engine) → SameSetup e (schedule_next_reconcile now e)
unfolding schedule_next_reconcile
schedule_next_reconcile-SameSetup now e = ground (
  arith,
  stop_option-SameSetup e.reconcile_timer e,
  λ (d : Duration) (t : Task). after_func-SameSetup d t (stop_option e.reconcile_timer e),
)
