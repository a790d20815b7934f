-- ===== src/Engine/Schedule.antt =====
-- The retry sequences and the three timers of engine.go.
use cpa_plugin_reset_priorit.Times.{
  Time, Duration, second, zero_time, is_zero, before, add_time, sub_time,
}
use cpa_plugin_reset_priorit.Config.{manages}
use cpa_plugin_reset_priorit.Engine.{
  Engine, Account, TimerHandle, Task, retry_fetch, on_deadline, on_health_poll, reconcile, bump,
  is_healthy, is_quarantined, is_recovering, is_awaiting, find, store, put_account,
}
use cpa_plugin_reset_priorit.Engine.Work.{after_func, stop_option, run_async, cancel_retries}
use cpa_plugin_reset_priorit.Engine.Accounts.{has_future_reset}
use cpa_plugin_reset_priorit.Base.{
  ◌==◌, if◌then◌else◌, Str, any, pos, ℕ, ◌*◌, Bool, true, false, not, ◌&&◌, ◌||◌, Option, none,
  some, List, [], ◌∷◌,
}

abbrev pub reset_retry_delays : List Duration
reset_retry_delays =
    pos (5 * second)
    ∷ pos (30 * second)
    ∷ pos (120 * second)
    ∷ pos (300 * second)
    ∷ pos (900 * second)
    ∷ []

abbrev pub health_poll_interval : Duration
health_poll_interval = pos (60 * second)

-- One timer for each delay; the handles in order.
unfoldable pub arm_delays : Task → List Duration → Engine → Engine × List TimerHandle
unfolding after_func
arm_delays task [] e = (e, [])
arm_delays task (d ∷ ds) e =
    let (e', t) = after_func d task e in let (e'', ts) = arm_delays task ds e' in (e'', t ∷ ts)

-- `startRetrySequenceLocked` for an account as it stands in the map.
unfoldable pub start_retry_sequence : Account → Bool → Engine → Engine
unfolding cancel_retries run_async arm_delays store
start_retry_sequence a immediate e =
    let (e1, b) = cancel_retries a e in
    let task = retry_fetch b.auth_index b.retry_seq in
    let e2 = if immediate then run_async task e1 else e1 in
    let (e3, timers) = arm_delays task reset_retry_delays e2 in
    put_account (record b { retry_timers = timers }) e3

pub record RetrySchedule : Type 0 where
  pub auth_index : Str
  pub epoch : ℕ
  pub retry_seq : ℕ
  pub immediate : Bool

-- `collectAwaitingRetriesLocked`
unfoldable pub collect_awaiting : List Account → List Account × List RetrySchedule
collect_awaiting [] = ([], [])
collect_awaiting (a ∷ rest) =
    let (rest', retries) = collect_awaiting rest in
    if not a.want_awaiting_retry || a.reconcile_fetch_pending then (a ∷ rest', retries) else (
      record a { want_awaiting_retry = false; awaiting_needs_immediate = false } ∷ rest',
      record {
        auth_index = a.auth_index;
        epoch = a.fetch_epoch;
        retry_seq = a.retry_seq;
        immediate = a.awaiting_needs_immediate;
      }
          ∷ retries,
    )

-- The guard of `armAwaitingRetriesLocked` on an account that is there.
unfoldable pub may_arm : Engine → RetrySchedule → Account → Bool
unfolding manages
may_arm e r a =
    manages e.cfg a.provider
    && a.fetch_epoch == r.epoch
    && a.retry_seq == r.retry_seq
    && not a.reconcile_fetch_pending
    && not (is_quarantined a.health)
    && is_awaiting a.reset_state

unfoldable pub arm_awaiting : Bool → List RetrySchedule → Engine → Engine
unfolding may_arm start_retry_sequence find
arm_awaiting immediate [] e = e
arm_awaiting immediate (r ∷ rs) e = arm_awaiting immediate rs (elim (find r.auth_index e.accounts) [
  | none ↦ e
  | some a ↦
      if may_arm e r a
      then start_retry_sequence (record a { want_retry_schedule = false })
          (immediate || r.immediate) e
      else e
])

-- `scheduleRecoveryRetriesLocked`, over the accounts of the start of the pass.
unfoldable pub schedule_recovery : List Account → Engine → Engine
unfolding start_retry_sequence store
schedule_recovery [] e = e
schedule_recovery (a ∷ rest) e =
    let cleared = record a { want_retry_schedule = false } in
    schedule_recovery rest (
      if not a.want_retry_schedule
      then e
      else if not (is_recovering a.health)
      then put_account cleared e
      else start_retry_sequence cleared false e)

unfoldable pub schedule_recovery_retries : Engine → Engine
unfolding schedule_recovery
schedule_recovery_retries e = schedule_recovery e.accounts e

-- The earliest future reset of the healthy accounts; the zero time if there is none.
unfoldable pub earliest_reset : Time → List Account → Time → Time
unfolding has_future_reset
earliest_reset now [] earliest = earliest
earliest_reset now (a ∷ rest) earliest = earliest_reset now rest (
    if not (is_healthy a.health) || not (has_future_reset a now)
    then earliest
    else if is_zero earliest || before a.reset_at earliest
    then a.reset_at
    else earliest)

abbrev pub is_armed : Option TimerHandle → Bool
is_armed none = false
is_armed (some _) = true

-- `rescheduleDeadlineLocked`
unfoldable pub reschedule_deadline : Time → Engine → Engine
unfolding earliest_reset stop_option after_func sub_time
reschedule_deadline now e =
    let earliest = earliest_reset now e.accounts zero_time in
    if is_zero earliest
    then (if is_armed e.deadline_timer
        then record (stop_option e.deadline_timer e) {
          deadline_seq = bump e.deadline_seq;
          deadline_timer = none;
          next_deadline_at = zero_time;
        }
        else record e { next_deadline_at = zero_time })
    else if is_armed e.deadline_timer && earliest == e.next_deadline_at
    then e
    else (let e1 = stop_option e.deadline_timer e in
        let seq = bump e.deadline_seq in
        let (e2, timer) = after_func (sub_time earliest now) (on_deadline seq) e1 in
        record e2 { deadline_seq = seq; next_deadline_at = earliest; deadline_timer = some timer })

unfoldable pub any_unhealthy : List Account → Bool
any_unhealthy = any (λ a. is_quarantined a.health || is_recovering a.health)

-- `scheduleHealthPollLocked`
unfoldable pub schedule_health_poll : Engine → Engine
unfolding any_unhealthy stop_option after_func
schedule_health_poll e =
    if e.stopped || not (any_unhealthy e.accounts)
    then record (stop_option e.health_poll_timer e) {
      health_poll_seq = bump e.health_poll_seq;
      health_poll_timer = none;
    }
    else if is_armed e.health_poll_timer
    then e
    else (let seq = bump e.health_poll_seq in
        let (e1, timer) = after_func health_poll_interval (on_health_poll seq) e in
        record e1 { health_poll_seq = seq; health_poll_timer = some timer })

-- `scheduleNextReconcileLocked`
unfoldable pub schedule_next_reconcile : Time → Engine → Engine
unfolding stop_option after_func add_time
schedule_next_reconcile now e =
    if e.stopped
    then e
    else (let e1 = stop_option e.reconcile_timer e in
        let interval = e.cfg.reconcile_interval in
        let (e2, timer) = after_func interval reconcile e1 in
        record e2 { next_reconcile_at = add_time now interval; reconcile_timer = some timer })
