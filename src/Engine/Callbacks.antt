-- ===== src/Engine/Callbacks.antt =====
-- The callbacks of the engine's timers and goroutines: retryFetch, onDeadline and onHealthPoll.
use cpa_plugin_reset_priorit.Times.{zero_time, is_zero, after}
use cpa_plugin_reset_priorit.Config.{manages}
use cpa_plugin_reset_priorit.Health.{AuthEntry, quarantine_reason_for}
use cpa_plugin_reset_priorit.Providers.{ok, err}
use cpa_plugin_reset_priorit.Host.{Host, get_runtime}
use cpa_plugin_reset_priorit.Engine.{
  Engine, Account, Task, retry_fetch, on_deadline, on_health_poll, reconcile, is_quarantined,
  is_recovering, is_awaiting, find,
}
use cpa_plugin_reset_priorit.Engine.Work.{release_work}
use cpa_plugin_reset_priorit.Engine.Schedule.{schedule_health_poll}
use cpa_plugin_reset_priorit.Engine.Sys.{Sys, calling, with_engine}
use cpa_plugin_reset_priorit.Engine.Flush.{flush, flush_after_fetch}
use cpa_plugin_reset_priorit.Engine.Fetch.{fetch_one_internal}
use cpa_plugin_reset_priorit.Engine.Reconcile
use cpa_plugin_reset_priorit.Base.{
  ◌==◌, if◌then◌else◌, Str, str_eq, is_empty, ℕ, Bool, true, false, not, ◌&&◌, ◌||◌, none, some,
  List, [], ◌∷◌,
}

unfoldable pub retry_needed : ℕ → Engine → Account → Bool
unfolding manages
retry_needed seq e a =
    not e.stopped
    && manages e.cfg a.provider
    && seq == a.retry_seq
    && (is_recovering a.health || is_awaiting a.reset_state)

unfoldable pub retry_still_needed : Str → ℕ → Engine → Bool
unfolding retry_needed find
retry_still_needed idx seq e = elim (find idx e.accounts) [
  | none ↦ false
  | some a ↦ retry_needed seq e a
]

-- `retryFetch`
unfoldable pub run_retry : Host → Str → ℕ → Sys → Sys
unfolding retry_still_needed flush fetch_one_internal flush_after_fetch
run_retry h idx seq s =
    let s1 = flush h s in
    if not (retry_still_needed idx seq s.engine)
    then s
    else if not (retry_still_needed idx seq s1.engine)
    then s1
    else flush_after_fetch h (fetch_one_internal h false (some seq) idx s1)

-- `onDeadline`
unfoldable pub run_deadline : Host → ℕ → Sys → Sys
unfolding flush
run_deadline h seq s =
    if s.engine.stopped || not (seq == s.engine.deadline_seq)
    then s
    else flush h
        (with_engine (record s.engine { next_deadline_at = zero_time; deadline_timer = none }) s)

-- Whether the answer of host.auth.get_runtime shows a change of the account's health.
unfoldable pub probe_changed : Account → AuthEntry → Bool
unfolding quarantine_reason_for
probe_changed a entry =
    let (bad, reason) = quarantine_reason_for entry in
    let written = a.quarantine_sentinel_written_at in
    if not (is_empty entry.auth_index) && not (str_eq entry.auth_index a.auth_index)
    then false
    else if is_quarantined a.health
        && not bad
        && not (is_zero written)
        && not (after entry.last_refresh written)
        && not (after entry.mod_time written)
    then false
    else if is_quarantined a.health
    then not bad
    else bad

-- The probes, up to the first that shows a change.
unfoldable pub probe_all : Host → List Account → Sys → Bool × Sys
unfolding probe_changed
probe_all h [] s = (false, s)
probe_all h (a ∷ rest) s =
    let skipped = probe_all h rest s in
    let s' = calling (get_runtime a.auth_index) s in
    let next = probe_all h rest s' in
    if not (is_quarantined a.health || is_recovering a.health)
    then skipped
    else elim (h.auth_get_runtime s.trace a.auth_index) [
      | err _ ↦ next
      | ok entry ↦ if probe_changed a entry then (true, s') else next
    ]

-- `onHealthPoll`
unfoldable pub run_health_poll : Host → ℕ → Sys → Sys
unfolding probe_all schedule_health_poll
run_health_poll h seq s =
    let s1 = with_engine (record s.engine { health_poll_timer = none }) s in
    let (changed, s2) = probe_all h s.engine.accounts s1 in
    if s.engine.stopped || not (seq == s.engine.health_poll_seq)
    then s
    else if changed
    then (Reconcile.reconcile h s2).1
    else if not s2.engine.stopped && seq == s2.engine.health_poll_seq
    then with_engine (schedule_health_poll s2.engine) s2
    else s2

-- The closure of a task.
unfoldable pub run_closure : Host → Task → Sys → Sys
unfolding run_retry run_deadline run_health_poll
run_closure h (retry_fetch idx seq) s = run_retry h idx seq s
run_closure h (on_deadline seq) s = run_deadline h seq s
run_closure h (on_health_poll seq) s = run_health_poll h seq s
run_closure h reconcile s = (Reconcile.reconcile h s).1

-- A fired timer or a goroutine: its closure, and the release of its work.
unfoldable pub run_task : Host → Task → Sys → Sys
unfolding run_closure release_work
run_task h task s = let s' = run_closure h task s in with_engine (release_work s'.engine) s'
