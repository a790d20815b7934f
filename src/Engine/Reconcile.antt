-- ===== src/Engine/Reconcile.antt =====
-- Reconcile of engine.go: one full pass, from the roster to the timers. The passes of other
-- goroutines between its critical sections are not part of this function.
use cpa_plugin_reset_priorit.Sanitize.{message}
use cpa_plugin_reset_priorit.Health.{AuthEntry}
use cpa_plugin_reset_priorit.Providers.{Result, ok, err}
use cpa_plugin_reset_priorit.Host.{Host, list_auths}
use cpa_plugin_reset_priorit.Engine.Work.{reserve_work, release_work}
use cpa_plugin_reset_priorit.Engine.Accounts.{demote_expired}
use cpa_plugin_reset_priorit.Engine.Publish.{publish_status}
use cpa_plugin_reset_priorit.Engine.Schedule.{
  schedule_recovery_retries, schedule_next_reconcile, schedule_health_poll,
}
use cpa_plugin_reset_priorit.Engine.Sys.{Sys, calling, with_engine, now_of, tick, log}
use cpa_plugin_reset_priorit.Engine.Flush.{flush, flush_before_reconcile, flush_after_fetch}
use cpa_plugin_reset_priorit.Engine.Validate.{validate_roster}
use cpa_plugin_reset_priorit.Engine.Roster.{apply_roster}
use cpa_plugin_reset_priorit.Engine.Reserve.{
  prune_unmanaged, fetch_targets, reserve_fetches, replace_reservations, release_fetches,
}
use cpa_plugin_reset_priorit.Engine.Fetch.{fetch_all}
use cpa_plugin_reset_priorit.Base.{if◌then◌else◌, Str, Bool, true, not, List, []}

pub data ReconcileResult : Type 0 where
  success no_op failed : ReconcileResult

-- The last critical section.
unfoldable pub conclude : Host → ReconcileResult → Sys → ReconcileResult × Sys
unfolding schedule_recovery_retries schedule_next_reconcile schedule_health_poll publish_status
conclude h result s =
    if s.engine.stopped
    then (no_op, s)
    else (let s' = tick s in
        let e =
          schedule_health_poll
            (schedule_next_reconcile (now_of h s) (schedule_recovery_retries s.engine)) in
        (result, tick (with_engine (publish_status (now_of h s') e) s')))

-- The branch of a roster that could not be listed or validated.
unfoldable pub defer_roster : Host → List Str → Str → Sys → ReconcileResult × Sys
unfolding flush release_fetches conclude message
defer_roster h reserved text s =
    if s.engine.stopped
    then (no_op, with_engine (release_fetches reserved s.engine) s)
    else conclude h failed (
        flush h (
          let s' = log (with_engine (record s.engine { last_roster_error = message text }) s) in
          with_engine (release_fetches reserved s'.engine) s'))

-- The critical section that applies a validated roster: the result, the targets, and whether the
-- flush before the fetches is needed.
unfoldable pub take_roster : Host → List AuthEntry → Sys → Sys × List Str × Bool
unfolding apply_roster replace_reservations demote_expired
take_roster h validated s =
    let r = apply_roster validated (now_of h s) (record s.engine { last_roster_error = [] }) in
    let s' = tick (with_engine (replace_reservations r.targets r.engine) s) in
    let (accounts, expired) = demote_expired (now_of h s') s'.engine.accounts in
    -- `||` skips the second reading of the clock when recovery already needs the flush
    if r.needs_flush
    then (s', r.targets, true)
    else (tick (with_engine (record s'.engine { accounts = accounts }) s'), r.targets, expired)

unfoldable pub fetch_roster : Host → List AuthEntry → List Str → Sys → ReconcileResult × Sys
unfolding take_roster flush_before_reconcile flush_after_fetch fetch_all release_fetches conclude
fetch_roster h validated reserved s =
    if s.engine.stopped
    then (no_op, with_engine (release_fetches reserved s.engine) s)
    else (let (s1, targets, needed) = take_roster h validated s in
        let s2 = if needed then flush_before_reconcile h s1 else s1 in
        let s3 = fetch_all h targets s2 in
        let s4 = with_engine (release_fetches targets s3.engine) s3 in
        conclude h success (flush_after_fetch h s4))

unfoldable pub with_roster : Host → List Str → Result (List AuthEntry) × Sys → ReconcileResult × Sys
unfolding defer_roster fetch_roster
with_roster h reserved (ok validated, s) = fetch_roster h validated reserved s
with_roster h reserved (err text, s) = defer_roster h reserved text s

-- `host.auth.list` and the validation of its answer.
unfoldable pub read_roster : Host → Sys → Result (List AuthEntry) × Sys
unfolding validate_roster
read_roster h s =
    let s' = calling list_auths s in
    elim (h.auth_list s.trace) [
      | err text ↦ (err text, s')
      | ok entries ↦ validate_roster h entries s'
    ]

-- The pass of an engine that runs, its work already reserved.
unfoldable pub reconcile_pass : Host → Sys → ReconcileResult × Sys
unfolding reserve_fetches fetch_targets prune_unmanaged flush_before_reconcile read_roster
    with_roster
reconcile_pass h s =
    if s.engine.stopped
    then (no_op, s)
    else (let reserved = fetch_targets s.engine in
        let s1 = with_engine (prune_unmanaged (reserve_fetches reserved s.engine)) s in
        with_roster h reserved (read_roster h (flush_before_reconcile h s1)))

unfoldable pub reconcile : Host → Sys → ReconcileResult × Sys
unfolding reserve_work release_work reconcile_pass
reconcile h s =
    let (e, admitted) = reserve_work s.engine in
    let (result, s') = reconcile_pass h (with_engine e s) in
    if not admitted then (no_op, s) else (result, with_engine (release_work s'.engine) s')
