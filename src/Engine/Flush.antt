-- ===== src/Engine/Flush.antt =====
-- flushInternal of engine.go: demote, recompute, write, and only then arm the retries.
use cpa_plugin_reset_priorit.Times.{Time}
use cpa_plugin_reset_priorit.Host.{Host}
use cpa_plugin_reset_priorit.Engine.{Engine, Account, is_known}
use cpa_plugin_reset_priorit.Engine.Accounts.{demote_expired}
use cpa_plugin_reset_priorit.Engine.Publish.{publish_status}
use cpa_plugin_reset_priorit.Engine.Desired.{recompute_desired}
use cpa_plugin_reset_priorit.Engine.Schedule.{
  RetrySchedule, collect_awaiting, arm_awaiting, reschedule_deadline,
}
use cpa_plugin_reset_priorit.Engine.Sys.{Sys, with_engine, now_of, tick}
use cpa_plugin_reset_priorit.Engine.Plan.{write_plan}
use cpa_plugin_reset_priorit.Engine.Write.{perform_writes}
use cpa_plugin_reset_priorit.Base.{
  if◌then◌else◌, countp, ℕ, zero, suc, Bool, true, false, List, [], ◌++◌,
}

pub data RetryMode : Type 0 where
  no_retry immediate delayed : RetryMode

-- How often the engine can still demote an account.
abbrev pub known_count : List Account → ℕ
known_count = countp (λ a. is_known a.reset_state)

-- The first critical section: the demoted and ranked engine, and the retries that are wanted.
unfoldable pub prepare : RetryMode → Time → Engine → Engine × List RetrySchedule
unfolding demote_expired recompute_desired collect_awaiting
prepare mode now e =
    let e1 = recompute_desired now (record e { accounts = (demote_expired now e.accounts).0 }) in
    elim mode [
      | no_retry ↦ (e1, [])
      | immediate ↦ (
        record e1 { accounts = (collect_awaiting e1.accounts).0 },
        (collect_awaiting e1.accounts).1,
      )
      | delayed ↦ (
        record e1 { accounts = (collect_awaiting e1.accounts).0 },
        (collect_awaiting e1.accounts).1,
      )
    ]

-- The last critical section, where no deadline was crossed meanwhile.
unfoldable pub finish : RetryMode → Time → List RetrySchedule → Engine → Engine
unfolding arm_awaiting reschedule_deadline publish_status
finish mode now retries e = publish_status now (
    reschedule_deadline now (elim mode [
      | no_retry ↦ e
      | immediate ↦ arm_awaiting true retries e
      | delayed ↦ arm_awaiting false retries e
    ]))

-- The first half of a round: the plan is that of the prepared engine, and is carried out. The plan is
-- made before the retries are collected, which leave it alone.
unfoldable pub write_out : Host → RetryMode → Sys → Sys
unfolding prepare write_plan perform_writes
write_out h mode s =
    let e = (prepare mode (now_of h s) s.engine).0 in
    perform_writes h (write_plan e) (with_engine e (tick s))

-- Deadlines that were crossed while the writes were in progress.
unfoldable pub demote_again : Host → Sys → Sys × Bool
unfolding demote_expired
demote_again h s =
    let (accounts, crossed) = demote_expired (now_of h s) s.engine.accounts in
    (with_engine (record s.engine { accounts = accounts }) (tick s), crossed)

-- The loop on fuel, and whether it came to its end.
unfoldable pub flush_loop : Host → RetryMode → ℕ → List RetrySchedule → Sys → Sys × Bool
unfolding prepare finish write_out demote_again
flush_loop h mode zero retries s = (s, false)
flush_loop h mode (suc fuel) retries s =
    let wanted = retries ++ (prepare mode (now_of h s) s.engine).1 in
    let s1 = write_out h mode s in
    let (s2, crossed) = demote_again h s1 in
    let again = flush_loop h mode fuel wanted s2 in
    if s.engine.stopped
    then (s, true)
    else if s1.engine.stopped
    then (s1, true)
    else if crossed
    then again
    else (with_engine (finish mode (now_of h s1) wanted s2.engine) s2, true)

unfoldable pub flush_internal : Host → RetryMode → Sys → Sys
unfolding flush_loop
flush_internal h mode s = (flush_loop h mode (suc (known_count s.engine.accounts)) [] s).0

-- flush, flushBeforeReconcile and flushAfterFetch
unfoldable pub flush : Host → Sys → Sys
unfolding flush_internal
flush h = flush_internal h immediate

unfoldable pub flush_before_reconcile : Host → Sys → Sys
unfolding flush_internal
flush_before_reconcile h = flush_internal h no_retry

unfoldable pub flush_after_fetch : Host → Sys → Sys
unfolding flush_internal
flush_after_fetch h = flush_internal h delayed
