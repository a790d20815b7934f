-- ===== src/Engine/Counts.antt =====
-- A flush before the fetches never raises the number of known resets.
use cpa_plugin_reset_priorit.Times.{Time, Duration, zero_time, is_zero}
use cpa_plugin_reset_priorit.Host.{Host}
use cpa_plugin_reset_priorit.Engine.{Engine, Account, TimerHandle, tracked, inactive, Task}
use cpa_plugin_reset_priorit.Engine.Work.{reserve_work, stop_option, stop_timer, after_func}
use cpa_plugin_reset_priorit.Engine.Publish.{publish_status}
use cpa_plugin_reset_priorit.Engine.Schedule.{
  RetrySchedule, earliest_reset, is_armed, reschedule_deadline,
}
use cpa_plugin_reset_priorit.Engine.Sys.{Sys, now_of}
use cpa_plugin_reset_priorit.Engine.Flush.{
  no_retry, known_count, prepare, finish, write_out, demote_again, flush_loop, flush_internal,
  flush_before_reconcile,
}
use cpa_plugin_reset_priorit.Engine.Ends.{known_count-write_out, known_count-demote}
use cpa_plugin_reset_priorit.Base.{
  ◌==◌, if◌then◌else◌, ℕ, zero, suc, ◌≤◌, ◌≡◌, refl, ◌∙◌, Bool, true, false, ◌&&◌, Option, none,
  some, List, [], ◌++◌, arith,
}

after_func-accounts :
    (delay : Duration) (task : Task) (e : Engine)
    → (after_func delay task e).0.accounts ≡ e.accounts
unfolding after_func reserve_work
after_func-accounts delay task e = ground arith

stop_option-accounts :
    (o : Option TimerHandle) (e : Engine) → (stop_option o e).accounts ≡ e.accounts
unfolding stop_option stop_timer
stop_option-accounts none e = refl
stop_option-accounts (some inactive) e = refl
stop_option-accounts (some (tracked n)) e = ground arith

if-accounts :
    (b : Bool) {l : List Account} (x y : Engine)
    → x.accounts ≡ l
    → y.accounts ≡ l
    → (if b then x else y).accounts ≡ l
if-accounts true x y p q = p
if-accounts false x y p q = q

reschedule_deadline-accounts :
    (now : Time) (e : Engine) → (reschedule_deadline now e).accounts ≡ e.accounts
unfolding reschedule_deadline
reschedule_deadline-accounts now e =
    let earliest = earliest_reset now e.accounts zero_time in
    let stopped = stop_option-accounts e.deadline_timer e in
    if-accounts (is_zero earliest) _ _ (if-accounts (is_armed e.deadline_timer) _ _ stopped refl) (
      if-accounts (is_armed e.deadline_timer && earliest == e.next_deadline_at) _ _ refl
        (after_func-accounts _ _ (stop_option e.deadline_timer e) ∙ stopped))

finish-accounts :
    (now : Time) (retries : List RetrySchedule) (e : Engine)
    → (finish no_retry now retries e).accounts ≡ e.accounts
unfolding finish publish_status
finish-accounts now retries e = reschedule_deadline-accounts now e

if-Shrinks :
    (b : Bool) (n : ℕ) (x y : Sys × Bool)
    → known_count x.0.engine.accounts ≤ n
    → known_count y.0.engine.accounts ≤ n
    → known_count (if b then x else y).0.engine.accounts ≤ n
if-Shrinks true n x y p q = p
if-Shrinks false n x y p q = q

known_count-demote_again :
    (h : Host) (s : Sys)
    → known_count (demote_again h s).0.engine.accounts ≤ known_count s.engine.accounts
unfolding demote_again
known_count-demote_again h s = known_count-demote (now_of h s) s.engine.accounts

known_count-flush_loop :
    (h : Host) (fuel : ℕ) (retries : List RetrySchedule) (s : Sys)
    → known_count (flush_loop h no_retry fuel retries s).0.engine.accounts
      ≤ known_count s.engine.accounts
unfolding flush_loop
known_count-flush_loop h zero retries s = omega arith
known_count-flush_loop h (suc fuel) retries s =
    let n = known_count s.engine.accounts in
    let wanted = retries ++ (prepare no_retry (now_of h s) s.engine).1 in
    let s1 = write_out h no_retry s in
    let s2 = (demote_again h s1).0 in
    let below : known_count s1.engine.accounts ≤ n = known_count-write_out h no_retry s in
    let below' : known_count s2.engine.accounts ≤ n =
      omega (arith, known_count-demote_again h s1) in
    if-Shrinks s.engine.stopped n _ _ (omega arith) (
      if-Shrinks s1.engine.stopped n _ _ below (
        if-Shrinks (demote_again h s1).1 n _ _
          (let k = known_count-flush_loop h fuel wanted s2 in omega arith)
          (rw (finish-accounts (now_of h s1) wanted s2.engine) below')))

pub known_count-flush :
    (h : Host) (s : Sys)
    → known_count (flush_before_reconcile h s).engine.accounts ≤ known_count s.engine.accounts
unfolding flush_before_reconcile flush_internal
known_count-flush h s = known_count-flush_loop h (suc (known_count s.engine.accounts)) [] s
