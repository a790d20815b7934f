-- ===== src/Engine/Tasks.antt =====
-- Every task of the engine as a whole: its configuration is kept, and in dry-run nothing is saved.
use cpa_plugin_reset_priorit.Times.{zero_time}
use cpa_plugin_reset_priorit.Host.{Host, get_runtime}
use cpa_plugin_reset_priorit.Engine.{
  Account, is_quarantined, is_recovering, Task, retry_fetch, on_deadline, on_health_poll, reconcile,
}
use cpa_plugin_reset_priorit.Engine.Setup.{SameSetup, schedule_health_poll-SameSetup}
use cpa_plugin_reset_priorit.Engine.Sys.{Sys, with_engine}
use cpa_plugin_reset_priorit.Engine.Flush.{flush}
use cpa_plugin_reset_priorit.Engine.Touch.{Result-cases}
use cpa_plugin_reset_priorit.Engine.Saves.{saves}
use cpa_plugin_reset_priorit.Engine.Quiet.{
  Quiet, Quiet-refl, Quiet-trans, if-Quiet, engine-Quiet, call-Quiet,
}
use cpa_plugin_reset_priorit.Engine.Silence.{fetch_one_internal-Quiet}
use cpa_plugin_reset_priorit.Engine.DryRun.{
  reconcile-Quiet, release_work-SameSetup, flush-Quiet, flush_after_fetch-Quiet, if-Quiet_answer,
}
use cpa_plugin_reset_priorit.Engine.Callbacks.{
  retry_still_needed, run_retry, run_deadline, probe_changed, probe_all, run_health_poll,
  run_closure, run_task,
}
use cpa_plugin_reset_priorit.Base.{
  ◌==◌, Str, ℕ, ◌≡◌, refl, inl, inr, true, false, not, ◌&&◌, ◌||◌, none, some, List, [], ◌∷◌,
}

run_retry-Quiet : (h : Host) (idx : Str) (seq : ℕ) (s : Sys) → Quiet s (run_retry h idx seq s)
unfolding run_retry
run_retry-Quiet h idx seq s =
    let s1 = flush h s in
    if-Quiet (not (retry_still_needed idx seq s.engine)) _ _ (Quiet-refl s) (
      if-Quiet (not (retry_still_needed idx seq s1.engine)) _ _ (flush-Quiet h s) (
        Quiet-trans (flush-Quiet h s) (
          Quiet-trans (fetch_one_internal-Quiet h false (some seq) idx s1)
            (flush_after_fetch-Quiet h _))))

run_deadline-Quiet : (h : Host) (seq : ℕ) (s : Sys) → Quiet s (run_deadline h seq s)
unfolding run_deadline
run_deadline-Quiet h seq s =
    let e = record s.engine { next_deadline_at = zero_time; deadline_timer = none } in
    if-Quiet (s.engine.stopped || not (seq == s.engine.deadline_seq)) _ _ (Quiet-refl s) (
      Quiet-trans
        (engine-Quiet s e
          (record { cfg = refl; config_seq = refl; stopped = refl; terminal = refl }))
        (flush-Quiet h _))

probe_all-Quiet : (h : Host) (l : List Account) (s : Sys) → Quiet s (probe_all h l s).1
unfolding probe_all
probe_all-Quiet h [] s = Quiet-refl s
probe_all-Quiet h (a ∷ rest) s =
    let called = call-Quiet s (get_runtime a.auth_index) refl in
    let next = Quiet-trans called (probe_all-Quiet h rest _) in
    if-Quiet_answer (not (is_quarantined a.health || is_recovering a.health)) _ _
      (probe_all-Quiet h rest s)
      (elim (Result-cases (h.auth_get_runtime s.trace a.auth_index)) [
        | inr (t, g) ↦ rw g next
        | inl (entry, g) ↦ rw g (if-Quiet_answer (probe_changed a entry) _ _ called next)
      ])

run_health_poll-Quiet : (h : Host) (seq : ℕ) (s : Sys) → Quiet s (run_health_poll h seq s)
unfolding run_health_poll
run_health_poll-Quiet h seq s =
    let e1 = record s.engine { health_poll_timer = none } in
    let s1 = with_engine e1 s in
    let probed = probe_all h s.engine.accounts s1 in
    let s2 = probed.1 in
    let p1 : Quiet s s1 =
      engine-Quiet s e1
        (record { cfg = refl; config_seq = refl; stopped = refl; terminal = refl }) in
    let p2 : Quiet s s2 = Quiet-trans p1 (probe_all-Quiet h s.engine.accounts s1) in
    if-Quiet (s.engine.stopped || not (seq == s.engine.health_poll_seq)) _ _ (Quiet-refl s) (
      if-Quiet probed.0 _ _ (Quiet-trans p2 (reconcile-Quiet h s2)) (
        if-Quiet (not s2.engine.stopped && seq == s2.engine.health_poll_seq) _ _
          (Quiet-trans p2 (engine-Quiet s2 _ (schedule_health_poll-SameSetup s2.engine))) p2))

run_closure-Quiet : (h : Host) (task : Task) (s : Sys) → Quiet s (run_closure h task s)
unfolding run_closure
run_closure-Quiet h (retry_fetch idx seq) s = run_retry-Quiet h idx seq s
run_closure-Quiet h (on_deadline seq) s = run_deadline-Quiet h seq s
run_closure-Quiet h (on_health_poll seq) s = run_health_poll-Quiet h seq s
run_closure-Quiet h reconcile s = reconcile-Quiet h s

run_task-Quiet : (h : Host) (task : Task) (s : Sys) → Quiet s (run_task h task s)
unfolding run_task
run_task-Quiet h task s =
    let s' = run_closure h task s in
    Quiet-trans (run_closure-Quiet h task s) (engine-Quiet s' _ (release_work-SameSetup s'.engine))

-- In dry-run no task of the engine saves anything: not the reconcile, not a retry, not the deadline
-- and not the health poll, whatever the host answers.
pub dry_run_saves_nothing :
    (h : Host) (task : Task) (s : Sys)
    → s.engine.cfg.dry_run ≡ true
    → saves (run_task h task s).trace ≡ saves s.trace
dry_run_saves_nothing h task s d = (run_task-Quiet h task s).silent d

-- No task changes the configuration, its generation, or the stopped and terminal marks.
pub run_task-SameSetup :
    (h : Host) (task : Task) (s : Sys) → SameSetup s.engine (run_task h task s).engine
run_task-SameSetup h task s = (run_task-Quiet h task s).setup
