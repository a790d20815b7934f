-- ===== src/Engine/DryRun.antt =====
-- Reconciles and callbacks: none changes the configuration, and in dry-run none saves anything.
use cpa_plugin_reset_priorit.Health.{AuthEntry}
use cpa_plugin_reset_priorit.Host.{Host, get_auth, list_auths, log_line, read_clock}
use cpa_plugin_reset_priorit.Providers.{Result, err, ok}
use cpa_plugin_reset_priorit.Engine.{Account, Engine, find}
use cpa_plugin_reset_priorit.Engine.Setup.{
  SameSetup, SameSetup-refl, SameSetup-trans, accounts-SameSetup, publish_status-SameSetup,
  schedule_health_poll-SameSetup, schedule_next_reconcile-SameSetup,
  schedule_recovery_retries-SameSetup,
}
use cpa_plugin_reset_priorit.Engine.Passes.{
  apply_roster-SameSetup, prune_unmanaged-SameSetup, release_fetches-SameSetup,
  replace_reservations-SameSetup, reserve_fetches-SameSetup,
}
use cpa_plugin_reset_priorit.Engine.Work.{release_work, reserve_work}
use cpa_plugin_reset_priorit.Engine.Accounts.{demote_expired}
use cpa_plugin_reset_priorit.Engine.Roster.{apply_roster}
use cpa_plugin_reset_priorit.Sanitize.{message}
use cpa_plugin_reset_priorit.Engine.Sys.{Sys, calling, log, now_of, tick, with_engine}
use cpa_plugin_reset_priorit.Engine.Flush.{
  delayed, flush, flush_after_fetch, flush_before_reconcile, immediate,
}
use cpa_plugin_reset_priorit.Engine.Fetch.{fetch_all}
use cpa_plugin_reset_priorit.Engine.Reserve.{
  fetch_targets, prune_unmanaged, release_fetches, replace_reservations, reserve_fetches,
}
use cpa_plugin_reset_priorit.Engine.Touch.{Result-cases}
use cpa_plugin_reset_priorit.Engine.Quiet.{
  Quiet, Quiet-refl, Quiet-trans, call-Quiet, engine-Quiet, flush_internal-Quiet, if-Quiet,
  tick-Quiet,
}
use cpa_plugin_reset_priorit.Engine.Silence.{fetch_all-Quiet, flush_before_reconcile-Quiet}
use cpa_plugin_reset_priorit.Engine.Reconcile
use cpa_plugin_reset_priorit.Engine.Reconcile.{
  ReconcileResult, conclude, defer_roster, failed, fetch_roster, no_op, read_roster, reconcile_pass,
  success, take_roster, with_roster,
}
use cpa_plugin_reset_priorit.Engine.Validate.{
  Candidate, Verdict, accept, candidates, defer, is_ambiguous, is_present, judge, skip,
  validate_candidates, validate_roster,
}
use cpa_plugin_reset_priorit.Base.{
  if◌then◌else◌, Str, ◌≡◌, refl, ◌⊎◌, inl, inr, Bool, true, false, not, List, [], ◌∷◌, arith,
}

pub flush-Quiet : (h : Host) (s : Sys) → Quiet s (flush h s)
unfolding flush
flush-Quiet h s = flush_internal-Quiet h immediate s

pub flush_after_fetch-Quiet : (h : Host) (s : Sys) → Quiet s (flush_after_fetch h s)
unfolding flush_after_fetch
flush_after_fetch-Quiet h s = flush_internal-Quiet h delayed s

Verdict-cases : (v : Verdict) → (v ≡ accept) ⊎ (v ≡ skip) ⊎ ((t : Str) × (v ≡ defer t))
Verdict-cases accept = inl refl
Verdict-cases skip = inr (inl refl)
Verdict-cases (defer t) = inr (inr (t, refl))

pub if-Quiet_answer :
    {A : Type 0} {s : Sys} (b : Bool) (x y : A × Sys)
    → Quiet s x.1
    → Quiet s y.1
    → Quiet s (if b then x else y).1
if-Quiet_answer true x y p q = p
if-Quiet_answer false x y p q = q

validate_candidates-Quiet :
    (h : Host) (known : List Account) (all rest : List Candidate) (s : Sys)
    → Quiet s (validate_candidates h known all rest s).1
unfolding validate_candidates
validate_candidates-Quiet h known all [] s = Quiet-refl s
validate_candidates-Quiet h known all (c ∷ rest) s =
    let idx = c.entry.auth_index in
    let called = call-Quiet s (get_auth idx) refl in
    let s' = calling (get_auth idx) s in
    if-Quiet_answer (is_ambiguous all c) _ _
      (Quiet-trans (call-Quiet s log_line refl)
        (validate_candidates-Quiet h known all rest (log s)))
      (elim (Verdict-cases (judge h (is_present (find idx known)) c (h.auth_get s.trace idx))) [
        | inl v ↦ rw v (Quiet-trans called (validate_candidates-Quiet h known all rest s'))
        | inr (inl v) ↦ rw v (
            Quiet-trans called (
              Quiet-trans (call-Quiet s' _ refl)
                (validate_candidates-Quiet h known all rest (log s'))))
        | inr (inr (t, v)) ↦ rw v called
      ])

pub read_roster-Quiet : (h : Host) (s : Sys) → Quiet s (read_roster h s).1
unfolding read_roster validate_roster
read_roster-Quiet h s = elim (Result-cases (h.auth_list s.trace)) [
  | inl (entries, g) ↦
      rw (g, read_roster)
        (Quiet-trans (call-Quiet s list_auths refl)
          (validate_candidates-Quiet h s.engine.accounts (candidates s.engine.cfg entries) _ _))
  | inr (t, g) ↦ rw (g, read_roster) (call-Quiet s list_auths refl)
]

pub conclude-Quiet :
    (h : Host) (result : ReconcileResult) (s : Sys) → Quiet s (conclude h result s).1
unfolding conclude
conclude-Quiet h result s =
    let s' = tick s in
    if-Quiet_answer s.engine.stopped _ _ (Quiet-refl s) (
      Quiet-trans (call-Quiet s _ refl) (
        Quiet-trans
          (engine-Quiet s' _ (
            SameSetup-trans (schedule_recovery_retries-SameSetup s.engine) (
              SameSetup-trans (schedule_next_reconcile-SameSetup (now_of h s) _) (
                SameSetup-trans (schedule_health_poll-SameSetup _)
                  (publish_status-SameSetup (now_of h s') _)))))
          (call-Quiet _ read_clock refl)))

pub release-Quiet :
    (reserved : List Str) (s : Sys) → Quiet s (with_engine (release_fetches reserved s.engine) s)
release-Quiet reserved s = engine-Quiet s _ (release_fetches-SameSetup reserved s.engine)

same_fields-SameSetup :
    (e : Engine) (text : Str) → SameSetup e (record e { last_roster_error = text })
same_fields-SameSetup e text = record {
  cfg = refl;
  config_seq = refl;
  stopped = refl;
  terminal = refl;
}

defer_roster-Quiet :
    (h : Host) (reserved : List Str) (text : Str) (s : Sys)
    → Quiet s (defer_roster h reserved text s).1
unfolding defer_roster
defer_roster-Quiet h reserved text s =
    let s0 = with_engine (record s.engine { last_roster_error = message text }) s in
    let s' = log s0 in
    if-Quiet_answer s.engine.stopped _ _ (release-Quiet reserved s) (
      Quiet-trans (engine-Quiet s _ (same_fields-SameSetup s.engine (message text))) (
        Quiet-trans (call-Quiet s0 log_line refl) (
          Quiet-trans (release-Quiet reserved s')
            (Quiet-trans (flush-Quiet h _) (conclude-Quiet h failed _)))))

if-Quiet_roster :
    {A B : Type 0} {s : Sys} (b : Bool) (x y : Sys × A × B)
    → Quiet s x.0
    → Quiet s y.0
    → Quiet s (if b then x else y).0
if-Quiet_roster true x y p q = p
if-Quiet_roster false x y p q = q

take_roster-Quiet :
    (h : Host) (validated : List AuthEntry) (s : Sys) → Quiet s (take_roster h validated s).0
unfolding take_roster
take_roster-Quiet h validated s =
    let e0 = record s.engine { last_roster_error = [] } in
    let r = apply_roster validated (now_of h s) e0 in
    let s' = tick (with_engine (replace_reservations r.targets r.engine) s) in
    let applied : Quiet s s' = tick-Quiet s (replace_reservations r.targets r.engine) (
      SameSetup-trans (same_fields-SameSetup s.engine []) (
        SameSetup-trans (apply_roster-SameSetup validated (now_of h s) e0)
          (replace_reservations-SameSetup r.targets r.engine))) in
    if-Quiet_roster r.needs_flush _ _ applied (
      Quiet-trans applied (
        tick-Quiet s' _ (
          accounts-SameSetup (demote_expired (now_of h s') s'.engine.accounts).0
            (SameSetup-refl s'.engine))))

fetch_roster-Quiet :
    (h : Host) (validated : List AuthEntry) (reserved : List Str) (s : Sys)
    → Quiet s (fetch_roster h validated reserved s).1
unfolding fetch_roster
fetch_roster-Quiet h validated reserved s =
    let t = take_roster h validated s in
    let s2 = if t.2 then flush_before_reconcile h t.0 else t.0 in
    let s3 = fetch_all h t.1 s2 in
    let p2 : Quiet t.0 s2 =
      if-Quiet t.2 _ _ (flush_before_reconcile-Quiet h t.0) (Quiet-refl t.0) in
    if-Quiet_answer s.engine.stopped _ _ (release-Quiet reserved s) (
      Quiet-trans (take_roster-Quiet h validated s) (
        Quiet-trans p2 (
          Quiet-trans (fetch_all-Quiet h t.1 s2) (
            Quiet-trans (release-Quiet t.1 s3)
              (Quiet-trans (flush_after_fetch-Quiet h _) (conclude-Quiet h success _))))))

with_roster-Quiet :
    (h : Host) (reserved : List Str) (r : Result (List AuthEntry) × Sys)
    → Quiet r.1 (with_roster h reserved r).1
unfolding with_roster
with_roster-Quiet h reserved (ok validated, s) = fetch_roster-Quiet h validated reserved s
with_roster-Quiet h reserved (err text, s) = defer_roster-Quiet h reserved text s

reconcile_pass-Quiet : (h : Host) (s : Sys) → Quiet s (reconcile_pass h s).1
unfolding reconcile_pass
reconcile_pass-Quiet h s =
    let reserved = fetch_targets s.engine in
    let e1 = prune_unmanaged (reserve_fetches reserved s.engine) in
    let s1 = with_engine e1 s in
    let s2 = flush_before_reconcile h s1 in
    if-Quiet_answer s.engine.stopped _ _ (Quiet-refl s) (
      Quiet-trans
        (engine-Quiet s e1 (
          SameSetup-trans (reserve_fetches-SameSetup reserved s.engine)
            (prune_unmanaged-SameSetup (reserve_fetches reserved s.engine))))
        (Quiet-trans (flush_before_reconcile-Quiet h s1)
          (Quiet-trans (read_roster-Quiet h s2) (with_roster-Quiet h reserved (read_roster h s2)))))

pub release_work-SameSetup : (e : Engine) → SameSetup e (release_work e)
unfolding release_work
release_work-SameSetup e = record { cfg = refl; config_seq = refl; stopped = refl; terminal = refl }

reserve_work-SameSetup : (e : Engine) → SameSetup e (reserve_work e).0
unfolding reserve_work
reserve_work-SameSetup e = ground arith

pub reconcile-Quiet : (h : Host) (s : Sys) → Quiet s (Reconcile.reconcile h s).1
unfolding Reconcile.reconcile
reconcile-Quiet h s =
    let s0 = with_engine (reserve_work s.engine).0 s in
    let s' = (reconcile_pass h s0).1 in
    if-Quiet_answer (not (reserve_work s.engine).1) _ _ (Quiet-refl s) (
      Quiet-trans (engine-Quiet s _ (reserve_work-SameSetup s.engine)) (
        Quiet-trans (reconcile_pass-Quiet h s0)
          (engine-Quiet s' _ (release_work-SameSetup s'.engine))))
