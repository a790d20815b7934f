-- ===== src/Engine/Quiet.antt =====
-- Steps that keep the configuration and, in dry-run, save nothing: writes, flushes and fetches.
use cpa_plugin_reset_priorit.Times.{Time}
use cpa_plugin_reset_priorit.Host.{Host, Call, is_save}
use cpa_plugin_reset_priorit.Engine.{Engine, Account}
use cpa_plugin_reset_priorit.Engine.Setup.{
  SameSetup, SameSetup-refl, SameSetup-trans, accounts-SameSetup, publish_status-SameSetup,
  recompute_desired-SameSetup, reschedule_deadline-SameSetup, arm_awaiting-SameSetup,
}
use cpa_plugin_reset_priorit.Engine.Sys.{Sys, calling, with_engine, now_of, tick, account_of}
use cpa_plugin_reset_priorit.Engine.Plan.{WriteItem, write_plan, item_live}
use cpa_plugin_reset_priorit.Engine.Write.{perform_item, perform_found, perform_writes}
use cpa_plugin_reset_priorit.Engine.Touch.{Writes, here, touch, perform_writes-Writes}
use cpa_plugin_reset_priorit.Engine.Saves.{saves}
use cpa_plugin_reset_priorit.Engine.Schedule.{RetrySchedule}
use cpa_plugin_reset_priorit.Engine.Flush.{
  RetryMode, no_retry, immediate, delayed, prepare, finish, write_out, demote_again, flush_loop,
  flush_internal, known_count,
}
use cpa_plugin_reset_priorit.Engine.Accounts.{demote_expired}
use cpa_plugin_reset_priorit.Engine.Desired.{recompute_desired}
use cpa_plugin_reset_priorit.Engine.Sys.{tick}
use cpa_plugin_reset_priorit.Engine.Plan.{write_plan}
use cpa_plugin_reset_priorit.Base.{
  if◌then◌else◌, Bool-cases, ℕ, zero, suc, ◌≡◌, refl, ap, ◌∙◌, inl, inr, Bool, true, false, Option,
  none, some, List, [], ◌∷◌, ◌++◌, arith,
}

pub record Quiet (s s' : Sys) : Type 0 where
  pub setup : SameSetup s.engine s'.engine
  pub silent : s.engine.cfg.dry_run ≡ true → saves s'.trace ≡ saves s.trace

pub Quiet-refl : (s : Sys) → Quiet s s
Quiet-refl s = record { setup = SameSetup-refl s.engine; silent = λ d. refl }

pub Quiet-trans : {s s' s'' : Sys} → Quiet s s' → Quiet s' s'' → Quiet s s''
Quiet-trans p q = record {
  setup = SameSetup-trans p.setup q.setup;
  silent = λ d. q.silent (ap (λ c. c.dry_run) p.setup.cfg ∙ d) ∙ p.silent d;
}

pub if-Quiet :
    {s : Sys} (b : Bool) (x y : Sys) → Quiet s x → Quiet s y → Quiet s (if b then x else y)
if-Quiet true x y p q = p
if-Quiet false x y p q = q

-- The engine changes, and calls that save nothing are made.
pub engine-Quiet : (s : Sys) (e : Engine) → SameSetup s.engine e → Quiet s (with_engine e s)
engine-Quiet s e p = record { setup = p; silent = λ d. refl }

pub call-Quiet : (s : Sys) (c : Call) → is_save c ≡ false → Quiet s (calling c s)
call-Quiet s c n = record { setup = SameSetup-refl s.engine; silent = λ d. rw n (omega arith) }

pub tick-Quiet : (s : Sys) (e : Engine) → SameSetup s.engine e → Quiet s (with_engine e (tick s))
tick-Quiet s e p = record { setup = p; silent = λ d. omega arith }

Writes-SameSetup : {e e' : Engine} → Writes e e' → SameSetup e e'
Writes-SameSetup {e} here = SameSetup-refl e
Writes-SameSetup (touch idx w f t) = accounts-SameSetup _ (Writes-SameSetup w)

perform_item-silent :
    (h : Host) (item : WriteItem) (a : Account) (s : Sys)
    → s.engine.cfg.dry_run ≡ true
    → (saves (perform_item h item a s).trace ≡ saves s.trace)
      × ((perform_item h item a s).engine ≡ s.engine)
unfolding perform_item
perform_item-silent h item a s d = elim (Bool-cases (item_live s.engine item a)) [
  | inl l ↦ rw l (rw d (omega arith, refl))
  | inr l ↦ rw l (refl, refl)
]

perform_found-silent :
    (h : Host) (item : WriteItem) (o : Option Account) (s : Sys)
    → s.engine.cfg.dry_run ≡ true
    → (saves (perform_found h item o s).trace ≡ saves s.trace)
      × ((perform_found h item o s).engine ≡ s.engine)
unfolding perform_found
perform_found-silent h item none s d = (refl, refl)
perform_found-silent h item (some a) s d = perform_item-silent h item a s d

-- In dry-run performWrites only logs: no save is made and the engine stays as it is.
pub perform_writes-silent :
    (h : Host) (plan : List WriteItem) (s : Sys)
    → s.engine.cfg.dry_run ≡ true
    → (saves (perform_writes h plan s).trace ≡ saves s.trace)
      × ((perform_writes h plan s).engine ≡ s.engine)
unfolding perform_writes
perform_writes-silent h [] s d = (refl, refl)
perform_writes-silent h (item ∷ rest) s d =
    let s' = perform_found h item (account_of item.auth_index s) s in
    let one = perform_found-silent h item (account_of item.auth_index s) s d in
    let d' : s'.engine.cfg.dry_run ≡ true = ap (λ e. e.cfg.dry_run) one.1 ∙ d in
    let others = perform_writes-silent h rest s' d' in (others.0 ∙ one.0, others.1 ∙ one.1)

perform_writes-Quiet :
    (h : Host) (plan : List WriteItem) (s : Sys) → Quiet s (perform_writes h plan s)
perform_writes-Quiet h plan s = record {
  setup = Writes-SameSetup (perform_writes-Writes h plan s Writes.here);
  silent = λ d. (perform_writes-silent h plan s d).0;
}

ranked-SameSetup :
    (now : Time) (e : Engine)
    → SameSetup e
        (recompute_desired now (record e { accounts = (demote_expired now e.accounts).0 }))
ranked-SameSetup now e =
    SameSetup-trans (accounts-SameSetup (demote_expired now e.accounts).0 (SameSetup-refl e))
      (recompute_desired-SameSetup now (record e { accounts = (demote_expired now e.accounts).0 }))

prepare-SameSetup :
    (mode : RetryMode) (now : Time) (e : Engine) → SameSetup e (prepare mode now e).0
unfolding prepare
prepare-SameSetup no_retry now e = ranked-SameSetup now e
prepare-SameSetup immediate now e = accounts-SameSetup _ (ranked-SameSetup now e)
prepare-SameSetup delayed now e = accounts-SameSetup _ (ranked-SameSetup now e)

finish-SameSetup :
    (mode : RetryMode) (now : Time) (retries : List RetrySchedule) (e : Engine)
    → SameSetup e (finish mode now retries e)
unfolding finish
finish-SameSetup no_retry now retries e =
    SameSetup-trans (reschedule_deadline-SameSetup now e) (publish_status-SameSetup now _)
finish-SameSetup immediate now retries e =
    SameSetup-trans (arm_awaiting-SameSetup true retries e)
      (SameSetup-trans (reschedule_deadline-SameSetup now _) (publish_status-SameSetup now _))
finish-SameSetup delayed now retries e =
    SameSetup-trans (arm_awaiting-SameSetup false retries e)
      (SameSetup-trans (reschedule_deadline-SameSetup now _) (publish_status-SameSetup now _))

write_out-Quiet : (h : Host) (mode : RetryMode) (s : Sys) → Quiet s (write_out h mode s)
unfolding write_out
write_out-Quiet h mode s =
    let e = (prepare mode (now_of h s) s.engine).0 in
    Quiet-trans (tick-Quiet s e (prepare-SameSetup mode (now_of h s) s.engine))
      (perform_writes-Quiet h (write_plan e) _)

demote_again-Quiet : (h : Host) (s : Sys) → Quiet s (demote_again h s).0
unfolding demote_again
demote_again-Quiet h s = tick-Quiet s _ (accounts-SameSetup _ (SameSetup-refl s.engine))

if-Quiet_pair :
    {s : Sys} (b : Bool) (x y : Sys × Bool)
    → Quiet s x.0
    → Quiet s y.0
    → Quiet s (if b then x else y).0
if-Quiet_pair true x y p q = p
if-Quiet_pair false x y p q = q

flush_loop-Quiet :
    (h : Host) (mode : RetryMode) (fuel : ℕ) (retries : List RetrySchedule) (s : Sys)
    → Quiet s (flush_loop h mode fuel retries s).0
unfolding flush_loop
flush_loop-Quiet h mode zero retries s = Quiet-refl s
flush_loop-Quiet h mode (suc fuel) retries s =
    let wanted = retries ++ (prepare mode (now_of h s) s.engine).1 in
    let s1 = write_out h mode s in
    let s2 = (demote_again h s1).0 in
    let p1 : Quiet s s1 = write_out-Quiet h mode s in
    let p2 : Quiet s s2 = Quiet-trans p1 (demote_again-Quiet h s1) in
    if-Quiet_pair s.engine.stopped _ _ (Quiet-refl s) (
      if-Quiet_pair s1.engine.stopped _ _ p1 (
        if-Quiet_pair (demote_again h s1).1 _ _
          (Quiet-trans p2 (flush_loop-Quiet h mode fuel wanted s2))
          (Quiet-trans p2
            (engine-Quiet s2 _ (finish-SameSetup mode (now_of h s1) wanted s2.engine)))))

pub flush_internal-Quiet :
    (h : Host) (mode : RetryMode) (s : Sys) → Quiet s (flush_internal h mode s)
unfolding flush_internal
flush_internal-Quiet h mode s = flush_loop-Quiet h mode (suc (known_count s.engine.accounts)) [] s
