-- ===== src/Engine/Ends.antt =====
-- The loop of flushInternal comes to its end: every further round has demoted an account.
use cpa_plugin_reset_priorit.Times.{Time}
use cpa_plugin_reset_priorit.Host.{Host}
use cpa_plugin_reset_priorit.Config.{Config}
use cpa_plugin_reset_priorit.Engine.{Engine, Account, is_known}
use cpa_plugin_reset_priorit.Engine.Accounts.{demote_expired}
use cpa_plugin_reset_priorit.Engine.Desired.{desired_account, desired_accounts, recompute_desired}
use cpa_plugin_reset_priorit.Engine.Schedule.{RetrySchedule, collect_awaiting}
use cpa_plugin_reset_priorit.Engine.Sys.{Sys, with_engine, now_of, tick}
use cpa_plugin_reset_priorit.Engine.Plan.{write_plan}
use cpa_plugin_reset_priorit.Engine.Lookup.{countp-store}
use cpa_plugin_reset_priorit.Engine.Touch.{
  Touched, touched, Writes, here, touch, perform_writes-Writes,
}
use cpa_plugin_reset_priorit.Engine.Expiry.{demote_expired-progress}
use cpa_plugin_reset_priorit.Engine.Flush.{RetryMode, known_count, prepare, flush_loop}
use cpa_plugin_reset_priorit.Engine.Flush.{write_out, demote_again}
use cpa_plugin_reset_priorit.Base.{
  if◌then◌else◌, Bool-cases, ℕ, zero, suc, ◌+◌, ◌≤◌, ◌<◌, ◌≡◌, refl, ap, ◌∙◌, inl, inr, Bool, true,
  false, List, [], ◌∷◌, ◌++◌, arith,
}

Touched-index : {a b : Account} → Touched a b → b.auth_index ≡ a.auth_index
Touched-index (touched p k r w t e) = ap (λ (x : Account). x.auth_index) e

Touched-state : {a b : Account} → Touched a b → b.reset_state ≡ a.reset_state
Touched-state (touched p k r w t e) = ap (λ (x : Account). x.reset_state) e

known_count-Writes :
    {e e' : Engine} → Writes e e' → known_count e'.accounts ≡ known_count e.accounts
known_count-Writes here = refl
known_count-Writes (touch {e' = m} idx w f t) =
    countp-store (λ a. is_known a.reset_state) idx m.accounts f (Touched-index t)
      (ap is_known (Touched-state t))
    ∙ known_count-Writes w

desired_account-state :
    (c : Config) (now : Time) (all rest : List Account) (a : Account)
    → (desired_account c now all rest a).reset_state ≡ a.reset_state
unfolding desired_account
desired_account-state c now all rest a = ground arith

known_count-desired :
    (c : Config) (now : Time) (all rest : List Account)
    → known_count (desired_accounts c now all rest) ≡ known_count rest
unfolding desired_accounts
known_count-desired c now all [] = refl
known_count-desired c now all (a ∷ rest) =
    rw (desired_account-state c now all rest a)
      (ap (◌+◌ (if is_known a.reset_state then 1 else 0)) (known_count-desired c now all rest))

known_count-collect : (l : List Account) → known_count (collect_awaiting l).0 ≡ known_count l
unfolding collect_awaiting
known_count-collect [] = refl
known_count-collect (a ∷ rest) = ground (arith, known_count-collect rest)

pub known_count-demote :
    (now : Time) (l : List Account) → known_count (demote_expired now l).0 ≤ known_count l
known_count-demote now l =
    let p = demote_expired-progress now l in
    elim (Bool-cases (demote_expired now l).1) [
      | inl e ↦ omega (arith, p.0 e)
      | inr e ↦ omega (arith, ap (λ x. known_count x) (p.1 e))
    ]

pub known_count-prepare :
    (mode : RetryMode) (now : Time) (e : Engine)
    → known_count (prepare mode now e).0.accounts ≤ known_count e.accounts
unfolding prepare recompute_desired
known_count-prepare mode now e =
    let l = (demote_expired now e.accounts).0 in
    let d = desired_accounts e.cfg now l l in
    ground (
      arith,
      known_count-demote now e.accounts,
      known_count-desired e.cfg now l l,
      known_count-collect d,
    )

pub known_count-write_out :
    (h : Host) (mode : RetryMode) (s : Sys)
    → known_count (write_out h mode s).engine.accounts ≤ known_count s.engine.accounts
unfolding write_out
known_count-write_out h mode s =
    let e = (prepare mode (now_of h s) s.engine).0 in
    omega (
      arith,
      known_count-Writes
          (perform_writes-Writes h (write_plan e) (with_engine e (tick s)) Writes.here),
      known_count-prepare mode (now_of h s) s.engine,
    )

known_count-demote_again :
    (h : Host) (s : Sys)
    → (demote_again h s).1 ≡ true
    → known_count (demote_again h s).0.engine.accounts < known_count s.engine.accounts
unfolding demote_again
known_count-demote_again h s e = (demote_expired-progress (now_of h s) s.engine.accounts).0 e

if-ended :
    (b : Bool) (x y : Sys × Bool)
    → x.1 ≡ true
    → (b ≡ false → y.1 ≡ true)
    → (if b then x else y).1 ≡ true
if-ended true x y p q = p
if-ended false x y p q = q refl

-- With fuel above the number of known resets the loop ends, whatever the host answers and however
-- the clock moves meanwhile.
flush_loop_ends :
    (h : Host) (mode : RetryMode) (fuel : ℕ) (retries : List RetrySchedule) (s : Sys)
    → known_count s.engine.accounts < fuel
    → (flush_loop h mode fuel retries s).1 ≡ true
unfolding flush_loop
flush_loop_ends h mode zero retries s fits = elim fits [ ]
flush_loop_ends h mode (suc fuel) retries s fits =
    let s1 = write_out h mode s in
    let wanted = retries ++ (prepare mode (now_of h s) s.engine).1 in
    if-ended s.engine.stopped _ _ refl λ running. if-ended s1.engine.stopped _ _ refl λ running'.
      elim (Bool-cases (demote_again h s1).1) [
        | inr e ↦ rw e refl
        | inl e ↦ rw e (
            flush_loop_ends h mode fuel wanted (demote_again h s1).0 (
              let k = known_count-demote_again h s1 e in
              omega (arith, known_count-write_out h mode s)))
      ]

-- flushInternal comes to the end of its loop, whatever the host answers and however the clock
-- moves between its steps, when no other pass changes the accounts meanwhile.
pub flush_ends :
    (h : Host) (mode : RetryMode) (s : Sys)
    → (flush_loop h mode (suc (known_count s.engine.accounts)) [] s).1 ≡ true
flush_ends h mode s =
    flush_loop_ends h mode (suc (known_count s.engine.accounts)) [] s (omega arith)
