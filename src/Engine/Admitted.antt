-- ===== src/Engine/Admitted.antt =====
-- What applyObservation leaves of the account of an admitted answer.
use cpa_plugin_reset_priorit.Times.{Time}
use cpa_plugin_reset_priorit.Config.{Config}
use cpa_plugin_reset_priorit.Host.{Host}
use cpa_plugin_reset_priorit.Providers.{Observation}
use cpa_plugin_reset_priorit.Engine.{
  Engine, Account, is_healthy, confirmed, awaiting_new_window, unknown, find, store,
}
use cpa_plugin_reset_priorit.Engine.Accounts.{
  FetchAttempt, has_future_reset, enter_awaiting, degrade, crossed_known_deadline, observe, promote,
  confirm, recovery_sentinel_pending, observation_admitted,
}
use cpa_plugin_reset_priorit.Engine.Sys.{Sys, with_engine, now_of, tick, account_of}
use cpa_plugin_reset_priorit.Engine.Lookup.{find-index, find-store}
use cpa_plugin_reset_priorit.Engine.Fetch.{observe_engine, apply_observation}
use cpa_plugin_reset_priorit.Base.{
  Str, str_eq_refl, ◌≤◌, ◌<◌, ◌≡◌, refl, sym, subst, ◌∙◌, ◌↔◌, ◌⊎◌, true, false, some, List, arith,
}

observe-index :
    (cfg : Config) (at : FetchAttempt) (obs : Observation) (now : Time) (a : Account)
    → (observe cfg at obs now a).0.auth_index ≡ a.auth_index
unfolding observe promote recovery_sentinel_pending crossed_known_deadline enter_awaiting degrade
    confirm
observe-index cfg at obs now a = ground arith

stored :
    (b : Account) (l : List Account) {idx : Str}
    → b.auth_index ≡ idx
    → find idx (store b l) ≡ some b
stored b l i =
    subst (λ j. find j (store b l) ≡ some b) i
      (rw (find-store b.auth_index b l, str_eq_refl b.auth_index) refl)

observe_engine-found :
    (at : FetchAttempt) (obs : Observation) (now : Time) (a : Account) (e : Engine) {idx : Str}
    → a.auth_index ≡ idx
    → find idx (observe_engine at obs now a e).accounts ≡ some (observe e.cfg at obs now a).0
unfolding observe_engine
observe_engine-found at obs now a e i =
    stored (observe e.cfg at obs now a).0 _ (observe-index e.cfg at obs now a ∙ i)

apply_observation-admitted :
    (h : Host) (at : FetchAttempt) (obs : Observation) (s : Sys) {a : Account}
    → account_of at.auth_index s ≡ some a
    → observation_admitted s.engine a at obs ≡ true
    → apply_observation h at obs s
      ≡ with_engine (observe_engine at obs (now_of h s) a s.engine) (tick s)
unfolding apply_observation
apply_observation-admitted h at obs s f g = rw (f, apply_observation) (rw g refl)

-- An admitted answer reaches the account that it is for.
apply_observation-found :
    (h : Host) (at : FetchAttempt) (obs : Observation) (s : Sys) {a : Account}
    → account_of at.auth_index s ≡ some a
    → observation_admitted s.engine a at obs ≡ true
    → account_of at.auth_index (apply_observation h at obs s)
      ≡ some (observe s.engine.cfg at obs (now_of h s) a).0
apply_observation-found h at obs s {a} f g =
    subst (λ t. account_of at.auth_index t ≡ some (observe s.engine.cfg at obs (now_of h s) a).0)
      (sym (apply_observation-admitted h at obs s f g))
      (observe_engine-found at obs (now_of h s) a s.engine
        (find-index at.auth_index s.engine.accounts f))

observe-confirmed :
    (cfg : Config) (at : FetchAttempt) (obs : Observation) (now : Time) (a : Account)
    → is_healthy a.health ≡ true
    → (observe cfg at obs now a).0.reset_state ≡ confirmed
    → (obs.has_weekly ≡ true)
      × (now < obs.reset_at)
      × (crossed_known_deadline a at now ≡ false)
      × ((observe cfg at obs now a).0.reset_at ≡ obs.reset_at)
unfolding observe promote recovery_sentinel_pending crossed_known_deadline enter_awaiting degrade
    confirm
observe-confirmed cfg at obs now a h k = ground arith

observe-confirms :
    (cfg : Config) (at : FetchAttempt) (obs : Observation) (now : Time) (a : Account)
    → is_healthy a.health ≡ true
    → obs.has_weekly ≡ true
    → now < obs.reset_at
    → crossed_known_deadline a at now ≡ false
    → (observe cfg at obs now a).0.reset_state ≡ confirmed
unfolding observe promote recovery_sentinel_pending crossed_known_deadline enter_awaiting degrade
    confirm
observe-confirms cfg at obs now a h w f c = ground arith

observe-expired :
    (cfg : Config) (at : FetchAttempt) (obs : Observation) (now later : Time) (a : Account)
    → obs.has_weekly ≡ true
    → obs.reset_at ≤ now
    → ((observe cfg at obs now a).0.reset_state ≡ awaiting_new_window)
      × (has_future_reset (observe cfg at obs now a).0 later ≡ false)
unfolding observe promote recovery_sentinel_pending crossed_known_deadline enter_awaiting degrade
    has_future_reset
observe-expired cfg at obs now later a h k = (ground arith, ground arith)

-- The request did not cross the known deadline: the account has no known reset, or it has not passed,
-- or it had passed when the request began.
abbrev pub NotCrossed : FetchAttempt → Time → Account → Type 0
NotCrossed at now a =
    (a.reset_state ≡ awaiting_new_window)
    ⊎ (a.reset_state ≡ unknown)
    ⊎ (now < a.reset_at)
    ⊎ (a.reset_at ≤ at.started_at)

crossed-NotCrossed :
    (at : FetchAttempt) (now : Time) (a : Account)
    → is_healthy a.health ≡ true
    → (crossed_known_deadline a at now ≡ false) ↔ NotCrossed at now a
unfolding crossed_known_deadline
crossed-NotCrossed at now a h = (λ c. ground arith, λ n. ground arith)

-- applyObservation with an admitted answer, for a healthy account: the account is there afterwards, and
-- its reset is confirmed exactly if the answer gives a weekly reset in the future, the account's reset
-- is now that of the answer, and before it the account had no known reset, or one that has not passed
-- yet or that had passed when the request began.
pub confirmed_iff_future :
    (h : Host) (at : FetchAttempt) (obs : Observation) (s : Sys) {a : Account}
    → account_of at.auth_index s ≡ some a
    → observation_admitted s.engine a at obs ≡ true
    → is_healthy a.health ≡ true
    → (b : Account) × (account_of at.auth_index (apply_observation h at obs s) ≡ some b)
      × ((b.reset_state ≡ confirmed) ↔ (
          (obs.has_weekly ≡ true)
          × (now_of h s < obs.reset_at)
          × NotCrossed at (now_of h s) a
          × (b.reset_at ≡ obs.reset_at)))
confirmed_iff_future h at obs s {a} f g k =
    let cfg = s.engine.cfg in
    let now = now_of h s in
    (
      (observe cfg at obs now a).0,
      apply_observation-found h at obs s f g,
      (
        λ c.
            let (w, after_now, n, r) = observe-confirmed cfg at obs now a k c in
            (w, after_now, (crossed-NotCrossed at now a k).0 n, r),
        λ (w, after_now, n, r).
            observe-confirms cfg at obs now a k w after_now ((crossed-NotCrossed at now a k).1 n),
      ),
    )

-- applyObservation with an admitted answer whose weekly reset is not in the future: the account is there
-- afterwards, awaits a new window, and ranks by no reset, then or later.
pub expired_never_ranks :
    (h : Host) (at : FetchAttempt) (obs : Observation) (s : Sys) {a : Account} (later : Time)
    → account_of at.auth_index s ≡ some a
    → observation_admitted s.engine a at obs ≡ true
    → obs.has_weekly ≡ true
    → obs.reset_at ≤ now_of h s
    → (b : Account) × (account_of at.auth_index (apply_observation h at obs s) ≡ some b)
      × (b.reset_state ≡ awaiting_new_window)
      × (has_future_reset b later ≡ false)
expired_never_ranks h at obs s {a} later f g w k =
    let cfg = s.engine.cfg in
    let now = now_of h s in
    let (awaits, unranked) = observe-expired cfg at obs now later a w k in
    ((observe cfg at obs now a).0, apply_observation-found h at obs s f g, awaits, unranked)
