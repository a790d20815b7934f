-- ===== src/Engine/Accounts.antt =====
-- The transitions of one account: expiry, failures and observations.
use cpa_plugin_reset_priorit.Times.{Time, after, before, is_zero}
use cpa_plugin_reset_priorit.Config.{Config, manages}
use cpa_plugin_reset_priorit.Health.{AuthEntry, unset}
use cpa_plugin_reset_priorit.Providers.{Observation}
use cpa_plugin_reset_priorit.Engine.{
  Engine, Account, healthy, confirmed, stale, awaiting_new_window, bump, is_healthy, is_quarantined,
  is_recovering, is_known, is_awaiting,
}
use cpa_plugin_reset_priorit.Engine.Work.{cancelled}
use cpa_plugin_reset_priorit.Base.{
  leb, ◌==◌, if◌then◌else◌, Str, bytes, is_empty, ℕ, Bool, true, false, not, ◌&&◌, ◌||◌, Option,
  none, some, List, [], ◌∷◌,
}

unfoldable pub stable_key : Account → Str
stable_key a =
    if not (is_empty a.name) then a.name else if not (is_empty a.id) then a.id else a.auth_index

unfoldable pub has_future_reset : Account → Time → Bool
has_future_reset a now = if not (is_known a.reset_state) then false else after a.reset_at now

unfoldable pub has_post_sentinel_recovery_evidence : Account → AuthEntry → Bool
has_post_sentinel_recovery_evidence a entry =
    if is_zero a.quarantine_sentinel_written_at
    then true
    else after entry.last_refresh a.quarantine_sentinel_written_at
      || after entry.mod_time a.quarantine_sentinel_written_at

-- `enterAwaitingNewWindowLocked`, with whether this call made the transition.
unfoldable pub enter_awaiting : Account → Account × Bool
enter_awaiting a = if is_awaiting a.reset_state then (a, false) else (
  record a {
    reset_state = awaiting_new_window;
    fetch_epoch = bump a.fetch_epoch;
    want_awaiting_retry = true;
    awaiting_needs_immediate = a.reconcile_fetch_pending;
    want_retry_schedule = false;
  },
  true,
)

-- The test of `demoteExpiredLocked`, and of `fetchOneInternal` before it admits a call.
unfoldable pub is_expired : Account → Time → Bool
is_expired a now = is_healthy a.health && is_known a.reset_state && not (after a.reset_at now)

unfoldable pub demote : Time → Account → Account × Bool
unfolding is_expired enter_awaiting
demote now a = if is_expired a now then enter_awaiting a else (a, false)

-- `demoteExpiredLocked` over the accounts.
unfoldable pub demote_expired : Time → List Account → List Account × Bool
unfolding demote
demote_expired now [] = ([], false)
demote_expired now (a ∷ rest) =
    let (a', changed) = demote now a in
    let (rest', changed') = demote_expired now rest in (a' ∷ rest', changed || changed')

unfoldable pub recovery_sentinel_pending : Config → Account → Bool
recovery_sentinel_pending cfg a =
    is_recovering a.health && not cfg.dry_run && not a.recovery_sentinel_ready

-- `expected` is `none` for noRetrySequence.
pub record FetchAttempt : Type 0 where
  pub auth_index : Str
  pub epoch : ℕ
  pub seq : ℕ
  pub config_seq : ℕ
  pub expected : Option ℕ
  pub started_at : Time

abbrev pub retry_matches : Option ℕ → ℕ → Bool
retry_matches none seq = true
retry_matches (some n) seq = seq == n

-- `fetchAttemptCurrentLocked` for an account that is there.
unfoldable pub attempt_current : Engine → Account → FetchAttempt → Bool
unfolding manages
attempt_current e a at =
    not e.stopped
    && manages e.cfg a.provider
    && at.config_seq == e.config_seq
    && not (is_quarantined a.health)
    && a.fetch_epoch == at.epoch
    && retry_matches at.expected a.retry_seq

unfoldable pub failure_current : Engine → Account → FetchAttempt → Bool
unfolding attempt_current
failure_current e a at = attempt_current e a at && a.latest_started_fetch_seq == at.seq

unfoldable pub weekly_observation_current : Engine → Account → FetchAttempt → Bool
unfolding attempt_current
weekly_observation_current e a at = attempt_current e a at && leb a.latest_weekly_fetch_seq at.seq

unfoldable pub crossed_known_deadline : Account → FetchAttempt → Time → Bool
crossed_known_deadline a at now =
    if not (is_healthy a.health) || not (is_known a.reset_state)
    then false
    else not (after a.reset_at now) && before at.started_at a.reset_at

unfoldable pub degrade : Account → Time → Account
unfolding enter_awaiting
degrade a now =
    if is_known a.reset_state
    then if after a.reset_at now then record a { reset_state = stale } else (enter_awaiting a).0
    else a

-- `applyFetchFailure`, once the attempt is known to be current.
unfoldable pub record_failure : Account → FetchAttempt → Str → Time → Account
unfolding crossed_known_deadline enter_awaiting degrade
record_failure a at message now =
    let b = record a { last_error = message } in
    if crossed_known_deadline b at now
    then record ((enter_awaiting b).0) { awaiting_needs_immediate = true }
    else degrade b now

discarded_result : Str
discarded_result =
    bytes "discarded provider result from request begun before the expired weekly reset"

no_weekly_window : Str
no_weekly_window = bytes "provider did not report a regular weekly quota window"

still_expired : Str
still_expired = bytes "provider still reports an expired weekly window"

-- The guards of `applyObservation` on the sequence numbers.
unfoldable pub observation_admitted : Engine → Account → FetchAttempt → Observation → Bool
unfolding attempt_current weekly_observation_current
observation_admitted e a at obs =
    if not (attempt_current e a at)
    then false
    else if obs.has_weekly
    then weekly_observation_current e a at
    else a.latest_started_fetch_seq == at.seq

-- `latestWeeklyFetchSeq = attempt.seq`
abbrev pub note_weekly : FetchAttempt → Observation → Account → Account
note_weekly at obs a = if obs.has_weekly then record a { latest_weekly_fetch_seq = at.seq } else a

-- A fresh future weekly reset, for an account that may take it.
unfoldable pub confirm : Observation → Time → Account → Account
unfolding cancelled
confirm obs now a = cancelled (record a {
  reset_at = obs.reset_at;
  reset_state = confirmed;
  observed_at = obs.observed_at;
  last_success_at = now;
  last_error = [];
  want_retry_schedule = false;
  want_awaiting_retry = false;
  awaiting_needs_immediate = false;
})

-- A recovering account is promoted by a request of its own recovery, its sentinel in place.
unfoldable pub promote : Config → FetchAttempt → Account → Option Account
unfolding recovery_sentinel_pending
promote cfg at a =
    if is_recovering a.health
    then if before at.started_at a.recovered_at || recovery_sentinel_pending cfg a
      then none
      else some (record a { health = healthy; quarantine_reason = unset })
    else some a

-- What `applyObservation` did to the account: nothing more than the sequence number, or a new
-- record, with whether its retries were cancelled.
unfoldable pub observe : Config → FetchAttempt → Observation → Time → Account → Account × Bool
unfolding crossed_known_deadline enter_awaiting degrade confirm promote discarded_result
    no_weekly_window still_expired
observe cfg at obs now a0 =
    let a = note_weekly at obs a0 in
    if crossed_known_deadline a at now
    then (
      record ((enter_awaiting (record a { last_error = discarded_result })).0) {
        awaiting_needs_immediate = true;
      },
      false,
    )
    else if not obs.has_weekly
    then (
      degrade (record a { observed_at = obs.observed_at; last_error = no_weekly_window }) now,
      false,
    )
    else if after obs.reset_at now
    then elim (promote cfg at a) [ none ↦ (a, false) | some b ↦ (confirm obs now b, true) ]
    else (
      (enter_awaiting (record a {
        reset_at = obs.reset_at;
        observed_at = obs.observed_at;
        last_success_at = now;
        last_error = still_expired;
      })).0,
      false,
    )
