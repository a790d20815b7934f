-- ===== src/Engine/Promotion.antt =====
-- What an answer of a provider may do to an account.
use cpa_plugin_reset_priorit.Times.{Time}
use cpa_plugin_reset_priorit.Config.{Config}
use cpa_plugin_reset_priorit.Providers.{Observation}
use cpa_plugin_reset_priorit.Engine.{Engine, Account, is_recovering}
use cpa_plugin_reset_priorit.Engine.Accounts.{
  FetchAttempt, has_future_reset, stable_key, enter_awaiting, degrade, record_failure,
  crossed_known_deadline, observe, promote, confirm, recovery_sentinel_pending,
  observation_admitted, weekly_observation_current,
}
use cpa_plugin_reset_priorit.Engine.Desired.{rank_entry}
use cpa_plugin_reset_priorit.Base.{Str, ◌≤◌, ◌<◌, ◌≡◌, ◌⊎◌, true, false, arith}

-- A recovering account is no longer recovering after an answer only if the answer gives a future
-- weekly reset, from a request that was begun in this recovery, and, unless in dry-run, with the
-- sentinel known to be in the physical document.
pub recovery_guarded :
    (cfg : Config) (at : FetchAttempt) (obs : Observation) (now : Time) (a : Account)
    → is_recovering a.health ≡ true
    → is_recovering (observe cfg at obs now a).0.health ≡ false
    → (obs.has_weekly ≡ true)
      × (now < obs.reset_at)
      × (a.recovered_at ≤ at.started_at)
      × ((cfg.dry_run ≡ true) ⊎ (a.recovery_sentinel_ready ≡ true))
unfolding observe promote recovery_sentinel_pending crossed_known_deadline enter_awaiting degrade
    confirm
recovery_guarded cfg at obs now a h k = ground arith

-- A failed request leaves the account's place in the ranking as it was at that instant, its health
-- and its reset time too.
pub failure-keeps-rank :
    (at : FetchAttempt) (text : Str) (now : Time) (a : Account)
    → let b = record_failure a at text now in
      (rank_entry now b ≡ rank_entry now a) × (b.health ≡ a.health) × (b.reset_at ≡ a.reset_at)
unfolding record_failure crossed_known_deadline enter_awaiting degrade has_future_reset rank_entry
    stable_key
failure-keeps-rank at text now a = ground arith

-- An admitted answer never lowers the number of the latest weekly answer, and one with a weekly
-- reset sets it to its own.
pub weekly_monotone :
    (e : Engine) (at : FetchAttempt) (obs : Observation) (now : Time) (a : Account)
    → observation_admitted e a at obs ≡ true
    → (a.latest_weekly_fetch_seq ≤ (observe e.cfg at obs now a).0.latest_weekly_fetch_seq)
      × (obs.has_weekly ≡ true → (observe e.cfg at obs now a).0.latest_weekly_fetch_seq ≡ at.seq)
unfolding observe promote recovery_sentinel_pending crossed_known_deadline enter_awaiting degrade
    confirm observation_admitted weekly_observation_current
weekly_monotone e at obs now a h = ground arith
