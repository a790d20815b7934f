-- ===== src/Tests/Accounts.antt =====
-- The theorems about accounts at the sample.
use cpa_plugin_reset_priorit.Times.{zero_time}
use cpa_plugin_reset_priorit.Config.{validate}
use cpa_plugin_reset_priorit.Ranker.{less}
use cpa_plugin_reset_priorit.Engine.{Account, confirmed, is_recovering}
use cpa_plugin_reset_priorit.Engine.Accounts.{
  has_future_reset, stable_key, observe, observation_admitted, demote_expired,
}
use cpa_plugin_reset_priorit.Engine.Desired.{recompute_desired, rank_entry}
use cpa_plugin_reset_priorit.Engine.Ranking.{DistinctAccounts, RankedIn, validate-Priorities}
use cpa_plugin_reset_priorit.Engine.Order.{recompute-RankedIn, healthy_above_unhealthy}
use cpa_plugin_reset_priorit.Engine.Expiry.{demote_expired_sound}
use cpa_plugin_reset_priorit.Engine.Accounts.{record_failure}
use cpa_plugin_reset_priorit.Engine.Promotion.{
  recovery_guarded, failure-keeps-rank, weekly_monotone,
}
use cpa_plugin_reset_priorit.Providers.{Observation}
use cpa_plugin_reset_priorit.Engine.{find, awaiting_new_window}
use cpa_plugin_reset_priorit.Engine.Sys.{now_of, account_of}
use cpa_plugin_reset_priorit.Engine.Fetch.{apply_observation}
use cpa_plugin_reset_priorit.Engine.Admitted.{NotCrossed, confirmed_iff_future, expired_never_ranks}
use cpa_plugin_reset_priorit.Tests.Sample.{
  host, sys, config, known_account, later_account, recovering_account, attempt, observation, engine,
}
use cpa_plugin_reset_priorit.Engine.Order.{sooner_above}
use cpa_plugin_reset_priorit.Ranker.{less}
use cpa_plugin_reset_priorit.Ranker.Formula.{behind, int_limit}
use cpa_plugin_reset_priorit.Ranker.Spec.{Earlier}
use cpa_plugin_reset_priorit.Engine.Desired.{group_entries}
use cpa_plugin_reset_priorit.Base.{
  bytes, str_eq, str_lt, In, All, ◌+ℤ◌, ◌-ℤ◌, ltb_ℤ, pos, ℕ, ◌+◌, ◌*◌, ◌≤◌, ◌<◌, ◌≡◌, refl, ◌↔◌,
  ◌⊎◌, inl, true, false, none, some, [], ◌∷◌, arith,
}

recovers :
    is_recovering (observe config attempt observation (zero_time + 40) recovering_account).0.health
    ≡ false
unfolding observe
recovers = refl

recovery_guarded_example :
    (observation.has_weekly ≡ true)
    × (zero_time + 40 < observation.reset_at)
    × (recovering_account.recovered_at ≤ attempt.started_at)
    × ((config.dry_run ≡ true) ⊎ (recovering_account.recovery_sentinel_ready ≡ true))
recovery_guarded_example =
    recovery_guarded config attempt observation (zero_time + 40) recovering_account refl recovers

admitted : observation_admitted engine known_account attempt observation ≡ true
unfolding observation_admitted str_eq
admitted = refl

sample_found : account_of attempt.auth_index sys ≡ some known_account
unfolding find str_eq
sample_found = refl

confirmed_iff_future_example :
    (b : Account) × (account_of attempt.auth_index (apply_observation host attempt observation sys)
      ≡ some b)
    × ((b.reset_state ≡ confirmed) ↔ (
        (observation.has_weekly ≡ true)
        × (now_of host sys < observation.reset_at)
        × NotCrossed attempt (now_of host sys) known_account
        × (b.reset_at ≡ observation.reset_at)))
confirmed_iff_future_example =
    confirmed_iff_future host attempt observation sys {a = known_account} sample_found admitted refl

abbrev expired_observation : Observation
expired_observation = record observation { reset_at = zero_time + 10 }

expired_admitted : observation_admitted engine known_account attempt expired_observation ≡ true
unfolding observation_admitted str_eq
expired_admitted = refl

expired_never_ranks_example :
    (b : Account) × (account_of attempt.auth_index
        (apply_observation host attempt expired_observation sys)
      ≡ some b)
    × (b.reset_state ≡ awaiting_new_window)
    × (has_future_reset b (zero_time + 1) ≡ false)
expired_never_ranks_example =
    expired_never_ranks host attempt expired_observation sys {a = known_account} (zero_time + 1)
      sample_found expired_admitted refl (omega arith)

failure-keeps-rank_example :
    let b = record_failure known_account attempt (bytes "timeout") (zero_time + 40) in
    (rank_entry (zero_time + 40) b ≡ rank_entry (zero_time + 40) known_account)
    × (b.health ≡ known_account.health)
    × (b.reset_at ≡ known_account.reset_at)
failure-keeps-rank_example =
    failure-keeps-rank attempt (bytes "timeout") (zero_time + 40) known_account

weekly_monotone_example :
    (known_account.latest_weekly_fetch_seq
      ≤ (observe engine.cfg attempt observation
          (zero_time + 40)
          known_account).0.latest_weekly_fetch_seq)
    × (observation.has_weekly ≡ true
        → (observe engine.cfg attempt observation
            (zero_time + 40)
            known_account).0.latest_weekly_fetch_seq
          ≡ attempt.seq)
weekly_monotone_example =
    weekly_monotone engine attempt observation (zero_time + 40) known_account admitted

demoted_accounts : In later_account (demote_expired (zero_time + 150) engine.accounts).0
unfolding demote_expired
demoted_accounts = In.there (In.here refl)

demote_expired_sound_example : zero_time + 150 < later_account.reset_at
demote_expired_sound_example =
    demote_expired_sound (zero_time + 150) engine.accounts {a = later_account} demoted_accounts refl
      (inl refl)

engine_valid : validate engine.cfg ≡ none
unfolding validate
engine_valid = refl

engine-DistinctAccounts : DistinctAccounts engine.accounts
unfolding stable_key
engine-DistinctAccounts =
    (((λ p q. ground arith), ((λ p q. ground arith), tt)), (((λ p q. ground arith), tt), (tt, tt)))

recompute-RankedIn_example :
    All
      (RankedIn (validate-Priorities engine.cfg engine_valid) (zero_time + 40) engine.accounts)
      (recompute_desired (zero_time + 40) engine).accounts
recompute-RankedIn_example =
    recompute-RankedIn (zero_time + 40) engine engine_valid (omega arith) engine-DistinctAccounts

abbrev ranked_known : Account
ranked_known = record known_account { desired = pos 200 }

abbrev ranked_later : Account
ranked_later = record later_account { desired = pos 100 }

ranked_accounts :
    (recompute_desired (zero_time + 40) engine).accounts
    ≡ ranked_known ∷ ranked_later ∷ recovering_account ∷ []
unfolding recompute_desired less str_eq ◌+ℤ◌ ◌-ℤ◌
ranked_accounts = refl

healthy_above_unhealthy_example : ltb_ℤ (pos 0) (pos 200) ≡ true
healthy_above_unhealthy_example =
    healthy_above_unhealthy (zero_time + 40) engine engine_valid (omega arith)
      engine-DistinctAccounts {a = ranked_known} {b = recovering_account}
      (rw ranked_accounts (In.here refl)) (rw ranked_accounts (In.there (In.there (In.here refl))))
      refl refl

ranked_before :
    Earlier (rank_entry (zero_time + 40) ranked_known) (rank_entry (zero_time + 40) ranked_later)
unfolding rank_entry
ranked_before = Earlier.sooner refl refl (omega arith)

ranked_room :
    (let p = validate-Priorities engine.cfg engine_valid in
      p.floor
        + p.step
          * behind
              (rank_entry (zero_time + 40) ranked_known)
              (group_entries (zero_time + 40) ranked_known.provider engine.accounts)
      ≤ int_limit)
unfolding validate-Priorities less group_entries str_eq str_lt
ranked_room = omega arith

sooner_above_example :
    (m : ℕ) × (n : ℕ) × (ranked_known.desired ≡ pos m)
    × (ranked_later.desired ≡ pos n)
    × (n + (validate-Priorities engine.cfg engine_valid).step ≤ m)
sooner_above_example =
    sooner_above (zero_time + 40) engine engine_valid (omega arith) engine-DistinctAccounts
      {a = ranked_known} {b = ranked_later} (rw ranked_accounts (In.here refl))
      (rw ranked_accounts (In.there (In.here refl))) refl refl refl ranked_before ranked_room
