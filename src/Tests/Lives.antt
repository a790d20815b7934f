-- ===== src/Tests/Lives.antt =====
-- Stopping, reconfiguration, the deadline and the roster, on the sample engine.
use cpa_plugin_reset_priorit.Times.{zero_time}
use cpa_plugin_reset_priorit.Health.{AuthEntry, reauth_required, quarantine_reason_for}
use cpa_plugin_reset_priorit.Engine.{
  Account, quarantined, unknown, bump, is_healthy, is_quarantined, is_recovering, reconcile,
}
use cpa_plugin_reset_priorit.Engine.Accounts.{has_post_sentinel_recovery_evidence}
use cpa_plugin_reset_priorit.Engine.Sys.{Sys, with_engine}
use cpa_plugin_reset_priorit.Engine.Schedule.{reschedule_deadline}
use cpa_plugin_reset_priorit.Engine.Fetch.{apply_observation, apply_fetch_failure}
use cpa_plugin_reset_priorit.Engine.Callbacks.{run_task}
use cpa_plugin_reset_priorit.Engine.Roster.{roster_account}
use cpa_plugin_reset_priorit.Engine.Life.{publish_config}
use cpa_plugin_reset_priorit.Engine.Stopped.{stopped_does_nothing, stale_answers_dropped}
use cpa_plugin_reset_priorit.Engine.Deadline.{is_awaited, deadline_is_earliest}
use cpa_plugin_reset_priorit.Engine.Quarantine.{roster_account-health, quarantine_left}
use cpa_plugin_reset_priorit.Tests.Sample.{
  host, sys, engine, config, attempt, observation, known_account,
}
use cpa_plugin_reset_priorit.Base.{
  bytes, In, pos, ◌+◌, ◌≤◌, ◌<◌, ◌≡◌, refl, ◌⊎◌, true, false, some, [], arith,
}

abbrev halted : Sys
halted = record { engine = record engine { stopped = true }; trace = [] }

stopped_does_nothing_example :
    ((run_task host reconcile halted).trace ≡ [])
    × ((run_task host reconcile halted).engine.accounts ≡ engine.accounts)
stopped_does_nothing_example = stopped_does_nothing host reconcile halted refl

abbrev reconfigured : Sys
reconfigured = with_engine (publish_config config engine) sys

stale_answers_dropped_example :
    (apply_observation host attempt observation reconfigured ≡ reconfigured)
    × (apply_fetch_failure host attempt (bytes "timeout") reconfigured ≡ reconfigured)
stale_answers_dropped_example =
    stale_answers_dropped host config attempt observation (bytes "timeout") sys refl (omega arith)

deadline_is_earliest_example :
    let d = (reschedule_deadline (zero_time + 20) engine).next_deadline_at in
    ((a : Account)
      → In a engine.accounts
      → is_awaited (zero_time + 20) a ≡ true
      → (zero_time + 20 < d) × (d ≤ a.reset_at))
    × ((d ≡ zero_time)
        ⊎ ((a : Account) × In a engine.accounts
            × (is_awaited (zero_time + 20) a ≡ true)
            × (a.reset_at ≡ d)))
deadline_is_earliest_example = deadline_is_earliest (zero_time + 20) engine (omega arith)

abbrev entry : AuthEntry
entry = record {
  id = bytes "1";
  auth_index = bytes "1";
  name = bytes "a.json";
  kind = bytes "claude";
  provider = bytes "claude";
  label = [];
  status = bytes "active";
  status_message = [];
  disabled = false;
  unavailable = false;
  runtime_only = false;
  source = [];
  path = bytes "/a.json";
  email = [];
  priority = pos 7;
  last_refresh = zero_time;
  mod_time = zero_time;
}

abbrev quarantined_account : Account
quarantined_account = record known_account {
  health = quarantined;
  quarantine_reason = reauth_required;
}

roster_account-health_example :
    let b = (roster_account config entry (zero_time + 20) (some known_account)).0 in
    ((quarantine_reason_for entry).0 ≡ true
      → (is_quarantined b.health ≡ true)
        × (is_quarantined known_account.health ≡ false
            → b.fetch_epoch ≡ bump known_account.fetch_epoch))
    × ((quarantine_reason_for entry).0 ≡ false
        → is_healthy b.health ≡ is_healthy known_account.health)
roster_account-health_example = roster_account-health config entry (zero_time + 20) known_account

left_quarantine :
    is_quarantined
      (roster_account config entry (zero_time + 20) (some quarantined_account)).0.health
    ≡ false
unfolding roster_account
left_quarantine = refl

quarantine_left_example :
    let a = quarantined_account in
    let b = (roster_account config entry (zero_time + 20) (some a)).0 in
    ((quarantine_reason_for entry).0 ≡ false)
    × (has_post_sentinel_recovery_evidence a entry ≡ true)
    × (is_recovering b.health ≡ true)
    × (b.recovery_sentinel_ready ≡ false)
    × (b.recovered_at ≡ zero_time + 20)
    × (b.fetch_epoch ≡ bump a.fetch_epoch)
    × (b.reset_state ≡ unknown)
quarantine_left_example =
    quarantine_left config entry (zero_time + 20) quarantined_account refl left_quarantine
