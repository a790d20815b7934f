-- ===== src/Engine/Roster.antt =====
-- applyRosterLocked of engine.go: validated entries become account state.
use cpa_plugin_reset_priorit.Times.{Time, zero_time}
use cpa_plugin_reset_priorit.Config.{Config, manages}
use cpa_plugin_reset_priorit.Health.{
  AuthEntry, Reason, unset, quarantine_reason_for, normalize_provider, account_label,
}
use cpa_plugin_reset_priorit.Engine.{
  Engine, Account, healthy, quarantined, recovering, unknown, bump, is_quarantined, is_recovering,
  find, store, remove, put_account, TimerHandle,
}
use cpa_plugin_reset_priorit.Engine.Work.{cancelled, stop_timers}
use cpa_plugin_reset_priorit.Engine.Accounts.{has_post_sentinel_recovery_evidence}
use cpa_plugin_reset_priorit.Base.{
  if◌then◌else◌, Str, str_eq, is_empty, any, eqb_ℤ, pos, Bool, true, false, not, ◌&&◌, ◌||◌, Option,
  none, some, List, [], ◌∷◌, ◌++◌,
}

abbrev pub new_account : Str → Str → Account
new_account idx provider = record {
  auth_index = idx;
  id = [];
  name = [];
  provider = provider;
  label = [];
  disabled = false;
  health = healthy;
  quarantine_reason = unset;
  recovered_at = zero_time;
  recovery_sentinel_ready = false;
  quarantine_sentinel_written_at = zero_time;
  fetch_epoch = 0;
  next_fetch_seq = 0;
  latest_started_fetch_seq = 0;
  latest_weekly_fetch_seq = 0;
  reset_at = zero_time;
  reset_state = unknown;
  observed_at = zero_time;
  last_success_at = zero_time;
  last_error = [];
  write_error = [];
  current_priority = pos 0;
  current_known = false;
  desired = pos 0;
  retry_seq = 0;
  retry_timers = [];
  want_retry_schedule = false;
  want_awaiting_retry = false;
  awaiting_needs_immediate = false;
  reconcile_fetch_pending = false;
}

-- The fields copied from the entry. A zero priority may be a missing one.
unfoldable pub describe : AuthEntry → Account → Account
unfolding normalize_provider account_label
describe entry a = record a {
  id = entry.id;
  name = entry.name;
  provider = normalize_provider entry;
  label = account_label entry;
  disabled = entry.disabled;
  current_known = not (eqb_ℤ entry.priority (pos 0));
  current_priority = if eqb_ℤ entry.priority (pos 0) then a.current_priority else entry.priority;
}

-- A definitive credential failure; whether the retries are cancelled is `not (is_quarantined …)`.
unfoldable pub quarantine : Reason → Account → Account
unfolding cancelled
quarantine reason a =
    let left = if is_quarantined a.health then a else record (cancelled a) {
      fetch_epoch = bump a.fetch_epoch;
      quarantine_sentinel_written_at = zero_time;
    } in
    record left {
      health = quarantined;
      quarantine_reason = reason;
      recovery_sentinel_ready = false;
      want_retry_schedule = false;
      want_awaiting_retry = false;
      awaiting_needs_immediate = false;
    }

-- Recovery discards what was known of the reset before the failure.
unfoldable pub begin_recovery : Time → Account → Account
begin_recovery now a = record a {
  health = recovering;
  recovered_at = now;
  recovery_sentinel_ready = false;
  quarantine_sentinel_written_at = zero_time;
  fetch_epoch = bump a.fetch_epoch;
  reset_at = zero_time;
  reset_state = unknown;
  observed_at = zero_time;
  current_known = false;
  want_retry_schedule = true;
  want_awaiting_retry = false;
  awaiting_needs_immediate = false;
}

-- The `switch` on health: the account, and whether recovery began.
unfoldable pub classify : AuthEntry → Time → Account → Account × Bool
unfolding quarantine begin_recovery has_post_sentinel_recovery_evidence quarantine_reason_for
classify entry now a =
    let (bad, reason) = quarantine_reason_for entry in
    if bad
    then (quarantine reason a, false)
    else if is_quarantined a.health && has_post_sentinel_recovery_evidence a entry
    then (begin_recovery now a, true)
    else (a, false)

-- A recovering account whose sentinel is not known to be in place.
unfoldable pub needs_sentinel : Config → Account → Bool
needs_sentinel cfg a =
    is_recovering a.health
    && (not a.current_known || not (eqb_ℤ a.current_priority cfg.quarantine_priority))

unfoldable pub settle : Config → Account → Account
unfolding needs_sentinel
settle cfg a = if needs_sentinel cfg a then record a { recovery_sentinel_ready = false } else a

abbrev account_for : AuthEntry → Option Account → Account
account_for entry none = new_account entry.auth_index (normalize_provider entry)
account_for entry (some a) = a

-- One entry, for the account it names or a new one.
unfoldable pub roster_account : Config → AuthEntry → Time → Option Account → Account × Bool
unfolding describe classify settle
roster_account cfg entry now found =
    let (a, began) = classify entry now (describe entry (account_for entry found)) in
    (settle cfg a, began || needs_sentinel cfg a)

abbrev pub old_timers : AuthEntry → Option Account → List TimerHandle
old_timers entry none = []
old_timers entry (some a) =
    if (quarantine_reason_for entry).0 && not (is_quarantined a.health) then a.retry_timers else []

unfoldable pub is_applicable : Config → AuthEntry → Bool
unfolding manages normalize_provider
is_applicable cfg entry =
    manages cfg (normalize_provider entry)
    && not entry.runtime_only
    && not (is_empty entry.auth_index)
    && not (is_empty entry.name)

pub record RosterResult : Type 0 where
  pub engine : Engine
  pub managed : List Str
  pub targets : List Str
  pub needs_flush : Bool

unfoldable pub apply_entry : Time → AuthEntry → RosterResult → RosterResult
unfolding is_applicable roster_account stop_timers find store
apply_entry now entry r =
    let found = find entry.auth_index r.engine.accounts in
    let (a, flush) = roster_account r.engine.cfg entry now found in
    if not (is_applicable r.engine.cfg entry) then r else record {
      engine = put_account a (stop_timers (old_timers entry found) r.engine);
      managed = entry.auth_index ∷ r.managed;
      targets = if is_quarantined a.health then r.targets else r.targets ++ entry.auth_index ∷ [];
      needs_flush = r.needs_flush || flush;
    }

unfoldable pub apply_entries : Time → List AuthEntry → RosterResult → RosterResult
unfolding apply_entry
apply_entries now [] r = r
apply_entries now (entry ∷ rest) r = apply_entries now rest (apply_entry now entry r)

abbrev pub member : Str → List Str → Bool
member idx = any (λ j. str_eq j idx)

-- The accounts that no entry names are dropped, their retries cancelled.
unfoldable pub contract : List Str → List Account → Engine → Engine
unfolding stop_timers remove
contract managed [] e = e
contract managed (a ∷ rest) e = contract managed rest (
    if member a.auth_index managed
    then e
    else let e' = stop_timers a.retry_timers e in
      record e' { accounts = remove a.auth_index e'.accounts })

abbrev pub no_entry : Engine → RosterResult
no_entry e = record { engine = e; managed = []; targets = []; needs_flush = false }

unfoldable pub apply_roster : List AuthEntry → Time → Engine → RosterResult
unfolding apply_entries contract
apply_roster entries now e =
    let r = apply_entries now entries (no_entry e) in
    record r { engine = contract r.managed r.engine.accounts r.engine }
