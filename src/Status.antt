-- ===== src/Status.antt =====
-- The states of an account (internal/engine/state.go), and the records of internal/engine/status.go.
-- A formatted timestamp stays an instant.
use cpa_plugin_reset_priorit.Times.{Time}
use cpa_plugin_reset_priorit.Health.{Reason}
use cpa_plugin_reset_priorit.Base.{Str, ℤ, Bool, true, false, Option, List}

pub data ResetState : Type 0 where
  confirmed stale awaiting_new_window unknown : ResetState

pub data Health : Type 0 where
  healthy quarantined recovering : Health

abbrev pub is_healthy : Health → Bool
is_healthy healthy = true
is_healthy quarantined = false
is_healthy recovering = false

abbrev pub is_quarantined : Health → Bool
is_quarantined healthy = false
is_quarantined quarantined = true
is_quarantined recovering = false

abbrev pub is_recovering : Health → Bool
is_recovering healthy = false
is_recovering quarantined = false
is_recovering recovering = true

-- `resetState == ResetConfirmed || resetState == ResetStale`
abbrev pub is_known : ResetState → Bool
is_known confirmed = true
is_known stale = true
is_known awaiting_new_window = false
is_known unknown = false

abbrev pub is_awaiting : ResetState → Bool
is_awaiting confirmed = false
is_awaiting stale = false
is_awaiting awaiting_new_window = true
is_awaiting unknown = false

pub record AccountStatus : Type 0 where
  pub auth_index : Str
  pub name : Str
  pub label : Str
  pub provider : Str
  pub health : Health
  pub quarantine_reason : Reason
  pub reset_state : ResetState
  pub reset_at : Option Time
  pub current_priority : Option ℤ
  pub desired_priority : ℤ
  pub last_success_at : Option Time
  pub observed_at : Option Time
  pub last_error : Str
  pub write_error : Str

pub record ProviderGroup : Type 0 where
  pub provider : Str
  pub accounts : List AccountStatus

pub record Snapshot : Type 0 where
  pub generated_at : Time
  pub dry_run : Bool
  pub enabled : Bool
  pub stopped : Bool
  pub display_timezone : Str
  pub warnings : List Str
  pub roster_error : Str
  pub next_reconcile_at : Option Time
  pub next_deadline_at : Option Time
  pub providers : List ProviderGroup
