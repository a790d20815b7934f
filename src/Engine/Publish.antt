-- ===== src/Engine/Publish.antt =====
-- publishStatusLocked of internal/engine/status.go.
use cpa_plugin_reset_priorit.Times.{Time, is_zero}
use cpa_plugin_reset_priorit.Config.{provider_claude, provider_codex, manages}
use cpa_plugin_reset_priorit.Sanitize.{message}
use cpa_plugin_reset_priorit.Status.{AccountStatus, ProviderGroup, Snapshot}
use cpa_plugin_reset_priorit.Engine.{Engine, Account}
use cpa_plugin_reset_priorit.Base.{
  if◌then◌else◌, Str, str_eq, str_lt, ltb_ℤ, eqb_ℤ, Bool, not, Option, none, some, List, [], ◌∷◌,
  ◌++◌,
}

abbrev unless_zero : Time → Option Time
unless_zero t = if is_zero t then none else some t

unfoldable pub status_row : Account → AccountStatus
unfolding message
status_row a = record {
  auth_index = a.auth_index;
  name = a.name;
  label = a.label;
  provider = a.provider;
  health = a.health;
  quarantine_reason = a.quarantine_reason;
  reset_state = a.reset_state;
  reset_at = unless_zero a.reset_at;
  current_priority = if a.current_known then some a.current_priority else none;
  desired_priority = a.desired;
  last_success_at = unless_zero a.last_success_at;
  observed_at = unless_zero a.observed_at;
  last_error = message a.last_error;
  write_error = message a.write_error;
}

-- The comparison of the rows: by priority downwards, then by name.
unfoldable pub row_less : AccountStatus → AccountStatus → Bool
row_less a b =
    if not (eqb_ℤ a.desired_priority b.desired_priority)
    then ltb_ℤ b.desired_priority a.desired_priority
    else str_lt a.name b.name

unfoldable pub insert_row : AccountStatus → List AccountStatus → List AccountStatus
unfolding row_less
insert_row x [] = x ∷ []
insert_row x (y ∷ ys) = let rest = insert_row x ys in if row_less y x then y ∷ rest else x ∷ y ∷ ys

unfoldable pub sort_rows : List AccountStatus → List AccountStatus
unfolding insert_row
sort_rows [] = []
sort_rows (x ∷ xs) = insert_row x (sort_rows xs)

unfoldable pub provider_rows : Str → List Account → List AccountStatus
unfolding status_row
provider_rows provider [] = []
provider_rows provider (a ∷ rest) =
    let rows = provider_rows provider rest in
    if str_eq a.provider provider then status_row a ∷ rows else rows

-- A provider's section: its sorted rows; an empty one if it is managed and has no account.
unfoldable pub section : Engine → Str → List ProviderGroup
unfolding provider_rows sort_rows manages
section e provider = elim (provider_rows provider e.accounts) [
  | [] ↦ if manages e.cfg provider then record { provider = provider; accounts = [] } ∷ [] else []
  | row ∷ rows ↦ record { provider = provider; accounts = sort_rows (row ∷ rows) } ∷ []
]

unfoldable pub snapshot : Engine → Time → Snapshot
unfolding section
snapshot e now = record {
  generated_at = now;
  dry_run = e.cfg.dry_run;
  enabled = e.cfg.enabled;
  stopped = e.stopped;
  display_timezone = e.cfg.display_timezone;
  warnings = e.cfg.warnings;
  roster_error = e.last_roster_error;
  next_reconcile_at = unless_zero e.next_reconcile_at;
  next_deadline_at = unless_zero e.next_deadline_at;
  providers = section e provider_claude ++ section e provider_codex;
}

unfoldable pub publish_status : Time → Engine → Engine
unfolding snapshot
publish_status now e = record e { status = snapshot e now }
