-- ===== src/Config.antt =====
-- internal/config/config.go: the validated configuration.
pub mod Parse
pub mod Sound
use cpa_plugin_reset_priorit.Times.{Duration}
use cpa_plugin_reset_priorit.Base.{
  if◌then◌else◌, Str, bytes, str_eq, ℤ, ltb_ℤ, leb_ℤ, pos, Bool, false, Option, none, some, List,
}

pub record Config : Type 0 where
  pub enabled : Bool
  pub reconcile_interval : Duration
  pub request_timeout : Duration
  pub priority_floor : ℤ
  pub priority_step : ℤ
  pub quarantine_priority : ℤ
  pub manage_claude : Bool
  pub manage_codex : Bool
  pub dry_run : Bool
  pub display_timezone : Str
  pub warnings : List Str

abbrev pub provider_claude : Str
provider_claude = bytes "claude"

abbrev pub provider_codex : Str
provider_codex = bytes "codex"

unfoldable pub manages : Config → Str → Bool
manages c provider =
    if str_eq provider provider_claude
    then c.manage_claude
    else if str_eq provider provider_codex
    then c.manage_codex
    else false

pub data ConfigError : Type 0 where
  bad_interval bad_timeout bad_step bad_floor : ConfigError
  negative_quarantine quarantine_not_below_floor : ConfigError

-- `validate`, with `none` for a configuration that passes.
unfoldable pub validate : Config → Option ConfigError
validate c =
    if leb_ℤ c.reconcile_interval (pos 0)
    then some bad_interval
    else if leb_ℤ c.request_timeout (pos 0)
    then some bad_timeout
    else if leb_ℤ c.priority_step (pos 0)
    then some bad_step
    else if leb_ℤ c.priority_floor (pos 0)
    then some bad_floor
    else if ltb_ℤ c.quarantine_priority (pos 0)
    then some negative_quarantine
    else if leb_ℤ c.priority_floor c.quarantine_priority
    then some quarantine_not_below_floor
    else none
