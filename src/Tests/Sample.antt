-- ===== src/Tests/Sample.antt =====
-- An engine with a healthy and a recovering account.
use cpa_plugin_reset_priorit.Times.{zero_time, second}
use cpa_plugin_reset_priorit.Config.{Config}
use cpa_plugin_reset_priorit.Providers.{Observation}
use cpa_plugin_reset_priorit.Engine.{Engine, Account, recovering, confirmed}
use cpa_plugin_reset_priorit.Engine.Accounts.{FetchAttempt}
use cpa_plugin_reset_priorit.Engine.Roster.{new_account}
use cpa_plugin_reset_priorit.Engine.Life.{blank, empty_status}
use cpa_plugin_reset_priorit.Json.{number, string, object, Fields, field, integer, decimal, end}
use cpa_plugin_reset_priorit.Providers.{ok, err}
use cpa_plugin_reset_priorit.Host.{Host}
use cpa_plugin_reset_priorit.Engine.Sys.{Sys}
use cpa_plugin_reset_priorit.Base.{bytes, length, pos, ◌+◌, ◌*◌, true, false, none, some, [], ◌∷◌}

abbrev pub config : Config
config = record {
  enabled = true;
  reconcile_interval = pos (3600 * second);
  request_timeout = pos (10 * second);
  priority_floor = pos 100;
  priority_step = pos 100;
  quarantine_priority = pos 0;
  manage_claude = true;
  manage_codex = true;
  dry_run = false;
  display_timezone = bytes "UTC";
  warnings = [];
}

abbrev pub blank_account : Account
blank_account = new_account (bytes "1") (bytes "claude")

abbrev pub known_account : Account
known_account = record blank_account {
  name = bytes "a.json";
  reset_at = zero_time + 100;
  reset_state = confirmed;
}

abbrev pub later_account : Account
later_account = record blank_account {
  auth_index = bytes "2";
  name = bytes "b.json";
  reset_at = zero_time + 200;
  reset_state = confirmed;
}

abbrev pub recovering_account : Account
recovering_account = record blank_account {
  auth_index = bytes "3";
  name = bytes "c.json";
  health = recovering;
  recovered_at = zero_time + 10;
  recovery_sentinel_ready = true;
}

abbrev pub engine : Engine
engine = record (blank config empty_status) {
  accounts = known_account ∷ later_account ∷ recovering_account ∷ [];
}

abbrev pub attempt : FetchAttempt
attempt = record {
  auth_index = bytes "1";
  epoch = 0;
  seq = 1;
  config_seq = 0;
  expected = none;
  started_at = zero_time + 20;
}

abbrev pub observation : Observation
observation = record { has_weekly = true; reset_at = zero_time + 500; observed_at = zero_time + 30 }

-- A host whose clock moves one nanosecond per call, with one file of an access token and a
-- priority, and which saves and fetches without errors.
abbrev pub sample_fields : Fields
sample_fields =
    field (bytes "access_token") (string (bytes "t"))
      (field (bytes "priority") (number (integer (pos 7))) end)

abbrev pub host : Host
host = record {
  now = λ t. zero_time + 20 + length t;
  auth_list = λ _. ok [];
  auth_get = λ _ i. ok (record { auth_index = i; name = []; doc = some (object sample_fields) });
  auth_get_runtime = λ _ _. err (bytes "no runtime");
  auth_save = λ _ _ _. none;
  slot = λ _ _. true;
  has_provider = λ _. true;
  fetch = λ _ _ _. ok observation;
  decode_payload = λ _. none;
  float_to_int = λ n. elim n [ integer z ↦ some z | decimal _ _ ↦ none ];
}

abbrev pub sys : Sys
sys = record { engine = engine; trace = [] }
