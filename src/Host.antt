-- ===== src/Host.antt =====
-- The plugin's environment: the host callbacks of internal/hostapi, the provider adapters and the
-- clock that `Deps` hands to the engine. Each answers by the calls made so far, the latest first.
use cpa_plugin_reset_priorit.Times.{Time}
use cpa_plugin_reset_priorit.Json.{Json, Fields, Number}
use cpa_plugin_reset_priorit.Health.{AuthEntry}
use cpa_plugin_reset_priorit.Providers.{Result, Credentials, Observation}
use cpa_plugin_reset_priorit.Base.{Str, ℤ, Bool, true, false, Option, List}

-- AuthGetResponse; a document that is no JSON is `none`.
pub record AuthDoc : Type 0 where
  pub auth_index : Str
  pub name : Str
  pub doc : Option Json

pub data Call : Type 0 where
  read_clock : Call
  list_auths : Call
  get_auth : Str → Call
  get_runtime : Str → Call
  save_auth : Str → Fields → Call
  fetch_weekly : Str → Credentials → Call
  log_line : Call

pub record Host : Type 0 where
  pub now : List Call → Time
  pub auth_list : List Call → Result (List AuthEntry)
  pub auth_get : List Call → Str → Result AuthDoc
  pub auth_get_runtime : List Call → Str → Result AuthEntry
  -- the text of an error, or `none`
  pub auth_save : List Call → Str → Fields → Option Str
  -- whether a fetch gets a slot before its context ends
  pub slot : List Call → Str → Bool
  pub has_provider : Str → Bool
  pub fetch : List Call → Str → Credentials → Result Observation
  -- base64 and JSON decoding of a token's payload
  pub decode_payload : Str → Option Json
  -- a JSON number read as a float64 and converted to `int`
  pub float_to_int : Number → Option ℤ

abbrev pub is_save : Call → Bool
is_save read_clock = false
is_save list_auths = false
is_save (get_auth _) = false
is_save (get_runtime _) = false
is_save (save_auth _ _) = true
is_save (fetch_weekly _ _) = false
is_save log_line = false

abbrev pub is_fetch : Call → Bool
is_fetch read_clock = false
is_fetch list_auths = false
is_fetch (get_auth _) = false
is_fetch (get_runtime _) = false
is_fetch (save_auth _ _) = false
is_fetch (fetch_weekly _ _) = true
is_fetch log_line = false
