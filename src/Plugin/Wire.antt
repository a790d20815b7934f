-- ===== src/Plugin/Wire.antt =====
-- internal/plugin/runtime.go: the requests and answers of the dispatcher, its state, and what it is given.
use mathlib.Core.List.{reverse}
use cpa_plugin_reset_priorit.Config.{Config}
use cpa_plugin_reset_priorit.Status.{Snapshot}
use cpa_plugin_reset_priorit.Host.{Host, Call}
use cpa_plugin_reset_priorit.Engine.{Engine}
use cpa_plugin_reset_priorit.Engine.Sys.{Sys}
use cpa_plugin_reset_priorit.Engine.Reconcile.{ReconcileResult, success, no_op, failed}
use cpa_plugin_reset_priorit.Bridge.{Gate}
use cpa_plugin_reset_priorit.Plugin.Request.{Headers, Url}
use cpa_plugin_reset_priorit.Base.{
  ltb, leb, ◌==◌, if◌then◌else◌, Str, bytes, ℕ, ◌-◌, Bool, false, ◌&&◌, Option, none, some, List,
  [], ◌∷◌, map,
}

pub record LifecycleRequest : Type 0 where
  pub config_yaml : Str
  pub schema_version : ℕ

pub record ManagementRequest : Type 0 where
  pub method : Str
  pub path : Str
  pub headers : Headers
  pub host_callback_id : Str

pub data Body : Type 0 where
  static_page : Body
  status_page : Str → Body
  status_json : Snapshot → Body
  message : Str → Body

pub record Response : Type 0 where
  pub status_code : ℕ
  pub content_type : Str
  pub body : Body

pub data Route : Type 0 where
  status_route status_page_route refresh_route resource_route : Route

-- An envelope; an error is known by its code.
pub data Envelope : Type 0 where
  registered : ℕ → Envelope
  done : Envelope
  routes : List Route → Envelope
  response : Response → Envelope
  error : Str → Envelope

abbrev pub implemented_schema : ℕ
implemented_schema = 4

pub record Runtime : Type 0 where
  pub engine : Option Engine
  pub trace : List Call
  pub bridge : Gate
  pub shutting_down : Bool

-- What the runtime is given: the environment of its engine, the decoders of requests (`none` for
-- malformed JSON; an empty request is not decoded), `config.Parse`, `url.Parse` and the renderer of the
-- status page. A management request has the host that its callback id selects.
pub record Services : Type 0 where
  pub host : Host
  pub host_for : Option Str → Host
  pub decode_lifecycle : Str → Option LifecycleRequest
  pub decode_management : Str → Option ManagementRequest
  pub parse_config : Str → Option Config
  pub parse_url : Str → Option Url
  pub render_status : Snapshot → Option Str

unfoldable pub new_runtime : Gate → Runtime
new_runtime bridge = record { engine = none; trace = []; bridge = bridge; shutting_down = false }

abbrev pub on_sys : Engine → Runtime → Sys
on_sys e r = record { engine = e; trace = r.trace }

abbrev pub put_sys : Sys → Runtime → Runtime
put_sys s r = record r { engine = some s.engine; trace = s.trace }

unfoldable pub json_response : ℕ → Body → Response
json_response status body = record {
  status_code = status;
  content_type = bytes "application/json; charset=utf-8";
  body = body;
}

unfoldable pub html_response : ℕ → Body → Response
html_response status body = record {
  status_code = status;
  content_type = bytes "text/html; charset=utf-8";
  body = body;
}

-- The schema that a registration claims.
unfoldable pub negotiate : ℕ → ℕ
negotiate offered =
    if offered == 0
    then 1
    else if ltb offered implemented_schema
    then offered
    else implemented_schema

-- `strings.TrimRight(path, "/")` and `strings.ToUpper`.
drop_slashes : Str → Str
drop_slashes [] = []
drop_slashes (c ∷ s) = let rest = drop_slashes s in if c == b'/' then rest else c ∷ s

unfoldable pub trim_slashes : Str → Str
unfolding drop_slashes
trim_slashes path = reverse (drop_slashes (reverse path))

unfoldable pub to_upper : Str → Str
to_upper = map (λ c. if leb b'a' c && leb c b'z' then c - 32 else c)

abbrev pub management_status_path : Str
management_status_path = bytes "/plugins/reset-priority/status"

abbrev pub management_status_page_path : Str
management_status_page_path = bytes "/plugins/reset-priority/status/html"

abbrev pub management_refresh_path : Str
management_refresh_path = bytes "/plugins/reset-priority/refresh"

unfoldable pub management_registration : List Route
management_registration = status_route ∷ status_page_route ∷ refresh_route ∷ resource_route ∷ []

unfoldable pub reconcile_response : ReconcileResult → Response
unfolding json_response
reconcile_response success = json_response 200 (message (bytes "ok"))
reconcile_response no_op = json_response 409 (message (bytes "no_op"))
reconcile_response failed = json_response 503 (message (bytes "error"))
