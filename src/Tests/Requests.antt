-- ===== src/Tests/Requests.antt =====
-- Requests to the runtime over the sample engine.
use cpa_plugin_reset_priorit.Bridge.{Gate}
use cpa_plugin_reset_priorit.Plugin.Request.{Headers, same_site, fetch_site_header, names_header}
use cpa_plugin_reset_priorit.Plugin.Wire.{LifecycleRequest, ManagementRequest, Runtime, Services}
use cpa_plugin_reset_priorit.Plugin.Runtime.{
  route, dispatch_all, shutdown_runtime, handle_lifecycle,
}
use cpa_plugin_reset_priorit.Plugin.Tokens.{Carries}
use cpa_plugin_reset_priorit.Plugin.Refresh.{IsRefresh, reconciled, route-outcome, cross_site_keeps}
use cpa_plugin_reset_priorit.Plugin.Terminal.{
  refused, LifecycleOutcome, shutdown_is_final, lifecycle_lem,
}
use cpa_plugin_reset_priorit.Engine.{Engine}
use cpa_plugin_reset_priorit.Tests.Sample.{host, engine, config}
use cpa_plugin_reset_priorit.Base.{
  split, Str, bytes, trim_space, ◌≡◌, refl, ◌⊎◌, true, false, none, some, List, [], ◌∷◌,
}
use cpa_plugin_reset_priorit.Base.{here, there}

abbrev lifecycle : LifecycleRequest
lifecycle = record { config_yaml = bytes "enabled: true"; schema_version = 2 }

abbrev cross_site : Headers
cross_site =
    (bytes "X-Reset-Priority-Refresh", bytes "1" ∷ [])
    ∷ (bytes " sec-fetch-site", bytes "same-origin" ∷ bytes "none , cross-site" ∷ [])
    ∷ []

abbrev refresh_request : ManagementRequest
refresh_request = record {
  method = bytes "post";
  path = bytes "/v0/management/plugins/reset-priority/refresh/";
  headers = cross_site;
  host_callback_id = bytes "7";
}

abbrev services : Services
services = record {
  host = host;
  host_for = λ _. host;
  decode_lifecycle = λ _. some lifecycle;
  decode_management = λ _. some refresh_request;
  parse_config = λ _. some config;
  parse_url = λ _. none;
  render_status = λ _. some (bytes "<html>");
}

abbrev gate : Gate
gate = record {
  has_caller = true;
  accepting = true;
  in_flight = 0;
  limiter = record { held = 0; capacity = 64 };
}

abbrev runtime : Runtime
runtime = record { engine = some engine; trace = []; bridge = gate; shutting_down = false }

route-outcome_example :
    ((route services refresh_request runtime).0 ≡ runtime)
    ⊎ (IsRefresh services refresh_request
        × (e : Engine) × (runtime.engine ≡ some e)
        × ((route services refresh_request runtime).0
            ≡ reconciled services refresh_request e runtime))
route-outcome_example = route-outcome services refresh_request runtime

Carries-cross_site : Carries cross_site fetch_site_header (bytes "cross-site")
unfolding names_header split trim_space
Carries-cross_site = record {
  key = bytes " sec-fetch-site";
  values = bytes "same-origin" ∷ bytes "none , cross-site" ∷ [];
  line = there (here refl);
  named = refl;
  value = bytes "none , cross-site";
  of_line = there (here refl);
  part = bytes " cross-site";
  of_value = there (here refl);
  trimmed = refl;
  some_byte = refl;
}

other_site : same_site (bytes "cross-site") ≡ false
unfolding same_site
other_site = refl

cross_site_keeps_example : (route services refresh_request runtime).0 ≡ runtime
cross_site_keeps_example =
    cross_site_keeps services refresh_request runtime (bytes "cross-site") Carries-cross_site
      other_site

abbrev calls : List (Str × Str)
calls = (bytes "plugin.reconfigure", bytes "{}") ∷ (bytes "management.handle", bytes "{}") ∷ []

shutdown_is_final_example :
    ((shutdown_runtime services runtime).bridge.accepting ≡ false)
    × (dispatch_all services calls (shutdown_runtime services runtime)
        ≡ (shutdown_runtime services runtime, refused calls))
    × (shutdown_runtime services (shutdown_runtime services runtime)
        ≡ shutdown_runtime services runtime)
shutdown_is_final_example = shutdown_is_final services calls runtime refl

lifecycle_lem_example :
    LifecycleOutcome services lifecycle runtime (handle_lifecycle services (bytes "{}") runtime)
lifecycle_lem_example = lifecycle_lem services (bytes "{}") runtime {req = lifecycle} refl refl
