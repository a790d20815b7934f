-- ===== src/Plugin/Runtime.antt =====
-- internal/plugin/runtime.go: the dispatcher. JSON codecs, the configuration parser and the renderers of
-- the pages are parameters. A Dispatch is one step, so that a shutdown finds none under way.
use cpa_plugin_reset_priorit.Plugin.Wire.{
  LifecycleRequest, ManagementRequest, static_page, status_page, status_json, message, Response,
  Envelope, registered, done, routes, response, error, Runtime, Services, on_sys, put_sys,
  json_response, html_response, negotiate, trim_slashes, to_upper, management_status_path,
  management_status_page_path, management_refresh_path, management_registration, reconcile_response,
}
use cpa_plugin_reset_priorit.Config.{Config}
use cpa_plugin_reset_priorit.Engine.{Engine}
use cpa_plugin_reset_priorit.Engine.Sys.{Sys, now_of, tick}
use cpa_plugin_reset_priorit.Engine.Life.{new, start, stop, shutdown, reconfigure}
use cpa_plugin_reset_priorit.Engine.Reconcile.{reconcile}
use cpa_plugin_reset_priorit.Bridge.{quiesce}
use cpa_plugin_reset_priorit.Bridge.Call.{with_host_callback_id}
use cpa_plugin_reset_priorit.Plugin.Request.{refresh_request_allowed, is_resource_path}
use cpa_plugin_reset_priorit.Base.{
  if◌then◌else◌, has_suffix, Str, bytes, str_eq, is_empty, trim_space, true, not, ◌&&◌, ◌||◌,
  Option, none, some, List, [], ◌∷◌,
}

module _ (v : Services) where
  -- `Engine.Stop` and `Engine.Shutdown`: the clock is read for the status.
  unfoldable pub quiesce_runtime : Runtime → Runtime
  quiesce_runtime r = elim r.engine [
    | none ↦ r
    | some e ↦
        let s = on_sys e r in put_sys (tick (record s { engine = stop (now_of v.host s) e })) r
  ]

  unfoldable pub shutdown_engine : Runtime → Runtime
  shutdown_engine r = elim r.engine [
    | none ↦ r
    | some e ↦
        let s = on_sys e r in put_sys (tick (record s { engine = shutdown (now_of v.host s) e })) r
  ]

  -- `Shutdown`, whose body runs once. `Drain` waits, and closes a gate that is closed.
  unfoldable pub shutdown_runtime : Runtime → Runtime
  unfolding quiesce_runtime shutdown_engine quiesce
  shutdown_runtime r =
      if r.shutting_down
      then r
      else shutdown_engine
          (quiesce_runtime (record r { shutting_down = true; bridge = quiesce r.bridge }))

  unfoldable pub install : Config → Runtime → Runtime
  install cfg r = elim r.engine [
    | none ↦
        let s : Sys = record { engine = new cfg (v.host.now r.trace); trace = r.trace } in
        let s' = tick s in
        put_sys (if cfg.enabled then record s' { engine = start s'.engine } else s') r
    | some e ↦ put_sys (reconfigure v.host cfg (on_sys e r)) r
  ]

  unfoldable pub configure : LifecycleRequest → Runtime → Runtime × Envelope
  unfolding install negotiate
  configure req r = elim (v.parse_config req.config_yaml) [
    | none ↦ (r, error (bytes "invalid_config"))
    | some cfg ↦ (install cfg r, registered (negotiate req.schema_version))
  ]

  unfoldable pub handle_lifecycle : Str → Runtime → Runtime × Envelope
  unfolding configure
  handle_lifecycle request r =
      if is_empty request
      then configure (record { config_yaml = []; schema_version = 0 }) r
      else elim (v.decode_lifecycle request) [
        | none ↦ (r, error (bytes "invalid_request"))
        | some req ↦ configure req r
      ]

  -- The refresh route, once its method and path have been matched.
  unfoldable pub refresh : ManagementRequest → Engine → Runtime → Runtime × Response
  unfolding refresh_request_allowed json_response reconcile_response with_host_callback_id
  refresh req e r =
      if not (refresh_request_allowed v.parse_url req.headers)
      then (r, json_response 403 (message (bytes "forbidden")))
      else (let h = v.host_for (with_host_callback_id none req.host_callback_id) in
          let (result, s) = reconcile h (on_sys e r) in (put_sys s r, reconcile_response result))

  status_page_response : Engine → Response
  unfolding html_response json_response
  status_page_response e = elim (v.render_status e.status) [
    | none ↦ json_response 500 (message (bytes "render status page failed"))
    | some page ↦ html_response 200 (status_page page)
  ]

  -- The routes that need an engine; `method` and `path` are the request's, normalised.
  unfoldable pub engine_route :
      Str → Str → ManagementRequest → Engine → Runtime → Runtime × Response
  unfolding str_eq has_suffix is_resource_path status_page_response json_response refresh
  engine_route method path req e r =
      let managed = not (is_resource_path path) in
      if str_eq method (bytes "GET") && has_suffix path management_status_page_path && managed
      then (r, status_page_response e)
      else if str_eq method (bytes "GET") && has_suffix path management_status_path && managed
      then (r, json_response 200 (status_json e.status))
      else if str_eq method (bytes "POST") && has_suffix path management_refresh_path && managed
      then refresh req e r
      else (r, json_response 404 (message (bytes "unknown route")))

  -- A route that needs an engine, which is there once the plugin has been registered.
  unfoldable pub on_engine :
      Option Engine → Str → Str → ManagementRequest → Runtime → Runtime × Response
  unfolding engine_route json_response
  on_engine none method path req r =
      (r, json_response 503 (message (bytes "plugin is not registered yet")))
  on_engine (some e) method path req r = engine_route method path req e r

  unfoldable pub route : ManagementRequest → Runtime → Runtime × Response
  unfolding trim_slashes to_upper trim_space str_eq is_resource_path html_response on_engine
  route req r =
      let path = trim_slashes req.path in
      let method = to_upper (trim_space req.method) in
      if str_eq method (bytes "GET") && is_resource_path path
      then (r, html_response 200 static_page)
      else on_engine r.engine method path req r

  respond : Runtime × Response → Runtime × Envelope
  respond (r, answer) = (r, response answer)

  unfoldable pub handle_management : Str → Runtime → Runtime × Envelope
  unfolding route respond
  handle_management request r =
      if is_empty request
      then respond
          (route (record { method = []; path = []; headers = []; host_callback_id = [] }) r)
      else elim (v.decode_management request) [
        | none ↦ (r, error (bytes "invalid_request"))
        | some req ↦ respond (route req r)
      ]

  -- A method that is admitted.
  handle : Str → Str → Runtime → Runtime × Envelope
  unfolding str_eq handle_lifecycle quiesce_runtime management_registration handle_management
  handle method request r =
      if str_eq method (bytes "plugin.register") || str_eq method (bytes "plugin.reconfigure")
      then handle_lifecycle request r
      else if str_eq method (bytes "plugin.quiesce") || str_eq method (bytes "plugin.shutdown")
      then (quiesce_runtime r, done)
      else if str_eq method (bytes "management.register")
      then (r, routes management_registration)
      else if str_eq method (bytes "management.handle")
      then handle_management request r
      else (r, error (bytes "unknown_method"))

  unfoldable pub dispatch : Str → Str → Runtime → Runtime × Envelope
  unfolding handle
  dispatch method request r =
      if r.shutting_down then (r, error (bytes "plugin_shutdown")) else handle method request r

  -- A sequence of dispatches, and their answers.
  unfoldable pub dispatch_all : List (Str × Str) → Runtime → Runtime × List Envelope
  unfolding dispatch
  dispatch_all [] r = (r, [])
  dispatch_all ((method, request) ∷ calls) r =
      let (r1, answer) = dispatch method request r in
      let (r2, answers) = dispatch_all calls r1 in (r2, answer ∷ answers)
