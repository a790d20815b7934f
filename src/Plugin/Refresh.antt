-- ===== src/Plugin/Refresh.antt =====
-- What a management request can change.
use cpa_plugin_reset_priorit.Engine.{Engine}
use cpa_plugin_reset_priorit.Engine.Reconcile.{reconcile}
use cpa_plugin_reset_priorit.Bridge.Call.{with_host_callback_id}
use cpa_plugin_reset_priorit.Plugin.Request.{
  refresh_request_allowed, is_resource_path, same_site, fetch_site_header,
}
use cpa_plugin_reset_priorit.Plugin.Wire.{
  ManagementRequest, Response, Runtime, Services, on_sys, put_sys, trim_slashes, to_upper,
  management_refresh_path, management_status_path, management_status_page_path,
}
use cpa_plugin_reset_priorit.Plugin.Runtime.{refresh, engine_route, on_engine, route}
use cpa_plugin_reset_priorit.Plugin.Tokens.{Carries, cross_site_refused}
use cpa_plugin_reset_priorit.Base.{
  if◌then◌else◌, Bool-cases, has_suffix, Str, bytes, str_eq, trim_space, ◌≡◌, refl, ◌⊎◌, inl, inr,
  Bool, true, false, not, ◌&&◌, Option, none, some, arith,
}

-- A request that may start a reconciliation.
pub record IsRefresh (v : Services) (req : ManagementRequest) : Type 0 where
  pub post : str_eq (to_upper (trim_space req.method)) (bytes "POST") ≡ true
  pub refresh_path : has_suffix (trim_slashes req.path) management_refresh_path ≡ true
  pub managed : is_resource_path (trim_slashes req.path) ≡ false
  pub allowed : refresh_request_allowed v.parse_url req.headers ≡ true

module _ (v : Services) where
  -- The runtime after the reconciliation that the request starts.
  abbrev pub reconciled : ManagementRequest → Engine → Runtime → Runtime
  reconciled req e r =
      put_sys
        (reconcile (v.host_for (with_host_callback_id none req.host_callback_id)) (on_sys e r)).1 r

  abbrev Outcome : ManagementRequest → Engine → Runtime → Runtime → Type 0
  Outcome req e r r' = (r' ≡ r) ⊎ (IsRefresh v req × (r' ≡ reconciled req e r))

  refresh-outcome :
      (req : ManagementRequest) (e : Engine) (r : Runtime)
      → ((refresh v req e r).0 ≡ r)
        ⊎ ((refresh_request_allowed v.parse_url req.headers ≡ true)
            × ((refresh v req e r).0 ≡ reconciled req e r))
  unfolding refresh
  refresh-outcome req e r = elim (Bool-cases (refresh_request_allowed v.parse_url req.headers)) [
    | inl a ↦ rw a (inr (refl, refl))
    | inr a ↦ rw a (inl refl)
  ]

  -- The three tests of the routes, in their order.
  picked :
      (get post page plain again managed : Bool) (x y z r : Runtime × Response)
      (P : Runtime → Type 0)
      → P x.0
      → P y.0
      → (post ≡ true → again ≡ true → managed ≡ true → P z.0)
      → P r.0
      → P
          (if get && page && managed
            then x
            else if get && plain && managed
            then y
            else if post && again && managed
            then z
            else r).0
  picked get post page plain again managed x y z r P hx hy hz hr =
      elim (Bool-cases (get && page && managed)) [
        | inl a ↦ rw a hx
        | inr a ↦ rw a (elim (Bool-cases (get && plain && managed)) [
          | inl b ↦ rw b hy
          | inr b ↦ rw b (elim (Bool-cases (post && again && managed)) [
            | inl c ↦ rw c (hz (ground arith) (ground arith) (ground arith))
            | inr c ↦ rw c hr
          ])
        ])
      ]

  matched :
      (req : ManagementRequest) (e : Engine) (r : Runtime)
      → str_eq (to_upper (trim_space req.method)) (bytes "POST") ≡ true
      → has_suffix (trim_slashes req.path) management_refresh_path ≡ true
      → not (is_resource_path (trim_slashes req.path)) ≡ true
      → Outcome req e r (refresh v req e r).0
  matched req e r post path managed = elim (refresh-outcome req e r) [
    | inl same ↦ inl same
    | inr (allowed, changed) ↦ inr (
      record { post = post; refresh_path = path; managed = ground arith; allowed = allowed },
      changed,
    )
  ]

  engine_route-outcome :
      (req : ManagementRequest) (e : Engine) (r : Runtime)
      → Outcome req e r
          (engine_route v (to_upper (trim_space req.method)) (trim_slashes req.path) req e r).0
  unfolding engine_route
  engine_route-outcome req e r =
      let method = to_upper (trim_space req.method) in
      let path = trim_slashes req.path in
      picked (str_eq method (bytes "GET")) (str_eq method (bytes "POST"))
        (has_suffix path management_status_page_path) (has_suffix path management_status_path)
        (has_suffix path management_refresh_path) (not (is_resource_path path)) _ _
        (refresh v req e r) _ (Outcome req e r) (inl refl) (inl refl) (matched req e r) (inl refl)

  on_engine-outcome :
      (o : Option Engine) (req : ManagementRequest) (r : Runtime)
      → let r' =
          (on_engine v o (to_upper (trim_space req.method)) (trim_slashes req.path) req r).0 in
        (r' ≡ r) ⊎ (IsRefresh v req × (e : Engine) × (o ≡ some e) × (r' ≡ reconciled req e r))
  unfolding on_engine
  on_engine-outcome none req r = inl refl
  on_engine-outcome (some e) req r = elim (engine_route-outcome req e r) [
    | inl same ↦ inl same
    | inr (q, changed) ↦ inr (q, e, refl, changed)
  ]

  -- A management request leaves the runtime as it was, unless it is a POST to the refresh route of the
  -- management API, outside the resource paths, whose headers pass the refresh gate; then there is an
  -- engine, and the runtime is what one reconciliation of it makes.
  pub route-outcome :
      (req : ManagementRequest) (r : Runtime)
      → ((route v req r).0 ≡ r)
        ⊎ (IsRefresh v req
            × (e : Engine) × (r.engine ≡ some e)
            × ((route v req r).0 ≡ reconciled req e r))
  unfolding route
  route-outcome req r =
      elim (Bool-cases (
        str_eq (to_upper (trim_space req.method)) (bytes "GET")
        && is_resource_path (trim_slashes req.path))) [
          | inl a ↦ rw (a, route) (inl refl)
          | inr a ↦ rw (a, route) (on_engine-outcome r.engine req r)
        ]

  -- A request that carries a Sec-Fetch-Site token other than same-origin and none, in whatever line,
  -- place and spacing, leaves the runtime as it was, whatever else it says.
  pub cross_site_keeps :
      (req : ManagementRequest) (r : Runtime) (site : Str)
      → Carries req.headers fetch_site_header site
      → same_site site ≡ false
      → (route v req r).0 ≡ r
  cross_site_keeps req r site c other = elim (route-outcome req r) [
    | inl same ↦ same
    | inr (q, _, _, _) ↦
        let refused = cross_site_refused v.parse_url req.headers site c other in
        let allowed = q.allowed in absurd (cc (refused, allowed))
  ]
