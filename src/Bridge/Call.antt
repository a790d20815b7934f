-- ===== src/Bridge/Call.antt =====
-- internal/hostapi/bridge.go: one callback, from its request to its decoded answer, and the callback id
-- of internal/hostapi/callback_context.go. JSON codecs and the host are parameters.
use cpa_plugin_reset_priorit.Bridge.{Gate, GateError, acquire_caller, release_caller}
use cpa_plugin_reset_priorit.Health.{AuthEntry}
use cpa_plugin_reset_priorit.Base.{
  if◌then◌else◌, Str, bytes, is_empty, trim_space, ℤ, Bool, true, false, Option, none, some, List,
  [],
}

pub record EnvelopeError : Type 0 where
  pub code : Str
  pub message : Str

pub record Envelope : Type 0 where
  pub ok : Bool
  pub result : Str
  pub error : Option EnvelopeError

-- Why an operation of the bridge has no answer.
pub data Failure : Type 0 where
  marshal bad_envelope bad_result context_ended : Failure
  gate_closed : GateError → Failure
  -- the caller's own error, with its text
  call_failed : Str → Failure
  -- an envelope that is not ok, with the host's error if it names one
  host_failed : Option EnvelopeError → Failure

pub data Outcome {ℓ} (A : Type ℓ) : Type ℓ where
  answered : A → Outcome A
  failed : Failure → Outcome A

-- The raw answer of `Caller.Call`, or the text of its error.
pub data Raw : Type 0 where
  raw : Str → Raw
  raw_error : Str → Raw

-- A raw host callback and the JSON decoder of envelopes.
pub record Wire : Type 0 where
  pub call_host : Str → Str → Raw
  pub decode_envelope : Str → Option Envelope

module _ {ℓ} {A : Type ℓ} (w : Wire) where
  decode_result : (Str → Option A) → Str → Outcome A
  decode_result decode result = elim (decode result) [
    | none ↦ failed bad_result
    | some a ↦ answered a
  ]

  read_envelope : (Str → Option A) → Envelope → Outcome A
  unfolding decode_result
  read_envelope decode env =
      if env.ok then decode_result decode env.result else failed (host_failed env.error)

  read_answer : (Str → Option A) → Raw → Outcome A
  unfolding read_envelope
  read_answer decode (raw_error text) = failed (call_failed text)
  read_answer decode (raw r) = elim (w.decode_envelope r) [
    | none ↦ failed bad_envelope
    | some env ↦ read_envelope decode env
  ]

  unfoldable pub invoke : Str → Str → (Str → Option A) → Outcome A
  unfolding read_answer
  invoke method request decode = read_answer decode (w.call_host method request)

  -- What an admitted callback does, with its deferred release.
  admitted_call : Gate × Option GateError → Str → Str → (Str → Option A) → Gate × Outcome A
  unfolding invoke
  admitted_call (g, some e) method request decode = (g, failed (gate_closed e))
  admitted_call (g, none) method request decode = (release_caller g, invoke method request decode)

  -- The second argument is the request that `json.Marshal` renders.
  unfoldable pub call : Gate → Str → Option Str → (Str → Option A) → Gate × Outcome A
  unfolding admitted_call
  call g method none decode = (g, failed marshal)
  call g method (some request) decode = admitted_call (acquire_caller g) method request decode

-- `WithHostCallbackID` and `HostCallbackIDFromContext`, on what a context carries under the key.
unfoldable pub with_host_callback_id : Option Str → Str → Option Str
with_host_callback_id carried callback_id =
    let trimmed = trim_space callback_id in if is_empty trimmed then carried else some trimmed

unfoldable pub host_callback_id_from_context : Option Str → Str
host_callback_id_from_context none = []
host_callback_id_from_context (some callback_id) = trim_space callback_id

pub record HttpRequest : Type 0 where
  pub host_callback_id : Str
  pub method : Str
  pub url : Str
  pub headers : List (Str × List Str)
  pub body : Str

pub record HttpResponse : Type 0 where
  pub status_code : ℤ
  pub headers : List (Str × List Str)
  pub body : Str

pub record AuthGetResponse : Type 0 where
  pub auth_index : Str
  pub name : Str
  pub path : Str
  pub json : Str

-- What the select of HTTPDo finds ready when it goes on. If it finds both, Go picks at random: the flag
-- is whether it takes the end of the context.
pub data Select : Type 0 where
  context_ready result_ready : Select
  both_ready : Bool → Select

unfoldable pub takes_context : Select → Bool
takes_context context_ready = true
takes_context result_ready = false
takes_context (both_ready picks_context) = picks_context

-- What HTTPDo reads of its context: the id that it carries, whether it has ended at the start and when
-- the worker runs, and what the select finds.
pub record Context : Type 0 where
  pub callback_id : Option Str
  pub ended_at_start : Bool
  pub ended_at_worker : Bool
  pub select : Select

-- `encoding/json` on the requests and answers; an encoder or decoder that fails is `none`.
pub record Codec : Type 0 where
  pub no_fields : Option Str
  pub of_auth_index : Str → Option Str
  pub of_save : Str → Str → Option Str
  pub of_http : HttpRequest → Option Str
  pub of_log : Str → Str → Option Str
  pub to_auth_list : Str → Option (List AuthEntry)
  pub to_auth_get : Str → Option AuthGetResponse
  pub to_auth_runtime : Str → Option AuthEntry
  pub to_save : Str → Option (Str × Str)
  pub to_http : Str → Option HttpResponse

-- The request with the context's callback id, if it has none of its own.
unfoldable pub fill_callback_id : Context → HttpRequest → HttpRequest
unfolding host_callback_id_from_context
fill_callback_id ctx req =
    if is_empty req.host_callback_id
    then record req { host_callback_id = host_callback_id_from_context ctx.callback_id }
    else req

module _ (w : Wire) (c : Codec) where
  unfoldable pub auth_list : Gate → Gate × Outcome (List AuthEntry)
  unfolding call
  auth_list g = call w g (bytes "host.auth.list") c.no_fields c.to_auth_list

  unfoldable pub auth_get : Gate → Str → Gate × Outcome AuthGetResponse
  unfolding call
  auth_get g auth_index =
      call w g (bytes "host.auth.get") (c.of_auth_index auth_index) c.to_auth_get

  unfoldable pub auth_get_runtime : Gate → Str → Gate × Outcome AuthEntry
  unfolding call
  auth_get_runtime g auth_index =
      call w g (bytes "host.auth.get_runtime") (c.of_auth_index auth_index) c.to_auth_runtime

  unfoldable pub auth_save : Gate → Str → Str → Gate × Outcome (Str × Str)
  unfolding call
  auth_save g name doc = call w g (bytes "host.auth.save") (c.of_save name doc) c.to_save

  -- The answer is not decoded, and what comes of it is dropped.
  unfoldable pub log : Gate → Str → Str → Gate
  unfolding call
  log g level message =
      (call {A = Unit {0}} w g (bytes "host.log") (c.of_log level message) (λ _. some tt)).0

  -- The worker's result, for the caller that still waits.
  http_worker : Context → Str → Outcome HttpResponse
  unfolding invoke
  http_worker ctx request =
      if ctx.ended_at_worker
      then failed context_ended
      else invoke w (bytes "host.http.do") request c.to_http

  admitted_http : Gate × Option GateError → Context → Str → Gate × Outcome HttpResponse
  unfolding http_worker takes_context
  admitted_http (g, some e) ctx request = (g, failed (gate_closed e))
  admitted_http (g, none) ctx request = (
    release_caller g,
    if takes_context ctx.select then failed context_ended else http_worker ctx request,
  )

  marshalled_http : Gate → Context → Option Str → Gate × Outcome HttpResponse
  unfolding admitted_http
  marshalled_http g ctx none = (g, failed marshal)
  marshalled_http g ctx (some request) = admitted_http (acquire_caller g) ctx request

  -- `HTTPDo`, with the gate as it is once its worker has returned.
  unfoldable pub http_do : Gate → Context → HttpRequest → Gate × Outcome HttpResponse
  unfolding marshalled_http fill_callback_id
  http_do g ctx req =
      if ctx.ended_at_start
      then (g, failed context_ended)
      else marshalled_http g ctx (c.of_http (fill_callback_id ctx req))
