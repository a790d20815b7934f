-- ===== src/Bridge/Answers.antt =====
-- What an operation of the bridge answers, and that it gives back what it took.
use cpa_plugin_reset_priorit.Bridge.{
  Gate, GateError, acquire, release, acquire_caller, release_caller, shutting_down, unavailable,
  callback_limit,
}
use cpa_plugin_reset_priorit.Bridge.Call.{
  Wire, Codec, answered, failed, gate_closed, call, invoke, HttpRequest, HttpResponse, Context,
  Select, context_ready, result_ready, both_ready, takes_context, http_do, fill_callback_id,
}
use cpa_plugin_reset_priorit.Base.{
  leb, if◌then◌else◌, Str, bytes, ◌≡◌, refl, ap, ◌≢◌, ◌⊎◌, inl, inr, false, not, Option, none, some,
  arith,
}

-- The error of a gate that admits nobody.
abbrev gate_error : Gate → Option GateError
gate_error g =
    if not g.accepting
    then some shutting_down
    else if not g.has_caller
    then some unavailable
    else if leb g.limiter.capacity g.limiter.held
    then some callback_limit
    else none

acquire-error : (g : Gate) → (acquire_caller g).1 ≡ gate_error g
unfolding acquire_caller acquire
acquire-error g = ground arith

acquire-refused : (g : Gate) → (acquire_caller g).1 ≢ none → (acquire_caller g).0 ≡ g
unfolding acquire_caller acquire
acquire-refused g h = ground arith

release-acquire : (g : Gate) → (acquire_caller g).1 ≡ none → release_caller (acquire_caller g).0 ≡ g
unfolding acquire_caller release_caller acquire release
release-acquire g h = ground arith

-- A callback with its request leaves the gate as it was, and has the host's answer if the gate admits it.
pub call_lem :
    {A : Type 0} (w : Wire) (g : Gate) (method request : Str) (decode : Str → Option A)
    → call w g method (some request) decode ≡ (
      g,
      elim (gate_error g) [
        | none ↦ invoke w method request decode
        | some e ↦ failed (gate_closed e)
      ],
    )
unfolding call
call_lem w g method request decode =
    ground (arith, acquire-error g, acquire-refused g, release-acquire g)

takes_result : (s : Select) → takes_context s ≡ false → (s ≡ result_ready) ⊎ (s ≡ both_ready false)
unfolding takes_context
takes_result context_ready h = cc
takes_result result_ready h = inl refl
takes_result (both_ready b) h = inr (ap both_ready h)

pub record Replied (w : Wire) (c : Codec) (g : Gate) (ctx : Context) (req : HttpRequest)
    (r : HttpResponse) : Type 0 where
  pub admitted : gate_error g ≡ none
  pub running : (ctx.ended_at_start ≡ false) × (ctx.ended_at_worker ≡ false)
  pub taken : (ctx.select ≡ result_ready) ⊎ (ctx.select ≡ both_ready false)
  pub request : Str
  pub encoded : c.of_http (fill_callback_id ctx req) ≡ some request
  pub replied : invoke w (bytes "host.http.do") request c.to_http ≡ answered r

-- What there is besides the choice of the select, which `takes_result` reads.
abbrev Answered : Wire → Codec → Gate → Context → HttpRequest → HttpResponse → Type 0
Answered w c g ctx req r =
    (gate_error g ≡ none)
    × (ctx.ended_at_start ≡ false)
    × (ctx.ended_at_worker ≡ false)
    × (takes_context ctx.select ≡ false)
    × (request : Str) × (c.of_http (fill_callback_id ctx req) ≡ some request)
    × (invoke w (bytes "host.http.do") request c.to_http ≡ answered r)

http_do-Answered :
    (w : Wire) (c : Codec) (g : Gate) (ctx : Context) (req : HttpRequest) {r : HttpResponse}
    → (http_do w c g ctx req).1 ≡ answered r
    → Answered w c g ctx req r
unfolding http_do
http_do-Answered w c g ctx req h = ground (arith, acquire-error g)

http_do-gate :
    (w : Wire) (c : Codec) (g : Gate) (ctx : Context) (req : HttpRequest) {r : HttpResponse}
    → (http_do w c g ctx req).1 ≡ answered r
    → (http_do w c g ctx req).0 ≡ g
unfolding http_do
http_do-gate w c g ctx req h = ground (arith, acquire-refused g, release-acquire g)

-- If HTTPDo returns an answer, then the gate admitted the call (it was open, had a caller and was below
-- its limit), the context had not ended at the start nor when the worker ran, and the select took the
-- result: either the context had not ended by then, or it had and Go picked the result of the two. The
-- answer is what the host gave for the encoded request, with the callback id of the context filled in
-- if it had none; and once the worker has returned the gate is as it was.
pub http_do-answered :
    (w : Wire) (c : Codec) (g : Gate) (ctx : Context) (req : HttpRequest) {r : HttpResponse}
    → (http_do w c g ctx req).1 ≡ answered r
    → ((http_do w c g ctx req).0 ≡ g) × Replied w c g ctx req r
http_do-answered w c g ctx req h =
    let (opened, start, worker, select, request, encoded, replied) =
      http_do-Answered w c g ctx req h in
    (
      http_do-gate w c g ctx req h,
      record {
        admitted = opened;
        running = (start, worker);
        taken = takes_result ctx.select select;
        request = request;
        encoded = encoded;
        replied = replied;
      },
    )
