-- ===== src/Tests/Callbacks.antt =====
-- The bridge: one callback that its caller gives up, and a shutdown.
use cpa_plugin_reset_priorit.Bridge.{
  Gate, acquire, release, acquire_caller, release_caller, quiesce, shutting_down, idle, parked,
  woken, returned, check_drained, broadcasts,
}
use cpa_plugin_reset_priorit.Bridge.Workers.{
  gone, refused, admitted, inside, admit, refuse, enter, leave, hand_back, give_up_inside, first,
  System, Step, arrive, turn, close, begin, other_acquire, Later, now, next, opened, holds,
  is_inside, total,
}
use cpa_plugin_reset_priorit.Bridge.Admission.{Counts, Later-Counts}
use cpa_plugin_reset_priorit.Bridge.Drain.{drained_is_final}
use cpa_plugin_reset_priorit.Bridge.Progress.{left, advance, advances_of}
use cpa_plugin_reset_priorit.Bridge.Liveness.{drain_ends}
use cpa_plugin_reset_priorit.Bridge.Call.{
  Wire, Codec, raw, answered, HttpRequest, HttpResponse, Context, both_ready, http_do,
}
use cpa_plugin_reset_priorit.Bridge.Answers.{Replied, http_do-answered}
use cpa_plugin_reset_priorit.Base.{
  bytes, pos, ◌<◌, ◌≡◌, refl, ◌⊎◌, true, false, none, some, [], ◌∷◌,
}

-- One callback of this bridge and one of another, over a limit of two.
abbrev busy : System
busy = record {
  gate = record {
    has_caller = true;
    accepting = true;
    in_flight = 1;
    limiter = record { held = 2; capacity = 2 };
  };
  workers = admitted false ∷ [];
  drain = idle;
  others = 1;
}

to_busy : Later (opened true 2) busy
unfolding acquire_caller acquire
to_busy = next (next (next now arrive) (turn (first (admit refl)))) (other_acquire refl)

Later-Counts_example : Counts (total holds busy.workers) busy.others busy.gate
Later-Counts_example = Later-Counts true 2 to_busy

abbrev closed : System
closed = record busy { gate = record busy.gate { accepting = false }; workers = inside true ∷ [] }

to_closed : Later (opened true 2) closed
unfolding quiesce
to_closed = next (next (next to_busy (turn (first enter))) (turn (first give_up_inside))) close

abbrev drained : System
drained = record closed {
  gate = record closed.gate { in_flight = 0; limiter = record { held = 1; capacity = 2 } };
  workers = gone ∷ [];
}

to_drained : Later (opened true 2) drained
unfolding release_caller release broadcasts
to_drained = next (next to_closed (turn (first leave))) (turn (first hand_back))

abbrev turned_away : System
turned_away = record drained { workers = refused shutting_down ∷ gone ∷ [] }

to_turned_away : Later drained turned_away
unfolding acquire_caller acquire
to_turned_away = next (next now arrive) (turn (first (refuse refl)))

drained_is_final_example :
    (total is_inside turned_away.workers ≡ 0)
    × (turned_away.gate.in_flight ≡ 0)
    × (turned_away.gate.accepting ≡ false)
drained_is_final_example =
    drained_is_final true 2 {s = drained} {t = turned_away} to_drained refl to_turned_away

abbrev draining : System
draining = record closed { drain = parked }

to_draining : Later (opened true 2) draining
unfolding quiesce check_drained
to_draining = next to_closed (begin refl)

-- The last callback hands back, which wakes Drain.
abbrev awake : System
awake = record drained { drain = woken }

to_awake : Later draining awake
unfolding release_caller release broadcasts
to_awake = next (next now (turn (first leave))) (turn (first hand_back))

drain_ends_example :
    ((awake.drain ≡ returned) × (awake.gate.in_flight ≡ 0))
    ⊎ ((advances_of to_awake < left draining)
        × ((u : System) × (st : Step awake u) × (advance st ≡ 1)))
drain_ends_example = drain_ends true 2 {s = draining} {t = awake} to_draining refl to_awake

abbrev page : HttpResponse
page = record { status_code = pos 200; headers = []; body = bytes "{}" }

abbrev wire : Wire
wire = record {
  call_host = λ method request. raw request;
  decode_envelope = λ text. some (record { ok = true; result = text; error = none });
}

abbrev codec : Codec
codec = record {
  no_fields = some [];
  of_auth_index = λ s. some s;
  of_save = λ s t. some t;
  of_http = λ req. some req.url;
  of_log = λ s t. some t;
  to_auth_list = λ s. none;
  to_auth_get = λ s. none;
  to_auth_runtime = λ s. none;
  to_save = λ s. none;
  to_http = λ s. some page;
}

abbrev get_page : HttpRequest
get_page = record {
  host_callback_id = [];
  method = bytes "GET";
  url = bytes "https://example.com/usage";
  headers = [];
  body = [];
}

abbrev waiting : Context
waiting = record {
  callback_id = some (bytes "7");
  ended_at_start = false;
  ended_at_worker = false;
  select = both_ready false;
}

abbrev open_gate : Gate
open_gate = record busy.gate { limiter = record { held = 1; capacity = 2 } }

page_answered : (http_do wire codec open_gate waiting get_page).1 ≡ answered page
unfolding http_do acquire_caller acquire
page_answered = refl

http_do-answered_example :
    ((http_do wire codec open_gate waiting get_page).0 ≡ open_gate)
    × Replied wire codec open_gate waiting get_page page
http_do-answered_example = http_do-answered wire codec open_gate waiting get_page page_answered
