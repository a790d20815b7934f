-- ===== src/Bridge.antt =====
-- internal/hostapi/bridge.go and callback_limit.go: the admission of host callbacks. The mutexes make
-- each function below one step; the process-wide limiter is a part of the gate that it guards.
pub mod Call
pub mod Answers
pub mod Workers
pub mod Admission
pub mod Drain
pub mod Progress
pub mod Liveness
use cpa_plugin_reset_priorit.Base.{
  ltb, leb, ◌==◌, if◌then◌else◌, ltb→lt, lt→ltb, ==_iff, Bool-cases, cons_first, split_on, split,
  keep_words, fields, drop_prefix, trim_prefix, has_suffix, trim_suffix, has_separator, lookup,
  insert_key, member, Str, bytes, str_eq, str_lt, is_empty, to_lower, is_space, trim_left,
  trim_space, equal_fold, has_prefix, contains, length, length-append, countp, any, filter, In, All,
  Pairs, ℤ, pos_part, neg_part, sub_ℕ, ◌+ℤ◌, ◌-ℤ◌, ◌*ℤ◌, ltb_ℤ, leb_ℤ, eqb_ℤ, ◌≤ℤ◌, eqb_ℤ_iff,
  max_int, min_int, u64_mod, pos, negsuc, str_eq_refl, str_eq→eq, str_eq_iff, str_lt_irrefl,
  str_lt_trans, str_lt_asym, str_lt_total, ℕ, zero, suc, ◌+◌, ◌-◌, ◌*◌, ◌/◌, ◌%◌, ◌^◌, ◌≤◌, ◌<◌,
  min, ◌≡◌, refl, sym, ap, ap₂, subst, ◌∙◌, ◌≢◌, ◌↔◌, ◌⊎◌, inl, inr, Bool, true, false, not, ◌&&◌,
  ◌||◌, Option, none, some, List, [], ◌∷◌, ◌++◌, map, arith,
}

-- `callbackLimiter`
pub record Limiter : Type 0 where
  pub held : ℕ
  pub capacity : ℕ

abbrev pub max_in_flight_host_callbacks : ℕ
max_in_flight_host_callbacks = 64

unfoldable pub new_limiter : ℕ → Limiter
new_limiter capacity = record { held = 0; capacity = capacity }

unfoldable pub acquire : Limiter → Limiter × Bool
acquire l = if leb l.capacity l.held then (l, false) else (record l { held = l.held + 1 }, true)

unfoldable pub release : Limiter → Limiter
release l = if ltb 0 l.held then record l { held = l.held - 1 } else l

-- A `Bridge` with the limiter it shares; `has_caller` is `b.caller != nil`.
pub record Gate : Type 0 where
  pub has_caller : Bool
  pub accepting : Bool
  pub in_flight : ℕ
  pub limiter : Limiter

pub data GateError : Type 0 where
  shutting_down unavailable callback_limit : GateError

unfoldable pub new_bridge : Bool → Limiter → Gate
new_bridge has_caller limiter = record {
  has_caller = has_caller;
  accepting = true;
  in_flight = 0;
  limiter = limiter;
}

-- `Quiesce`, and what `Drain` does before it waits.
unfoldable pub quiesce : Gate → Gate
quiesce g = record g { accepting = false }

-- `acquireCaller` of a bridge that is not nil: the error, or `none` for an admission.
unfoldable pub acquire_caller : Gate → Gate × Option GateError
unfolding acquire
acquire_caller g =
    let (limiter, admitted) = acquire g.limiter in
    if not g.accepting
    then (g, some shutting_down)
    else if not g.has_caller
    then (g, some unavailable)
    else if not admitted
    then (record g { limiter = limiter }, some callback_limit)
    else (record g { limiter = limiter; in_flight = g.in_flight + 1 }, none)

-- `releaseCaller`, which only an admitted callback calls.
unfoldable pub release_caller : Gate → Gate
unfolding release
release_caller g = record g { in_flight = g.in_flight - 1; limiter = release g.limiter }

-- Whether the wait of `Drain` is over.
abbrev pub is_drained : Gate → Bool
is_drained g = not g.accepting && g.in_flight == 0

-- The goroutine of `Drain`: not begun, asleep on the condition variable, woken, or returned.
pub data Drainer : Type 0 where
  idle parked woken returned : Drainer

-- One turn of the loop of `Drain`, under the mutex: it returns, or it waits.
unfoldable pub check_drained : Gate → Drainer
check_drained g = if g.in_flight == 0 then returned else parked

-- Whether `releaseCaller` broadcasts.
unfoldable pub broadcasts : Gate → Bool
broadcasts g = (g.in_flight - 1) == 0

-- `drained.Broadcast()`
abbrev pub broadcast : Drainer → Drainer
broadcast idle = idle
broadcast parked = woken
broadcast woken = woken
broadcast returned = returned
