-- ===== src/Engine/Work.antt =====
-- The work counter, the timers of `afterFunc` and `runAsync`, at the end of engine.go.
use cpa_plugin_reset_priorit.Times.{Duration}
use cpa_plugin_reset_priorit.Engine.{
  Engine, Account, Timer, TimerHandle, inactive, tracked, Task, bump,
}
use cpa_plugin_reset_priorit.Base.{
  ◌==◌, if◌then◌else◌, ℕ, ◌+◌, ◌-◌, Bool, true, false, ◌||◌, Option, none, some, List, [], ◌∷◌,
  ◌++◌,
}

-- `reserveWork`, for the engine after it and whether the work may go on.
unfoldable pub reserve_work : Engine → Engine × Bool
reserve_work e = if e.terminal then (e, false) else (record e { work = e.work + 1 }, true)

unfoldable pub release_work : Engine → Engine
release_work e = record e { work = e.work - 1 }

-- `afterFunc(delay, f)`
unfoldable pub after_func : Duration → Task → Engine → Engine × TimerHandle
unfolding reserve_work
after_func delay task e =
    let (e', admitted) = reserve_work e in
    if admitted
    then (
      record e' {
        next_timer = e.next_timer + 1;
        pending = record { timer = e.next_timer; delay = delay; task = task } ∷ e.pending;
      },
      tracked e.next_timer,
    )
    else (e, inactive)

unfoldable pub has_timer : ℕ → List Timer → Bool
has_timer n [] = false
has_timer n (t ∷ ts) = t.timer == n || has_timer n ts

unfoldable pub drop_timer : ℕ → List Timer → List Timer
drop_timer n [] = []
drop_timer n (t ∷ ts) = if t.timer == n then ts else t ∷ drop_timer n ts

-- `trackedTimer.Stop`: only a timer that is still pending releases its work.
unfoldable pub stop_timer : TimerHandle → Engine → Engine
unfolding has_timer drop_timer release_work
stop_timer inactive e = e
stop_timer (tracked n) e =
    if has_timer n e.pending
    then record (release_work e) { pending = drop_timer n e.pending }
    else e

unfoldable pub stop_timers : List TimerHandle → Engine → Engine
unfolding stop_timer
stop_timers [] e = e
stop_timers (t ∷ ts) e = stop_timers ts (stop_timer t e)

unfoldable pub stop_option : Option TimerHandle → Engine → Engine
unfolding stop_timer
stop_option none e = e
stop_option (some t) e = stop_timer t e

-- `runAsync`
unfoldable pub run_async : Task → Engine → Engine
unfolding reserve_work
run_async task e =
    let (e', admitted) = reserve_work e in
    if admitted then record e' { queue = e.queue ++ task ∷ [] } else e

-- `cancelRetriesLocked`: the account's part and the timers' part.
unfoldable pub cancelled : Account → Account
cancelled a = record a { retry_seq = bump a.retry_seq; retry_timers = [] }

unfoldable pub cancel_retries : Account → Engine → Engine × Account
unfolding cancelled stop_timers
cancel_retries a e = (stop_timers a.retry_timers e, cancelled a)
