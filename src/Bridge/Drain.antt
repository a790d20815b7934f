-- ===== src/Bridge/Drain.antt =====
-- `Drain`: what it waits for is final.
use cpa_plugin_reset_priorit.Bridge.{
  Gate, acquire, release, acquire_caller, release_caller, quiesce, is_drained,
}
use cpa_plugin_reset_priorit.Bridge.Workers.{
  Worker, wanting, gone, refused, admitted, inside, finished, Move, admit, refuse, enter, skip,
  leave, hand_back, give_up_admitted, give_up_inside, Turn, first, later, System, Step, arrive,
  turn, close, begin, wake, other_acquire, other_release, Later, now, next, opened, holds,
  is_inside, total,
}
use cpa_plugin_reset_priorit.Bridge.Admission.{Later-Counts}
use cpa_plugin_reset_priorit.Base.{ℕ, ◌≤◌, ◌≡◌, Bool, true, false, List, [], ◌∷◌, arith}

record Falls (g : Gate) (h h' : ℕ) : Type 0 where
  closed : g.accepting ≡ false
  held : h' ≤ h

Move-Falls :
    {g g' : Gate} {w w' : Worker}
    → g.accepting ≡ false
    → Move g w g' w'
    → Falls g' (holds w) (holds w')
unfolding acquire_caller release_caller acquire release
Move-Falls c (admit e) = ground arith
Move-Falls c (refuse e) = ground arith
Move-Falls c enter = ground arith
Move-Falls c skip = ground arith
Move-Falls c leave = ground arith
Move-Falls c hand_back = ground arith
Move-Falls c give_up_admitted = ground arith
Move-Falls c give_up_inside = ground arith

abbrev ListFalls : Gate → List Worker → List Worker → Type 0
ListFalls g ws ws' = Falls g (total holds ws) (total holds ws')

Turn-Falls :
    {g g' : Gate} {ws ws' : List Worker}
    → g.accepting ≡ false
    → Turn g ws g' ws'
    → ListFalls g' ws ws'
Turn-Falls c (first m) = let f = Move-Falls c m in ground arith
Turn-Falls c (later t) = let f = Turn-Falls c t in ground arith

Step-Falls :
    {s t : System} → s.gate.accepting ≡ false → Step s t → ListFalls t.gate s.workers t.workers
unfolding acquire release quiesce
Step-Falls c arrive = ground arith
Step-Falls c (turn t) = Turn-Falls c t
Step-Falls c close = ground arith
Step-Falls c (begin h) = ground arith
Step-Falls c (wake h) = ground arith
Step-Falls c (other_acquire e) = ground arith
Step-Falls c (other_release h) = ground arith

Later-Falls :
    {s t : System} → s.gate.accepting ≡ false → Later s t → ListFalls t.gate s.workers t.workers
Later-Falls c now = ground arith
Later-Falls c (next l st) =
    let f = Later-Falls c l in let f' = Step-Falls f.closed st in ground arith

is_inside-le-holds : (ws : List Worker) → total is_inside ws ≤ total holds ws
is_inside-le-holds [] = omega arith
is_inside-le-holds (wanting ∷ ws) = omega (arith, is_inside-le-holds ws)
is_inside-le-holds (gone ∷ ws) = omega (arith, is_inside-le-holds ws)
is_inside-le-holds (refused e ∷ ws) = omega (arith, is_inside-le-holds ws)
is_inside-le-holds (admitted b ∷ ws) = omega (arith, is_inside-le-holds ws)
is_inside-le-holds (inside b ∷ ws) = omega (arith, is_inside-le-holds ws)
is_inside-le-holds (finished b ∷ ws) = omega (arith, is_inside-le-holds ws)

pub join : {s t u : System} → Later s t → Later t u → Later s u
join l now = l
join l (next m st) = next (join l m) st

is_drained-parts : (g : Gate) → is_drained g ≡ true → (g.accepting ≡ false) × (g.in_flight ≡ 0)
is_drained-parts g h = (ground arith, ground arith)

-- Once a bridge over a fresh limiter has been closed and its in-flight count has reached 0, which is
-- when Drain returns, no callback is inside the host, then or in any later state, however the
-- callers go on: also those whose HTTPDo had given up waiting.
pub drained_is_final :
    (has_caller : Bool) (capacity : ℕ) {s t : System}
    → Later (opened has_caller capacity) s
    → is_drained s.gate ≡ true
    → Later s t
    → (total is_inside t.workers ≡ 0) × (t.gate.in_flight ≡ 0) × (t.gate.accepting ≡ false)
drained_is_final has_caller capacity {s = s} {t = t} l drained m =
    let (c, z) = is_drained-parts s.gate drained in
    let a = Later-Counts has_caller capacity l in
    let b = Later-Counts has_caller capacity (join l m) in
    let f = Later-Falls c m in (omega (arith, is_inside-le-holds t.workers), omega arith, f.closed)
