-- ===== src/Bridge/Liveness.antt =====
-- `Drain` returns: each of its steps and of an admitted callback's brings it nearer, and one is possible.
use cpa_plugin_reset_priorit.Bridge.{
  Gate, acquire, acquire_caller, release_caller, quiesce, Drainer, idle, parked, woken, returned,
}
use cpa_plugin_reset_priorit.Bridge.Workers.{
  Worker, wanting, gone, refused, admitted, inside, finished, Move, admit, refuse, enter, skip,
  leave, hand_back, give_up_admitted, give_up_inside, Turn, first, later, System, Step, arrive,
  turn, close, begin, wake, other_acquire, other_release, Later, now, next, opened, holds, total,
  signals, turn_signals, notify,
}
use cpa_plugin_reset_priorit.Bridge.Admission.{Later-Counts}
use cpa_plugin_reset_priorit.Bridge.Drain.{join}
use cpa_plugin_reset_priorit.Bridge.Progress.{
  waits, turns_left, left, advances, turn_advances, advance, advances_of, is_begun, Settled,
  check-left, check-begun, Later-Settled,
}
use cpa_plugin_reset_priorit.Base.{
  ℕ, ◌+◌, ◌*◌, ◌≤◌, ◌<◌, ◌≡◌, refl, sym, ap, subst, ◌⊎◌, inl, inr, Bool, true, false, List, [], ◌∷◌,
  arith,
}

-- What a move does to a gate that is closed: what is left of the callback shrinks by the move, and a
-- broadcast is an advance.
record Spends (n w w' : ℕ) (b : Bool) : Type 0 where
  spent : n + w' ≤ w
  waking : b ≡ true → n ≡ 1

Move-Spends :
    {g g' : Gate} {w w' : Worker} (m : Move g w g' w')
    → g.accepting ≡ false
    → Spends (advances m) (waits w) (waits w') (signals m)
unfolding acquire_caller acquire
Move-Spends (admit e) c = record { spent = ground arith; waking = λ h. cc }
Move-Spends (refuse e) c = record { spent = omega arith; waking = λ h. cc }
Move-Spends enter c = record { spent = omega arith; waking = λ h. refl }
Move-Spends skip c = record { spent = omega arith; waking = λ h. refl }
Move-Spends leave c = record { spent = omega arith; waking = λ h. refl }
Move-Spends hand_back c = record { spent = omega arith; waking = λ h. refl }
Move-Spends give_up_admitted c = record { spent = omega arith; waking = λ h. cc }
Move-Spends give_up_inside c = record { spent = omega arith; waking = λ h. cc }

Turn-Spends :
    {g g' : Gate} {ws ws' : List Worker} (t : Turn g ws g' ws')
    → g.accepting ≡ false
    → Spends (turn_advances t) (total waits ws) (total waits ws') (turn_signals t)
Turn-Spends (first m) c =
    let s = Move-Spends m c in
    let spent = s.spent in record { spent = omega arith; waking = s.waking }
Turn-Spends (later t) c =
    let s = Turn-Spends t c in
    let spent = s.spent in record { spent = omega arith; waking = s.waking }

notify-left :
    (n : ℕ) (b : Bool) (d : Drainer)
    → (b ≡ true → n ≡ 1)
    → turns_left (notify b d) ≤ turns_left d + n
notify-left n false d h = omega arith
notify-left n true idle h = omega arith
notify-left n true parked h = let one = h refl in omega arith
notify-left n true woken h = omega arith
notify-left n true returned h = omega arith

notify-begun : (b : Bool) (d : Drainer) → is_begun d ≡ true → is_begun (notify b d) ≡ true
notify-begun false d h = h
notify-begun true idle h = h
notify-begun true parked h = refl
notify-begun true woken h = refl
notify-begun true returned h = refl

Settled-closed : (d : Drainer) (g : Gate) → is_begun d ≡ true → Settled d g → g.accepting ≡ false
Settled-closed idle g h k = cc
Settled-closed parked g h k = k.0
Settled-closed woken g h k = k
Settled-closed returned g h k = k.0

Step-begun : {s t : System} → Step s t → is_begun s.drain ≡ true → is_begun t.drain ≡ true
unfolding quiesce
Step-begun arrive h = h
Step-begun {s} (turn t) h = notify-begun (turn_signals t) s.drain h
Step-begun close h = h
Step-begun {s} (begin e) h = check-begun (quiesce s.gate)
Step-begun {s} (wake e) h = check-begun s.gate
Step-begun (other_acquire e) h = h
Step-begun (other_release e) h = h

Step-left :
    {s t : System} (st : Step s t)
    → is_begun s.drain ≡ true
    → Settled s.drain s.gate
    → advance st + left t ≤ left s
Step-left arrive h k = omega arith
Step-left {s} (turn t) h k =
    let c = Settled-closed s.drain s.gate h k in
    let p = Turn-Spends t c in
    let spent = p.spent in
    let fewer = notify-left (turn_advances t) (turn_signals t) s.drain p.waking in omega arith
Step-left close h k = omega arith
Step-left {s} (begin e) h k = let no : true ≡ false = sym (subst (λ d. is_begun d ≡ true) e h) in cc
Step-left {s} (wake e) h k =
    let now_left = check-left s.gate in
    let was_left : turns_left s.drain ≡ 2 = ap (turns_left) e in omega arith
Step-left (other_acquire e) h k = omega arith
Step-left (other_release e) h k = omega arith

Later-left :
    {s t : System} (m : Later s t)
    → is_begun s.drain ≡ true
    → Settled s.drain s.gate
    → (advances_of m + left t ≤ left s) × (is_begun t.drain ≡ true)
Later-left now h k = (omega arith, h)
Later-left (next l st) h k =
    let (n, b) = Later-left l h k in
    let n' = Step-left st b (Later-Settled l k) in (omega arith, Step-begun st b)

-- Some callback that holds an admission gets on.
record Moves (g : Gate) (ws : List Worker) : Type 0 where
  gate : Gate
  workers : List Worker
  turned : Turn g ws gate workers
  runs : turn_advances turned ≡ 1

behind : {g : Gate} {ws : List Worker} (w : Worker) → Moves g ws → Moves g (w ∷ ws)
behind w m = record {
  gate = m.gate;
  workers = w ∷ m.workers;
  turned = later m.turned;
  runs = m.runs;
}

moves : (g : Gate) (ws : List Worker) → 0 < total holds ws → Moves g ws
moves g [] h = absurd (omega arith)
moves g (wanting ∷ ws) h = behind wanting (moves g ws (omega arith))
moves g (gone ∷ ws) h = behind gone (moves g ws (omega arith))
moves g (refused e ∷ ws) h = behind (refused e) (moves g ws (omega arith))
moves g (admitted b ∷ ws) h = record {
  gate = g;
  workers = inside b ∷ ws;
  turned = first enter;
  runs = refl;
}
moves g (inside b ∷ ws) h = record {
  gate = g;
  workers = finished b ∷ ws;
  turned = first leave;
  runs = refl;
}
moves g (finished b ∷ ws) h = record {
  gate = release_caller g;
  workers = gone ∷ ws;
  turned = first hand_back;
  runs = refl;
}

-- Drain has returned, or less than the bound has been used up and something can get on.
abbrev Ends : (used bound : ℕ) → System → Type 0
Ends used bound t =
    ((t.drain ≡ returned) × (t.gate.in_flight ≡ 0))
    ⊎ ((used < bound) × ((u : System) × (st : Step t u) × (advance st ≡ 1)))

Settled-Ends :
    (used bound : ℕ) (t : System) (d : Drainer)
    → t.drain ≡ d
    → is_begun d ≡ true
    → Settled d t.gate
    → t.gate.in_flight ≡ total holds t.workers
    → used + (2 * total waits t.workers + turns_left d) ≤ bound
    → Ends used bound t
Settled-Ends used bound t idle e b k n l = cc
Settled-Ends used bound t parked e b k n l =
    let busy = k.1 in
    let m = moves t.gate t.workers (omega arith) in inr (omega arith, (_, turn m.turned, m.runs))
Settled-Ends used bound t woken e b k n l = inr (omega arith, (_, wake e, refl))
Settled-Ends used bound t returned e b k n l = inl (e, k.1)

-- Take a bridge over a fresh limiter on which Drain has begun, and whatever happens after that, in
-- whatever order. An advance is a step by which an admitted callback enters the host, leaves it, finds
-- its context ended or hands its admission back, or by which a woken Drain tests the count again.
-- At every moment, either Drain has returned, with no callback in flight; or fewer advances than a
-- number that is fixed when Drain begins have been made, and another advance is possible: Drain is
-- never asleep with nobody left to wake it. So Drain has returned after that many advances.
pub drain_ends :
    (has_caller : Bool) (capacity : ℕ) {s t : System}
    → Later (opened has_caller capacity) s
    → is_begun s.drain ≡ true
    → (m : Later s t)
    → ((t.drain ≡ returned) × (t.gate.in_flight ≡ 0))
      ⊎ ((advances_of m < left s) × ((u : System) × (st : Step t u) × (advance st ≡ 1)))
drain_ends has_caller capacity {s = s} {t = t} l b m =
    let k = Later-Settled l tt in
    let (n, b') = Later-left m b k in
    let counts = Later-Counts has_caller capacity (join l m) in
    Settled-Ends (advances_of m) (left s) t t.drain refl b' (Later-Settled m k) counts.in_flight n
