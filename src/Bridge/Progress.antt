-- ===== src/Bridge/Progress.antt =====
-- `Drain` comes to its end: the wakeup of its wait is not lost.
use cpa_plugin_reset_priorit.Bridge.{
  Gate, acquire, release, acquire_caller, release_caller, quiesce, Drainer, idle, parked, woken,
  returned, broadcasts, check_drained,
}
use cpa_plugin_reset_priorit.Bridge.Workers.{
  Worker, wanting, gone, refused, admitted, inside, finished, Move, admit, refuse, enter, skip,
  leave, hand_back, give_up_admitted, give_up_inside, Turn, first, later, System, Step, arrive,
  turn, close, begin, wake, other_acquire, other_release, Later, now, next, total, signals,
  turn_signals, notify,
}
use cpa_plugin_reset_priorit.Base.{
  ◌==◌, Bool-cases, ℕ, ◌+◌, ◌*◌, ◌≤◌, ◌<◌, ◌≡◌, refl, subst, ◌∙◌, inl, inr, Bool, true, false, List,
  arith,
}

-- The steps a callback takes until it has handed its admission back.
abbrev pub waits : Worker → ℕ
waits wanting = 0
waits gone = 0
waits (refused _) = 0
waits (admitted _) = 3
waits (inside _) = 2
waits (finished _) = 1

-- A bound on the turns that Drain still takes without a further broadcast.
abbrev pub turns_left : Drainer → ℕ
turns_left idle = 2
turns_left parked = 1
turns_left woken = 2
turns_left returned = 0

abbrev pub left : System → ℕ
left s = 2 * total waits s.workers + turns_left s.drain

-- The steps by which an admitted callback or Drain gets on.
abbrev pub advances : {g g' : Gate} {w w' : Worker} → Move g w g' w' → ℕ
advances (admit _) = 0
advances (refuse _) = 0
advances enter = 1
advances skip = 1
advances leave = 1
advances hand_back = 1
advances give_up_admitted = 0
advances give_up_inside = 0

abbrev pub turn_advances : {g g' : Gate} {ws ws' : List Worker} → Turn g ws g' ws' → ℕ
turn_advances (first m) = advances m
turn_advances (later t) = turn_advances t

abbrev pub advance : {s t : System} → Step s t → ℕ
advance arrive = 0
advance (turn t) = turn_advances t
advance close = 0
advance (begin _) = 0
advance (wake _) = 1
advance (other_acquire _) = 0
advance (other_release _) = 0

abbrev pub advances_of : {s t : System} → Later s t → ℕ
advances_of now = 0
advances_of (next l st) = advances_of l + advance st

abbrev pub is_begun : Drainer → Bool
is_begun idle = false
is_begun parked = true
is_begun woken = true
is_begun returned = true

-- What the state of Drain says of the gate.
abbrev pub Settled : Drainer → Gate → Type 0
Settled idle g = Unit
Settled parked g = (g.accepting ≡ false) × (0 < g.in_flight)
Settled woken g = g.accepting ≡ false
Settled returned g = (g.accepting ≡ false) × (g.in_flight ≡ 0)

check-Settled : (g : Gate) → g.accepting ≡ false → Settled (check_drained g) g
unfolding check_drained
check-Settled g c = elim (Bool-cases (g.in_flight == 0)) [
  | inl z ↦ rw z (c, ground arith)
  | inr p ↦ rw p (c, ground arith)
]

pub check-left : (g : Gate) → turns_left (check_drained g) ≤ 1
unfolding check_drained
check-left g = ground arith

pub check-begun : (g : Gate) → is_begun (check_drained g) ≡ true
unfolding check_drained
check-begun g = ground arith

-- A move that does not broadcast leaves a count that is not 0 so; a closed gate admits nobody.
record Kept (g g' : Gate) (b : Bool) : Type 0 where
  closed : g.accepting ≡ false → g'.accepting ≡ false
  busy : b ≡ false → 0 < g.in_flight → 0 < g'.in_flight
  empty : g.accepting ≡ false → g.in_flight ≡ 0 → g'.in_flight ≡ 0

Move-Kept : {g g' : Gate} {w w' : Worker} (m : Move g w g' w') → Kept g g' (signals m)
unfolding acquire_caller release_caller acquire release broadcasts
Move-Kept (admit e) = record {
  closed = λ c. ground arith;
  busy = λ b h. ground arith;
  empty = λ c z. ground arith;
}
Move-Kept (refuse e) = record {
  closed = λ c. ground arith;
  busy = λ b h. ground arith;
  empty = λ c z. ground arith;
}
Move-Kept enter = record { closed = λ c. c; busy = λ b h. h; empty = λ c z. z }
Move-Kept skip = record { closed = λ c. c; busy = λ b h. h; empty = λ c z. z }
Move-Kept leave = record { closed = λ c. c; busy = λ b h. h; empty = λ c z. z }
Move-Kept hand_back = record {
  closed = λ c. c;
  busy = λ b h. ground arith;
  empty = λ c z. ground arith;
}
Move-Kept give_up_admitted = record { closed = λ c. c; busy = λ b h. h; empty = λ c z. z }
Move-Kept give_up_inside = record { closed = λ c. c; busy = λ b h. h; empty = λ c z. z }

Turn-Kept : {g g' : Gate} {ws ws' : List Worker} (t : Turn g ws g' ws') → Kept g g' (turn_signals t)
Turn-Kept (first m) = Move-Kept m
Turn-Kept (later t) = Turn-Kept t

notify-Settled :
    {g g' : Gate} (b : Bool) (d : Drainer) → Kept g g' b → Settled d g → Settled (notify b d) g'
notify-Settled true idle k s = tt
notify-Settled false idle k s = tt
notify-Settled true parked k s = k.closed s.0
notify-Settled false parked k s = (k.closed s.0, k.busy refl s.1)
notify-Settled true woken k s = k.closed s
notify-Settled false woken k s = k.closed s
notify-Settled true returned k s = (k.closed s.0, k.empty s.0 s.1)
notify-Settled false returned k s = (k.closed s.0, k.empty s.0 s.1)

same-Settled :
    (g g' : Gate) (d : Drainer)
    → g'.accepting ≡ g.accepting
    → g'.in_flight ≡ g.in_flight
    → Settled d g
    → Settled d g'
same-Settled g g' idle a n s = tt
same-Settled g g' parked a n s = (a ∙ s.0, omega arith)
same-Settled g g' woken a n s = a ∙ s
same-Settled g g' returned a n s = (a ∙ s.0, n ∙ s.1)

quiesce-Settled : (g : Gate) (d : Drainer) → Settled d g → Settled d (quiesce g)
unfolding quiesce
quiesce-Settled g idle s = tt
quiesce-Settled g parked s = (refl, s.1)
quiesce-Settled g woken s = refl
quiesce-Settled g returned s = (refl, s.1)

Step-Settled : {s t : System} → Step s t → Settled s.drain s.gate → Settled t.drain t.gate
unfolding quiesce
Step-Settled arrive k = k
Step-Settled {s} (turn t) k = notify-Settled (turn_signals t) s.drain (Turn-Kept t) k
Step-Settled {s} close k = quiesce-Settled s.gate s.drain k
Step-Settled {s} (begin h) k = check-Settled (quiesce s.gate) refl
Step-Settled {s} (wake h) k = check-Settled s.gate (subst (λ d. Settled d s.gate) h k)
Step-Settled {s} (other_acquire e) k = same-Settled _ _ s.drain refl refl k
Step-Settled {s} (other_release h) k = same-Settled _ _ s.drain refl refl k

pub Later-Settled : {s t : System} → Later s t → Settled s.drain s.gate → Settled t.drain t.gate
Later-Settled now k = k
Later-Settled (next l st) k = Step-Settled st (Later-Settled l k)
