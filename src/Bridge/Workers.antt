-- ===== src/Bridge/Workers.antt =====
-- Host callbacks in any interleaving: each is a worker that asks for admission, enters the host, leaves
-- it and hands its admission back, while one goroutine runs Drain, and other bridges use the same limiter.
use cpa_plugin_reset_priorit.Bridge.{
  Gate, GateError, acquire, release, acquire_caller, release_caller, quiesce, Drainer, idle, woken,
  broadcast, broadcasts, check_drained,
}
use cpa_plugin_reset_priorit.Base.{
  if◌then◌else◌, ℕ, ◌+◌, ◌-◌, ◌<◌, ◌≡◌, Bool, true, false, none, some, List, [], ◌∷◌,
}

-- A callback; the flag of one that is admitted is whether its caller has given up waiting, as the
-- caller of HTTPDo does when its context ends.
pub data Worker : Type 0 where
  wanting gone : Worker
  refused : GateError → Worker
  admitted inside finished : Bool → Worker

-- One step of one worker, on the gate.
pub data Move (g : Gate) : Worker → Gate → Worker → Type 0 where
  admit : (acquire_caller g).1 ≡ none → Move g wanting (acquire_caller g).0 (admitted false)
  refuse :
      {e : GateError}
      → (acquire_caller g).1 ≡ some e
      → Move g wanting (acquire_caller g).0 (refused e)
  enter : {b : Bool} → Move g (admitted b) g (inside b)
  -- the context had ended before the worker of HTTPDo ran
  skip : {b : Bool} → Move g (admitted b) g (finished b)
  leave : {b : Bool} → Move g (inside b) g (finished b)
  hand_back : {b : Bool} → Move g (finished b) (release_caller g) gone
  give_up_admitted : {b : Bool} → Move g (admitted b) g (admitted true)
  give_up_inside : {b : Bool} → Move g (inside b) g (inside true)

-- One worker of a list moves.
pub data Turn (g : Gate) : List Worker → Gate → List Worker → Type 0 where
  first :
      {w w' : Worker} {ws : List Worker} {g' : Gate} → Move g w g' w' → Turn g (w ∷ ws) g' (w' ∷ ws)
  later :
      {w : Worker} {ws ws' : List Worker} {g' : Gate}
      → Turn g ws g' ws'
      → Turn g (w ∷ ws) g' (w ∷ ws')

-- Whether a move broadcasts to the goroutine of Drain.
abbrev pub signals : {g g' : Gate} {w w' : Worker} → Move g w g' w' → Bool
signals (admit _) = false
signals (refuse _) = false
signals enter = false
signals skip = false
signals leave = false
signals {g} hand_back = broadcasts g
signals give_up_admitted = false
signals give_up_inside = false

abbrev pub turn_signals : {g g' : Gate} {ws ws' : List Worker} → Turn g ws g' ws' → Bool
turn_signals (first m) = signals m
turn_signals (later t) = turn_signals t

abbrev pub notify : Bool → Drainer → Drainer
notify b d = if b then broadcast d else d

-- The gate, its workers, the goroutine of Drain, and how many admissions the other bridges of the process hold.
pub record System : Type 0 where
  pub gate : Gate
  pub workers : List Worker
  pub drain : Drainer
  pub others : ℕ

pub data Step (s : System) : System → Type 0 where
  arrive : Step s (record s { workers = wanting ∷ s.workers })
  turn :
      {g : Gate} {ws : List Worker}
      → (t : Turn s.gate s.workers g ws)
      → Step s (record s { gate = g; workers = ws; drain = notify (turn_signals t) s.drain })
  close : Step s (record s { gate = quiesce s.gate })
  -- Drain closes the gate and tests the count, and tests it again whenever it has been woken
  begin :
      s.drain ≡ idle
      → Step s (record s { gate = quiesce s.gate; drain = check_drained (quiesce s.gate) })
  wake : s.drain ≡ woken → Step s (record s { drain = check_drained s.gate })
  other_acquire :
      (acquire s.gate.limiter).1 ≡ true
      → Step s (record s {
        gate = record s.gate { limiter = (acquire s.gate.limiter).0 };
        others = s.others + 1;
      })
  other_release :
      0 < s.others
      → Step s (record s {
        gate = record s.gate { limiter = release s.gate.limiter };
        others = s.others - 1;
      })

pub data Later (s : System) : System → Type 0 where
  now : Later s s
  next : {t u : System} → Later s t → Step t u → Later s u

-- A bridge over a fresh limiter.
abbrev pub opened : Bool → ℕ → System
opened has_caller capacity = record {
  gate = record {
    has_caller = has_caller;
    accepting = true;
    in_flight = 0;
    limiter = record { held = 0; capacity = capacity };
  };
  workers = [];
  drain = idle;
  others = 0;
}

abbrev pub holds : Worker → ℕ
holds wanting = 0
holds gone = 0
holds (refused _) = 0
holds (admitted _) = 1
holds (inside _) = 1
holds (finished _) = 1

abbrev pub is_inside : Worker → ℕ
is_inside wanting = 0
is_inside gone = 0
is_inside (refused _) = 0
is_inside (admitted _) = 0
is_inside (inside _) = 1
is_inside (finished _) = 0

abbrev pub total : (Worker → ℕ) → List Worker → ℕ
total f [] = 0
total f (w ∷ ws) = f w + total f ws
