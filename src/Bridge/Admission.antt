-- ===== src/Bridge/Admission.antt =====
-- The in-flight count is that of the callbacks that hold an admission, and the process-wide limit holds.
use cpa_plugin_reset_priorit.Bridge.{
  Gate, acquire, release, acquire_caller, release_caller, quiesce,
}
use cpa_plugin_reset_priorit.Bridge.Workers.{
  Worker, Move, admit, refuse, enter, skip, leave, hand_back, give_up_admitted, give_up_inside,
  Turn, first, later, System, Step, arrive, turn, close, begin, wake, other_acquire, other_release,
  Later, now, next, opened, holds, total,
}
use cpa_plugin_reset_priorit.Base.{ℕ, ◌+◌, ◌≤◌, ◌≡◌, Bool, List, arith}

-- `n` admissions are held by this bridge's workers and `others` by other bridges.
pub record Counts (n others : ℕ) (g : Gate) : Type 0 where
  pub in_flight : g.in_flight ≡ n
  pub held : g.limiter.held ≡ n + others
  pub bounded : g.limiter.held ≤ g.limiter.capacity

abbrev pub Admitted : System → Type 0
Admitted s = Counts (total holds s.workers) s.others s.gate

Move-Counts :
    {g g' : Gate} {w w' : Worker} (n others : ℕ)
    → Move g w g' w'
    → Counts (holds w + n) others g
    → Counts (holds w' + n) others g'
unfolding acquire_caller release_caller acquire release
Move-Counts n others (admit e) c = ground arith
Move-Counts n others (refuse e) c = ground arith
Move-Counts n others enter c = c
Move-Counts n others skip c = c
Move-Counts n others leave c = c
Move-Counts n others hand_back c = ground arith
Move-Counts n others give_up_admitted c = c
Move-Counts n others give_up_inside c = c

Counts-subst : {n m others : ℕ} {g : Gate} → n ≡ m → Counts n others g → Counts m others g
Counts-subst e c = omega arith

Turn-Counts :
    {g g' : Gate} {ws ws' : List Worker} (n others : ℕ)
    → Turn g ws g' ws'
    → Counts (total holds ws + n) others g
    → Counts (total holds ws' + n) others g'
Turn-Counts n others (first {w} {w'} {ws} m) c =
    Counts-subst (omega arith)
      (Move-Counts (total holds ws + n) others m (Counts-subst (omega arith) c))
Turn-Counts n others (later {w} {ws} {ws'} t) c =
    Counts-subst (omega arith) (Turn-Counts (holds w + n) others t (Counts-subst (omega arith) c))

pub Step-Admitted : {s t : System} → Step s t → Admitted s → Admitted t
unfolding acquire release quiesce
Step-Admitted arrive c = omega arith
Step-Admitted {s} (turn {ws = ws} t) c =
    Counts-subst (omega arith) (Turn-Counts 0 s.others t (Counts-subst (omega arith) c))
Step-Admitted close c = omega arith
Step-Admitted (begin h) c = omega arith
Step-Admitted (wake h) c = omega arith
Step-Admitted (other_acquire e) c = ground arith
Step-Admitted (other_release h) c = ground arith

pub Later-Admitted : {s t : System} → Later s t → Admitted s → Admitted t
Later-Admitted now c = c
Later-Admitted (next l st) c = Step-Admitted st (Later-Admitted l c)

pub opened-Admitted : (has_caller : Bool) (capacity : ℕ) → Admitted (opened has_caller capacity)
opened-Admitted has_caller capacity = omega arith

-- In every state that a bridge over a fresh limiter can reach, by any interleaving of its callbacks,
-- of the callbacks of other bridges and of quiescing, the in-flight count is the number of this
-- bridge's callbacks that hold an admission, the limiter counts those and the others' exactly, and
-- the limiter stays within its capacity.
pub Later-Counts :
    (has_caller : Bool) (capacity : ℕ) {s : System}
    → Later (opened has_caller capacity) s
    → Counts (total holds s.workers) s.others s.gate
Later-Counts has_caller capacity l = Later-Admitted l (opened-Admitted has_caller capacity)
