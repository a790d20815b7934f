-- ===== src/Engine/Deadline.antt =====
-- The deadline timer of rescheduleDeadlineLocked.
use cpa_plugin_reset_priorit.Times.{Time, zero_time, is_zero, before}
use cpa_plugin_reset_priorit.Engine.{Engine, Account, is_healthy}
use cpa_plugin_reset_priorit.Engine.Accounts.{has_future_reset}
use cpa_plugin_reset_priorit.Engine.Schedule.{earliest_reset, is_armed, reschedule_deadline}
use cpa_plugin_reset_priorit.Base.{
  ◌==◌, if◌then◌else◌, In, ◌≤◌, ◌<◌, ◌≡◌, refl, sym, ap, subst, ◌∙◌, ◌⊎◌, inl, inr, Bool, true,
  false, not, ◌&&◌, ◌||◌, List, [], ◌∷◌, arith,
}

-- An account whose reset is awaited.
abbrev pub is_awaited : Time → Account → Bool
is_awaited now a = is_healthy a.health && has_future_reset a now

-- One step of the loop.
next_earliest : Time → Account → Time → Time
unfolding has_future_reset
next_earliest now a earliest =
    if not (is_healthy a.health) || not (has_future_reset a now)
    then earliest
    else if is_zero earliest || before a.reset_at earliest
    then a.reset_at
    else earliest

next_below :
    (now : Time) (a : Account) (x : Time)
    → zero_time ≤ now
    → now < x
    → (now < next_earliest now a x) × (next_earliest now a x ≤ x)
unfolding next_earliest has_future_reset
next_below now a x z h = ground arith

next_awaited :
    (now : Time) (a : Account) (x : Time)
    → zero_time ≤ now
    → (x ≡ zero_time) ⊎ (now < x)
    → is_awaited now a ≡ true
    → (now < next_earliest now a x) × (next_earliest now a x ≤ a.reset_at)
unfolding next_earliest has_future_reset
next_awaited now a x z h e = ground arith

next_valid :
    (now : Time) (a : Account) (x : Time)
    → (x ≡ zero_time) ⊎ (now < x)
    → (next_earliest now a x ≡ zero_time) ⊎ (now < next_earliest now a x)
unfolding next_earliest has_future_reset
next_valid now a x h = ground arith

next_origin :
    (now : Time) (a : Account) (x : Time)
    → (next_earliest now a x ≡ x)
      ⊎ ((is_awaited now a ≡ true) × (a.reset_at ≡ next_earliest now a x))
unfolding next_earliest has_future_reset
next_origin now a x = ground arith

earliest_below :
    (now : Time) (l : List Account) (x : Time)
    → zero_time ≤ now
    → now < x
    → (now < earliest_reset now l x) × (earliest_reset now l x ≤ x)
unfolding earliest_reset next_earliest
earliest_below now [] x z h = (h, omega arith)
earliest_below now (a ∷ rest) x z h =
    let one = next_below now a x z h in
    let others = earliest_below now rest (next_earliest now a x) z one.0 in
    (others.0, omega (arith, one.1, others.1))

earliest_awaited :
    (now : Time) (l : List Account) (x : Time) {a : Account}
    → zero_time ≤ now
    → (x ≡ zero_time) ⊎ (now < x)
    → In a l
    → is_awaited now a ≡ true
    → (now < earliest_reset now l x) × (earliest_reset now l x ≤ a.reset_at)
unfolding earliest_reset next_earliest
earliest_awaited now [] x z h m e = elim m [ ]
earliest_awaited now (b ∷ rest) x {a} z h (In.here p) e =
    let e' : is_awaited now b ≡ true = subst (λ c. is_awaited now c ≡ true) (sym p) e in
    let one = next_awaited now b x z h e' in
    let others = earliest_below now rest (next_earliest now b x) z one.0 in
    (others.0, omega (arith, one.1, others.1, ap (λ c. c.reset_at) p))
earliest_awaited now (b ∷ rest) x z h (In.there m) e =
    earliest_awaited now rest (next_earliest now b x) z (next_valid now b x h) m e

-- Where the earliest reset comes from.
earliest_origin :
    (now : Time) (l : List Account) (x : Time)
    → (earliest_reset now l x ≡ x)
      ⊎ ((a : Account) × In a l × (is_awaited now a ≡ true) × (a.reset_at ≡ earliest_reset now l x))
unfolding earliest_reset next_earliest
earliest_origin now [] x = inl refl
earliest_origin now (b ∷ rest) x = elim (earliest_origin now rest (next_earliest now b x)) [
  | inr (a, m, e, r) ↦ inr (a, In.there m, e, r)
  | inl p ↦ elim (next_origin now b x) [
    | inl q ↦ inl (p ∙ q)
    | inr (e, r) ↦ inr (b, In.here refl, e, r ∙ sym p)
  ]
]

if-deadline :
    (b : Bool) (d : Time) (x y : Engine)
    → (b ≡ true → x.next_deadline_at ≡ d)
    → (b ≡ false → y.next_deadline_at ≡ d)
    → (if b then x else y).next_deadline_at ≡ d
if-deadline true d x y p q = p refl
if-deadline false d x y p q = q refl

deadline-earliest :
    (now : Time) (e : Engine)
    → (reschedule_deadline now e).next_deadline_at ≡ earliest_reset now e.accounts zero_time
unfolding reschedule_deadline
deadline-earliest now e =
    let d = earliest_reset now e.accounts zero_time in
    if-deadline (is_zero d) d _ _
      (λ z. if-deadline (is_armed e.deadline_timer) d _ _ (λ k. ground arith) (λ k. ground arith))
      (λ z.
        if-deadline (is_armed e.deadline_timer && d == e.next_deadline_at) d _ _ (λ k. ground arith)
          (λ k. refl))

-- At an instant that is not before the zero time, the deadline that is published is the earliest
-- future reset of the healthy accounts: no later than any of them, and itself one of them or, when
-- there is none, the zero time.
pub deadline_is_earliest :
    (now : Time) (e : Engine)
    → zero_time ≤ now
    → let d = (reschedule_deadline now e).next_deadline_at in
      ((a : Account) → In a e.accounts → is_awaited now a ≡ true → (now < d) × (d ≤ a.reset_at))
      × ((d ≡ zero_time)
          ⊎ ((a : Account) × In a e.accounts × (is_awaited now a ≡ true) × (a.reset_at ≡ d)))
deadline_is_earliest now e z = rw (deadline-earliest now e) (
  λ a m w. earliest_awaited now e.accounts zero_time z (inl refl) m w,
  earliest_origin now e.accounts zero_time,
)
