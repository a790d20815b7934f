-- ===== src/Codex/Weekly.antt =====
-- What findWeeklyReset answers.
use cpa_plugin_reset_priorit.Codex.Bounds.{Near, Bounded, window-Near}
use cpa_plugin_reset_priorit.Codex.Declared.{DeclaresWeek, is_weekly-DeclaresWeek}
use cpa_plugin_reset_priorit.Times.{Time}
use cpa_plugin_reset_priorit.Json.{Number, Fields}
use cpa_plugin_reset_priorit.Codex.{
  candidate_windows, is_weekly_window, window_reset_at, first_weekly, find_weekly_reset,
}
use cpa_plugin_reset_priorit.Codex.{
  candidate_windows, is_weekly_window, window_reset_at, first_weekly, find_weekly_reset,
}
use cpa_plugin_reset_priorit.Base.{
  if◌then◌else◌, Str, In, ℤ, ℕ, ◌≡◌, refl, ◌⊎◌, inl, inr, Bool, true, false, not, Option, none,
  some, List, [], ◌∷◌,
}

module _ (rfc3339 : Str → Option Time) (rat_integer : Number → Option ℤ) {F : Type 0}
    (float64 : Number → Option F) (of_int : ℤ → F) (ltb_float : F → F → Bool)
    (nanoseconds : F → ℕ) where
  if-other :
      (b : Bool) (o p : Option Time) (t : Time)
      → (if not b then p else elim o [ none ↦ p | some u ↦ some u ]) ≡ some t
      → ((b ≡ true) × (o ≡ some t)) ⊎ (p ≡ some t)
  if-other true none p t e = inr e
  if-other true (some u) p t e = inl (refl, e)
  if-other false o p t e = inr e

  first_weekly-origin :
      (l : List Fields) (observed_at t : Time)
      → first_weekly rfc3339 rat_integer float64 of_int ltb_float nanoseconds l observed_at ≡ some t
      → (window : Fields) × In window l
        × (is_weekly_window rfc3339 rat_integer float64 of_int ltb_float nanoseconds window ≡ true)
        × (window_reset_at rfc3339 rat_integer float64 of_int ltb_float nanoseconds window
              observed_at
            ≡ some t)
  unfolding first_weekly
  first_weekly-origin [] observed_at t e = cc
  first_weekly-origin (w ∷ rest) observed_at t e =
      elim (if-other (is_weekly_window rfc3339 rat_integer float64 of_int ltb_float nanoseconds w)
        (window_reset_at rfc3339 rat_integer float64 of_int ltb_float nanoseconds w observed_at)
        (first_weekly rfc3339 rat_integer float64 of_int ltb_float nanoseconds rest observed_at) t
        e) [
          | inl (b, o) ↦ (w, In.here refl, b, o)
          | inr p ↦
              let (v, m, b, o) = first_weekly-origin rest observed_at t p in (v, In.there m, b, o)
        ]

  -- When the conversion of seconds between zero and a week gives no more than a week: the reset that
  -- is reported lies within a week and an hour of the observation, and comes from a candidate window
  -- that declares exactly a week: the first of its keys for seconds that holds an integer holds
  -- 604800, or none of them does and the first of its keys for minutes that does holds 10080.
  pub weekly_reset_origin :
      Bounded rfc3339 rat_integer float64 of_int ltb_float nanoseconds
      → (root : Fields) (observed_at t : Time)
      → find_weekly_reset rfc3339 rat_integer float64 of_int ltb_float nanoseconds root observed_at
        ≡ some t
      → Near observed_at t
        × ((window : Fields) × In window (candidate_windows root)
            × DeclaresWeek rat_integer window
            × (window_reset_at rfc3339 rat_integer float64 of_int ltb_float nanoseconds window
                  observed_at
                ≡ some t))
  unfolding find_weekly_reset
  weekly_reset_origin bounded root observed_at t e =
      let (w, m, b, o) = first_weekly-origin (candidate_windows root) observed_at t e in
      (
        window-Near rfc3339 rat_integer float64 of_int ltb_float nanoseconds bounded w observed_at t
            o,
        (
          w,
          m,
          is_weekly-DeclaresWeek rfc3339 rat_integer float64 of_int ltb_float nanoseconds w b,
          o,
        ),
      )
