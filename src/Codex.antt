-- ===== src/Codex.antt =====
-- internal/providers/codex.go: where an answer gives the weekly reset, with firstParsed and the
-- timestamp parser of provider.go. The parsers of the standard library are parameters, and a float64
-- is a value of a type that the model does not look into.
pub mod Bounds
pub mod Declared
pub mod Weekly
use cpa_plugin_reset_priorit.Times.{Time, Duration, zero_time, second, add_time, after, before}
use cpa_plugin_reset_priorit.Json.{
  Json, Number, Fields, null, boolean, number, string, array, object, integer, decimal, end, get,
  as_object,
}
use cpa_plugin_reset_priorit.Providers.{Result, ok, err, Credentials, Observation}
use cpa_plugin_reset_priorit.Base.{
  ltb, leb, ◌==◌, if◌then◌else◌, ltb→lt, lt→ltb, ==_iff, Bool-cases, Str, bytes, str_eq, str_lt,
  is_empty, to_lower, trim_left, trim_space, equal_fold, has_prefix, contains, length,
  length-append, countp, any, filter, In, All, Pairs, ℤ, pos_part, neg_part, sub_ℕ, ◌+ℤ◌, ◌-ℤ◌,
  ◌*ℤ◌, ltb_ℤ, leb_ℤ, eqb_ℤ, ◌≤ℤ◌, eqb_ℤ_iff, max_int, min_int, u64_mod, pos, negsuc, str_eq_refl,
  str_eq→eq, str_eq_iff, str_lt_irrefl, str_lt_trans, str_lt_asym, str_lt_total, ℕ, zero, suc, ◌+◌,
  ◌-◌, ◌*◌, ◌/◌, ◌%◌, ◌^◌, ◌≤◌, ◌<◌, min, ◌≡◌, refl, sym, ap, ap₂, subst, ◌∙◌, ◌≢◌, ◌↔◌, ◌⊎◌, inl,
  inr, Bool, true, false, not, ◌&&◌, ◌||◌, Option, none, some, List, [], ◌∷◌, ◌++◌, map, arith,
}

abbrev pub weekly_window_seconds : ℕ
weekly_window_seconds = 604800

abbrev pub weekly_window_minutes : ℕ
weekly_window_minutes = 10080

-- `firstParsed`
unfoldable pub first_parsed : {A : Type 0} → Fields → (Json → Option A) → List Str → Option A
unfolding get
first_parsed obj parse [] = none
first_parsed obj parse (k ∷ ks) =
    let rest = first_parsed obj parse ks in
    elim (get k obj) [ none ↦ rest | some v ↦ elim (parse v) [ none ↦ rest | some a ↦ some a ] ]

-- The windows of one envelope, and all of them.
unfoldable pub object_at : Str → Fields → List Fields
unfolding get as_object
object_at k obj = elim (as_object (get k obj)) [ none ↦ [] | some fields ↦ fields ∷ [] ]

unfoldable pub objects_at : List Str → Fields → List Fields
unfolding object_at
objects_at [] obj = []
objects_at (k ∷ ks) obj = object_at k obj ++ objects_at ks obj

abbrev window_keys : List Str
window_keys =
    bytes "primary_window"
    ∷ bytes "primaryWindow"
    ∷ bytes "secondary_window"
    ∷ bytes "secondaryWindow"
    ∷ bytes "primary"
    ∷ bytes "secondary"
    ∷ []

unfoldable pub windows_of : List Fields → List Fields
unfolding objects_at
windows_of [] = []
windows_of (envelope ∷ rest) = objects_at window_keys envelope ++ windows_of rest

unfoldable pub candidate_windows : Fields → List Fields
unfolding objects_at windows_of
candidate_windows root = windows_of (
    objects_at
      (bytes "rate_limit" ∷ bytes "rateLimit" ∷ bytes "rate_limits" ∷ bytes "rateLimits" ∷ []) root
    ++ root ∷ [])

-- `plausibleResetAt`
unfoldable pub plausible : Time → Time → Bool
plausible reset_at observed_at =
    let window = (weekly_window_seconds + 3600) * second in
    not (before (reset_at + window) observed_at) && not (after reset_at (observed_at + window))

-- `time.Unix(sec, 0)`, for a `sec` of 64 bits.
unfoldable pub unix_time : ℤ → Time
unfolding add_time
unix_time sec = add_time (zero_time + 62135596800 * second) (sec *ℤ pos second)

unfoldable pub parse_unix_seconds : Number → Time → Option Time
unfolding unix_time plausible
parse_unix_seconds (decimal _ _) observed_at = none
parse_unix_seconds (integer sec) observed_at =
    if ltb_ℤ max_int sec || ltb_ℤ sec min_int
    then none
    else if plausible (unix_time sec) observed_at
    then some (unix_time sec)
    else none

unfoldable pub as_number : Json → Option Number
as_number null = none
as_number (boolean _) = none
as_number (number n) = some n
as_number (string _) = none
as_number (array _) = none
as_number (object _) = none

-- `rfc3339` is `time.Parse` on trimmed text, `rat_integer` an integral `big.Rat` of a number.
module _ (rfc3339 : Str → Option Time) (rat_integer : Number → Option ℤ) {F : Type 0}
    (float64 : Number → Option F) (of_int : ℤ → F) (ltb_float : F → F → Bool)
    (nanoseconds : F → ℕ) where
  unfoldable pub parse_timestamp : Str → Option Time
  unfolding trim_space
  parse_timestamp text = if is_empty (trim_space text) then none else rfc3339 (trim_space text)

  unfoldable pub exact_integer : Json → Option ℤ
  unfolding as_number
  exact_integer v = elim (as_number v) [ none ↦ none | some n ↦ rat_integer n ]

  unfoldable pub is_weekly_window : Fields → Bool
  unfolding first_parsed exact_integer
  is_weekly_window window =
      elim (first_parsed window exact_integer
        (bytes "limit_window_seconds" ∷ bytes "limitWindowSeconds" ∷ [])) [
          | some declared ↦ eqb_ℤ declared (pos weekly_window_seconds)
          | none ↦
              elim (first_parsed window exact_integer
                (bytes "window_minutes" ∷ bytes "windowMinutes" ∷ [])) [
                  | some declared ↦ eqb_ℤ declared (pos weekly_window_minutes)
                  | none ↦ false
                ]
        ]

  unfoldable pub plausible_text : Time → Str → Option Time
  unfolding parse_timestamp plausible
  plausible_text observed_at text = elim (parse_timestamp text) [
    | none ↦ none
    | some t ↦ if plausible t observed_at then some t else none
  ]

  unfoldable pub parse_absolute : Time → Json → Option Time
  unfolding plausible_text parse_unix_seconds
  parse_absolute observed_at null = none
  parse_absolute observed_at (boolean _) = none
  parse_absolute observed_at (number n) = parse_unix_seconds n observed_at
  parse_absolute observed_at (string text) = plausible_text observed_at text
  parse_absolute observed_at (array _) = none
  parse_absolute observed_at (object _) = none

  -- NaN and the infinities are no JSON numbers; a text too large for a float64 is `none`.
  unfoldable pub parse_reset_after : Json → Option ℕ
  unfolding as_number
  parse_reset_after v = elim (as_number v) [
    | none ↦ none
    | some n ↦ elim (float64 n) [
      | none ↦ none
      | some seconds ↦
          if ltb_float seconds (of_int (pos 0))
            || ltb_float (of_int (pos weekly_window_seconds)) seconds
          then none
          else some (nanoseconds seconds)
    ]
  ]

  unfoldable pub window_reset_at : Fields → Time → Option Time
  unfolding first_parsed parse_absolute parse_reset_after
  window_reset_at window observed_at =
      elim (first_parsed window (parse_absolute observed_at)
        (bytes "reset_at" ∷ bytes "resetAt" ∷ [])) [
          | some t ↦ some t
          | none ↦
              elim (first_parsed window parse_reset_after
                (bytes "reset_after_seconds" ∷ bytes "resetAfterSeconds" ∷ [])) [
                  | some d ↦ some (observed_at + d)
                  | none ↦ none
                ]
        ]

  -- The loop of `findWeeklyReset` over the windows that are left.
  unfoldable pub first_weekly : List Fields → Time → Option Time
  unfolding is_weekly_window window_reset_at
  first_weekly [] observed_at = none
  first_weekly (window ∷ rest) observed_at =
      let others = first_weekly rest observed_at in
      if not (is_weekly_window window)
      then others
      else elim (window_reset_at window observed_at) [ none ↦ others | some t ↦ some t ]

  unfoldable pub find_weekly_reset : Fields → Time → Option Time
  unfolding candidate_windows first_weekly
  find_weekly_reset root observed_at = first_weekly (candidate_windows root) observed_at
