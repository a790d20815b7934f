-- ===== src/Codex/Bounds.antt =====
-- A reset that a window gives lies near the observation.
use cpa_plugin_reset_priorit.Times.{Time, second}
use cpa_plugin_reset_priorit.Json.{
  Json, Number, Fields, null, boolean, number, string, array, object, integer, decimal, get,
}
use cpa_plugin_reset_priorit.Codex.{
  weekly_window_seconds, first_parsed, plausible, unix_time, parse_unix_seconds, as_number,
  plausible_text, parse_absolute, parse_reset_after, window_reset_at,
}
use cpa_plugin_reset_priorit.Codex.{as_number, parse_absolute, window_reset_at}
use cpa_plugin_reset_priorit.Json.{null, boolean, number, string, array, object}
use cpa_plugin_reset_priorit.Base.{
  if◌then◌else◌, Str, bytes, ℤ, pos, ℕ, ◌+◌, ◌*◌, ◌≤◌, ◌≡◌, refl, subst, ◌∙◌, ◌⊎◌, inl, inr, Bool,
  true, false, ◌||◌, Option, none, some, List, [], ◌∷◌, arith,
}

-- Within a week and an hour of the observation.
abbrev pub Near : Time → Time → Type 0
Near observed_at t =
    let window = (weekly_window_seconds + 3600) * second in
    (observed_at ≤ t + window) × (t ≤ observed_at + window)

option_cases : {A : Type 0} (o : Option A) → (o ≡ none) ⊎ ((a : A) × (o ≡ some a))
option_cases none = inl refl
option_cases (some a) = inr (a, refl)

first_parsed-origin :
    {A : Type 0} (obj : Fields) (parse : Json → Option A) (keys : List Str) (a : A)
    → first_parsed obj parse keys ≡ some a
    → (v : Json) × (parse v ≡ some a)
unfolding first_parsed
first_parsed-origin obj parse [] a e = cc
first_parsed-origin obj parse (k ∷ ks) a e = elim (option_cases (get k obj)) [
  | inl n ↦ first_parsed-origin obj parse ks a (
      subst
        (λ o.
          (elim o [
            | none ↦ first_parsed obj parse ks
            | some v ↦ elim (parse v) [ none ↦ first_parsed obj parse ks | some b ↦ some b ]
          ])
          ≡ some a)
        n e)
  | inr (v, f) ↦
      let e' =
        subst
          (λ o.
            (elim o [
              | none ↦ first_parsed obj parse ks
              | some w ↦ elim (parse w) [ none ↦ first_parsed obj parse ks | some b ↦ some b ]
            ])
            ≡ some a)
          f e in
      elim (option_cases (parse v)) [
        | inl n ↦ first_parsed-origin obj parse ks a (
            subst (λ o. (elim o [ none ↦ first_parsed obj parse ks | some b ↦ some b ]) ≡ some a) n
              e')
        | inr (b, g) ↦ (
          v,
          g
              ∙ subst
                  (λ o. (elim o [ none ↦ first_parsed obj parse ks | some c ↦ some c ]) ≡ some a) g
                  e',
        )
      ]
]

plausible-Near : (t observed_at : Time) → plausible t observed_at ≡ true → Near observed_at t
unfolding plausible
plausible-Near t observed_at e = ground arith

if-none :
    {A : Type 0} (b : Bool) (o : Option A) {t : A} → (if b then none else o) ≡ some t → o ≡ some t
if-none true o e = cc
if-none false o e = e

if-some :
    {A : Type 0} (b : Bool) (x : A) {t : A}
    → (if b then some x else none) ≡ some t
    → (b ≡ true) × (x ≡ t)
if-some true x e = (refl, ground arith)
if-some false x e = cc

unix-Near :
    (n : Number) (observed_at t : Time)
    → parse_unix_seconds n observed_at ≡ some t
    → Near observed_at t
unfolding parse_unix_seconds
unix-Near (decimal _ _) observed_at t e = cc
unix-Near (integer sec) observed_at t e =
    let p = if-some _ (unix_time sec) (if-none _ _ e) in
    subst (Near observed_at) p.1 (plausible-Near (unix_time sec) observed_at p.0)

checked-Near :
    (o : Option Time) (observed_at : Time) {t : Time}
    → (elim o [ none ↦ none | some u ↦ if plausible u observed_at then some u else none ]) ≡ some t
    → Near observed_at t
checked-Near none observed_at e = cc
checked-Near (some u) observed_at e =
    let p = if-some _ u e in subst (Near observed_at) p.1 (plausible-Near u observed_at p.0)

or-false : (a b : Bool) → (a || b) ≡ false → (a ≡ false) × (b ≡ false)
or-false a b e = ground arith

if-none_guard :
    {A : Type 0} (b : Bool) (o : Option A) {t : A} → (if b then none else o) ≡ some t → b ≡ false
if-none_guard true o e = cc
if-none_guard false o e = refl

some-injective : {A : Type 0} {a b : A} → some a ≡ some b → a ≡ b
some-injective e = cc

module _ (rfc3339 : Str → Option Time) (rat_integer : Number → Option ℤ) {F : Type 0}
    (float64 : Number → Option F) (of_int : ℤ → F) (ltb_float : F → F → Bool)
    (nanoseconds : F → ℕ) where
  text-Near :
      (observed_at : Time) (text : Str) (t : Time)
      → plausible_text rfc3339 rat_integer float64 of_int ltb_float nanoseconds observed_at text
        ≡ some t
      → Near observed_at t
  unfolding plausible_text
  text-Near observed_at text t e = checked-Near _ observed_at e

  -- The hypothesis on the conversion of seconds: from zero to a week, no more than the nanoseconds of
  -- a week.
  abbrev pub Bounded : Type 0
  Bounded =
      (x : F)
      → ltb_float x (of_int (pos 0)) ≡ false
      → ltb_float (of_int (pos weekly_window_seconds)) x ≡ false
      → nanoseconds x ≤ weekly_window_seconds * second

  seconds_bounded :
      Bounded
      → (o : Option F) (d : ℕ)
      → (elim o [
        | none ↦ none
        | some x ↦
            if ltb_float x (of_int (pos 0)) || ltb_float (of_int (pos weekly_window_seconds)) x
            then none
            else some (nanoseconds x)
      ])
        ≡ some d
      → d ≤ weekly_window_seconds * second
  seconds_bounded bounded none d e = cc
  seconds_bounded bounded (some x) d e =
      let g = or-false _ _ (if-none_guard _ _ e) in
      subst (λ n. n ≤ weekly_window_seconds * second) (some-injective (if-none _ _ e))
        (bounded x g.0 g.1)

  after_bounded :
      Bounded
      → (v : Json) (d : ℕ)
      → parse_reset_after rfc3339 rat_integer float64 of_int ltb_float nanoseconds v ≡ some d
      → d ≤ weekly_window_seconds * second
  unfolding parse_reset_after
  after_bounded bounded v d e = elim (option_cases (as_number v)) [
    | inl n ↦
        let e' =
          subst
            (λ o.
              (elim o [
                | none ↦ none
                | some n ↦ elim (float64 n) [
                  | none ↦ none
                  | some x ↦
                      if ltb_float x (of_int (pos 0))
                        || ltb_float (of_int (pos weekly_window_seconds)) x
                      then none
                      else some (nanoseconds x)
                ]
              ])
              ≡ some d)
            n e in
        cc
    | inr (n, f) ↦ seconds_bounded bounded (float64 n) d (
        subst
          (λ o.
            (elim o [
              | none ↦ none
              | some n ↦ elim (float64 n) [
                | none ↦ none
                | some x ↦
                    if ltb_float x (of_int (pos 0))
                      || ltb_float (of_int (pos weekly_window_seconds)) x
                    then none
                    else some (nanoseconds x)
              ]
            ])
            ≡ some d)
          f e)
  ]

  absolute-Near :
      (observed_at : Time) (v : Json) (t : Time)
      → parse_absolute rfc3339 rat_integer float64 of_int ltb_float nanoseconds observed_at v
        ≡ some t
      → Near observed_at t
  unfolding parse_absolute
  absolute-Near observed_at null t e = cc
  absolute-Near observed_at (boolean _) t e = cc
  absolute-Near observed_at (number n) t e = unix-Near n observed_at t e
  absolute-Near observed_at (string text) t e = text-Near observed_at text t e
  absolute-Near observed_at (array _) t e = cc
  absolute-Near observed_at (object _) t e = cc

  either_family :
      (o : Option Time) (p : Option ℕ) (observed_at t : Time)
      → (elim o [
        | some u ↦ some u
        | none ↦ elim p [ some d ↦ some (observed_at + d) | none ↦ none ]
      ])
        ≡ some t
      → (o ≡ some t) ⊎ ((d : ℕ) × (p ≡ some d) × (observed_at + d ≡ t))
  either_family (some u) p observed_at t e = inl e
  either_family none (some d) observed_at t e = inr (d, refl, some-injective e)
  either_family none none observed_at t e = cc

  pub window-Near :
      Bounded
      → (window : Fields) (observed_at t : Time)
      → window_reset_at rfc3339 rat_integer float64 of_int ltb_float nanoseconds window observed_at
        ≡ some t
      → Near observed_at t
  unfolding window_reset_at
  window-Near bounded window observed_at t e = elim (either_family _ _ observed_at t e) [
    | inl f ↦
        let origin =
          first_parsed-origin window
            (parse_absolute rfc3339 rat_integer float64 of_int ltb_float nanoseconds observed_at)
            (bytes "reset_at" ∷ bytes "resetAt" ∷ []) t f in
        absolute-Near observed_at origin.0 t origin.1
    | inr (d, f, r) ↦
        let origin =
          first_parsed-origin window
            (parse_reset_after rfc3339 rat_integer float64 of_int ltb_float nanoseconds)
            (bytes "reset_after_seconds" ∷ bytes "resetAfterSeconds" ∷ []) d f in
        let b : d ≤ weekly_window_seconds * second = after_bounded bounded origin.0 d origin.1 in
        subst (Near observed_at) r (omega (arith, b), omega (arith, b))
  ]
