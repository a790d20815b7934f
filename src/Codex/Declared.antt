-- ===== src/Codex/Declared.antt =====
-- What a quota window declares of its length, described without the code's own test.
use cpa_plugin_reset_priorit.Times.{Time}
use cpa_plugin_reset_priorit.Json.{
  Json, Number, Fields, null, boolean, number, string, array, object, get,
}
use cpa_plugin_reset_priorit.Codex.{first_parsed, as_number, exact_integer, is_weekly_window}
use cpa_plugin_reset_priorit.Base.{
  Str, bytes, ℤ, eqb_ℤ, eqb_ℤ_iff, pos, ℕ, ◌≡◌, refl, sym, ap, ◌∙◌, ◌⊎◌, inl, inr, Bool, true,
  false, Option, none, some, List, [], ◌∷◌,
}

-- The integer that a value stands for, if it is a number and that number is integral.
abbrev pub integer_of : (Number → Option ℤ) → Option Json → Option ℤ
integer_of rat_integer none = none
integer_of rat_integer (some null) = none
integer_of rat_integer (some (boolean _)) = none
integer_of rat_integer (some (number n)) = rat_integer n
integer_of rat_integer (some (string _)) = none
integer_of rat_integer (some (array _)) = none
integer_of rat_integer (some (object _)) = none

-- The first of these keys that holds an integer holds this one.
pub data FirstHolds (rat_integer : Number → Option ℤ) (window : Fields) (z : ℤ)
    : List Str → Type 0 where
  hit :
      {k : Str} {ks : List Str}
      → integer_of rat_integer (get k window) ≡ some z
      → FirstHolds rat_integer window z (k ∷ ks)
  miss :
      {k : Str} {ks : List Str}
      → integer_of rat_integer (get k window) ≡ none
      → FirstHolds rat_integer window z ks
      → FirstHolds rat_integer window z (k ∷ ks)

-- The window declares a week: 604800 seconds, or, if it declares no seconds, 10080 minutes.
pub data DeclaresWeek (rat_integer : Number → Option ℤ) (window : Fields) : Type 0 where
  in_seconds :
      FirstHolds rat_integer window
        (pos 604800)
        (bytes "limit_window_seconds" ∷ bytes "limitWindowSeconds" ∷ [])
      → DeclaresWeek rat_integer window
  in_minutes :
      integer_of rat_integer (get (bytes "limit_window_seconds") window) ≡ none
      → integer_of rat_integer (get (bytes "limitWindowSeconds") window) ≡ none
      → FirstHolds rat_integer window
          (pos 10080)
          (bytes "window_minutes" ∷ bytes "windowMinutes" ∷ [])
      → DeclaresWeek rat_integer window

option_cases : {A : Type 0} (o : Option A) → (o ≡ none) ⊎ ((a : A) × (o ≡ some a))
option_cases none = inl refl
option_cases (some a) = inr (a, refl)

abbrev parsed : {A B : Type 0} → (A → Option B) → Option A → Option B
parsed parse none = none
parsed parse (some v) = parse v

-- One key of firstParsed.
first_parsed-step :
    {A : Type 0} (obj : Fields) (parse : Json → Option A) (k : Str) (ks : List Str)
    (o : Option Json)
    → (elim o [
      | none ↦ first_parsed obj parse ks
      | some v ↦ elim (parse v) [ none ↦ first_parsed obj parse ks | some a ↦ some a ]
    ])
      ≡ elim (parsed parse o) [ none ↦ first_parsed obj parse ks | some a ↦ some a ]
first_parsed-step obj parse k ks none = refl
first_parsed-step obj parse k ks (some v) = refl

weekly_test :
    (o p : Option ℤ)
    → (elim o [
      | some seconds ↦ eqb_ℤ seconds (pos 604800)
      | none ↦ elim p [ some minutes ↦ eqb_ℤ minutes (pos 10080) | none ↦ false ]
    ])
      ≡ true
    → (o ≡ some (pos 604800)) ⊎ ((o ≡ none) × (p ≡ some (pos 10080)))
weekly_test (some z) p e = inl (ap some ((eqb_ℤ_iff z (pos 604800)).0 e))
weekly_test none (some z) e = inr (refl, ap some ((eqb_ℤ_iff z (pos 10080)).0 e))
weekly_test none none e = cc

module _ (rfc3339 : Str → Option Time) (rat_integer : Number → Option ℤ) {F : Type 0}
    (float64 : Number → Option F) (of_int : ℤ → F) (ltb_float : F → F → Bool)
    (nanoseconds : F → ℕ) where
  abbrev reader : Json → Option ℤ
  reader = exact_integer rfc3339 rat_integer float64 of_int ltb_float nanoseconds

  parsed-integer_of : (o : Option Json) → parsed reader o ≡ integer_of rat_integer o
  unfolding exact_integer as_number
  parsed-integer_of none = refl
  parsed-integer_of (some null) = refl
  parsed-integer_of (some (boolean _)) = refl
  parsed-integer_of (some (number n)) = refl
  parsed-integer_of (some (string _)) = refl
  parsed-integer_of (some (array _)) = refl
  parsed-integer_of (some (object _)) = refl

  first_parsed-key :
      (window : Fields) (k : Str) (ks : List Str)
      → first_parsed window reader (k ∷ ks) ≡ elim (integer_of rat_integer (get k window)) [
        | none ↦ first_parsed window reader ks
        | some z ↦ some z
      ]
  unfolding first_parsed
  first_parsed-key window k ks =
      first_parsed-step window reader k ks (get k window)
      ∙ ap
          (λ o. elim o as (λ _. Option ℤ) [
            | none ↦ first_parsed window reader ks
            | some z ↦ some z
          ])
          (parsed-integer_of (get k window))

  first_parsed-FirstHolds :
      (window : Fields) (keys : List Str) (z : ℤ)
      → first_parsed window reader keys ≡ some z
      → FirstHolds rat_integer window z keys
  unfolding first_parsed
  first_parsed-FirstHolds window [] z e = cc
  first_parsed-FirstHolds window (k ∷ ks) z e =
      let step = first_parsed-key window k ks in
      elim (option_cases (integer_of rat_integer (get k window))) [
        | inl n ↦
            FirstHolds.miss n (first_parsed-FirstHolds window ks z (sym (step ∙ rw n refl) ∙ e))
        | inr (y, f) ↦ FirstHolds.hit (f ∙ sym (step ∙ rw f refl) ∙ e)
      ]

  first_parsed-misses :
      (window : Fields) (k : Str) (ks : List Str)
      → first_parsed window reader (k ∷ ks) ≡ none
      → (integer_of rat_integer (get k window) ≡ none) × (first_parsed window reader ks ≡ none)
  first_parsed-misses window k ks e =
      let step = first_parsed-key window k ks in
      elim (option_cases (integer_of rat_integer (get k window))) [
        | inl n ↦ (n, sym (step ∙ rw n refl) ∙ e)
        | inr (y, f) ↦ let no : some y ≡ none = sym (step ∙ rw f refl) ∙ e in cc
      ]

  pub is_weekly-DeclaresWeek :
      (window : Fields)
      → is_weekly_window rfc3339 rat_integer float64 of_int ltb_float nanoseconds window ≡ true
      → DeclaresWeek rat_integer window
  unfolding is_weekly_window
  is_weekly-DeclaresWeek window e =
      let long = bytes "limit_window_seconds" in
      let camel = bytes "limitWindowSeconds" in
      let minutes = bytes "window_minutes" ∷ bytes "windowMinutes" ∷ [] in
      elim (weekly_test (first_parsed window reader (long ∷ camel ∷ []))
        (first_parsed window reader minutes) e) [
          | inl s ↦ in_seconds (first_parsed-FirstHolds window (long ∷ camel ∷ []) (pos 604800) s)
          | inr (n, m) ↦
              let (one, n') = first_parsed-misses window long (camel ∷ []) n in
              let (two, _) = first_parsed-misses window camel [] n' in
              in_minutes one two (first_parsed-FirstHolds window minutes (pos 10080) m)
        ]
