-- ===== src/Packaging/Lines.antt =====
-- Splitting a checksums file into its lines, and a line into its fields.
use mathlib.Core.List.{reverse, reverse-append, reverse-reverse, append_assoc}
use cpa_plugin_reset_priorit.Base.{
  cons_first, split_on, Str, is_empty, is_space, trim_left, trim_space, All, ℕ, ◌≡◌, refl, Bool,
  true, false, [], ◌∷◌, ◌++◌,
}

abbrev pub Uncut : (ℕ → Bool) → Str → Type 0
Uncut cut = All (λ c. cut c ≡ false)

pub split_on-whole : (cut : ℕ → Bool) (s : Str) → Uncut cut s → split_on cut s ≡ s ∷ []
unfolding split_on
split_on-whole cut [] h = refl
split_on-whole cut (c ∷ s) h = rw (h.0, split_on-whole cut s h.1, cons_first)

pub split_on-append :
    (cut : ℕ → Bool) (s : Str) (c : ℕ) (t : Str)
    → Uncut cut s
    → cut c ≡ true
    → split_on cut (s ++ c ∷ t) ≡ s ∷ split_on cut t
unfolding split_on
split_on-append cut [] c t h e = rw e
split_on-append cut (a ∷ s) c t h e = rw (h.0, split_on-append cut s c t h.1 e, cons_first)

abbrev pub NoSpace : Str → Type 0
NoSpace = Uncut is_space

abbrev pub NonEmpty : Str → Type 0
NonEmpty s = is_empty s ≡ false

trim_left-append : (s t : Str) → NonEmpty s → NoSpace s → trim_left (s ++ t) ≡ s ++ t
unfolding trim_left
trim_left-append [] t e h = cc
trim_left-append (c ∷ s) t e h = rw h.0

pub NoSpace-append : (s t : Str) → NoSpace s → NoSpace t → NoSpace (s ++ t)
NoSpace-append [] t h k = k
NoSpace-append (c ∷ s) t h k = (h.0, NoSpace-append s t h.1 k)

reverse-cons : (c : ℕ) (s : Str) → reverse (c ∷ s) ≡ reverse s ++ c ∷ []
reverse-cons c s = reverse-append (c ∷ []) s

NoSpace-reverse : (s : Str) → NoSpace s → NoSpace (reverse s)
NoSpace-reverse [] h = h
NoSpace-reverse (c ∷ s) h =
    rw (reverse-cons c s) (NoSpace-append (reverse s) (c ∷ []) (NoSpace-reverse s h.1) (h.0, tt))

NonEmpty-snoc : (s : Str) (c : ℕ) → NonEmpty (s ++ c ∷ [])
NonEmpty-snoc [] c = refl
NonEmpty-snoc (a ∷ s) c = refl

NonEmpty-reverse : (s : Str) → NonEmpty s → NonEmpty (reverse s)
NonEmpty-reverse [] h = h
NonEmpty-reverse (c ∷ s) h = rw (reverse-cons c s) (NonEmpty-snoc (reverse s) c)

reverse-between : (s t u : Str) → reverse (s ++ (t ++ u)) ≡ reverse u ++ (reverse t ++ reverse s)
reverse-between s t u = simp (reverse-append, append_assoc)

pub trim_space-between :
    (s t u : Str)
    → NonEmpty s
    → NoSpace s
    → NonEmpty u
    → NoSpace u
    → trim_space (s ++ (t ++ u)) ≡ s ++ (t ++ u)
unfolding trim_space
trim_space-between s t u es hs eu hu = rw (trim_left-append s (t ++ u) es hs) (
    rw (reverse-between s t u) (
      rw
        (trim_left-append (reverse u) (reverse t ++ reverse s) (NonEmpty-reverse u eu)
          (NoSpace-reverse u hu))
        (rw (← reverse-between s t u) (reverse-reverse (s ++ (t ++ u))))))
