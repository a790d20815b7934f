-- ===== src/Sanitize/Truncate.antt =====
-- truncateToRuneBoundary of internal/sanitize/sanitize.go.
use cpa_plugin_reset_priorit.Sanitize.{
  drop, take, rune_start_at, walk_back, truncate_to_rune_boundary,
}
use cpa_plugin_reset_priorit.Base.{
  leb, if◌then◌else◌, Bool-cases, Str, length, ℕ, zero, suc, ◌≤◌, ◌<◌, ◌≡◌, refl, sym, ap, subst,
  ◌∙◌, ◌⊎◌, inl, inr, true, false, [], ◌∷◌, ◌++◌, arith,
}

take-drop : (n : ℕ) (s : Str) → take n s ++ drop n s ≡ s
unfolding take drop
take-drop zero s = refl
take-drop (suc n) [] = refl
take-drop (suc n) (c ∷ s) = ap (λ t. c ∷ t) (take-drop n s)

length-take_le : (n : ℕ) (s : Str) → n ≤ length s → length (take n s) ≡ n
unfolding take
length-take_le zero s h = refl
length-take_le (suc n) [] h = omega arith
length-take_le (suc n) (c ∷ s) h = let k = length-take_le n s (omega arith) in omega arith

rune_start_at-drop : (n : ℕ) (s : Str) → rune_start_at (drop n s) 0 ≡ rune_start_at s n
unfolding drop rune_start_at
rune_start_at-drop zero s = refl
rune_start_at-drop (suc n) [] = refl
rune_start_at-drop (suc n) (c ∷ s) = rune_start_at-drop n s

walk_back_le : (s : Str) (n : ℕ) → walk_back s n ≤ n
unfolding walk_back
walk_back_le s zero = omega arith
walk_back_le s (suc n) = let k = walk_back_le s n in ground arith

walk_back_start : (s : Str) (n : ℕ) → (walk_back s n ≡ 0) ⊎ (rune_start_at s (walk_back s n) ≡ true)
unfolding walk_back
walk_back_start s zero = inl refl
walk_back_start s (suc n) = elim (Bool-cases (rune_start_at s (suc n))) [
  | inl e ↦ inr (rw e e)
  | inr e ↦ rw e (walk_back_start s n)
]

le→leb : {a b : ℕ} → a ≤ b → leb a b ≡ true
le→leb h = ground arith

lt→not_leb : {a b : ℕ} → b < a → leb a b ≡ false
lt→not_leb h = ground arith

le_cases : (k n : ℕ) → k ≤ suc n → (k ≤ n) ⊎ (k ≡ suc n)
le_cases k n h = ground arith

walk_back_largest : (s : Str) (n k : ℕ) → walk_back s n < k → k ≤ n → rune_start_at s k ≡ false
unfolding walk_back
walk_back_largest s zero k h l = ground arith
walk_back_largest s (suc n) k h l = elim (Bool-cases (rune_start_at s (suc n))) [
  | inl e ↦
      let h' : suc n < k = subst (λ b. (if b then suc n else walk_back s n) < k) e h in ground arith
  | inr e ↦
      let h' : walk_back s n < k = subst (λ b. (if b then suc n else walk_back s n) < k) e h in
      elim (le_cases k n l) [
        | inl below ↦ walk_back_largest s n k h' below
        | inr top ↦ subst (λ j. rune_start_at s j ≡ false) (sym top) e
      ]
]

-- What is cut off from a text that is too long: the rest begins with a rune, or nothing is kept; no
-- byte beyond the limit is kept; and no rune begins between the cut and the limit.
pub record Cut (s : Str) (max_bytes : ℕ) (kept : Str) : Type 0 where
  rest : Str
  parts : kept ++ rest ≡ s
  bounded : length kept ≤ max_bytes
  at_rune : (kept ≡ []) ⊎ (rune_start_at rest 0 ≡ true)
  longest : (k : ℕ) → length kept < k → k ≤ max_bytes → rune_start_at s k ≡ false

take-Cut : (s : Str) (n : ℕ) → n < length s → Cut s n (take (walk_back s n) s)
unfolding take
take-Cut s n h =
    let cut = walk_back s n in
    let below : cut ≤ n = walk_back_le s n in
    let len : length (take cut s) ≡ cut = length-take_le cut s (omega arith) in
    record {
      rest = drop cut s;
      parts = take-drop cut s;
      bounded = omega (arith, len, below);
      at_rune = elim (walk_back_start s n) [
        | inl z ↦ inl (ap (λ k. take k s) z)
        | inr e ↦ inr (rune_start_at-drop cut s ∙ e)
      ];
      longest = λ k above inside. walk_back_largest s n k (omega (arith, len, above)) inside;
    }

-- A text within the limit is kept; of a longer one a prefix within the limit is kept that ends
-- where a rune begins, or nothing, and no rune begins between the cut and the limit.
pub truncate-Cut :
    (s : Str) (max_bytes : ℕ)
    → (length s ≤ max_bytes → truncate_to_rune_boundary s max_bytes ≡ s)
      × (max_bytes < length s → Cut s max_bytes (truncate_to_rune_boundary s max_bytes))
unfolding truncate_to_rune_boundary
truncate-Cut s n = (λ h. rw (le→leb h) refl, λ h. rw (lt→not_leb h) (take-Cut s n h))
