-- ===== src/Health/Search.antt =====
-- strings.Index of the model: what it finds, and what stands around an occurrence of digits.
use cpa_plugin_reset_priorit.Sanitize.{drop}
use cpa_plugin_reset_priorit.Health.{is_digit, starts_with_digit, index, digit_before}
use cpa_plugin_reset_priorit.Base.{
  Bool-cases, Str, has_prefix, length, All, ℕ, zero, suc, ◌+◌, ◌-◌, ◌≤◌, ◌<◌, ◌≡◌, refl, sym, ap,
  subst, ◌∙◌, ◌⊎◌, inl, inr, true, false, Option, none, some, [], ◌∷◌, arith,
}

drop_nil : (n : ℕ) → drop n [] ≡ []
unfolding drop
drop_nil zero = refl
drop_nil (suc n) = refl

pub drop_end : (n : ℕ) (s : Str) → length s < n → drop n s ≡ []
unfolding drop
drop_end zero s h = ground arith
drop_end (suc n) [] h = refl
drop_end (suc n) (c ∷ s) h = drop_end n s (omega arith)

drop-suc : (n c : ℕ) (s : Str) (m : ℕ) → m ≡ suc n → drop m (c ∷ s) ≡ drop n s
unfolding drop
drop-suc n c s m e = rw e refl

pub drop-drop : (a b : ℕ) (s : Str) → drop b (drop a s) ≡ drop (a + b) s
unfolding drop
drop-drop zero b s = ap (λ n. drop n s) (omega arith)
drop-drop (suc a) b [] = drop_nil b ∙ sym (drop_nil (suc a + b))
drop-drop (suc a) b (c ∷ s) = drop-drop a b s ∙ sym (drop-suc (a + b) c s (suc a + b) (omega arith))

pub true_false : {A : Type 0} → true ≡ false → A
true_false e = cc

pub search_cases : (o : Option ℕ) → (o ≡ none) ⊎ ((k : ℕ) × (o ≡ some k))
search_cases none = inl refl
search_cases (some k) = inr (k, refl)

-- What a successful search says of its answer.
unfoldable pub FirstAt : Str → Str → ℕ → Type 0
FirstAt s p k =
    (has_prefix (drop k s) p ≡ true) × ((j : ℕ) → j < k → has_prefix (drop j s) p ≡ false)

index-first :
    (c : ℕ) (s p : Str) (n : ℕ)
    → has_prefix (c ∷ s) p ≡ false
    → FirstAt s p n
    → FirstAt (c ∷ s) p (suc n)
unfolding FirstAt drop
index-first c s p n h f = (
  f.0,
  λ j. elim j as (λ j. j < suc n → has_prefix (drop j (c ∷ s)) p ≡ false) [
    | zero ↦ λ l. h
    | suc j ↦ λ l. f.1 j (omega arith)
  ],
)

pub index-some : (s p : Str) (k q : ℕ) → index s (q ∷ p) ≡ some k → FirstAt s (q ∷ p) k
unfolding index FirstAt has_prefix drop
index-some [] p k q e = cc
index-some (c ∷ s) p k q e = elim (Bool-cases (has_prefix (c ∷ s) (q ∷ p))) [
  | inl h ↦ let z : k ≡ 0 = ground arith in rw z (h, λ j l. ground arith)
  | inr h ↦ elim (search_cases (index s (q ∷ p))) [
    | inl n ↦ ground arith
    | inr (n, f) ↦
        let z : k ≡ suc n = ground arith in
        rw z (index-first c s (q ∷ p) n h (index-some s p n q f))
  ]
]

pub index-none :
    (s p : Str) (j q : ℕ) → index s (q ∷ p) ≡ none → has_prefix (drop j s) (q ∷ p) ≡ false
unfolding index drop has_prefix
index-none [] p j q e = rw (drop_nil j) refl
index-none (c ∷ s) p zero q e = ground arith
index-none (c ∷ s) p (suc j) q e = index-none s p j q (ground arith)

digits_inside :
    (s p : Str) (t : ℕ)
    → has_prefix s p ≡ true
    → All (λ c. is_digit c ≡ true) p
    → t < length p
    → starts_with_digit (drop t s) ≡ true
unfolding has_prefix drop
digits_inside s [] t h d l = ground arith
digits_inside [] (q ∷ p) t h d l = cc
digits_inside (c ∷ s) (q ∷ p) zero h d l = ground (arith, d.0)
digits_inside (c ∷ s) (q ∷ p) (suc t) h d l = digits_inside s p t (ground arith) d.1 (omega arith)

-- A later position that an occurrence of digits reaches has a digit before it.
pub reached :
    (m code : Str) (i j : ℕ)
    → has_prefix (drop i m) code ≡ true
    → All (λ c. is_digit c ≡ true) code
    → i < j
    → j ≤ i + length code
    → digit_before m j ≡ true
unfolding digit_before
reached m code i zero h d l u = ground arith
reached m code i (suc j) h d l u =
    let at : i + (j - i) ≡ j = omega arith in
    subst (λ n. starts_with_digit (drop n m) ≡ true) at
      (subst (λ x. starts_with_digit x ≡ true) (drop-drop i (j - i) m)
        (digits_inside (drop i m) code (j - i) h d (omega arith)))
