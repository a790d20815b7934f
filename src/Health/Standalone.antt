-- ===== src/Health/Standalone.antt =====
-- containsStandaloneCode of internal/engine/state.go, against a search at every position.
use cpa_plugin_reset_priorit.Health.Search.{
  drop_end, drop-drop, true_false, search_cases, FirstAt, index-some, index-none, reached,
}
use cpa_plugin_reset_priorit.Sanitize.{drop}
use cpa_plugin_reset_priorit.Health.{is_digit, starts_with_digit, index, digit_before}
use cpa_plugin_reset_priorit.Health.{scan_code, contains_standalone_code}
use cpa_plugin_reset_priorit.Health.{contains_standalone_code}
use cpa_plugin_reset_priorit.Base.{
  if◌then◌else◌, Bool-cases, Str, has_prefix, length, All, ℕ, zero, suc, ◌+◌, ◌-◌, ◌≤◌, ◌<◌, ◌≡◌,
  refl, sym, subst, ◌∙◌, ◌↔◌, ◌⊎◌, inl, inr, Bool, true, false, not, ◌&&◌, none, some, ◌∷◌, arith,
}

-- An occurrence at a position, with no digit on either side.
abbrev pub stands_alone : Str → Str → ℕ → Bool
stands_alone message code i =
    has_prefix (drop i message) code
    && not (digit_before message i)
    && not (starts_with_digit (drop (i + length code) message))

-- One round of the loop, where the search has found its answer.
scan_found :
    (fuel : ℕ) (m code : Str) (start k : ℕ)
    → index (drop start m) code ≡ some k
    → scan_code (suc fuel) m code start ≡ (
        if not (digit_before m (start + k))
          && not (starts_with_digit (drop (start + k + length code) m))
        then true
        else scan_code fuel m code (start + k + length code))
unfolding scan_code
scan_found fuel m code start k f = rw (f, scan_code) refl

scan_lost :
    (fuel : ℕ) (m code : Str) (start : ℕ)
    → index (drop start m) code ≡ none
    → scan_code (suc fuel) m code start ≡ false
unfolding scan_code
scan_lost fuel m code start n = rw (n, scan_code) refl

found_at :
    (m code : Str) (start k : ℕ)
    → has_prefix (drop k (drop start m)) code ≡ true
    → has_prefix (drop (start + k) m) code ≡ true
found_at m code start k h = subst (λ x. has_prefix x code ≡ true) (drop-drop start k m) h

scan_code_sound :
    (fuel : ℕ) (m : Str) (q : ℕ) (p : Str) (start : ℕ)
    → scan_code fuel m (q ∷ p) start ≡ true
    → (i : ℕ) × (stands_alone m (q ∷ p) i ≡ true)
unfolding scan_code FirstAt
scan_code_sound zero m q p start e = cc
scan_code_sound (suc fuel) m q p start e = elim (search_cases (index (drop start m) (q ∷ p))) [
  | inl n ↦ true_false (sym e ∙ scan_lost fuel m (q ∷ p) start n)
  | inr (k, f) ↦
      let e' = sym (scan_found fuel m (q ∷ p) start k f) ∙ e in
      let h = found_at m (q ∷ p) start k (index-some (drop start m) p k q f).0 in
      elim (Bool-cases (
        not (digit_before m (start + k))
        && not (starts_with_digit (drop (start + k + length (q ∷ p)) m)))) [
          | inl c ↦ (start + k, rw h c)
          | inr c ↦ scan_code_sound fuel m q p (start + k + length (q ∷ p)) (
              subst
                (λ b.
                  (if b then true else scan_code fuel m (q ∷ p) (start + k + length (q ∷ p)))
                  ≡ true)
                c e')
        ]
]

alone_prefix :
    (m code : Str) (i : ℕ) → stands_alone m code i ≡ true → has_prefix (drop i m) code ≡ true
alone_prefix m code i e = ground arith

alone_before : (m code : Str) (i : ℕ) → stands_alone m code i ≡ true → digit_before m i ≡ false
alone_before m code i e = ground arith

le_or_above : (a b : ℕ) → (a ≤ b) ⊎ (b < a)
le_or_above a b = ground arith

before_end :
    (m : Str) (q : ℕ) (p : Str) (i : ℕ) → has_prefix (drop i m) (q ∷ p) ≡ true → i ≤ length m
unfolding has_prefix
before_end m q p i h = elim (le_or_above i (length m)) [
  | inl l ↦ l
  | inr l ↦ let h' = subst (λ x. has_prefix x (q ∷ p) ≡ true) (drop_end i m l) h in ground arith
]

-- Before the end of a rejected first occurrence no other position stands alone.
overlap :
    (m : Str) (q : ℕ) (p : Str) (start k i : ℕ)
    → All (λ c. is_digit c ≡ true) (q ∷ p)
    → FirstAt (drop start m) (q ∷ p) k
    → (not (digit_before m (start + k))
        && not (starts_with_digit (drop (start + k + length (q ∷ p)) m)))
      ≡ false
    → start ≤ i
    → i < start + k + length (q ∷ p)
    → stands_alone m (q ∷ p) i ≡ true
    → has_prefix (drop (i - start) (drop start m)) (q ∷ p) ≡ false
unfolding FirstAt
overlap m q p start k i d first c l near e = elim (le_or_above (start + k) i) [
  | inr earlier ↦ first.1 (i - start) (omega arith)
  | inl later ↦ elim (le_or_above i (start + k)) [
    | inl same ↦
        let at : start + k ≡ i = omega arith in
        let c' =
          subst
            (λ n.
              (not (digit_before m n) && not (starts_with_digit (drop (n + length (q ∷ p)) m)))
              ≡ false)
            at c in
        ground arith
    | inr inside ↦
        let r =
          reached m (q ∷ p) (start + k) i (found_at m (q ∷ p) start k first.0) d inside
            (omega arith) in
        true_false (sym r ∙ alone_before m (q ∷ p) i e)
  ]
]

scan_code_complete :
    (fuel : ℕ) (m : Str) (q : ℕ) (p : Str) (start i : ℕ)
    → All (λ c. is_digit c ≡ true) (q ∷ p)
    → length m < fuel + start
    → start ≤ i
    → stands_alone m (q ∷ p) i ≡ true
    → scan_code fuel m (q ∷ p) start ≡ true
unfolding FirstAt
scan_code_complete zero m q p start i d fits l e =
    let b = before_end m q p i (alone_prefix m (q ∷ p) i e) in ground arith
scan_code_complete (suc fuel) m q p start i d fits l e =
    let here = alone_prefix m (q ∷ p) i e in
    let at : start + (i - start) ≡ i = omega arith in
    let seen : has_prefix (drop (i - start) (drop start m)) (q ∷ p) ≡ true =
      subst (λ x. has_prefix x (q ∷ p) ≡ true) (sym (drop-drop start (i - start) m))
        (subst (λ n. has_prefix (drop n m) (q ∷ p) ≡ true) (sym at) here) in
    elim (search_cases (index (drop start m) (q ∷ p))) [
      | inl n ↦ true_false (sym seen ∙ index-none (drop start m) p (i - start) q n)
      | inr (k, f) ↦
          let first = index-some (drop start m) p k q f in
          scan_found fuel m (q ∷ p) start k f
          ∙ elim (Bool-cases (
              not (digit_before m (start + k))
              && not (starts_with_digit (drop (start + k + length (q ∷ p)) m)))) [
                | inl c ↦ rw c refl
                | inr c ↦ rw c (elim (le_or_above (start + k + length (q ∷ p)) i) [
                  | inl far ↦
                      scan_code_complete fuel m q p (start + k + length (q ∷ p)) i d (omega arith)
                        far e
                  | inr near ↦ true_false (sym seen ∙ overlap m q p start k i d first c l near e)
                ])
              ]
    ]

-- A code of digits is reported exactly if it stands somewhere in the message with no digit on
-- either side: skipping what a rejected occurrence covers loses nothing, and the fuel is enough.
pub standalone_code_iff :
    (message : Str) (q : ℕ) (p : Str)
    → All (λ c. is_digit c ≡ true) (q ∷ p)
    → (contains_standalone_code message (q ∷ p) ≡ true)
      ↔ ((i : ℕ) × (stands_alone message (q ∷ p) i ≡ true))
unfolding contains_standalone_code
standalone_code_iff message q p d = (
  scan_code_sound (suc (length message)) message q p 0,
  λ (i, e).
      scan_code_complete (suc (length message)) message q p 0 i d (omega arith) (omega arith) e,
)
