-- ===== src/Engine/Lookup.antt =====
-- The map of accounts: reads after writes, and what a write does to a count.
use cpa_plugin_reset_priorit.Engine.{Account, find, store}
use cpa_plugin_reset_priorit.Base.{
  if◌then◌else◌, Bool-cases, Str, str_eq, countp, str_eq_iff, suc, ◌≡◌, refl, inl, inr, Bool, true,
  false, some, List, [], ◌∷◌, arith,
}

pub find-index :
    (idx : Str) (l : List Account) {a : Account} → find idx l ≡ some a → a.auth_index ≡ idx
unfolding find
find-index idx [] f = cc
find-index idx (x ∷ xs) {a} f = elim (Bool-cases (str_eq x.auth_index idx)) [
  | inl e ↦ ground (arith, str_eq_iff x.auth_index idx)
  | inr e ↦ find-index idx xs {a = a} (ground arith)
]

pub find-store :
    (j : Str) (b : Account) (l : List Account)
    → find j (store b l) ≡ (if str_eq b.auth_index j then some b else find j l)
unfolding find store
find-store j b [] = refl
find-store j b (x ∷ xs) = ground (
  arith,
  find-store j b xs,
  str_eq_iff x.auth_index b.auth_index,
  str_eq_iff x.auth_index j,
  str_eq_iff b.auth_index j,
)

-- A test that the old and the new record pass alike counts as many accounts as before.
pub countp-store :
    (p : Account → Bool) (idx : Str) (l : List Account) {a b : Account}
    → find idx l ≡ some a
    → b.auth_index ≡ a.auth_index
    → p b ≡ p a
    → countp p (store b l) ≡ countp p l
unfolding find store
countp-store p idx [] f i q = cc
countp-store p idx (x ∷ xs) {a} {b} f i q = elim (Bool-cases (str_eq x.auth_index idx)) [
  | inl e ↦ ground (arith, f, i, str_eq_iff x.auth_index idx, str_eq_iff x.auth_index b.auth_index)
  | inr e ↦
      let f' : find idx xs ≡ some a = ground arith in
      ground (
        arith,
        i,
        countp-store p idx xs f' i q,
        find-index idx xs f',
        str_eq_iff x.auth_index idx,
        str_eq_iff x.auth_index b.auth_index,
      )
]

-- One that only the old record passes counts one account more than after the write.
pub countp-store_drop :
    (p : Account → Bool) (idx : Str) (l : List Account) {a b : Account}
    → find idx l ≡ some a
    → b.auth_index ≡ a.auth_index
    → p a ≡ true
    → p b ≡ false
    → suc (countp p (store b l)) ≡ countp p l
unfolding find store
countp-store_drop p idx [] f i q r = cc
countp-store_drop p idx (x ∷ xs) {a} {b} f i q r = elim (Bool-cases (str_eq x.auth_index idx)) [
  | inl e ↦ ground (arith, f, i, str_eq_iff x.auth_index idx, str_eq_iff x.auth_index b.auth_index)
  | inr e ↦
      let f' : find idx xs ≡ some a = ground arith in
      ground (
        arith,
        i,
        countp-store_drop p idx xs f' i q r,
        find-index idx xs f',
        str_eq_iff x.auth_index idx,
        str_eq_iff x.auth_index b.auth_index,
      )
]
