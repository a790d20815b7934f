-- ===== src/Engine/Expiry.antt =====
-- What demoteExpiredLocked leaves behind, and that it runs out of work.
use cpa_plugin_reset_priorit.Times.{Time}
use cpa_plugin_reset_priorit.Engine.{
  Account, is_awaiting, awaiting_new_window, bump, healthy, confirmed, stale,
}
use cpa_plugin_reset_priorit.Engine.Accounts.{is_expired, enter_awaiting, demote, demote_expired}
use cpa_plugin_reset_priorit.Engine.Flush.{known_count}
use cpa_plugin_reset_priorit.Base.{
  Bool-cases, In, suc, ◌<◌, ◌≡◌, refl, ap, ap₂, subst, ◌⊎◌, inl, inr, true, false, List, [], ◌∷◌,
  arith,
}
use cpa_plugin_reset_priorit.Base.{here, there}

-- An account that ranks by its reset: healthy, and the reset is confirmed or stale.
abbrev Counted : Account → Type 0
Counted a = (a.health ≡ healthy) × ((a.reset_state ≡ confirmed) ⊎ (a.reset_state ≡ stale))

demote-future :
    (now : Time) (a : Account) → Counted (demote now a).0 → now < (demote now a).0.reset_at
unfolding demote is_expired enter_awaiting
demote-future now a h = ground arith

-- After demoteExpiredLocked, an account that is healthy and whose reset is confirmed or stale has that
-- reset strictly in the future.
pub demote_expired_sound :
    (now : Time) (accounts : List Account) {a : Account}
    → In a (demote_expired now accounts).0
    → a.health ≡ healthy
    → (a.reset_state ≡ confirmed) ⊎ (a.reset_state ≡ stale)
    → now < a.reset_at
unfolding demote_expired
demote_expired_sound now [] i h k = elim i [ ]
demote_expired_sound now (a ∷ rest) (here e) h k =
    subst (λ b. Counted b → now < b.reset_at) e (demote-future now a) (h, k)
demote_expired_sound now (a ∷ rest) (there i) h k = demote_expired_sound now rest i h k

-- What demotion does to one account: nothing, unless a healthy account's known reset has passed;
-- then the account awaits a new window, its old requests are void and a retry is wanted.
pub data Demoted (now : Time) (a : Account) : Account → Type 0 where
  kept : is_expired a now ≡ false → Demoted now a a
  expired :
      {b : Account}
      → is_expired a now ≡ true
      → b.reset_state ≡ awaiting_new_window
      → b.fetch_epoch ≡ bump a.fetch_epoch
      → b.want_awaiting_retry ≡ true
      → b.reset_at ≡ a.reset_at
      → b.health ≡ a.health
      → b.desired ≡ a.desired
      → Demoted now a b

known_not_awaiting :
    (a : Account) (now : Time) → is_expired a now ≡ true → is_awaiting a.reset_state ≡ false
unfolding is_expired
known_not_awaiting a now e = ground arith

expired_Demoted :
    (now : Time) (a : Account) → is_expired a now ≡ true → Demoted now a (enter_awaiting a).0
unfolding enter_awaiting
expired_Demoted now a e =
    rw (known_not_awaiting a now e) (Demoted.expired e refl refl refl refl refl refl)

pub demote-Demoted : (now : Time) (a : Account) → Demoted now a (demote now a).0
unfolding demote
demote-Demoted now a = elim (Bool-cases (is_expired a now)) [
  | inl e ↦ rw e (expired_Demoted now a e)
  | inr e ↦ rw e (Demoted.kept e)
]

demote-known :
    (now : Time) (a : Account)
    → ((demote now a).1 ≡ true → suc (known_count ((demote now a).0 ∷ [])) ≡ known_count (a ∷ []))
      × ((demote now a).1 ≡ false → (demote now a).0 ≡ a)
unfolding demote is_expired enter_awaiting
demote-known now a = ground arith

-- A pass that reports a change leaves fewer known resets; one that reports none changes nothing.
pub demote_expired-progress :
    (now : Time) (accounts : List Account)
    → ((demote_expired now accounts).1 ≡ true
        → known_count (demote_expired now accounts).0 < known_count accounts)
      × ((demote_expired now accounts).1 ≡ false → (demote_expired now accounts).0 ≡ accounts)
unfolding demote_expired
demote_expired-progress now [] = (λ h. cc, λ h. refl)
demote_expired-progress now (a ∷ rest) =
    let one = demote-known now a in
    let others = demote_expired-progress now rest in
    elim (Bool-cases (demote now a).1) [
      | inl e ↦ elim (Bool-cases (demote_expired now rest).1) [
        | inl f ↦ (λ h. omega (arith, one.0 e, others.0 f), λ h. cc)
        | inr f ↦ (λ h. omega (arith, one.0 e, ap (known_count) (others.1 f)), λ h. cc)
      ]
      | inr e ↦ elim (Bool-cases (demote_expired now rest).1) [
        | inl f ↦ (λ h. rw (one.1 e) (omega (arith, others.0 f)), λ h. cc)
        | inr f ↦ (λ h. cc, λ h. ap₂ ◌∷◌ (one.1 e) (others.1 f))
      ]
    ]
