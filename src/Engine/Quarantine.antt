-- ===== src/Engine/Quarantine.antt =====
-- What a roster entry does to the health of the account it names.
use cpa_plugin_reset_priorit.Times.{Time}
use cpa_plugin_reset_priorit.Config.{Config}
use cpa_plugin_reset_priorit.Health.{AuthEntry, quarantine_reason_for}
use cpa_plugin_reset_priorit.Engine.{
  Account, unknown, bump, is_healthy, is_quarantined, is_recovering,
}
use cpa_plugin_reset_priorit.Engine.Work.{cancelled}
use cpa_plugin_reset_priorit.Engine.Accounts.{has_post_sentinel_recovery_evidence}
use cpa_plugin_reset_priorit.Engine.Roster.{
  describe, quarantine, begin_recovery, classify, needs_sentinel, settle, roster_account,
}
use cpa_plugin_reset_priorit.Base.{
  Bool-cases, ◌≡◌, refl, sym, ap, subst, ◌∙◌, inl, inr, true, false, some, arith,
}

-- An entry with a definitive credential failure quarantines its account, and voids the requests of
-- one that was not quarantined before. Any other entry makes no account healthy and no healthy account
-- unhealthy.
pub roster_account-health :
    (cfg : Config) (entry : AuthEntry) (now : Time) (a : Account)
    → let b = (roster_account cfg entry now (some a)).0 in
      ((quarantine_reason_for entry).0 ≡ true
        → (is_quarantined b.health ≡ true)
          × (is_quarantined a.health ≡ false → b.fetch_epoch ≡ bump a.fetch_epoch))
      × ((quarantine_reason_for entry).0 ≡ false → is_healthy b.health ≡ is_healthy a.health)
unfolding roster_account describe classify quarantine begin_recovery settle needs_sentinel cancelled
roster_account-health cfg entry now a = ground arith

true_false : {A : Type 0} → true ≡ false → A
true_false e = cc

quarantined_stays :
    (entry : AuthEntry) (now : Time) (x : Account)
    → (quarantine_reason_for entry).0 ≡ true
    → is_quarantined (classify entry now x).0.health ≡ true
unfolding classify quarantine
quarantined_stays entry now x b = rw b refl

began :
    (entry : AuthEntry) (now : Time) (x : Account)
    → (quarantine_reason_for entry).0 ≡ false
    → is_quarantined x.health ≡ true
    → has_post_sentinel_recovery_evidence x entry ≡ true
    → (classify entry now x).0 ≡ begin_recovery now x
unfolding classify
began entry now x b h v = rw b (rw h (rw v refl))

waits :
    (entry : AuthEntry) (now : Time) (x : Account)
    → (quarantine_reason_for entry).0 ≡ false
    → is_quarantined x.health ≡ true
    → has_post_sentinel_recovery_evidence x entry ≡ false
    → is_quarantined (classify entry now x).0.health ≡ true
unfolding classify
waits entry now x b h v = rw b (rw h (rw v h))

classify_left :
    (entry : AuthEntry) (now : Time) (x : Account)
    → is_quarantined x.health ≡ true
    → is_quarantined (classify entry now x).0.health ≡ false
    → ((quarantine_reason_for entry).0 ≡ false)
      × (has_post_sentinel_recovery_evidence x entry ≡ true)
      × ((classify entry now x).0 ≡ begin_recovery now x)
unfolding classify quarantine
classify_left entry now x h k = elim (Bool-cases (quarantine_reason_for entry).0) [
  | inl b ↦ true_false (subst (λ t. t ≡ false) (quarantined_stays entry now x b) k)
  | inr b ↦ elim (Bool-cases (has_post_sentinel_recovery_evidence x entry)) [
    | inl v ↦ (b, v, began entry now x b h v)
    | inr v ↦ true_false (subst (λ t. t ≡ false) (waits entry now x b h v) k)
  ]
]

settle-health : (cfg : Config) (x : Account) → (settle cfg x).health ≡ x.health
unfolding settle
settle-health cfg x = ground arith

-- What the start of a recovery leaves, after the check of the sentinel too.
begun :
    (cfg : Config) (now : Time) (x : Account)
    → let b = settle cfg (begin_recovery now x) in
      (is_recovering b.health ≡ true)
      × (b.recovery_sentinel_ready ≡ false)
      × (b.recovered_at ≡ now)
      × (b.fetch_epoch ≡ bump x.fetch_epoch)
      × (b.reset_state ≡ unknown)
unfolding settle begin_recovery
begun cfg now x = ground arith

-- An account that leaves quarantine on a roster entry goes into recovery, and only on an entry
-- without a failure and with the evidence that hasPostSentinelRecoveryEvidence asks for; its
-- requests are void then, and its reset is unknown.
pub quarantine_left :
    (cfg : Config) (entry : AuthEntry) (now : Time) (a : Account)
    → let b = (roster_account cfg entry now (some a)).0 in
      is_quarantined a.health ≡ true
      → is_quarantined b.health ≡ false
      → ((quarantine_reason_for entry).0 ≡ false)
        × (has_post_sentinel_recovery_evidence a entry ≡ true)
        × (is_recovering b.health ≡ true)
        × (b.recovery_sentinel_ready ≡ false)
        × (b.recovered_at ≡ now)
        × (b.fetch_epoch ≡ bump a.fetch_epoch)
        × (b.reset_state ≡ unknown)
unfolding roster_account describe has_post_sentinel_recovery_evidence
quarantine_left cfg entry now a h k =
    let x = describe entry a in
    let c = (classify entry now x).0 in
    let p = classify_left entry now x h (ap is_quarantined (sym (settle-health cfg c)) ∙ k) in
    let b = begun cfg now x in
    (p.0, p.1, rw p.2 b.0, rw p.2 b.1, rw p.2 b.2, rw p.2 b.3, rw p.2 b.4)
