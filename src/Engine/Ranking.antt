-- ===== src/Engine/Ranking.antt =====
-- The priorities that recomputeDesiredLocked assigns, for a configuration that passes `validate`.
use cpa_plugin_reset_priorit.Config.{Config, validate}
use cpa_plugin_reset_priorit.Engine.{Account}
use cpa_plugin_reset_priorit.Ranker.{lookup, rank}
use cpa_plugin_reset_priorit.Ranker.Sort.{DistinctKeys, DiffersFrom}
use cpa_plugin_reset_priorit.Ranker.Formula.{behind, level, int_limit, rank_formula}
use cpa_plugin_reset_priorit.Engine.{is_healthy}
use cpa_plugin_reset_priorit.Engine.Desired.{
  rank_entry, group_entries, shadowed, desired_account, desired_accounts,
}
use cpa_plugin_reset_priorit.Times.{Time}
use cpa_plugin_reset_priorit.Engine.Accounts.{stable_key}
use cpa_plugin_reset_priorit.Base.{
  Bool-cases, Str, str_eq, In, All, Pairs, ℤ, pos, negsuc, str_eq_refl, str_eq→eq, str_eq_iff, ℕ,
  ◌≤◌, ◌<◌, ◌≡◌, refl, sym, subst, ◌≢◌, inl, inr, true, false, ◌&&◌, none, some, List, [], ◌∷◌,
  arith,
}

-- What a validated configuration says of the three priorities, as natural numbers.
pub record Priorities (c : Config) : Type 0 where
  pub floor : ℕ
  pub step : ℕ
  pub quarantine : ℕ
  pub floor_eq : c.priority_floor ≡ pos floor
  pub step_eq : c.priority_step ≡ pos step
  pub quarantine_eq : c.quarantine_priority ≡ pos quarantine
  pub step_pos : 0 < step
  pub below : quarantine < floor

priorities_of :
    (c : Config) (f s q : ℤ)
    → c.priority_floor ≡ f
    → c.priority_step ≡ s
    → c.quarantine_priority ≡ q
    → validate c ≡ none
    → Priorities c
unfolding validate
priorities_of c (pos f) (pos s) (pos q) ef es eq h = record {
  floor = f;
  step = s;
  quarantine = q;
  floor_eq = ef;
  step_eq = es;
  quarantine_eq = eq;
  step_pos = ground arith;
  below = ground arith;
}
priorities_of c (negsuc f) s q ef es eq h = absurd (ground arith)
priorities_of c (pos f) (negsuc s) q ef es eq h = absurd (ground arith)
priorities_of c (pos f) (pos s) (negsuc q) ef es eq h = absurd (ground arith)

unfoldable pub validate-Priorities : (c : Config) → validate c ≡ none → Priorities c
unfolding priorities_of
validate-Priorities c h =
    priorities_of c c.priority_floor c.priority_step c.quarantine_priority refl refl refl h

-- No two accounts of one provider share a key.
abbrev pub DistinctAccounts : List Account → Type 0
DistinctAccounts = Pairs (λ a b. (a.provider ≡ b.provider) → stable_key b ≢ stable_key a)

group-DiffersFrom :
    (now : Time) (a : Account) (rest : List Account)
    → All (λ b. a.provider ≡ b.provider → stable_key b ≢ stable_key a) rest
    → DiffersFrom (stable_key a) (group_entries now a.provider rest)
unfolding group_entries
group-DiffersFrom now a [] h = tt
group-DiffersFrom now a (b ∷ rest) h =
    elim (Bool-cases (is_healthy b.health && str_eq b.provider a.provider)) [
      | inl e ↦ rw e (
          unfold rank_entry in
          (
            h.0 (sym (str_eq→eq b.provider a.provider (ground arith))),
            group-DiffersFrom now a rest h.1,
          ))
      | inr e ↦ rw e (group-DiffersFrom now a rest h.1)
    ]

group-DistinctKeys :
    (now : Time) (provider : Str) (accounts : List Account)
    → DistinctAccounts accounts
    → DistinctKeys (group_entries now provider accounts)
unfolding group_entries
group-DistinctKeys now provider [] d = tt
group-DistinctKeys now provider (a ∷ rest) d =
    elim (Bool-cases (is_healthy a.health && str_eq a.provider provider)) [
      | inl e ↦ rw e (
        subst (λ p. DiffersFrom (rank_entry now a).key (group_entries now p rest))
            (str_eq→eq a.provider provider (ground arith))
            (unfold rank_entry in group-DiffersFrom now a rest d.0),
        group-DistinctKeys now provider rest d.1,
      )
      | inr e ↦ rw e (group-DistinctKeys now provider rest d.1)
    ]

pub In-group :
    (now : Time) (a : Account) (accounts : List Account)
    → is_healthy a.health ≡ true
    → In a accounts
    → In (rank_entry now a) (group_entries now a.provider accounts)
unfolding group_entries
In-group now a [] h m = elim m [ ]
In-group now a (b ∷ rest) h (In.here p) =
    subst (λ x. In (rank_entry now a) (group_entries now a.provider (x ∷ rest))) (sym p)
      (rw (h, str_eq_refl a.provider) (In.here refl))
In-group now a (b ∷ rest) h (In.there m) =
    elim (Bool-cases (is_healthy b.health && str_eq b.provider a.provider)) [
      | inl e ↦ rw e (In.there (In-group now a rest h m))
      | inr e ↦ rw e (In-group now a rest h m)
    ]

not_shadowed :
    (a : Account) (rest : List Account)
    → All (λ b. a.provider ≡ b.provider → stable_key b ≢ stable_key a) rest
    → shadowed a rest ≡ false
unfolding shadowed
not_shadowed a [] h = refl
not_shadowed a (b ∷ rest) h = ground (
  arith,
  not_shadowed a rest h.1,
  h.0,
  str_eq_iff b.provider a.provider,
  str_eq_iff (stable_key b) (stable_key a),
)

-- The priority of an account after the computation, over the accounts before it.
pub record RankedIn {c : Config} (p : Priorities c) (now : Time) (all : List Account) (b : Account)
    : Type 0 where
  pub sentinel : is_healthy b.health ≡ false → b.desired ≡ pos p.quarantine
  pub ranked :
      is_healthy b.health ≡ true
      → b.desired
        ≡ pos (level p.floor p.step (behind (rank_entry now b) (group_entries now b.provider all)))

module _ (c : Config) (p : Priorities c) (now : Time) (all : List Account)
    (fits : p.floor ≤ int_limit) (distinct : DistinctAccounts all) where
  lookup-group :
      (a : Account)
      → is_healthy a.health ≡ true
      → In a all
      → lookup
          (stable_key a)
          (rank (group_entries now a.provider all) c.priority_floor c.priority_step)
        ≡ some (
            pos
              (level p.floor p.step (behind (rank_entry now a) (group_entries now a.provider all))))
  unfolding rank_entry
  lookup-group a h m =
      rw (p.floor_eq, p.step_eq)
        (rank_formula (group_entries now a.provider all) p.floor p.step fits
          (group-DistinctKeys now a.provider all distinct) (In-group now a all h m))

  desired_account-RankedIn :
      (a : Account) (rest : List Account)
      → In a all
      → All (λ b. a.provider ≡ b.provider → stable_key b ≢ stable_key a) rest
      → RankedIn p now all (desired_account c now all rest a)
  unfolding desired_account
  desired_account-RankedIn a rest m d = elim (Bool-cases (is_healthy a.health)) [
    | inl e ↦
        rw (e, not_shadowed a rest d, lookup-group a e m)
          (record { sentinel = λ h. cc; ranked = λ h. unfold rank_entry in refl })
    | inr e ↦ rw e (record { sentinel = λ h. p.quarantine_eq; ranked = λ h. cc })
  ]

  pub desired_accounts-RankedIn :
      (rest : List Account)
      → All (λ a. In a all) rest
      → DistinctAccounts rest
      → All (RankedIn p now all) (desired_accounts c now all rest)
  unfolding desired_accounts
  desired_accounts-RankedIn [] ms d = tt
  desired_accounts-RankedIn (a ∷ rest) ms d =
      (desired_account-RankedIn a rest ms.0 d.0, desired_accounts-RankedIn rest ms.1 d.1)
