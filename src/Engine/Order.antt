-- ===== src/Engine/Order.antt =====
-- What recomputeDesiredLocked promises of the accounts' priorities, at every configuration that
-- passes `validate`.
use cpa_plugin_reset_priorit.Times.{Time}
use cpa_plugin_reset_priorit.Config.{Config, validate}
use cpa_plugin_reset_priorit.Ranker.Formula.{int_limit, All-In}
use cpa_plugin_reset_priorit.Engine.{Engine, Account, is_healthy}
use cpa_plugin_reset_priorit.Engine.Desired.{recompute_desired}
use cpa_plugin_reset_priorit.Engine.Ranking.{
  Priorities, validate-Priorities, DistinctAccounts, RankedIn, desired_accounts-RankedIn,
}
use cpa_plugin_reset_priorit.Ranker.Formula.{behind, level}
use cpa_plugin_reset_priorit.Ranker.Spec.{Earlier, behind_lt, Earlier-less, step_gap}
use cpa_plugin_reset_priorit.Engine.Desired.{
  rank_entry, group_entries, desired_account, desired_accounts,
}
use cpa_plugin_reset_priorit.Base.{
  lt→ltb, Bool-cases, str_eq, In, All, ltb_ℤ, ◌≤ℤ◌, max_int, pos, str_eq_refl, ℕ, ◌+◌, ◌*◌, ◌≤◌,
  ◌≡◌, refl, sym, ap, subst, inl, inr, true, false, ◌&&◌, none, List, [], ◌∷◌, arith,
}

All-self_there {ℓ} :
    {A : Type ℓ} (x : A) (xs ys : List A) → All (λ a. In a ys) xs → All (λ a. In a (x ∷ ys)) xs
All-self_there x [] ys h = tt
All-self_there x (y ∷ xs) ys h = (In.there h.0, All-self_there x xs ys h.1)

All-self {ℓ} : {A : Type ℓ} (xs : List A) → All (λ a. In a xs) xs
All-self [] = tt
All-self (x ∷ xs) = (In.here refl, All-self_there x xs xs (All-self xs))

fits_int : (c : Config) (p : Priorities c) → c.priority_floor ≤ℤ max_int → p.floor ≤ int_limit
fits_int c p h = let k = subst (λ f. f ≤ℤ max_int) p.floor_eq h in omega arith

-- With a valid configuration whose floor is an `int`, and accounts of distinct keys in each
-- provider: every healthy account gets the floor and a step for each account of its provider that
-- ranks behind it, up to the largest `int`, and every other account gets the sentinel.
pub recompute-RankedIn :
    (now : Time) (e : Engine) (v : validate e.cfg ≡ none)
    → e.cfg.priority_floor ≤ℤ max_int
    → DistinctAccounts e.accounts
    → All (RankedIn (validate-Priorities e.cfg v) now e.accounts) (recompute_desired now e).accounts
unfolding recompute_desired
recompute-RankedIn now e v fits d =
    let p = validate-Priorities e.cfg v in
    desired_accounts-RankedIn e.cfg p now e.accounts (fits_int e.cfg p fits) d e.accounts
      (All-self e.accounts) d

-- What the computation leaves alone in an account.
desired_account-keeps :
    (c : Config) (now : Time) (all rest : List Account) (a : Account)
    → (rank_entry now (desired_account c now all rest a) ≡ rank_entry now a)
      × ((desired_account c now all rest a).health ≡ a.health)
      × ((desired_account c now all rest a).provider ≡ a.provider)
unfolding desired_account rank_entry
desired_account-keeps c now all rest a = ground arith

In-group_of_recomputed :
    (c : Config) (now : Time) (all rest : List Account) (b : Account)
    → is_healthy b.health ≡ true
    → In b (desired_accounts c now all rest)
    → In (rank_entry now b) (group_entries now b.provider rest)
unfolding desired_accounts group_entries
In-group_of_recomputed c now all [] b h m = elim m [ ]
In-group_of_recomputed c now all (a ∷ rest) b h (In.here p) =
    let k = desired_account-keeps c now all rest a in
    let same_entry : rank_entry now b ≡ rank_entry now a = cc (k.0, ap (rank_entry now) p) in
    let same_health : a.health ≡ b.health = cc (k.1, ap (λ (x : Account). x.health) p) in
    let same_provider : a.provider ≡ b.provider = cc (k.2, ap (λ (x : Account). x.provider) p) in
    rw (same_entry, same_health, h, same_provider, str_eq_refl b.provider) (In.here refl)
In-group_of_recomputed c now all (a ∷ rest) b h (In.there m) =
    elim (Bool-cases (is_healthy a.health && str_eq a.provider b.provider)) [
      | inl e ↦ rw e (In.there (In-group_of_recomputed c now all rest b h m))
      | inr e ↦ rw e (In-group_of_recomputed c now all rest b h m)
    ]

module _ (now : Time) (e : Engine) (valid : validate e.cfg ≡ none)
    (fits : e.cfg.priority_floor ≤ℤ max_int) (distinct : DistinctAccounts e.accounts) where
  ranked_of :
      {a : Account}
      → In a (recompute_desired now e).accounts
      → RankedIn (validate-Priorities e.cfg valid) now e.accounts a
  ranked_of m =
      All-In _ (recompute_desired now e).accounts (recompute-RankedIn now e valid fits distinct) m

  -- With a valid configuration whose floor is an `int`, and accounts of distinct keys in each
  -- provider: a healthy account's priority is above that of every account that is not healthy,
  -- whatever their providers and reset times.
  pub healthy_above_unhealthy :
      {a b : Account}
      → In a (recompute_desired now e).accounts
      → In b (recompute_desired now e).accounts
      → is_healthy a.health ≡ true
      → is_healthy b.health ≡ false
      → ltb_ℤ b.desired a.desired ≡ true
  healthy_above_unhealthy {a} {b} ma mb ha hb =
      let p = validate-Priorities e.cfg valid in
      let floor_fits = fits_int e.cfg p fits in
      let above = p.below in
      rw ((ranked_of ma).ranked ha, (ranked_of mb).sentinel hb) (lt→ltb _ _ (omega arith))

  -- With a valid configuration whose floor is an `int`, and accounts of distinct keys in each
  -- provider: of two healthy accounts of one provider, the one that must rank before the other
  -- gets a priority that is larger by the step at least, unless its own would exceed the largest
  -- `int`.
  pub sooner_above :
      {a b : Account}
      → In a (recompute_desired now e).accounts
      → In b (recompute_desired now e).accounts
      → is_healthy a.health ≡ true
      → is_healthy b.health ≡ true
      → a.provider ≡ b.provider
      → Earlier (rank_entry now a) (rank_entry now b)
      → (let p = validate-Priorities e.cfg valid in
          p.floor + p.step * behind (rank_entry now a) (group_entries now a.provider e.accounts)
          ≤ int_limit)
      → (m : ℕ) × (n : ℕ) × (a.desired ≡ pos m)
        × (b.desired ≡ pos n)
        × (n + (validate-Priorities e.cfg valid).step ≤ m)
  unfolding recompute_desired
  sooner_above {a} {b} ma mb ha hb same before room =
      let p = validate-Priorities e.cfg valid in
      let group = group_entries now a.provider e.accounts in
      let mb' =
        subst (λ q. In (rank_entry now b) (group_entries now q e.accounts)) (sym same)
          (In-group_of_recomputed e.cfg now e.accounts e.accounts b hb mb) in
      let rb =
        subst
          (λ q.
            b.desired
            ≡ pos
                (level p.floor p.step (behind (rank_entry now b) (group_entries now q e.accounts))))
          (sym same) ((ranked_of mb).ranked hb) in
      (
        level p.floor p.step (behind (rank_entry now a) group),
        level p.floor p.step (behind (rank_entry now b) group),
        (ranked_of ma).ranked ha,
        rb,
        step_gap p.floor p.step (behind (rank_entry now b) group) (behind (rank_entry now a) group)
            (behind_lt (rank_entry now a) (rank_entry now b) group (Earlier-less before) mb') room,
      )
