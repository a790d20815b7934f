-- ===== src/Engine/Desired.antt =====
-- recomputeDesiredLocked of engine.go: each provider's healthy accounts are ranked on their own.
use cpa_plugin_reset_priorit.Times.{Time}
use cpa_plugin_reset_priorit.Config.{Config}
use cpa_plugin_reset_priorit.Ranker.{RankEntry, rank, lookup}
use cpa_plugin_reset_priorit.Engine.{Engine, Account, is_healthy}
use cpa_plugin_reset_priorit.Engine.Accounts.{stable_key, has_future_reset}
use cpa_plugin_reset_priorit.Base.{
  if◌then◌else◌, Str, str_eq, any, ℤ, Bool, not, ◌&&◌, Option, none, some, List, [], ◌∷◌,
}

unfoldable pub rank_entry : Time → Account → RankEntry
unfolding stable_key has_future_reset
rank_entry now a = record {
  key = stable_key a;
  reset_at = a.reset_at;
  has_future_reset = has_future_reset a now;
}

-- The entries of a provider group.
unfoldable pub group_entries : Time → Str → List Account → List RankEntry
unfolding rank_entry
group_entries now provider [] = []
group_entries now provider (a ∷ rest) =
    let entries = group_entries now provider rest in
    if is_healthy a.health && str_eq a.provider provider
    then rank_entry now a ∷ entries
    else entries

-- `byKey[key]` is the last account of the group with that key.
unfoldable pub shadowed : Account → List Account → Bool
unfolding stable_key
shadowed a rest =
    any
      (λ b.
        is_healthy b.health && str_eq b.provider a.provider && str_eq (stable_key b) (stable_key a))
      rest

abbrev set_desired : Account → Option ℤ → Account
set_desired a none = a
set_desired a (some p) = record a { desired = p }

unfoldable pub desired_account : Config → Time → (all rest : List Account) → Account → Account
unfolding rank group_entries stable_key shadowed lookup
desired_account cfg now all rest a =
    if not (is_healthy a.health)
    then record a { desired = cfg.quarantine_priority }
    else if shadowed a rest
    then a
    else set_desired a (
        lookup (stable_key a)
          (rank (group_entries now a.provider all) cfg.priority_floor cfg.priority_step))

unfoldable pub desired_accounts : Config → Time → (all rest : List Account) → List Account
unfolding desired_account
desired_accounts cfg now all [] = []
desired_accounts cfg now all (a ∷ rest) =
    desired_account cfg now all rest a ∷ desired_accounts cfg now all rest

unfoldable pub recompute_desired : Time → Engine → Engine
unfolding desired_accounts
recompute_desired now e = record e { accounts = desired_accounts e.cfg now e.accounts e.accounts }
