-- ===== src/Engine/Plan.antt =====
-- The write plan of internal/engine/writeback.go, and the guards on its items.
use cpa_plugin_reset_priorit.Config.{manages}
use cpa_plugin_reset_priorit.Engine.{
  Engine, Account, Health, healthy, quarantined, recovering, find,
}
use cpa_plugin_reset_priorit.Base.{
  ◌==◌, if◌then◌else◌, Str, ℤ, eqb_ℤ, ℕ, Bool, true, false, not, ◌&&◌, none, some, List, [], ◌∷◌,
}

pub record WriteItem : Type 0 where
  pub auth_index : Str
  pub provider : Str
  pub desired : ℤ
  pub health : Health
  pub config_seq : ℕ
  pub name : Str
  pub disabled : Bool

-- `writePlanLocked` over the accounts.
unfoldable pub plan_from : ℕ → List Account → List WriteItem
plan_from config_seq [] = []
plan_from config_seq (a ∷ rest) =
    let items = plan_from config_seq rest in
    if a.current_known && eqb_ℤ a.current_priority a.desired
    then items
    else record {
      auth_index = a.auth_index;
      provider = a.provider;
      desired = a.desired;
      health = a.health;
      config_seq = config_seq;
      name = [];
      disabled = false;
    }
      ∷ items

unfoldable pub write_plan : Engine → List WriteItem
unfolding plan_from
write_plan e = plan_from e.config_seq e.accounts

abbrev pub same_health : Health → Health → Bool
same_health healthy healthy = true
same_health quarantined quarantined = true
same_health recovering recovering = true
same_health healthy quarantined = false
same_health healthy recovering = false
same_health quarantined healthy = false
same_health quarantined recovering = false
same_health recovering healthy = false
same_health recovering quarantined = false

-- The guard of the loop, for an account that is there.
unfoldable pub item_live : Engine → WriteItem → Account → Bool
unfolding manages
item_live e item a =
    not e.stopped
    && item.config_seq == e.config_seq
    && manages e.cfg item.provider
    && eqb_ℤ a.desired item.desired
    && same_health a.health item.health

-- `writeItemCurrent`
unfoldable pub item_current : Engine → WriteItem → Bool
unfolding item_live find
item_current e item = elim (find item.auth_index e.accounts) [
  | none ↦ false
  | some a ↦ not e.cfg.dry_run && item_live e item a
]
