-- ===== src/Engine/Passes.antt =====
-- The roster and the reservations keep the configuration, its generation and the stopped and terminal
-- marks.
use cpa_plugin_reset_priorit.Times.{Time}
use cpa_plugin_reset_priorit.Health.{AuthEntry}
use cpa_plugin_reset_priorit.Config.{manages}
use cpa_plugin_reset_priorit.Engine.{Engine, Account, find, put_account}
use cpa_plugin_reset_priorit.Engine.Work.{stop_timers}
use cpa_plugin_reset_priorit.Engine.Setup.{
  SameSetup, SameSetup-refl, SameSetup-trans, stop_timers-SameSetup, if-SameSetup,
  accounts-SameSetup,
}
use cpa_plugin_reset_priorit.Engine.Roster.{
  no_entry, RosterResult, apply_entry, apply_entries, contract, apply_roster, old_timers, member,
}
use cpa_plugin_reset_priorit.Engine.Reserve.{
  prune_from, prune_unmanaged, reserve_fetches, replace_reservations, release_fetches, may_reserve,
  reserved, clear_pending, clear_unwanted,
}
use cpa_plugin_reset_priorit.Base.{if◌then◌else◌, Str, Option, none, some, List, [], ◌∷◌, arith}

prune_from-SameSetup : (l : List Account) (e : Engine) → SameSetup e (prune_from l e)
unfolding prune_from
prune_from-SameSetup [] e = SameSetup-refl e
prune_from-SameSetup (a ∷ rest) e =
    SameSetup-trans
      (if-SameSetup (manages e.cfg a.provider) (SameSetup-refl e)
        (accounts-SameSetup _ (stop_timers-SameSetup a.retry_timers e)))
      (prune_from-SameSetup rest _)

pub prune_unmanaged-SameSetup : (e : Engine) → SameSetup e (prune_unmanaged e)
unfolding prune_unmanaged
prune_unmanaged-SameSetup e = prune_from-SameSetup e.accounts e

reserve_found-SameSetup :
    (e : Engine) (o : Option Account)
    → SameSetup e (elim o [
      | none ↦ e
      | some a ↦
          if may_reserve e.cfg a then put_account (reserved a) (stop_timers a.retry_timers e) else e
    ])
reserve_found-SameSetup e none = SameSetup-refl e
reserve_found-SameSetup e (some a) =
    if-SameSetup (may_reserve e.cfg a)
      (accounts-SameSetup _ (stop_timers-SameSetup a.retry_timers e)) (SameSetup-refl e)

pub reserve_fetches-SameSetup :
    (idxs : List Str) (e : Engine) → SameSetup e (reserve_fetches idxs e)
unfolding reserve_fetches
reserve_fetches-SameSetup [] e = SameSetup-refl e
reserve_fetches-SameSetup (idx ∷ rest) e =
    SameSetup-trans (reserve_found-SameSetup e (find idx e.accounts))
      (reserve_fetches-SameSetup rest _)

pub replace_reservations-SameSetup :
    (idxs : List Str) (e : Engine) → SameSetup e (replace_reservations idxs e)
unfolding replace_reservations
replace_reservations-SameSetup idxs e =
    SameSetup-trans (accounts-SameSetup (clear_unwanted idxs e.accounts) (SameSetup-refl e))
      (reserve_fetches-SameSetup idxs _)

release_found-SameSetup :
    (e : Engine) (o : Option Account)
    → SameSetup e (elim o [ none ↦ e | some a ↦ put_account (clear_pending a) e ])
release_found-SameSetup e none = SameSetup-refl e
release_found-SameSetup e (some a) = accounts-SameSetup _ (SameSetup-refl e)

pub release_fetches-SameSetup :
    (idxs : List Str) (e : Engine) → SameSetup e (release_fetches idxs e)
unfolding release_fetches
release_fetches-SameSetup [] e = SameSetup-refl e
release_fetches-SameSetup (idx ∷ rest) e =
    SameSetup-trans (release_found-SameSetup e (find idx e.accounts))
      (release_fetches-SameSetup rest _)

contract-SameSetup :
    (managed : List Str) (l : List Account) (e : Engine) → SameSetup e (contract managed l e)
unfolding contract
contract-SameSetup managed [] e = SameSetup-refl e
contract-SameSetup managed (a ∷ rest) e =
    SameSetup-trans
      (if-SameSetup (member a.auth_index managed) (SameSetup-refl e)
        (accounts-SameSetup _ (stop_timers-SameSetup a.retry_timers e)))
      (contract-SameSetup managed rest _)

apply_entry-SameSetup :
    (now : Time) (entry : AuthEntry) (r : RosterResult)
    → SameSetup r.engine (apply_entry now entry r).engine
unfolding apply_entry
apply_entry-SameSetup now entry r = ground (
  arith,
  stop_timers-SameSetup (old_timers entry (find entry.auth_index r.engine.accounts)) r.engine,
)

apply_entries-SameSetup :
    (now : Time) (entries : List AuthEntry) (r : RosterResult)
    → SameSetup r.engine (apply_entries now entries r).engine
unfolding apply_entries
apply_entries-SameSetup now [] r = SameSetup-refl r.engine
apply_entries-SameSetup now (entry ∷ rest) r =
    SameSetup-trans (apply_entry-SameSetup now entry r)
      (apply_entries-SameSetup now rest (apply_entry now entry r))

pub apply_roster-SameSetup :
    (entries : List AuthEntry) (now : Time) (e : Engine)
    → SameSetup e (apply_roster entries now e).engine
unfolding apply_roster
apply_roster-SameSetup entries now e =
    let r = apply_entries now entries (no_entry e) in
    SameSetup-trans (apply_entries-SameSetup now entries (no_entry e))
      (contract-SameSetup r.managed r.engine.accounts r.engine)
