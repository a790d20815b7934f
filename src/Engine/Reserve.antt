-- ===== src/Engine/Reserve.antt =====
-- Which accounts a full reconciliation fetches by itself: the reservations of engine.go.
use cpa_plugin_reset_priorit.Config.{Config, manages}
use cpa_plugin_reset_priorit.Engine.{
  Engine, Account, is_quarantined, is_recovering, is_awaiting, find, store, remove, put_account,
}
use cpa_plugin_reset_priorit.Engine.Work.{cancelled, stop_timers}
use cpa_plugin_reset_priorit.Engine.Roster.{member}
use cpa_plugin_reset_priorit.Base.{
  if◌then◌else◌, Str, Bool, true, false, not, ◌&&◌, ◌||◌, none, some, List, [], ◌∷◌,
}

-- `pruneUnmanagedAccounts` over the accounts.
unfoldable pub prune_from : List Account → Engine → Engine
unfolding manages stop_timers remove
prune_from [] e = e
prune_from (a ∷ rest) e = prune_from rest (
    if manages e.cfg a.provider
    then e
    else let e' = stop_timers a.retry_timers e in
      record e' { accounts = remove a.auth_index e'.accounts })

unfoldable pub prune_unmanaged : Engine → Engine
unfolding prune_from
prune_unmanaged e = prune_from e.accounts e

-- `reconcileFetchTargetsLocked` over the accounts.
unfoldable pub targets_from : Config → List Account → List Str
unfolding manages
targets_from cfg [] = []
targets_from cfg (a ∷ rest) =
    let targets = targets_from cfg rest in
    if manages cfg a.provider && not (is_quarantined a.health)
    then a.auth_index ∷ targets
    else targets

unfoldable pub fetch_targets : Engine → List Str
unfolding targets_from
fetch_targets e = targets_from e.cfg e.accounts

-- The guard of `reserveReconcileFetchesLocked` on an account that is there.
unfoldable pub may_reserve : Config → Account → Bool
unfolding manages
may_reserve cfg a =
    manages cfg a.provider && not (is_quarantined a.health) && not a.reconcile_fetch_pending

-- The reserved account: its retries are cancelled, and the intent to rebuild them is kept.
unfoldable pub reserved : Account → Account
unfolding cancelled
reserved a = record (cancelled a) {
  want_awaiting_retry = is_awaiting a.reset_state || a.want_awaiting_retry;
  awaiting_needs_immediate = is_awaiting a.reset_state || a.awaiting_needs_immediate;
  want_retry_schedule = is_recovering a.health || a.want_retry_schedule;
  reconcile_fetch_pending = true;
}

unfoldable pub reserve_fetches : List Str → Engine → Engine
unfolding may_reserve reserved stop_timers find store
reserve_fetches [] e = e
reserve_fetches (idx ∷ rest) e = reserve_fetches rest (elim (find idx e.accounts) [
  | none ↦ e
  | some a ↦
      if may_reserve e.cfg a then put_account (reserved a) (stop_timers a.retry_timers e) else e
])

abbrev pub clear_pending : Account → Account
clear_pending a = record a { reconcile_fetch_pending = false }

unfoldable pub clear_unwanted : List Str → List Account → List Account
clear_unwanted wanted [] = []
clear_unwanted wanted (a ∷ rest) =
    (if member a.auth_index wanted then a else clear_pending a) ∷ clear_unwanted wanted rest

-- `replaceReconcileFetchReservationsLocked`
unfoldable pub replace_reservations : List Str → Engine → Engine
unfolding clear_unwanted reserve_fetches
replace_reservations wanted e =
    reserve_fetches wanted (record e { accounts = clear_unwanted wanted e.accounts })

-- `releaseReconcileFetches`
unfoldable pub release_fetches : List Str → Engine → Engine
unfolding find store
release_fetches [] e = e
release_fetches (idx ∷ rest) e =
    release_fetches rest
      (elim (find idx e.accounts) [ none ↦ e | some a ↦ put_account (clear_pending a) e ])
