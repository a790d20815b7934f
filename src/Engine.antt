-- ===== src/Engine.antt =====
-- internal/engine: the state that `Engine.mu` guards, and the account records of state.go.
-- A timer of the clock is known by a number; what a callback runs is a `Task`.
pub mod Work
pub mod Accounts
pub mod Publish
pub mod Desired
pub mod Schedule
pub mod Sys
pub mod Plan
pub mod Priority
pub mod Write
pub mod Flush
pub mod Validate
pub mod Roster
pub mod Fetch
pub mod Reserve
pub mod Reconcile
pub mod Life
pub mod Callbacks
pub mod Expiry
pub mod Ranking
pub mod Order
pub mod Promotion
pub mod Admitted
pub mod Configured
pub mod Setup
pub mod Passes
pub mod Touch
pub mod Lookup
pub mod Ends
pub mod Counts
pub mod Restarts
pub mod Saves
pub mod Quiet
pub mod Silence
pub mod DryRun
pub mod Tasks
pub mod Stopped
pub mod Deadline
pub mod Quarantine
use cpa_plugin_reset_priorit.Times.{Time, Duration}
pub use cpa_plugin_reset_priorit.Status.{
  ResetState, confirmed, stale, awaiting_new_window, unknown, Health, healthy, quarantined,
  recovering, is_healthy, is_quarantined, is_recovering, is_known, is_awaiting, Snapshot,
}
use cpa_plugin_reset_priorit.Config.{Config}
use cpa_plugin_reset_priorit.Health.{Reason}
use cpa_plugin_reset_priorit.Base.{
  ltb, leb, ◌==◌, if◌then◌else◌, ltb→lt, lt→ltb, ==_iff, Bool-cases, Str, bytes, str_eq, str_lt,
  is_empty, to_lower, trim_left, trim_space, equal_fold, has_prefix, contains, length,
  length-append, countp, any, filter, In, All, Pairs, ℤ, pos_part, neg_part, sub_ℕ, ◌+ℤ◌, ◌-ℤ◌,
  ◌*ℤ◌, ltb_ℤ, leb_ℤ, eqb_ℤ, ◌≤ℤ◌, eqb_ℤ_iff, max_int, min_int, u64_mod, pos, negsuc, str_eq_refl,
  str_eq→eq, str_eq_iff, str_lt_irrefl, str_lt_trans, str_lt_asym, str_lt_total, ℕ, zero, suc, ◌+◌,
  ◌-◌, ◌*◌, ◌/◌, ◌%◌, ◌^◌, ◌≤◌, ◌<◌, min, ◌≡◌, refl, sym, ap, ap₂, subst, ◌∙◌, ◌≢◌, ◌↔◌, ◌⊎◌, inl,
  inr, Bool, true, false, not, ◌&&◌, ◌||◌, Option, none, some, List, [], ◌∷◌, ◌++◌, map, arith,
}

-- What `afterFunc` returns: `inactive` once the engine is terminal.
pub data TimerHandle : Type 0 where
  inactive : TimerHandle
  tracked : ℕ → TimerHandle

pub record Account : Type 0 where
  pub auth_index : Str
  pub id : Str
  pub name : Str
  pub provider : Str
  pub label : Str
  pub disabled : Bool
  pub health : Health
  pub quarantine_reason : Reason
  pub recovered_at : Time
  pub recovery_sentinel_ready : Bool
  pub quarantine_sentinel_written_at : Time
  pub fetch_epoch : ℕ
  pub next_fetch_seq : ℕ
  pub latest_started_fetch_seq : ℕ
  pub latest_weekly_fetch_seq : ℕ
  pub reset_at : Time
  pub reset_state : ResetState
  pub observed_at : Time
  pub last_success_at : Time
  pub last_error : Str
  pub write_error : Str
  pub current_priority : ℤ
  pub current_known : Bool
  pub desired : ℤ
  pub retry_seq : ℕ
  pub retry_timers : List TimerHandle
  pub want_retry_schedule : Bool
  pub want_awaiting_retry : Bool
  pub awaiting_needs_immediate : Bool
  pub reconcile_fetch_pending : Bool

-- The closures handed to the clock and to `runAsync`.
pub data Task : Type 0 where
  retry_fetch : Str → ℕ → Task
  on_deadline : ℕ → Task
  on_health_poll : ℕ → Task
  reconcile : Task

-- A timer that the clock has not fired: its number, the delay it was armed with and its closure.
pub record Timer : Type 0 where
  pub timer : ℕ
  pub delay : Duration
  pub task : Task

pub record Engine : Type 0 where
  pub terminal : Bool
  pub work : ℕ  -- the counter of workWG
  pub cfg : Config
  pub config_seq : ℕ
  pub accounts : List Account
  pub stopped : Bool
  pub reconcile_timer : Option TimerHandle
  pub next_reconcile_at : Time
  pub deadline_timer : Option TimerHandle
  pub next_deadline_at : Time
  pub deadline_seq : ℕ
  pub health_poll_timer : Option TimerHandle
  pub health_poll_seq : ℕ
  pub last_roster_error : Str
  pub next_timer : ℕ  -- numbers given to timers so far
  pub pending : List Timer
  pub queue : List Task  -- handed to runAsync and not yet run
  pub status : Snapshot

-- `n++` on a counter that only equality tests read.
abbrev pub bump : ℕ → ℕ
bump n = (n + 1) % u64_mod

-- `e.accounts[idx]`, the write through its pointer, and `delete`. A new account goes to the end.
unfoldable pub find : Str → List Account → Option Account
find idx [] = none
find idx (a ∷ as') = if str_eq a.auth_index idx then some a else find idx as'

unfoldable pub store : Account → List Account → List Account
store a [] = a ∷ []
store a (b ∷ bs) = if str_eq b.auth_index a.auth_index then a ∷ bs else b ∷ store a bs

unfoldable pub remove : Str → List Account → List Account
remove idx [] = []
remove idx (a ∷ as') =
    let rest = remove idx as' in if str_eq a.auth_index idx then rest else a ∷ rest

abbrev pub put_account : Account → Engine → Engine
put_account a e = record e { accounts = store a e.accounts }
