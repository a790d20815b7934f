-- ===== src/Engine/Fetch.antt =====
-- The fetch path of engine.go: fetchOneInternal, fetchAll, and what is done with an answer.
use cpa_plugin_reset_priorit.Times.{Time}
use cpa_plugin_reset_priorit.Config.{manages}
use cpa_plugin_reset_priorit.Sanitize.{message}
use cpa_plugin_reset_priorit.Providers.{ok, err, Credentials, Observation, extract_credentials}
use cpa_plugin_reset_priorit.Host.{Host, get_auth, fetch_weekly}
use cpa_plugin_reset_priorit.Engine.{
  Engine, Account, is_quarantined, is_awaiting, find, store, put_account,
}
use cpa_plugin_reset_priorit.Engine.Work.{stop_timers}
use cpa_plugin_reset_priorit.Engine.Accounts.{
  FetchAttempt, retry_matches, is_expired, enter_awaiting, recovery_sentinel_pending,
  attempt_current, failure_current, record_failure, observation_admitted, observe,
}
use cpa_plugin_reset_priorit.Engine.Sys.{Sys, calling, with_engine, now_of, tick, account_of}
use cpa_plugin_reset_priorit.Engine.Flush.{flush_before_reconcile, known_count}
use cpa_plugin_reset_priorit.Base.{
  if◌then◌else◌, Str, bytes, u64_mod, ℕ, zero, suc, ◌+◌, ◌%◌, Bool, true, false, not, ◌&&◌, Option,
  none, some, List, [], ◌∷◌, ◌++◌,
}

-- `applyFetchFailure`
unfoldable pub apply_fetch_failure : Host → FetchAttempt → Str → Sys → Sys
unfolding failure_current record_failure find store
apply_fetch_failure h at text s = elim (account_of at.auth_index s) [
  | none ↦ s
  | some a ↦
      if failure_current s.engine a at
      then with_engine (put_account (record_failure a at text (now_of h s)) s.engine) (tick s)
      else s
]

-- The state change of `applyObservation` at the instant `now`, for an account that is there.
unfoldable pub observe_engine : FetchAttempt → Observation → Time → Account → Engine → Engine
unfolding observe stop_timers store
observe_engine at obs now a e =
    let (a', confirmed) = observe e.cfg at obs now a in
    put_account a' (if confirmed then stop_timers a.retry_timers e else e)

-- `applyObservation`
unfoldable pub apply_observation : Host → FetchAttempt → Observation → Sys → Sys
unfolding observation_admitted observe_engine find
apply_observation h at obs s = elim (account_of at.auth_index s) [
  | none ↦ s
  | some a ↦
      if observation_admitted s.engine a at obs
      then with_engine (observe_engine at obs (now_of h s) a s.engine) (tick s)
      else s
]

-- The guard at the head of the loop.
unfoldable pub may_start : Engine → Option ℕ → Account → Bool
unfolding manages recovery_sentinel_pending
may_start e expected a =
    not e.stopped
    && manages e.cfg a.provider
    && not (is_quarantined a.health)
    && not (recovery_sentinel_pending e.cfg a)
    && retry_matches expected a.retry_seq

-- A new attempt, and the account that has started it.
unfoldable pub start_attempt : Engine → Option ℕ → Time → Account → FetchAttempt × Account
start_attempt e expected now a =
    let seq = (a.next_fetch_seq + 1) % u64_mod in
    (
      record {
        auth_index = a.auth_index;
        epoch = a.fetch_epoch;
        seq = seq;
        config_seq = e.config_seq;
        expected = expected;
        started_at = now;
      },
      record a { next_fetch_seq = seq; latest_started_fetch_seq = seq },
    )

-- How a pass of the loop ends: it returns, or the loop goes round.
pub data Outcome : Type 0 where
  done again : Sys → Outcome

no_adapter : Str
no_adapter = bytes "no provider adapter for "

-- The provider call of an admitted attempt, and the fold of its answer.
unfoldable pub call_provider : Host → FetchAttempt → Str → Credentials → Sys → Sys
unfolding apply_fetch_failure apply_observation message
call_provider h at provider creds s =
    let s' = calling (fetch_weekly provider creds) s in
    elim (h.fetch s.trace provider creds) [
      | err e ↦ apply_fetch_failure h at (message e) s'
      | ok obs ↦ apply_observation h at obs s'
    ]

-- Whether a pass that the full reconciliation owns starts over.
unfoldable pub must_restart : Engine → Bool → Account → Bool
unfolding manages
must_restart e owned a =
    owned
    && not e.stopped
    && manages e.cfg a.provider
    && a.reconcile_fetch_pending
    && not (is_quarantined a.health)
    && is_awaiting a.reset_state

-- The final admission, for an account that is there.
unfoldable pub admit : Host → FetchAttempt → Bool → Str → Credentials → Account → Sys → Outcome
unfolding attempt_current must_restart is_expired enter_awaiting store call_provider
    flush_before_reconcile
admit h at owned provider creds a s =
    if not (attempt_current s.engine a at)
    then (if must_restart s.engine owned a then again (flush_before_reconcile h s) else done s)
    else if is_expired a (now_of h s)
    then again (
        flush_before_reconcile h (with_engine (put_account (enter_awaiting a).0 s.engine) (tick s)))
    else done (
        call_provider h at provider creds (
          with_engine
            (put_account
              (if is_awaiting a.reset_state
                then record a { awaiting_needs_immediate = false }
                else a)
              s.engine)
            (tick s)))

unfoldable pub admit_found : Host → FetchAttempt → Bool → Str → Credentials → Sys → Outcome
unfolding admit find
admit_found h at owned provider creds s = elim (account_of at.auth_index s) [
  | none ↦ done s
  | some a ↦ admit h at owned provider creds a s
]

-- The credential read of an attempt.
unfoldable pub read_credentials : Host → FetchAttempt → Bool → Str → Sys → Outcome
unfolding apply_fetch_failure extract_credentials admit_found message
read_credentials h at owned provider s =
    let s' = calling (get_auth at.auth_index) s in
    elim (h.auth_get s.trace at.auth_index) [
      | err e ↦ done (apply_fetch_failure h at (message e) s')
      | ok got ↦ elim (extract_credentials h.decode_payload provider got.doc) [
        | err e ↦ done (apply_fetch_failure h at (message e) s')
        | ok creds ↦ admit_found h at owned provider creds s'
      ]
    ]

-- One pass of the loop, for an account that is there.
unfoldable pub fetch_pass : Host → Bool → Option ℕ → Account → Sys → Outcome
unfolding may_start is_expired enter_awaiting start_attempt store read_credentials
    apply_fetch_failure flush_before_reconcile no_adapter
fetch_pass h owned expected a s =
    let now = now_of h s in
    let (at, started) = start_attempt s.engine expected now a in
    let s' = with_engine (put_account started s.engine) (tick s) in
    if not (may_start s.engine expected a)
    then done s
    else if is_expired a now
    then again (
        flush_before_reconcile h (with_engine (put_account (enter_awaiting a).0 s.engine) (tick s)))
    else if not (h.has_provider a.provider)
    then done (apply_fetch_failure h at (no_adapter ++ a.provider) s')
    else read_credentials h at owned a.provider s'

-- The `for` loop on fuel, and whether it came to its end.
unfoldable pub fetch_loop : Host → Bool → Option ℕ → ℕ → Str → Sys → Sys × Bool
unfolding fetch_pass find
fetch_loop h owned expected zero idx s = (s, false)
fetch_loop h owned expected (suc fuel) idx s = elim (account_of idx s) [
  | none ↦ (s, true)
  | some a ↦ elim (fetch_pass h owned expected a s) [
    | done s' ↦ (s', true)
    | again s' ↦ fetch_loop h owned expected fuel idx s'
  ]
]

-- `fetchOneInternal`, behind the engine-wide semaphore, on as much fuel as the flushes.
unfoldable pub fetch_one_internal : Host → Bool → Option ℕ → Str → Sys → Sys
unfolding fetch_loop
fetch_one_internal h owned expected idx s =
    if h.slot s.trace idx
    then (fetch_loop h owned expected (suc (known_count s.engine.accounts)) idx s).0
    else s

-- `fetchAll`, its goroutines one after another.
unfoldable pub fetch_all : Host → List Str → Sys → Sys
unfolding fetch_one_internal
fetch_all h [] s = s
fetch_all h (idx ∷ rest) s = fetch_all h rest (fetch_one_internal h true none idx s)
