-- ===== src/Engine/Silence.antt =====
-- No task of the engine changes its configuration, and in dry-run none saves anything.
use cpa_plugin_reset_priorit.Times.{Time}
use cpa_plugin_reset_priorit.Host.{Host, get_auth, fetch_weekly}
use cpa_plugin_reset_priorit.Providers.{Credentials, Observation, extract_credentials}
use cpa_plugin_reset_priorit.Engine.{Engine, Account, put_account}
use cpa_plugin_reset_priorit.Engine.Setup.{
  SameSetup, SameSetup-refl, if-SameSetup, accounts-SameSetup, stop_timers-SameSetup,
}
use cpa_plugin_reset_priorit.Engine.Accounts.{
  FetchAttempt, attempt_current, failure_current, is_expired, enter_awaiting, observation_admitted,
  observe,
}
use cpa_plugin_reset_priorit.Engine.Sys.{Sys, with_engine, now_of, tick, account_of}
use cpa_plugin_reset_priorit.Engine.Flush.{flush_before_reconcile, no_retry}
use cpa_plugin_reset_priorit.Engine.Fetch.{
  apply_fetch_failure, observe_engine, apply_observation, may_start, Outcome, done, again,
  call_provider, admit, must_restart, admit_found, read_credentials, fetch_pass, fetch_loop,
  fetch_one_internal, fetch_all,
}
use cpa_plugin_reset_priorit.Engine.Flush.{known_count}
use cpa_plugin_reset_priorit.Engine.Touch.{Option-cases, Result-cases}
use cpa_plugin_reset_priorit.Engine.Quiet.{
  Quiet, Quiet-refl, Quiet-trans, if-Quiet, call-Quiet, tick-Quiet, flush_internal-Quiet,
}
use cpa_plugin_reset_priorit.Engine.Flush.{known_count}
use cpa_plugin_reset_priorit.Engine.Fetch.{fetch_loop, fetch_one_internal, fetch_all}
use cpa_plugin_reset_priorit.Base.{
  if◌then◌else◌, Str, ℕ, zero, suc, ◌≡◌, refl, subst, ◌⊎◌, inl, inr, Bool, true, false, not, Option,
  none, List, [], ◌∷◌,
}

pub flush_before_reconcile-Quiet : (h : Host) (s : Sys) → Quiet s (flush_before_reconcile h s)
unfolding flush_before_reconcile
flush_before_reconcile-Quiet h s = flush_internal-Quiet h no_retry s

apply_fetch_failure-Quiet :
    (h : Host) (at : FetchAttempt) (text : Str) (s : Sys)
    → Quiet s (apply_fetch_failure h at text s)
unfolding apply_fetch_failure
apply_fetch_failure-Quiet h at text s = elim (Option-cases (account_of at.auth_index s)) [
  | inl n ↦ rw (n, apply_fetch_failure) (Quiet-refl s)
  | inr (a, f) ↦
      rw (f, apply_fetch_failure)
        (if-Quiet (failure_current s.engine a at) _ _
          (tick-Quiet s _ (accounts-SameSetup _ (SameSetup-refl s.engine))) (Quiet-refl s))
]

observe_engine-SameSetup :
    (at : FetchAttempt) (obs : Observation) (now : Time) (a : Account) (e : Engine)
    → SameSetup e (observe_engine at obs now a e)
unfolding observe_engine
observe_engine-SameSetup at obs now a e = accounts-SameSetup _ (
    if-SameSetup (observe e.cfg at obs now a).1 (stop_timers-SameSetup a.retry_timers e)
      (SameSetup-refl e))

apply_observation-Quiet :
    (h : Host) (at : FetchAttempt) (obs : Observation) (s : Sys)
    → Quiet s (apply_observation h at obs s)
unfolding apply_observation
apply_observation-Quiet h at obs s = elim (Option-cases (account_of at.auth_index s)) [
  | inl n ↦ rw (n, apply_observation) (Quiet-refl s)
  | inr (a, f) ↦
      rw (f, apply_observation)
        (if-Quiet (observation_admitted s.engine a at obs) _ _
          (tick-Quiet s _ (observe_engine-SameSetup at obs (now_of h s) a s.engine)) (Quiet-refl s))
]

call_provider-Quiet :
    (h : Host) (at : FetchAttempt) (provider : Str) (creds : Credentials) (s : Sys)
    → Quiet s (call_provider h at provider creds s)
unfolding call_provider
call_provider-Quiet h at provider creds s =
    let called = call-Quiet s (fetch_weekly provider creds) refl in
    elim (Result-cases (h.fetch s.trace provider creds)) [
      | inl (obs, g) ↦
          rw (g, call_provider) (Quiet-trans called (apply_observation-Quiet h at obs _))
      | inr (t, g) ↦ rw (g, call_provider) (Quiet-trans called (apply_fetch_failure-Quiet h at _ _))
    ]

-- The system that a round of fetchOneInternal leaves.
abbrev left : Outcome → Sys
left (done s) = s
left (again s) = s

if-Outcome :
    {s : Sys} (b : Bool) (x y : Outcome)
    → Quiet s (left x)
    → Quiet s (left y)
    → Quiet s (left (if b then x else y))
if-Outcome true x y p q = p
if-Outcome false x y p q = q

demoted-Quiet :
    (h : Host) (a : Account) (s : Sys)
    → Quiet s (
        flush_before_reconcile h (with_engine (put_account (enter_awaiting a).0 s.engine) (tick s)))
demoted-Quiet h a s =
    Quiet-trans (tick-Quiet s _ (accounts-SameSetup _ (SameSetup-refl s.engine)))
      (flush_before_reconcile-Quiet h _)

admit-Quiet :
    (h : Host) (at : FetchAttempt) (owned : Bool) (provider : Str) (creds : Credentials)
    (a : Account) (s : Sys)
    → Quiet s (left (admit h at owned provider creds a s))
unfolding admit
admit-Quiet h at owned provider creds a s =
    if-Outcome (not (attempt_current s.engine a at)) _ _
      (if-Outcome (must_restart s.engine owned a) _ _ (flush_before_reconcile-Quiet h s)
        (Quiet-refl s))
      (if-Outcome (is_expired a (now_of h s)) _ _ (demoted-Quiet h a s) (
        Quiet-trans (tick-Quiet s _ (accounts-SameSetup _ (SameSetup-refl s.engine)))
          (call_provider-Quiet h at provider creds _)))

admit_found-Quiet :
    (h : Host) (at : FetchAttempt) (owned : Bool) (provider : Str) (creds : Credentials) (s : Sys)
    → Quiet s (left (admit_found h at owned provider creds s))
unfolding admit_found
admit_found-Quiet h at owned provider creds s = elim (Option-cases (account_of at.auth_index s)) [
  | inl n ↦ rw (n, admit_found) (Quiet-refl s)
  | inr (a, f) ↦ rw (f, admit_found) (admit-Quiet h at owned provider creds a s)
]

read_credentials-Quiet :
    (h : Host) (at : FetchAttempt) (owned : Bool) (provider : Str) (s : Sys)
    → Quiet s (left (read_credentials h at owned provider s))
unfolding read_credentials
read_credentials-Quiet h at owned provider s =
    let called = call-Quiet s (get_auth at.auth_index) refl in
    elim (Result-cases (h.auth_get s.trace at.auth_index)) [
      | inr (t, g) ↦
          rw (g, read_credentials) (Quiet-trans called (apply_fetch_failure-Quiet h at _ _))
      | inl (got, g) ↦
          rw (g, read_credentials)
            (elim (Result-cases (extract_credentials h.decode_payload provider got.doc)) [
              | inr (t, r) ↦ rw r (Quiet-trans called (apply_fetch_failure-Quiet h at _ _))
              | inl (creds, r) ↦
                  rw r (Quiet-trans called (admit_found-Quiet h at owned provider creds _))
            ])
    ]

fetch_pass-Quiet :
    (h : Host) (owned : Bool) (expected : Option ℕ) (a : Account) (s : Sys)
    → Quiet s (left (fetch_pass h owned expected a s))
unfolding fetch_pass
fetch_pass-Quiet h owned expected a s =
    if-Outcome (not (may_start s.engine expected a)) _ _ (Quiet-refl s) (
      if-Outcome (is_expired a (now_of h s)) _ _ (demoted-Quiet h a s) (
        if-Outcome (not (h.has_provider a.provider)) _ _
          (Quiet-trans (tick-Quiet s _ (accounts-SameSetup _ (SameSetup-refl s.engine)))
            (apply_fetch_failure-Quiet h _ _ _))
          (Quiet-trans (tick-Quiet s _ (accounts-SameSetup _ (SameSetup-refl s.engine)))
            (read_credentials-Quiet h _ owned a.provider _))))

Outcome-cases : (o : Outcome) → ((s : Sys) × (o ≡ done s)) ⊎ ((s : Sys) × (o ≡ again s))
Outcome-cases (done s) = inl (s, refl)
Outcome-cases (again s) = inr (s, refl)

fetch_loop-Quiet :
    (h : Host) (owned : Bool) (expected : Option ℕ) (fuel : ℕ) (idx : Str) (s : Sys)
    → Quiet s (fetch_loop h owned expected fuel idx s).0
unfolding fetch_loop
fetch_loop-Quiet h owned expected zero idx s = Quiet-refl s
fetch_loop-Quiet h owned expected (suc fuel) idx s = elim (Option-cases (account_of idx s)) [
  | inl n ↦ rw (n, fetch_loop) (Quiet-refl s)
  | inr (a, f) ↦
      let one = fetch_pass-Quiet h owned expected a s in
      rw (f, fetch_loop)
        (elim (Outcome-cases (fetch_pass h owned expected a s)) [
          | inl (s', o) ↦ rw o (subst (λ x. Quiet s (left x)) o one)
          | inr (s', o) ↦ rw o (
              Quiet-trans (subst (λ x. Quiet s (left x)) o one)
                (fetch_loop-Quiet h owned expected fuel idx s'))
        ])
]

pub fetch_one_internal-Quiet :
    (h : Host) (owned : Bool) (expected : Option ℕ) (idx : Str) (s : Sys)
    → Quiet s (fetch_one_internal h owned expected idx s)
unfolding fetch_one_internal
fetch_one_internal-Quiet h owned expected idx s =
    if-Quiet (h.slot s.trace idx) _ _
      (fetch_loop-Quiet h owned expected (suc (known_count s.engine.accounts)) idx s) (Quiet-refl s)

pub fetch_all-Quiet : (h : Host) (idxs : List Str) (s : Sys) → Quiet s (fetch_all h idxs s)
unfolding fetch_all
fetch_all-Quiet h [] s = Quiet-refl s
fetch_all-Quiet h (idx ∷ rest) s =
    Quiet-trans (fetch_one_internal-Quiet h true none idx s) (fetch_all-Quiet h rest _)
