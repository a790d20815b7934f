-- ===== src/Engine/Restarts.antt =====
-- The loop of fetchOneInternal comes to its end: every further round follows a demotion.
use cpa_plugin_reset_priorit.Engine.Counts.{known_count-flush}
use cpa_plugin_reset_priorit.Times.{Time}
use cpa_plugin_reset_priorit.Host.{Host}
use cpa_plugin_reset_priorit.Engine.{Engine, Account}
use cpa_plugin_reset_priorit.Engine.Sys.{Sys, now_of}
use cpa_plugin_reset_priorit.Engine.Flush.{known_count, flush_before_reconcile}
use cpa_plugin_reset_priorit.Providers.{Credentials, extract_credentials}
use cpa_plugin_reset_priorit.Host.{get_auth}
use cpa_plugin_reset_priorit.Engine.{is_known, find, put_account, store}
use cpa_plugin_reset_priorit.Engine.Accounts.{
  is_expired, enter_awaiting, FetchAttempt, attempt_current,
}
use cpa_plugin_reset_priorit.Engine.Sys.{with_engine, tick, account_of, calling}
use cpa_plugin_reset_priorit.Engine.Fetch.{
  Outcome, done, again, may_start, start_attempt, admit, admit_found, read_credentials, fetch_pass,
  fetch_loop,
}
use cpa_plugin_reset_priorit.Engine.Lookup.{find-store, countp-store, countp-store_drop}
use cpa_plugin_reset_priorit.Engine.Touch.{Option-cases, Result-cases}
use cpa_plugin_reset_priorit.Engine.{store}
use cpa_plugin_reset_priorit.Engine.Fetch.{fetch_pass, fetch_loop}
use cpa_plugin_reset_priorit.Engine.Lookup.{find-store, countp-store}
use cpa_plugin_reset_priorit.Engine.Touch.{Option-cases}
use cpa_plugin_reset_priorit.Base.{
  if◌then◌else◌, Str, str_eq_refl, ℕ, zero, suc, ◌<◌, ◌≡◌, refl, subst, ◌∙◌, ◌⊎◌, inl, inr, Bool,
  true, false, not, Option, some, arith,
}

-- A round that is repeated leaves fewer known resets than `n`.
abbrev Shrinks : ℕ → Outcome → Type 0
Shrinks n (done s) = Unit
Shrinks n (again s) = known_count s.engine.accounts < n

if-Outcome :
    (b : Bool) (n : ℕ) (x y : Outcome)
    → (b ≡ true → Shrinks n x)
    → (b ≡ false → Shrinks n y)
    → Shrinks n (if b then x else y)
if-Outcome true n x y p q = p refl
if-Outcome false n x y p q = q refl

expired-known : (a : Account) (now : Time) → is_expired a now ≡ true → is_known a.reset_state ≡ true
unfolding is_expired
expired-known a now e = ground arith

awaiting-known : (a : Account) → is_known (enter_awaiting a).0.reset_state ≡ false
unfolding enter_awaiting
awaiting-known a = ground arith

awaiting-index : (a : Account) → (enter_awaiting a).0.auth_index ≡ a.auth_index
unfolding enter_awaiting
awaiting-index a = ground arith

known_count-expire :
    (h : Host) (idx : Str) (now : Time) (a : Account) (s : Sys)
    → account_of idx s ≡ some a
    → is_expired a now ≡ true
    → known_count
        (flush_before_reconcile h
          (with_engine (put_account (enter_awaiting a).0 s.engine) (tick s))).engine.accounts
      < known_count s.engine.accounts
known_count-expire h idx now a s f e =
    let s' = with_engine (put_account (enter_awaiting a).0 s.engine) (tick s) in
    let k = known_count-flush h s' in
    let d =
      countp-store_drop (λ (x : Account). is_known x.reset_state) idx s.engine.accounts {a = a}
        {b = (enter_awaiting a).0} f (awaiting-index a) (expired-known a now e)
        (awaiting-known a) in
    omega (arith, k, d)

-- An attempt of an account that may start is current until something else changes the account.
started_current :
    (e : Engine) (expected : Option ℕ) (now : Time) (a : Account)
    → may_start e expected a ≡ true
    → attempt_current e (start_attempt e expected now a).1 (start_attempt e expected now a).0 ≡ true
unfolding may_start start_attempt attempt_current
started_current e expected now a m = ground arith

admit-Shrinks :
    (h : Host) (at : FetchAttempt) (owned : Bool) (provider : Str) (creds : Credentials)
    (a : Account) (s : Sys) (n : ℕ)
    → account_of at.auth_index s ≡ some a
    → attempt_current s.engine a at ≡ true
    → known_count s.engine.accounts ≡ n
    → Shrinks n (admit h at owned provider creds a s)
unfolding admit
admit-Shrinks h at owned provider creds a s n f c k = rw c (
    if-Outcome (is_expired a (now_of h s)) n _ _
      (λ e. let d = known_count-expire h at.auth_index (now_of h s) a s f e in omega (arith, k, d))
      (λ e. tt))

read_credentials-Shrinks :
    (h : Host) (at : FetchAttempt) (owned : Bool) (provider : Str) (a : Account) (s : Sys) (n : ℕ)
    → account_of at.auth_index s ≡ some a
    → attempt_current s.engine a at ≡ true
    → known_count s.engine.accounts ≡ n
    → Shrinks n (read_credentials h at owned provider s)
unfolding read_credentials admit_found
read_credentials-Shrinks h at owned provider a s n f c k =
    elim (Result-cases (h.auth_get s.trace at.auth_index)) [
      | inr (t, g) ↦ rw (g, read_credentials) tt
      | inl (got, g) ↦
          rw (g, read_credentials)
            (elim (Result-cases (extract_credentials h.decode_payload provider got.doc)) [
              | inr (t, r) ↦ rw r tt
              | inl (creds, r) ↦ rw r (
                  rw (f, admit_found)
                    (admit-Shrinks h at owned provider creds a (calling (get_auth at.auth_index) s)
                      n f c k))
            ])
    ]

started-index :
    (e : Engine) (expected : Option ℕ) (now : Time) (a : Account)
    → (start_attempt e expected now a).1.auth_index ≡ a.auth_index
unfolding start_attempt
started-index e expected now a = refl

known_count-started :
    (e : Engine) (expected : Option ℕ) (now : Time) (a : Account) (idx : Str)
    → find idx e.accounts ≡ some a
    → known_count (store (start_attempt e expected now a).1 e.accounts) ≡ known_count e.accounts
unfolding start_attempt
known_count-started e expected now a idx f =
    countp-store (λ (x : Account). is_known x.reset_state) idx e.accounts {a = a}
      {b = (start_attempt e expected now a).1} f refl refl

find-started :
    (e : Engine) (expected : Option ℕ) (now : Time) (a : Account)
    → find
        (start_attempt e expected now a).0.auth_index
        (store (start_attempt e expected now a).1 e.accounts)
      ≡ some (start_attempt e expected now a).1
unfolding start_attempt
find-started e expected now a =
    find-store a.auth_index (start_attempt e expected now a).1 e.accounts
    ∙ rw (str_eq_refl a.auth_index) refl

fetch_pass-Shrinks :
    (h : Host) (owned : Bool) (expected : Option ℕ) (a : Account) (s : Sys) (idx : Str)
    → account_of idx s ≡ some a
    → Shrinks (known_count s.engine.accounts) (fetch_pass h owned expected a s)
unfolding fetch_pass attempt_current
fetch_pass-Shrinks h owned expected a s idx f =
    let now = now_of h s in
    let n = known_count s.engine.accounts in
    let at = (start_attempt s.engine expected now a).0 in
    let b = (start_attempt s.engine expected now a).1 in
    let s' = with_engine (put_account b s.engine) (tick s) in
    if-Outcome (not (may_start s.engine expected a)) n _ _ (λ e. tt)
      λ may.
        if-Outcome (is_expired a now) n _ _ (λ e. known_count-expire h idx now a s f e)
          λ e.
            if-Outcome (not (h.has_provider a.provider)) n _ _ (λ e. tt)
              λ e.
                read_credentials-Shrinks h at owned a.provider b s' n
                  (find-started s.engine expected now a)
                  (started_current s.engine expected now a (ground arith))
                  (known_count-started s.engine expected now a idx f)

Outcome-cases : (o : Outcome) → ((s : Sys) × (o ≡ done s)) ⊎ ((s : Sys) × (o ≡ again s))
Outcome-cases (done s) = inl (s, refl)
Outcome-cases (again s) = inr (s, refl)

fetch_loop_ends :
    (h : Host) (owned : Bool) (expected : Option ℕ) (fuel : ℕ) (idx : Str) (s : Sys)
    → known_count s.engine.accounts < fuel
    → (fetch_loop h owned expected fuel idx s).1 ≡ true
unfolding fetch_loop
fetch_loop_ends h owned expected zero idx s fits = elim fits [ ]
fetch_loop_ends h owned expected (suc fuel) idx s fits = elim (Option-cases (account_of idx s)) [
  | inl n ↦ rw (n, fetch_loop) refl
  | inr (a, f) ↦
      let shrinks = fetch_pass-Shrinks h owned expected a s idx f in
      rw (f, fetch_loop)
        (elim (Outcome-cases (fetch_pass h owned expected a s)) [
          | inl (s', o) ↦ rw o refl
          | inr (s', o) ↦
              let fewer : known_count s'.engine.accounts < known_count s.engine.accounts =
                subst (Shrinks (known_count s.engine.accounts)) o shrinks in
              rw o (fetch_loop_ends h owned expected fuel idx s' (omega arith))
        ])
]

-- fetchOneInternal comes to the end of its loop, whatever the host answers and however the clock
-- moves, when no other pass changes the account meanwhile.
pub fetch_ends :
    (h : Host) (owned : Bool) (expected : Option ℕ) (idx : Str) (s : Sys)
    → (fetch_loop h owned expected (suc (known_count s.engine.accounts)) idx s).1 ≡ true
fetch_ends h owned expected idx s =
    fetch_loop_ends h owned expected (suc (known_count s.engine.accounts)) idx s (omega arith)
