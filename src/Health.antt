-- ===== src/Health.antt =====
-- The credential-health classification of internal/engine/state.go, over the entries of
-- internal/hostapi/types.go.
pub mod Search
pub mod Standalone
use cpa_plugin_reset_priorit.Times.{Time}
use cpa_plugin_reset_priorit.Sanitize.{drop}
use cpa_plugin_reset_priorit.Base.{
  leb, if◌then◌else◌, Str, bytes, is_empty, to_lower, trim_space, equal_fold, has_prefix, contains,
  length, ℤ, ℕ, zero, suc, ◌+◌, Bool, true, false, not, ◌&&◌, ◌||◌, Option, none, some, List, [],
  ◌∷◌,
}

pub record AuthEntry : Type 0 where
  pub id : Str
  pub auth_index : Str
  pub name : Str
  pub kind : Str  -- Type
  pub provider : Str
  pub label : Str
  pub status : Str
  pub status_message : Str
  pub disabled : Bool
  pub unavailable : Bool
  pub runtime_only : Bool
  pub source : Str
  pub path : Str
  pub email : Str
  pub priority : ℤ
  pub last_refresh : Time
  pub mod_time : Time

-- The reason texts: "", "disabled" and "reauth_required".
pub data Reason : Type 0 where
  unset disabled reauth_required : Reason

unfoldable pub contains_any : Str → List Str → Bool
unfolding contains
contains_any msg [] = false
contains_any msg (w ∷ ws) = contains msg w || contains_any msg ws

abbrev pub is_digit : ℕ → Bool
is_digit c = leb b'0' c && leb c b'9'

abbrev pub starts_with_digit : Str → Bool
starts_with_digit [] = false
starts_with_digit (c ∷ _) = is_digit c

-- `strings.Index`
unfoldable pub index : Str → Str → Option ℕ
unfolding has_prefix
index [] p = if has_prefix [] p then some 0 else none
index (c ∷ s) p =
    let rest = index s p in
    if has_prefix (c ∷ s) p then some 0 else elim rest [ none ↦ none | some n ↦ some (suc n) ]

-- `message[i-1]` is a digit, for an `i` that is positive.
unfoldable pub digit_before : Str → ℕ → Bool
digit_before message zero = false
digit_before message (suc i) = starts_with_digit (drop i message)

-- The `for` loop, with fuel.
unfoldable pub scan_code : ℕ → Str → Str → ℕ → Bool
unfolding index drop digit_before
scan_code zero message code start = false
scan_code (suc fuel) message code start = elim (index (drop start message) code) [
  | none ↦ false
  | some k ↦
      let i = start + k in
      let rest = scan_code fuel message code (i + length code) in
      if not (digit_before message i) && not (starts_with_digit (drop (i + length code) message))
      then true
      else rest
]

unfoldable pub contains_standalone_code : Str → Str → Bool
unfolding scan_code
contains_standalone_code message code = scan_code (suc (length message)) message code 0

abbrev pub definitive_words : List Str
definitive_words = bytes "unauthorized" ∷ bytes "invalid_grant" ∷ bytes "invalid grant" ∷ []

abbrev pub benign_words : List Str
benign_words =
    bytes "quota"
    ∷ bytes "rate limit"
    ∷ bytes "rate-limit"
    ∷ bytes "cooldown"
    ∷ bytes "cool down"
    ∷ bytes "overloaded"
    ∷ []

abbrev pub marker_words : List Str
marker_words =
    bytes "reauth"
    ∷ bytes "re-auth"
    ∷ bytes "authentication required"
    ∷ bytes "invalid credential"
    ∷ bytes "revoked"
    ∷ bytes "forbidden"
    ∷ []

-- The tests on the lowered status message, in the order of the source.
unfoldable pub classify_message : Str → Bool × Reason
unfolding contains_any contains_standalone_code
classify_message msg =
    if contains_any msg definitive_words
    then (true, reauth_required)
    else if contains_any msg benign_words
    then (false, unset)
    else if contains_standalone_code msg (bytes "429")
    then (false, unset)
    else if contains_any msg marker_words
    then (true, reauth_required)
    else if contains_standalone_code msg (bytes "401") || contains_standalone_code msg (bytes "403")
    then (true, reauth_required)
    else (false, unset)

unfoldable pub quarantine_reason_for : AuthEntry → Bool × Reason
unfolding classify_message equal_fold to_lower
quarantine_reason_for entry =
    if entry.disabled || equal_fold entry.status (bytes "disabled")
    then (true, disabled)
    else if not (equal_fold entry.status (bytes "error"))
    then (false, unset)
    else classify_message (to_lower entry.status_message)

-- normalizeProvider and accountLabel of engine.go.
unfoldable pub normalize_provider : AuthEntry → Str
unfolding to_lower trim_space
normalize_provider entry =
    to_lower (trim_space (if is_empty entry.provider then entry.kind else entry.provider))

unfoldable pub account_label : AuthEntry → Str
account_label entry =
    if not (is_empty entry.email)
    then entry.email
    else if not (is_empty entry.label)
    then entry.label
    else entry.name
