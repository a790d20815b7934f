-- ===== src/Engine/Validate.antt =====
-- validateRoster of engine.go: which entries may enter the engine's state.
use cpa_plugin_reset_priorit.Config.{Config, manages}
use cpa_plugin_reset_priorit.Sanitize.{message}
use cpa_plugin_reset_priorit.Health.{AuthEntry, normalize_provider}
use cpa_plugin_reset_priorit.Providers.{Result, ok, err, extract_credentials}
use cpa_plugin_reset_priorit.Host.{Host, AuthDoc, get_auth}
use cpa_plugin_reset_priorit.Engine.{Account, find}
use cpa_plugin_reset_priorit.Engine.Sys.{Sys, calling, log}
use cpa_plugin_reset_priorit.Base.{
  ◌==◌, if◌then◌else◌, Str, bytes, str_eq, is_empty, trim_space, equal_fold, countp, Bool, true,
  false, not, ◌&&◌, ◌||◌, Option, none, some, List, [], ◌∷◌, ◌++◌,
}

pub record Candidate : Type 0 where
  pub entry : AuthEntry
  pub provider : Str
  pub name_key : Str
  pub path_key : Str

-- A managed entry with a physical file.
unfoldable pub is_physical : Config → AuthEntry → Bool
unfolding manages normalize_provider equal_fold trim_space
is_physical cfg entry =
    manages cfg (normalize_provider entry)
    && not entry.runtime_only
    && equal_fold (trim_space entry.source) (bytes "file")
    && not (is_empty (trim_space entry.path))
    && not (is_empty entry.auth_index)
    && not (is_empty (trim_space entry.name))

unfoldable pub candidates : Config → List AuthEntry → List Candidate
unfolding is_physical
candidates cfg [] = []
candidates cfg (entry ∷ rest) =
    let others = candidates cfg rest in
    if is_physical cfg entry
    then record {
      entry = entry;
      provider = normalize_provider entry;
      name_key = trim_space entry.name;
      path_key = trim_space entry.path;
    }
      ∷ others
    else others

unfoldable pub is_ambiguous : List Candidate → Candidate → Bool
is_ambiguous all c =
    not (countp (λ d. str_eq d.entry.auth_index c.entry.auth_index) all == 1)
    || not (countp (λ d. str_eq d.name_key c.name_key) all == 1)
    || not (countp (λ d. str_eq d.path_key c.path_key) all == 1)

pub data Verdict : Type 0 where
  accept skip : Verdict
  defer : Str → Verdict

mismatched_index : Str
mismatched_index = bytes "established physical auth validation returned a mismatched auth index"

mismatched_name : Str
mismatched_name = bytes "established physical auth validation returned a mismatched file name"

read_failed : Str
read_failed = bytes "established physical auth validation read failed: "

-- What the answer of host.auth.get says of a candidate; `known` is whether the engine has it.
unfoldable pub judge : Host → Bool → Candidate → Result AuthDoc → Verdict
unfolding extract_credentials message mismatched_index mismatched_name read_failed
judge h known c (err e) = if known then defer (read_failed ++ message e) else skip
judge h known c (ok got) =
    if not (is_empty got.auth_index) && not (str_eq got.auth_index c.entry.auth_index)
    then (if known then defer mismatched_index else skip)
    else if not (is_empty got.name) && not (str_eq got.name c.entry.name)
    then (if known then defer mismatched_name else skip)
    else elim (extract_credentials h.decode_payload c.provider got.doc) [
      | err _ ↦ skip
      | ok _ ↦ accept
    ]

abbrev pub is_present : Option Account → Bool
is_present none = false
is_present (some _) = true

abbrev also : AuthEntry → Result (List AuthEntry) → Result (List AuthEntry)
also entry (ok entries) = ok (entry ∷ entries)
also entry (err e) = err e

-- The second loop: the validated entries, or the error that defers the whole roster.
unfoldable pub validate_candidates :
    Host
    → (known : List Account) → (all rest : List Candidate) → Sys
    → Result (List AuthEntry) × Sys
unfolding is_ambiguous judge find
validate_candidates h known all [] s = (ok [], s)
validate_candidates h known all (c ∷ rest) s =
    let idx = c.entry.auth_index in
    let s' = calling (get_auth idx) s in
    let skipped = validate_candidates h known all rest (log s) in
    let dropped = validate_candidates h known all rest (log s') in
    let taken = validate_candidates h known all rest s' in
    if is_ambiguous all c
    then skipped
    else elim (judge h (is_present (find idx known)) c (h.auth_get s.trace idx)) [
      | skip ↦ dropped
      | defer e ↦ (err e, s')
      | accept ↦ (also c.entry taken.0, taken.1)
    ]

unfoldable pub validate_roster : Host → List AuthEntry → Sys → Result (List AuthEntry) × Sys
unfolding candidates validate_candidates
validate_roster h entries s =
    let all = candidates s.engine.cfg entries in validate_candidates h s.engine.accounts all all s
