-- ===== src/Engine/Write.antt =====
-- internal/engine/writeback.go: what is done with each item of a plan.
use cpa_plugin_reset_priorit.Times.{Time}
use cpa_plugin_reset_priorit.Sanitize.{message}
use cpa_plugin_reset_priorit.Json.{number, Fields, integer, get, put, root_object}
use cpa_plugin_reset_priorit.Providers.{ok, err, extract_credentials}
use cpa_plugin_reset_priorit.Host.{Host, AuthDoc, get_auth, save_auth}
use cpa_plugin_reset_priorit.Engine.{
  Account, is_quarantined, is_recovering, find, store, put_account,
}
use cpa_plugin_reset_priorit.Engine.Sys.{Sys, calling, with_engine, now_of, log, account_of}
use cpa_plugin_reset_priorit.Engine.Plan.{WriteItem, item_live, item_current}
use cpa_plugin_reset_priorit.Engine.Priority.{parse_priority_raw}
use cpa_plugin_reset_priorit.Host.{read_clock}
use cpa_plugin_reset_priorit.Base.{
  if◌then◌else◌, Str, bytes, str_eq, is_empty, ℤ, eqb_ℤ, Bool, true, false, not, ◌&&◌, ◌||◌, Option,
  none, some, List, [], ◌∷◌, ◌++◌,
}

-- The account after `updateCurrentPriority`, the clock read only for a saved sentinel.
unfoldable pub note_priority : ℤ → ℤ → Bool → Time → Account → Account
note_priority sentinel priority saved now a = record a {
  current_priority = priority;
  current_known = true;
  recovery_sentinel_ready =
      (is_recovering a.health && eqb_ℤ priority sentinel) || a.recovery_sentinel_ready;
  quarantine_sentinel_written_at =
      if saved && is_quarantined a.health && eqb_ℤ priority sentinel
      then now
      else a.quarantine_sentinel_written_at;
  write_error = [];
}

unfoldable pub update_current_priority : Host → Str → ℤ → Bool → Sys → Sys
unfolding note_priority find store
update_current_priority h idx priority saved s = elim (account_of idx s) [
  | none ↦ s
  | some a ↦
      let sentinel = s.engine.cfg.quarantine_priority in
      record {
        engine = put_account (note_priority sentinel priority saved (now_of h s) a) s.engine;
        trace =
            if saved && is_quarantined a.health && eqb_ℤ priority sentinel
            then read_clock ∷ s.trace
            else s.trace;
      }
]

unfoldable pub record_write_error : Str → Str → Sys → Sys
unfolding find store
record_write_error idx text s = elim (account_of idx s) [
  | none ↦ log s
  | some a ↦ log (with_engine (put_account (record a { write_error = text }) s.engine) s)
]

read_failed : Str
read_failed = bytes "read-before-write failed: "

other_index : Str
other_index = bytes "read-before-write returned a different auth index"

other_name : Str
other_name = bytes "read-before-write returned a different physical auth name"

no_oauth : Str
no_oauth = bytes "read-before-write no longer has a managed OAuth credential shape"

not_an_object : Str
not_an_object = bytes "auth json is not an object; refusing to write"

save_failed : Str
save_failed = bytes "save failed: "

abbrev pub priority_key : Str
priority_key = bytes "priority"

abbrev pub holds : Option ℤ → ℤ → Bool
holds none d = false
holds (some p) d = eqb_ℤ p d

-- The save itself, behind the final admission.
unfoldable pub save_item : Host → WriteItem → Str → Fields → Sys → Sys
unfolding item_current update_current_priority record_write_error save_failed message
save_item h item name doc s =
    if not (item_current s.engine item) then s else elim (h.auth_save s.trace name doc) [
      | none ↦ log (
          update_current_priority h item.auth_index item.desired true
            (calling (save_auth name doc) s))
      | some e ↦
          record_write_error item.auth_index (save_failed ++ message e)
            (calling (save_auth name doc) s)
    ]

-- What follows a document that is an object.
unfoldable pub write_fields : Host → WriteItem → Str → Fields → Sys → Sys
unfolding save_item update_current_priority parse_priority_raw get put
write_fields h item name doc s =
    if holds (parse_priority_raw h.float_to_int (get priority_key doc)) item.desired
    then update_current_priority h item.auth_index item.desired false s
    else save_item h item name (put priority_key (number (integer item.desired)) doc) s

unfoldable pub write_doc : Host → WriteItem → AuthDoc → Sys → Sys
unfolding write_fields record_write_error extract_credentials root_object other_index other_name
    no_oauth not_an_object
write_doc h item got s =
    if not (is_empty got.auth_index) && not (str_eq got.auth_index item.auth_index)
    then record_write_error item.auth_index other_index s
    else if not (is_empty got.name) && not (str_eq got.name item.name)
    then record_write_error item.auth_index other_name s
    else elim (extract_credentials h.decode_payload item.provider got.doc) [
      | err _ ↦ record_write_error item.auth_index no_oauth s
      | ok _ ↦ elim (root_object got.doc) [
        | none ↦ record_write_error item.auth_index not_an_object s
        | some doc ↦ write_fields h item (if is_empty got.name then item.name else got.name) doc s
      ]
    ]

unfoldable pub write_one : Host → WriteItem → Sys → Sys
unfolding write_doc record_write_error read_failed message
write_one h item s =
    let s' = calling (get_auth item.auth_index) s in
    elim (h.auth_get s.trace item.auth_index) [
      | err e ↦ record_write_error item.auth_index (read_failed ++ message e) s'
      | ok got ↦ write_doc h item got s'
    ]

-- One item of `performWrites`.
unfoldable pub perform_item : Host → WriteItem → Account → Sys → Sys
unfolding write_one item_live
perform_item h item a s =
    let live = record item { name = a.name; disabled = a.disabled } in
    if not (item_live s.engine item a)
    then s
    else if s.engine.cfg.dry_run
    then log s
    else if a.disabled && not (is_quarantined item.health)
    then log s
    else write_one h live s

unfoldable pub perform_found : Host → WriteItem → Option Account → Sys → Sys
unfolding perform_item
perform_found h item none s = s
perform_found h item (some a) s = perform_item h item a s

unfoldable pub perform_writes : Host → List WriteItem → Sys → Sys
unfolding perform_found find
perform_writes h [] s = s
perform_writes h (item ∷ rest) s =
    perform_writes h rest (perform_found h item (account_of item.auth_index s) s)
