-- ===== src/Engine/Saves.antt =====
-- What writeOne saves: the document it has read, with the priority of the plan and nothing else.
use cpa_plugin_reset_priorit.Json.{number, integer, Fields, get, put, get-put, root_object}
use cpa_plugin_reset_priorit.Host.{Host, AuthDoc, Call, save_auth, is_save}
use cpa_plugin_reset_priorit.Providers.{ok}
use cpa_plugin_reset_priorit.Engine.Sys.{Sys, calling, account_of}
use cpa_plugin_reset_priorit.Engine.Plan.{WriteItem, item_current}
use cpa_plugin_reset_priorit.Engine.Write.{
  update_current_priority, record_write_error, save_item, priority_key,
}
use cpa_plugin_reset_priorit.Engine.Touch.{Option-cases}
use cpa_plugin_reset_priorit.Json.{number, integer, Fields, get, put, get-put, root_object}
use cpa_plugin_reset_priorit.Engine.Sys.{calling}
use cpa_plugin_reset_priorit.Engine.Write.{save_item, priority_key}
use cpa_plugin_reset_priorit.Host.{get_auth}
use cpa_plugin_reset_priorit.Providers.{extract_credentials}
use cpa_plugin_reset_priorit.Engine.Priority.{parse_priority_raw}
use cpa_plugin_reset_priorit.Engine.Write.{write_fields, write_doc, write_one, holds}
use cpa_plugin_reset_priorit.Engine.Touch.{Result-cases}
use cpa_plugin_reset_priorit.Base.{
  if◌then◌else◌, Bool-cases, Str, str_eq, is_empty, countp, In, ℤ, str_eq_refl, str_eq_iff, ℕ, suc,
  ◌≡◌, refl, ap, subst, ◌∙◌, inl, inr, Bool, true, false, not, ◌&&◌, some, List, [], ◌∷◌, arith,
}

-- How many saves a list of calls has.
abbrev pub saves : List Call → ℕ
saves = countp is_save

-- No save, or one: of a current item, under its name, of the document just read with the priority set.
pub data Saved (h : Host) (item : WriteItem) (s s' : Sys) : Type 0 where
  unsaved : saves s'.trace ≡ saves s.trace → Saved h item s s'
  saved :
      {got : AuthDoc} {doc : Fields} (out : Fields)
      → h.auth_get s.trace item.auth_index ≡ ok got
      → root_object got.doc ≡ some doc
      → item_current s.engine item ≡ true
      → In (save_auth item.name out) s'.trace
      → saves s'.trace ≡ suc (saves s.trace)
      → get priority_key out ≡ some (number (integer item.desired))
      → ((k : Str) → str_eq priority_key k ≡ false → get k out ≡ get k doc)
      → Saved h item s s'

pub record_write_error-saves :
    (idx text : Str) (s : Sys) → saves (record_write_error idx text s).trace ≡ saves s.trace
unfolding record_write_error
record_write_error-saves idx text s = elim (Option-cases (account_of idx s)) [
  | inl n ↦ rw (n, record_write_error) (omega arith)
  | inr (a, f) ↦ rw (f, record_write_error) (omega arith)
]

pub update_current_priority-saves :
    (h : Host) (idx : Str) (priority : ℤ) (written : Bool) (s : Sys)
    → saves (update_current_priority h idx priority written s).trace ≡ saves s.trace
unfolding update_current_priority
update_current_priority-saves h idx priority written s = elim (Option-cases (account_of idx s)) [
  | inl n ↦ rw (n, update_current_priority) refl
  | inr (a, f) ↦ rw (f, update_current_priority) (ground arith)
]

-- The calls made before are still there.
record_write_error-In :
    (c : Call) (idx text : Str) (s : Sys)
    → In c s.trace
    → In c (record_write_error idx text s).trace
unfolding record_write_error
record_write_error-In c idx text s m = elim (Option-cases (account_of idx s)) [
  | inl n ↦ rw (n, record_write_error) (In.there m)
  | inr (a, f) ↦ rw (f, record_write_error) (In.there m)
]

if-In : (b : Bool) {c : Call} (x y : List Call) → In c x → In c y → In c (if b then x else y)
if-In true x y p q = p
if-In false x y p q = q

update_current_priority-In :
    (c : Call) (h : Host) (idx : Str) (priority : ℤ) (written : Bool) (s : Sys)
    → In c s.trace
    → In c (update_current_priority h idx priority written s).trace
unfolding update_current_priority
update_current_priority-In c h idx priority written s m = elim (Option-cases (account_of idx s)) [
  | inl n ↦ rw (n, update_current_priority) m
  | inr (a, f) ↦ rw (f, update_current_priority) (if-In _ _ _ (In.there m) m)
]

save_item-Saved :
    (h : Host) (item : WriteItem) (name : Str) (got : AuthDoc) (doc : Fields) (s0 s : Sys)
    → h.auth_get s0.trace item.auth_index ≡ ok got
    → root_object got.doc ≡ some doc
    → name ≡ item.name
    → s.engine ≡ s0.engine
    → saves s.trace ≡ saves s0.trace
    → Saved h item s0
        (save_item h item name (put priority_key (number (integer item.desired)) doc) s)
unfolding save_item
save_item-Saved h item name got doc s0 s g r n e k =
    let v = number (integer item.desired) in
    let out = put priority_key v doc in
    let called : Sys = calling (save_auth name out) s in
    let made : In (save_auth item.name out) called.trace = In.here (ap (λ n. save_auth n out) n) in
    let one : saves called.trace ≡ suc (saves s0.trace) = omega (arith, k) in
    let set : get priority_key out ≡ some v =
      ground (arith, get-put priority_key priority_key v doc, str_eq_refl priority_key) in
    let others : (k : Str) → str_eq priority_key k ≡ false → get k out ≡ get k doc =
      λ k ne. get-put priority_key k v doc ∙ rw ne refl in
    elim (Bool-cases (item_current s.engine item)) [
      | inr c ↦ rw c (Saved.unsaved k)
      | inl c ↦
          let cur : item_current s0.engine item ≡ true =
            subst (λ x. item_current x item ≡ true) e c in
          rw c (elim (Option-cases (h.auth_save s.trace name out)) [
            | inl o ↦ rw o (
                Saved.saved out g r cur
                  (In.there
                    (update_current_priority-In _ h item.auth_index item.desired true called made))
                  (omega (
                    arith,
                    one,
                    update_current_priority-saves h item.auth_index item.desired true called,
                  ))
                  set others)
            | inr (t, o) ↦ rw o (
                Saved.saved out g r cur (record_write_error-In _ item.auth_index _ called made)
                  (record_write_error-saves item.auth_index _ called ∙ one) set others)
          ])
    ]

write_fields-Saved :
    (h : Host) (item : WriteItem) (name : Str) (got : AuthDoc) (doc : Fields) (s0 s : Sys)
    → h.auth_get s0.trace item.auth_index ≡ ok got
    → root_object got.doc ≡ some doc
    → name ≡ item.name
    → s.engine ≡ s0.engine
    → saves s.trace ≡ saves s0.trace
    → Saved h item s0 (write_fields h item name doc s)
unfolding write_fields
write_fields-Saved h item name got doc s0 s g r n e k =
    elim (Bool-cases
      (holds (parse_priority_raw h.float_to_int (get priority_key doc)) item.desired)) [
        | inl c ↦ rw c (
            Saved.unsaved
              (update_current_priority-saves h item.auth_index item.desired false s ∙ k))
        | inr c ↦ rw c (save_item-Saved h item name got doc s0 s g r n e k)
      ]

failed-Saved :
    (h : Host) (item : WriteItem) (text : Str) (s0 s : Sys)
    → saves s.trace ≡ saves s0.trace
    → Saved h item s0 (record_write_error item.auth_index text s)
failed-Saved h item text s0 s k =
    Saved.unsaved (record_write_error-saves item.auth_index text s ∙ k)

-- The name that is saved under is the item's.
name-kept :
    (got wanted : Str)
    → (not (is_empty got) && not (str_eq got wanted)) ≡ false
    → (if is_empty got then wanted else got) ≡ wanted
name-kept [] wanted e = refl
name-kept (c ∷ cs) wanted e = ground (arith, str_eq_iff (c ∷ cs) wanted)

write_doc-Saved :
    (h : Host) (item : WriteItem) (got : AuthDoc) (s0 s : Sys)
    → h.auth_get s0.trace item.auth_index ≡ ok got
    → s.engine ≡ s0.engine
    → saves s.trace ≡ saves s0.trace
    → Saved h item s0 (write_doc h item got s)
unfolding write_doc
write_doc-Saved h item got s0 s g e k =
    elim (Bool-cases
      (not (is_empty got.auth_index) && not (str_eq got.auth_index item.auth_index))) [
        | inl c ↦ rw c (failed-Saved h item _ s0 s k)
        | inr c ↦
            rw c (elim (Bool-cases (not (is_empty got.name) && not (str_eq got.name item.name))) [
              | inl d ↦ rw d (failed-Saved h item _ s0 s k)
              | inr d ↦
                  rw d
                    (elim (Result-cases
                      (extract_credentials h.decode_payload item.provider got.doc)) [
                        | inr (t, f) ↦ rw f (failed-Saved h item _ s0 s k)
                        | inl (cr, f) ↦ rw f (elim (Option-cases (root_object got.doc)) [
                          | inl n ↦ rw n (failed-Saved h item _ s0 s k)
                          | inr (doc, r) ↦ rw r (
                              write_fields-Saved h item _ got doc s0 s g r
                                (name-kept got.name item.name d) e k)
                        ])
                      ])
            ])
      ]

-- writeOne saves nothing, or makes one save: that of an item that is still current, under the item's
-- own name, and of the document just read with the planned priority in it and every other key kept.
pub write_one-Saved : (h : Host) (item : WriteItem) (s : Sys) → Saved h item s (write_one h item s)
unfolding write_one
write_one-Saved h item s = elim (Result-cases (h.auth_get s.trace item.auth_index)) [
  | inl (got, f) ↦
      rw (f, write_one)
        (write_doc-Saved h item got s (calling (get_auth item.auth_index) s) f refl (omega arith))
  | inr (t, f) ↦
      rw (f, write_one)
        (failed-Saved h item _ s (calling (get_auth item.auth_index) s) (omega arith))
]
