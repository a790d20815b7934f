-- ===== src/Engine/Touch.antt =====
-- What a pass of performWrites can change in the engine: the write-related fields of accounts that are
-- there, and nothing else.
use cpa_plugin_reset_priorit.Times.{Time}
use cpa_plugin_reset_priorit.Json.{Fields, get}
use cpa_plugin_reset_priorit.Host.{Host}
use cpa_plugin_reset_priorit.Engine.{Engine, Account, find, put_account}
use cpa_plugin_reset_priorit.Engine.Sys.{Sys, account_of}
use cpa_plugin_reset_priorit.Engine.Plan.{WriteItem, item_current}
use cpa_plugin_reset_priorit.Engine.Priority.{parse_priority_raw}
use cpa_plugin_reset_priorit.Engine.Write.{
  note_priority, update_current_priority, record_write_error, save_item, write_fields, holds,
  priority_key,
}
use cpa_plugin_reset_priorit.Json.{root_object}
use cpa_plugin_reset_priorit.Host.{AuthDoc}
use cpa_plugin_reset_priorit.Providers.{Result, ok, err, extract_credentials}
use cpa_plugin_reset_priorit.Engine.{is_quarantined}
use cpa_plugin_reset_priorit.Engine.Plan.{item_live}
use cpa_plugin_reset_priorit.Engine.Write.{write_doc, write_one, perform_item, perform_writes}
use cpa_plugin_reset_priorit.Engine.Write.{perform_found}
use cpa_plugin_reset_priorit.Base.{
  if◌then◌else◌, Bool-cases, Str, str_eq, is_empty, ℤ, ◌≡◌, refl, ◌⊎◌, inl, inr, Bool, true, false,
  not, ◌&&◌, Option, none, some, List, [], ◌∷◌,
}

-- `b` is `a` but for what is known of its physical priority.
pub data Touched (a b : Account) : Type 0 where
  touched :
      (priority : ℤ) (known ready : Bool) (written : Time) (error : Str)
      → b ≡ record a {
        current_priority = priority;
        current_known = known;
        recovery_sentinel_ready = ready;
        quarantine_sentinel_written_at = written;
        write_error = error;
      }
      → Touched a b

pub data Writes (e : Engine) : Engine → Type 0 where
  here : Writes e e
  touch :
      {e' : Engine} (idx : Str) {a b : Account}
      → Writes e e'
      → find idx e'.accounts ≡ some a
      → Touched a b
      → Writes e (put_account b e')

note_priority-Touched :
    (sentinel priority : ℤ) (saved : Bool) (now : Time) (a : Account)
    → Touched a (note_priority sentinel priority saved now a)
unfolding note_priority
note_priority-Touched sentinel priority saved now a = Touched.touched _ _ _ _ _ refl

pub Option-cases {ℓ} : {A : Type ℓ} (o : Option A) → (o ≡ none) ⊎ ((a : A) × (o ≡ some a))
Option-cases none = inl refl
Option-cases (some a) = inr (a, refl)

update_current_priority-Writes :
    (h : Host) (idx : Str) (priority : ℤ) (saved : Bool) (s : Sys) {e : Engine}
    → Writes e s.engine
    → Writes e (update_current_priority h idx priority saved s).engine
unfolding update_current_priority
update_current_priority-Writes h idx priority saved s w = elim (Option-cases (account_of idx s)) [
  | inl n ↦ rw (n, update_current_priority) w
  | inr (a, f) ↦
      rw (f, update_current_priority)
        (Writes.touch idx w f (note_priority-Touched _ priority saved _ a))
]

record_write_error-Writes :
    (idx text : Str) (s : Sys) {e : Engine}
    → Writes e s.engine
    → Writes e (record_write_error idx text s).engine
unfolding record_write_error
record_write_error-Writes idx text s w = elim (Option-cases (account_of idx s)) [
  | inl n ↦ rw (n, record_write_error) w
  | inr (a, f) ↦
      rw (f, record_write_error) (Writes.touch idx w f (Touched.touched _ _ _ _ text refl))
]

save_item-Writes :
    (h : Host) (item : WriteItem) (name : Str) (doc : Fields) (s : Sys) {e : Engine}
    → Writes e s.engine
    → Writes e (save_item h item name doc s).engine
unfolding save_item
save_item-Writes h item name doc s w = elim (Bool-cases (item_current s.engine item)) [
  | inl c ↦ rw c (elim (Option-cases (h.auth_save s.trace name doc)) [
    | inl n ↦ rw n (update_current_priority-Writes h item.auth_index item.desired true _ w)
    | inr (t, f) ↦ rw f (record_write_error-Writes item.auth_index _ _ w)
  ])
  | inr c ↦ rw c w
]

write_fields-Writes :
    (h : Host) (item : WriteItem) (name : Str) (doc : Fields) (s : Sys) {e : Engine}
    → Writes e s.engine
    → Writes e (write_fields h item name doc s).engine
unfolding write_fields
write_fields-Writes h item name doc s w =
    elim (Bool-cases
      (holds (parse_priority_raw h.float_to_int (get priority_key doc)) item.desired)) [
        | inl c ↦ rw c (update_current_priority-Writes h item.auth_index item.desired false s w)
        | inr c ↦ rw c (save_item-Writes h item name _ s w)
      ]

pub Result-cases {ℓ} :
    {A : Type ℓ} (r : Result A) → ((a : A) × (r ≡ ok a)) ⊎ ((t : Str) × (r ≡ err t))
Result-cases (ok a) = inl (a, refl)
Result-cases (err t) = inr (t, refl)

write_doc-Writes :
    (h : Host) (item : WriteItem) (got : AuthDoc) (s : Sys) {e : Engine}
    → Writes e s.engine
    → Writes e (write_doc h item got s).engine
unfolding write_doc
write_doc-Writes h item got s w =
    elim (Bool-cases
      (not (is_empty got.auth_index) && not (str_eq got.auth_index item.auth_index))) [
        | inl c ↦ rw c (record_write_error-Writes item.auth_index _ s w)
        | inr c ↦
            rw c (elim (Bool-cases (not (is_empty got.name) && not (str_eq got.name item.name))) [
              | inl d ↦ rw d (record_write_error-Writes item.auth_index _ s w)
              | inr d ↦
                  rw d
                    (elim (Result-cases
                      (extract_credentials h.decode_payload item.provider got.doc)) [
                        | inr (t, f) ↦ rw f (record_write_error-Writes item.auth_index _ s w)
                        | inl (cr, f) ↦ rw f (elim (Option-cases (root_object got.doc)) [
                          | inl n ↦ rw n (record_write_error-Writes item.auth_index _ s w)
                          | inr (doc, g) ↦ rw g (write_fields-Writes h item _ doc s w)
                        ])
                      ])
            ])
      ]

if-Writes :
    {e : Engine} (b : Bool) (s s' : Sys)
    → Writes e s.engine
    → Writes e s'.engine
    → Writes e (if b then s else s').engine
if-Writes true s s' p q = p
if-Writes false s s' p q = q

write_one-Writes :
    (h : Host) (item : WriteItem) (s : Sys) {e : Engine}
    → Writes e s.engine
    → Writes e (write_one h item s).engine
unfolding write_one
write_one-Writes h item s w = elim (Result-cases (h.auth_get s.trace item.auth_index)) [
  | inl (got, f) ↦ rw (f, write_one) (write_doc-Writes h item got _ w)
  | inr (t, f) ↦ rw (f, write_one) (record_write_error-Writes item.auth_index _ _ w)
]

perform_item-Writes :
    (h : Host) (item : WriteItem) (a : Account) (s : Sys) {e : Engine}
    → Writes e s.engine
    → Writes e (perform_item h item a s).engine
unfolding perform_item
perform_item-Writes h item a s w =
    let live = record item { name = a.name; disabled = a.disabled } in
    if-Writes (not (item_live s.engine item a)) _ _ w (
      if-Writes s.engine.cfg.dry_run _ _ w (
        if-Writes (a.disabled && not (is_quarantined item.health)) _ _ w
          (write_one-Writes h live s w)))

perform_found-Writes :
    (h : Host) (item : WriteItem) (o : Option Account) (s : Sys) {e : Engine}
    → Writes e s.engine
    → Writes e (perform_found h item o s).engine
unfolding perform_found
perform_found-Writes h item none s w = w
perform_found-Writes h item (some a) s w = perform_item-Writes h item a s w

-- A pass of performWrites is a sequence of such changes.
pub perform_writes-Writes :
    (h : Host) (plan : List WriteItem) (s : Sys) {e : Engine}
    → Writes e s.engine
    → Writes e (perform_writes h plan s).engine
unfolding perform_writes
perform_writes-Writes h [] s w = w
perform_writes-Writes h (item ∷ rest) s w =
    perform_writes-Writes h rest _ (perform_found-Writes h item (account_of item.auth_index s) s w)
