-- ===== src/Packaging.antt =====
-- internal/packaging: the names, checksums files and archives of a release, and the store registry.
pub mod Names
pub mod Checksums
pub mod Archive
pub mod Registry
pub mod Release
pub mod Lines
pub mod Digests
pub mod Sorting
pub mod RoundTrip
pub mod Library
pub mod Layout
pub mod Platforms
pub mod Verified
pub mod Published
pub mod Build
pub mod Passes
pub mod Built
use cpa_plugin_reset_priorit.Base.{
  ltb, leb, ◌==◌, if◌then◌else◌, ltb→lt, lt→ltb, ==_iff, Bool-cases, cons_first, split_on, split,
  keep_words, fields, drop_prefix, trim_prefix, has_suffix, trim_suffix, has_separator, lookup,
  insert_key, member, Str, bytes, str_eq, str_lt, is_empty, to_lower, is_space, trim_left,
  trim_space, equal_fold, has_prefix, contains, length, length-append, countp, any, filter, In, All,
  Pairs, ℤ, pos_part, neg_part, sub_ℕ, ◌+ℤ◌, ◌-ℤ◌, ◌*ℤ◌, ltb_ℤ, leb_ℤ, eqb_ℤ, ◌≤ℤ◌, eqb_ℤ_iff,
  max_int, min_int, u64_mod, pos, negsuc, str_eq_refl, str_eq→eq, str_eq_iff, str_lt_irrefl,
  str_lt_trans, str_lt_asym, str_lt_total, ℕ, zero, suc, ◌+◌, ◌-◌, ◌*◌, ◌/◌, ◌%◌, ◌^◌, ◌≤◌, ◌<◌,
  min, ◌≡◌, refl, sym, ap, ap₂, subst, ◌∙◌, ◌≢◌, ◌↔◌, ◌⊎◌, inl, inr, Bool, true, false, not, ◌&&◌,
  ◌||◌, Option, none, some, List, [], ◌∷◌, ◌++◌, map, arith,
}

-- Each error of the package, with what its message names.
pub data Fault : Type 0 where
  bad_plugin_id : Str → Fault
  unsupported_goos : Str → Fault
  unsupported_platform : Str → Fault
  bad_version : Str → Fault
  goos_and_goarch_required : Fault
  -- the number of the line
  bad_line bad_digest bad_file_name : ℕ → Fault
  not_bare : Str → Fault
  bad_sum : Str → Fault
  not_regular unexpected_entry duplicate_entry missing_entry : Str → Fault
  bad_json : Fault
  bad_schema : ℤ → Fault
  no_plugins : Fault
  missing_text bad_repository git_suffix leading_v : ℕ → Fault
  no_files : Fault
  zip_failed : Fault
  unreadable unwritable : Str → Fault
  not_a_zip : Str → Fault
  bad_platform_item : Str → Fault
  no_platforms : Fault
  repeated_platform : Str → Fault
  unexpected_archive unexpected_platform several_archives : Str → Fault
  not_canonical : Str → Fault
  sidecar_entries : ℕ → Fault
  no_entry : Str → Fault
  sum_mismatch : Str → Fault
  not_an_archive : Str → Fault
  no_archives : Fault
  platform_missing : Str → Fault

-- The value of a step, or the fault at which the operation stops.
pub data Result {ℓ} (Value : Type ℓ) : Type ℓ where
  err : Fault → Result Value
  ok : Value → Result Value

infixl 5 ◌>>◌ ◌>>=◌
abbrev pub ◌>>=◌ {ℓ κ} : {V : Type ℓ} {W : Type κ} (step : Result V) → (V → Result W) → Result W
err fault >>= next = err fault
ok value >>= next = next value

abbrev pub ◌>>◌ {ℓ} : {W : Type ℓ} (check : Result (Unit {0})) (next : Result W) → Result W
check >> next = check >>= (λ passed. next)

-- A test with the fault that it stands for.
abbrev pub guard : (test : Bool) (fault : Fault) → Result (Unit {0})
guard false fault = err fault
guard true fault = ok tt

-- A reading of the environment that may fail.
abbrev pub require {ℓ} : {A : Type ℓ} → Option A → Fault → Result A
require none e = err e
require (some a) e = ok a

-- Both steps of a chain that succeeds.
pub >>=-eq-ok {ℓ κ} :
    {V : Type ℓ} {W : Type κ} (step : Result V) (next : V → Result W) {w : W}
    → (step >>= next) ≡ ok w
    → (v : V) × (step ≡ ok v) × (next v ≡ ok w)
>>=-eq-ok (err fault) next done = cc
>>=-eq-ok (ok v) next done = (v, refl, done)

pub guard-eq-ok : (b : Bool) (e : Fault) → guard b e ≡ ok tt → b ≡ true
guard-eq-ok true e h = refl
guard-eq-ok false e h = cc

pub guards-eq-ok {ℓ} :
    {A : Type ℓ} (a b c d : Bool) (e f g h : Fault) (r : Result A) {out : A}
    → (guard a e >> (guard b f >> (guard c g >> (guard d h >> r)))) ≡ ok out
    → (a ≡ true) × (b ≡ true) × (c ≡ true) × (d ≡ true) × (r ≡ ok out)
guards-eq-ok true true true true e f g h r k = (refl, refl, refl, refl, k)
guards-eq-ok true true true false e f g h r k = cc
guards-eq-ok true true false d e f g h r k = cc
guards-eq-ok true false c d e f g h r k = cc
guards-eq-ok false b c d e f g h r k = cc

pub Result-cases {ℓ} :
    {A : Type ℓ} (r : Result A) → ((a : A) × (r ≡ ok a)) ⊎ ((e : Fault) × (r ≡ err e))
Result-cases (ok a) = inl (a, refl)
Result-cases (err e) = inr (e, refl)

pub Option-cases {ℓ} : {A : Type ℓ} (o : Option A) → ((a : A) × (o ≡ some a)) ⊎ (o ≡ none)
Option-cases none = inr refl
Option-cases (some a) = inl (a, refl)
