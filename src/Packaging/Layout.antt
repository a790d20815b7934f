-- ===== src/Packaging/Layout.antt =====
-- The layout that `ValidateArchive` accepts.
use cpa_plugin_reset_priorit.Packaging.Library.{license, IsLibrary, library_basename-IsLibrary}
use cpa_plugin_reset_priorit.Packaging.Names.{library_basename}
use cpa_plugin_reset_priorit.Packaging.{
  Fault, Result, ok, ◌>>=◌, ◌>>◌, guard, >>=-eq-ok, guards-eq-ok, not_bare, not_regular,
  unexpected_entry, duplicate_entry, missing_entry,
}
use cpa_plugin_reset_priorit.Packaging.Archive.{Listed, is_bare, validate_entries, validate_archive}
use cpa_plugin_reset_priorit.Base.{
  has_separator, member, Str, str_eq, str_eq_refl, str_eq→eq, str_eq_iff, ◌≡◌, refl, sym, ap, ap₂,
  subst, ◌∙◌, ◌≢◌, ◌↔◌, ◌⊎◌, inl, inr, Bool, true, false, not, ◌||◌, List, [], ◌∷◌, arith,
}

-- A regular file at the root.
abbrev pub file : Str → Listed
file name = record { name = name; regular = true }

module _ (lib : Str) (differ : lib ≢ license) where
  -- What one entry's checks say.
  record Checked (seen : List Str) (f : Listed) : Type 0 where
    bare : is_bare f.name ≡ true
    regular : f.regular ≡ true
    known : (f.name ≡ lib) ⊎ (f.name ≡ license)
    new : member f.name seen ≡ false

  known_of :
      (a : Str) (x y : Bool)
      → (x ≡ true → a ≡ lib)
      → (y ≡ true → a ≡ license)
      → (x || y) ≡ true
      → (a ≡ lib) ⊎ (a ≡ license)
  known_of a true y f g h = inl (f refl)
  known_of a false true f g h = inr (g refl)
  known_of a false false f g h = cc

  validate_entries-cons :
      (seen : List Str) (f : Listed) (fs : List Listed) {out : List Str}
      → validate_entries lib seen (f ∷ fs) ≡ ok out
      → Checked seen f × (validate_entries lib (f.name ∷ seen) fs ≡ ok out)
  unfolding validate_entries
  validate_entries-cons seen f fs h =
      let (b, r, k, n, rest) =
        guards-eq-ok (is_bare f.name) f.regular (str_eq f.name lib || str_eq f.name license)
          (not (member f.name seen)) (not_bare f.name) (not_regular f.name)
          (unexpected_entry f.name) (duplicate_entry f.name)
          (validate_entries lib (f.name ∷ seen) fs) h in
      (
        record {
          bare = b;
          regular = r;
          known =
              known_of f.name (str_eq f.name lib) (str_eq f.name license) (str_eq→eq f.name lib)
                (str_eq→eq f.name license) k;
          new = ground arith;
        },
        rest,
      )

  third :
      (a b c : Str)
      → (a ≡ lib) ⊎ (a ≡ license)
      → (b ≡ lib) ⊎ (b ≡ license)
      → (c ≡ lib) ⊎ (c ≡ license)
      → member b (a ∷ []) ≡ false
      → member c (b ∷ a ∷ []) ≡ false
      → ⊥
  unfolding member
  third a b c ha hb hc new newer = ground (arith, str_eq_iff a b, str_eq_iff b c, str_eq_iff a c)

  both :
      (a b : Str)
      → (a ≡ lib) ⊎ (a ≡ license)
      → (b ≡ lib) ⊎ (b ≡ license)
      → member b (a ∷ []) ≡ false
      → ((a ≡ lib) × (b ≡ license)) ⊎ ((a ≡ license) × (b ≡ lib))
  unfolding member
  both a b ha hb new = ground (arith, str_eq_iff a b)

  lone : (a : Str) → member lib (a ∷ []) ≡ true → member license (a ∷ []) ≡ true → ⊥
  unfolding member
  lone a h k = ground (arith, str_eq_iff a lib, str_eq_iff a license)

  Checked-eq : {seen : List Str} (f : Listed) → Checked seen f → f ≡ file f.name
  Checked-eq f c = let r = c.regular in ground arith

  seen_all : (seen : List Str) {out : List Str} → validate_entries lib seen [] ≡ ok out → out ≡ seen
  unfolding validate_entries
  seen_all seen h = ground arith

  entries-layout :
      (fs : List Listed) {out : List Str}
      → validate_entries lib [] fs ≡ ok out
      → member lib out ≡ true
      → member license out ≡ true
      → (fs ≡ file lib ∷ file license ∷ []) ⊎ (fs ≡ file license ∷ file lib ∷ [])
  unfolding member
  entries-layout [] h l k = let e = seen_all [] h in ground arith
  entries-layout (a ∷ []) h l k =
      let (ca, ha) = validate_entries-cons [] a [] h in
      let e = seen_all (a.name ∷ []) ha in
      absurd (
        lone a.name (subst (λ o. member lib o ≡ true) e l)
          (subst (λ o. member license o ≡ true) e k))
  entries-layout (a ∷ b ∷ []) h l k =
      let (ca, ha) = validate_entries-cons [] a (b ∷ []) h in
      let (cb, hb) = validate_entries-cons (a.name ∷ []) b [] ha in
      elim (both a.name b.name ca.known cb.known cb.new) [
        | inl (x, y) ↦
            inl
              (ap₂ (λ p q. p ∷ q ∷ []) (Checked-eq a ca ∙ ap file x) (Checked-eq b cb ∙ ap file y))
        | inr (x, y) ↦
            inr
              (ap₂ (λ p q. p ∷ q ∷ []) (Checked-eq a ca ∙ ap file x) (Checked-eq b cb ∙ ap file y))
      ]
  entries-layout (a ∷ b ∷ c ∷ fs) h l k =
      let (ca, ha) = validate_entries-cons [] a (b ∷ c ∷ fs) h in
      let (cb, hb) = validate_entries-cons (a.name ∷ []) b (c ∷ fs) ha in
      let (cc', hc) = validate_entries-cons (b.name ∷ a.name ∷ []) c fs hb in
      absurd (third a.name b.name c.name ca.known cb.known cc'.known cb.new cc'.new)

str_ne : (s t : Str) → s ≢ t → str_eq s t ≡ false
str_ne s t h = ground (arith, str_eq_iff s t)

license_bare : is_bare license ≡ true
unfolding is_bare has_separator
license_bare = refl

entries-of-layout :
    (lib : Str)
    → IsLibrary lib
    → (validate_entries lib [] (file lib ∷ file license ∷ []) ≡ ok (license ∷ lib ∷ []))
      × (validate_entries lib [] (file license ∷ file lib ∷ []) ≡ ok (lib ∷ license ∷ []))
unfolding validate_entries member
entries-of-layout lib l =
    let other = str_ne license lib (λ e. l.differ (sym e)) in
    (
      rw (l.bare, str_eq_refl lib, license_bare, other, str_ne lib license l.differ),
      rw (l.bare, str_eq_refl lib, license_bare, other),
    )

abbrev final : Str → List Str → Result (Unit {0})
final lib seen =
    guard (member lib seen) (missing_entry lib)
    >> guard (member license seen) (missing_entry license)

final-ok :
    (lib : Str)
    → (final lib (license ∷ lib ∷ []) ≡ ok tt) × (final lib (lib ∷ license ∷ []) ≡ ok tt)
unfolding member
final-ok lib = ground (arith, str_eq_refl lib, str_eq_refl license)

final-member :
    (a b : Bool) (e f : Fault) → (guard a e >> guard b f) ≡ ok tt → (a ≡ true) × (b ≡ true)
final-member true true e f h = (refl, refl)
final-member true false e f h = cc
final-member false b e f h = cc

accepted-layout :
    (fs : List Listed) (id goos : Str)
    → validate_archive fs id goos ≡ ok tt
    → (lib : Str) × (library_basename id goos ≡ ok lib)
      × ((fs ≡ file lib ∷ file license ∷ []) ⊎ (fs ≡ file license ∷ file lib ∷ []))
unfolding validate_archive
accepted-layout fs id goos h =
    let (lib, p, r) =
      >>=-eq-ok (library_basename id goos) (λ lib. validate_entries lib [] fs >>= final lib) h in
    let (seen, q, f) = >>=-eq-ok (validate_entries lib [] fs) (final lib) r in
    let (a, b) = final-member (member lib seen) (member license seen) _ _ f in
    (lib, p, entries-layout lib (library_basename-IsLibrary id goos p).differ fs q a b)

layout-accepted :
    (fs : List Listed) (id goos lib : Str)
    → library_basename id goos ≡ ok lib
    → ((fs ≡ file lib ∷ file license ∷ []) ⊎ (fs ≡ file license ∷ file lib ∷ []))
    → validate_archive fs id goos ≡ ok tt
unfolding validate_archive
layout-accepted fs id goos lib p (inl e) =
    rw (p, e) (rw (entries-of-layout lib (library_basename-IsLibrary id goos p)).0 (final-ok lib).0)
layout-accepted fs id goos lib p (inr e) =
    rw (p, e) (rw (entries-of-layout lib (library_basename-IsLibrary id goos p)).1 (final-ok lib).1)

-- ValidateArchive accepts what a reader lists of an archive exactly when it has a library name for the
-- id and the operating system, and the list is that library and LICENSE, in either order, both
-- regular files, and nothing else.
pub validate_archive_iff :
    (fs : List Listed) (id goos : Str)
    → (validate_archive fs id goos ≡ ok tt) ↔ (
        (lib : Str) × (library_basename id goos ≡ ok lib)
        × ((fs ≡ file lib ∷ file license ∷ []) ⊎ (fs ≡ file license ∷ file lib ∷ [])))
validate_archive_iff fs id goos =
    (accepted-layout fs id goos, λ (lib, p, e). layout-accepted fs id goos lib p e)
