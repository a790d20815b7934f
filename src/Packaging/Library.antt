-- ===== src/Packaging/Library.antt =====
-- The name of a release's library: bare, and not that of the license.
use cpa_plugin_reset_priorit.Packaging.Names.{
  library_basename, library_extension, validate_plugin_id, plugin_id_pattern, is_id_char, is_alnum,
  all_chars,
}
use cpa_plugin_reset_priorit.Packaging.{Result, ok, ◌>>=◌, >>=-eq-ok, guard-eq-ok}
use cpa_plugin_reset_priorit.Packaging.Archive.{is_bare}
use cpa_plugin_reset_priorit.Base.{
  ◌==◌, if◌then◌else◌, has_separator, Str, bytes, str_eq, is_empty, any, ℕ, ◌≡◌, refl, subst, ◌≢◌,
  Bool, true, false, [], ◌∷◌, ◌++◌, arith,
}

abbrev pub license : Str
license = bytes "LICENSE"

no_separator : (s : Str) → all_chars is_id_char s ≡ true → has_separator s ≡ false
unfolding has_separator is_id_char is_alnum
no_separator [] h = refl
no_separator (c ∷ s) h = let r = no_separator s (ground arith) in ground arith

has_separator-append :
    (s t : Str) → has_separator s ≡ false → has_separator t ≡ false → has_separator (s ++ t) ≡ false
unfolding has_separator
has_separator-append [] t h k = k
has_separator-append (c ∷ s) t h k = ground (arith, has_separator-append s t)

any-append : (p : ℕ → Bool) (s t : Str) → any p t ≡ true → any p (s ++ t) ≡ true
any-append p [] t h = h
any-append p (c ∷ s) t h = let r = any-append p s t h in ground arith

-- An extension: no separator, and a dot.
record IsExtension (ext : Str) : Type 0 where
  bare : has_separator ext ≡ false
  dotted : any (λ c. c == b'.') ext ≡ true
  some_byte : is_empty ext ≡ false

pick-ok :
    (b : Bool) (x : Str) (m : Result Str) {ext : Str}
    → IsExtension x
    → (m ≡ ok ext → IsExtension ext)
    → (if b then ok x else m) ≡ ok ext
    → IsExtension ext
pick-ok true x m e f h = subst IsExtension (ground arith) e
pick-ok false x m e f h = f h

library_extension-IsExtension :
    (goos : Str) {ext : Str} → library_extension goos ≡ ok ext → IsExtension ext
unfolding library_extension has_separator
library_extension-IsExtension goos h =
    pick-ok (str_eq goos (bytes "linux")) _ _
      (record { bare = refl; dotted = refl; some_byte = refl })
      (pick-ok (str_eq goos (bytes "darwin")) _ _
        (record { bare = refl; dotted = refl; some_byte = refl })
        (pick-ok (str_eq goos (bytes "windows")) _ _
          (record { bare = refl; dotted = refl; some_byte = refl }) (λ k. absurd (cc k))))
      h

-- The library's name: bare, and not that of the license.
pub record IsLibrary (lib : Str) : Type 0 where
  pub bare : is_bare lib ≡ true
  pub differ : lib ≢ license

id_bare : (id : Str) → plugin_id_pattern id ≡ true → has_separator id ≡ false
unfolding plugin_id_pattern has_separator is_alnum
id_bare [] h = cc
id_bare (c ∷ s) h = let r = no_separator s (ground arith) in ground arith

append_some : (s t : Str) → is_empty t ≡ false → is_empty (s ++ t) ≡ false
append_some [] t h = h
append_some (c ∷ s) t h = refl

dotted_differs : (s : Str) → any (λ c. c == b'.') s ≡ true → s ≢ license
dotted_differs s h e = let d = subst (λ x. any (λ c. c == b'.') x ≡ true) e h in cc

named-IsLibrary :
    (id : Str) (ext : Str) → plugin_id_pattern id ≡ true → IsExtension ext → IsLibrary (id ++ ext)
unfolding is_bare
named-IsLibrary id ext h e = record {
  bare = rw (append_some id ext e.some_byte, has_separator-append id ext (id_bare id h) e.bare);
  differ = dotted_differs _ (any-append _ id ext e.dotted);
}

pub library_basename-IsLibrary :
    (id goos : Str) {lib : Str} → library_basename id goos ≡ ok lib → IsLibrary lib
unfolding library_basename validate_plugin_id
library_basename-IsLibrary id goos h =
    let (u, p, r) =
      >>=-eq-ok (validate_plugin_id id) (λ _. library_extension goos >>= λ ext. ok (id ++ ext)) h in
    let (ext, q, e) = >>=-eq-ok (library_extension goos) (λ x. ok (id ++ x)) r in
    subst IsLibrary (ground arith)
      (named-IsLibrary id ext (guard-eq-ok _ _ p) (library_extension-IsExtension goos q))
