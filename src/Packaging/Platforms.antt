-- ===== src/Packaging/Platforms.antt =====
-- `parseArchiveName` reads what `ArchiveName` writes.
use mathlib.Core.List.{reverse, reverse-append, reverse-reverse, append_assoc}
use cpa_plugin_reset_priorit.Packaging.{
  Fault, bad_version, goos_and_goarch_required, Result, ok, err, guard-eq-ok, ◌>>◌, guard,
}
use cpa_plugin_reset_priorit.Packaging.Names.{
  archive_name, parse_archive_name, platform_of_parts, release_names, validate_release_platform,
  validate_plugin_id, leads_with_v,
}
use cpa_plugin_reset_priorit.Packaging.Lines.{Uncut, split_on-whole, split_on-append}
use cpa_plugin_reset_priorit.Base.{
  ◌==◌, Bool-cases, split, drop_prefix, trim_prefix, has_suffix, trim_suffix, member, Str, bytes,
  str_eq, is_empty, has_prefix, any, All, str_eq→eq, ◌≡◌, refl, ap, subst, ◌∙◌, inl, inr, Bool,
  true, false, not, ◌||◌, some, List, [], ◌∷◌, ◌++◌, arith,
}

pub has_prefix-append : (p s : Str) → has_prefix (p ++ s) p ≡ true
unfolding has_prefix
has_prefix-append [] [] = refl
has_prefix-append [] (c ∷ s) = refl
has_prefix-append (c ∷ p) s = ground (arith, has_prefix-append p s)

drop_prefix-append : (p s : Str) → drop_prefix (p ++ s) p ≡ s
unfolding drop_prefix
drop_prefix-append [] [] = refl
drop_prefix-append [] (c ∷ s) = refl
drop_prefix-append (c ∷ p) s = drop_prefix-append p s

pub trim_prefix-append : (p s : Str) → trim_prefix (p ++ s) p ≡ s
unfolding trim_prefix
trim_prefix-append p s = rw (has_prefix-append p s) (drop_prefix-append p s)

pub has_suffix-append : (s t : Str) → has_suffix (s ++ t) t ≡ true
unfolding has_suffix
has_suffix-append s t = rw (reverse-append s t) (has_prefix-append (reverse t) (reverse s))

pub trim_suffix-append : (s t : Str) → trim_suffix (s ++ t) t ≡ s
unfolding trim_suffix
trim_suffix-append s t =
    rw (reverse-append s t) (rw (trim_prefix-append (reverse t) (reverse s)) (reverse-reverse s))

abbrev NoUnderscore : Str → Type 0
NoUnderscore = Uncut (λ c. c == b'_')

Uncut-of-append : (s t : Str) → NoUnderscore (s ++ t) → NoUnderscore s × NoUnderscore t
Uncut-of-append [] t h = (tt, h)
Uncut-of-append (c ∷ s) t h = let r = Uncut-of-append s t h.1 in ((h.0, r.0), r.1)

member-All :
    (P : Str → Type 0) (name : Str) (names : List Str)
    → All P names
    → member name names ≡ true
    → P name
unfolding member
member-All P name [] h m = cc
member-All P name (x ∷ xs) h m = elim (Bool-cases (str_eq x name)) [
  | inl e ↦ subst P (str_eq→eq x name e) h.0
  | inr e ↦ member-All P name xs h.1 (ground arith)
]

any-Uncut : (s : Str) → any (λ c. c == b'_') s ≡ false → NoUnderscore s
any-Uncut [] h = tt
any-Uncut (c ∷ s) h = (ground arith, any-Uncut s (ground arith))

release_names_plain : All (λ name. any (λ c. c == b'_') name ≡ false) release_names
release_names_plain = (refl, (refl, (refl, (refl, (refl, tt)))))

platform-NoUnderscore :
    (goos goarch : Str)
    → validate_release_platform goos goarch ≡ ok tt
    → NoUnderscore goos × NoUnderscore goarch
unfolding validate_release_platform
platform-NoUnderscore goos goarch h =
    let r = Uncut-of-append goos (b'/' ∷ goarch) (
      any-Uncut _ (
        member-All (λ x. any (λ c. c == b'_') x ≡ false) (goos ++ b'/' ∷ goarch) release_names
          release_names_plain (guard-eq-ok _ _ h))) in
    (r.0, r.1.1)

-- The parts of a name that `ArchiveName` makes.
record Named (id version goos goarch name : Str) : Type 0 where
  pub goos_given : is_empty goos ≡ false
  pub goarch_given : is_empty goarch ≡ false
  pub released : validate_release_platform goos goarch ≡ ok tt
  pub spelled :
      name ≡ id ++ (b'_' ∷ (version ++ (b'_' ∷ (goos ++ (b'_' ∷ (goarch ++ bytes ".zip"))))))

chain :
    (a d : Result (Unit {0})) (b c : Bool) (e f : Fault) (t : Str) {name : Str}
    → (a >> (guard b e >> (guard c f >> (d >> ok t)))) ≡ ok name
    → (c ≡ true) × (d ≡ ok tt) × (name ≡ t)
chain (ok _) (ok _) true true e f t h = (refl, refl, ground arith)
chain (ok _) (ok _) true false e f t h = cc
chain (ok _) (ok _) false c e f t h = cc
chain (ok _) (err x) true true e f t h = cc
chain (ok _) (err x) true false e f t h = cc
chain (ok _) (err x) false c e f t h = cc
chain (err x) d b c e f t h = cc

given_first : (b c : Bool) → not (b || c) ≡ true → b ≡ false
given_first b c h = ground arith

given_second : (b c : Bool) → not (b || c) ≡ true → c ≡ false
given_second b c h = ground arith

archive_name-ok :
    (id version goos goarch : Str) {name : Str}
    → archive_name id version goos goarch ≡ ok name
    → Named id version goos goarch name
unfolding archive_name
archive_name-ok id version goos goarch h =
    let c =
      chain (validate_plugin_id id) (validate_release_platform goos goarch)
        (not (is_empty version || leads_with_v version)) (not (is_empty goos || is_empty goarch))
        (bad_version version) goos_and_goarch_required _ h in
    record {
      goos_given = given_first (is_empty goos) (is_empty goarch) c.0;
      goarch_given = given_second (is_empty goos) (is_empty goarch) c.0;
      released = c.1;
      spelled = c.2;
    }

parts :
    (goos goarch : Str)
    → NoUnderscore goos
    → NoUnderscore goarch
    → split b'_' (goos ++ b'_' ∷ goarch) ≡ goos ∷ goarch ∷ []
unfolding split
parts goos goarch h k =
    split_on-append _ goos b'_' goarch h refl ∙ ap (λ x. goos ∷ x) (split_on-whole _ goarch k)

suffixed : (r s t : Str) → has_suffix (r ++ (s ++ t)) t ≡ true
suffixed r s t =
    subst (λ x. has_suffix x t ≡ true) (append_assoc r s t) (has_suffix-append (r ++ s) t)

regroup :
    (id version goos goarch : Str)
    → id ++ (b'_' ∷ (version ++ (b'_' ∷ (goos ++ (b'_' ∷ (goarch ++ bytes ".zip"))))))
      ≡ (id ++ (b'_' ∷ (version ++ b'_' ∷ []))) ++ ((goos ++ b'_' ∷ goarch) ++ bytes ".zip")
regroup id version goos goarch = simp append_assoc

pub archive_name-has_suffix :
    (id version goos goarch : Str) {name : Str}
    → archive_name id version goos goarch ≡ ok name
    → has_suffix name (bytes ".zip") ≡ true
archive_name-has_suffix id version goos goarch h =
    rw ((archive_name-ok id version goos goarch h).spelled ∙ regroup id version goos goarch)
      (suffixed (id ++ (b'_' ∷ (version ++ b'_' ∷ []))) (goos ++ b'_' ∷ goarch) (bytes ".zip"))

-- Whatever name ArchiveName makes of an id, a version and a platform, parseArchiveName for that id and
-- version recognises it and recovers exactly the platform.
pub parse-archive_name :
    (id version goos goarch : Str) {name : Str}
    → archive_name id version goos goarch ≡ ok name
    → parse_archive_name name id version ≡ some (record { goos = goos; goarch = goarch })
unfolding parse_archive_name platform_of_parts
parse-archive_name id version goos goarch h =
    let n = archive_name-ok id version goos goarch h in
    let plain = platform-NoUnderscore goos goarch n.released in
    let whole = n.spelled ∙ regroup id version goos goarch in
    let prefix = id ++ (b'_' ∷ (version ++ b'_' ∷ [])) in
    let rest = goos ++ b'_' ∷ goarch in
    rw whole (
      rw (has_prefix-append prefix (rest ++ bytes ".zip")) (
        rw (suffixed prefix rest (bytes ".zip")) (
          rw (trim_prefix-append prefix (rest ++ bytes ".zip")) (
            rw (trim_suffix-append rest (bytes ".zip")) (
              rw (parts goos goarch plain.0 plain.1, platform_of_parts)
                (rw (n.goos_given, n.goarch_given)))))))
