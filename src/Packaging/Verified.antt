-- ===== src/Packaging/Verified.antt =====
-- What a verified release directory holds.
use cpa_plugin_reset_priorit.Packaging.{
  ok, ◌>>=◌, require, >>=-eq-ok, Result-cases, Option-cases, not_a_zip,
}
use cpa_plugin_reset_priorit.Packaging.Names.{Platform, parse_archive_name}
use cpa_plugin_reset_priorit.Packaging.Checksums.{Sums}
use cpa_plugin_reset_priorit.Packaging.Archive.{validate_archive}
use cpa_plugin_reset_priorit.Packaging.Release.{
  Disk, DirEntry, verify_archive, verify_entries, verify_dir, allowed_platforms,
}
use cpa_plugin_reset_priorit.Base.{
  if◌then◌else◌, Bool-cases, has_suffix, lookup, insert_key, Str, bytes, str_eq, str_eq→eq,
  str_eq_iff, ◌≡◌, refl, sym, subst, ◌∙◌, inl, inr, Bool, true, false, not, ◌||◌, some, List, [],
  ◌∷◌, arith,
}

lookup-insert_key :
    (k j v : Str) (m : Sums)
    → lookup j (insert_key k v m) ≡ (if str_eq k j then some v else lookup j m)
unfolding lookup insert_key
lookup-insert_key k j v [] = refl
lookup-insert_key k j v ((i, w) ∷ m) =
    ground (arith, str_eq_iff k j, str_eq_iff i k, str_eq_iff i j, lookup-insert_key k j v m)

module _ (d : Disk) (id version : Str) where
  -- An archive whose layout is valid for its platform, with its digest.
  pub record IsArchive (name sum : Str) : Type 0 where
    pub platform : Platform
    pub named : parse_archive_name name id version ≡ some platform
    pub content : Str
    pub readable : d.read_file name ≡ some content
    pub layout :
        (require (d.zip.open_zip content) (not_a_zip name) >>= λ l.
        validate_archive l id platform.goos)
        ≡ ok tt
    pub digest : sum ≡ d.sha256_hex content

  verify_archive-IsArchive :
      (allowed found : List Str) (sidecars : Bool) (name : Str) {key sum : Str}
      → verify_archive d id version allowed found sidecars name ≡ ok (key, sum)
      → IsArchive name sum
  unfolding verify_archive
  verify_archive-IsArchive allowed found sidecars name h =
      elim (Option-cases (parse_archive_name name id version)) [
        | inr e ↦ absurd (ground arith)
        | inl (p, e) ↦ elim (Option-cases (d.read_file name)) [
          | inr f ↦ absurd (ground arith)
          | inl (raw, f) ↦ record {
            platform = p;
            named = e;
            content = raw;
            readable = f;
            layout = ground arith;
            digest = ground arith;
          }
        ]
      ]

  abbrev Verified : Sums → Type 0
  Verified sums = (name sum : Str) → lookup name sums ≡ some sum → IsArchive name sum

  insert_key-Verified :
      (sums : Sums) (name sum : Str)
      → IsArchive name sum
      → Verified sums
      → Verified (insert_key name sum sums)
  insert_key-Verified sums name sum a v other value h = elim (Bool-cases (str_eq name other)) [
    | inl same ↦
        subst (λ n. IsArchive n value) (str_eq→eq name other same)
          (subst (IsArchive name) (ground (arith, lookup-insert_key name other sum sums)) a)
    | inr differs ↦ v other value (ground (arith, lookup-insert_key name other sum sums))
  ]

  verify_entries-skip :
      (allowed : List Str) (sidecars : Bool) (sums : Sums) (found : List Str) (e : DirEntry)
      (es : List DirEntry)
      → (e.is_dir || not (has_suffix e.name (bytes ".zip"))) ≡ true
      → verify_entries d id version allowed sidecars sums found (e ∷ es)
        ≡ verify_entries d id version allowed sidecars sums found es
  unfolding verify_entries
  verify_entries-skip allowed sidecars sums found e es t = rw (t, verify_entries)

  verify_entries-take :
      (allowed : List Str) (sidecars : Bool) (sums : Sums) (found : List Str) (e : DirEntry)
      (es : List DirEntry)
      → (e.is_dir || not (has_suffix e.name (bytes ".zip"))) ≡ false
      → verify_entries d id version allowed sidecars sums found (e ∷ es) ≡ (
          verify_archive d id version allowed found sidecars e.name >>= λ (p : Str × Str).
          verify_entries d id version allowed sidecars
            (insert_key e.name p.1 sums)
            (p.0 ∷ found)
            es)
  unfolding verify_entries
  verify_entries-take allowed sidecars sums found e es t = rw (t, verify_entries)

  verify_entries-Verified :
      (allowed : List Str) (sidecars : Bool) (sums : Sums) (found : List Str) (es : List DirEntry)
      {sums' : Sums} {found' : List Str}
      → Verified sums
      → verify_entries d id version allowed sidecars sums found es ≡ ok (sums', found')
      → Verified sums'
  unfolding verify_entries
  verify_entries-Verified allowed sidecars sums found [] {sums'} v h =
      let e : sums ≡ sums' = ground arith in subst Verified e v
  verify_entries-Verified allowed sidecars sums found (e ∷ es) v h =
      elim (Bool-cases (e.is_dir || not (has_suffix e.name (bytes ".zip")))) [
        | inl skipped ↦
            verify_entries-Verified allowed sidecars sums found es v
              (sym (verify_entries-skip allowed sidecars sums found e es skipped) ∙ h)
        | inr taken ↦
            let ((key, sum), p, r) =
              >>=-eq-ok (verify_archive d id version allowed found sidecars e.name)
                (λ (p : Str × Str).
                  verify_entries d id version allowed sidecars (insert_key e.name p.1 sums)
                    (p.0 ∷ found) es)
                (sym (verify_entries-take allowed sidecars sums found e es taken) ∙ h) in
            verify_entries-Verified allowed sidecars (insert_key e.name sum sums) (key ∷ found) es
              (insert_key-Verified sums e.name sum
                (verify_archive-IsArchive allowed found sidecars e.name p) v)
              r
      ]

empty-Verified : (d : Disk) (id version : Str) → Verified d id version []
unfolding lookup
empty-Verified d id version name sum h = cc

pub verify_dir-Verified :
    (d : Disk) (id version : Str) (required : List Platform) (sidecars : Bool) {sums : Sums}
    → verify_dir d id version required sidecars ≡ ok sums
    → Verified d id version sums
unfolding verify_dir
verify_dir-Verified d id version required sidecars {sums} h =
    elim (Result-cases (allowed_platforms [] required)) [
      | inr (x, e) ↦ absurd (ground arith)
      | inl (allowed, e) ↦ elim (Option-cases d.entries) [
        | inr f ↦ absurd (ground arith)
        | inl (es, f) ↦
            elim (Result-cases (verify_entries d id version allowed sidecars [] [] es)) [
              | inr (x, g) ↦ absurd (ground arith)
              | inl ((got, found), g) ↦
                  let same : got ≡ sums = ground arith in
                  subst (Verified d id version) same (
                    verify_entries-Verified d id version allowed sidecars [] [] es
                      (empty-Verified d id version) g)
            ]
      ]
    ]
