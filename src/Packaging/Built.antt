-- ===== src/Packaging/Built.antt =====
-- A release archive that was built passes the verification of its directory.
use cpa_plugin_reset_priorit.Packaging.Platforms.{parse-archive_name, archive_name-has_suffix}
use cpa_plugin_reset_priorit.Packaging.Digests.{IsAssetName}
use cpa_plugin_reset_priorit.Packaging.Sorting.{Distinct}
use cpa_plugin_reset_priorit.Packaging.RoundTrip.{parse-formatted, lowered}
use cpa_plugin_reset_priorit.Packaging.Passes.{directory-passes}
use cpa_plugin_reset_priorit.Packaging.{Fault, not_a_zip, ok, err, ◌>>=◌, require, Result-cases}
use cpa_plugin_reset_priorit.Packaging.Names.{archive_name}
use cpa_plugin_reset_priorit.Packaging.Checksums.{
  sha256_pattern, format_checksums, sort_entries, insert_entry,
}
use cpa_plugin_reset_priorit.Packaging.Archive.{Listed, validate_archive}
use cpa_plugin_reset_priorit.Packaging.Release.{Disk, sidecar_name, verify_release_dir}
use cpa_plugin_reset_priorit.Packaging.Build.{
  Files, Inputs, ReleaseArtifact, prepare, build_release_archive, write_file, write_release,
  write_sidecar,
}
use cpa_plugin_reset_priorit.Base.{
  lookup, insert_key, Str, bytes, str_eq, is_empty, to_lower, str_eq_refl, ◌≡◌, refl, sym, ap, ap₂,
  subst, ◌∙◌, inl, inr, true, false, Option, none, some, List, [], ◌∷◌, ◌++◌, map, arith,
}

-- The directory that holds some files.
abbrev pub disk_of : Disk → Files → Disk
disk_of d files = record d {
  entries = some (map (λ f. record { name = f.0; is_dir = false }) files);
  read_file = λ path. lookup path files;
}

-- SHA-256 in lower-case hexadecimal.
pub record IsHexDigest (d : Disk) : Type 0 where
  pub pattern_met : (s : Str) → sha256_pattern (d.sha256_hex s) ≡ true
  pub lower : (s : Str) → to_lower (d.sha256_hex s) ≡ d.sha256_hex s

record Prepared (d : Disk) (id version goos goarch name content : Str) : Type 0 where
  named : archive_name id version goos goarch ≡ ok name
  layout :
      (require (d.zip.open_zip content) (not_a_zip name) >>= λ l. validate_archive l id goos)
      ≡ ok tt

prepare-ok :
    (d : Disk) (i : Inputs) (id version goos goarch : Str) {name content : Str}
    → prepare d i id version goos goarch ≡ ok (name, content)
    → Prepared d id version goos goarch name content
unfolding prepare
prepare-ok d i id version goos goarch h = record { named = ground arith; layout = ground arith }

record Wrote (d : Disk) (files : Files) (a : ReleaseArtifact) (name content : Str) : Type 0 where
  text : Str
  formatted : format_checksums ((name, d.sha256_hex content) ∷ []) ≡ ok text
  stored : files ≡ (name, content) ∷ (sidecar_name name, text) ∷ []
  named : a.archive_name ≡ name
  digest : a.sha256 ≡ d.sha256_hex content

append_differs : (s t : Str) → is_empty t ≡ false → str_eq s (s ++ t) ≡ false
unfolding str_eq
append_differs [] [] h = cc
append_differs [] (c ∷ t) h = refl
append_differs (a ∷ s) t h = ground (arith, append_differs s t)

sidecar_differs : (name : Str) → str_eq name (sidecar_name name) ≡ false
unfolding sidecar_name
sidecar_differs name = append_differs name (bytes ".sha256") refl

write_release-ok :
    (d : Disk) (i : Inputs) (name content : Str) {files : Files} {a : ReleaseArtifact}
    → write_release d i [] (ok (name, content)) ≡ (files, ok a)
    → Wrote d files a name content
unfolding write_release write_sidecar write_file insert_key
write_release-ok d i name content h =
    elim (Result-cases (format_checksums ((name, d.sha256_hex content) ∷ []))) [
      | inl (text, e) ↦ record {
        text = text;
        formatted = e;
        stored = ground (arith, sidecar_differs name);
        named = ground arith;
        digest = ground arith;
      }
      | inr (x, e) ↦ absurd (ground arith)
    ]

failed_release :
    (d : Disk) (i : Inputs) (x : Fault) {files : Files} {a : ReleaseArtifact}
    → write_release d i [] (err x) ≡ (files, ok a)
    → ⊥
unfolding write_release
failed_release d i x h = cc

build-ok :
    (d : Disk) (i : Inputs) (id version goos goarch : Str) {files : Files} {a : ReleaseArtifact}
    → build_release_archive d i [] id version goos goarch ≡ (files, ok a)
    → (name : Str) × (content : Str) × (prepare d i id version goos goarch ≡ ok (name, content))
      × Wrote d files a name content
unfolding build_release_archive
build-ok d i id version goos goarch {files} {a} h =
    elim (Result-cases (prepare d i id version goos goarch)) [
      | inl ((name, content), e) ↦ (
        name,
        content,
        e,
        write_release-ok d i name content (ap (write_release d i []) (sym e) ∙ h),
      )
      | inr (x, e) ↦ absurd (failed_release d i x (ap (write_release d i []) (sym e) ∙ h))
    ]

sum-Distinct : (name sum : Str) → Distinct ((name, sum) ∷ [])
unfolding lookup
sum-Distinct name sum = (refl, tt)

sum_lowered :
    (name sum : Str)
    → to_lower sum ≡ sum
    → lowered (sort_entries ((name, sum) ∷ [])) ≡ (name, sum) ∷ []
unfolding sort_entries insert_entry
sum_lowered name sum e = rw e

stored_files :
    (name content text : Str)
    → (lookup name ((name, content) ∷ (sidecar_name name, text) ∷ []) ≡ some content)
      × (lookup (sidecar_name name) ((name, content) ∷ (sidecar_name name, text) ∷ []) ≡ some text)
unfolding lookup
stored_files name content text =
    (rw (str_eq_refl name), rw (sidecar_differs name, str_eq_refl (sidecar_name name)))

opened :
    (o : Option (List Listed)) (name id goos : Str)
    → (require o (not_a_zip name) >>= λ l. validate_archive l id goos) ≡ ok tt
    → (listed : List Listed) × (o ≡ some listed) × (validate_archive listed id goos ≡ ok tt)
opened none name id goos h = cc
opened (some l) name id goos h = (l, refl, h)

-- Suppose the digest function answers 64 lower-case hexadecimal digits. If BuildReleaseArchive succeeds in
-- an empty directory, and the archive's name is of printable ASCII without spaces and path
-- separators, then VerifyReleaseDir of what it has written, for the same id and version and with
-- that platform required, succeeds, and returns exactly the archive with its digest.
pub built_passes :
    (d : Disk) (i : Inputs) (id version goos goarch : Str) {files : Files} {a : ReleaseArtifact}
    → IsHexDigest d
    → build_release_archive d i [] id version goos goarch ≡ (files, ok a)
    → IsAssetName a.archive_name
    → verify_release_dir (disk_of d files) id version (record { goos = goos; goarch = goarch } ∷ [])
      ≡ ok ((a.archive_name, a.sha256) ∷ [])
built_passes d i id version goos goarch {files} {a} hex h asset =
    let (name, content, prepared, w) = build-ok d i id version goos goarch h in
    let q = prepare-ok d i id version goos goarch prepared in
    let (listed, o, l) = opened (d.zip.open_zip content) name id goos q.layout in
    let sum = d.sha256_hex content in
    let parsed =
      parse-formatted ((name, sum) ∷ []) (sum-Distinct name sum)
        (subst IsAssetName w.named asset, tt) w.formatted
      ∙ ap ok (sum_lowered name sum (hex.lower content)) in
    let r = stored_files name content w.text in
    directory-passes (disk_of d files) id version (record { goos = goos; goarch = goarch }) name
      content w.text listed (ap (lookup name) w.stored ∙ r.0)
      (ap (lookup (sidecar_name name)) w.stored ∙ r.1) parsed w.formatted
      (parse-archive_name id version goos goarch q.named) o l
      (archive_name-has_suffix id version goos goarch q.named)
      (ap (λ (fs : Files). (disk_of d fs).entries) w.stored)
    ∙ ap ok (ap₂ (λ (x y : Str). (x, y) ∷ []) (sym w.named) (sym w.digest))
