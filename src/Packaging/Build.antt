-- ===== src/Packaging/Build.antt =====
-- internal/packaging: building one release archive and writing a checksums file. The files written so far
-- are state, which an error later on leaves as it is. Paths are relative to the release directory.
use cpa_plugin_reset_priorit.Packaging.{
  unreadable, unwritable, not_a_zip, Result, ok, err, ◌>>=◌, ◌>>◌, guard, require,
}
use cpa_plugin_reset_priorit.Packaging.Names.{archive_name, library_basename}
use cpa_plugin_reset_priorit.Packaging.Checksums.{Sums, parse_checksums, format_checksums}
use cpa_plugin_reset_priorit.Packaging.Archive.{write_deterministic_zip, validate_archive}
use cpa_plugin_reset_priorit.Packaging.Release.{Disk, sidecar_name}
use cpa_plugin_reset_priorit.Base.{
  if◌then◌else◌, insert_key, Str, bytes, Bool, Option, List, [], ◌∷◌,
}

abbrev pub Files : Type 0
Files = List (Str × Str)

pub record ReleaseArtifact : Type 0 where
  pub archive_name : Str
  pub sha256 : Str
  pub checksum_path : Str

-- What a build is given: the two files that it packs, if they can be read, whether the directory can be
-- made and whether a path can be written.
pub record Inputs : Type 0 where
  pub lib_body : Option Str
  pub license_body : Option Str
  pub mkdir_ok : Bool
  pub can_write : Str → Bool

-- The archive's name and bytes, checked against the layout before anything is written.
unfoldable pub prepare : Disk → Inputs → Str → Str → Str → Str → Result (Str × Str)
prepare d i id version goos goarch = do
  name ← archive_name id version goos goarch
  lib ← library_basename id goos
  lib_body ← require i.lib_body (unreadable lib)
  license_body ← require i.license_body (unreadable (bytes "LICENSE"))
  content ← write_deterministic_zip d.zip (
      record { name = lib; mode = 493; body = lib_body }
      ∷ record { name = bytes "LICENSE"; mode = 420; body = license_body }
      ∷ [])
  listed ← require (d.zip.open_zip content) (not_a_zip name)
  validate_archive listed id goos
  guard i.mkdir_ok (unwritable [])
  ok (name, content)

-- `os.WriteFile`.
unfoldable pub write_file : Inputs → Files → Str → Str → Files × Result (Unit {0})
unfolding insert_key
write_file i files path content =
    if i.can_write path
    then (insert_key path content files, ok tt)
    else (files, err (unwritable path))

unfoldable pub write_sidecar :
    Inputs → Files → Str → Str → Result Str → Files × Result ReleaseArtifact
unfolding write_file sidecar_name
write_sidecar i files name sum (err e) = (files, err e)
write_sidecar i files name sum (ok sidecar) =
    let (files', written) = write_file i files (sidecar_name name) sidecar in
    (
      files',
      written
          >> ok (record { archive_name = name; sha256 = sum; checksum_path = sidecar_name name }),
    )

unfoldable pub write_release :
    Disk → Inputs → Files → Result (Str × Str) → Files × Result ReleaseArtifact
unfolding write_file write_sidecar
write_release d i files (err e) = (files, err e)
write_release d i files (ok (name, content)) =
    let (files', written) = write_file i files name content in
    let sum = d.sha256_hex content in
    elim written [
      | err e ↦ (files', err e)
      | ok _ ↦ write_sidecar i files' name sum (format_checksums ((name, sum) ∷ []))
    ]

unfoldable pub build_release_archive :
    Disk → Inputs → Files → Str → Str → Str → Str → Files × Result ReleaseArtifact
unfolding write_release
build_release_archive d i files id version goos goarch =
    write_release d i files (prepare d i id version goos goarch)

write_text : Inputs → Files → Str → Result Str → Files × Result (Unit {0})
unfolding write_file
write_text i files path (err e) = (files, err e)
write_text i files path (ok text) = write_file i files path text

unfoldable pub write_checksums_file : Inputs → Files → Str → Sums → Files × Result (Unit {0})
unfolding write_text format_checksums parse_checksums
write_checksums_file i files path sums =
    write_text i files path (do text ← format_checksums sums; out ← parse_checksums text; ok text)
