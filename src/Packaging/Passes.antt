-- ===== src/Packaging/Passes.antt =====
-- One archive with its sidecar passes the verification of its directory.
use mathlib.Core.List.{reverse-append}
use cpa_plugin_reset_priorit.Packaging.{ok}
use cpa_plugin_reset_priorit.Packaging.Names.{Platform, platform_string, parse_archive_name}
use cpa_plugin_reset_priorit.Packaging.Checksums.{
  parse_checksums, format_checksums, require_canonical_checksums,
}
use cpa_plugin_reset_priorit.Packaging.Archive.{Listed, validate_archive}
use cpa_plugin_reset_priorit.Packaging.Release.{
  Disk, DirEntry, sidecar_name, verify_sidecar, verify_archive, verify_entries, verify_dir,
  verify_release_dir, allowed_platforms, check_required,
}
use cpa_plugin_reset_priorit.Base.{
  has_suffix, lookup, insert_key, member, Str, bytes, str_eq_refl, ◌≡◌, true, false, some, List, [],
  ◌∷◌,
}

-- The directory of one archive with its sidecar.
module _ (d : Disk) (id version : Str) (p : Platform) (name content text : Str)
    (listed : List Listed) (read : d.read_file name ≡ some content)
    (read_sidecar : d.read_file (sidecar_name name) ≡ some text)
    (parsed : parse_checksums text ≡ ok ((name, d.sha256_hex content) ∷ []))
    (formatted : format_checksums ((name, d.sha256_hex content) ∷ []) ≡ ok text)
    (named : parse_archive_name name id version ≡ some p)
    (opened : d.zip.open_zip content ≡ some listed)
    (layout : validate_archive listed id p.goos ≡ ok tt)
    (suffix : has_suffix name (bytes ".zip") ≡ true) where
  sidecar-passes : verify_sidecar d name (d.sha256_hex content) ≡ ok tt
  unfolding verify_sidecar lookup require_canonical_checksums
  sidecar-passes = rw (
    read_sidecar,
    parsed,
    str_eq_refl name,
    formatted,
    str_eq_refl text,
    str_eq_refl (d.sha256_hex content),
  )

  archive-passes :
      verify_archive d id version (platform_string p ∷ []) [] true name
      ≡ ok (platform_string p, d.sha256_hex content)
  unfolding verify_archive member
  archive-passes = rw (named, str_eq_refl (platform_string p), read, opened, layout, sidecar-passes)

  no_suffix : has_suffix (sidecar_name name) (bytes ".zip") ≡ false
  unfolding sidecar_name has_suffix
  no_suffix = rw (reverse-append name (bytes ".sha256"))

  abbrev both_files : List DirEntry
  both_files =
      record { name = name; is_dir = false }
      ∷ record { name = sidecar_name name; is_dir = false }
      ∷ []

  entries-pass :
      verify_entries d id version (platform_string p ∷ []) true [] [] both_files
      ≡ ok ((name, d.sha256_hex content) ∷ [], platform_string p ∷ [])
  unfolding verify_entries insert_key
  entries-pass = rw (suffix, archive-passes, no_suffix, verify_entries)

  required-passes : check_required d (platform_string p ∷ []) (p ∷ []) ≡ ok tt
  unfolding check_required member
  required-passes = rw (str_eq_refl (platform_string p))

  pub directory-passes :
      d.entries ≡ some both_files
      → verify_release_dir d id version (p ∷ []) ≡ ok ((name, d.sha256_hex content) ∷ [])
  unfolding verify_release_dir verify_dir allowed_platforms member
  directory-passes e = simp (e, entries-pass, required-passes)
