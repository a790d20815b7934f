-- ===== src/Tests/Packages.antt =====
-- A release for linux_amd64 of two short files.
use mathlib.Core.Option
use cpa_plugin_reset_priorit.Packaging.{ok}
use cpa_plugin_reset_priorit.Packaging.Names.{
  archive_name, parse_archive_name, library_basename, platform_of_parts, platform_string,
}
use cpa_plugin_reset_priorit.Packaging.Checksums.{
  Sums, sha256_pattern, format_checksums, parse_checksums, require_canonical_checksums,
}
use cpa_plugin_reset_priorit.Packaging.Archive.{Listed, validate_archive, write_deterministic_zip}
use cpa_plugin_reset_priorit.Packaging.Release.{
  Disk, verify_release_dir, verify_published_release_dir, verify_dir, verify_entries,
  verify_archive, allowed_platforms, check_required, compare_file, compare_sums, only_archives,
  all_listed,
}
use cpa_plugin_reset_priorit.Packaging.Build.{
  Inputs, Files, ReleaseArtifact, build_release_archive, prepare,
}
use cpa_plugin_reset_priorit.Packaging.Digests.{IsAssetName}
use cpa_plugin_reset_priorit.Packaging.Sorting.{Distinct}
use cpa_plugin_reset_priorit.Packaging.RoundTrip.{parse-format_checksums}
use cpa_plugin_reset_priorit.Packaging.Library.{license}
use cpa_plugin_reset_priorit.Packaging.Layout.{file, validate_archive_iff}
use cpa_plugin_reset_priorit.Packaging.Built.{IsHexDigest, disk_of, built_passes}
use cpa_plugin_reset_priorit.Packaging.Verified.{IsArchive}
use cpa_plugin_reset_priorit.Packaging.Published.{IsPublished, verify_published_lem}
use cpa_plugin_reset_priorit.Base.{
  split, trim_prefix, has_suffix, trim_suffix, has_separator, lookup, insert_key, member, Str,
  bytes, str_eq, to_lower, has_prefix, ◌≡◌, refl, ◌↔◌, ◌⊎◌, true, none, some, List, [], ◌∷◌, ◌++◌,
  arith,
}

abbrev upper : Str
upper = bytes "ABCDEF0123456789ABCDEF0123456789ABCDEF0123456789ABCDEF0123456789"

abbrev lower : Str
lower = bytes "abcdef0123456789abcdef0123456789abcdef0123456789abcdef0123456789"

abbrev sums : Sums
sums = (bytes "b.zip", upper) ∷ (bytes "a.zip", lower) ∷ []

sums-Distinct : Distinct sums
unfolding lookup str_eq
sums-Distinct = (refl, (refl, tt))

b-IsAssetName : IsAssetName (bytes "b.zip")
unfolding has_separator
b-IsAssetName = record { some_byte = refl; bare = refl; printable = omega arith }

a-IsAssetName : IsAssetName (bytes "a.zip")
unfolding has_separator
a-IsAssetName = record { some_byte = refl; bare = refl; printable = omega arith }

sums_formatted :
    format_checksums sums
    ≡ ok (lower ++ bytes "  a.zip" ++ 10 ∷ lower ++ bytes "  b.zip" ++ 10 ∷ [])
unfolding format_checksums
sums_formatted = refl

parse-format_checksums_example :
    (out : Sums) × (parse_checksums
        (lower ++ bytes "  a.zip" ++ 10 ∷ lower ++ bytes "  b.zip" ++ 10 ∷ [])
      ≡ ok out)
    × ((name : Str) → lookup name out ≡ Option.map to_lower (lookup name sums))
parse-format_checksums_example =
    parse-format_checksums sums sums-Distinct (b-IsAssetName, (a-IsAssetName, tt)) sums_formatted

abbrev id : Str
id = bytes "reset-priority"

abbrev version : Str
version = bytes "0.1.4"

abbrev asset : Str
asset = bytes "reset-priority_0.1.4_linux_amd64.zip"

abbrev layout : List Listed
layout = file (bytes "reset-priority.so") ∷ file license ∷ []

validate_archive_iff_example : (validate_archive layout id (bytes "linux") ≡ ok tt) ↔ (
    (lib : Str) × (library_basename id (bytes "linux") ≡ ok lib)
    × ((layout ≡ file lib ∷ file license ∷ []) ⊎ (layout ≡ file license ∷ file lib ∷ [])))
validate_archive_iff_example = validate_archive_iff layout id (bytes "linux")

abbrev disk : Disk
disk = record {
  entries = none;
  read_file = λ _. none;
  zip = record { render = λ _. some (bytes "PK"); open_zip = λ _. some layout };
  sha256_hex = λ _. lower;
}

disk-IsHexDigest : IsHexDigest disk
unfolding to_lower sha256_pattern
disk-IsHexDigest = record { pattern_met = λ s. refl; lower = λ s. refl }

abbrev inputs : Inputs
inputs = record {
  lib_body = some (bytes "ELF");
  license_body = some (bytes "MIT");
  mkdir_ok = true;
  can_write = λ _. true;
}

abbrev artifact : ReleaseArtifact
artifact = record { archive_name = asset; sha256 = lower; checksum_path = asset ++ bytes ".sha256" }

abbrev files : Files
files =
    (asset, bytes "PK") ∷ (asset ++ bytes ".sha256", lower ++ bytes "  " ++ asset ++ 10 ∷ []) ∷ []

release_built :
    build_release_archive disk inputs [] id version (bytes "linux") (bytes "amd64")
    ≡ (files, ok artifact)
unfolding build_release_archive prepare archive_name library_basename write_deterministic_zip
    validate_archive format_checksums
release_built = refl

asset-IsAssetName : IsAssetName asset
unfolding has_separator
asset-IsAssetName = record { some_byte = refl; bare = refl; printable = omega arith }

built_passes_example :
    verify_release_dir
      (disk_of disk files)
      id
      version
      (record { goos = bytes "linux"; goarch = bytes "amd64" } ∷ [])
    ≡ ok ((asset, lower) ∷ [])
built_passes_example =
    built_passes disk inputs id version (bytes "linux") (bytes "amd64") {files = files}
      {a = artifact} disk-IsHexDigest release_built asset-IsAssetName

-- The same archive as it is downloaded, with a combined checksums file.
abbrev downloaded : Disk
downloaded =
    disk_of disk
      ((asset, bytes "PK") ∷ (bytes "checksums.txt", lower ++ bytes "  " ++ asset ++ 10 ∷ []) ∷ [])

archive_published :
    verify_published_release_dir downloaded id version [] (bytes "checksums.txt")
    ≡ ok ((asset, lower) ∷ [])
unfolding verify_published_release_dir verify_dir verify_entries verify_archive allowed_platforms
    check_required compare_file compare_sums parse_archive_name platform_of_parts platform_string
    has_suffix trim_suffix trim_prefix has_prefix split member insert_key lookup validate_archive
    parse_checksums require_canonical_checksums format_checksums only_archives all_listed str_eq
archive_published = refl

asset_listed : lookup {V = Str} asset ((asset, lower) ∷ []) ≡ some lower
unfolding lookup str_eq
asset_listed = refl

verify_published_lem_example :
    IsPublished downloaded (bytes "checksums.txt") ((asset, lower) ∷ [])
    × IsArchive downloaded id version asset lower
verify_published_lem_example =
    verify_published_lem downloaded id version [] (bytes "checksums.txt") asset lower
      archive_published asset_listed
