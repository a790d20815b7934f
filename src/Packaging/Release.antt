-- ===== src/Packaging/Release.antt =====
-- internal/packaging: building one release archive, and verifying a directory of them. The file system,
-- the ZIP format and SHA-256 are parameters. Paths are relative to the release directory.
use cpa_plugin_reset_priorit.Packaging.{
  unreadable, not_a_zip, repeated_platform, unexpected_archive, unexpected_platform,
  several_archives, sidecar_entries, no_entry, sum_mismatch, not_an_archive, no_archives,
  platform_missing, Result, ok, ◌>>=◌, ◌>>◌, guard, require,
}
use cpa_plugin_reset_priorit.Packaging.Names.{Platform, platform_string, parse_archive_name}
use cpa_plugin_reset_priorit.Packaging.Checksums.{
  Sums, parse_checksums, require_canonical_checksums,
}
use cpa_plugin_reset_priorit.Packaging.Archive.{Zip, validate_archive}
use cpa_plugin_reset_priorit.Base.{
  ltb, ◌==◌, if◌then◌else◌, has_suffix, lookup, insert_key, member, Str, bytes, str_eq, length,
  Bool, true, false, not, ◌&&◌, ◌||◌, Option, List, [], ◌∷◌, ◌++◌,
}

pub record DirEntry : Type 0 where
  pub name : Str
  pub is_dir : Bool

-- What a verification reads: a directory's entries, the contents of its files, and the digest of some
-- bytes in lower-case hexadecimal.
pub record Disk : Type 0 where
  pub entries : Option (List DirEntry)
  pub read_file : Str → Option Str
  pub zip : Zip
  pub sha256_hex : Str → Str

unfoldable pub sidecar_name : Str → Str
sidecar_name name = name ++ bytes ".sha256"

-- The set of the required platforms.
unfoldable pub allowed_platforms : List Str → List Platform → Result (List Str)
unfolding platform_string member
allowed_platforms allowed [] = ok allowed
allowed_platforms allowed (p ∷ ps) =
    let rest = allowed_platforms (platform_string p ∷ allowed) ps in
    guard (not (member (platform_string p) allowed)) (repeated_platform (platform_string p)) >> rest

-- The two loops that compare the digests with the checksums file.
unfoldable pub only_archives : Sums → Sums → Result (Unit {0})
unfolding lookup
only_archives sums [] = ok tt
only_archives sums ((name, _) ∷ listed) =
    let rest = only_archives sums listed in
    require (lookup name sums) (not_an_archive name) >>= λ _. rest

unfoldable pub all_listed : Sums → Sums → Result (Unit {0})
unfolding lookup str_eq
all_listed listed [] = ok tt
all_listed listed ((name, sum) ∷ sums) =
    let rest = all_listed listed sums in
    require (lookup name listed) (no_entry name) >>= λ (want : Str).
    guard (str_eq want sum) (sum_mismatch name) >> rest

-- The digests, compared with the entries of the checksums file.
unfoldable pub compare_sums : Sums → Str → Sums → Str → Result Sums
compare_sums sums raw listed checksums_path = do
  require_canonical_checksums raw listed checksums_path
  only_archives sums listed
  all_listed listed sums
  ok sums

module _ (d : Disk) where
  -- The sidecar of one archive.
  unfoldable pub verify_sidecar : Str → Str → Result (Unit {0})
  verify_sidecar name sum = do
    raw ← require (d.read_file (sidecar_name name)) (unreadable (sidecar_name name))
    sidecar ← parse_checksums raw
    guard (length sidecar == 1) (sidecar_entries (length sidecar))
    want ← require (lookup name sidecar) (no_entry name)
    require_canonical_checksums raw ((name, want) ∷ []) (sidecar_name name)
    guard (str_eq want sum) (sum_mismatch name)

  -- One archive: its platform and its digest.
  unfoldable pub verify_archive : Str → Str → List Str → List Str → Bool → Str → Result (Str × Str)
  verify_archive id version allowed found sidecars name = do
    p ← require (parse_archive_name name id version) (unexpected_archive name)
    let key = platform_string p
    guard (not (ltb 0 (length allowed) && not (member key allowed))) (unexpected_platform name)
    guard (not (member key found)) (several_archives key)
    raw ← require (d.read_file name) (unreadable name)
    listed ← require (d.zip.open_zip raw) (not_a_zip name)
    validate_archive listed id p.goos
    let sum = d.sha256_hex raw
    if sidecars then verify_sidecar name sum else ok tt
    ok (key, sum)

  -- The loop over the directory: the digests and the platforms found.
  unfoldable pub verify_entries :
      Str → Str → List Str → Bool → Sums → List Str → List DirEntry → Result (Sums × List Str)
  verify_entries id version allowed sidecars sums found [] = ok (sums, found)
  verify_entries id version allowed sidecars sums found (e ∷ es) =
      elim (e.is_dir || not (has_suffix e.name (bytes ".zip"))) [
        | true ↦ verify_entries id version allowed sidecars sums found es
        | false ↦ verify_archive id version allowed found sidecars e.name >>= λ (p : Str × Str).
            verify_entries id version allowed sidecars (insert_key e.name p.1 sums) (p.0 ∷ found) es
      ]

  unfoldable pub check_required : List Str → List Platform → Result (Unit {0})
  unfolding member platform_string
  check_required found [] = ok tt
  check_required found (p ∷ ps) =
      let rest = check_required found ps in
      guard (member (platform_string p) found) (platform_missing (platform_string p)) >> rest

  unfoldable pub verify_dir : Str → Str → List Platform → Bool → Result Sums
  verify_dir id version required sidecars = do
    allowed ← allowed_platforms [] required
    es ← require d.entries (unreadable [])
    r ← verify_entries id version allowed sidecars [] [] es
    guard (ltb 0 (length r.0)) no_archives
    check_required r.1 required
    ok r.0

  unfoldable pub verify_release_dir : Str → Str → List Platform → Result Sums
  verify_release_dir id version required = verify_dir id version required true

  unfoldable pub compare_file : Str → Sums → Result Sums
  compare_file checksums_path sums = do
    raw ← require (d.read_file checksums_path) (unreadable checksums_path)
    listed ← parse_checksums raw
    compare_sums sums raw listed checksums_path

  unfoldable pub verify_published_release_dir : Str → Str → List Platform → Str → Result Sums
  verify_published_release_dir id version required checksums_path = do
    sums ← verify_dir id version required false
    compare_file checksums_path sums
