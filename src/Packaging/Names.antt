-- ===== src/Packaging/Names.antt =====
-- internal/packaging: the naming rules. The regular expressions are written out as tests.
use cpa_plugin_reset_priorit.Packaging.{
  bad_plugin_id, unsupported_goos, unsupported_platform, bad_version, goos_and_goarch_required,
  bad_platform_item, no_platforms, Result, ok, err, ◌>>=◌, ◌>>◌, guard,
}
use cpa_plugin_reset_priorit.Base.{
  ltb, leb, ◌==◌, if◌then◌else◌, split, trim_prefix, has_suffix, trim_suffix, member, Str, bytes,
  str_eq, is_empty, trim_space, has_prefix, length, ℕ, Bool, true, false, not, ◌&&◌, ◌||◌, Option,
  none, some, List, [], ◌∷◌, ◌++◌,
}

unfoldable pub is_alnum : ℕ → Bool
is_alnum c = (leb b'A' c && leb c b'Z') || (leb b'a' c && leb c b'z') || (leb b'0' c && leb c b'9')

unfoldable pub is_id_char : ℕ → Bool
unfolding is_alnum
is_id_char c = is_alnum c || c == b'.' || c == b'_' || c == b'-'

abbrev pub all_chars : (ℕ → Bool) → Str → Bool
all_chars p [] = true
all_chars p (c ∷ s) = p c && all_chars p s

-- `pluginIDPattern`: ^[A-Za-z0-9][A-Za-z0-9._-]{0,127}$
unfoldable pub plugin_id_pattern : Str → Bool
unfolding is_alnum is_id_char
plugin_id_pattern [] = false
plugin_id_pattern (c ∷ s) = is_alnum c && leb (length s) 127 && all_chars is_id_char s

unfoldable pub validate_plugin_id : Str → Result (Unit {0})
unfolding plugin_id_pattern
validate_plugin_id id = guard (plugin_id_pattern id) (bad_plugin_id id)

unfoldable pub library_extension : Str → Result Str
unfolding str_eq
library_extension goos =
    if str_eq goos (bytes "linux")
    then ok (bytes ".so")
    else if str_eq goos (bytes "darwin")
    then ok (bytes ".dylib")
    else if str_eq goos (bytes "windows")
    then ok (bytes ".dll")
    else err (unsupported_goos goos)

unfoldable pub library_basename : Str → Str → Result Str
unfolding validate_plugin_id library_extension
library_basename id goos = do validate_plugin_id id; ext ← library_extension goos; ok (id ++ ext)

abbrev pub release_names : List Str
release_names =
    bytes "linux/amd64"
    ∷ bytes "linux/arm64"
    ∷ bytes "darwin/amd64"
    ∷ bytes "darwin/arm64"
    ∷ bytes "windows/amd64"
    ∷ []

unfoldable pub validate_release_platform : Str → Str → Result (Unit {0})
unfolding member str_eq
validate_release_platform goos goarch =
    let name = goos ++ b'/' ∷ goarch in
    guard (member name release_names) (unsupported_platform name)

unfoldable pub leads_with_v : Str → Bool
unfolding has_prefix
leads_with_v version = has_prefix version (bytes "v") || has_prefix version (bytes "V")

unfoldable pub archive_name : Str → Str → Str → Str → Result Str
unfolding validate_plugin_id validate_release_platform leads_with_v
archive_name id version goos goarch = do
  validate_plugin_id id
  guard (not (is_empty version || leads_with_v version)) (bad_version version)
  guard (not (is_empty goos || is_empty goarch)) goos_and_goarch_required
  validate_release_platform goos goarch
  ok (id ++ (b'_' ∷ (version ++ (b'_' ∷ (goos ++ (b'_' ∷ (goarch ++ bytes ".zip")))))))

pub record Platform : Type 0 where
  pub goos : Str
  pub goarch : Str

unfoldable pub platform_string : Platform → Str
platform_string p = p.goos ++ b'_' ∷ p.goarch

abbrev platform : Str → Str → Platform
platform goos goarch = record { goos = goos; goarch = goarch }

abbrev pub release_platforms : List Platform
release_platforms =
    platform (bytes "linux") (bytes "amd64")
    ∷ platform (bytes "linux") (bytes "arm64")
    ∷ platform (bytes "darwin") (bytes "amd64")
    ∷ platform (bytes "darwin") (bytes "arm64")
    ∷ platform (bytes "windows") (bytes "amd64")
    ∷ []

-- Two parts, neither empty.
unfoldable pub platform_of_parts : List Str → Option Platform
platform_of_parts [] = none
platform_of_parts (_ ∷ []) = none
platform_of_parts (goos ∷ goarch ∷ []) =
    if is_empty goos || is_empty goarch then none else some (platform goos goarch)
platform_of_parts (_ ∷ _ ∷ _ ∷ _) = none

-- The loop of `ParsePlatforms`.
unfoldable pub parse_items : List Str → Result (List Platform)
unfolding platform_of_parts split trim_space
parse_items [] = ok []
parse_items (raw_item ∷ items) =
    let item = trim_space raw_item in
    let rest = parse_items items in
    if is_empty item then rest else elim (platform_of_parts (split b'_' item)) [
      | none ↦ err (bad_platform_item item)
      | some p ↦ rest >>= λ ps. ok (p ∷ ps)
    ]

unfoldable pub parse_platforms : Str → Result (List Platform)
unfolding parse_items split
parse_platforms csv = do
  ps ← parse_items (split b',' csv)
  guard (ltb 0 (length ps)) no_platforms
  ok ps

unfoldable pub parse_archive_name : Str → Str → Str → Option Platform
parse_archive_name name id version =
    let prefix = id ++ (b'_' ∷ (version ++ (b'_' ∷ []))) in
    if not (has_prefix name prefix) || not (has_suffix name (bytes ".zip"))
    then none
    else platform_of_parts (split b'_' (trim_suffix (trim_prefix name prefix) (bytes ".zip")))
