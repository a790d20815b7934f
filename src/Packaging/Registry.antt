-- ===== src/Packaging/Registry.antt =====
-- internal/packaging: the store registry. Its JSON decoding is a parameter.
use cpa_plugin_reset_priorit.Packaging.{
  bad_json, bad_schema, no_plugins, missing_text, bad_repository, git_suffix, leading_v, Result, ok,
  ◌>>=◌, ◌>>◌, guard, require,
}
use cpa_plugin_reset_priorit.Packaging.Names.{validate_plugin_id, leads_with_v}
use cpa_plugin_reset_priorit.Base.{
  ltb, split, trim_prefix, has_suffix, Str, bytes, is_empty, has_prefix, length, ℤ, eqb_ℤ, pos, ℕ,
  ◌+◌, Bool, false, not, ◌&&◌, ◌||◌, Option, List, [], ◌∷◌,
}

pub record RegistryPlugin : Type 0 where
  pub id : Str
  pub name : Str
  pub description : Str
  pub author : Str
  pub version : Str
  pub repository : Str
  pub homepage : Str
  pub license : Str
  pub tags : List Str

pub record Registry : Type 0 where
  pub schema_version : ℤ
  pub plugins : List RegistryPlugin

-- Two parts, neither empty, and no slash further on.
unfoldable pub owner_and_repo : List Str → Bool
owner_and_repo [] = false
owner_and_repo (_ ∷ []) = false
owner_and_repo (owner ∷ repo ∷ []) = not (is_empty owner) && not (is_empty repo)
owner_and_repo (_ ∷ _ ∷ _ ∷ _) = false

-- `githubRepoPattern`: ^https://github\.com/[^/]+/[^/]+$
unfoldable pub github_repo_pattern : Str → Bool
unfolding has_prefix trim_prefix split owner_and_repo
github_repo_pattern url =
    has_prefix url (bytes "https://github.com/")
    && owner_and_repo (split b'/' (trim_prefix url (bytes "https://github.com/")))

unfoldable pub validate_plugin : ℕ → RegistryPlugin → Result (Unit {0})
unfolding validate_plugin_id github_repo_pattern has_suffix leads_with_v
validate_plugin i p = do
  validate_plugin_id p.id
  guard (not (is_empty p.name || is_empty p.description || is_empty p.author)) (missing_text i)
  guard (github_repo_pattern p.repository) (bad_repository i)
  guard (not (has_suffix p.repository (bytes ".git"))) (git_suffix i)
  guard (not (not (is_empty p.version) && leads_with_v p.version)) (leading_v i)

unfoldable pub validate_plugins : ℕ → List RegistryPlugin → Result (Unit {0})
unfolding validate_plugin
validate_plugins i [] = ok tt
validate_plugins i (p ∷ ps) = let rest = validate_plugins (i + 1) ps in validate_plugin i p >> rest

unfoldable pub validate_registry : (Str → Option Registry) → Str → Result Registry
unfolding validate_plugins
validate_registry decode raw = do
  reg ← require (decode raw) bad_json
  guard (eqb_ℤ reg.schema_version (pos 1)) (bad_schema reg.schema_version)
  guard (ltb 0 (length reg.plugins)) no_plugins
  validate_plugins 0 reg.plugins
  ok reg
