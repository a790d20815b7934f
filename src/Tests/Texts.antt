-- ===== src/Tests/Texts.antt =====
-- Texts of the sanitizer and of the credential health.
use cpa_plugin_reset_priorit.Sanitize.{truncate_to_rune_boundary}
use cpa_plugin_reset_priorit.Sanitize.Truncate.{Cut, truncate-Cut}
use cpa_plugin_reset_priorit.Health.{contains_standalone_code}
use cpa_plugin_reset_priorit.Health.Standalone.{stands_alone, standalone_code_iff}
use cpa_plugin_reset_priorit.Base.{Str, bytes, length, ℕ, ◌≤◌, ◌<◌, ◌≡◌, refl, ◌↔◌, true, [], ◌∷◌}

-- "aé" in UTF-8: a limit of two bytes falls inside the second rune.
abbrev accented : Str
accented = 97 ∷ 195 ∷ 169 ∷ []

truncate-Cut_example :
    (length accented ≤ 2 → truncate_to_rune_boundary accented 2 ≡ accented)
    × (2 < length accented → Cut accented 2 (truncate_to_rune_boundary accented 2))
truncate-Cut_example = truncate-Cut accented 2

standalone_code_iff_example :
    (contains_standalone_code (bytes "http 4290 and 429") (bytes "429") ≡ true)
    ↔ ((i : ℕ) × (stands_alone (bytes "http 4290 and 429") (bytes "429") i ≡ true))
standalone_code_iff_example =
    standalone_code_iff (bytes "http 4290 and 429") 52 (50 ∷ 57 ∷ []) (refl, (refl, (refl, tt)))
