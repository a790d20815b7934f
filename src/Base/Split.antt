-- ===== src/Base/Split.antt =====
-- Splitting Go strings: strings.Split by one byte, strings.Fields, suffixes, and string maps.
use Prim.Native.Nat.{ℕ}
use mathlib.Core.Bool.{Bool, false, ◌||◌}
use mathlib.Core.List.{List, [], ◌∷◌, reverse}
use mathlib.Core.Option.{Option, none, some}
use cpa_plugin_reset_priorit.Base.Tests.{◌==◌, if◌then◌else◌}
use cpa_plugin_reset_priorit.Base.Text.{Str, str_eq, is_empty, is_space, has_prefix}

unfoldable pub cons_first : ℕ → List Str → List Str
cons_first c [] = (c ∷ []) ∷ []
cons_first c (w ∷ ws) = (c ∷ w) ∷ ws

unfoldable pub split_on : (ℕ → Bool) → Str → List Str
unfolding cons_first
split_on cut [] = [] ∷ []
split_on cut (c ∷ s) = let rest = split_on cut s in if cut c then [] ∷ rest else cons_first c rest

unfoldable pub split : ℕ → Str → List Str
unfolding split_on
split sep = split_on (λ c. c == sep)

unfoldable pub keep_words : List Str → List Str
keep_words [] = []
keep_words (w ∷ ws) = let rest = keep_words ws in if is_empty w then rest else w ∷ rest

unfoldable pub fields : Str → List Str
unfolding split_on keep_words is_space
fields s = keep_words (split_on is_space s)

unfoldable pub drop_prefix : Str → Str → Str
drop_prefix s [] = s
drop_prefix [] (_ ∷ _) = []
drop_prefix (_ ∷ s) (_ ∷ p) = drop_prefix s p

unfoldable pub trim_prefix : Str → Str → Str
unfolding has_prefix drop_prefix
trim_prefix s p = if has_prefix s p then drop_prefix s p else s

unfoldable pub has_suffix : Str → Str → Bool
unfolding has_prefix
has_suffix s t = has_prefix (reverse s) (reverse t)

unfoldable pub trim_suffix : Str → Str → Str
unfolding trim_prefix
trim_suffix s t = reverse (trim_prefix (reverse s) (reverse t))

-- Whether some byte is `/` or `\`.
unfoldable pub has_separator : Str → Bool
has_separator [] = false
has_separator (c ∷ s) = c == b'/' || c == 92 || has_separator s

-- A string map: its entries with distinct keys. A write replaces an entry or adds one at the end.
module _ {ℓ} {V : Type ℓ} where
  unfoldable pub lookup : Str → List (Str × V) → Option V
  lookup k [] = none
  lookup k ((j, v) ∷ m) = if str_eq j k then some v else lookup k m

  unfoldable pub insert_key : Str → V → List (Str × V) → List (Str × V)
  insert_key k v [] = (k, v) ∷ []
  insert_key k v ((j, w) ∷ m) = if str_eq j k then (j, v) ∷ m else (j, w) ∷ insert_key k v m

unfoldable pub member : Str → List Str → Bool
member k [] = false
member k (j ∷ ks) = str_eq j k || member k ks
