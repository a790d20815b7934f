-- ===== src/Base/Text.antt =====
-- Go strings as lists of bytes: the comparisons and the functions of package `strings` that the
-- plugin calls. Letter case and white space are those of ASCII; other bytes are left as they are.
use Prim.Native.Nat.{ℕ, ◌+◌}
use Prim.Native.Char.{code}
use Prim.Native.String.{String}
use mathlib.Core.Bool.{Bool, true, false, ◌&&◌, ◌||◌}
use mathlib.Core.List.{List, [], ◌∷◌, map, reverse}
use cpa_plugin_reset_priorit.Base.Tests.{ltb, leb, ◌==◌, if◌then◌else◌}

abbrev pub Str : Type 0
Str = List ℕ

-- The bytes of an ASCII literal.
abbrev pub bytes : String → Str
bytes String.[] = []
bytes (String.◌∷◌ c s) = code c ∷ bytes s

unfoldable pub str_eq : Str → Str → Bool
str_eq [] [] = true
str_eq [] (_ ∷ _) = false
str_eq (_ ∷ _) [] = false
str_eq (a ∷ s) (b ∷ t) = a == b && str_eq s t

-- `s < t`: bytewise, a proper prefix first.
unfoldable pub str_lt : Str → Str → Bool
str_lt _ [] = false
str_lt [] (_ ∷ _) = true
str_lt (a ∷ s) (b ∷ t) = ltb a b || (a == b && str_lt s t)

abbrev pub is_empty : Str → Bool
is_empty [] = true
is_empty (_ ∷ _) = false

unfoldable pub to_lower : Str → Str
to_lower = map (λ c. if leb b'A' c && leb c b'Z' then c + 32 else c)

unfoldable pub is_space : ℕ → Bool
is_space c = (leb 9 c && leb c 13) || c == 32

unfoldable pub trim_left : Str → Str
unfolding is_space
trim_left [] = []
trim_left (c ∷ s) = let rest = trim_left s in if is_space c then rest else c ∷ s

unfoldable pub trim_space : Str → Str
unfolding trim_left
trim_space s = reverse (trim_left (reverse (trim_left s)))

unfoldable pub equal_fold : Str → Str → Bool
unfolding to_lower str_eq
equal_fold s t = str_eq (to_lower s) (to_lower t)

unfoldable pub has_prefix : Str → Str → Bool
has_prefix s [] = true
has_prefix [] (_ ∷ _) = false
has_prefix (a ∷ s) (b ∷ p) = a == b && has_prefix s p

unfoldable pub contains : Str → Str → Bool
unfolding has_prefix
contains [] p = has_prefix [] p
contains (a ∷ s) p = has_prefix (a ∷ s) p || contains s p
