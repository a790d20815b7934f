-- ===== src/Engine/Priority.antt =====
-- parsePriorityRaw of internal/engine/writeback.go: a priority in a document.
use cpa_plugin_reset_priorit.Json.{Json, null, boolean, number, string, array, object, Number}
use cpa_plugin_reset_priorit.Base.{
  leb, ◌==◌, if◌then◌else◌, Str, is_empty, trim_space, ℤ, sub_ℕ, leb_ℤ, max_int, min_int, pos, ℕ,
  ◌+◌, ◌-◌, ◌*◌, ◌&&◌, Option, none, some, [], ◌∷◌,
}

-- `strconv.Atoi` on a 64-bit platform.
atoi_digits : ℕ → Str → Option ℕ
atoi_digits acc [] = some acc
atoi_digits acc (c ∷ s) =
    let rest = atoi_digits (acc * 10 + (c - 48)) s in if leb 48 c && leb c 57 then rest else none

in_range : ℤ → Option ℤ
in_range z = if leb_ℤ min_int z && leb_ℤ z max_int then some z else none

unsigned : Str → Option ℕ
unfolding atoi_digits
unsigned s = if is_empty s then none else atoi_digits 0 s

negated : Option ℕ → Option ℤ
unfolding in_range
negated none = none
negated (some n) = in_range (sub_ℕ 0 n)

positive : Option ℕ → Option ℤ
unfolding in_range
positive none = none
positive (some n) = in_range (pos n)

unfoldable pub atoi : Str → Option ℤ
unfolding unsigned negated positive
atoi [] = none
atoi (c ∷ s) =
    if c == b'-'
    then negated (unsigned s)
    else if c == b'+'
    then positive (unsigned s)
    else positive (unsigned (c ∷ s))

-- A missing key has no bytes; `null` decodes into a float64 that stays 0.
unfoldable pub parse_priority_raw : (Number → Option ℤ) → Option Json → Option ℤ
unfolding atoi trim_space
parse_priority_raw float none = none
parse_priority_raw float (some null) = some (pos 0)
parse_priority_raw float (some (boolean _)) = none
parse_priority_raw float (some (number n)) = float n
parse_priority_raw float (some (string s)) = atoi (trim_space s)
parse_priority_raw float (some (array _)) = none
parse_priority_raw float (some (object _)) = none
