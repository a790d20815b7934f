-- ===== src/Packaging/Checksums.antt =====
-- internal/packaging: checksums files. A Go map is a list of entries with distinct names.
use cpa_plugin_reset_priorit.Packaging.{
  bad_line, bad_digest, bad_file_name, not_bare, bad_sum, not_canonical, Result, ok, err, ◌>>=◌,
  ◌>>◌, guard,
}
use cpa_plugin_reset_priorit.Base.{
  leb, ◌==◌, if◌then◌else◌, split, fields, has_separator, insert_key, Str, str_eq, str_lt, is_empty,
  to_lower, trim_space, length, ℕ, ◌+◌, Bool, true, false, not, ◌&&◌, ◌||◌, List, [], ◌∷◌, ◌++◌,
}

abbrev pub Sums : Type 0
Sums = List (Str × Str)

unfoldable pub is_hex : ℕ → Bool
is_hex c = (leb b'0' c && leb c b'9') || (leb b'a' c && leb c b'f') || (leb b'A' c && leb c b'F')

unfoldable pub all_hex : Str → Bool
unfolding is_hex
all_hex [] = true
all_hex (c ∷ s) = is_hex c && all_hex s

-- `sha256Pattern`: ^[0-9a-fA-F]{64}$
unfoldable pub sha256_pattern : Str → Bool
unfolding all_hex
sha256_pattern s = length s == 64 && all_hex s

-- The fields of a line, which must be two.
unfoldable pub check_fields : ℕ → List Str → Result (Str × Str)
unfolding sha256_pattern has_separator to_lower
check_fields n [] = err (bad_line n)
check_fields n (_ ∷ []) = err (bad_line n)
check_fields n (sum ∷ name ∷ []) = do
  guard (sha256_pattern sum) (bad_digest n)
  guard (not (has_separator name)) (bad_file_name n)
  ok (name, to_lower sum)
check_fields n (_ ∷ _ ∷ _ ∷ _) = err (bad_line n)

-- The loop over the lines, from line `n` on.
unfoldable pub parse_lines : ℕ → Sums → List Str → Result Sums
unfolding check_fields fields trim_space insert_key
parse_lines n out [] = ok out
parse_lines n out (raw_line ∷ ls) =
    let line = trim_space raw_line in
    elim (is_empty line) [
      | true ↦ parse_lines (n + 1) out ls
      | false ↦ check_fields n (fields line) >>= λ (p : Str × Str).
          parse_lines (n + 1) (insert_key p.0 p.1 out) ls
    ]

unfoldable pub parse_checksums : Str → Result Sums
unfolding parse_lines split
parse_checksums content = parse_lines 1 [] (split 10 content)

-- The checks on the entries, in the order in which the map is ranged over.
unfoldable pub check_sums : Sums → Result (Unit {0})
unfolding has_separator sha256_pattern
check_sums [] = ok tt
check_sums ((name, sum) ∷ sums) =
    let rest = check_sums sums in
    guard (not (has_separator name)) (not_bare name)
    >> (guard (sha256_pattern sum) (bad_sum name) >> rest)

unfoldable pub insert_entry : Str × Str → Sums → Sums
unfolding str_lt
insert_entry e [] = e ∷ []
insert_entry e (x ∷ xs) =
    let rest = insert_entry e xs in if str_lt x.0 e.0 then x ∷ rest else e ∷ x ∷ xs

-- `sort.Strings` of the names, each with its sum.
unfoldable pub sort_entries : Sums → Sums
unfolding insert_entry
sort_entries [] = []
sort_entries (e ∷ es) = insert_entry e (sort_entries es)

unfoldable pub format_line : Str × Str → Str
unfolding to_lower
format_line (name, sum) = to_lower sum ++ (b' ' ∷ b' ' ∷ (name ++ (10 ∷ [])))

unfoldable pub format_lines : Sums → Str
unfolding format_line
format_lines [] = []
format_lines (e ∷ es) = format_line e ++ format_lines es

unfoldable pub format_checksums : Sums → Result Str
unfolding check_sums sort_entries format_lines
format_checksums sums = check_sums sums >> ok (format_lines (sort_entries sums))

unfoldable pub require_canonical_checksums : Str → Sums → Str → Result (Unit {0})
require_canonical_checksums raw listed source = do
  canonical ← format_checksums listed
  guard (str_eq raw canonical) (not_canonical source)
