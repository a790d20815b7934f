-- ===== src/Tests/Ranks.antt =====
-- Three entries of a provider group, two of them with a future reset.
use mathlib.Core.List.{Permᴰ}
use cpa_plugin_reset_priorit.Ranker.{RankEntry, less, rank, lookup}
use cpa_plugin_reset_priorit.Ranker.Sort.{DistinctKeys}
use cpa_plugin_reset_priorit.Ranker.Formula.{rank_formula, level, behind, int_limit}
use cpa_plugin_reset_priorit.Ranker.Spec.{Earlier, rank-permute, ranks_above, rank_bounds}
use cpa_plugin_reset_priorit.Base.{
  bytes, str_eq, str_lt, In, ◌+ℤ◌, ◌-ℤ◌, max_int, pos, ℕ, ◌+◌, ◌-◌, ◌*◌, ◌^◌, ◌≤◌, ◌≡◌, refl, true,
  false, some, List, [], ◌∷◌, arith,
}

abbrev first : RankEntry
first = record { key = bytes "a"; reset_at = 50; has_future_reset = true }

abbrev second_entry : RankEntry
second_entry = record { key = bytes "b"; reset_at = 20; has_future_reset = true }

abbrev third : RankEntry
third = record { key = bytes "c"; reset_at = 0; has_future_reset = false }

abbrev entries : List RankEntry
entries = first ∷ second_entry ∷ third ∷ []

abbrev turned : List RankEntry
turned = second_entry ∷ first ∷ third ∷ []

entries-DistinctKeys : DistinctKeys entries
entries-DistinctKeys =
    (((λ p. ground arith), ((λ p. ground arith), tt)), (((λ p. ground arith), tt), (tt, tt)))

rank_test :
    rank entries (pos 100) (pos 100)
    ≡ (bytes "b", pos 300) ∷ (bytes "a", pos 200) ∷ (bytes "c", pos 100) ∷ []
unfolding rank less str_eq ◌+ℤ◌ ◌-ℤ◌
rank_test = refl

rank_saturates :
    rank entries (pos (2 ^ 63 - 50)) (pos 100)
    ≡ (bytes "b", max_int) ∷ (bytes "a", max_int) ∷ (bytes "c", pos (2 ^ 63 - 50)) ∷ []
unfolding rank less str_eq ◌+ℤ◌ ◌-ℤ◌
rank_saturates = refl

rank_formula_example :
    lookup (bytes "a") (rank entries (pos 100) (pos 100))
    ≡ some (pos (level 100 100 (behind first entries)))
rank_formula_example =
    rank_formula entries 100 100 {e = first} (omega arith) entries-DistinctKeys (In.here refl)

rank-permute_example : rank entries (pos 100) (pos 100) ≡ rank turned (pos 100) (pos 100)
rank-permute_example = rank-permute (pos 100) (pos 100) (Permᴰ.swap refl refl) entries-DistinctKeys

room : 100 + 100 * behind second_entry entries ≤ int_limit
unfolding less str_lt
room = omega arith

ranks_above_example :
    (p : ℕ) × (q : ℕ) × (lookup (bytes "b") (rank entries (pos 100) (pos 100)) ≡ some (pos p))
    × (lookup (bytes "a") (rank entries (pos 100) (pos 100)) ≡ some (pos q))
    × (q + 100 ≤ p)
ranks_above_example =
    ranks_above entries 100 100 second_entry first (omega arith) entries-DistinctKeys
      (In.there (In.here refl)) (In.here refl) (Earlier.sooner refl refl (omega arith)) room

rank_bounds_example :
    (p : ℕ) × (lookup (bytes "c") (rank entries (pos 100) (pos 100)) ≡ some (pos p))
    × (100 ≤ p)
    × (p ≤ int_limit)
rank_bounds_example =
    rank_bounds entries 100 100 {e = third} (omega arith) entries-DistinctKeys
      (In.there (In.there (In.here refl)))
