-- ===== src/Ranker/Spec.antt =====
-- What the engine may rely on: the order of the priorities, their range, and that neither depends on
-- the order in which the accounts are visited (the engine ranges over a Go map).
use mathlib.Core.List.{Permᴰ}
use cpa_plugin_reset_priorit.Base.{
  In, ℤ, pos, ℕ, ◌+◌, ◌*◌, ◌≤◌, ◌<◌, ◌≡◌, ap, true, false, some, List, [], ◌∷◌, arith,
}
use cpa_plugin_reset_priorit.Ranker.{RankEntry, less, lookup, rank, fill, collect}
use cpa_plugin_reset_priorit.Ranker.Order.{less_irrefl, less_trans}
use cpa_plugin_reset_priorit.Ranker.Sort.{DistinctKeys, slice_stable-permute}
use cpa_plugin_reset_priorit.Ranker.Formula.{behind, level, int_limit, rank_formula}

-- The result does not depend on the order of the entries, when no two share a key.
pub rank-permute :
    {xs ys : List RankEntry} (floor step : ℤ)
    → Permᴰ xs ys
    → DistinctKeys xs
    → rank xs floor step ≡ rank ys floor step
unfolding rank
rank-permute floor step p d = ap (λ l. collect (fill floor step l).0 []) (slice_stable-permute p d)

countp_mono : (a b : RankEntry) (xs : List RankEntry) → less a b ≡ true → behind b xs ≤ behind a xs
countp_mono a b [] h = omega arith
countp_mono a b (x ∷ xs) h = ground (arith, countp_mono a b xs h, less_trans a b x h)

pub behind_lt :
    (a b : RankEntry) (xs : List RankEntry) → less a b ≡ true → In b xs → behind b xs < behind a xs
behind_lt a b [] h m = elim m [ ]
behind_lt a b (x ∷ xs) h (In.here p) =
    rw p (rw (h, less_irrefl b) (omega (arith, countp_mono a b xs h)))
behind_lt a b (x ∷ xs) h (In.there m) = ground (arith, behind_lt a b xs h m, less_trans a b x h)

-- An entry that must rank before another: it has a future reset and the other none, or both have
-- one and its own is earlier.
pub data Earlier (a b : RankEntry) : Type 0 where
  known : a.has_future_reset ≡ true → b.has_future_reset ≡ false → Earlier a b
  sooner :
      a.has_future_reset ≡ true → b.has_future_reset ≡ true → a.reset_at < b.reset_at → Earlier a b

pub Earlier-less : {a b : RankEntry} → Earlier a b → less a b ≡ true
unfolding less
Earlier-less (Earlier.known h k) = ground arith
Earlier-less (Earlier.sooner h k l) = ground arith

pub step_gap :
    (floor step m n : ℕ)
    → m < n
    → floor + step * n ≤ int_limit
    → level floor step m + step ≤ level floor step n
step_gap floor step m n h k = grind arith

-- For a floor that is not negative and fits an `int`, a step that is not negative and distinct
-- keys: the entry that must rank before another has a priority that is larger by a step at least,
-- unless its own would exceed the largest `int`.
pub ranks_above :
    (entries : List RankEntry) (floor step : ℕ) (a b : RankEntry)
    → floor ≤ int_limit
    → DistinctKeys entries
    → In a entries
    → In b entries
    → Earlier a b
    → floor + step * behind a entries ≤ int_limit
    → (p : ℕ) × (q : ℕ) × (lookup a.key (rank entries (pos floor) (pos step)) ≡ some (pos p))
      × (lookup b.key (rank entries (pos floor) (pos step)) ≡ some (pos q))
      × (q + step ≤ p)
ranks_above entries floor step a b h d ma mb e k = (
  level floor step (behind a entries),
  level floor step (behind b entries),
  rank_formula entries floor step h d ma,
  rank_formula entries floor step h d mb,
  step_gap floor step (behind b entries) (behind a entries)
      (behind_lt a b entries (Earlier-less e) mb) k,
)

-- For a floor that is not negative and fits an `int`, a step that is not negative, and distinct
-- keys: every ranked entry has a priority, between the floor and the largest `int`.
pub rank_bounds :
    (entries : List RankEntry) (floor step : ℕ) {e : RankEntry}
    → floor ≤ int_limit
    → DistinctKeys entries
    → In e entries
    → (p : ℕ) × (lookup e.key (rank entries (pos floor) (pos step)) ≡ some (pos p))
      × (floor ≤ p)
      × (p ≤ int_limit)
rank_bounds entries floor step {e} h d m = (
  level floor step (behind e entries),
  rank_formula entries floor step h d m,
  omega arith,
  omega arith,
)
