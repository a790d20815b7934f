-- ===== src/Ranker.antt =====
-- internal/engine/ranker.go: the deterministic priorities of one provider group.
-- An instant is a number of nanoseconds (Times.antt). The result map is an association list with one
-- entry for each key; `sort.SliceStable` is a stable insertion sort.
pub mod Order
pub mod Sort
pub mod Formula
pub mod Spec
use cpa_plugin_reset_priorit.Base.{
  ℕ, Bool, not, ◌&&◌, ◌||◌, Option, none, some, List, [], ◌∷◌, ltb, ◌==◌, if◌then◌else◌, ℤ, pos,
  ◌+ℤ◌, ◌-ℤ◌, ltb_ℤ, max_int, min_int, Str, str_eq, str_lt,
}

pub record RankEntry : Type 0 where
  pub key : Str
  pub reset_at : ℕ
  pub has_future_reset : Bool

-- The comparison handed to the sort.
unfoldable pub less : RankEntry → RankEntry → Bool
less a b =
    if (a.has_future_reset && not b.has_future_reset)
      || (not a.has_future_reset && b.has_future_reset)
    then a.has_future_reset
    else if a.has_future_reset && b.has_future_reset && not (a.reset_at == b.reset_at)
    then ltb a.reset_at b.reset_at
    else str_lt a.key b.key

-- `x` goes before the first element that is not less than it, so equal elements keep their order.
unfoldable pub insert_stable : RankEntry → List RankEntry → List RankEntry
insert_stable x [] = x ∷ []
insert_stable x (y ∷ ys) =
    let rest = insert_stable x ys in if less y x then y ∷ rest else x ∷ y ∷ ys

unfoldable pub slice_stable : List RankEntry → List RankEntry
unfolding insert_stable
slice_stable [] = []
slice_stable (x ∷ xs) = insert_stable x (slice_stable xs)

unfoldable pub saturating_add : ℤ → ℤ → ℤ
saturating_add a b =
    if ltb_ℤ (pos 0) b && ltb_ℤ (max_int -ℤ b) a
    then max_int
    else if ltb_ℤ b (pos 0) && ltb_ℤ a (min_int -ℤ b)
    then min_int
    else a +ℤ b

-- The loop from the last position up: the priorities of the positions, and the next `priority`.
unfoldable pub fill : (floor step : ℤ) → List RankEntry → List (RankEntry × ℤ) × ℤ
unfolding saturating_add
fill floor step [] = ([], floor)
fill floor step (x ∷ xs) =
    let (done, priority) = fill floor step xs in
    ((x, priority) ∷ done, saturating_add priority step)

-- `out[key] = priority` and a read of `out`.
unfoldable pub assign : Str → ℤ → List (Str × ℤ) → List (Str × ℤ)
assign k v [] = (k, v) ∷ []
assign k v ((j, w) ∷ out) = if str_eq j k then (k, v) ∷ out else (j, w) ∷ assign k v out

unfoldable pub lookup : Str → List (Str × ℤ) → Option ℤ
lookup k [] = none
lookup k ((j, w) ∷ out) = if str_eq j k then some w else lookup k out

unfoldable pub collect : List (RankEntry × ℤ) → List (Str × ℤ) → List (Str × ℤ)
unfolding assign
collect [] out = out
collect ((e, p) ∷ rest) out = collect rest (assign e.key p out)

unfoldable pub rank : List RankEntry → (floor step : ℤ) → List (Str × ℤ)
unfolding slice_stable fill collect
rank entries floor step = collect (fill floor step (slice_stable entries)).0 []
