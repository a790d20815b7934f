-- ===== src/Ranker/Formula.antt =====
-- The priority of every entry by a formula: the floor, and a step for each entry ranked behind it.
use cpa_plugin_reset_priorit.Base.{
  subst, str_eq_refl, if◌then◌else◌, Str, str_eq, length, countp, In, All, ℤ, ◌+ℤ◌, ◌-ℤ◌, pos,
  str_eq_refl, str_eq_iff, ℕ, suc, ◌+◌, ◌-◌, ◌*◌, ◌^◌, ◌≤◌, min, ◌≡◌, refl, ap, ◌∙◌, true, some,
  List, [], ◌∷◌, arith,
}
use cpa_plugin_reset_priorit.Ranker.{
  RankEntry, less, slice_stable, saturating_add, fill, assign, lookup, collect, rank,
}
use cpa_plugin_reset_priorit.Ranker.Order.{less_irrefl, less_asym}
use cpa_plugin_reset_priorit.Ranker.Sort.{
  DiffersFrom, DistinctKeys, IsSorted, slice_stable-IsSorted, slice_stable-DistinctKeys,
  countp-slice_stable, In-slice_stable,
}

abbrev pub int_limit : ℕ
int_limit = 2 ^ 63 - 1

-- How many entries rank behind `e`: N - 1 - rank in the words of the source.
abbrev pub behind : RankEntry → List RankEntry → ℕ
behind e = countp (less e)

abbrev pub level : (floor step n : ℕ) → ℕ
level floor step n = min int_limit (floor + step * n)

saturating_add-level :
    (floor step n : ℕ)
    → saturating_add (pos (level floor step n)) (pos step) ≡ pos (level floor step (suc n))
unfolding saturating_add ◌+ℤ◌ ◌-ℤ◌
saturating_add-level floor step n = ground arith

fill-level :
    (floor step : ℕ) (xs : List RankEntry)
    → floor ≤ int_limit
    → (fill (pos floor) (pos step) xs).1 ≡ pos (level floor step (length xs))
unfolding fill
fill-level floor step [] h = ground arith
fill-level floor step (x ∷ xs) h =
    rw (fill-level floor step xs h) (saturating_add-level floor step (length xs))

lookup-assign :
    (k j : Str) (v : ℤ) (out : List (Str × ℤ))
    → lookup j (assign k v out) ≡ (if str_eq k j then some v else lookup j out)
unfolding lookup assign
lookup-assign k j v [] = refl
lookup-assign k j v ((i, w) ∷ out) =
    ground (arith, str_eq_iff k j, str_eq_iff i k, str_eq_iff i j, lookup-assign k j v out)

-- A key that is not ranked is not written.
lookup-collect_absent :
    (k : Str) (floor step : ℤ) (xs : List RankEntry) (out : List (Str × ℤ))
    → DiffersFrom k xs
    → lookup k (collect (fill floor step xs).0 out) ≡ lookup k out
unfolding collect fill
lookup-collect_absent k floor step [] out d = refl
lookup-collect_absent k floor step (x ∷ xs) out d =
    let v = (fill floor step xs).1 in
    lookup-collect_absent k floor step xs (assign x.key v out) d.1
    ∙ ground (arith, lookup-assign x.key k v out, str_eq_iff x.key k, d.0)

behind-head :
    (x : RankEntry) (xs : List RankEntry) → All (λ y. less x y ≡ true) xs → behind x xs ≡ length xs
behind-head x [] h = refl
behind-head x (y ∷ ys) h = ground (arith, behind-head x ys)

pub All-In {ℓ κ} : {A : Type ℓ} (P : A → Type κ) {a : A} (xs : List A) → All P xs → In a xs → P a
All-In P [] h m = elim m [ ]
All-In P (x ∷ xs) h (In.here p) = subst P p h.0
All-In P (x ∷ xs) h (In.there m) = All-In P xs h.1 m

lookup-collect_head :
    (x : RankEntry) (floor step : ℕ) (xs : List RankEntry) (out : List (Str × ℤ))
    → floor ≤ int_limit
    → IsSorted (x ∷ xs)
    → DistinctKeys (x ∷ xs)
    → lookup x.key (collect (fill (pos floor) (pos step) (x ∷ xs)).0 out)
      ≡ some (pos (level floor step (behind x (x ∷ xs))))
unfolding collect fill
lookup-collect_head x floor step xs out h s d =
    let v = (fill (pos floor) (pos step) xs).1 in
    lookup-collect_absent x.key (pos floor) (pos step) xs (assign x.key v out) d.0
    ∙ ground (
      arith,
      lookup-assign x.key x.key v out,
      str_eq_refl x.key,
      fill-level floor step xs h,
      less_irrefl x,
      behind-head x xs s.0,
    )

lookup-collect_sorted :
    (e : RankEntry) (floor step : ℕ) (xs : List RankEntry) (out : List (Str × ℤ))
    → floor ≤ int_limit
    → IsSorted xs
    → DistinctKeys xs
    → In e xs
    → lookup e.key (collect (fill (pos floor) (pos step) xs).0 out)
      ≡ some (pos (level floor step (behind e xs)))
unfolding collect fill
lookup-collect_sorted e floor step [] out h s d m = elim m [ ]
lookup-collect_sorted e floor step (x ∷ xs) out h s d (In.here p) =
    subst
      (λ (e : RankEntry).
        lookup e.key (collect (fill (pos floor) (pos step) (x ∷ xs)).0 out)
        ≡ some (pos (level floor step (behind e (x ∷ xs)))))
      p (lookup-collect_head x floor step xs out h s d)
lookup-collect_sorted e floor step (x ∷ xs) out h s d (In.there m) =
    lookup-collect_sorted e floor step xs (assign x.key (fill (pos floor) (pos step) xs).1 out) h
      s.1 d.1 m
    ∙ ground (arith, less_asym x e (All-In _ xs s.0 m))

-- For a floor that is no negative number and fits an `int`, a step that is not negative, and
-- distinct keys: `rank` gives every entry the floor plus a step for each entry that ranks behind
-- it, and stops at the largest `int`.
pub rank_formula :
    (entries : List RankEntry) (floor step : ℕ) {e : RankEntry}
    → floor ≤ int_limit
    → DistinctKeys entries
    → In e entries
    → lookup e.key (rank entries (pos floor) (pos step))
      ≡ some (pos (level floor step (behind e entries)))
unfolding rank
rank_formula entries floor step {e} h d m =
    lookup-collect_sorted e floor step (slice_stable entries) [] h (slice_stable-IsSorted entries d)
      (slice_stable-DistinctKeys entries d) (In-slice_stable entries m)
    ∙ ap (λ n. some (pos (level floor step n))) (countp-slice_stable (less e) entries)
