-- ===== src/Ranker/Sort.antt =====
-- What the stable sort of the ranker returns, when no two entries share a key.
use mathlib.Core.List.{Permᴰ}
use mathlib.Core.Path.{subst, subst₂, ap₂, ◌∙◌}
use cpa_plugin_reset_priorit.Base.{
  Bool-cases, Str, countp, In, All, Pairs, ◌≡◌, refl, sym, ◌∙◌, ◌≢◌, inl, inr, Bool, true, List, [],
  ◌∷◌, arith,
}
use cpa_plugin_reset_priorit.Ranker.{RankEntry, less, insert_stable, slice_stable}
use cpa_plugin_reset_priorit.Ranker.Order.{less_asym, less_trans, less_total}

abbrev pub DiffersFrom : Str → List RankEntry → Type 0
DiffersFrom k = All (λ e. e.key ≢ k)

abbrev pub DistinctKeys : List RankEntry → Type 0
DistinctKeys = Pairs (λ a b. b.key ≢ a.key)

abbrev pub IsSorted : List RankEntry → Type 0
IsSorted = Pairs (λ a b. less a b ≡ true)

pub insert_stable-All {ℓ} :
    (P : RankEntry → Type ℓ) (x : RankEntry) (xs : List RankEntry)
    → P x
    → All P xs
    → All P (insert_stable x xs)
unfolding insert_stable
insert_stable-All P x [] p h = (p, tt)
insert_stable-All P x (y ∷ ys) p h = elim (Bool-cases (less y x)) [
  | inl e ↦ rw e (h.0, insert_stable-All P x ys p h.1)
  | inr e ↦ rw e (p, h)
]

pub slice_stable-All {ℓ} :
    (P : RankEntry → Type ℓ) (xs : List RankEntry) → All P xs → All P (slice_stable xs)
unfolding slice_stable
slice_stable-All P [] h = h
slice_stable-All P (x ∷ xs) h =
    insert_stable-All P x (slice_stable xs) h.0 (slice_stable-All P xs h.1)

below_each :
    (x y : RankEntry) (ys : List RankEntry)
    → less x y ≡ true
    → All (λ z. less y z ≡ true) ys
    → All (λ z. less x z ≡ true) ys
below_each x y [] e h = tt
below_each x y (z ∷ zs) e h = (less_trans x y z e h.0, below_each x y zs e h.1)

insert_stable-IsSorted :
    (x : RankEntry) (xs : List RankEntry)
    → DiffersFrom x.key xs
    → IsSorted xs
    → IsSorted (insert_stable x xs)
unfolding insert_stable
insert_stable-IsSorted x [] d s = (tt, tt)
insert_stable-IsSorted x (y ∷ ys) d s = elim (Bool-cases (less y x)) [
  | inl e ↦ rw e (insert_stable-All _ x ys e s.0, insert_stable-IsSorted x ys d.1 s.1)
  | inr e ↦ rw e (let p = less_total y x d.0 e in ((p, below_each x y ys p s.0), s))
]

pub slice_stable-IsSorted : (xs : List RankEntry) → DistinctKeys xs → IsSorted (slice_stable xs)
unfolding slice_stable
slice_stable-IsSorted [] d = tt
slice_stable-IsSorted (x ∷ xs) d =
    insert_stable-IsSorted x (slice_stable xs) (slice_stable-All _ xs d.0)
      (slice_stable-IsSorted xs d.1)

insert_stable-DistinctKeys :
    (x : RankEntry) (xs : List RankEntry)
    → DiffersFrom x.key xs
    → DistinctKeys xs
    → DistinctKeys (insert_stable x xs)
unfolding insert_stable
insert_stable-DistinctKeys x [] d s = (tt, tt)
insert_stable-DistinctKeys x (y ∷ ys) d s = elim (Bool-cases (less y x)) [
  | inl e ↦
      rw e
        (insert_stable-All _ x ys (λ p. d.0 (sym p)) s.0, insert_stable-DistinctKeys x ys d.1 s.1)
  | inr e ↦ rw e (d, s)
]

pub slice_stable-DistinctKeys :
    (xs : List RankEntry) → DistinctKeys xs → DistinctKeys (slice_stable xs)
unfolding slice_stable
slice_stable-DistinctKeys [] d = tt
slice_stable-DistinctKeys (x ∷ xs) d =
    insert_stable-DistinctKeys x (slice_stable xs) (slice_stable-All _ xs d.0)
      (slice_stable-DistinctKeys xs d.1)

countp-insert_stable :
    (p : RankEntry → Bool) (x : RankEntry) (xs : List RankEntry)
    → countp p (insert_stable x xs) ≡ countp p (x ∷ xs)
unfolding insert_stable
countp-insert_stable p x [] = refl
countp-insert_stable p x (y ∷ ys) = ground (arith, countp-insert_stable p x ys)

-- The sort keeps how many entries pass any test.
pub countp-slice_stable :
    (p : RankEntry → Bool) (xs : List RankEntry) → countp p (slice_stable xs) ≡ countp p xs
unfolding slice_stable
countp-slice_stable p [] = refl
countp-slice_stable p (x ∷ xs) =
    omega (arith, countp-insert_stable p x (slice_stable xs), countp-slice_stable p xs)

In-insert_stable_tail :
    {e : RankEntry} (x : RankEntry) (xs : List RankEntry) → In e xs → In e (insert_stable x xs)
unfolding insert_stable
In-insert_stable_tail x [] m = In.there m
In-insert_stable_tail x (y ∷ ys) (In.here p) = elim (Bool-cases (less y x)) [
  | inl e ↦ rw e (In.here p)
  | inr e ↦ rw e (In.there (In.here p))
]
In-insert_stable_tail x (y ∷ ys) (In.there m) = elim (Bool-cases (less y x)) [
  | inl e ↦ rw e (In.there (In-insert_stable_tail x ys m))
  | inr e ↦ rw e (In.there (In.there m))
]

In-insert_stable_self : (x : RankEntry) (xs : List RankEntry) → In x (insert_stable x xs)
unfolding insert_stable
In-insert_stable_self x [] = In.here refl
In-insert_stable_self x (y ∷ ys) = elim (Bool-cases (less y x)) [
  | inl e ↦ rw e (In.there (In-insert_stable_self x ys))
  | inr e ↦ rw e (In.here refl)
]

pub In-slice_stable : {e : RankEntry} (xs : List RankEntry) → In e xs → In e (slice_stable xs)
unfolding slice_stable
In-slice_stable [] m = elim m [ ]
In-slice_stable (x ∷ xs) (In.here p) = rw (← p) (In-insert_stable_self x (slice_stable xs))
In-slice_stable (x ∷ xs) (In.there m) =
    In-insert_stable_tail x (slice_stable xs) (In-slice_stable xs m)

insert_stable_comm :
    (x y : RankEntry) (xs : List RankEntry)
    → x.key ≢ y.key
    → insert_stable x (insert_stable y xs) ≡ insert_stable y (insert_stable x xs)
unfolding insert_stable
insert_stable_comm x y [] d = ground (arith, less_asym x y, less_total x y d)
insert_stable_comm x y (z ∷ zs) d = ground (
  arith,
  insert_stable_comm x y zs d,
  less_asym x y,
  less_total x y d,
  less_trans z x y,
  less_trans z y x,
)

permute-All : (P : RankEntry → Type 0) {xs ys : List RankEntry} → Permᴰ xs ys → All P xs → All P ys
permute-All P Permᴰ.nil h = h
permute-All P (Permᴰ.cons e p) h = (subst P e h.0, permute-All P p h.1)
permute-All P (Permᴰ.swap e f) h = (subst P f h.1.0, (subst P e h.0, h.1.1))
permute-All P (Permᴰ.trans p q) h = permute-All P q (permute-All P p h)

pub permute-DistinctKeys :
    {xs ys : List RankEntry} → Permᴰ xs ys → DistinctKeys xs → DistinctKeys ys
permute-DistinctKeys Permᴰ.nil d = d
permute-DistinctKeys (Permᴰ.cons {a = a} {l₂ = l} e p) d =
    (subst (λ b. DiffersFrom b.key l) e (permute-All _ p d.0), permute-DistinctKeys p d.1)
permute-DistinctKeys (Permᴰ.swap {a = a} {b = b} {l = l} e f) d =
    subst₂ (λ u v. DistinctKeys (v ∷ u ∷ l)) e f ((λ q. d.0.0 (sym q), d.1.0), (d.0.1, d.1.1))
permute-DistinctKeys (Permᴰ.trans p q) d = permute-DistinctKeys q (permute-DistinctKeys p d)

-- The sort forgets the order of its input.
pub slice_stable-permute :
    {xs ys : List RankEntry} → Permᴰ xs ys → DistinctKeys xs → slice_stable xs ≡ slice_stable ys
unfolding slice_stable
slice_stable-permute Permᴰ.nil d = refl
slice_stable-permute (Permᴰ.cons e p) d = ap₂ insert_stable e (slice_stable-permute p d.1)
slice_stable-permute (Permᴰ.swap {a = a} {b = b} {l = l} e f) d =
    subst₂ (λ u v. slice_stable (a ∷ b ∷ l) ≡ slice_stable (v ∷ u ∷ l)) e f
      (insert_stable_comm a b (slice_stable l) (λ q. d.0.0 (sym q)))
slice_stable-permute (Permᴰ.trans p q) d =
    slice_stable-permute p d ∙ slice_stable-permute q (permute-DistinctKeys p d)
