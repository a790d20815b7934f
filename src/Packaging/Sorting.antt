-- ===== src/Packaging/Sorting.antt =====
-- The entries of a checksums file in order of their names: the same entries.
use cpa_plugin_reset_priorit.Packaging.Checksums.{insert_entry, sort_entries, Sums}
use cpa_plugin_reset_priorit.Base.{
  if◌then◌else◌, Bool-cases, lookup, Str, str_eq, str_lt, All, str_eq_iff, str_lt_irrefl, ◌≡◌, refl,
  ◌∙◌, inl, inr, none, some, [], ◌∷◌, arith,
}

-- No name has two entries.
abbrev pub Distinct : Sums → Type 0
Distinct [] = Unit
Distinct ((name, _) ∷ sums) = (lookup name sums ≡ none) × Distinct sums

lookup-insert_entry :
    (k : Str) (e : Str × Str) (xs : Sums)
    → lookup k (insert_entry e xs) ≡ (if str_eq e.0 k then some e.1 else lookup k xs)
unfolding insert_entry lookup
lookup-insert_entry k e [] = refl
lookup-insert_entry k e (x ∷ xs) =
    ground (arith, lookup-insert_entry k e xs, str_eq_iff e.0 k, str_eq_iff x.0 k, str_lt_irrefl k)

pub lookup-sort_entries : (k : Str) (m : Sums) → lookup k (sort_entries m) ≡ lookup k m
unfolding sort_entries lookup
lookup-sort_entries k [] = refl
lookup-sort_entries k (e ∷ es) =
    lookup-insert_entry k e (sort_entries es) ∙ rw (lookup-sort_entries k es)

insert_entry-Distinct :
    (e : Str × Str) (xs : Sums) → lookup e.0 xs ≡ none → Distinct xs → Distinct (insert_entry e xs)
unfolding insert_entry lookup
insert_entry-Distinct e [] h d = (h, tt)
insert_entry-Distinct e (x ∷ xs) h d = elim (Bool-cases (str_lt x.0 e.0)) [
  | inr lower ↦ rw lower (h, d)
  | inl upper ↦ rw upper (
    lookup-insert_entry x.0 e xs ∙ ground (arith, str_eq_iff e.0 x.0, str_lt_irrefl x.0, d.0),
    insert_entry-Distinct e xs (ground arith) d.1,
  )
]

pub sort_entries-Distinct : (m : Sums) → Distinct m → Distinct (sort_entries m)
unfolding sort_entries
sort_entries-Distinct [] d = tt
sort_entries-Distinct (e ∷ es) d =
    insert_entry-Distinct e (sort_entries es) (lookup-sort_entries e.0 es ∙ d.0)
      (sort_entries-Distinct es d.1)

insert_entry-All {ℓ} :
    (P : Str × Str → Type ℓ) (e : Str × Str) (xs : Sums)
    → P e
    → All P xs
    → All P (insert_entry e xs)
unfolding insert_entry
insert_entry-All P e [] p h = (p, tt)
insert_entry-All P e (x ∷ xs) p h = elim (Bool-cases (str_lt x.0 e.0)) [
  | inr lower ↦ rw lower (p, h)
  | inl upper ↦ rw upper (h.0, insert_entry-All P e xs p h.1)
]

pub sort_entries-All {ℓ} : (P : Str × Str → Type ℓ) (m : Sums) → All P m → All P (sort_entries m)
unfolding sort_entries
sort_entries-All P [] h = tt
sort_entries-All P (e ∷ es) h =
    insert_entry-All P e (sort_entries es) h.0 (sort_entries-All P es h.1)
