-- ===== src/Packaging/Published.antt =====
-- What a published release directory and its combined checksums file hold.
use cpa_plugin_reset_priorit.Packaging.Verified.{IsArchive, verify_dir-Verified}
use cpa_plugin_reset_priorit.Packaging.{ok, >>=-eq-ok, Result-cases, Option-cases}
use cpa_plugin_reset_priorit.Packaging.Names.{Platform}
use cpa_plugin_reset_priorit.Packaging.Checksums.{
  Sums, parse_checksums, format_checksums, require_canonical_checksums,
}
use cpa_plugin_reset_priorit.Packaging.Release.{
  Disk, verify_dir, verify_published_release_dir, only_archives, all_listed, compare_sums,
  compare_file,
}
use cpa_plugin_reset_priorit.Base.{
  lookup, Str, str_eq_iff, ◌≡◌, refl, sym, ap, subst, ◌∙◌, ◌⊎◌, inl, inr, false, none, some, List,
  [], ◌∷◌, arith,
}

only_archives-found :
    (sums listed : Sums) (name : Str)
    → only_archives sums listed ≡ ok tt
    → lookup name sums ≡ none
    → lookup name listed ≡ none
unfolding only_archives lookup
only_archives-found sums [] name h n = refl
only_archives-found sums ((k, w) ∷ listed) name h n =
    ground (arith, only_archives-found sums listed name, str_eq_iff k name)

all_listed-found :
    (listed sums : Sums) (name sum : Str)
    → all_listed listed sums ≡ ok tt
    → lookup name sums ≡ some sum
    → lookup name listed ≡ some sum
unfolding all_listed lookup
all_listed-found listed [] name sum h e = cc
all_listed-found listed ((k, w) ∷ sums) name sum h e = elim (Option-cases (lookup k listed)) [
  | inr q ↦ absurd (ground arith)
  | inl (want, q) ↦
      ground (arith, all_listed-found listed sums name sum, str_eq_iff k name, str_eq_iff want w)
]

-- The combined checksums file, as it was read.
pub record IsPublished (d : Disk) (path : Str) (sums : Sums) : Type 0 where
  pub text : Str
  pub readable : d.read_file path ≡ some text
  pub listed : Sums
  pub parsed : parse_checksums text ≡ ok listed
  pub canonical : format_checksums listed ≡ ok text
  pub agree : (name : Str) → lookup name sums ≡ lookup name listed

require_canonical-ok :
    (raw : Str) (listed : Sums) (source : Str)
    → require_canonical_checksums raw listed source ≡ ok tt
    → format_checksums listed ≡ ok raw
unfolding require_canonical_checksums
require_canonical-ok raw listed source h = elim (Result-cases (format_checksums listed)) [
  | inr (x, e) ↦ absurd (ground arith)
  | inl (text, e) ↦ ground (arith, str_eq_iff raw text)
]

agree_at :
    (sums listed : Sums) (name : Str)
    → only_archives sums listed ≡ ok tt
    → all_listed listed sums ≡ ok tt
    → ((sum : Str) × (lookup name sums ≡ some sum)) ⊎ (lookup name sums ≡ none)
    → lookup name sums ≡ lookup name listed
agree_at sums listed name only all (inl (sum, e)) =
    e ∙ sym (all_listed-found listed sums name sum all e)
agree_at sums listed name only all (inr e) = e ∙ sym (only_archives-found sums listed name only e)

comparison-ok :
    (sums listed : Sums) (raw path : Str) {sums' : Sums}
    → compare_sums sums raw listed path ≡ ok sums'
    → (format_checksums listed ≡ ok raw)
      × (only_archives sums listed ≡ ok tt)
      × (all_listed listed sums ≡ ok tt)
      × (sums ≡ sums')
unfolding compare_sums
comparison-ok sums listed raw path h =
    (require_canonical-ok raw listed path (ground arith), ground arith, ground arith, ground arith)

compare_sums-ok :
    (d : Disk) (sums : Sums) (raw : Str) (listed : Sums) (path : Str) {sums' : Sums}
    → d.read_file path ≡ some raw
    → parse_checksums raw ≡ ok listed
    → compare_sums sums raw listed path ≡ ok sums'
    → (sums ≡ sums') × IsPublished d path sums
unfolding compare_sums
compare_sums-ok d sums raw listed path e f h =
    let (canonical, only, all, same) = comparison-ok sums listed raw path h in
    (
      same,
      record {
        text = raw;
        readable = e;
        listed = listed;
        parsed = f;
        canonical = canonical;
        agree = λ name. agree_at sums listed name only all (Option-cases (lookup name sums));
      },
    )

compare_file-ok :
    (d : Disk) (path : Str) (sums : Sums) {sums' : Sums}
    → compare_file d path sums ≡ ok sums'
    → (sums ≡ sums') × IsPublished d path sums
unfolding compare_file
compare_file-ok d path sums h = elim (Option-cases (d.read_file path)) [
  | inr e ↦ absurd (ground arith)
  | inl (raw, e) ↦ elim (Result-cases (parse_checksums raw)) [
    | inr (x, f) ↦ absurd (ground arith)
    | inl (listed, f) ↦ compare_sums-ok d sums raw listed path e f (ground arith)
  ]
]

-- If VerifyPublishedReleaseDir succeeds, then the combined checksums file can be read, parses, and is
-- byte for byte the canonical rendering of what it lists, and the returned digests are exactly the ones
-- it lists, name by name. Each digest returned for a name is that of the file of that name, which is
-- named for the id and version and whose ZIP has the layout of its platform.
pub verify_published_lem :
    (d : Disk) (id version : Str) (required : List Platform) (path name sum : Str) {sums : Sums}
    → verify_published_release_dir d id version required path ≡ ok sums
    → lookup name sums ≡ some sum
    → IsPublished d path sums × IsArchive d id version name sum
unfolding verify_published_release_dir
verify_published_lem d id version required path name sum h l =
    let (got, p, r) = >>=-eq-ok (verify_dir d id version required false) (compare_file d path) h in
    let (e, q) = compare_file-ok d path got r in
    (
      subst (IsPublished d path) e q,
      verify_dir-Verified d id version required false p name sum (ap (lookup name) e ∙ l),
    )
