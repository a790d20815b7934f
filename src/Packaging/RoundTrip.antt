-- ===== src/Packaging/RoundTrip.antt =====
-- `ParseChecksums` reads what `FormatChecksums` writes.
use mathlib.Core.Option
use mathlib.Core.List.{append_assoc, append-nil}
use cpa_plugin_reset_priorit.Packaging.{ok}
use cpa_plugin_reset_priorit.Packaging.Checksums.{
  sha256_pattern, check_fields, check_sums, sort_entries, format_lines, format_checksums,
  parse_lines, parse_checksums, Sums,
}
use cpa_plugin_reset_priorit.Packaging.Lines.{Uncut, split_on-append, NoSpace, trim_space-between}
use cpa_plugin_reset_priorit.Packaging.Digests.{
  IsAssetName, sha256-IsDigestLower, text_line, format_line-text_line, fields-text_line,
  printable-NoSpace,
}
use cpa_plugin_reset_priorit.Packaging.Sorting.{
  Distinct, lookup-sort_entries, sort_entries-Distinct, sort_entries-All,
}
use cpa_plugin_reset_priorit.Base.{
  ◌==◌, split, fields, lookup, insert_key, Str, is_empty, to_lower, is_space, trim_space, All,
  str_eq_iff, ℕ, ◌+◌, ◌≡◌, refl, sym, ap, ◌∙◌, Bool, true, false, none, List, [], ◌∷◌, ◌++◌, arith,
}

-- An entry that a checksums file can hold.
pub record IsListable (e : Str × Str) : Type 0 where
  pub name : IsAssetName e.0
  pub digest : sha256_pattern e.1 ≡ true

abbrev pub lowered : Sums → Sums
lowered [] = []
lowered ((name, sum) ∷ sums) = (name, to_lower sum) ∷ lowered sums

abbrev lines_of : Sums → List Str
lines_of [] = [] ∷ []
lines_of (e ∷ es) = text_line e ∷ lines_of es

NoSpace-Uncut : (s : Str) → NoSpace s → Uncut (λ c. c == 10) s
unfolding is_space
NoSpace-Uncut [] h = tt
NoSpace-Uncut (c ∷ s) h = (ground arith, NoSpace-Uncut s h.1)

Uncut-append : (cut : ℕ → Bool) (s t : Str) → Uncut cut s → Uncut cut t → Uncut cut (s ++ t)
Uncut-append cut [] t h k = k
Uncut-append cut (c ∷ s) t h k = (h.0, Uncut-append cut s t h.1 k)

text_line-Uncut : (e : Str × Str) → IsListable e → Uncut (λ c. c == 10) (text_line e)
text_line-Uncut (name, sum) l =
    let d = sha256-IsDigestLower sum l.digest in
    Uncut-append _ (to_lower sum) _ (NoSpace-Uncut _ d.no_space)
      (refl, (refl, NoSpace-Uncut _ (printable-NoSpace name l.name.printable)))

split-format_lines : (es : Sums) → All IsListable es → split 10 (format_lines es) ≡ lines_of es
unfolding split format_lines
split-format_lines [] h = refl
split-format_lines (e ∷ es) h = rw (format_line-text_line e (format_lines es)) (
    rw
      (split_on-append (λ c. c == 10) (text_line e) 10 (format_lines es) (text_line-Uncut e h.0)
        refl)
      (ap (λ x. text_line e ∷ x) (split-format_lines es h.1)))

trim-text_line : (e : Str × Str) → IsListable e → trim_space (text_line e) ≡ text_line e
trim-text_line (name, sum) l =
    let d = sha256-IsDigestLower sum l.digest in
    trim_space-between (to_lower sum) (b' ' ∷ b' ' ∷ []) name d.some_byte d.no_space
      l.name.some_byte (printable-NoSpace name l.name.printable)

NonEmpty-append : (s t : Str) → is_empty s ≡ false → is_empty (s ++ t) ≡ false
NonEmpty-append [] t h = cc
NonEmpty-append (c ∷ s) t h = refl

text_line-NonEmpty : (e : Str × Str) → IsListable e → is_empty (text_line e) ≡ false
text_line-NonEmpty (name, sum) l =
    NonEmpty-append (to_lower sum) _ (sha256-IsDigestLower sum l.digest).some_byte

fields-of-line : (e : Str × Str) → IsListable e → fields (text_line e) ≡ to_lower e.1 ∷ e.0 ∷ []
fields-of-line (name, sum) l =
    let d = sha256-IsDigestLower sum l.digest in
    fields-text_line (to_lower sum) name d.some_byte d.no_space l.name.some_byte
      (printable-NoSpace name l.name.printable)

check-fields_of_line :
    (n : ℕ) (e : Str × Str)
    → IsListable e
    → check_fields n (to_lower e.1 ∷ e.0 ∷ []) ≡ ok (e.0, to_lower e.1)
unfolding check_fields
check-fields_of_line n (name, sum) l =
    let d = sha256-IsDigestLower sum l.digest in rw (d.pattern_kept, l.name.bare, d.stable)

parse-line :
    (n : ℕ) (out : Sums) (line : Str) (ls : List Str) (words : List Str) (p : Str × Str)
    → trim_space line ≡ line
    → is_empty line ≡ false
    → fields line ≡ words
    → check_fields n words ≡ ok p
    → parse_lines n out (line ∷ ls) ≡ parse_lines (n + 1) (insert_key p.0 p.1 out) ls
unfolding parse_lines
parse-line n out line ls words p trimmed some_byte split_up checked =
    rw (trimmed, some_byte, parse_lines) (rw trimmed (rw split_up (rw checked)))

parse-text_line :
    (n : ℕ) (out : Sums) (e : Str × Str) (ls : List Str)
    → IsListable e
    → parse_lines n out (text_line e ∷ ls)
      ≡ parse_lines (n + 1) (insert_key e.0 (to_lower e.1) out) ls
parse-text_line n out e ls l =
    parse-line n out (text_line e) ls _ _ (trim-text_line e l) (text_line-NonEmpty e l)
      (fields-of-line e l) (check-fields_of_line n e l)

insert_key-new : (k v : Str) (m : Sums) → lookup k m ≡ none → insert_key k v m ≡ m ++ (k, v) ∷ []
unfolding lookup insert_key
insert_key-new k v [] h = refl
insert_key-new k v ((j, w) ∷ m) h = ground (arith, insert_key-new k v m)

lookup-append : (k : Str) (m l : Sums) → lookup k m ≡ none → lookup k (m ++ l) ≡ lookup k l
unfolding lookup
lookup-append k [] l h = refl
lookup-append k ((j, w) ∷ m) l h = ground (arith, lookup-append k m l)

abbrev Fresh : Sums → Sums → Type 0
Fresh out = All (λ e. lookup e.0 out ≡ none)

Fresh-extend :
    (out es : Sums) (k v : Str) → lookup k es ≡ none → Fresh out es → Fresh (out ++ (k, v) ∷ []) es
unfolding lookup
Fresh-extend out [] k v h f = tt
Fresh-extend out ((j, w) ∷ es) k v h f = (
  lookup-append j out ((k, v) ∷ []) f.0 ∙ ground (arith, str_eq_iff j k, str_eq_iff k j),
  Fresh-extend out es k v (ground arith) f.1,
)

Fresh-nil : (es : Sums) → Fresh [] es
unfolding lookup
Fresh-nil [] = tt
Fresh-nil (e ∷ es) = (refl, Fresh-nil es)

parse-last : (n : ℕ) (out : Sums) → parse_lines n out ([] ∷ []) ≡ ok out
unfolding parse_lines trim_space
parse-last n out = refl

parse-lines_of :
    (n : ℕ) (out es : Sums)
    → All IsListable es
    → Distinct es
    → Fresh out es
    → parse_lines n out (lines_of es) ≡ ok (out ++ lowered es)
parse-lines_of n out [] l d f = parse-last n out ∙ ap ok (sym (append-nil out))
parse-lines_of n out (e ∷ es) l d f =
    parse-text_line n out e (lines_of es) l.0
    ∙ (rw (insert_key-new e.0 (to_lower e.1) out f.0) (
        parse-lines_of (n + 1) (out ++ (e.0, to_lower e.1) ∷ []) es l.1 d.1
          (Fresh-extend out es e.0 (to_lower e.1) d.0 f.1)
        ∙ ap ok (append_assoc out _ _)))

lookup-lowered : (k : Str) (m : Sums) → lookup k (lowered m) ≡ Option.map to_lower (lookup k m)
unfolding lookup
lookup-lowered k [] = refl
lookup-lowered k ((j, v) ∷ m) = ground (arith, lookup-lowered k m)

check_sums-ok : (m : Sums) → All (λ e. IsAssetName e.0) m → check_sums m ≡ ok tt → All IsListable m
unfolding check_sums
check_sums-ok [] n h = tt
check_sums-ok ((name, sum) ∷ m) n h =
    (record { name = n.0; digest = ground arith }, check_sums-ok m n.1 (ground arith))

format_checksums-ok :
    (m : Sums) {text : Str}
    → format_checksums m ≡ ok text
    → (check_sums m ≡ ok tt) × (text ≡ format_lines (sort_entries m))
unfolding format_checksums
format_checksums-ok m h = ground arith

pub parse-formatted :
    (m : Sums) {text : Str}
    → Distinct m
    → All (λ e. IsAssetName e.0) m
    → format_checksums m ≡ ok text
    → parse_checksums text ≡ ok (lowered (sort_entries m))
unfolding parse_checksums
parse-formatted m d n h =
    let f = format_checksums-ok m h in
    let sorted = sort_entries m in
    let listable = sort_entries-All IsListable m (check_sums-ok m n f.0) in
    ap parse_checksums f.1
    ∙ (rw (split-format_lines sorted listable)
        (parse-lines_of 1 [] sorted listable (sort_entries-Distinct m d) (Fresh-nil sorted)))

-- Take a map of names to digests with no name twice, whose names are non-empty, of printable ASCII
-- without spaces and path separators. What FormatChecksums writes of it, if it succeeds,
-- ParseChecksums reads back without an error, to a map that has for each name the digest in lower
-- case and no other name.
pub parse-format_checksums :
    (m : Sums) {text : Str}
    → Distinct m
    → All (λ e. IsAssetName e.0) m
    → format_checksums m ≡ ok text
    → (out : Sums) × (parse_checksums text ≡ ok out)
      × ((name : Str) → lookup name out ≡ Option.map to_lower (lookup name m))
parse-format_checksums m d n h = (
  lowered (sort_entries m),
  parse-formatted m d n h,
  λ name.
      lookup-lowered name (sort_entries m) ∙ ap (Option.map to_lower) (lookup-sort_entries name m),
)
