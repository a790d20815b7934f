-- ===== src/Packaging/Digests.antt =====
-- A checksums line that `FormatChecksums` wrote, read back.
use mathlib.Core.List.{append_assoc}
use cpa_plugin_reset_priorit.Packaging.Checksums.{is_hex, all_hex, sha256_pattern, format_line}
use cpa_plugin_reset_priorit.Packaging.Lines.{split_on-whole, split_on-append, NoSpace, NonEmpty}
use cpa_plugin_reset_priorit.Base.{
  leb, if◌then◌else◌, keep_words, fields, has_separator, Str, is_empty, to_lower, is_space, length,
  All, ℕ, suc, ◌+◌, ◌<◌, ◌≡◌, refl, ap, ap₂, true, false, ◌&&◌, [], ◌∷◌, ◌++◌, arith,
}

-- A file name of printable ASCII without separators.
pub record IsAssetName (name : Str) : Type 0 where
  pub some_byte : is_empty name ≡ false
  pub bare : has_separator name ≡ false
  pub printable : All (λ c. (32 < c) × (c < 127)) name

lower_byte : ℕ → ℕ
lower_byte c = if leb b'A' c && leb c b'Z' then c + 32 else c

lower-cons : (c : ℕ) (s : Str) → to_lower (c ∷ s) ≡ lower_byte c ∷ to_lower s
unfolding to_lower lower_byte
lower-cons c s = refl

lower_byte-hex :
    (c : ℕ)
    → is_hex c ≡ true
    → (is_space (lower_byte c) ≡ false)
      × (is_hex (lower_byte c) ≡ true)
      × (lower_byte (lower_byte c) ≡ lower_byte c)
unfolding is_hex is_space lower_byte
lower_byte-hex c h = ground arith

record IsLowered (s : Str) : Type 0 where
  no_space : NoSpace (to_lower s)
  hex : all_hex (to_lower s) ≡ true
  stable : to_lower (to_lower s) ≡ to_lower s
  long : length (to_lower s) ≡ length s

nil-IsLowered : IsLowered []
unfolding to_lower all_hex
nil-IsLowered = record { no_space = tt; hex = refl; stable = refl; long = refl }

lower-IsLowered : (s : Str) → all_hex s ≡ true → IsLowered s
unfolding all_hex
lower-IsLowered [] h = nil-IsLowered
lower-IsLowered (c ∷ s) h =
    let l = lower-IsLowered s (ground arith) in
    let b = lower_byte-hex c (ground arith) in
    record {
      no_space = rw (lower-cons c s) (b.0, l.no_space);
      hex = rw (lower-cons c s) (rw (b.1, l.hex));
      stable =
          rw (lower-cons c s)
            (rw (lower-cons (lower_byte c) (to_lower s)) (ap₂ (λ x y. x ∷ y) b.2 l.stable));
      long = rw (lower-cons c s) (ap suc l.long);
    }

pub record IsDigestLower (s : Str) : Type 0 where
  pub no_space : NoSpace (to_lower s)
  pub pattern_kept : sha256_pattern (to_lower s) ≡ true
  pub stable : to_lower (to_lower s) ≡ to_lower s
  pub some_byte : NonEmpty (to_lower s)

NonEmpty-length : (s : Str) → length s ≡ 64 → NonEmpty s
NonEmpty-length [] h = absurd (omega arith)
NonEmpty-length (c ∷ s) h = refl

pub sha256-IsDigestLower : (s : Str) → sha256_pattern s ≡ true → IsDigestLower s
unfolding sha256_pattern
sha256-IsDigestLower s h =
    let l = lower-IsLowered s (ground arith) in
    record {
      no_space = l.no_space;
      pattern_kept = let x = l.hex in let y = l.long in ground arith;
      stable = l.stable;
      some_byte = NonEmpty-length _ (let y = l.long in ground arith);
    }

pub printable-NoSpace : (s : Str) → All (λ c. (32 < c) × (c < 127)) s → NoSpace s
unfolding is_space
printable-NoSpace [] h = tt
printable-NoSpace (c ∷ s) h = (ground arith, printable-NoSpace s h.1)

-- The line without its line feed.
abbrev pub text_line : Str × Str → Str
text_line (name, sum) = to_lower sum ++ (b' ' ∷ b' ' ∷ name)

pub format_line-text_line :
    (e : Str × Str) (rest : Str) → format_line e ++ rest ≡ text_line e ++ 10 ∷ rest
unfolding format_line
format_line-text_line (name, sum) rest = simp append_assoc

pub fields-text_line :
    (l name : Str)
    → NonEmpty l
    → NoSpace l
    → NonEmpty name
    → NoSpace name
    → fields (l ++ (b' ' ∷ b' ' ∷ name)) ≡ l ∷ name ∷ []
unfolding fields keep_words is_space
fields-text_line l name el hl en hn =
    rw (split_on-append is_space l 32 (32 ∷ name) hl refl)
      (rw (split_on-whole is_space name hn, keep_words, el, en))
