-- ===== src/Sanitize.antt =====
-- internal/sanitize/sanitize.go: what is cut out of a message before anyone sees it.
-- Each regular expression is a matcher: given the byte before and the text from a position, the
-- length of the leftmost-first match that begins there.
pub mod Truncate
use cpa_plugin_reset_priorit.Base.{
  ltb, leb, ◌==◌, if◌then◌else◌, Str, bytes, is_empty, to_lower, trim_space, has_prefix, length, ℕ,
  zero, suc, ◌+◌, ◌-◌, Bool, true, false, not, ◌&&◌, ◌||◌, Option, none, some, [], ◌∷◌, ◌++◌,
}

abbrev max_message_length : ℕ
max_message_length = 240

is_re_space : ℕ → Bool
is_re_space c = c == 9 || c == 10 || c == 12 || c == 13 || c == 32

is_word : ℕ → Bool
is_word c =
    (leb b'0' c && leb c b'9')
    || (leb b'A' c && leb c b'Z')
    || (leb b'a' c && leb c b'z')
    || c == 95

-- `[^\s"']`
is_value : ℕ → Bool
unfolding is_re_space
is_value c = not (is_re_space c || c == 34 || c == 39)

-- `[A-Za-z0-9_-]`
is_token : ℕ → Bool
unfolding is_word
is_token c = is_word c || c == b'-'

-- `[A-Za-z0-9_.-]`
is_dotted : ℕ → Bool
unfolding is_token
is_dotted c = is_token c || c == b'.'

-- `[A-Za-z0-9+/_=-]`
is_long : ℕ → Bool
unfolding is_token
is_long c = is_token c || c == b'+' || c == b'/' || c == b'='

-- How many bytes at the head pass a test.
run_length : (ℕ → Bool) → Str → ℕ
run_length p [] = 0
run_length p (c ∷ s) = let rest = run_length p s in if p c then suc rest else 0

unfoldable pub drop : ℕ → Str → Str
drop zero s = s
drop (suc n) [] = []
drop (suc n) (c ∷ s) = drop n s

unfoldable pub take : ℕ → Str → Str
take zero s = []
take (suc n) [] = []
take (suc n) (c ∷ s) = c ∷ take n s

abbrev Matcher : Type 0
Matcher = Option ℕ → Str → Option ℕ

-- `(?i)bearer\s+[^\s"']+`
bearer_pattern : Matcher
unfolding is_re_space is_value run_length drop has_prefix to_lower
bearer_pattern prev s =
    if has_prefix (to_lower s) (bytes "bearer")
    then (let spaces = run_length is_re_space (drop 6 s) in
        let value = run_length is_value (drop (6 + spaces) s) in
        if ltb 0 spaces && ltb 0 value then some (6 + spaces + value) else none)
    else none

-- `eyJ[A-Za-z0-9_-]{4,}(?:\.[A-Za-z0-9_.-]{4,}){0,2}`: the dotted part takes every later dot.
jwt_pattern : Matcher
unfolding is_token is_dotted run_length drop has_prefix
jwt_pattern prev s =
    let head = run_length is_token (drop 3 s) in
    let tail = run_length is_dotted (drop (4 + head) s) in
    if has_prefix s (bytes "eyJ") && leb 4 head
    then (if has_prefix (drop (3 + head) s) (bytes ".") && leb 4 tail
        then some (4 + head + tail)
        else some (3 + head))
    else none

-- `\b` between two bytes, each of which may be missing.
word_at : Option ℕ → Bool
unfolding is_word
word_at none = false
word_at (some c) = is_word c

head_of : Str → Option ℕ
head_of [] = none
head_of (c ∷ s) = some c

boundary : Option ℕ → Option ℕ → Bool
unfolding word_at
boundary a b = (word_at a && not (word_at b)) || (not (word_at a) && word_at b)

-- The longest of the prefixes of lengths `8 + n`, `8 + n - 1`, …, `8` that ends at a boundary.
key_end : ℕ → Str → Option ℕ
unfolding boundary head_of drop
key_end zero s = if boundary (head_of (drop 7 s)) (head_of (drop 8 s)) then some 8 else none
key_end (suc n) s =
    let shorter = key_end n s in
    if boundary (head_of (drop (8 + n) s)) (head_of (drop (9 + n) s)) then some (9 + n) else shorter

-- `(?i)\bsk-[A-Za-z0-9_-]{8,}\b`
key_pattern : Matcher
unfolding boundary head_of is_token run_length drop key_end has_prefix to_lower
key_pattern prev s =
    let body = drop 3 s in
    let n = run_length is_token body in
    if boundary prev (head_of s) && has_prefix (to_lower s) (bytes "sk-") && leb 8 n
    then elim (key_end (n - 8) body) [ none ↦ none | some k ↦ some (3 + k) ]
    else none

-- `\?[^\s"']*`
query_pattern : Matcher
unfolding is_value run_length drop has_prefix
query_pattern prev s =
    if has_prefix s (bytes "?") then some (1 + run_length is_value (drop 1 s)) else none

-- `[A-Za-z0-9+/_=-]{48,}`
long_token_pattern : Matcher
unfolding is_long run_length
long_token_pattern prev s = let n = run_length is_long s in if leb 48 n then some n else none

-- `ReplaceAllString`: `skip` bytes of the last match are still to be passed over. No pattern
-- matches the empty text.
replace_from : Matcher → Str → ℕ → Option ℕ → Str → Str
replace_from p repl skip prev [] = []
replace_from p repl (suc skip) prev (c ∷ s) = replace_from p repl skip (some c) s
replace_from p repl zero prev (c ∷ s) = elim (p prev (c ∷ s)) [
  | none ↦ c ∷ replace_from p repl zero (some c) s
  | some n ↦ repl ++ replace_from p repl (n - 1) (some c) s
]

replace_all : Matcher → Str → Str → Str
unfolding replace_from
replace_all p repl s = replace_from p repl 0 none s

-- `utf8.RuneStart`: not a continuation byte.
unfoldable pub rune_start : ℕ → Bool
rune_start b = not (leb 128 b && ltb b 192)

unfoldable pub rune_start_at : Str → ℕ → Bool
unfolding rune_start
rune_start_at [] n = true
rune_start_at (c ∷ s) zero = rune_start c
rune_start_at (c ∷ s) (suc n) = rune_start_at s n

-- The loop that walks `cut` back.
unfoldable pub walk_back : Str → ℕ → ℕ
unfolding rune_start_at
walk_back s zero = zero
walk_back s (suc cut) =
    let earlier = walk_back s cut in if rune_start_at s (suc cut) then suc cut else earlier

unfoldable pub truncate_to_rune_boundary : Str → ℕ → Str
unfolding walk_back take
truncate_to_rune_boundary s max_bytes =
    if leb (length s) max_bytes then s else take (walk_back s max_bytes) s

scrub : Str → Str
unfolding replace_all bearer_pattern jwt_pattern key_pattern query_pattern long_token_pattern
    trim_space
scrub s = trim_space (
    replace_all long_token_pattern (bytes "[redacted]") (
      replace_all query_pattern (bytes "?[redacted]") (
        replace_all key_pattern (bytes "[redacted]") (
          replace_all jwt_pattern (bytes "[redacted]")
            (replace_all bearer_pattern (bytes "bearer [redacted]") s)))))

limit_length : Str → Str
unfolding truncate_to_rune_boundary
limit_length s =
    if ltb max_message_length (length s)
    then truncate_to_rune_boundary s max_message_length ++ bytes "..."
    else s

unfoldable pub message : Str → Str
unfolding scrub limit_length
message s = if is_empty s then [] else limit_length (scrub s)
