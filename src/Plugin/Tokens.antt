-- ===== src/Plugin/Tokens.antt =====
-- The tokens of a request header, and what the refresh gate makes of them.
use cpa_plugin_reset_priorit.Plugin.Request.{
  Headers, Url, part_tokens, value_tokens, names_header, header_tokens, same_site, all_same_site,
  refresh_request_allowed, metadata_allowed, fetch_site_header, origin_header,
}
use cpa_plugin_reset_priorit.Base.{In}
use cpa_plugin_reset_priorit.Base.{here, there}
use cpa_plugin_reset_priorit.Base.{
  Bool-cases, split, Str, is_empty, trim_space, ◌≡◌, refl, sym, ap, subst, ◌∙◌, inl, inr, Bool,
  true, false, Option, List, [], ◌∷◌, ◌++◌, arith,
}

-- Some line of the header holds the token, which is not empty, between commas and spaces.
pub record Carries (headers : Headers) (name token : Str) : Type 0 where
  pub key : Str
  pub values : List Str
  pub line : In (key, values) headers
  pub named : names_header key name ≡ true
  pub value : Str
  pub of_line : In value values
  pub part : Str
  pub of_value : In part (split b',' value)
  pub trimmed : trim_space part ≡ token
  pub some_byte : is_empty token ≡ false

In-append-left : (t : Str) (xs ys : List Str) → In t xs → In t (xs ++ ys)
In-append-left t [] ys i = elim i [ ]
In-append-left t (x ∷ xs) ys (here e) = here e
In-append-left t (x ∷ xs) ys (there i) = there (In-append-left t xs ys i)

In-append-right : (t : Str) (xs ys : List Str) → In t ys → In t (xs ++ ys)
In-append-right t [] ys i = i
In-append-right t (x ∷ xs) ys i = there (In-append-right t xs ys i)

part-In :
    (part token : Str) (parts : List Str)
    → In part parts
    → trim_space part ≡ token
    → is_empty token ≡ false
    → In token (part_tokens parts)
unfolding part_tokens
part-In part token [] i t n = elim i [ ]
part-In part token (p ∷ parts) (here e) t n = rw (ap trim_space e ∙ t, n, part_tokens) (here refl)
part-In part token (p ∷ parts) (there i) t n = elim (Bool-cases (is_empty (trim_space p))) [
  | inl e ↦ rw (e, part_tokens) (part-In part token parts i t n)
  | inr e ↦ rw (e, part_tokens) (there (part-In part token parts i t n))
]

value-In :
    (value token : Str) (values : List Str)
    → In value values
    → In token (part_tokens (split b',' value))
    → In token (value_tokens values)
unfolding value_tokens
value-In value token [] j i = elim j [ ]
value-In value token (w ∷ values) (here e) i =
    In-append-left token _ (value_tokens values)
      (subst (λ x. In token (part_tokens (split b',' x))) (sym e) i)
value-In value token (w ∷ values) (there j) i =
    In-append-right token (part_tokens (split b',' w)) _ (value-In value token values j i)

line-In :
    (line : Str × List Str) (headers : Headers) (name token : Str)
    → In line headers
    → names_header line.0 name ≡ true
    → In token (value_tokens line.1)
    → In token (header_tokens headers name).0 × ((header_tokens headers name).1 ≡ true)
unfolding header_tokens
line-In line [] name token j n i = elim j [ ]
line-In line ((k, vs) ∷ headers) name token (here e) n i =
    rw (ap (λ (l : Str × List Str). names_header l.0 name) e ∙ n) (
      In-append-left token (value_tokens vs) _
          (subst (λ (l : Str × List Str). In token (value_tokens l.1)) (sym e) i),
      refl,
    )
line-In line ((k, vs) ∷ headers) name token (there j) n i =
    let (found, present) = line-In line headers name token j n i in
    elim (Bool-cases (names_header k name)) [
      | inl e ↦ rw e (In-append-right token (value_tokens vs) _ found, refl)
      | inr e ↦ rw e (found, present)
    ]

Carries-In :
    (headers : Headers) (name token : Str)
    → Carries headers name token
    → In token (header_tokens headers name).0 × ((header_tokens headers name).1 ≡ true)
Carries-In headers name token c =
    line-In (c.key, c.values) headers name token c.line c.named
      (value-In c.value token c.values c.of_line
        (part-In c.part token _ c.of_value c.trimmed c.some_byte))

all_same_site-In :
    (sites : List Str) (site : Str)
    → In site sites
    → all_same_site sites ≡ true
    → same_site site ≡ true
unfolding all_same_site
all_same_site-In [] site i h = elim i [ ]
all_same_site-In (s ∷ sites) site (here e) h = subst (λ x. same_site x ≡ true) e (ground arith)
all_same_site-In (s ∷ sites) site (there i) h = all_same_site-In sites site i (ground arith)

cross_metadata :
    (parse_url : Str → Option Url) (sites : List Str × Bool) (origins : List Str × Bool)
    (site : Str)
    → In site sites.0 × (sites.1 ≡ true)
    → same_site site ≡ false
    → metadata_allowed parse_url sites origins ≡ false
unfolding metadata_allowed
cross_metadata parse_url (sites, true) origins site f other =
    elim (Bool-cases (all_same_site sites)) [
      | inr e ↦ ground arith
      | inl e ↦ let h = all_same_site-In sites site f.0 e in absurd (cc (h, other))
    ]
cross_metadata parse_url (sites, false) origins site f other = cc

pub cross_site_refused :
    (parse_url : Str → Option Url) (headers : Headers) (site : Str)
    → Carries headers fetch_site_header site
    → same_site site ≡ false
    → refresh_request_allowed parse_url headers ≡ false
unfolding refresh_request_allowed
cross_site_refused parse_url headers site c other =
    let e =
      cross_metadata parse_url (header_tokens headers fetch_site_header)
        (header_tokens headers origin_header) site (Carries-In headers fetch_site_header site c)
        other in
    ground arith
