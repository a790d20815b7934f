-- ===== src/Plugin/Request.antt =====
-- internal/plugin/runtime.go: which refresh requests are allowed, and which paths are those of the
-- resource. `url.Parse` is a parameter.
use cpa_plugin_reset_priorit.Base.{
  ◌==◌, if◌then◌else◌, split, Str, bytes, is_empty, trim_space, equal_fold, contains, length, Bool,
  true, false, not, ◌&&◌, ◌||◌, Option, none, some, List, [], ◌∷◌, ◌++◌,
}

abbrev pub Headers : Type 0
Headers = List (Str × List Str)

-- What `isPlainHTTPOrigin` reads of a `url.URL`.
pub record Url : Type 0 where
  pub scheme : Str
  pub host : Str
  pub has_user : Bool
  pub path : Str
  pub raw_query : Str
  pub fragment : Str
  pub force_query : Bool

-- The non-empty parts of one value between commas.
unfoldable pub part_tokens : List Str → List Str
unfolding trim_space
part_tokens [] = []
part_tokens (part ∷ parts) =
    let rest = part_tokens parts in
    let token = trim_space part in if is_empty token then rest else token ∷ rest

unfoldable pub value_tokens : List Str → List Str
unfolding part_tokens split
value_tokens [] = []
value_tokens (value ∷ values) = part_tokens (split b',' value) ++ value_tokens values

unfoldable pub names_header : Str → Str → Bool
unfolding equal_fold trim_space
names_header key name = equal_fold (trim_space key) name

-- `headerTokens`: the tokens, and whether the header is present.
unfoldable pub header_tokens : Headers → Str → List Str × Bool
unfolding names_header value_tokens
header_tokens [] name = ([], false)
header_tokens ((key, values) ∷ headers) name =
    let rest = header_tokens headers name in
    if names_header key name then (value_tokens values ++ rest.0, true) else rest

unfoldable pub part_has_token : List Str → Str → Bool
unfolding equal_fold trim_space
part_has_token [] token = false
part_has_token (part ∷ parts) token =
    equal_fold (trim_space part) token || part_has_token parts token

unfoldable pub value_has_token : List Str → Str → Bool
unfolding part_has_token split
value_has_token [] token = false
value_has_token (value ∷ values) token =
    part_has_token (split b',' value) token || value_has_token values token

unfoldable pub header_has_token : Headers → Str → Str → Bool
unfolding names_header value_has_token
header_has_token [] name token = false
header_has_token ((key, values) ∷ headers) name token =
    (names_header key name && value_has_token values token) || header_has_token headers name token

unfoldable pub same_site : Str → Bool
unfolding equal_fold
same_site site = equal_fold site (bytes "same-origin") || equal_fold site (bytes "none")

unfoldable pub all_same_site : List Str → Bool
unfolding same_site
all_same_site [] = true
all_same_site (site ∷ sites) = same_site site && all_same_site sites

unfoldable pub is_http_url : Url → Bool
unfolding equal_fold
is_http_url u =
    equal_fold u.scheme (bytes "http")
    && not (is_empty u.host)
    && not u.has_user
    && is_empty u.path
    && is_empty u.raw_query
    && is_empty u.fragment
    && not u.force_query

abbrev pub refresh_request_header : Str
refresh_request_header = bytes "X-Reset-Priority-Refresh"

abbrev pub fetch_site_header : Str
fetch_site_header = bytes "Sec-Fetch-Site"

abbrev pub origin_header : Str
origin_header = bytes "Origin"

module _ (parse_url : Str → Option Url) where
  unfoldable pub is_plain_http_origin : Str → Bool
  unfolding is_http_url trim_space
  is_plain_http_origin value = elim (parse_url (trim_space value)) [
    | none ↦ false
    | some u ↦ is_http_url u
  ]

  -- The origins of a request without fetch metadata.
  unfoldable pub origin_allowed : List Str × Bool → Bool
  unfolding is_plain_http_origin
  origin_allowed (origins, false) = true
  origin_allowed ([], true) = false
  origin_allowed (origin ∷ [], true) = is_plain_http_origin origin
  origin_allowed (_ ∷ _ ∷ _, true) = false

  unfoldable pub metadata_allowed : List Str × Bool → List Str × Bool → Bool
  unfolding all_same_site origin_allowed
  metadata_allowed (sites, true) origins = not (length sites == 0) && all_same_site sites
  metadata_allowed (sites, false) origins = origin_allowed origins

  unfoldable pub refresh_request_allowed : Headers → Bool
  unfolding header_has_token header_tokens metadata_allowed
  refresh_request_allowed headers =
      header_has_token headers refresh_request_header (bytes "1")
      && metadata_allowed (header_tokens headers fetch_site_header)
          (header_tokens headers origin_header)

unfoldable pub is_resource_path : Str → Bool
unfolding contains
is_resource_path path =
    contains path (bytes "/v0/resource/") || not (contains path (bytes "/v0/management"))
