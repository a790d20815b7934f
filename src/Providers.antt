-- ===== src/Providers.antt =====
-- internal/providers/provider.go: what is read from a credential document, and the observation of
-- a weekly reset. Decoding base64 and then JSON (packages encoding/base64 and encoding/json) is the
-- argument `decode_payload`.
use cpa_plugin_reset_priorit.Times.{Time}
use cpa_plugin_reset_priorit.Json.{
  Json, null, boolean, number, string, array, object, Fields, get, as_object, root_object,
}
use cpa_plugin_reset_priorit.Base.{
  ◌==◌, if◌then◌else◌, Str, bytes, str_eq, is_empty, trim_space, Bool, not, ◌&&◌, Option, none,
  some, List, [], ◌∷◌,
}

pub data Result {ℓ} (A : Type ℓ) : Type ℓ where
  ok : A → Result A
  err : Str → Result A

pub record Credentials : Type 0 where
  pub access_token : Str
  pub account_id : Str

pub record Observation : Type 0 where
  pub has_weekly : Bool
  pub reset_at : Time
  pub observed_at : Time

text_of : Option Json → Str
text_of none = []
text_of (some null) = []
text_of (some (boolean _)) = []
text_of (some (number _)) = []
text_of (some (string s)) = trim_space s
text_of (some (array _)) = []
text_of (some (object _)) = []

unfoldable pub string_field : Fields → Str → Str
unfolding text_of
string_field obj key = text_of (get key obj)

unfoldable pub first_string_field : Fields → List Str → Str
unfolding string_field
first_string_field obj [] = []
first_string_field obj (key ∷ keys) =
    let v = string_field obj key in
    let rest = first_string_field obj keys in if is_empty v then rest else v

-- The part before the first dot, and what follows the dot if there is one.
unfoldable pub before_dot : Str → Str
before_dot [] = []
before_dot (c ∷ s) = let rest = before_dot s in if c == b'.' then [] else c ∷ rest

unfoldable pub after_dot : Str → Option Str
after_dot [] = none
after_dot (c ∷ s) = let rest = after_dot s in if c == b'.' then some s else rest

-- `strings.TrimRight(s, "=")`
unfoldable pub trim_padding : Str → Str
trim_padding [] = []
trim_padding (c ∷ s) =
    let rest = trim_padding s in if c == b'=' && is_empty rest then [] else c ∷ rest

unfoldable pub or_else : Str → Str → Str
or_else s t = if is_empty s then t else s

nested_claim : Option Fields → Str
unfolding string_field
nested_claim none = []
nested_claim (some auth) = string_field auth (bytes "chatgpt_account_id")

claims_account : Option Fields → Str
unfolding string_field or_else nested_claim as_object
claims_account none = []
claims_account (some claims) =
    or_else (string_field claims (bytes "https://api.openai.com/auth.chatgpt_account_id")) (
      or_else (nested_claim (as_object (get (bytes "https://api.openai.com/auth") claims)))
        (string_field claims (bytes "chatgpt_account_id")))

no_access_token : Str
no_access_token = bytes "auth json has no access token"

invalid_document : Str
invalid_document = bytes "parse auth json: invalid document"

module _ (decode_payload : Str → Option Json) where
  unfoldable pub account_id_from_id_token : Str → Str
  unfolding claims_account before_dot after_dot trim_padding root_object
  account_id_from_id_token token = elim (after_dot token) [
    | none ↦ []
    | some rest ↦ claims_account (root_object (decode_payload (trim_padding (before_dot rest))))
  ]

  nested_field : Option Fields → List Str → Str
  unfolding first_string_field
  nested_field none keys = []
  nested_field (some nested) keys = first_string_field nested keys

  credentials_of : Str → Fields → Result Credentials
  unfolding string_field first_string_field or_else nested_field account_id_from_id_token
      no_access_token as_object
  credentials_of provider root =
      let tokens = as_object (get (bytes "tokens") root) in
      let ids = bytes "account_id" ∷ bytes "chatgpt_account_id" ∷ [] in
      let access =
        or_else (string_field root (bytes "access_token"))
          (nested_field tokens (bytes "access_token" ∷ [])) in
      let account = or_else (first_string_field root ids) (nested_field tokens ids) in
      let id_token =
        or_else (string_field root (bytes "id_token"))
          (nested_field tokens (bytes "id_token" ∷ [])) in
      if is_empty access
      then err no_access_token
      else if str_eq provider (bytes "codex") && is_empty account && not (is_empty id_token)
      then ok (record { access_token = access; account_id = account_id_from_id_token id_token })
      else ok (record { access_token = access; account_id = account })

  unfoldable pub extract_credentials : Str → Option Json → Result Credentials
  unfolding credentials_of invalid_document root_object
  extract_credentials provider doc = elim (root_object doc) [
    | none ↦ err invalid_document
    | some root ↦ credentials_of provider root
  ]
