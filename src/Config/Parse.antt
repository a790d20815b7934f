-- ===== src/Config/Parse.antt =====
-- internal/config/config.go: Parse. The YAML library is a parameter: it decodes the subtree into the nodes
-- and values of the struct's keys. So are time.ParseDuration and time.LoadLocation. Which of several bad keys
-- is reported is that of the order below.
use cpa_plugin_reset_priorit.Times.{Duration, second}
use cpa_plugin_reset_priorit.Config.{Config, ConfigError, validate, provider_claude, provider_codex}
use cpa_plugin_reset_priorit.Base.{
  if◌then◌else◌, member, Str, bytes, str_eq, is_empty, to_lower, trim_space, ℤ, ◌*ℤ◌, ltb_ℤ, pos,
  negsuc, ◌-◌, ◌*◌, ◌/◌, Bool, true, false, not, ◌||◌, Option, none, some, List, [], ◌∷◌, ◌++◌,
}

-- A YAML node: its resolved tag, whether it is a scalar, and what decoding it gives.
pub record Node : Type 0 where
  pub tag : Str
  pub scalar : Bool
  pub as_int : Option ℤ
  pub as_string : Option Str

-- `rawConfig` before the custom decoders have run; `none` is an absent key.
pub record RawConfig : Type 0 where
  pub enabled : Option Bool
  pub reconcile_interval : Option Node
  pub refresh_interval : Option Node
  pub request_timeout : Option Node
  pub priority_floor : Option Node
  pub priority_step : Option Node
  pub quarantine : Option Node
  pub manage_claude : Option Bool
  pub manage_codex : Option Bool
  pub providers : Option (List Str)
  pub dry_run : Option Bool
  pub display_timezone : Option Str
  pub codex_activation : Option Bool

pub record Libraries : Type 0 where
  pub unmarshal : Str → Option RawConfig
  pub parse_duration : Str → Option Duration
  pub load_location : Str → Option Str

pub data ParseError : Type 0 where
  bad_yaml bad_duration bad_integer : ParseError
  unsupported_provider : Str → ParseError
  invalid : ConfigError → ParseError

pub data Parsed {ℓ} (A : Type ℓ) : Type ℓ where
  parsed : A → Parsed A
  rejected : ParseError → Parsed A

infixl 5 ◌>>=◌
abbrev pub ◌>>=◌ {ℓ κ} : {A : Type ℓ} {B : Type κ} → Parsed A → (A → Parsed B) → Parsed B
rejected reason >>= build = rejected reason
parsed found >>= build = build found

abbrev pub max_seconds : ℤ
max_seconds = pos (9223372036854775807 / second)

abbrev pub min_seconds : ℤ
min_seconds = negsuc (9223372036854775808 / second - 1)

-- `duration.UnmarshalYAML`
seconds_of : Option ℤ → Parsed Duration
seconds_of none = rejected bad_duration
seconds_of (some n) =
    if ltb_ℤ max_seconds n || ltb_ℤ n min_seconds
    then rejected bad_duration
    else parsed (n *ℤ pos second)

text_duration : (Str → Option Duration) → Option Str → Parsed Duration
text_duration parse none = rejected bad_duration
text_duration parse (some text) = elim (parse (trim_space text)) [
  | none ↦ rejected bad_duration
  | some d ↦ parsed d
]

unfoldable pub unmarshal_duration : (Str → Option Duration) → Node → Parsed Duration
unfolding str_eq seconds_of text_duration
unmarshal_duration parse node =
    if str_eq node.tag (bytes "!!int")
    then seconds_of node.as_int
    else if str_eq node.tag (bytes "!!str")
    then text_duration parse node.as_string
    else rejected bad_duration

-- `strictInt.UnmarshalYAML`
unfoldable pub unmarshal_strict_int : Node → Parsed ℤ
unfolding str_eq
unmarshal_strict_int node =
    if not node.scalar || not (str_eq node.tag (bytes "!!int"))
    then rejected bad_integer
    else elim node.as_int [ none ↦ rejected bad_integer | some n ↦ parsed n ]

-- A key with a custom decoder.
unfoldable pub decode_key : {A : Type 0} → (Node → Parsed A) → Option Node → Parsed (Option A)
decode_key decode none = parsed none
decode_key decode (some node) = decode node >>= λ a. parsed (some a)

unfoldable pub or_default : {A : Type 0} → Option A → A → A
or_default none a = a
or_default (some b) a = b

abbrev pub default_config : Config
default_config = record {
  enabled = false;
  reconcile_interval = pos (3600 * second);
  request_timeout = pos (10 * second);
  priority_floor = pos 100;
  priority_step = pos 100;
  quarantine_priority = pos 0;
  manage_claude = true;
  manage_codex = true;
  dry_run = false;
  display_timezone = bytes "UTC";
  warnings = [];
}

-- The loop over the providers alias.
unfoldable pub manage_listed : List Str → Config → Parsed Config
manage_listed [] c = parsed c
manage_listed (p ∷ ps) c =
    let name = to_lower (trim_space p) in
    elim (str_eq name provider_claude) [
      | true ↦ manage_listed ps (record c { manage_claude = true })
      | false ↦ elim (str_eq name provider_codex) [
        | true ↦ manage_listed ps (record c { manage_codex = true })
        | false ↦ rejected (unsupported_provider p)
      ]
    ]

unfoldable pub manage_alias : Option (List Str) → Config → Parsed Config
manage_alias none c = parsed c
manage_alias (some ps) c =
    manage_listed ps (record c { manage_claude = false; manage_codex = false })

-- `resolveDisplayTimezone`: the name, and a warning if there is one. The warnings' texts are shortened.
unfoldable pub resolve_display_timezone : (Str → Option Str) → Str → Str × List Str
unfolding trim_space to_lower str_eq member
resolve_display_timezone load value =
    let trimmed = trim_space value in
    let name = to_lower trimmed in
    if is_empty name || str_eq name (bytes "utc") || str_eq name (bytes "z")
    then (bytes "UTC", [])
    else if str_eq name (bytes "local")
    then (bytes "Local", [])
    else elim (load trimmed) [
      | none ↦ (bytes "UTC", bytes "display-timezone is not a known IANA zone" ∷ [])
      | some zone ↦ (zone, [])
    ]

unfoldable pub set_timezone : (Str → Option Str) → Option Str → Config → Config
set_timezone load none c = c
set_timezone load (some value) c =
    let (zone, warning) = resolve_display_timezone load value in
    record c { display_timezone = zone; warnings = c.warnings ++ warning }

unfoldable pub warn_activation : Option Bool → Config → Config
unfolding or_default
warn_activation activation c =
    if or_default activation false
    then record c { warnings = c.warnings ++ bytes "codex-reset-window-activation is ignored" ∷ [] }
    else c

unfoldable pub check : Config → Parsed Config
check c = elim (validate c) [ none ↦ parsed c | some e ↦ rejected (invalid e) ]

unfoldable pub or_alias : Option Duration → Option Duration → Option Duration
or_alias none alias = alias
or_alias (some d) alias = some d

module _ (l : Libraries) where
  -- The keys that have a plain value, laid over the defaults.
  unfoldable pub with_numbers : RawConfig → Parsed Config
  with_numbers raw = do
    interval ← decode_key (unmarshal_duration l.parse_duration) raw.reconcile_interval
    refresh ← decode_key (unmarshal_duration l.parse_duration) raw.refresh_interval
    timeout ← decode_key (unmarshal_duration l.parse_duration) raw.request_timeout
    floor ← decode_key unmarshal_strict_int raw.priority_floor
    step ← decode_key unmarshal_strict_int raw.priority_step
    quarantine ← decode_key unmarshal_strict_int raw.quarantine
    parsed (record default_config {
      enabled = or_default raw.enabled false;
      reconcile_interval = or_default (or_alias interval refresh) default_config.reconcile_interval;
      request_timeout = or_default timeout default_config.request_timeout;
      priority_floor = or_default floor (pos 100);
      priority_step = or_default step (pos 100);
      quarantine_priority = or_default quarantine (pos 0);
    })

  -- The explicit flags win over the alias.
  unfoldable pub with_flags : RawConfig → Config → Config
  with_flags raw c = warn_activation raw.codex_activation (
      set_timezone l.load_location raw.display_timezone (record c {
        manage_claude = or_default raw.manage_claude c.manage_claude;
        manage_codex = or_default raw.manage_codex c.manage_codex;
        dry_run = or_default raw.dry_run false;
      }))

  unfoldable pub configure_raw : RawConfig → Parsed Config
  configure_raw raw = do
    c ← with_numbers raw
    managed ← manage_alias raw.providers c
    check (with_flags raw managed)

  unfoldable pub parse : Str → Parsed Config
  parse config_yaml =
      if is_empty (trim_space config_yaml)
      then parsed default_config
      else elim (l.unmarshal config_yaml) [
        | none ↦ rejected bad_yaml
        | some raw ↦ configure_raw raw
      ]
