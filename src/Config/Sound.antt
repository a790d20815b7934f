-- ===== src/Config/Sound.antt =====
-- What a configuration that Parse returns satisfies.
use cpa_plugin_reset_priorit.Config.{Config, ConfigError, validate, provider_claude, provider_codex}
use cpa_plugin_reset_priorit.Config.Parse.{
  RawConfig, Libraries, ParseError, Parsed, parsed, rejected, or_default, manage_listed,
  manage_alias, with_numbers, with_flags, configure_raw, parse, check, set_timezone,
  warn_activation,
}
use cpa_plugin_reset_priorit.Base.{
  Bool-cases, Str, str_eq, is_empty, to_lower, trim_space, any, ◌+ℤ◌, ◌≤ℤ◌, pos, str_eq→eq, ◌≡◌,
  refl, sym, ap, subst, ◌∙◌, ◌≢◌, ◌⊎◌, inl, inr, Bool, true, false, ◌||◌, Option, none, some, List,
  [], ◌∷◌, arith,
}

-- The ranges that the engine relies on.
pub record IsSane (c : Config) : Type 0 where
  pub interval : pos 1 ≤ℤ c.reconcile_interval
  pub timeout : pos 1 ≤ℤ c.request_timeout
  pub step : pos 1 ≤ℤ c.priority_step
  pub floor : pos 1 ≤ℤ c.priority_floor
  pub quarantine : pos 0 ≤ℤ c.quarantine_priority
  pub below : (c.quarantine_priority +ℤ pos 1) ≤ℤ c.priority_floor

validate-IsSane : (c : Config) → validate c ≡ none → IsSane c
unfolding validate ◌+ℤ◌
validate-IsSane c h = record {
  interval = ground arith;
  timeout = ground arith;
  step = ground arith;
  floor = ground arith;
  quarantine = ground arith;
  below = ground arith;
}

-- Whether the providers alias, if it is there, names a provider.
abbrev pub listed : Option (List Str) → Str → Bool
listed none provider = true
listed (some ps) provider = any (λ p. str_eq (to_lower (trim_space p)) provider) ps

record Flags (c c' : Config) (claude codex : Bool) : Type 0 where
  claude_flag : c'.manage_claude ≡ (c.manage_claude || claude)
  codex_flag : c'.manage_codex ≡ (c.manage_codex || codex)

claude_is_not_codex :
    (name : Str) → str_eq name provider_claude ≡ true → str_eq name provider_codex ≡ false
unfolding str_eq
claude_is_not_codex name h = rw (str_eq→eq name provider_claude h)

manage_listed-claude :
    (p : Str) (ps : List Str) (c : Config)
    → str_eq (to_lower (trim_space p)) provider_claude ≡ true
    → manage_listed (p ∷ ps) c ≡ manage_listed ps (record c { manage_claude = true })
unfolding manage_listed
manage_listed-claude p ps c e = rw (e, manage_listed)

manage_listed-codex :
    (p : Str) (ps : List Str) (c : Config)
    → str_eq (to_lower (trim_space p)) provider_claude ≡ false
    → str_eq (to_lower (trim_space p)) provider_codex ≡ true
    → manage_listed (p ∷ ps) c ≡ manage_listed ps (record c { manage_codex = true })
unfolding manage_listed
manage_listed-codex p ps c e f = rw (e, manage_listed) (rw (f, manage_listed))

manage_listed-other :
    (p : Str) (ps : List Str) (c : Config) {c' : Config}
    → str_eq (to_lower (trim_space p)) provider_claude ≡ false
    → str_eq (to_lower (trim_space p)) provider_codex ≡ false
    → manage_listed (p ∷ ps) c ≢ parsed c'
unfolding manage_listed
manage_listed-other p ps c e f h = ground arith

listed_none : (c : Config) {c' : Config} → manage_listed [] c ≡ parsed c' → Flags c c' false false
unfolding manage_listed
listed_none c h = record { claude_flag = ground arith; codex_flag = ground arith }

manage_listed-Flags :
    (ps : List Str) (c : Config) {c' : Config}
    → manage_listed ps c ≡ parsed c'
    → Flags c c' (listed (some ps) provider_claude) (listed (some ps) provider_codex)
manage_listed-Flags [] c h = listed_none c h
manage_listed-Flags (p ∷ ps) c h =
    let name = to_lower (trim_space p) in
    elim (Bool-cases (str_eq name provider_claude)) [
      | inl e ↦
          let f =
            manage_listed-Flags ps (record c { manage_claude = true })
              (sym (manage_listed-claude p ps c e) ∙ h) in
          let g = claude_is_not_codex name e in
          let x = f.claude_flag in
          let y = f.codex_flag in record { claude_flag = ground arith; codex_flag = ground arith }
      | inr e ↦ elim (Bool-cases (str_eq name provider_codex)) [
        | inl k ↦
            let f =
              manage_listed-Flags ps (record c { manage_codex = true })
                (sym (manage_listed-codex p ps c e k) ∙ h) in
            let x = f.claude_flag in
            let y = f.codex_flag in record { claude_flag = ground arith; codex_flag = ground arith }
        | inr k ↦ absurd (manage_listed-other p ps c e k h)
      ]
    ]

manage_alias-Flags :
    (alias : Option (List Str)) (c : Config) {c' : Config}
    → manage_alias alias c ≡ parsed c'
    → c.manage_claude ≡ true
    → c.manage_codex ≡ true
    → (c'.manage_claude ≡ listed alias provider_claude)
      × (c'.manage_codex ≡ listed alias provider_codex)
unfolding manage_alias
manage_alias-Flags none c h a b = (ground arith, ground arith)
manage_alias-Flags (some ps) c h a b =
    let f = manage_listed-Flags ps (record c { manage_claude = false; manage_codex = false }) h in
    (f.claude_flag, f.codex_flag)

Option-cases : {A : Type 0} (o : Option A) → ((a : A) × (o ≡ some a)) ⊎ (o ≡ none)
Option-cases none = inr refl
Option-cases (some a) = inl (a, refl)

check-same : (c : Config) {c' : Config} → validate c ≡ none → check c ≡ parsed c' → c ≡ c'
unfolding check
check-same c n h = ground arith

check-refused :
    (c : Config) {c' : Config} {e : ConfigError} → validate c ≡ some e → check c ≢ parsed c'
unfolding check
check-refused c n h = ground arith

check-valid : (c : Config) {c' : Config} → check c ≡ parsed c' → (validate c' ≡ none) × (c ≡ c')
unfolding check
check-valid c h = elim (Option-cases (validate c)) [
  | inr n ↦ let e = check-same c n h in (subst (λ x. validate x ≡ none) e n, e)
  | inl (x, n) ↦ absurd (check-refused c n h)
]

timezone-keep :
    (load : Str → Option Str) (value : Option Str) (c : Config)
    → ((set_timezone load value c).manage_claude ≡ c.manage_claude)
      × ((set_timezone load value c).manage_codex ≡ c.manage_codex)
unfolding set_timezone
timezone-keep load none c = (refl, refl)
timezone-keep load (some value) c = (refl, refl)

activation-keep :
    (activation : Option Bool) (c : Config)
    → ((warn_activation activation c).manage_claude ≡ c.manage_claude)
      × ((warn_activation activation c).manage_codex ≡ c.manage_codex)
unfolding warn_activation
activation-keep none c = (refl, refl)
activation-keep (some true) c = (refl, refl)
activation-keep (some false) c = (refl, refl)

with_flags-keep :
    (l : Libraries) (raw : RawConfig) (c : Config)
    → ((with_flags l raw c).manage_claude ≡ or_default raw.manage_claude c.manage_claude)
      × ((with_flags l raw c).manage_codex ≡ or_default raw.manage_codex c.manage_codex)
unfolding with_flags
with_flags-keep l raw c =
    let a = activation-keep raw.codex_activation _ in
    let t = timezone-keep l.load_location raw.display_timezone _ in (a.0 ∙ t.0, a.1 ∙ t.1)

-- The numbers are laid over the defaults, which manage both providers.
with_numbers-flags :
    (l : Libraries) (raw : RawConfig) {c : Config}
    → with_numbers l raw ≡ parsed c
    → (c.manage_claude ≡ true) × (c.manage_codex ≡ true)
unfolding with_numbers
with_numbers-flags l raw h = (ground arith, ground arith)

Parsed-cases :
    {A : Type 0} (r : Parsed A) → ((a : A) × (r ≡ parsed a)) ⊎ ((e : ParseError) × (r ≡ rejected e))
Parsed-cases (parsed a) = inl (a, refl)
Parsed-cases (rejected e) = inr (e, refl)

record Raised (l : Libraries) (raw : RawConfig) (c : Config) : Type 0 where
  first : Config
  managed : Config
  numbers : with_numbers l raw ≡ parsed first
  alias : manage_alias raw.providers first ≡ parsed managed
  checked : check (with_flags l raw managed) ≡ parsed c

configure_raw-Raised :
    (l : Libraries) (raw : RawConfig) {c : Config} → configure_raw l raw ≡ parsed c → Raised l raw c
unfolding configure_raw
configure_raw-Raised l raw h = elim (Parsed-cases (with_numbers l raw)) [
  | inr (x, e) ↦ absurd (ground arith)
  | inl (a, e) ↦ elim (Parsed-cases (manage_alias raw.providers a)) [
    | inr (x, f) ↦ absurd (ground arith)
    | inl (b, f) ↦ record { first = a; managed = b; numbers = e; alias = f; checked = ground arith }
  ]
]

parse-raw :
    (l : Libraries) (config_yaml : Str) {raw : RawConfig}
    → is_empty (trim_space config_yaml) ≡ false
    → l.unmarshal config_yaml ≡ some raw
    → parse l config_yaml ≡ configure_raw l raw
unfolding parse
parse-raw l config_yaml e u = rw (e, u, parse)

-- If Parse accepts a subtree that is not blank and that decodes, then the interval, the timeout, the step
-- and the floor of the configuration are positive, and the quarantine priority is at least 0 and
-- below the floor; and each provider is managed as its explicit flag says, or else, if there is a list
-- of providers, exactly if the list names it, and if there is no list either, it is managed.
pub parse_sound :
    (l : Libraries) (config_yaml : Str) {raw : RawConfig} {c : Config}
    → is_empty (trim_space config_yaml) ≡ false
    → l.unmarshal config_yaml ≡ some raw
    → parse l config_yaml ≡ parsed c
    → IsSane c
      × (c.manage_claude ≡ or_default raw.manage_claude (listed raw.providers provider_claude))
      × (c.manage_codex ≡ or_default raw.manage_codex (listed raw.providers provider_codex))
parse_sound l config_yaml {raw} {c} e u h =
    let r = configure_raw-Raised l raw (sym (parse-raw l config_yaml e u) ∙ h) in
    let (valid, same) = check-valid (with_flags l raw r.managed) r.checked in
    let k = with_flags-keep l raw r.managed in
    let n = with_numbers-flags l raw r.numbers in
    let m = manage_alias-Flags raw.providers r.first r.alias n.0 n.1 in
    (
      validate-IsSane c valid,
      ap (λ (x : Config). x.manage_claude) (sym same) ∙ k.0 ∙ ap (or_default raw.manage_claude) m.0,
      ap (λ (x : Config). x.manage_codex) (sym same) ∙ k.1 ∙ ap (or_default raw.manage_codex) m.1,
    )
