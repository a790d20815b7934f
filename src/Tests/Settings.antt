-- ===== src/Tests/Settings.antt =====
-- A configuration subtree that manages codex alone.
use cpa_plugin_reset_priorit.Config.{Config, provider_claude, provider_codex, validate}
use cpa_plugin_reset_priorit.Config.Parse.{
  Node, RawConfig, Libraries, parsed, or_default, parse, configure_raw, with_numbers, with_flags,
  manage_alias, manage_listed, check, decode_key, unmarshal_duration, unmarshal_strict_int,
  or_alias, set_timezone, warn_activation, default_config,
}
use cpa_plugin_reset_priorit.Config.Sound.{IsSane, listed, parse_sound}
use cpa_plugin_reset_priorit.Times.{second}
use cpa_plugin_reset_priorit.Base.{
  bytes, str_eq, is_empty, to_lower, trim_space, ◌*ℤ◌, pos, ◌*◌, ◌≡◌, refl, true, false, none, some,
  [], ◌∷◌,
}

abbrev ninety : Node
ninety = record { tag = bytes "!!int"; scalar = true; as_int = some (pos 90); as_string = none }

abbrev raw : RawConfig
raw = record {
  enabled = some true;
  reconcile_interval = some ninety;
  refresh_interval = none;
  request_timeout = none;
  priority_floor = some ninety;
  priority_step = none;
  quarantine = none;
  manage_claude = none;
  manage_codex = none;
  providers = some (bytes " Codex" ∷ []);
  dry_run = some true;
  display_timezone = none;
  codex_activation = none;
}

abbrev libraries : Libraries
libraries = record {
  unmarshal = λ _. some raw;
  parse_duration = λ _. none;
  load_location = λ _. none;
}

abbrev settings : Config
settings = record default_config {
  enabled = true;
  reconcile_interval = pos (90 * second);
  priority_floor = pos 90;
  manage_claude = false;
  dry_run = true;
}

settings_parsed : parse libraries (bytes "enabled: true") ≡ parsed settings
unfolding parse configure_raw with_numbers with_flags manage_alias manage_listed check decode_key
    unmarshal_duration unmarshal_strict_int or_default or_alias set_timezone warn_activation
    validate trim_space to_lower str_eq ◌*ℤ◌
settings_parsed = refl

settings_given : is_empty (trim_space (bytes "enabled: true")) ≡ false
unfolding trim_space
settings_given = refl

parse_sound_example :
    IsSane settings
    × (settings.manage_claude ≡ or_default raw.manage_claude (listed raw.providers provider_claude))
    × (settings.manage_codex ≡ or_default raw.manage_codex (listed raw.providers provider_codex))
parse_sound_example =
    parse_sound libraries (bytes "enabled: true") {raw = raw} {c = settings} settings_given refl
      settings_parsed
