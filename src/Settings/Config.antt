-- ===== src/Settings/Config.antt =====
-- components/ServiceAdvancedSettings.jsx, lines 68 to 85: the configuration that the form of a service
-- starts from, and the changes that it sends. An empty or missing configuration has no properties.
pub mod Diff
use karna.Common.{String, Bool, true, false, ◌&&◌, Option, none, some, List, [], ◌∷◌, if◌then◌else◌}
use karna.Text.{Text, is_empty, codes, text_eq}
use karna.Value.{
  Value, undefined, null, bool, num, str, arr, obj, Properties, no_properties, property, get_field,
  set_field, spread,
}
use karna.Settings.Defaults.{default_settings, is_optional_body}
use karna.Dashboard.{is_text}

-- `v ?? fallback`
abbrev pub or_fallback : Value → Value → Value
or_fallback undefined fallback = fallback
or_fallback null fallback = fallback
or_fallback v fallback = v

-- `{ ...base, ...config }`
unfoldable pub spread_over : Properties → Properties → Properties
unfolding set_field
spread_over base no_properties = base
spread_over base (property k v fs) = spread_over (set_field k v base) fs

unfoldable pub as_properties : List (String × Value) → Properties
as_properties [] = no_properties
as_properties ((k, v) ∷ fs) = property k v (as_properties fs)

-- `[...v]`: `none` where it throws. A text in place of a list, which the schema of the plugin has nowhere,
-- counts as such a value too.
abbrev pub copied_list : Value → Option Value
copied_list (arr vs) = some (arr vs)
copied_list _ = none

abbrev pub set_copied : String → Option Value → Properties → Option Properties
set_copied key none out = none
set_copied key (some v) out = some (set_field key v out)

abbrev pub then_copy : Option Properties → (Properties → Option Properties) → Option Properties
then_copy none f = none
then_copy (some out) f = f out

-- One round of the loop of `createServiceConfig`, by the kind of the fallback.
unfoldable pub copy_setting : String → Value → Properties → Properties → Option Properties
unfolding get_field set_field
copy_setting key (arr vs) config out =
    set_copied key (copied_list (or_fallback (get_field key config) (arr vs))) out
copy_setting key (obj fs) config out =
    some (set_field key (obj (spread (or_fallback (get_field key config) (obj fs)))) out)
copy_setting key fallback config out = some (
    if is_optional_body key
    then set_field key (or_fallback (get_field key config) (str [])) out
    else out)

unfoldable pub copy_settings : List (String × Value) → Properties → Properties → Option Properties
unfolding copy_setting
copy_settings [] config out = some out
copy_settings ((key, fallback) ∷ rest) config out =
    then_copy (copy_setting key fallback config out) (copy_settings rest config)

unfoldable pub create_service_config : Properties → Option Properties
unfolding copy_settings spread_over as_properties default_settings
create_service_config config =
    copy_settings default_settings config (spread_over (as_properties default_settings) config)

-- Whether two values are printed alike by `JSON.stringify`, which is a parameter.
module _ (same_json : Value → Value → Bool) where
  -- The value that a change is sent with.
  unfoldable pub sent_value : String → Value → Value
  unfolding is_text
  sent_value key v = if is_optional_body key && is_text [] v then null else v

  unfoldable pub diff_from :
      List (String × Value) → Properties → Properties → Properties → Properties
  unfolding get_field set_field sent_value
  diff_from [] before after changes = changes
  diff_from ((key, fallback) ∷ keys) before after changes = diff_from keys before after (
      if same_json (get_field key before) (get_field key after)
      then changes
      else set_field key (sent_value key (get_field key after)) changes)

  unfoldable pub diff_service_config : Properties → Properties → Properties
  unfolding diff_from default_settings
  diff_service_config before after = diff_from default_settings before after no_properties
