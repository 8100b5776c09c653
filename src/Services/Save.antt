-- ===== src/Services/Save.antt =====
-- views/Services.jsx, lines 209 to 224 and 355 to 402: the switch of the mode, and the dialog of a service.
pub mod Unchanged
use karna.Common.{
  String, Bool, true, false, not, ◌&&◌, ◌||◌, Option, none, some, List, [], ◌∷◌, ◌++◌, map,
  if◌then◌else◌,
}
use karna.Text.{Text, codes, is_empty}
use karna.Value.{
  Value, undefined, null, bool, str, obj, arr, no_elements, Properties, no_properties, property,
  get, get_field, set_field, is_truthy, to_text, spread,
}
use karna.Mutation.{Effect, requested, Reply, Mutation, Run, run, then_close}
use karna.Settings.Config.{
  or_fallback, spread_over, as_properties, copied_list, create_service_config, diff_service_config,
}
use karna.Services.{Service, own, config, observed}
use karna.Services.Tables.{default_rulesets, engine_flags}

-- `api.patchEngine(pluginId, body)`
pub record Patch : Type 0 where
  pub plugin_id : Value
  pub body : Properties

-- `v === b`
abbrev pub is_bool : Bool → Value → Bool
is_bool b (bool c) = if b then c else not c
is_bool b _ = false

abbrev pub mode_question : Bool → Service → Text
mode_question true s =
    codes "Requests matching a rule will be rejected with a 403. In the last 24 hours "
    ++ (to_text (get "block_rate" (observed s))
        ++ codes
            "% of this service's traffic matched a rule — those requests would have been blocked.")
mode_question false s =
    codes
      "Karna keeps inspecting and logging every request, but stops blocking. Matches only show up in the audit trail."

-- `setMode(s, blocking)`, which does nothing on a service that is in this mode or without the plugin
unfoldable pub set_mode : Service → Bool → Reply → Mutation → Option (Run Patch)
unfolding get is_truthy to_text run
set_mode s blocking reply m =
    if is_bool blocking (get "engine_blocking_mode" (config s))
      || not (is_truthy (get "plugin_id" (own s)))
    then none
    else some (
        run
          (requested (record {
            plugin_id = get "plugin_id" (own s);
            body = property "engine_blocking_mode" (bool blocking) no_properties;
          })
            ∷ [])
          (mode_question blocking s) reply m)

-- The state of the dialog.
pub record Draft : Type 0 where
  pub blocking : Value
  pub level : Value
  pub crs : Value
  pub rulesets : Properties
  pub plugins : Value
  pub flags : Properties
  pub base : Properties
  pub edited : Properties
  pub password : Text
  pub clear_password : Bool

abbrev pub or_else : Value → Value → Value
or_else v fallback = if is_truthy v then v else fallback

abbrev pub flags_of : List (String × Bool) → Properties
flags_of [] = no_properties
flags_of ((key, b) ∷ flags) = property key (bool b) (flags_of flags)

-- `Object.fromEntries(ENGINE_FLAGS.map(([key]) => [key, config[key] ?? true]))`
abbrev pub read_flags : List (String × Text × Text) → Properties → Properties
read_flags [] c = no_properties
read_flags ((key, label, description) ∷ flags) c =
    property key (or_fallback (get_field key c) (bool true)) (read_flags flags c)

abbrev pub draft_of : Properties → Option Value → Option Properties → Option Draft
draft_of c (some plugins) (some base) = some (record {
  blocking = get_field "engine_blocking_mode" c;
  level = get_field "paranoia_level" c;
  crs = get_field "coreruleset_enabled" c;
  rulesets =
      spread (or_else (get_field "coreruleset_rulesets" c) (obj (flags_of default_rulesets)));
  plugins = plugins;
  flags = read_flags engine_flags c;
  base = base;
  edited = base;
  password = [];
  clear_password = false;
})
draft_of c _ _ = none

-- The effect that opens a service, for its configuration; `none` where a list is no list, which throws.
unfoldable pub open_draft : Properties → Option Draft
unfolding get_field is_truthy
open_draft c =
    draft_of c (copied_list (or_else (get_field "crs_plugins_enabled" c) (arr no_elements)))
      (create_service_config c)

-- The policy, which every save sends.
abbrev pub policy_of : Draft → Properties
policy_of d =
    spread_over
      (property "engine_blocking_mode" d.blocking (
        property "paranoia_level" d.level (
          property "coreruleset_enabled" d.crs (
            property "coreruleset_rulesets" (obj d.rulesets)
              (property "crs_plugins_enabled" d.plugins no_properties)))))
      d.flags

-- Whether two values are printed alike by `JSON.stringify` is a parameter.
module _ (same_json : Value → Value → Bool) where
  unfoldable pub body_of : Draft → Properties
  unfolding spread_over set_field
  body_of d =
      let body = spread_over (policy_of d) (diff_service_config same_json d.base d.edited) in
      if d.clear_password
      then set_field "redis_password" null body
      else if is_empty d.password
      then body
      else set_field "redis_password" (str d.password) body

  unfoldable pub save : Service → Draft → Reply → Mutation → Run Patch
  unfolding body_of get run
  save s d reply m = then_close (
      run (requested (record { plugin_id = get "plugin_id" (own s); body = body_of d }) ∷ [])
        (codes
          "The Karna policy applies to live traffic immediately. The Kong service, upstream, and routes remain unchanged.")
        reply m)
