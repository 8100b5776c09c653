-- ===== src/Demo/Calls.antt =====
-- demo.js, lines 187 to 260: the write calls. Each runs after a sleep, in one go, on the state.
-- The kind of a rule or override is the text of the call, empty for a call without one.
pub mod Audit
pub mod Body
pub mod Conversations
pub mod Stale
use karna.Common.{
  ℕ, suc, ◌-◌, String, Bool, true, false, not, ◌&&◌, ◌||◌, Option, none, some, List, [], ◌∷◌, ◌++◌,
  if◌then◌else◌, length, take, drop,
}
use karna.Text.{Text, codes, text_eq, is_space, strip, trim, starts_with}
use karna.Value.{
  Value, Properties, undefined, null, bool, num, str, arr, obj, no_properties, property, is_truthy,
  get, get_field, is_object,
}
use text.Mathlib.Text.{◌==◌ as name_eq}
use karna.Demo.{
  ListField, rules_request, custom_secrules, rule_action_overrides, rule_response_overrides, Config,
  Service, Detail, settings_changed, rule_changed, entry_added, entry_changed, entry_removed, State,
  get_list, set_list, record_change, find_service, replace_service,
}
use karna.Demo.Etag.{
  Error, no_plugin, unknown_rule_kind, unknown_override_kind, needs_id, starts_with_secrule,
  needs_selector, needs_action_type, needs_response, type_error, syntax_error, Checked, throws,
  gives, check_entry,
}
use karna.Demo.Write.{
  Step, thrown, ok, on, or_throw, service, rule_field, override_field, secrule_text, is_skipped,
  Patch, patch_settings, set_at, remove_at, with_list, finish,
}

-- A write call of the demo, with its arguments.
pub data Call : Type 0 where
  patch_engine_call : Text → Properties → Call
  add_rule_call : Text → Text → Value → Call
  edit_rule_call : Text → Text → ℕ → Value → Text → Call
  delete_rule_call : Text → Text → ℕ → Text → Call
  add_override_call : Text → Text → Value → Call
  edit_override_call : Text → Text → ℕ → Value → Text → Call
  delete_override_call : Text → Text → ℕ → Text → Call

-- `parse(raw)?.id`
abbrev pub parsed_id : Option Value → Value
parsed_id none = undefined
parsed_id (some v) = get "id" v

abbrev pub native_id : Text → Value → Value
native_id kind id = if text_eq kind (codes "native") then id else undefined

-- The entry of a list that a call names; to index a list that is not there is a TypeError.
unfoldable pub entry_of : Option ListField → Service → ℕ → Text → Checked Text
unfolding check_entry
entry_of none svc index etag = throws type_error
entry_of (some field) svc index etag = check_entry (get_list field svc.config) index etag

-- Changes the list of a field that `entry_of` has found.
abbrev pub with_entries : (List Text → List Text) → Option ListField → Service → Service
with_entries f none svc = svc
with_entries f (some field) svc = with_list f field svc

-- `JSON.stringify` and `JSON.parse` are parameters, the latter with `none` for a text that it refuses.
-- `now` is what `Date.now()` gives.
module _ (stringify : Value → Text) (parse_json : Text → Option Value) (now : ℕ) where
  unfoldable pub rule_text : Text → Value → Checked Text
  unfolding text_eq is_truthy get secrule_text
  rule_text kind rule =
      if text_eq kind (codes "native")
      then (if is_object rule && is_truthy (get "id" rule)
          then gives (stringify rule)
          else throws needs_id)
      else secrule_text rule

  unfoldable pub override_text : Text → Value → Checked Text
  unfolding text_eq is_truthy get
  override_text kind entry =
      if not (is_object entry && is_object (get "selector" entry))
      then throws needs_selector
      else (if text_eq kind (codes "action") && not (is_truthy (get "type" (get "action" entry)))
          then throws needs_action_type
          else (if text_eq kind (codes "response") && not (is_truthy (get "response" entry))
              then throws needs_response
              else gives (stringify entry)))

  -- The service is changed in place field by field: where a clone throws, the fields before stay changed.
  unfoldable pub apply_engine : Text → Service → Properties → State → Step
  unfolding patch_settings finish replace_service
  apply_engine id svc body s =
      let p = patch_settings body svc.config.settings in
      let changed = record svc { config = record svc.config { settings = p.patched } } in
      if p.has_thrown
      then thrown syntax_error (record s { fleet = replace_service id changed s.fleet })
      else finish now (codes "engine_update") id changed (settings_changed p.before p.after) s

  unfoldable pub apply_add_rule : Text → Service → Text → Value → State → Step
  unfolding rule_field rule_text finish
  apply_add_rule id svc kind rule = on (or_throw unknown_rule_kind (rule_field kind)) (λ field.
      on (rule_text kind rule) (λ text.
        let changed = with_list (λ xs. xs ++ (text ∷ [])) field svc in
        finish now (codes "rule_add") id changed (
          rule_changed kind (length (get_list field changed.config) - 1)
            (native_id kind (get "id" rule)))))

  unfoldable pub apply_add_override : Text → Service → Text → Value → State → Step
  unfolding override_field override_text finish
  apply_add_override id svc kind entry =
      on (or_throw unknown_override_kind (override_field kind)) (λ field.
        on (override_text kind entry) (λ text.
          finish now (kind ++ codes "_override_add") id
            (with_list (λ xs. xs ++ (text ∷ [])) field svc) (entry_added entry)))

  unfoldable pub patch_engine : Text → Properties → State → Step
  unfolding service apply_engine
  patch_engine id body s = on (service id s) (λ svc. apply_engine id svc body) s

  unfoldable pub add_rule : Text → Text → Value → State → Step
  unfolding service apply_add_rule
  add_rule id kind rule s = on (service id s) (λ svc. apply_add_rule id svc kind rule) s

  unfoldable pub add_override : Text → Text → Value → State → Step
  unfolding service apply_add_override
  add_override id kind entry s = on (service id s) (λ svc. apply_add_override id svc kind entry) s

  unfoldable pub edit_rule : Text → Text → ℕ → Value → Text → State → Step
  unfolding service rule_field entry_of rule_text set_at finish
  edit_rule id kind index rule etag s =
      on (service id s)
        (λ svc. on (entry_of (rule_field kind) svc index etag) (λ raw.
          on (rule_text kind rule) (λ text.
            finish now (codes "rule_update") id
              (with_entries (set_at index text) (rule_field kind) svc)
              (rule_changed kind index (native_id kind (get "id" rule))))))
        s

  unfoldable pub delete_rule : Text → Text → ℕ → Text → State → Step
  unfolding service rule_field entry_of remove_at finish
  delete_rule id kind index etag s =
      on (service id s)
        (λ svc. on (entry_of (rule_field kind) svc index etag) (λ raw.
          finish now (codes "rule_remove") id (with_entries (remove_at index) (rule_field kind) svc)
            (rule_changed kind index (native_id kind (parsed_id (parse_json raw))))))
        s

  unfoldable pub edit_override : Text → Text → ℕ → Value → Text → State → Step
  unfolding service override_field entry_of override_text set_at finish
  edit_override id kind index entry etag s =
      on (service id s)
        (λ svc. on (entry_of (override_field kind) svc index etag) (λ raw.
          on (override_text kind entry) (λ text.
            finish now (kind ++ codes "_override_update") id
              (with_entries (set_at index text) (override_field kind) svc)
              (entry_changed index entry))))
        s

  unfoldable pub delete_override : Text → Text → ℕ → Text → State → Step
  unfolding service override_field entry_of remove_at finish
  delete_override id kind index etag s =
      on (service id s)
        (λ svc. on (entry_of (override_field kind) svc index etag) (λ raw.
          finish now (kind ++ codes "_override_remove") id
            (with_entries (remove_at index) (override_field kind) svc)
            (entry_removed index (parse_json raw))))
        s

  unfoldable pub run_call : Call → State → Step
  unfolding patch_engine add_rule edit_rule delete_rule add_override edit_override delete_override
  run_call (patch_engine_call id body) = patch_engine id body
  run_call (add_rule_call id kind rule) = add_rule id kind rule
  run_call (edit_rule_call id kind index rule etag) = edit_rule id kind index rule etag
  run_call (delete_rule_call id kind index etag) = delete_rule id kind index etag
  run_call (add_override_call id kind entry) = add_override id kind entry
  run_call (edit_override_call id kind index entry etag) = edit_override id kind index entry etag
  run_call (delete_override_call id kind index etag) = delete_override id kind index etag

abbrev pub plugin_of : Call → Text
plugin_of (patch_engine_call id body) = id
plugin_of (add_rule_call id kind rule) = id
plugin_of (edit_rule_call id kind index rule etag) = id
plugin_of (delete_rule_call id kind index etag) = id
plugin_of (add_override_call id kind entry) = id
plugin_of (edit_override_call id kind index entry etag) = id
plugin_of (delete_override_call id kind index etag) = id
