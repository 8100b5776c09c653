-- ===== src/Demo/Write.antt =====
-- demo.js, lines 172 to 214: what the write calls are made of, and how they change the state.
use karna.Common.{
  ℕ, suc, String, Bool, true, false, ◌||◌, Option, none, some, List, ◌∷◌, ◌++◌, if◌then◌else◌, take,
  drop,
}
use karna.Text.{Text, codes, text_eq, is_space, strip, trim, starts_with}
use karna.Value.{Value, Properties, str, no_properties, property, get_field, set_field, or_null}
use text.Mathlib.Text.{◌==◌ as name_eq}
use karna.Demo.{
  ListField, rules_request, custom_secrules, rule_action_overrides, rule_response_overrides,
  Service, Detail, State, get_list, set_list, record_change, find_service, replace_service,
}
use karna.Demo.Clone.{clone}
use karna.Demo.Etag.{Error, no_plugin, starts_with_secrule, Checked, throws, gives}

-- What a call comes to: an error that it threw, or `{ ok: true }`; with the state that it leaves.
pub data Step : Type 0 where
  thrown : Error → State → Step
  ok : State → Step

-- Goes on with a checked value, and throws an error on.
unfoldable pub on : {A : Type 0} → Checked A → (A → State → Step) → State → Step
on (throws e) next s = thrown e s
on (gives a) next s = next a s

abbrev pub or_throw : {A : Type 0} → Error → Option A → Checked A
or_throw e none = throws e
or_throw e (some a) = gives a

-- `service(pluginId)`
unfoldable pub service : Text → State → Checked Service
unfolding find_service
service id s = or_throw no_plugin (find_service id s.fleet)

-- `RULE_FIELD[kind]`, `OVERRIDE_FIELD[kind]`
unfoldable pub rule_field : Text → Option ListField
unfolding text_eq
rule_field kind =
    if text_eq kind (codes "native")
    then some rules_request
    else (if text_eq kind (codes "seclang") then some custom_secrules else none)

unfoldable pub override_field : Text → Option ListField
unfolding text_eq
override_field kind =
    if text_eq kind (codes "action")
    then some rule_action_overrides
    else (if text_eq kind (codes "response") then some rule_response_overrides else none)

-- A SecLang rule, which is a text.
unfoldable pub secrule_text : Value → Checked Text
unfolding strip is_space
secrule_text (str t) =
    if starts_with (codes "SecRule") (trim t) then gives (trim t) else throws starts_with_secrule
secrule_text _ = throws starts_with_secrule

-- `redis_password` and `clear_redis_password` are passed over.
abbrev pub is_skipped : String → Bool
is_skipped field = name_eq field "redis_password" || name_eq field "clear_redis_password"

-- The settings after the loop of `applyEngine`, what it notes of them before and after, and whether a clone threw
-- and ended it.
pub record Patch : Type 0 where
  pub patched : Properties
  pub before : Properties
  pub after : Properties
  pub has_thrown : Bool

-- `svc.config[field] = clone(value)`, which leaves the settings as they are where the clone throws
abbrev pub assigned : String → Option Value → Properties → Properties
assigned field none config = config
assigned field (some v) config = set_field field v config

-- One field of the body, whose settings after it are those that the rest goes on from.
abbrev pub patched_field : String → Value → Option Value → Properties → Patch → Patch
patched_field field value none config rest = record {
  patched = config;
  before = property field (or_null (get_field field config)) no_properties;
  after = property field value no_properties;
  has_thrown = true;
}
patched_field field value (some v) config rest = record rest {
  before = property field (or_null (get_field field config)) rest.before;
  after = property field value rest.after;
}

unfoldable pub patch_settings : Properties → Properties → Patch
unfolding set_field get_field clone
patch_settings no_properties config = record {
  patched = config;
  before = no_properties;
  after = no_properties;
  has_thrown = false;
}
patch_settings (property field value body) config =
    let skipped = is_skipped field in
    let rest =
      patch_settings body (if skipped then config else assigned field (clone value) config) in
    if skipped then rest else patched_field field value (clone value) config rest

-- `list[index] = text` at an index of the list, and `list.splice(index, 1)`
unfoldable pub set_at : ℕ → Text → List Text → List Text
set_at i t xs = take i xs ++ (t ∷ drop (suc i) xs)

unfoldable pub remove_at : ℕ → List Text → List Text
remove_at i xs = take i xs ++ drop (suc i) xs

abbrev pub with_list : (List Text → List Text) → ListField → Service → Service
with_list f field svc = record svc {
  config = set_list field (f (get_list field svc.config)) svc.config;
}

-- The end of a write: the service of this id is changed in place, and the change is recorded.
unfoldable pub finish : ℕ → Text → Text → Service → Detail → State → Step
unfolding replace_service record_change
finish now action id svc detail s = ok (
    record_change now action (some svc) detail
      (record s { fleet = replace_service id svc s.fleet }))
