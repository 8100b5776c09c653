-- ===== src/Demo.antt =====
-- demo.js: the backend of the live demo in the browser, the state it keeps and the log of changes.
-- A service has one Karna plugin; its rules and overrides are texts in four lists.
mod Tests
pub mod Clone
pub mod Etag
pub mod Write
pub mod Calls
pub mod Actions
use karna.Common.{
  ℕ, String, Bool, true, false, not, Option, none, some, List, [], ◌∷◌, ◌++◌, ◌/◌, ◌+◌,
  if◌then◌else◌,
}
use karna.Text.{Text, codes, text_eq}
use karna.Value.{Value, Properties}

-- The keys of a configuration that hold lists of texts.
pub data ListField : Type 0 where
  rules_request custom_secrules rule_action_overrides rule_response_overrides : ListField

-- The settings are the other keys of a configuration, with their values.
pub record Config : Type 0 where
  pub native_rules : List Text
  pub secrules : List Text
  pub action_overrides : List Text
  pub response_overrides : List Text
  pub settings : Properties

pub record Service : Type 0 where
  pub plugin_id : Text
  pub name : Text
  pub config : Config

-- The fields that a change has besides those of `record`. An absent id is `undefined`.
pub data Detail : Type 0 where
  settings_changed : Properties → Properties → Detail
  rule_changed : Text → ℕ → Value → Detail
  entry_added : Value → Detail
  entry_changed : ℕ → Value → Detail
  entry_removed : ℕ → Option Value → Detail
  assistant_action : Text → Text → Text → Detail

pub record Change : Type 0 where
  pub ts : ℕ
  pub actor : Text
  pub action : Text
  pub service : Text
  pub plugin_id : Option Text
  pub detail : Detail

pub data Status : Type 0 where
  pending executed expired rejected : Status

-- What an action does once it is authorized: its plugin, and the change.
pub data Operation : Type 0 where
  update_config : Text → Properties → Operation
  add_native_rule : Text → Value → Operation
  add_an_override : Text → Text → Value → Operation

-- An action that the assistant proposed. No confirmation text is `none`; `narrated` is `none` until the
-- action is executed.
pub record Action : Type 0 where
  pub id : Text
  pub tool : Text
  pub status : Status
  pub expires_at : ℕ
  pub narrated : Option Bool
  pub title : Text
  pub risks : List Text
  pub confirm_text : Option Text
  pub operation : Operation

-- Of a conversation the actions alone are modelled.
pub record Conversation : Type 0 where
  pub id : Text
  pub actions : List Action

-- `told` counts how often the listeners were called.
pub record State : Type 0 where
  pub fleet : List Service
  pub changes : List Change
  pub conversations : List Conversation
  pub told : ℕ

abbrev pub get_list : ListField → Config → List Text
get_list rules_request c = c.native_rules
get_list custom_secrules c = c.secrules
get_list rule_action_overrides c = c.action_overrides
get_list rule_response_overrides c = c.response_overrides

abbrev pub set_list : ListField → List Text → Config → Config
set_list rules_request xs c = record c { native_rules = xs }
set_list custom_secrules xs c = record c { secrules = xs }
set_list rule_action_overrides xs c = record c { action_overrides = xs }
set_list rule_response_overrides xs c = record c { response_overrides = xs }

abbrev pub demo_actor : Text
demo_actor = codes "admin@example.com"

-- `record(action, svc, fields)` at the time `now` in milliseconds: the newest change comes first, and
-- every listener is called. A change without a service has a dash for its name.
abbrev pub name_or_dash : Option Service → Text
name_or_dash none = codes "—"
name_or_dash (some svc) = svc.name

abbrev pub plugin_id_of : Option Service → Option Text
plugin_id_of none = none
plugin_id_of (some svc) = some svc.plugin_id

unfoldable pub record_change : ℕ → Text → Option Service → Detail → State → State
record_change now action svc detail s =
    let change : Change = record {
      ts = now / 1000;
      actor = demo_actor;
      action = action;
      service = name_or_dash svc;
      plugin_id = plugin_id_of svc;
      detail = detail;
    } in
    record s { changes = change ∷ s.changes; told = s.told + 1 }

-- `state.fleet.find((item) => item.plugin_id === pluginId)`
unfoldable pub find_service : Text → List Service → Option Service
unfolding text_eq
find_service id [] = none
find_service id (svc ∷ fleet) =
    let rest = find_service id fleet in if text_eq svc.plugin_id id then some svc else rest

-- The fleet after the service that `find_service` gives was changed in place.
unfoldable pub replace_service : Text → Service → List Service → List Service
unfolding text_eq
replace_service id svc [] = []
replace_service id svc (old ∷ fleet) =
    let rest = replace_service id svc fleet in
    if text_eq old.plugin_id id then svc ∷ fleet else old ∷ rest
