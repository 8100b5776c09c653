-- ===== src/Demo/Tests.antt =====
-- The demo's store on a concrete fleet of two services.
use karna.Common.{◌≡◌, refl, true, Option, none, some, List, [], ◌∷◌, map}
use karna.Text.{Text, codes, text_eq, strip_prefix}
use karna.Value.{Value, Properties, bool, str, no_properties, property, undefined}
use karna.Demo.{Config, Service, Change, State, rule_changed, demo_actor}
use karna.Demo.Etag.{hash_from, etag_of, is_stale, changed_meanwhile, gives}
use karna.Demo.Etag.Hex.{read_hex, read_hex-etag_of}
use karna.Demo.Write.{Step, thrown, ok, on}
use karna.Demo.Calls.{
  Call, patch_engine_call, edit_rule_call, rule_text, edit_rule, delete_rule, run_call, plugin_of,
}
use karna.Demo.Calls.Audit.{IsAudited, run_call-IsAudited}
use karna.Demo.Calls.Body.{has_values, has_body}
use karna.Demo.Calls.Stale.{edit_rule-refuses_stale}

abbrev first_text : Text
first_text = codes "SecRule A"

abbrev second_text : Text
second_text = codes "SecRule B"

abbrev config_of : List Text → Config
config_of texts = record {
  native_rules = [];
  secrules = texts;
  action_overrides = [];
  response_overrides = [];
  settings = no_properties;
}

abbrev service_of : Text → List Text → Service
service_of name texts = record { plugin_id = name; name = name; config = config_of texts }

abbrev fleet_of : Text → List Service
fleet_of text = service_of (codes "checkout") [] ∷ (service_of (codes "api") (text ∷ []) ∷ [])

abbrev initial : State
initial = record { fleet = fleet_of first_text; changes = []; conversations = []; told = 0 }

abbrev edit_change : Change
edit_change = record {
  ts = 5;
  actor = demo_actor;
  action = codes "rule_update";
  service = codes "api";
  plugin_id = some (codes "api");
  detail = rule_changed (codes "seclang") 0 undefined;
}

abbrev edited : State
edited = record {
  fleet = fleet_of second_text;
  changes = edit_change ∷ [];
  conversations = [];
  told = 1;
}

abbrev print : Value → Text
print v = codes "{}"

abbrev no_parse : Text → Option Value
no_parse t = none

abbrev first_etag : Text
first_etag = codes "92c7335f"

etag_runs : etag_of (codes "a") ≡ codes "2b5c4"
unfolding etag_of
etag_runs = refl

edit_runs :
    edit_rule print no_parse 5000
      (codes "api")
      (codes "seclang")
      0
      (str second_text)
      first_etag
      initial
    ≡ ok edited
unfolding edit_rule on etag_of strip_prefix
edit_runs = refl

text_runs : rule_text print no_parse 5000 (codes "seclang") (str second_text) ≡ gives second_text
unfolding rule_text strip_prefix
text_runs = refl

stale_runs : is_stale second_text first_etag ≡ true
unfolding etag_of text_eq
stale_runs = refl

abbrev edit_call : Call
edit_call = edit_rule_call (codes "api") (codes "seclang") 0 (str second_text) first_etag

-- Settings that are changed, and settings of which the second cannot be cloned.
abbrev patch_call : Properties → Call
patch_call rest = patch_engine_call (codes "api") (property "engine_blocking_mode" (bool true) rest)

abbrev settings_of : Step → List Properties
settings_of (thrown e s) = map (λ svc. svc.config.settings) s.fleet
settings_of (ok s) = map (λ svc. svc.config.settings) s.fleet

patch_stops :
    settings_of (
      run_call print no_parse 5000
        (patch_call (property "paranoia_level" undefined no_properties))
        initial)
    ≡ no_properties ∷ property "engine_blocking_mode" (bool true) no_properties ∷ []
unfolding run_call text_eq on
patch_stops = refl

call_has_body : has_body (patch_call no_properties) ≡ true
unfolding has_values
call_has_body = refl

run_call-IsAudited_example :
    IsAudited
      (plugin_of (patch_call no_properties))
      initial
      (run_call print no_parse 5000 (patch_call no_properties) initial)
run_call-IsAudited_example =
    run_call-IsAudited print no_parse 5000 (patch_call no_properties) initial call_has_body

edit_rule-refuses_stale_example :
    (edit_rule print no_parse 9000
        (codes "api")
        (codes "seclang")
        0
        (str first_text)
        first_etag
        edited
      ≡ thrown changed_meanwhile edited)
    × (delete_rule print no_parse 9000 (codes "api") (codes "seclang") 0 first_etag edited
        ≡ thrown changed_meanwhile edited)
edit_rule-refuses_stale_example =
    edit_rule-refuses_stale print no_parse 5000 9000 (codes "api") (codes "seclang") 0
      (str second_text) (str first_text) first_etag second_text initial edited text_runs edit_runs
      stale_runs

read_hex-etag_of_example : read_hex 0 (etag_of first_text) ≡ hash_from 5381 first_text
read_hex-etag_of_example = read_hex-etag_of first_text
