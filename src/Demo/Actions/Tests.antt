-- ===== src/Demo/Actions/Tests.antt =====
-- An action of the assistant on a concrete state: it is authorized, and authorized again.
use karna.Common.{◌≡◌, refl, Bool, true, false, Option, none, some, [], ◌∷◌}
use karna.Text.{Text, codes}
use karna.Value.{Value, bool, Properties, no_properties, property}
use karna.Demo.{
  Service, Change, State, pending, executed, update_config, Action, settings_changed,
  assistant_action, demo_actor,
}
use karna.Demo.Etag.{not_pending}
use karna.Demo.Write.{thrown, ok, on}
use karna.Demo.Actions.{
  refused, waits, find_action, authorize_begin, authorize_finish, reject_action, as_executed,
}
use karna.Demo.Actions.Once.{authorize_finish-once}

abbrev mode : Bool → Properties
mode b = property "engine_blocking_mode" (bool b) no_properties

abbrev api : Bool → Service
api blocking = record {
  plugin_id = codes "p1";
  name = codes "api";
  config = record {
    native_rules = [];
    secrules = [];
    action_overrides = [];
    response_overrides = [];
    settings = mode blocking;
  };
}

abbrev proposal : Action
proposal = record {
  id = codes "a1";
  tool = codes "karna_update_config";
  status = pending;
  expires_at = 600000;
  narrated = none;
  title = codes "api";
  risks = [];
  confirm_text = none;
  operation = update_config (codes "p1") (mode true);
}

abbrev proposed : State
proposed = record {
  fleet = api false ∷ [];
  changes = [];
  conversations = record { id = codes "c1"; actions = proposal ∷ [] } ∷ [];
  told = 0;
}

abbrev engine_change : Change
engine_change = record {
  ts = 1;
  actor = demo_actor;
  action = codes "engine_update";
  service = codes "api";
  plugin_id = some (codes "p1");
  detail = settings_changed (mode false) (mode true);
}

abbrev execute_change : Change
execute_change = record {
  ts = 1;
  actor = demo_actor;
  action = codes "assistant_action_execute";
  service = codes "—";
  plugin_id = none;
  detail = assistant_action (codes "a1") (codes "karna_update_config") (codes "api");
}

abbrev carried_out : State
carried_out = record {
  fleet = api true ∷ [];
  changes = execute_change ∷ (engine_change ∷ []);
  conversations = record { id = codes "c1"; actions = as_executed proposal ∷ [] } ∷ [];
  told = 2;
}

abbrev print : Value → Text
print v = codes "{}"

abbrev no_parse : Text → Option Value
no_parse t = none

begin_runs : authorize_begin 1000 (codes "a1") [] proposed ≡ waits proposal proposed
unfolding authorize_begin
begin_runs = refl

found_runs : find_action proposal.id proposed.conversations ≡ some proposal
unfolding find_action
found_runs = refl

finish_runs : authorize_finish print no_parse 1000 proposal proposed ≡ ok carried_out
unfolding authorize_finish on
finish_runs = refl

authorize_finish-once_example :
    (authorize_begin 2000 proposal.id [] carried_out ≡ refused (not_pending executed) carried_out)
    × (reject_action 2000 proposal.id carried_out ≡ thrown (not_pending executed) carried_out)
authorize_finish-once_example =
    authorize_finish-once print no_parse 1000 2000 proposal proposal proposed carried_out []
      found_runs finish_runs
