-- ===== src/Api/Session/Calls.antt =====
-- data/api.js, lines 68 to 133: the calls of `liveApi`, each with the request that it makes.
use karna.Common.{String, Bool, true, Option, none, some, ◌++◌, if◌then◌else◌}
use karna.Text.{Text, codes, is_empty}
use karna.Value.{Value, bool, str, obj, Properties, no_properties, property}
use karna.Api.Session.{Request}

-- An index of an entry is given by its decimal text, and a confirmation that is absent by the empty one.
pub data Call : Type 0 where
  call_status : Call
  call_logout : Call
  call_change_password : Text → Text → Call
  call_register : Text → Text → Text → Call
  call_login : Text → Text → Call
  call_me : Call
  call_setup_state : Call
  call_complete_setup : Bool → Call
  call_dashboard : Call
  call_refresh_kong_inventory : Call
  call_changes : Call
  call_ai_providers : Call
  call_ai_profiles : Call
  call_save_ai_profile : Value → Call
  call_test_ai_profile : Value → Call
  call_delete_ai_profile : Text → Call
  call_conversations : Call
  call_conversation : Text → Call
  call_delete_conversation : Text → Call
  call_apply_assistant_proposal : Text → Text → Call
  call_reject_assistant_proposal : Text → Call
  call_authorize_assistant_action : Text → Text → Call
  call_reject_assistant_action : Text → Call
  call_kong_connection : Call
  call_kong_connections : Call
  call_save_kong_connection : Value → Call
  call_test_kong_connection : Value → Call
  call_activate_kong_connection : Text → Call
  call_delete_kong_connection : Text → Call
  call_set_kong_connection : Value → Call
  call_log_config : Call
  call_set_log_ttl : Value → Call
  call_purge_logs : Call
  call_patch_engine : Text → Value → Call
  call_add_override : Text → Text → Value → Call
  call_edit_override : Text → Text → Text → Value → Text → Call
  call_delete_override : Text → Text → Text → Text → Call
  call_add_rule : Text → Value → Call
  call_edit_rule : Text → Text → Text → Value → Text → Call
  call_delete_rule : Text → Text → Text → Text → Call

-- `{ name: value }`, or `{}` for a value that is absent
abbrev pub given : String → Text → Properties
given name value = if is_empty value then no_properties else property name (str value) no_properties

abbrev request : Text → Text → Option Text → Request
request method path body = record { method = method; path = path; body = body }

-- The encoder of a URI component, which `seg` applies to every text of a path, and `JSON.stringify`.
module _ (seg : Text → Text) (print_json : Value → Text) where
  unfoldable pub request_of : Call → Request
  request_of call_status = request (codes "GET") (codes "/api/auth/status") none
  request_of call_logout = request (codes "POST") (codes "/api/auth/logout") none
  request_of (call_change_password current_password new_password) =
      request (codes "POST") (codes "/api/auth/password") (
        some (
          print_json (
            obj (
              property "current_password" (str current_password)
                (property "new_password" (str new_password) no_properties)))))
  request_of (call_register email password setup_token) =
      request (codes "POST") (codes "/api/auth/register") (
        some (
          print_json (
            obj (
              property "email" (str email) (
                property "password" (str password)
                  (property "setup_token" (str setup_token) no_properties))))))
  request_of (call_login email password) = request (codes "POST") (codes "/api/auth/login") (
      some (
        print_json
          (obj (property "email" (str email) (property "password" (str password) no_properties)))))
  request_of call_me = request (codes "GET") (codes "/api/auth/me") none
  request_of call_setup_state = request (codes "GET") (codes "/api/setup") none
  request_of (call_complete_setup skipped) =
      request (codes "POST") (codes "/api/setup/complete")
        (some (print_json (obj (property "skipped" (bool skipped) no_properties))))
  request_of call_dashboard = request (codes "GET") (codes "/api/dashboard") none
  request_of call_refresh_kong_inventory =
      request (codes "POST") (codes "/api/kong/inventory/refresh") none
  request_of call_changes = request (codes "GET") (codes "/api/changes") none
  request_of call_ai_providers = request (codes "GET") (codes "/api/ai/providers") none
  request_of call_ai_profiles = request (codes "GET") (codes "/api/ai/profiles") none
  request_of (call_save_ai_profile body) =
      request (codes "POST") (codes "/api/ai/profiles") (some (print_json body))
  request_of (call_test_ai_profile body) =
      request (codes "POST") (codes "/api/ai/profiles/test") (some (print_json body))
  request_of (call_delete_ai_profile id) =
      request (codes "DELETE") (codes "/api/ai/profiles/" ++ seg id) none
  request_of call_conversations = request (codes "GET") (codes "/api/assistant/conversations") none
  request_of (call_conversation id) =
      request (codes "GET") (codes "/api/assistant/conversations/" ++ seg id) none
  request_of (call_delete_conversation id) =
      request (codes "DELETE") (codes "/api/assistant/conversations/" ++ seg id) none
  request_of (call_apply_assistant_proposal id confirm_service) =
      request (codes "POST") (codes "/api/assistant/proposals/" ++ (seg id ++ codes "/apply"))
        (some (print_json (obj (given "confirm_service" confirm_service))))
  request_of (call_reject_assistant_proposal id) =
      request (codes "POST") (codes "/api/assistant/proposals/" ++ (seg id ++ codes "/reject")) none
  request_of (call_authorize_assistant_action id confirm) =
      request (codes "POST") (codes "/api/assistant/actions/" ++ (seg id ++ codes "/authorize"))
        (some (print_json (obj (given "confirm" confirm))))
  request_of (call_reject_assistant_action id) =
      request (codes "POST") (codes "/api/assistant/actions/" ++ (seg id ++ codes "/reject")) none
  request_of call_kong_connection = request (codes "GET") (codes "/api/kong/connection") none
  request_of call_kong_connections = request (codes "GET") (codes "/api/kong/connections") none
  request_of (call_save_kong_connection body) =
      request (codes "POST") (codes "/api/kong/connections") (some (print_json body))
  request_of (call_test_kong_connection body) =
      request (codes "POST") (codes "/api/kong/connections/test-activate") (some (print_json body))
  request_of (call_activate_kong_connection id) =
      request (codes "POST") (codes "/api/kong/connections/" ++ (seg id ++ codes "/activate")) none
  request_of (call_delete_kong_connection id) =
      request (codes "DELETE") (codes "/api/kong/connections/" ++ seg id) none
  request_of (call_set_kong_connection body) =
      request (codes "PATCH") (codes "/api/kong/connection") (some (print_json body))
  request_of call_log_config = request (codes "GET") (codes "/api/logs/config") none
  request_of (call_set_log_ttl ttl_days) =
      request (codes "PATCH") (codes "/api/logs/config")
        (some (print_json (obj (property "ttl_days" ttl_days no_properties))))
  request_of call_purge_logs =
      request (codes "POST") (codes "/api/logs/purge")
        (some (print_json (obj (property "confirm" (bool true) no_properties))))
  request_of (call_patch_engine plugin_id body) =
      request (codes "PATCH") (codes "/api/plugins/" ++ (seg plugin_id ++ codes "/engine"))
        (some (print_json body))
  request_of (call_add_override plugin_id kind entry) =
      request (codes "POST")
        (codes "/api/plugins/" ++ (seg plugin_id ++ (codes "/overrides/" ++ seg kind)))
        (some (print_json entry))
  request_of (call_edit_override plugin_id kind index entry etag) =
      request (codes "PATCH")
        (codes "/api/plugins/"
          ++ (seg plugin_id
              ++ (codes "/overrides/"
                  ++ (seg kind ++ (codes "/" ++ (seg index ++ (codes "?expected=" ++ seg etag)))))))
        (some (print_json entry))
  request_of (call_delete_override plugin_id kind index etag) =
      request (codes "DELETE")
        (codes "/api/plugins/"
          ++ (seg plugin_id
              ++ (codes "/overrides/"
                  ++ (seg kind ++ (codes "/" ++ (seg index ++ (codes "?expected=" ++ seg etag)))))))
        none
  request_of (call_add_rule plugin_id body) =
      request (codes "POST") (codes "/api/plugins/" ++ (seg plugin_id ++ codes "/rules"))
        (some (print_json body))
  request_of (call_edit_rule plugin_id kind index body etag) =
      request (codes "PATCH")
        (codes "/api/plugins/"
          ++ (seg plugin_id
              ++ (codes "/rules/"
                  ++ (seg kind ++ (codes "/" ++ (seg index ++ (codes "?expected=" ++ seg etag)))))))
        (some (print_json body))
  request_of (call_delete_rule plugin_id kind index etag) =
      request (codes "DELETE")
        (codes "/api/plugins/"
          ++ (seg plugin_id
              ++ (codes "/rules/"
                  ++ (seg kind ++ (codes "/" ++ (seg index ++ (codes "?expected=" ++ seg etag)))))))
        none
