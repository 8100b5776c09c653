-- ===== src/Api/Session/Expired.antt =====
-- What an answer of the backend makes of the session.
use karna.Common.{
  ◌≡◌, refl, ℕ, Bool, true, false, not, ◌&&◌, Option, none, some, arith, if◌then◌else◌, ◌==◌,
}
use karna.Text.{Text, strip_prefix}
use karna.Value.{Value}
use karna.Api.Session.{
  Session, answer, Outcome, data_of, failed, is_ok, is_auth_path, end_session, outcome_of,
  api_fetch,
}
use karna.Api.Session.Calls.{
  Call, request_of, call_status, call_logout, call_change_password, call_register, call_login,
  call_me, call_setup_state, call_complete_setup, call_dashboard, call_refresh_kong_inventory,
  call_changes, call_ai_providers, call_ai_profiles, call_save_ai_profile, call_test_ai_profile,
  call_delete_ai_profile, call_conversations, call_conversation, call_delete_conversation,
  call_apply_assistant_proposal, call_reject_assistant_proposal, call_authorize_assistant_action,
  call_reject_assistant_action, call_kong_connection, call_kong_connections,
  call_save_kong_connection, call_test_kong_connection, call_activate_kong_connection,
  call_delete_kong_connection, call_set_kong_connection, call_log_config, call_set_log_ttl,
  call_purge_logs, call_patch_engine, call_add_override, call_edit_override, call_delete_override,
  call_add_rule, call_edit_rule, call_delete_rule,
}

-- The calls under `/api/auth/`: the status, signing in and out, registering, changing the password and asking
-- who is signed in.
abbrev pub is_auth_call : Call → Bool
is_auth_call call_status = true
is_auth_call call_logout = true
is_auth_call (call_change_password current_password new_password) = true
is_auth_call (call_register email password setup_token) = true
is_auth_call (call_login email password) = true
is_auth_call call_me = true
is_auth_call call = false

module _ (seg : Text → Text) (print_json : Value → Text) where
  is_auth_path-request_of :
      (c : Call) → is_auth_path (request_of seg print_json c).path ≡ is_auth_call c
  unfolding is_auth_path strip_prefix request_of
  is_auth_path-request_of call_status = refl
  is_auth_path-request_of call_logout = refl
  is_auth_path-request_of (call_change_password current_password new_password) = refl
  is_auth_path-request_of (call_register email password setup_token) = refl
  is_auth_path-request_of (call_login email password) = refl
  is_auth_path-request_of call_me = refl
  is_auth_path-request_of call_setup_state = refl
  is_auth_path-request_of (call_complete_setup skipped) = refl
  is_auth_path-request_of call_dashboard = refl
  is_auth_path-request_of call_refresh_kong_inventory = refl
  is_auth_path-request_of call_changes = refl
  is_auth_path-request_of call_ai_providers = refl
  is_auth_path-request_of call_ai_profiles = refl
  is_auth_path-request_of (call_save_ai_profile body) = refl
  is_auth_path-request_of (call_test_ai_profile body) = refl
  is_auth_path-request_of (call_delete_ai_profile id) = refl
  is_auth_path-request_of call_conversations = refl
  is_auth_path-request_of (call_conversation id) = refl
  is_auth_path-request_of (call_delete_conversation id) = refl
  is_auth_path-request_of (call_apply_assistant_proposal id confirm_service) = refl
  is_auth_path-request_of (call_reject_assistant_proposal id) = refl
  is_auth_path-request_of (call_authorize_assistant_action id confirm) = refl
  is_auth_path-request_of (call_reject_assistant_action id) = refl
  is_auth_path-request_of call_kong_connection = refl
  is_auth_path-request_of call_kong_connections = refl
  is_auth_path-request_of (call_save_kong_connection body) = refl
  is_auth_path-request_of (call_test_kong_connection body) = refl
  is_auth_path-request_of (call_activate_kong_connection id) = refl
  is_auth_path-request_of (call_delete_kong_connection id) = refl
  is_auth_path-request_of (call_set_kong_connection body) = refl
  is_auth_path-request_of call_log_config = refl
  is_auth_path-request_of (call_set_log_ttl ttl_days) = refl
  is_auth_path-request_of call_purge_logs = refl
  is_auth_path-request_of (call_patch_engine plugin_id body) = refl
  is_auth_path-request_of (call_add_override plugin_id kind entry) = refl
  is_auth_path-request_of (call_edit_override plugin_id kind index entry etag) = refl
  is_auth_path-request_of (call_delete_override plugin_id kind index etag) = refl
  is_auth_path-request_of (call_add_rule plugin_id body) = refl
  is_auth_path-request_of (call_edit_rule plugin_id kind index body etag) = refl
  is_auth_path-request_of (call_delete_rule plugin_id kind index etag) = refl

  -- The error of an outcome by its status, `none` for data.
  abbrev pub status_of : Outcome → Option (Option ℕ)
  status_of (data_of v) = none
  status_of (failed e) = some e.status

  module _ (parse : Text → Option Value) (print : ℕ → Text) where
    status_of-outcome_of :
        (status : ℕ) (text : Text)
        → status_of (outcome_of parse print status text)
          ≡ (if is_ok status then none else some (some status))
    unfolding outcome_of
    status_of-outcome_of status text = ground arith

    ended :
        (blocked due : Bool) (s : Session)
        → ((if due then end_session blocked s else s).token ≡ (if due then none else s.token))
          × ((if due then end_session blocked s else s).email ≡ (if due then none else s.email))
    unfolding end_session
    ended blocked true s = (refl, refl)
    ended blocked false s = (refl, refl)

    -- For each call that the client makes through `apiFetch`: an answer other than 2xx is an error with its
    -- status, and a 2xx answer gives data. Status, sign-in, sign-out, registration, the change of the password
    -- and the question who is signed in keep the session whatever the answer; any other of these calls that
    -- is answered by 401 leaves neither a token nor a user, and by another answer keeps both.
    pub api_fetch-outcome :
        (blocked : Bool) (c : Call) (status : ℕ) (text : Text) (s : Session)
        → (status_of
              (api_fetch parse print blocked (request_of seg print_json c) (answer status text) s).1
            ≡ (if is_ok status then none else some (some status)))
          × (((api_fetch parse print blocked
                  (request_of seg print_json c)
                  (answer status text)
                  s).0.token
                ≡ (if status == 401 && not (is_auth_call c) then none else s.token))
              × ((api_fetch parse print blocked
                    (request_of seg print_json c)
                    (answer status text)
                    s).0.email
                  ≡ (if status == 401 && not (is_auth_call c) then none else s.email)))
    unfolding api_fetch
    api_fetch-outcome blocked c status text s =
        rw (is_auth_path-request_of c) (
          status_of-outcome_of status text,
          ended blocked (status == 401 && not (is_auth_call c)) s,
        )
