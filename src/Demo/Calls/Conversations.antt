-- ===== src/Demo/Calls/Conversations.antt =====
-- What a write call leaves of the conversations.
use karna.Common.{ℕ, ◌≡◌, refl, false, inl, inr, Option, Bool-cases, Option-cases}
use karna.Text.{Text}
use karna.Value.{Value, Properties}
use karna.Demo.{State, find_service, record_change}
use karna.Demo.Write.{patch_settings, Step, thrown, ok, on, service, finish}
use karna.Demo.Calls.{
  Call, patch_engine_call, add_rule_call, edit_rule_call, delete_rule_call, add_override_call,
  edit_override_call, delete_override_call, apply_engine, patch_engine, run_call, plugin_of,
}
use karna.Demo.Calls.Body.{has_body}
use karna.Demo.Calls.Audit.{IsAudited, run_call-IsAudited}

module _ (stringify : Value → Text) (parse_json : Text → Option Value) (now : ℕ) where
  -- A call that succeeds keeps the conversations.
  abbrev pub KeepsConversations : State → Step → Type 0
  KeepsConversations s (thrown e after) = Unit
  KeepsConversations s (ok after) = after.conversations ≡ s.conversations

  audited-KeepsConversations :
      (id : Text) (s : State) (step : Step) → IsAudited id s step → KeepsConversations s step
  unfolding IsAudited
  audited-KeepsConversations id s (thrown e after) h = tt
  audited-KeepsConversations id s (ok after) h = h.2

  patch_engine-KeepsConversations :
      (id : Text) (body : Properties) (s : State)
      → KeepsConversations s (patch_engine stringify parse_json now id body s)
  unfolding patch_engine apply_engine service on finish record_change
  patch_engine-KeepsConversations id body s = elim (Option-cases (find_service id s.fleet)) [
    | inl missing ↦ rw missing tt
    | inr (svc, found) ↦ elim (Bool-cases (patch_settings body svc.config.settings).has_thrown) [
      | inl stops ↦ rw (found, stops) tt
      | inr completes ↦ rw (found, completes) refl
    ]
  ]

  without_body :
      (call : Call) (s : State)
      → has_body call ≡ false
      → KeepsConversations s (run_call stringify parse_json now call s)
  unfolding run_call
  without_body (patch_engine_call id body) s h = patch_engine-KeepsConversations id body s
  without_body (add_rule_call id kind rule) s h = absurd cc
  without_body (edit_rule_call id kind index rule etag) s h = absurd cc
  without_body (delete_rule_call id kind index etag) s h = absurd cc
  without_body (add_override_call id kind entry) s h = absurd cc
  without_body (edit_override_call id kind index entry etag) s h = absurd cc
  without_body (delete_override_call id kind index etag) s h = absurd cc

  pub run_call-KeepsConversations :
      (call : Call) (s : State) → KeepsConversations s (run_call stringify parse_json now call s)
  run_call-KeepsConversations call s = elim (Bool-cases (has_body call)) [
    | inl has ↦
        audited-KeepsConversations (plugin_of call) s (run_call stringify parse_json now call s)
          (run_call-IsAudited stringify parse_json now call s has)
    | inr lacks ↦ without_body call s lacks
  ]
