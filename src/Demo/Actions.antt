-- ===== src/Demo/Actions.antt =====
-- demo.js, lines 277 to 311: the user authorizes or rejects an action of the assistant.
mod Tests
pub mod Once
use karna.Common.{
  ℕ, Bool, true, false, not, ◌&&◌, Option, none, some, List, [], ◌∷◌, ltb, if◌then◌else◌,
}
use karna.Text.{Text, codes, text_eq, is_empty, is_space, strip, trim}
use karna.Value.{Value}
use karna.Demo.{
  Status, pending, executed, expired, rejected, Operation, update_config, add_native_rule,
  add_an_override, Action, Conversation, State, assistant_action, record_change,
}
use karna.Demo.Etag.{Error, action_not_found, action_expired, needs_confirmation, not_pending}
use karna.Demo.Write.{Step, thrown, ok}
use karna.Demo.Calls.{Call, patch_engine_call, add_rule_call, add_override_call, run_call}

-- `conversation.actions.find((item) => item.id === id)`, then over the conversations
unfoldable pub find_in : Text → List Action → Option Action
unfolding text_eq
find_in id [] = none
find_in id (a ∷ actions) = let rest = find_in id actions in if text_eq a.id id then some a else rest

abbrev pub or_else : Option Action → Option Action → Option Action
or_else none other = other
or_else (some a) other = some a

unfoldable pub find_action : Text → List Conversation → Option Action
unfolding find_in
find_action id [] = none
find_action id (c ∷ conversations) = or_else (find_in id c.actions) (find_action id conversations)

-- The store after the action that `find_action` gives was changed in place.
unfoldable pub change_in : Text → (Action → Action) → List Action → List Action
unfolding text_eq
change_in id f [] = []
change_in id f (a ∷ actions) =
    let rest = change_in id f actions in if text_eq a.id id then f a ∷ actions else a ∷ rest

abbrev pub is_found : Option Action → Bool
is_found none = false
is_found (some a) = true

unfoldable pub change_action : Text → (Action → Action) → List Conversation → List Conversation
unfolding find_in change_in
change_action id f [] = []
change_action id f (c ∷ conversations) =
    let rest = change_action id f conversations in
    if is_found (find_in id c.actions)
    then record c { actions = change_in id f c.actions } ∷ conversations
    else c ∷ rest

abbrev pub with_status : Status → Action → Action
with_status status a = record a { status = status }

abbrev pub as_executed : Action → Action
as_executed a = record a { status = executed; narrated = some false }

abbrev pub change_state : Text → (Action → Action) → State → State
change_state id f s = record s { conversations = change_action id f s.conversations }

-- `(confirm || "").trim() !== action.review.confirm_text`
abbrev pub is_other_text : Text → Option Text → Bool
is_other_text confirm none = true
is_other_text confirm (some text) = not (text_eq (trim confirm) text)

-- `authorizeAssistantAction` up to its sleep: it throws, or it waits with the action it has found.
pub data Begin : Type 0 where
  refused : Error → State → Begin
  waits : Action → State → Begin

abbrev pub begin_status : Status → Begin → State → Begin
begin_status pending next s = next
begin_status executed next s = refused (not_pending executed) s
begin_status expired next s = refused (not_pending expired) s
begin_status rejected next s = refused (not_pending rejected) s

abbrev pub begin_found : ℕ → Text → Text → Option Action → State → Begin
begin_found now id confirm none s = refused action_not_found s
begin_found now id confirm (some a) s =
    begin_status a.status
      (if ltb a.expires_at now
        then refused action_expired (change_state id (with_status expired) s)
        else (if not (is_empty a.risks) && is_other_text confirm a.confirm_text
            then refused needs_confirmation s
            else waits a s))
      s

unfoldable pub authorize_begin : ℕ → Text → Text → State → Begin
unfolding find_action change_action strip is_space text_eq
authorize_begin now id confirm s = begin_found now id confirm (find_action id s.conversations) s

-- Goes on with the state that a call left, unless it threw.
abbrev pub then_ok : Step → (State → State) → Step
then_ok (thrown e s) f = thrown e s
then_ok (ok s) f = ok (f s)

abbrev pub call_of : Operation → Call
call_of (update_config id changes) = patch_engine_call id changes
call_of (add_native_rule id rule) = add_rule_call id (codes "native") rule
call_of (add_an_override id kind entry) = add_override_call id kind entry

-- What follows the sleep: the operation on the fleet, then the status of the action.
module _ (stringify : Value → Text) (parse_json : Text → Option Value) (now : ℕ) where
  unfoldable pub authorize_finish : Action → State → Step
  unfolding run_call change_action record_change
  authorize_finish a s =
      then_ok (run_call stringify parse_json now (call_of a.operation) s) (λ after.
        record_change now (codes "assistant_action_execute") none
          (assistant_action a.id a.tool a.title) (change_state a.id as_executed after))

abbrev pub reject_status : ℕ → Text → Action → Status → State → Step
reject_status now id a pending s = ok (
    record_change now (codes "assistant_action_reject") none (assistant_action id a.tool a.title)
      (change_state id (with_status rejected) s))
reject_status now id a executed s = thrown (not_pending executed) s
reject_status now id a expired s = thrown (not_pending expired) s
reject_status now id a rejected s = thrown (not_pending rejected) s

abbrev pub reject_found : ℕ → Text → Option Action → State → Step
reject_found now id none s = thrown action_not_found s
reject_found now id (some a) s = reject_status now id a a.status s

unfoldable pub reject_action : ℕ → Text → State → Step
unfolding find_action
reject_action now id s = reject_found now id (find_action id s.conversations) s
