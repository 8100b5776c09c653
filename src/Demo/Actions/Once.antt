-- ===== src/Demo/Actions/Once.antt =====
-- An action is carried out at most once, where the calls for it do not overlap.
use karna.Common.{
  ℕ, ◌≡◌, refl, ap, subst, ◌∙◌, true, inl, inr, Option, some, List, [], ◌∷◌, Bool-cases,
  Option-cases, if◌then◌else◌,
}
use karna.Text.{Text, text_eq}
use karna.Value.{Value}
use karna.Demo.{executed, Action, Conversation, State, record_change}
use karna.Demo.Etag.{not_pending}
use karna.Demo.Write.{Step, thrown, ok}
use karna.Demo.Calls.{run_call}
use karna.Demo.Calls.Conversations.{KeepsConversations, run_call-KeepsConversations}
use karna.Demo.Actions.{
  find_in, or_else, find_action, change_in, change_action, as_executed, refused, begin_found,
  authorize_begin, then_ok, call_of, authorize_finish, reject_found, reject_action,
}

-- A change that keeps the id of an action.
abbrev KeepsId : (Action → Action) → Type 0
KeepsId f = (a : Action) → (f a).id ≡ a.id

find_in-change_in :
    (id : Text) (f : Action → Action) (a : Action) (actions : List Action)
    → KeepsId f
    → find_in id actions ≡ some a
    → find_in id (change_in id f actions) ≡ some (f a)
unfolding find_in change_in
find_in-change_in id f a [] k h = absurd cc
find_in-change_in id f a (x ∷ actions) k h = elim (Bool-cases (text_eq x.id id)) [
  | inl same ↦
      let e : some x ≡ some a =
        subst (λ b. (if b then some x else find_in id actions) ≡ some a) same h in
      let kept : text_eq (f x).id id ≡ true = ap (λ i. text_eq i id) (k x) ∙ same in
      rw (same, kept) (let xa : x ≡ a = cc in ap (λ y. some (f y)) xa)
  | inr other ↦
      rw (other, other)
        (find_in-change_in id f a actions k
          (subst (λ b. (if b then some x else find_in id actions) ≡ some a) other h))
]

find_action-change_action :
    (id : Text) (f : Action → Action) (a : Action) (conversations : List Conversation)
    → KeepsId f
    → find_action id conversations ≡ some a
    → find_action id (change_action id f conversations) ≡ some (f a)
unfolding find_action change_action
find_action-change_action id f a [] k h = absurd cc
find_action-change_action id f a (c ∷ cs) k h = elim (Option-cases (find_in id c.actions)) [
  | inl missing ↦
      rw (missing, missing)
        (find_action-change_action id f a cs k
          (subst (λ o. or_else o (find_action id cs) ≡ some a) missing h))
  | inr (x, found) ↦
      let e : some x ≡ some a = subst (λ o. or_else o (find_action id cs) ≡ some a) found h in
      rw (found, find_in-change_in id f x c.actions k found)
        (let xa : x ≡ a = cc in ap (λ y. some (f y)) xa)
]

then_ok-ok :
    (step : Step) (f : State → State) (after : State)
    → then_ok step f ≡ ok after
    → (s : State) × (step ≡ ok s) × (f s ≡ after)
then_ok-ok (thrown e s) f after h = absurd cc
then_ok-ok (ok s) f after h = (s, refl, cc)

module _ (stringify : Value → Text) (parse_json : Text → Option Value) (now later : ℕ) where
  find_action-authorize_finish :
      (a b : Action) (s after : State)
      → find_action a.id s.conversations ≡ some b
      → authorize_finish stringify parse_json now a s ≡ ok after
      → find_action a.id after.conversations ≡ some (as_executed b)
  unfolding authorize_finish record_change
  find_action-authorize_finish a b s after found h =
      let call = call_of a.operation in
      let inner = then_ok-ok (run_call stringify parse_json now call s) _ after h in
      let kept =
        subst (KeepsConversations stringify parse_json now s) (inner.1)
          (run_call-KeepsConversations stringify parse_json now call s) in
      subst (λ t. find_action a.id t.conversations ≡ some (as_executed b)) (inner.2)
        (find_action-change_action a.id as_executed b (inner.0.conversations) (λ x. refl)
          (ap (find_action a.id) kept ∙ found))

  -- Once the authorization of an action has finished without an error, the action is executed for good:
  -- to authorize it again, with any confirmation at any time, or to reject it, throws that it is executed
  -- already, and changes nothing.
  pub authorize_finish-once :
      (a b : Action) (s after : State) (confirm : Text)
      → find_action a.id s.conversations ≡ some b
      → authorize_finish stringify parse_json now a s ≡ ok after
      → (authorize_begin later a.id confirm after ≡ refused (not_pending executed) after)
        × (reject_action later a.id after ≡ thrown (not_pending executed) after)
  unfolding authorize_begin reject_action
  authorize_finish-once a b s after confirm found h =
      let there = find_action-authorize_finish a b s after found h in
      (
        ap (λ o. begin_found later a.id confirm o after) there,
        ap (λ o. reject_found later a.id o after) there,
      )
