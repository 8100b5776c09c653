-- ===== src/Demo/Calls/Audit.antt =====
-- A write call changes one service and leaves one change in the log, or it changes nothing.
use karna.Common.{
  ℕ, ◌≡◌, refl, sym, ap, subst, ◌∙◌, Bool, true, false, not, inl, inr, Option, none, some, List, [],
  ◌∷◌, ◌+◌, map, keep, Bool-cases, Option-cases, if◌then◌else◌,
}
use karna.Text.{Text, text_eq}
use karna.Text.Equality.{text_eq_iff}
use karna.Value.{Value, Properties}
use karna.Demo.{
  ListField, Service, Detail, Change, State, find_service, replace_service, record_change,
}
use karna.Demo.Etag.{Checked, throws, gives}
use karna.Demo.Write.{
  Step, thrown, ok, on, service, finish, rule_field, override_field, set_at, remove_at,
}
use karna.Demo.Calls.{
  Call, patch_engine_call, add_rule_call, edit_rule_call, delete_rule_call, add_override_call,
  edit_override_call, delete_override_call, apply_engine, apply_add_rule, apply_add_override,
  patch_engine, add_rule, add_override, edit_rule, delete_rule, edit_override, delete_override,
  run_call, plugin_of, with_entries,
}
use karna.Demo.Calls.Body.{has_values, has_body, patch_settings-completes}

-- The services that have another plugin than this one.
abbrev others : Text → List Service → List Service
others id fleet = keep (λ svc. not (text_eq svc.plugin_id id)) fleet

abbrev ids : List Service → List Text
ids fleet = map (λ svc. svc.plugin_id) fleet

-- The log has one change more, at its start, by the demo's user and for this plugin.
abbrev pub IsLogged : Text → List Change → List Change → Type 0
IsLogged id before [] = ⊥
IsLogged id before (c ∷ after) = (c.plugin_id ≡ some id) × (after ≡ before)

-- A call threw and left the state as it was, or it logged one change, told the listeners once and left
-- the plugins of the fleet and the services of the other plugins as they were.
unfoldable pub IsAudited : Text → State → Step → Type 0
IsAudited id s (thrown e after) = after ≡ s
IsAudited id s (ok after) =
    IsLogged id s.changes after.changes
    × (after.told ≡ s.told + 1)
    × (after.conversations ≡ s.conversations)
    × (ids after.fleet ≡ ids s.fleet)
    × (others id after.fleet ≡ others id s.fleet)

replace_service-ids :
    (id : Text) (svc : Service) (fleet : List Service)
    → svc.plugin_id ≡ id
    → ids (replace_service id svc fleet) ≡ ids fleet
unfolding replace_service
replace_service-ids id svc [] e = refl
replace_service-ids id svc (old ∷ fleet) e = elim (Bool-cases (text_eq old.plugin_id id)) [
  | inl same ↦ rw same (ap (λ i. i ∷ ids fleet) (e ∙ sym ((text_eq_iff old.plugin_id id).0 same)))
  | inr other ↦ rw other (ap (λ is. old.plugin_id ∷ is) (replace_service-ids id svc fleet e))
]

replace_service-others :
    (id : Text) (svc : Service) (fleet : List Service)
    → svc.plugin_id ≡ id
    → others id (replace_service id svc fleet) ≡ others id fleet
unfolding replace_service
replace_service-others id svc [] e = refl
replace_service-others id svc (old ∷ fleet) e = elim (Bool-cases (text_eq old.plugin_id id)) [
  | inl same ↦
      let new : text_eq svc.plugin_id id ≡ true = (text_eq_iff svc.plugin_id id).1 e in
      rw (same, new) refl
  | inr other ↦ rw (other, other) (ap (λ fs. old ∷ fs) (replace_service-others id svc fleet e))
]

finish-IsAudited :
    (now : ℕ) (action id : Text) (svc : Service) (detail : Detail) (s : State)
    → svc.plugin_id ≡ id
    → IsAudited id s (finish now action id svc detail s)
unfolding IsAudited finish record_change
finish-IsAudited now action id svc detail s e = (
  (ap some e, refl),
  refl,
  refl,
  replace_service-ids id svc s.fleet e,
  replace_service-others id svc s.fleet e,
)

on-IsAudited :
    {A : Type 0} (id : Text) (r : Checked A) (next : A → State → Step) (s : State)
    → ((a : A) → IsAudited id s (next a s))
    → IsAudited id s (on r next s)
unfolding IsAudited on
on-IsAudited id (throws e) next s h = refl
on-IsAudited id (gives a) next s h = h a

plugin_id_of_some :
    (id : Text) (old svc : Service) → old.plugin_id ≡ id → some old ≡ some svc → svc.plugin_id ≡ id
plugin_id_of_some id old svc h e = let same : old ≡ svc = cc in subst (λ t. t.plugin_id ≡ id) same h

found-plugin_id :
    (b : Bool) (id : Text) (old svc : Service) (rest : Option Service)
    → text_eq old.plugin_id id ≡ b
    → (rest ≡ some svc → svc.plugin_id ≡ id)
    → (if b then some old else rest) ≡ some svc
    → svc.plugin_id ≡ id
found-plugin_id true id old svc rest h later e =
    plugin_id_of_some id old svc ((text_eq_iff old.plugin_id id).0 h) e
found-plugin_id false id old svc rest h later e = later e

pub find_service-plugin_id :
    (id : Text) (fleet : List Service) (svc : Service)
    → find_service id fleet ≡ some svc
    → svc.plugin_id ≡ id
unfolding find_service
find_service-plugin_id id [] svc e = cc
find_service-plugin_id id (old ∷ fleet) svc e =
    found-plugin_id (text_eq old.plugin_id id) id old svc (find_service id fleet) refl
      (find_service-plugin_id id fleet svc) e

service-IsAudited :
    (id : Text) (next : Service → State → Step) (s : State)
    → ((svc : Service) → svc.plugin_id ≡ id → IsAudited id s (next svc s))
    → IsAudited id s (on (service id s) next s)
unfolding IsAudited service on
service-IsAudited id next s h = elim (Option-cases (find_service id s.fleet)) [
  | inl missing ↦ rw missing refl
  | inr (svc, found) ↦ rw found (h svc (find_service-plugin_id id s.fleet svc found))
]

abbrev pub HasPlugin : Text → Service → Type 0
HasPlugin id svc = svc.plugin_id ≡ id

pub with_entries-HasPlugin :
    (id : Text) (f : List Text → List Text) (field : Option ListField) (svc : Service)
    → HasPlugin id svc
    → HasPlugin id (with_entries f field svc)
with_entries-HasPlugin id f none svc e = e
with_entries-HasPlugin id f (some field) svc e = e

finish_entries-IsAudited :
    (now : ℕ) (action id : Text) (f : List Text → List Text) (field : Option ListField)
    (svc : Service) (detail : Detail) (s : State)
    → HasPlugin id svc
    → IsAudited id s (finish now action id (with_entries f field svc) detail s)
finish_entries-IsAudited now action id f field svc detail s e =
    finish-IsAudited now action id (with_entries f field svc) detail s
      (with_entries-HasPlugin id f field svc e)

module _ (stringify : Value → Text) (parse_json : Text → Option Value) (now : ℕ) where
  apply_engine-IsAudited :
      (id : Text) (svc : Service) (body : Properties) (s : State)
      → has_values body ≡ true
      → HasPlugin id svc
      → IsAudited id s (apply_engine stringify parse_json now id svc body s)
  unfolding apply_engine
  apply_engine-IsAudited id svc body s values e =
      rw (patch_settings-completes body svc.config.settings values)
        (finish-IsAudited now _ id _ _ s e)

  apply_add_rule-IsAudited :
      (id : Text) (svc : Service) (kind : Text) (rule : Value) (s : State)
      → HasPlugin id svc
      → IsAudited id s (apply_add_rule stringify parse_json now id svc kind rule s)
  unfolding apply_add_rule
  apply_add_rule-IsAudited id svc kind rule s e =
      on-IsAudited id _ _ s
        (λ field. on-IsAudited id _ _ s (λ text. finish-IsAudited now _ id _ _ s e))

  apply_add_override-IsAudited :
      (id : Text) (svc : Service) (kind : Text) (entry : Value) (s : State)
      → HasPlugin id svc
      → IsAudited id s (apply_add_override stringify parse_json now id svc kind entry s)
  unfolding apply_add_override
  apply_add_override-IsAudited id svc kind entry s e =
      on-IsAudited id _ _ s
        (λ field. on-IsAudited id _ _ s (λ text. finish-IsAudited now _ id _ _ s e))

  -- Each write call of the demo, if none of the values that a change of settings is to set is `undefined`, either
  -- throws and leaves the state exactly as it was, or it succeeds: then the log has one new entry at its start,
  -- for the plugin of the call, the listeners were told once, the conversations are as they were, and the fleet
  -- has the same plugins in the same order with every other service unchanged.
  pub run_call-IsAudited :
      (call : Call) (s : State)
      → has_body call ≡ true
      → IsAudited (plugin_of call) s (run_call stringify parse_json now call s)
  unfolding run_call patch_engine add_rule edit_rule delete_rule add_override edit_override
      delete_override
  run_call-IsAudited (patch_engine_call id body) s values =
      service-IsAudited id _ s (λ svc e. apply_engine-IsAudited id svc body s values e)
  run_call-IsAudited (add_rule_call id kind rule) s values =
      service-IsAudited id _ s (λ svc e. apply_add_rule-IsAudited id svc kind rule s e)
  run_call-IsAudited (edit_rule_call id kind index rule etag) s values =
      service-IsAudited id _ s (λ svc e. on-IsAudited id _ _ s (λ raw.
        on-IsAudited id _ _ s (λ text.
          finish_entries-IsAudited now _ id (set_at index text) (rule_field kind) svc _ s e)))
  run_call-IsAudited (delete_rule_call id kind index etag) s values =
      service-IsAudited id _ s (λ svc e.
        on-IsAudited id _ _ s
          (λ raw. finish_entries-IsAudited now _ id (remove_at index) (rule_field kind) svc _ s e))
  run_call-IsAudited (add_override_call id kind entry) s values =
      service-IsAudited id _ s (λ svc e. apply_add_override-IsAudited id svc kind entry s e)
  run_call-IsAudited (edit_override_call id kind index entry etag) s values =
      service-IsAudited id _ s (λ svc e. on-IsAudited id _ _ s (λ raw.
        on-IsAudited id _ _ s (λ text.
          finish_entries-IsAudited now _ id (set_at index text) (override_field kind) svc _ s e)))
  run_call-IsAudited (delete_override_call id kind index etag) s values =
      service-IsAudited id _ s (λ svc e. on-IsAudited id _ _ s (λ raw.
        finish_entries-IsAudited now _ id (remove_at index) (override_field kind) svc _ s e))
