-- ===== src/Demo/Calls/Stale.antt =====
-- Two clients that saw the same etag of an entry: the second write is refused.
use karna.Common.{
  ℕ, zero, suc, ◌≡◌, refl, ap, subst, ◌∙◌, true, inl, inr, Option, none, some, List, [], ◌∷◌,
  Bool-cases, get_elem?, if◌then◌else◌,
}
use karna.Text.{Text, text_eq}
use karna.Text.Equality.{text_eq_iff}
use karna.Value.{Value}
use karna.Demo.{
  ListField, rules_request, custom_secrules, rule_action_overrides, rule_response_overrides, Config,
  Service, State, Detail, get_list, set_list, find_service, replace_service, record_change,
}
use karna.Demo.Etag.{
  Error, no_plugin, changed_meanwhile, Checked, throws, gives, check_entry, check_found, is_stale,
}
use karna.Demo.Write.{Step, thrown, ok, on, or_throw, service, finish, rule_field, set_at}
use karna.Demo.Calls.Audit.{find_service-plugin_id, with_entries-HasPlugin, HasPlugin}
use karna.Demo.Calls.{rule_text, entry_of, edit_rule, delete_rule, with_entries}

on-ok :
    {A : Type 0} (r : Checked A) (next : A → State → Step) (s after : State)
    → on r next s ≡ ok after
    → (a : A) × (r ≡ gives a) × (next a s ≡ ok after)
unfolding on
on-ok (throws e) next s after h = absurd cc
on-ok (gives a) next s after h = (a, refl, h)

get_elem?-set_at :
    (i : ℕ) (t raw : Text) (xs : List Text)
    → get_elem? xs i ≡ some raw
    → get_elem? (set_at i t xs) i ≡ some t
unfolding set_at
get_elem?-set_at i t raw [] h = absurd cc
get_elem?-set_at zero t raw (x ∷ xs) h = refl
get_elem?-set_at (suc i) t raw (x ∷ xs) h = get_elem?-set_at i t raw xs h

get_list-set_list :
    (field : ListField) (xs : List Text) (c : Config) → get_list field (set_list field xs c) ≡ xs
get_list-set_list rules_request xs c = refl
get_list-set_list custom_secrules xs c = refl
get_list-set_list rule_action_overrides xs c = refl
get_list-set_list rule_response_overrides xs c = refl

find_service-replace_service :
    (id : Text) (svc old : Service) (fleet : List Service)
    → text_eq svc.plugin_id id ≡ true
    → find_service id fleet ≡ some old
    → find_service id (replace_service id svc fleet) ≡ some svc
unfolding find_service replace_service
find_service-replace_service id svc old [] e h = absurd cc
find_service-replace_service id svc old (f ∷ fleet) e h =
    elim (Bool-cases (text_eq f.plugin_id id)) [
      | inl same ↦ rw (same, e) refl
      | inr other ↦
          rw (other, other)
            (find_service-replace_service id svc old fleet e
              (subst (λ b. (if b then some f else find_service id fleet) ≡ some old) other h))
    ]

check_found-gives :
    (o : Option Text) (etag raw : Text) → check_found o etag ≡ gives raw → (t : Text) × (o ≡ some t)
check_found-gives none etag raw h = absurd cc
check_found-gives (some t) etag raw h = (t, refl)

-- After the text at an index was set, an etag that is stale for the new text is refused there.
entry_of-with_entries :
    (field : Option ListField) (svc : Service) (index : ℕ) (etag raw text : Text)
    → entry_of field svc index etag ≡ gives raw
    → is_stale text etag ≡ true
    → entry_of field (with_entries (set_at index text) field svc) index etag
      ≡ throws changed_meanwhile
unfolding entry_of check_entry
entry_of-with_entries none svc index etag raw text h stale = absurd cc
entry_of-with_entries (some field) svc index etag raw text h stale =
    let xs = get_list field svc.config in
    let found = check_found-gives (get_elem? xs index) etag raw h in
    let there =
      ap (λ l. get_elem? l index) (get_list-set_list field (set_at index text xs) svc.config)
      ∙ get_elem?-set_at index text (found.0) xs (found.1) in
    ap (λ o. check_found o etag) there ∙ (rw stale refl)

on-gives :
    {A : Type 0} (r : Checked A) (next : A → State → Step) (s : State) (a : A) (step : Step)
    → r ≡ gives a
    → on r next s ≡ step
    → next a s ≡ step
on-gives r next s a step e h =
    let at : on (gives a) next s ≡ step = subst (λ q. on q next s ≡ step) e h in unfold on in at

on-refused :
    {A B : Type 0} (r : Checked A) (a : A) (check : A → Checked B) (next : A → B → State → Step)
    (e : Error) (s : State)
    → r ≡ gives a
    → check a ≡ throws e
    → on r (λ x. on (check x) (next x)) s ≡ thrown e s
on-refused r a check next e s h k =
    ap (λ q. on q (λ x. on (check x) (next x)) s) h ∙ unfold on in ap (λ q. on q (next a) s) k

or_throw-gives :
    (o : Option Service) (svc : Service) → or_throw no_plugin o ≡ gives svc → o ≡ some svc
or_throw-gives none svc h = absurd cc
or_throw-gives (some a) svc h = let same : a ≡ svc = cc in ap some same

service-gives :
    (id : Text) (s : State) (svc : Service)
    → service id s ≡ gives svc
    → find_service id s.fleet ≡ some svc
unfolding service
service-gives id s svc h = or_throw-gives (find_service id s.fleet) svc h

finish-service :
    (now : ℕ) (action id : Text) (svc old : Service) (detail : Detail) (s after : State)
    → HasPlugin id svc
    → find_service id s.fleet ≡ some old
    → finish now action id svc detail s ≡ ok after
    → service id after ≡ gives svc
unfolding finish record_change service
finish-service now action id svc old detail s after e found h =
    let at : record_change now action (some svc) detail
          (record s { fleet = replace_service id svc s.fleet })
        ≡ after =
      cc in
    subst (λ t. service id t ≡ gives svc) at
      (ap (or_throw no_plugin) (
        find_service-replace_service id svc old s.fleet ((text_eq_iff svc.plugin_id id).1 e) found))

module _ (stringify : Value → Text) (parse_json : Text → Option Value) (now later : ℕ) where
  -- After a successful edit that stored a text with another etag, a second client that still holds the
  -- earlier etag can neither edit nor delete the entry at this index: both calls throw that the rule
  -- changed meanwhile, and leave the state as the first client left it.
  pub edit_rule-refuses_stale :
      (id kind : Text) (index : ℕ) (rule other : Value) (etag text : Text) (s after : State)
      → rule_text stringify parse_json now kind rule ≡ gives text
      → edit_rule stringify parse_json now id kind index rule etag s ≡ ok after
      → is_stale text etag ≡ true
      → (edit_rule stringify parse_json later id kind index other etag after
          ≡ thrown changed_meanwhile after)
        × (delete_rule stringify parse_json later id kind index etag after
            ≡ thrown changed_meanwhile after)
  unfolding edit_rule delete_rule
  edit_rule-refuses_stale id kind index rule other etag text s after ht h stale =
      let one = on-ok (service id s) _ s after h in
      let svc = one.0 in
      let two = on-ok (entry_of (rule_field kind) svc index etag) _ s after (one.2) in
      let done =
        on-gives (rule_text stringify parse_json now kind rule) _ s text (ok after) ht (two.2) in
      let found = service-gives id s svc (one.1) in
      let same = find_service-plugin_id id s.fleet svc found in
      let edited = with_entries (set_at index text) (rule_field kind) svc in
      let now_there =
        finish-service now _ id edited svc _ s after
          (with_entries-HasPlugin id (set_at index text) (rule_field kind) svc same) found done in
      let refused =
        entry_of-with_entries (rule_field kind) svc index etag (two.0) text (two.1) stale in
      (
        on-refused (service id after) edited (λ t. entry_of (rule_field kind) t index etag) _
            changed_meanwhile after now_there refused,
        on-refused (service id after) edited (λ t. entry_of (rule_field kind) t index etag) _
            changed_meanwhile after now_there refused,
      )
