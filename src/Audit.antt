-- ===== src/Audit.antt =====
-- views/Audit.jsx, lines 8 to 75 and 174 to 201: the recorded changes, how each is told, and which are shown.
pub mod Shown
mod Tests
use karna.Common.{
  ℕ, ◌+◌, ◌-◌, ◌*◌, String, Bool, true, false, not, ◌&&◌, ◌||◌, Option, none, some, List, [], ◌∷◌,
  ◌++◌, map, ltb, ◌==◌, if◌then◌else◌, keep, any, take, length,
}
use karna.Text.{Text, codes, text_eq, is_empty, includes, join, is_space, strip, trim}
use karna.Value.{
  Value, undefined, null, num, str, obj, arr, Properties, no_properties, property, get, is_truthy,
  to_text, is_object, spread,
}
use karna.Dashboard.{is_text}
use karna.Editor.Schema.{look_up}
use karna.Table.{Order, SortBy, directed, compared, change_sort, sort_by}
use text.Mathlib.Text.{◌==◌ as name_eq}

abbrev pub action_labels : List (Text × Text)
action_labels =
    (codes "sessions_revoked", codes "Signed out everywhere")
    ∷ (codes "password_changed", codes "Password changed")
    ∷ (codes "engine_update", codes "Engine update")
    ∷ (codes "action_override_add", codes "Action override added")
    ∷ (codes "action_override_update", codes "Action override updated")
    ∷ (codes "action_override_remove", codes "Action override removed")
    ∷ (codes "response_override_add", codes "Response override added")
    ∷ (codes "response_override_update", codes "Response override updated")
    ∷ (codes "response_override_remove", codes "Response override removed")
    ∷ (codes "service_create", codes "Service created")
    ∷ (codes "service_update", codes "Service updated")
    ∷ (codes "service_delete", codes "Service deleted")
    ∷ (codes "rule_add", codes "Rule added")
    ∷ (codes "rule_update", codes "Rule updated")
    ∷ (codes "rule_remove", codes "Rule removed")
    ∷ (codes "logs_ttl_update", codes "Log TTL changed")
    ∷ (codes "logs_purge", codes "Logs purged")
    ∷ (codes "kong_connection_save", codes "Kong connection saved")
    ∷ (codes "kong_connection_activate", codes "Kong connection activated")
    ∷ (codes "kong_connection_remove", codes "Kong connection removed")
    ∷ (codes "kong_connection_update", codes "Kong connection changed")
    ∷ (codes "setup_completed", codes "Setup completed")
    ∷ (codes "assistant_action_execute", codes "Assistant change authorized")
    ∷ (codes "assistant_action_reject", codes "Assistant change rejected")
    ∷ (codes "assistant_kong_request", codes "Kong changed by the assistant")
    ∷ (codes "setup_skipped", codes "Setup skipped")
    ∷ []

-- `a || b`
abbrev pub or_value : Value → Value → Value
or_value a b = if is_truthy a then a else b

-- `replaceAll("_", " ")`
abbrev pub spaced : Text → Text
spaced t = map (λ c. if c == 95 then 32 else c) t

abbrev pub label_or : Option Text → Text → Text
label_or none fallback = fallback
label_or (some label) fallback = label

-- `labelOf(action)`
unfoldable pub label_of : Value → Text
unfolding look_up is_truthy to_text
label_of action =
    label_or (look_up (to_text action) action_labels)
      (spaced (to_text (or_value action (str (codes "Unknown change")))))

-- `SORT_VALUE.action`
abbrev pub action_or_label : Value → Value
action_or_label action =
    str (label_or (look_up (to_text action) action_labels) (to_text (or_value action (str []))))

abbrev pub has_name : String → List String → Bool
has_name name names = any (λ n. name_eq n name) names

-- `[...new Set([...Object.keys(before || {}), ...Object.keys(after || {})])]`, behind the names that are known
unfoldable pub new_names : List String → Properties → List String
new_names known no_properties = []
new_names known (property k v fs) =
    let skipped = new_names known fs in
    let taken = k ∷ new_names (k ∷ known) fs in if has_name k known then skipped else taken

unfoldable pub changed_names : Value → Value → List String
unfolding new_names
changed_names before after =
    let first = new_names [] (spread before) in first ++ new_names first (spread after)

-- `JSON.stringify` and the text of a number are parameters.
module _ (json : Value → Text) (print : ℕ → Text) where
  unfoldable pub short_value : Value → Text
  unfolding to_text
  short_value undefined = codes "—"
  short_value null = codes "—"
  short_value (obj fs) = json (obj fs)
  short_value (arr vs) = json (arr vs)
  short_value v = to_text v

  -- The changed fields, `none` where there are none
  abbrev pub fields_summary : Value → Value → List String → Option Text
  fields_summary before after [] = none
  fields_summary before after (key ∷ []) = some (
      codes key
      ++ (codes ": "
          ++ (short_value (get key before) ++ (codes " → " ++ short_value (get key after)))))
  fields_summary before after (key ∷ second ∷ keys) =
      let names = key ∷ second ∷ keys in
      some (
        print (length names)
        ++ (codes " fields · "
            ++ (join (codes ", ") (map codes (take 3 names))
                ++ (if ltb 3 (length names) then codes "…" else []))))

  abbrev pub is_nullish : Value → Bool
  is_nullish undefined = true
  is_nullish null = true
  is_nullish _ = false

  abbrev pub detail_summary : Value → Text
  detail_summary detail =
      if is_truthy (get "selector" detail)
      then codes "selector " ++ json (get "selector" detail)
      else if is_truthy (get "id" detail)
      then to_text (or_value (get "kind" detail) (str (codes "rule")))
        ++ (codes " · " ++ to_text (get "id" detail))
      else if not (is_nullish (get "index" detail))
      then codes "entry index " ++ to_text (get "index" detail)
      else if is_truthy detail
      then json detail
      else codes "No additional context"

  unfoldable pub change_summary : Value → Text
  unfolding changed_names short_value join get is_truthy to_text
  change_summary change =
      let before = get "before" change in
      let after = get "after" change in
      if is_truthy before || is_truthy after
      then label_or (fields_summary before after (changed_names before after))
          (detail_summary (get "detail" change))
      else detail_summary (get "detail" change)

-- The state of the list; `none` for a period of "all", and a number of days otherwise.
pub record Filters : Type 0 where
  pub query : Text
  pub action : Text
  pub service : Text
  pub actor : Text
  pub period : Option ℕ
  pub sort : SortBy

abbrev pub all : Text
all = codes "all"

abbrev pub clear_filters : Filters → Filters
clear_filters f = record {
  query = [];
  action = all;
  service = all;
  actor = all;
  period = none;
  sort = f.sort;
}

-- `DEFAULT_SORT[key] || "asc"`
unfoldable pub starts_ascending : Text → Bool
unfolding text_eq
starts_ascending key = not (text_eq key (codes "time"))

abbrev pub sort_on : Text → Filters → Filters
sort_on key f = record f { sort = change_sort starts_ascending key f.sort }

-- The time below which a change is left out, 0 for none; one before 1970 leaves out none either.
abbrev pub cutoff : ℕ → Option ℕ → ℕ
cutoff now none = 0
cutoff now (some days) = now - days * 86400

-- Whether a filter other than "all" refuses a value.
abbrev pub refuses : Text → Value → Bool
refuses chosen v = not (text_eq chosen all) && not (is_text chosen v)

-- Parameters are the time in seconds, `Number(ts || 0)` as a number and as its text, and the comparisons.
module _ (lower : Text → Text) (json : Value → Text) (print : ℕ → Text) (now : ℕ)
    (seconds : Value → ℕ) (number : Value → Text) (difference locale : Text → Text → Order) where
  unfoldable pub searchable : Value → Text
  unfolding label_of change_summary join get is_truthy to_text
  searchable change = join (codes " ") (
      map to_text (
        keep is_truthy (
          str (label_of (get "action" change))
          ∷ get "action" change
          ∷ get "actor" change
          ∷ get "service" change
          ∷ get "plugin_id" change
          ∷ str (change_summary json print change)
          ∷ str (json (or_value (get "detail" change) (obj no_properties)))
          ∷ str (json (or_value (get "before" change) (obj no_properties)))
          ∷ str (json (or_value (get "after" change) (obj no_properties)))
          ∷ [])))

  unfoldable pub passes : Filters → Value → Bool
  unfolding text_eq is_text searchable includes strip is_space get
  passes f change =
      let needle = lower (trim f.query) in
      not (refuses f.action (get "action" change))
      && (not (refuses f.service (get "service" change))
          && (not (refuses f.actor (get "actor" change))
              && (not (ltb (seconds (get "ts" change)) (cutoff now f.period))
                  && (is_empty needle || includes needle (lower (searchable change))))))

  -- `SORT_VALUE[key] || SORT_VALUE.time`
  unfoldable pub sort_value : Text → Value → Value
  unfolding text_eq get is_truthy look_up to_text
  sort_value key change =
      if text_eq key (codes "actor")
      then or_value (get "actor" change) (str [])
      else if text_eq key (codes "action")
      then action_or_label (get "action" change)
      else if text_eq key (codes "service")
      then or_value (get "service" change) (str [])
      else num (number (get "ts" change))

  abbrev pub in_order : SortBy → Value → Value → Order
  in_order sort a b =
      directed sort.ascending
        (compared difference locale (sort_value sort.key a) (sort_value sort.key b))

  unfoldable pub visible : Filters → List Value → List Value
  unfolding passes sort_value compared sort_by
  visible f changes = sort_by (in_order f.sort) (keep (passes f) changes)
