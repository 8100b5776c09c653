-- ===== src/Events/Tests.antt =====
-- Events with a secret in them, the pages of some events, and their filters.
use karna.Common.{
  ◌≡◌, refl, ◌<◌, ◌≤◌, arith, true, Option, none, List, [], ◌∷◌, every, any, keep, length, List,
}
use karna.Text.{Text, codes}
use karna.Value.{Value, str, obj, no_properties, property}
use karna.Dashboard.{disposition_of}
use karna.Events.Redact.{Url, is_sensitive_name, redact_event, redact_params, param_keys}
use karna.Events.Redact.Alike.{
  AlikeValue, same, in_object, no_more, hidden, shown, redact_event-Alike,
}
use karna.Events.Redact.Secrecy.{is_plain, shows_nothing, redact_params_lem}
use karna.Events.Page.{Filters, page_size, pages, page_clamped, visible, passes_action, all}
use karna.Events.Page.Laws.{
  rows_of_pages, rows_of_pages_lem, visible_bounds, is_enforcing, passes_action_enforced,
}

abbrev no_url : Text → Option Url
no_url t = none

abbrev no_search : List (Text × Text) → Text
no_search ps = []

abbrev login : Text → Value
login secret = obj (
    property "action" (str (codes "block"))
      (property "body" (obj (property "password" (str secret) no_properties)) no_properties))

password_hidden : is_sensitive_name (codes "password") ≡ true
unfolding is_sensitive_name
password_hidden = refl

login-Alike : AlikeValue (login (codes "hunter2")) (login (codes "1234"))
login-Alike = in_object (
    shown (same (str (codes "block"))) (
      shown
        (in_object (hidden (str (codes "hunter2")) (str (codes "1234")) password_hidden no_more))
        no_more))

redact_event-Alike_example :
    redact_event no_url no_search (login (codes "hunter2"))
    ≡ redact_event no_url no_search (login (codes "1234"))
redact_event-Alike_example =
    redact_event-Alike no_url no_search (login (codes "hunter2")) (login (codes "1234")) login-Alike

abbrev params : List (Text × Text)
params =
    (codes "q", codes "shoes") ∷ (codes "token", codes "s3cret") ∷ (codes "page", codes "2") ∷ []

redact_params_example :
    (every shows_nothing (redact_params (param_keys params) params) ≡ true)
    × (keep is_plain (redact_params (param_keys params) params) ≡ keep is_plain params)
redact_params_example = redact_params_lem params

abbrev two_events : List Value
two_events = login (codes "hunter2") ∷ obj no_properties ∷ []

rows_of_pages_example : rows_of_pages (pages (length two_events)) 0 two_events ≡ two_events
rows_of_pages_example = rows_of_pages_lem two_events

abbrev third_page : Filters
third_page = record { q = []; svc = all; cat = all; act = all; page = 2 }

visible_bounds_example :
    (page_clamped third_page two_events < pages (length two_events))
    × (0 < length (visible third_page two_events))
    × (length (visible third_page two_events) ≤ page_size)
visible_bounds_example = visible_bounds third_page two_events (omega arith)

abbrev actions : List Value
actions = str (codes "log") ∷ str (codes "sanitized") ∷ []

passes_action_enforced_example :
    passes_action (codes "enforced") (disposition_of actions) ≡ any is_enforcing actions
passes_action_enforced_example = passes_action_enforced actions
