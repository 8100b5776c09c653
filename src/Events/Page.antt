-- ===== src/Events/Page.antt =====
-- views/Events.jsx, lines 165 to 216: which events the list shows, filtered and page by page.
pub mod Laws
use karna.Common.{
  ℕ, ◌+◌, ◌-◌, ◌*◌, ◌/◌, Bool, true, false, not, ◌&&◌, ◌||◌, Option, none, some, List, [], ◌∷◌,
  ◌++◌, map, any, leb, if◌then◌else◌, length, take, drop, keep,
}
use karna.Text.{Text, codes, text_eq, includes, contains, is_empty}
use karna.Value.{
  Value, undefined, null, bool, num, str, arr, obj, is_truthy, get, to_text, text_or_empty,
  elements, items_of,
}
use karna.Dashboard.{primary_match, event_category, event_disposition}

-- `Set.has` on what two texts of JSON hold: two objects of theirs are never the same one.
unfoldable pub same_item : Value → Value → Bool
unfolding text_eq
same_item undefined undefined = true
same_item null null = true
same_item (bool true) (bool b) = b
same_item (bool false) (bool b) = not b
same_item (num s) (num t) = text_eq s t
same_item (str s) (str t) = text_eq s t
same_item v w = false

-- `typeof v === "string"`, `Array.isArray(v)`
abbrev pub is_string : Value → Bool
is_string (str s) = true
is_string _ = false

abbrev pub is_array : Value → Bool
is_array (arr vs) = true
is_array _ = false

unfoldable pub is_usable : List Value → Value → Bool
unfolding is_truthy get same_item
is_usable services event =
    is_truthy event
    && any (λ service. same_item (get "id" service) (get "id" (get "service" event))) services
    && is_string (get "request_id" event)
    && is_string (get "name" (get "service" event))
    && is_string (get "uri" (get "request" event))
    && is_truthy (get "client" event)
    && is_truthy (get "server" event)
    && is_truthy (get "response" event)
    && is_truthy (get "engine" event)
    && is_array (get "matches" event)

-- The events of the dashboard's data that the view takes.
unfoldable pub usable_events : Value → List Value
unfolding is_usable get
usable_events display =
    keep (is_usable (elements (items_of (get "services" display))))
      (elements (items_of (get "events" display)))

-- The state of the view's filter bar and pager.
pub record Filters : Type 0 where
  pub q : Text
  pub svc : Text
  pub cat : Text
  pub act : Text
  pub page : ℕ

abbrev pub page_size : ℕ
page_size = 50

abbrev pub all : Text
all = codes "all"

abbrev pub clear_filters : Filters → Filters
clear_filters f = record { q = []; svc = all; cat = all; act = all; page = 0 }

-- `setFilter(fn)`
abbrev pub set_filter : (Filters → Filters) → Filters → Filters
set_filter fn f = record (fn f) { page = 0 }

-- `pivot(needle)`, which closes the event besides
abbrev pub pivot : Text → Filters → Filters
pivot needle f = record (clear_filters f) { q = needle }

abbrev pub is_enforced : Text → Bool
is_enforced d = contains d (codes "blocked" ∷ codes "rate_limited" ∷ codes "sanitized" ∷ [])

unfoldable pub passes_action : Text → Text → Bool
unfolding text_eq contains
passes_action act disposition =
    not (text_eq act (codes "enforced") && not (is_enforced disposition))
    && not (
        text_eq act (codes "detected")
        && not (text_eq disposition (codes "detected") || text_eq disposition (codes "observed")))

module _ (lower : Text → Text) where
  -- The text in which a query is looked for. The ip of a client is a text.
  unfoldable pub haystack : Value → Text
  unfolding get to_text text_or_empty primary_match
  haystack e = lower (
      to_text (get "ip" (get "client" e))
      ++ (codes " "
          ++ (to_text (get "uri" (get "request" e))
              ++ (codes " "
                  ++ (text_or_empty (get "rule_id" (primary_match e))
                      ++ (codes " " ++ to_text (get "name" (get "service" e))))))))

  unfoldable pub passes : Filters → Value → Bool
  unfolding passes_action text_eq haystack event_disposition event_category includes
  passes f e =
      passes_action f.act (event_disposition e)
      && not
          (not (text_eq f.svc all) && not (text_eq (to_text (get "name" (get "service" e))) f.svc))
      && not (not (text_eq f.cat all) && not (text_eq (event_category lower e) f.cat))
      && not (not (is_empty f.q) && not (includes (lower f.q) (haystack e)))

  unfoldable pub filtered : Filters → List Value → List Value
  unfolding passes
  filtered f events = keep (passes f) events

-- `Math.max(1, Math.ceil(n / PAGE_SIZE))`
abbrev pub at_least_one : ℕ → ℕ
at_least_one n = if leb 1 n then n else 1

unfoldable pub pages : ℕ → ℕ
pages n = at_least_one ((n + (page_size - 1)) / page_size)

-- `Math.min(page, pages - 1)`
unfoldable pub clamp_page : ℕ → ℕ → ℕ
clamp_page count page = if leb page (count - 1) then page else count - 1

unfoldable pub page_clamped : Filters → List Value → ℕ
unfolding pages clamp_page
page_clamped f rows = clamp_page (pages (length rows)) f.page

-- `rows.slice(p * PAGE_SIZE, (p + 1) * PAGE_SIZE)`
unfoldable pub page_rows : {A : Type 0} → ℕ → List A → List A
page_rows p rows = take page_size (drop (p * page_size) rows)

unfoldable pub visible : Filters → List Value → List Value
unfolding page_rows page_clamped
visible f rows = page_rows (page_clamped f rows) rows

-- The event that the address names.
unfoldable pub find_event : Text → List Value → Option Value
unfolding text_eq get to_text
find_event id [] = none
find_event id (e ∷ events) =
    let rest = find_event id events in
    if text_eq (to_text (get "request_id" e)) id then some e else rest
