-- ===== src/Services.antt =====
-- views/Services.jsx, lines 67 to 224 and 383 to 402: the list of the services and what changes their policy.
pub mod Tables
pub mod Listed
pub mod Save
mod Tests
use karna.Common.{
  Bool, true, false, not, ◌&&◌, ◌||◌, List, [], ◌∷◌, ◌++◌, map, if◌then◌else◌, keep, any,
}
use karna.Text.{Text, codes, text_eq, is_empty, includes, join, is_space, strip, trim}
use karna.Value.{
  Value, Properties, str, obj, get, is_truthy, text_or_empty, to_text, items_of, elements,
}
use karna.Dashboard.{is_text}
use karna.Table.{Order, SortBy, or_then, directed, compared, change_sort, sort_by}

-- A service of the list. The view relies on `config` and `observed` being there, without which it would throw.
pub record Service : Type 0 where
  pub own_properties : Properties
  pub config_properties : Properties
  pub observed_properties : Properties

abbrev pub own : Service → Value
own s = obj s.own_properties

abbrev pub config : Service → Value
config s = obj s.config_properties

abbrev pub observed : Service → Value
observed s = obj s.observed_properties

abbrev pub is_blocking : Service → Bool
is_blocking s = is_truthy (get "engine_blocking_mode" (config s))

-- `v || ""`
abbrev pub or_empty : Value → Value
or_empty v = if is_truthy v then v else str []

-- `SORT_VALUE[key] || SORT_VALUE.name`
unfoldable pub sort_value : Text → Service → Value
unfolding text_eq get is_truthy
sort_value key s =
    if text_eq key (codes "mode")
    then str (if is_blocking s then codes "blocking" else codes "detection")
    else if text_eq key (codes "policy")
    then get "paranoia_level" (config s)
    else if text_eq key (codes "requests")
    then get "reqs_24h" (observed s)
    else if text_eq key (codes "matchRate")
    then get "block_rate" (observed s)
    else if text_eq key (codes "routes")
    then get "routes" (own s)
    else if text_eq key (codes "latency")
    then get "latency_p95_ms" (observed s)
    else if text_eq key (codes "readiness")
    then or_empty (get "status" (observed s))
    else or_empty (get "name" (own s))

-- `DEFAULT_SORT_DIRECTION[key] || "asc"`
unfoldable pub starts_ascending : Text → Bool
unfolding text_eq
starts_ascending key = not (
    any (text_eq key)
      (codes "requests" ∷ codes "matchRate" ∷ codes "routes" ∷ codes "latency" ∷ []))

-- The state of the list.
pub record Filters : Type 0 where
  pub query : Text
  pub mode_filter : Text
  pub status_filter : Text
  pub sort : SortBy

abbrev pub all : Text
all = codes "all"

abbrev pub clear_filters : Filters → Filters
clear_filters f = record { query = []; mode_filter = all; status_filter = all; sort = f.sort }

unfoldable pub filters_active : Filters → Bool
unfolding text_eq strip is_space
filters_active f =
    not (is_empty (trim f.query))
    || (not (text_eq f.mode_filter all) || not (text_eq f.status_filter all))

abbrev pub sort_on : Text → Filters → Filters
sort_on key f = record f { sort = change_sort starts_ascending key f.sort }

-- The texts of a service that a search looks into
unfoldable pub searchable : Service → Text
unfolding join get is_truthy to_text
searchable s = join (codes " ") (
    map to_text (
      keep is_truthy (
        get "name" (own s)
        ∷ get "host" (own s)
        ∷ get "upstream_url" (own s)
        ∷ (elements (items_of (get "route_hosts" (own s)))
            ++ elements (items_of (get "route_paths" (own s)))))))

-- `toLocaleLowerCase`, the comparisons of the table and that of the names are parameters.
module _ (lower : Text → Text) (difference locale locale_names : Text → Text → Order) where
  unfoldable pub passes : Filters → Service → Bool
  unfolding text_eq is_text searchable includes strip is_space get is_truthy
  passes f s =
      let needle = lower (trim f.query) in
      not (text_eq f.mode_filter (codes "blocking") && not (is_blocking s))
      && (not (text_eq f.mode_filter (codes "detection") && is_blocking s)
          && (not (
                not (text_eq f.status_filter all)
                && not (is_text f.status_filter (get "status" (observed s))))
              && (is_empty needle || includes needle (lower (searchable s)))))

  -- The order of two services.
  abbrev pub by_name : Service → Service → Order
  by_name a b = locale_names (to_text (get "name" (own a))) (to_text (get "name" (own b)))

  abbrev pub in_order : SortBy → Service → Service → Order
  in_order sort a b =
      or_then
        (directed sort.ascending
          (compared difference locale (sort_value sort.key a) (sort_value sort.key b)))
        (by_name a b)

  unfoldable pub visible_services : Filters → List Service → List Service
  unfolding passes sort_value compared sort_by
  visible_services f services = sort_by (in_order f.sort) (keep (passes f) services)
