-- ===== src/Router/Tab.antt =====
-- router.js, lines 8 to 9 and 23 to 62: the route that a tab shows, from its start on.
pub mod Known
use karna.Common.{Bool, true, false, Option, none, some, List, [], ◌∷◌, if◌then◌else◌}
use karna.Text.{Text, codes, text_eq, is_empty, contains}
use karna.Router.{Route, views, Parsed, throws, no_route, route, parse_hash, to_hash}

-- The names that `LEGACY` inherits from `Object.prototype`.
abbrev pub inherited_names : List Text
inherited_names =
    codes "constructor"
    ∷ codes "toString"
    ∷ codes "toLocaleString"
    ∷ codes "valueOf"
    ∷ codes "hasOwnProperty"
    ∷ codes "isPrototypeOf"
    ∷ codes "propertyIsEnumerable"
    ∷ codes "__proto__"
    ∷ codes "__defineGetter__"
    ∷ codes "__defineSetter__"
    ∷ codes "__lookupGetter__"
    ∷ codes "__lookupSetter__"
    ∷ []

-- What `LEGACY[stored]` is: a route, an inherited function or object, which has no view, or `undefined`.
pub data Legacy : Type 0 where
  old_view : Route → Legacy
  inherited missing : Legacy

unfoldable pub legacy : Text → Legacy
unfolding text_eq contains
legacy stored =
    if text_eq stored (codes "mode")
    then old_view (record { view = codes "services"; param = none })
    else if text_eq stored (codes "customrules")
    then old_view (record { view = codes "rules"; param = some (codes "custom") })
    else if contains stored inherited_names
    then inherited
    else missing

-- What a tab starts with: nothing where the hash does not decode, which throws; a route without a view; or a
-- route.
pub data Start : Type 0 where
  start_throws without_view : Start
  starts : Route → Start

abbrev pub overview : Route
overview = record { view = codes "overview"; param = none }

abbrev pub legacy_or : Legacy → Route → Start
legacy_or (old_view r) fallback = starts r
legacy_or inherited fallback = without_view
legacy_or missing fallback = starts fallback

-- The start from the view that was stored
unfoldable pub stored_route : Option Text → Start
unfolding legacy contains text_eq
stored_route none = starts overview
stored_route (some stored) =
    if is_empty stored
    then starts overview
    else legacy_or (legacy stored)
        (if contains stored views then record { view = stored; param = none } else overview)

abbrev pub first_route : Parsed → Option Text → Start
first_route throws stored = start_throws
first_route no_route stored = stored_route stored
first_route (route r) stored = starts r

-- The hash of the address, the stored view, and the route that is shown.
pub record Tab : Type 0 where
  pub hash : Text
  pub stored : Option Text
  pub shown : Route

-- A call of `nav` or `navReplace`, and the event of a new hash
pub data Step : Type 0 where
  nav : Text → Option Text → Step
  nav_replace : Text → Option Text → Step
  hash_change : Text → Step

-- `param || null`
abbrev pub param_or_null : Option Text → Option Text
param_or_null none = none
param_or_null (some []) = none
param_or_null (some (c ∷ s)) = some (c ∷ s)

module _ (encode decode : Text → Option Text) where
  -- `initialRoute()`
  unfoldable pub initial_route : Text → Option Text → Start
  unfolding parse_hash stored_route
  initial_route hash stored = first_route (parse_hash encode decode hash) stored

  abbrev pub show_parsed : Parsed → Tab → Tab
  show_parsed throws t = t
  show_parsed no_route t = t
  show_parsed (route r) t = record t { shown = r }

  -- The hash that is set, unless `encodeURIComponent` throws, which ends the call.
  abbrev pub with_hash : Option Text → (Text → Tab → Tab) → Tab → Tab
  with_hash none f t = t
  with_hash (some hash) f t = f hash t

  -- `nav` sets the hash, whose event then changes the route.
  unfoldable pub step : Step → Tab → Tab
  unfolding contains text_eq to_hash parse_hash
  step (nav view param) t =
      if contains view views
      then with_hash (to_hash encode decode view (param_or_null param))
          (λ hash u. record u { hash = hash }) (record t { stored = some view })
      else t
  step (nav_replace view param) t =
      if contains view views
      then with_hash (to_hash encode decode view (param_or_null param))
          (λ hash u. record u {
            hash = hash;
            shown = record { view = view; param = param_or_null param };
          })
          t
      else t
  step (hash_change hash) t = show_parsed (parse_hash encode decode hash) (record t { hash = hash })

  unfoldable pub steps : List Step → Tab → Tab
  unfolding step
  steps [] t = t
  steps (s ∷ ss) t = steps ss (step s t)
