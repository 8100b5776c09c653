-- ===== src/Services/Tests.antt =====
-- Two services in a table that is sorted by name, and one that is opened and saved.
use karna.Common.{
  ◌≡◌, refl, Bool, true, false, Option, none, some, List, [], ◌∷◌, keep, length, ltb, arith,
  if◌then◌else◌,
}
use karna.Text.{Text, codes, strip_prefix}
use karna.Value.{
  Value, bool, num, str, arr, no_elements, Properties, no_properties, property, get_field,
}
use karna.Table.{Order, less, same, more}
use karna.Table.Sorted.{AreOrdered, Flips}
use karna.Services.{Service, Filters, visible_services}
use karna.Services.Listed.{name, is_shown, StandsBefore, visible_services_lem}
use karna.Settings.Config.{create_service_config}
use karna.Services.Save.{Draft, open_draft, policy_of, body_of}
use karna.Services.Save.Unchanged.{body_of-open_draft}
use mathlib.Core.List.{Perm}

abbrev lower : Text → Text
lower t = t

-- A locale in which the shorter text comes first.
abbrev by_length : Text → Text → Order
by_length a b =
    if ltb (length a) (length b) then less else if ltb (length b) (length a) then more else same

by_length-Flips : Flips by_length
by_length-Flips a b = ground arith

abbrev service : Text → Bool → Service
service title blocking = record {
  own_properties = property "name" (str title) no_properties;
  config_properties = property "engine_blocking_mode" (bool blocking) no_properties;
  observed_properties = property "status" (str (codes "ready")) no_properties;
}

abbrev services : List Service
services =
    service (codes "shop") true
    ∷ service (codes "storehouse") true
    ∷ service (codes "shop-docs") false
    ∷ service (codes "so") true
    ∷ []

abbrev filters : Filters
filters = record {
  query = codes "o";
  mode_filter = codes "blocking";
  status_filter = codes "all";
  sort = record { key = codes "name"; ascending = false };
}

visible_services_runs :
    visible_services lower by_length by_length by_length filters services
    ≡ service (codes "storehouse") true
      ∷ service (codes "shop") true
      ∷ service (codes "so") true
      ∷ []
unfolding visible_services strip_prefix
visible_services_runs = refl

visible_services_example :
    Perm
      (visible_services lower by_length by_length by_length filters services)
      (keep (is_shown lower filters) services)
    × AreOrdered
        (StandsBefore lower by_length by_length by_length name false)
        (visible_services lower by_length by_length by_length filters services)
visible_services_example =
    visible_services_lem lower by_length by_length by_length by_length-Flips by_length-Flips
      by_length-Flips filters name services refl

abbrev always : Value → Value → Bool
always v w = true

abbrev configuration : Properties
configuration =
    property "paranoia_level" (num (codes "2"))
      (property "engine_blocking_mode" (bool true) no_properties)

-- The draft of a configuration that opens.
abbrev draft_or : Draft → Option Draft → Draft
draft_or d none = d
draft_or d (some e) = e

abbrev blank : Draft
blank = record {
  blocking = bool true;
  level = num [];
  crs = bool true;
  rulesets = no_properties;
  plugins = arr no_elements;
  flags = no_properties;
  base = no_properties;
  edited = no_properties;
  password = [];
  clear_password = false;
}

abbrev draft : Draft
draft = draft_or blank (open_draft configuration)

draft_opens : open_draft configuration ≡ some draft
unfolding open_draft create_service_config get_field
draft_opens = refl

body_of-open_draft_example : body_of always draft ≡ policy_of draft
body_of-open_draft_example = body_of-open_draft always (λ v. refl) configuration draft draft_opens
