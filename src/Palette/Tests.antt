-- ===== src/Palette/Tests.antt =====
-- A search of some data, an event that it cannot read, and its keys.
use karna.Common.{
  ℕ, ◌≡◌, refl, ◌≤◌, arith, true, false, none, some, List, [], ◌∷◌, map, All, length, get_elem?,
}
use karna.Text.{Text, codes, is_space, strip_prefix}
use karna.Value.{Value, Properties, str, obj, no_properties, property, get}
use karna.Palette.{Data, Result, view_result, build_results, on_key, enter, goes_to}
use karna.Palette.Complete.{is_complete}
use karna.Palette.Keys.{arrow, press, on_key-enter_after_arrows}
use karna.Palette.Targets.{IsGood, build_results-IsGood}

abbrev lower : Text → Text
lower t = t

abbrev named_properties : Properties
named_properties = property "name" (str (codes "shop")) no_properties

abbrev named : Value
named = obj named_properties

abbrev event : Value
event = obj (
    property "client" (obj (property "ip" (str (codes "10.0.0.1")) no_properties)) (
      property "request" (obj (property "uri" (str (codes "/shop")) no_properties))
        (property "service" named no_properties)))

abbrev data_of_shop : Data
data_of_shop = record {
  service_objects = named_properties ∷ [];
  rule_objects = [];
  events = event ∷ [];
}

event_complete : is_complete event ≡ true
unfolding get
event_complete = refl

build_results-IsGood_example :
    (results : List Result) × ((build_results lower (codes "sho") data_of_shop ≡ some results)
      × (All (IsGood lower data_of_shop) results × (length results ≤ 12)))
build_results-IsGood_example =
    build_results-IsGood lower (codes "sho") data_of_shop (event_complete, tt)

-- A search with an event of the legacy format, which has no client.
legacy_throws :
    build_results lower
      (codes "sho")
      (record { service_objects = []; rule_objects = []; events = named ∷ [] })
    ≡ none
unfolding build_results strip_prefix is_space
legacy_throws = refl

abbrev results : List Result
results =
    view_result (record { view = codes "rules"; label = codes "Rules"; icon = codes "layers" })
    ∷ view_result (record { view = codes "audit"; label = codes "Audit"; icon = codes "history" })
    ∷ []

on_key-enter_after_arrows_example :
    (i : ℕ) × ((press results (map arrow (true ∷ true ∷ false ∷ [])) (some 0) ≡ some i)
      × ((r : Result) × ((get_elem? results i ≡ some r)
            × (on_key results enter (press results (map arrow (true ∷ true ∷ false ∷ [])) (some 0))
                ≡ goes_to r))))
on_key-enter_after_arrows_example =
    on_key-enter_after_arrows results (true ∷ true ∷ false ∷ []) (omega arith)
