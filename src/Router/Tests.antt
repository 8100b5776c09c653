-- ===== src/Router/Tests.antt =====
-- The route of an event, with encoders that keep a text as it is.
use karna.Common.{none, [], ◌∷◌, ◌≡◌, refl, sym, true, Option, some}
use karna.Text.{strip_prefix, Text, codes, text_eq, contains}
use karna.Router.{views, route, parse_hash, to_hash}
use karna.Router.Tab.{nav, hash_change, starts, without_view, initial_route, steps}
use karna.Router.Tab.Known.{is_known, is_known-steps}
use karna.Router.RoundTrip.{parse_hash-to_hash}

abbrev same : Text → Option Text
same s = some s

to_hash_runs :
    to_hash same same (codes "rules") (some (codes "custom/3")) ≡ some (codes "#/rules/custom/3")
unfolding to_hash
to_hash_runs = refl

rules_is_view : contains (codes "rules") views ≡ true
unfolding contains text_eq
rules_is_view = refl

parse_hash-to_hash_example :
    parse_hash same same (codes "#/rules/custom/3")
    ≡ route (record { view = codes "rules"; param = some (codes "custom/3") })
parse_hash-to_hash_example =
    parse_hash-to_hash same same (codes "rules") (some (codes "custom/3"))
      (codes "#/rules/custom/3") (λ s e h. sym h) rules_is_view to_hash_runs

tab_starts :
    initial_route same same [] (some (codes "customrules"))
    ≡ starts (record { view = codes "rules"; param = some (codes "custom") })
unfolding initial_route strip_prefix
tab_starts = refl

-- A stored view that every object inherits.
inherited_starts : initial_route same same [] (some (codes "constructor")) ≡ without_view
unfolding initial_route strip_prefix
inherited_starts = refl

is_known-steps_example :
    is_known
      (steps same same
        (nav (codes "nowhere") none ∷ hash_change (codes "#/events/7") ∷ [])
        (record {
          hash = [];
          stored = some (codes "customrules");
          shown = record { view = codes "rules"; param = some (codes "custom") };
        })).shown
    ≡ true
is_known-steps_example =
    is_known-steps same same [] (some (codes "customrules"))
      (record { view = codes "rules"; param = some (codes "custom") })
      (nav (codes "nowhere") none ∷ hash_change (codes "#/events/7") ∷ []) tab_starts
