-- ===== src/Audit/Tests.antt =====
-- Changes of one action, by the length of the actor's name.
use karna.Common.{◌≡◌, refl, ℕ, true, some, List, [], ◌∷◌, keep, length, ltb, arith, if◌then◌else◌}
use karna.Text.{Text, codes, strip, is_space}
use karna.Value.{Value, str, obj, no_properties, property, to_text}
use karna.Table.{Order, less, same, more}
use karna.Table.Sorted.{Flips, AreOrdered}
use karna.Audit.{Filters, visible}
use karna.Audit.Shown.{actor, is_shown, StandsBefore, visible_changes_lem}
use mathlib.Core.List.{Perm}

abbrev lower : Text → Text
lower t = t

abbrev json : Value → Text
json v = []

abbrev print : ℕ → Text
print n = []

abbrev seconds : Value → ℕ
seconds v = 100

-- A locale in which the shorter text comes first.
abbrev by_length : Text → Text → Order
by_length a b =
    if ltb (length a) (length b) then less else if ltb (length b) (length a) then more else same

by_length-Flips : Flips by_length
by_length-Flips a b = ground arith

abbrev change : Text → Text → Value
change who what = obj (property "actor" (str who) (property "action" (str what) no_properties))

abbrev changes : List Value
changes =
    change (codes "anna") (codes "rule_add")
    ∷ change (codes "administrator") (codes "rule_add")
    ∷ change (codes "bernhard") (codes "rule_remove")
    ∷ change (codes "ed") (codes "rule_add")
    ∷ []

abbrev filters : Filters
filters = record {
  query = [];
  action = codes "rule_add";
  service = codes "all";
  actor = codes "all";
  period = some 7;
  sort = record { key = codes "actor"; ascending = true };
}

visible_runs :
    visible lower json print 200 seconds to_text by_length by_length filters changes
    ≡ change (codes "ed") (codes "rule_add")
      ∷ change (codes "anna") (codes "rule_add")
      ∷ change (codes "administrator") (codes "rule_add")
      ∷ []
unfolding visible strip is_space
visible_runs = refl

visible_changes_example :
    Perm
      (visible lower json print 200 seconds to_text by_length by_length filters changes)
      (keep (is_shown lower json print 200 seconds to_text by_length by_length filters) changes)
    × AreOrdered
        (StandsBefore lower json print 200 seconds to_text by_length by_length actor true)
        (visible lower json print 200 seconds to_text by_length by_length filters changes)
visible_changes_example =
    visible_changes_lem lower json print 200 seconds to_text by_length by_length by_length-Flips
      by_length-Flips filters actor changes refl
