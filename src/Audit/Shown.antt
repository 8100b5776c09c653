-- ===== src/Audit/Shown.antt =====
-- What the audit view shows, and in which order.
use karna.Common.{
  ℕ, ◌+◌, ◌*◌, ◌≡◌, refl, ap, subst, ◌∙◌, Bool, true, false, not, ◌&&◌, ◌||◌, Option, none, some,
  List, [], keep, arith, ltb, leb,
}
use karna.Text.{Text, codes, text_eq, is_empty, includes, trim}
use karna.Value.{Value, num, str, get}
use karna.Dashboard.{is_text}
use karna.Table.{Order, same, compared, directed, is_more, sort_by}
use karna.Table.Sorted.{
  Flips, AreOrdered, Before, IsSorted-AreOrdered, directed-Before, sort_by-Perm, sort_by-IsSorted,
  compared-Flips, directed-Flips, keep_same,
}
use karna.Audit.{
  Filters, refuses, cutoff, or_value, action_or_label, searchable, passes, in_order, sort_value,
  visible,
}
use mathlib.Core.List.{Perm}

-- The columns of the table.
pub data Column : Type 0 where
  time actor action service : Column

abbrev pub column_id : Column → Text
column_id time = codes "time"
column_id actor = codes "actor"
column_id action = codes "action"
column_id service = codes "service"

-- The value that a filter asks for, or any.
abbrev pub allows : Text → Value → Bool
allows chosen v = text_eq chosen (codes "all") || is_text chosen v

allows_lem : (chosen : Text) (v : Value) → not (refuses chosen v) ≡ allows chosen v
allows_lem chosen v = ground arith

-- Whether a change is of the last so many days.
abbrev pub is_recent : ℕ → Option ℕ → ℕ → Bool
is_recent now none seconds = true
is_recent now (some days) seconds = leb now (seconds + days * 86400)

is_recent_lem :
    (now : ℕ) (period : Option ℕ) (seconds : ℕ)
    → not (ltb seconds (cutoff now period)) ≡ is_recent now period seconds
is_recent_lem now none seconds = ground arith
is_recent_lem now (some days) seconds = ground arith

module _ (lower : Text → Text) (json : Value → Text) (print : ℕ → Text) (now : ℕ)
    (seconds : Value → ℕ) (number : Value → Text) (difference locale : Text → Text → Order) where
  -- The value of a change in a column.
  abbrev pub value_in : Column → Value → Value
  value_in time change = num (number (get "ts" change))
  value_in actor change = or_value (get "actor" change) (str [])
  value_in action change = action_or_label (get "action" change)
  value_in service change = or_value (get "service" change) (str [])

  -- Whether the filters let a change through.
  abbrev pub is_shown : Filters → Value → Bool
  is_shown f change =
      allows f.action (get "action" change)
      && (allows f.service (get "service" change)
          && (allows f.actor (get "actor" change)
              && (is_recent now f.period (seconds (get "ts" change))
                  && (is_empty (lower (trim f.query))
                      || includes (lower (trim f.query)) (
                          lower (
                            searchable lower json print now seconds number difference locale
                              change))))))

  passes-is_shown :
      (f : Filters) (change : Value)
      → passes lower json print now seconds number difference locale f change ≡ is_shown f change
  unfolding passes
  passes-is_shown f change =
      rw
        (
          is_recent_lem now f.period (seconds (get "ts" change)),
          allows_lem f.action (get "action" change),
          allows_lem f.service (get "service" change),
          allows_lem f.actor (get "actor" change),
        )
        refl

  sort_value-column_id :
      (c : Column) (change : Value)
      → sort_value lower json print now seconds number difference locale (column_id c) change
        ≡ value_in c change
  unfolding sort_value text_eq
  sort_value-column_id time change = refl
  sort_value-column_id actor change = refl
  sort_value-column_id action change = refl
  sort_value-column_id service change = refl

  -- Which change may stand right before which in a column.
  abbrev pub StandsBefore : Column → Bool → Value → Value → Type 0
  StandsBefore c ascending a b =
      Before ascending (compared difference locale (value_in c a) (value_in c b)) same

  order-Flips :
      (f : Filters)
      → Flips difference
      → Flips locale
      → Flips (in_order lower json print now seconds number difference locale f.sort)
  order-Flips f d l =
      let value = sort_value lower json print now seconds number difference locale f.sort.key in
      directed-Flips f.sort.ascending (λ a b. compared difference locale (value a) (value b))
        (λ a b. compared-Flips difference locale d l (value a) (value b))

  -- The view shows each change once that the filters of the action, of the service and of the actor, the period and
  -- the search let through, and no other. It is sorted by the value of the chosen column: of two neighbours the
  -- first has the lower value when the direction is ascending and the higher one when it is descending, or their
  -- values compare the same. The condition is that the comparisons of JavaScript change their sign when their
  -- arguments are swapped.
  pub visible_changes_lem :
      Flips difference
      → Flips locale
      → (f : Filters) (c : Column) (changes : List Value) → f.sort.key ≡ column_id c
      → Perm
          (visible lower json print now seconds number difference locale f changes)
          (keep (is_shown f) changes)
        × AreOrdered
            (StandsBefore c f.sort.ascending)
            (visible lower json print now seconds number difference locale f changes)
  unfolding visible
  visible_changes_lem d l f c changes chosen =
      let order = in_order lower json print now seconds number difference locale f.sort in
      let rows = keep (passes lower json print now seconds number difference locale f) changes in
      let value : (v : Value)
          → sort_value lower json print now seconds number difference locale f.sort.key v
            ≡ value_in c v =
        λ v.
          ap (λ k. sort_value lower json print now seconds number difference locale k v) chosen
          ∙ sort_value-column_id c v in
      (
        subst (λ ys. Perm (sort_by order rows) ys)
            (keep_same (passes lower json print now seconds number difference locale f) (is_shown f)
              changes (passes-is_shown f))
            (sort_by-Perm order rows),
        IsSorted-AreOrdered order (StandsBefore c f.sort.ascending) (sort_by order rows)
            (λ a b h.
              directed-Before f.sort.ascending
                (compared difference locale (value_in c a) (value_in c b))
                (subst
                  (λ (v : Value).
                    is_more
                      (directed f.sort.ascending (compared difference locale v (value_in c b)))
                    ≡ false)
                  (value a)
                  (subst
                    (λ (w : Value).
                      is_more (
                        directed f.sort.ascending (
                          compared difference locale
                            (sort_value lower json print now seconds number difference locale
                              f.sort.key a)
                            w))
                      ≡ false)
                    (value b) h)))
            (sort_by-IsSorted order (order-Flips f d l) rows),
      )
