-- ===== src/RuleForm/Exclusion.antt =====
-- components/RuleModal.jsx, lines 104 to 134: the part of the rule form that builds an exclusion.
pub mod Toggle
use karna.Common.{
  ℕ, zero, suc, ◌+◌, Bool, true, false, not, ◌&&◌, ◌||◌, List, [], ◌∷◌, ◌++◌, map, ◌==◌,
  if◌then◌else◌, keep, take, length,
}
use karna.Text.{Text, codes, text_eq, is_empty, contains, includes, join, is_space, strip, trim}
use karna.Value.{Value, get, to_text}
use karna.Exclusion.Target.{RequestField}
use karna.Exclusion.Values.{split_exclusion_values}
use karna.Exclusion.Builder.{Builder}

-- The new list of `toggle(key, current, item)`
unfoldable pub toggle : List Text → Text → List Text
unfolding contains text_eq
toggle current item =
    if contains item current
    then keep (λ value. not (text_eq value item)) current
    else current ++ (item ∷ [])

abbrev pub toggle_rule_id : Text → Builder → Builder
toggle_rule_id id b = record b { selected_rule_ids = toggle b.selected_rule_ids id }

abbrev pub toggle_tag : Text → Builder → Builder
toggle_tag tag b = record b { selected_tags = toggle b.selected_tags tag }

abbrev pub change_at : ℕ → (RequestField → RequestField) → List RequestField → List RequestField
change_at index patch [] = []
change_at zero patch (f ∷ fs) = patch f ∷ fs
change_at (suc index) patch (f ∷ fs) = f ∷ change_at index patch fs

abbrev pub without : ℕ → List RequestField → List RequestField
without index [] = []
without zero (f ∷ fs) = fs
without (suc index) (f ∷ fs) = f ∷ without index fs

abbrev pub update_field : ℕ → (RequestField → RequestField) → Builder → Builder
update_field index patch b = record b { request_fields = change_at index patch b.request_fields }

abbrev pub remove_field : ℕ → Builder → Builder
remove_field index b = record b { request_fields = without index b.request_fields }

-- `toLocaleLowerCase` is a parameter.
module _ (lower : Text → Text) where
  -- The detections that the search offers
  unfoldable pub results : Text → List Text → List Value → List Value
  unfolding contains includes strip is_space get to_text
  results search selected_rule_ids detections =
      let query = lower (trim search) in
      take 6 (
        keep
          (λ item.
            not (contains (to_text (get "id" item)) selected_rule_ids)
            && (is_empty query
                || includes query (
                    lower
                      (to_text (get "message" item) ++ (codes " " ++ to_text (get "id" item))))))
          detections)

abbrev pub scope_count : Builder → ℕ
scope_count b =
    (if b.all_crs then 1 else 0)
    + length b.selected_rule_ids
    + length b.selected_tags
    + length (split_exclusion_values b.advanced_rule_ids)
    + length (split_exclusion_values b.advanced_tags)

abbrev pub one_or_more : ℕ → Text → Text → Text
one_or_more n one more = if n == 1 then one else more

-- The text of a number is a parameter.
module _ (print : ℕ → Text) where
  abbrev pub scope_parts : Builder → List Text
  scope_parts b =
      keep (λ t. not (is_empty t))
        ((if b.all_crs then codes "all CRS rules" else [])
          ∷ (if is_empty b.selected_rule_ids
              then []
              else print (length b.selected_rule_ids)
                ++ (codes " specific detection"
                    ++ one_or_more (length b.selected_rule_ids) [] (codes "s")))
          ∷ (if is_empty b.selected_tags
              then []
              else print (length b.selected_tags)
                ++ (codes " attack categor"
                    ++ one_or_more (length b.selected_tags) (codes "y") (codes "ies")))
          ∷ [])

  abbrev pub scope_text : List Text → Text
  scope_text [] = codes "the advanced selection"
  scope_text (p ∷ ps) = join (codes ", ") (p ∷ ps)

  unfoldable pub summary : Builder → Text
  unfolding join text_eq split_exclusion_values
  summary b =
      if scope_count b == 0
      then codes "Choose where this exclusion applies."
      else if text_eq b.exclusion_kind (codes "detections")
      then codes "Exclude complete detections across " ++ (scope_text (scope_parts b) ++ codes ".")
      else codes "Ignore "
        ++ (print (length b.request_fields)
            ++ (codes " request field"
                ++ (one_or_more (length b.request_fields) [] (codes "s")
                    ++ (codes " across " ++ (scope_text (scope_parts b) ++ codes ".")))))
