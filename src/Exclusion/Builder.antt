-- ===== src/Exclusion/Builder.antt =====
-- exclusions.js, lines 157 to 233: the friendly builder, from and to the fields of the form.
pub mod SameValues
use karna.Common.{
  Bool, true, false, not, ◌&&◌, ◌||◌, Option, none, some, List, [], ◌∷◌, ◌++◌, map, ltb, ◌==◌,
  if◌then◌else◌, length, keep, every, any, flat_map,
}
use karna.Text.{Text, codes, text_eq, is_empty, join, contains, distinct, sort}
use karna.Exclusion.Target.{RequestField, request_field_to_target, request_field_from_target}
use karna.Exclusion.Values.{
  Group, ExclusionFields, split_exclusion_values, populated_groups, exclusion_input_valid,
}

-- `a.every((value, index) => value === b[index])`
unfoldable pub every_same : List Text → List Text → Bool
unfolding text_eq
every_same [] b = true
every_same (x ∷ a) [] = false
every_same (x ∷ a) (y ∷ b) = text_eq x y && every_same a b

unfoldable pub same_values : List Text → List Text → Bool
unfolding distinct sort every_same
same_values left right =
    let a = sort (distinct [] left) in
    let b = sort (distinct [] right) in length a == length b && every_same a b

-- What is absent is the empty text, and what is no array is the empty list.
pub record Builder : Type 0 where
  pub exclusion_kind : Text
  pub all_crs : Bool
  pub selected_rule_ids : List Text
  pub selected_tags : List Text
  pub advanced_rule_ids : Text
  pub advanced_tags : Text
  pub request_fields : List RequestField

abbrev pub crs_tag : Text
crs_tag = codes "OWASP_CRS"

unfoldable pub builder_rule_ids : Builder → List Text
unfolding distinct split_exclusion_values
builder_rule_ids b = distinct [] (b.selected_rule_ids ++ split_exclusion_values b.advanced_rule_ids)

unfoldable pub builder_tags : Builder → List Text
unfolding distinct split_exclusion_values
builder_tags b = distinct [] (
    (if b.all_crs then crs_tag ∷ [] else [])
    ++ (b.selected_tags ++ split_exclusion_values b.advanced_tags))

-- `selectors.length && targetText ? [{ selectors, targets }] : []`
unfoldable pub group_of : List Text → Text → List Group
unfolding join
group_of selectors target_text =
    if not (is_empty selectors) && not (is_empty target_text)
    then record { selectors = join (codes "\n") selectors; targets = target_text } ∷ []
    else []

module _ (lower : Text → Text) where
  unfoldable pub builder_target_text : Builder → Text
  unfolding join distinct request_field_to_target
  builder_target_text b = join (codes "\n") (
      distinct []
        (keep (λ t. not (is_empty t)) (map (request_field_to_target lower) b.request_fields)))

  unfoldable pub exclusion_builder_to_fields : Builder → ExclusionFields
  unfolding builder_rule_ids builder_tags builder_target_text group_of text_eq
  exclusion_builder_to_fields b =
      let rule_ids = builder_rule_ids b in
      let tags = builder_tags b in
      let target_text = builder_target_text b in
      if text_eq b.exclusion_kind (codes "detections")
      then record {
        remove_rule_ids = join (codes "\n") rule_ids;
        remove_tags = join (codes "\n") tags;
        target_rule_groups = [];
        target_tag_groups = [];
      }
      else record {
        remove_rule_ids = [];
        remove_tags = [];
        target_rule_groups = group_of rule_ids target_text;
        target_tag_groups = group_of tags target_text;
      }

  unfoldable pub exclusion_builder_valid : Builder → Bool
  unfolding exclusion_builder_to_fields exclusion_input_valid
  exclusion_builder_valid b =
      if not (exclusion_input_valid (exclusion_builder_to_fields b))
      then false
      else if not (text_eq b.exclusion_kind (codes "fields"))
      then true
      else ltb 0 (length b.request_fields)
        && every (λ f. not (is_empty (request_field_to_target lower f))) b.request_fields

-- The request fields of the targets, unless one of them has none.
unfoldable pub fields_of_targets : List Text → Option (List RequestField)
unfolding request_field_from_target
fields_of_targets [] = some []
fields_of_targets (t ∷ ts) = elim (request_field_from_target t) [
  | none ↦ none
  | some f ↦ elim (fields_of_targets ts) [ none ↦ none | some fs ↦ some (f ∷ fs) ]
]

-- A builder for whole detections.
abbrev pub detections_builder : List Text → List Text → Builder
detections_builder rule_ids tags = record {
  exclusion_kind = codes "detections";
  all_crs = contains crs_tag tags;
  selected_rule_ids = rule_ids;
  selected_tags = keep (λ tag. not (text_eq tag crs_tag)) tags;
  advanced_rule_ids = [];
  advanced_tags = [];
  request_fields = [];
}

-- A builder for single request fields.
abbrev pub fields_builder : List Text → List Text → List RequestField → Builder
fields_builder rule_ids tags request_fields = record {
  exclusion_kind = codes "fields";
  all_crs = contains crs_tag tags;
  selected_rule_ids = distinct [] rule_ids;
  selected_tags = distinct [] (keep (λ tag. not (text_eq tag crs_tag)) tags);
  advanced_rule_ids = [];
  advanced_tags = [];
  request_fields = request_fields;
}

-- The target lists of all groups, if they have the same values: the first of them.
unfoldable pub shared_targets : List Group → Option (List Text)
unfolding same_values split_exclusion_values
shared_targets [] = none
shared_targets (g ∷ gs) =
    let targets = split_exclusion_values g.targets in
    if any (λ h. not (same_values targets (split_exclusion_values h.targets))) (g ∷ gs)
    then none
    else some targets

unfoldable pub group_selectors : List Group → List Text
unfolding split_exclusion_values
group_selectors gs = flat_map (λ g. split_exclusion_values g.selectors) gs

unfoldable pub fields_builder_of_groups : List Group → List Group → Option Builder
unfolding shared_targets group_selectors fields_of_targets distinct contains text_eq
fields_builder_of_groups rule_groups tag_groups =
    elim (shared_targets (rule_groups ++ tag_groups)) [
      | none ↦ none
      | some targets ↦ elim (fields_of_targets targets) [
        | none ↦ none
        | some request_fields ↦ some (
            fields_builder (group_selectors rule_groups) (group_selectors tag_groups)
              request_fields)
      ]
    ]

unfoldable pub exclusion_builder_from_fields : ExclusionFields → Option Builder
unfolding fields_builder_of_groups populated_groups split_exclusion_values contains text_eq
exclusion_builder_from_fields x =
    let rule_ids = split_exclusion_values x.remove_rule_ids in
    let tags = split_exclusion_values x.remove_tags in
    let rule_groups = populated_groups x.target_rule_groups in
    let tag_groups = populated_groups x.target_tag_groups in
    let complete = not (is_empty rule_ids) || not (is_empty tags) in
    let mapped = not (is_empty rule_groups) || not (is_empty tag_groups) in
    if complete && mapped
    then none
    else if complete
    then some (detections_builder rule_ids tags)
    else fields_builder_of_groups rule_groups tag_groups
