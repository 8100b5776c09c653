-- ===== src/Exclusion/Controls.antt =====
-- exclusions.js, lines 90 to 155: the controls of a rule, built from the form and read back.
pub mod Pairs
pub mod Collect
pub mod Stable
pub mod RoundTrip
pub mod Validity
use karna.Common.{
  String, Bool, true, false, ◌&&◌, Option, none, some, List, [], ◌∷◌, ◌++◌, map, if◌then◌else◌,
  flat_map,
}
use karna.Text.{Text, codes, text_eq, join}
use karna.Value.{
  Value, arr, obj, str, element, no_properties, property, get, is_truthy, to_text, elements,
}
use karna.Exclusion.Target.{normalize_exclusion_target}
use karna.Exclusion.Values.{Group, ExclusionFields, split_exclusion_values, populated_groups}

-- The four forms of a control, `{ remove_rule: { rule_id } }` and so on.
abbrev pub one_control : String → String → Text → Value
one_control kind key v =
    obj (property kind (obj (property key (str v) no_properties)) no_properties)

abbrev pub two_control : String → String → Text → String → Text → Value
two_control kind key v other w = obj (
    property kind (obj (property key (str v) (property other (str w) no_properties))) no_properties)

abbrev pub remove_rule : Text → Value
remove_rule id = one_control "remove_rule" "rule_id" id

abbrev pub remove_rules_by_tag : Text → Value
remove_rules_by_tag tag = one_control "remove_rules_by_tag" "tag" tag

abbrev pub remove_target_from_rule_by_id : Text → Text → Value
remove_target_from_rule_by_id id target =
    two_control "remove_target_from_rule_by_id" "rule_id" id "target" target

abbrev pub remove_target_rule_by_tag : Text → Text → Value
remove_target_rule_by_tag tag name = two_control "remove_target_rule_by_tag" "tag" tag "name" name

-- The two nested `forEach` over a group: every selector with every target.
unfoldable pub group_controls : (Text → Text → Value) → Group → List Value
unfolding split_exclusion_values normalize_exclusion_target
group_controls make g =
    flat_map
      (λ selector.
        map (λ target. make selector (normalize_exclusion_target target))
          (split_exclusion_values g.targets))
      (split_exclusion_values g.selectors)

unfoldable pub build_exclusion_controls : ExclusionFields → List Value
unfolding group_controls populated_groups
build_exclusion_controls x =
    map (λ id. remove_rule id) (split_exclusion_values x.remove_rule_ids)
    ++ (map (λ tag. remove_rules_by_tag tag) (split_exclusion_values x.remove_tags)
        ++ (flat_map (group_controls (λ id t. remove_target_from_rule_by_id id t))
              (populated_groups x.target_rule_groups)
            ++ flat_map (group_controls (λ tag t. remove_target_rule_by_tag tag t))
                (populated_groups x.target_tag_groups)))

-- The first group of the selector takes the target on a new line; without one, a group is added.
unfoldable pub append_grouped : List Group → Text → Text → List Group
unfolding text_eq
append_grouped [] selector target = record { selectors = selector; targets = target } ∷ []
append_grouped (g ∷ gs) selector target =
    if text_eq g.selectors selector
    then record g { targets = g.targets ++ (codes "\n" ++ target) } ∷ gs
    else g ∷ append_grouped gs selector target

-- The four lists that the loop of `exclusionFieldsFromControls` fills.
pub record Collected : Type 0 where
  pub rule_ids : List Text
  pub tags : List Text
  pub rule_groups : List Group
  pub tag_groups : List Group

abbrev pub nothing_collected : Collected
nothing_collected = record { rule_ids = []; tags = []; rule_groups = []; tag_groups = [] }

-- `control`, an object that is no array and has one key
abbrev pub has_one_key : Value → Bool
has_one_key (obj (property k v no_properties)) = true
has_one_key _ = false

unfoldable pub collect : Collected → Value → Option Collected
unfolding get is_truthy to_text append_grouped
collect a control =
    let rule_id = get "rule_id" (get "remove_rule" control) in
    let tag = get "tag" (get "remove_rules_by_tag" control) in
    let by_id = get "remove_target_from_rule_by_id" control in
    let by_tag = get "remove_target_rule_by_tag" control in
    if has_one_key control
    then (if is_truthy rule_id
        then some (record a { rule_ids = a.rule_ids ++ to_text rule_id ∷ [] })
        else if is_truthy tag
        then some (record a { tags = a.tags ++ to_text tag ∷ [] })
        else if is_truthy (get "rule_id" by_id) && is_truthy (get "target" by_id)
        then some (record a {
          rule_groups =
              append_grouped a.rule_groups (to_text (get "rule_id" by_id))
                (to_text (get "target" by_id));
        })
        else if is_truthy (get "tag" by_tag) && is_truthy (get "name" by_tag)
        then some (record a {
          tag_groups =
              append_grouped a.tag_groups (to_text (get "tag" by_tag))
                (to_text (get "name" by_tag));
        })
        else none)
    else none

-- A control of another form ends the loop with `null`.
unfoldable pub collect_all : Collected → List Value → Option Collected
collect_all a [] = some a
collect_all a (c ∷ cs) = elim (collect a c) [ none ↦ none | some b ↦ collect_all b cs ]

abbrev pub to_fields : Collected → ExclusionFields
to_fields a = record {
  remove_rule_ids = join (codes "\n") a.rule_ids;
  remove_tags = join (codes "\n") a.tags;
  target_rule_groups = a.rule_groups;
  target_tag_groups = a.tag_groups;
}

abbrev pub map_option {ℓ κ} : {A : Type ℓ} {B : Type κ} → (A → B) → Option A → Option B
map_option f none = none
map_option f (some a) = some (f a)

unfoldable pub exclusion_fields_from_controls : Value → Option ExclusionFields
unfolding collect_all collect join
exclusion_fields_from_controls (arr (element c cs)) =
    map_option to_fields (collect_all nothing_collected (c ∷ elements cs))
exclusion_fields_from_controls _ = none
