-- ===== src/RuleForm.antt =====
-- components/RuleModal.jsx, lines 23 to 102: the guided form of a rule, from and to its native JSON.
pub mod RoundTrip
pub mod Save
pub mod Picker
pub mod Exclusion
pub mod Open
mod Tests
use karna.Common.{
  String, Bool, true, false, not, ◌&&◌, ◌||◌, Option, none, some, List, [], ◌∷◌, if◌then◌else◌, any,
}
use karna.Text.{Text, codes, text_eq, is_empty, contains}
use karna.Value.{
  Value, undefined, null, bool, num, str, obj, arr, Elements, no_elements, element, Properties,
  no_properties, property, get, get_field, set_field, delete_field, texts, to_elements, elements,
  is_truthy, is_object, text_or_empty, to_text, first,
}
use karna.Exclusion.Target.{RequestField}
use karna.Exclusion.Builder.{Builder, exclusion_builder_to_fields, exclusion_builder_from_fields}
use karna.Exclusion.Controls.{build_exclusion_controls, exclusion_fields_from_controls}

abbrev pub no_value_ops : List Text
no_value_ops =
    codes "isSet"
    ∷ codes "libinjection_sqli"
    ∷ codes "libinjection_xss"
    ∷ codes "validateUrlEncoding"
    ∷ codes "validateUtf8Encoding"
    ∷ []

-- The state of the guided form; a limit and a window are a number or the text of an input.
pub record Guided : Type 0 where
  pub id : Text
  pub phase : Text
  pub message : Text
  pub variable : Text
  pub op : Text
  pub negated : Bool
  pub value : Text
  pub transforms : List Text
  pub action : Text
  pub limit : Value
  pub window : Value
  pub builder : Builder
  pub matched_at : Text

abbrev pub default_builder : Builder
default_builder = record {
  exclusion_kind = codes "fields";
  all_crs = false;
  selected_rule_ids = [];
  selected_tags = [];
  advanced_rule_ids = [];
  advanced_tags = [];
  request_fields = record { type = codes "parameter"; name = [] } ∷ [];
}

abbrev pub default_guided : Guided
default_guided = record {
  id = codes "local_rule";
  phase = codes "access";
  message = [];
  variable = codes "request.arg.value";
  op = codes "rx";
  negated = false;
  value = [];
  transforms = codes "lowercase" ∷ [];
  action = codes "block";
  limit = num (codes "100");
  window = num (codes "60");
  builder = default_builder;
  matched_at = [];
}

unfoldable pub has_value : Text → Bool
unfolding contains text_eq
has_value op = not (contains op no_value_ops)

-- `cond`, the one condition
unfoldable pub condition_of : Bool → Text → Text → Bool → Text → List Text → Properties
unfolding set_field
condition_of valued variable op negated value transforms =
    let base =
      property "variables" (texts (variable ∷ []))
        (property "op" (str op) (property "negated" (bool negated) no_properties)) in
    let with_value = if valued then set_field "value" (str value) base else base in
    if is_empty transforms then with_value else set_field "transform" (texts transforms) with_value

unfoldable pub build_condition : Guided → Properties
unfolding condition_of has_value
build_condition g = condition_of (has_value g.op) g.variable g.op g.negated g.value g.transforms

-- The properties that a rule has in any case, over those of the rule that is edited.
unfoldable pub build_base : Guided → Properties → Properties
unfolding set_field delete_field build_condition text_eq
build_base g source =
    let phase = if text_eq g.action (codes "exclusion") then codes "access" else g.phase in
    delete_field "rule_control" (
      delete_field "action" (
        set_field "conditions" (arr (element (obj (build_condition g)) no_elements)) (
          set_field "message" (str g.message)
            (set_field "phase" (str phase) (set_field "id" (str g.id) source)))))

-- `Number(v) || fallback`
abbrev pub number_or : Text → Text → Value
number_or n fallback =
    if text_eq n (codes "0") || text_eq n (codes "NaN") then num fallback else num n

-- `toLowerCase` and `Number` are parameters; the latter gives the text of the number.
module _ (lower : Text → Text) (number : Value → Text) where
  unfoldable pub build_action : Guided → Properties
  unfolding text_eq
  build_action g =
      if text_eq g.action (codes "sanitize")
      then property "fix_matched_parts"
          (obj (property "remove_chars_pattern" (str (codes "[<>\"'&;|`$()]")) no_properties))
          no_properties
      else if text_eq g.action (codes "rate_limit")
      then property "rate_limit"
          (obj (
            property "key" (str (codes "%{remote_addr}")) (
              property "limit" (number_or (number g.limit) (codes "100")) (
                property "window_seconds" (number_or (number g.window) (codes "60"))
                  no_properties))))
          no_properties
      else property "fixed_response"
          (obj (property "status_code" (num (codes "403")) no_properties)) no_properties

  unfoldable pub build_native_rule : Guided → Properties → Properties
  unfolding build_base build_action exclusion_builder_to_fields build_exclusion_controls set_field
      text_eq
  build_native_rule g source =
      if text_eq g.action (codes "exclusion")
      then set_field "rule_control"
          (arr
            (to_elements (build_exclusion_controls (exclusion_builder_to_fields lower g.builder))))
          (build_base g source)
      else set_field "action" (obj (build_action g)) (build_base g source)

-- `rule.action && typeof rule.action === "object" && Object.keys(rule.action).length > 0`
abbrev pub has_keys : Value → Bool
has_keys (obj (property k v fs)) = true
has_keys (arr (element v vs)) = true
has_keys _ = false

-- The one condition of a rule, with one variable.
abbrev pub only_item : Value → Option Value
only_item (arr (element v no_elements)) = some v
only_item _ = none

abbrev pub and_then : {A B : Type 0} → Option A → (A → Option B) → Option B
and_then none f = none
and_then (some a) f = f a

-- `exclusionBuilder`
unfoldable pub read_exclusion : Value → Option Builder
unfolding get exclusion_fields_from_controls exclusion_builder_from_fields
read_exclusion rule =
    if has_keys (get "action" rule)
    then none
    else and_then (exclusion_fields_from_controls (get "rule_control" rule))
        exclusion_builder_from_fields

abbrev pub terminal_action : Value → Option Text
terminal_action action =
    if is_truthy (get "fixed_response" action)
    then some (codes "block")
    else if is_truthy (get "fix_matched_parts" action)
    then some (codes "sanitize")
    else if is_truthy (get "rate_limit" action)
    then some (codes "rate_limit")
    else none

abbrev pub text_or : Value → Text → Text
text_or v fallback = if is_truthy v then to_text v else fallback

abbrev pub is_true : Value → Bool
is_true (bool b) = b
is_true _ = false

-- `v == null ? "" : String(v)`
abbrev pub text_unless_null : Value → Text
text_unless_null undefined = []
text_unless_null null = []
text_unless_null v = to_text v

-- `v ?? fallback`
abbrev pub value_or : Value → Value → Value
value_or undefined fallback = fallback
value_or null fallback = fallback
value_or v fallback = v

-- The transforms of a rule are texts.
abbrev pub text_items : Elements → List Text
text_items no_elements = []
text_items (element v vs) = to_text v ∷ text_items vs

abbrev pub transforms_of : Value → List Text
transforms_of (arr vs) = text_items vs
transforms_of _ = []

abbrev pub guided_of : Value → Value → Value → Text → Builder → Guided
guided_of rule cond variable action builder = record {
  id = text_or (get "id" rule) [];
  phase = text_or (get "phase" rule) (codes "access");
  message = text_or (get "message" rule) [];
  variable = text_or variable [];
  op = text_or (get "op" cond) (codes "rx");
  negated = is_true (get "negated" cond);
  value = text_unless_null (get "value" cond);
  transforms = transforms_of (get "transform" cond);
  action = action;
  limit = value_or (get "limit" (get "rate_limit" (get "action" rule))) (num (codes "100"));
  window =
      value_or (get "window_seconds" (get "rate_limit" (get "action" rule))) (num (codes "60"));
  builder = builder;
  matched_at = [];
}

abbrev pub guided_with : Value → Value → Value → Option Builder → Option Guided
guided_with rule cond variable (some builder) =
    some (guided_of rule cond variable (codes "exclusion") builder)
guided_with rule cond variable none =
    and_then (terminal_action (get "action" rule))
      (λ action. some (guided_of rule cond variable action default_builder))

-- `guidedFromRule(rule)`
unfoldable pub guided_from_rule : Value → Option Guided
unfolding get read_exclusion is_truthy to_text
guided_from_rule rule = and_then (only_item (get "conditions" rule)) (λ cond.
    and_then (only_item (get "variables" cond))
      (λ variable. guided_with rule cond variable (read_exclusion rule)))
