-- ===== src/Exclusion/Tests.antt =====
-- The cases of exclusions.test.js and runs of the theorems about exclusions.js.
use karna.Common.{
  ℕ, suc, ◌+◌, ◌≤◌, ◌<◌, ◌≡◌, refl, ap, ◌∙◌, ◌↔◌, true, ◌&&◌, none, some, inl, inr, [], ◌∷◌, ◌++◌,
  map, leb, if◌then◌else◌, Bool-cases, All, SameItems, length, arith,
}
use karna.Text.{Text, codes, text_eq, join, is_space, push_stripped, strip_end, starts_with}
use karna.Text.Split.{IsNonempty}
use karna.Text.Distinct.{AllDistinct}
use karna.Value.{Value, arr, obj, bool, no_properties, property, to_elements}
use karna.Exclusion.Target.{
  RequestField, request_field_to_target, request_field_from_target,
  exclusion_target_from_matched_at, clipped, max_draft_text, normalize_exclusion_target,
}
use karna.Exclusion.Target.RoundTrip.{LowerLaws, canonical, request_field_round_trip}
use karna.Exclusion.Target.Normal.{request_prefix, normalize_exclusion_target_lem}
use karna.Exclusion.Values.{ExclusionFields, split_exclusion_values, exclusion_input_valid}
use karna.Exclusion.Values.Split.{IsSelector, split_exclusion_values-IsSelector, split-join-split}
use karna.Exclusion.Controls.{
  remove_rule, remove_rules_by_tag, remove_target_from_rule_by_id, remove_target_rule_by_tag,
  build_exclusion_controls, exclusion_fields_from_controls,
}
use karna.Exclusion.Controls.RoundTrip.{controls_round_trip}
use karna.Exclusion.Controls.Validity.{
  IsProductive, rule_groups, tag_groups, exclusion_input_valid_iff,
}
use karna.Exclusion.Builder.{
  Builder, same_values, exclusion_builder_to_fields, exclusion_builder_valid,
  exclusion_builder_from_fields,
}
use karna.Exclusion.Builder.SameValues.{same_values_iff}
use karna.Exclusion.Draft.{exclusion_rule_id}
use karna.Exclusion.Draft.RuleId.{IsIdText, exclusion_rule_id-IsIdText}

-- `toLowerCase` on ASCII
abbrev ascii_lower : Text → Text
ascii_lower s = map (λ c. if leb b'A' c && leb c b'Z' then c + 32 else c) s

splits :
    split_exclusion_values (codes "934110, 942100\n934110") ≡ codes "934110" ∷ codes "942100" ∷ []
unfolding split_exclusion_values
splits = refl

abbrev supported : Value
supported = arr (
    to_elements (
      remove_rule (codes "934110")
      ∷ remove_rules_by_tag (codes "attack-sqli")
      ∷ remove_target_from_rule_by_id (codes "942100") (codes "request.arg.value:pwd")
      ∷ remove_target_from_rule_by_id (codes "942100") (codes "request.arg.value:user")
      ∷ remove_target_rule_by_tag (codes "attack-xss") (codes "request.header.value:x-client")
      ∷ []))

abbrev supported_fields : ExclusionFields
supported_fields = record {
  remove_rule_ids = codes "934110";
  remove_tags = codes "attack-sqli";
  target_rule_groups =
      record {
        selectors = codes "942100";
        targets = codes "request.arg.value:pwd\nrequest.arg.value:user";
      }
      ∷ [];
  target_tag_groups =
      record { selectors = codes "attack-xss"; targets = codes "request.header.value:x-client" }
      ∷ [];
}

reads_controls : exclusion_fields_from_controls supported ≡ some supported_fields
unfolding exclusion_fields_from_controls
reads_controls = refl

builds_controls : arr (to_elements (build_exclusion_controls supported_fields)) ≡ supported
unfolding build_exclusion_controls
builds_controls = refl

refuses_engine_off :
    exclusion_fields_from_controls
      (arr (to_elements (obj (property "engine_off" (bool true) no_properties) ∷ [])))
    ≡ none
unfolding exclusion_fields_from_controls
refuses_engine_off = refl

abbrev all_crs_builder : Builder
all_crs_builder = record {
  exclusion_kind = codes "fields";
  all_crs = true;
  selected_rule_ids = [];
  selected_tags = [];
  advanced_rule_ids = [];
  advanced_tags = [];
  request_fields = record { type = codes "header"; name = codes "X-Pippo" } ∷ [];
}

builder_valid : exclusion_builder_valid ascii_lower all_crs_builder ≡ true
unfolding exclusion_builder_valid
builder_valid = refl

builder_controls :
    build_exclusion_controls (exclusion_builder_to_fields ascii_lower all_crs_builder)
    ≡ remove_target_rule_by_tag (codes "OWASP_CRS") (codes "request.header.value:x-pippo") ∷ []
unfolding build_exclusion_controls exclusion_builder_to_fields
builder_controls = refl

observed_header :
    exclusion_target_from_matched_at ascii_lower (codes "request.headers.X-Pippo")
    ≡ codes "request.header.value:x-pippo"
unfolding exclusion_target_from_matched_at
observed_header = refl

observed_json :
    exclusion_target_from_matched_at ascii_lower (codes "request.body.json.customer.address")
    ≡ codes "request.body.json.value:customer.address"
unfolding exclusion_target_from_matched_at
observed_json = refl

abbrev two_fields : ExclusionFields
two_fields = record {
  remove_rule_ids = [];
  remove_tags = [];
  target_rule_groups =
      record {
        selectors = codes "942100\n941100";
        targets = codes "request.arg.value:q\nrequest.cookie.value:session";
      }
      ∷ [];
  target_tag_groups =
      record {
        selectors = codes "OWASP_CRS\nattack-xss";
        targets = codes "request.arg.value:q\nrequest.cookie.value:session";
      }
      ∷ [];
}

abbrev two_fields_builder : Builder
two_fields_builder = record {
  exclusion_kind = codes "fields";
  all_crs = true;
  selected_rule_ids = codes "942100" ∷ codes "941100" ∷ [];
  selected_tags = codes "attack-xss" ∷ [];
  advanced_rule_ids = [];
  advanced_tags = [];
  request_fields =
      record { type = codes "parameter"; name = codes "q" }
      ∷ record { type = codes "cookie"; name = codes "session" }
      ∷ [];
}

builder_read : exclusion_builder_from_fields two_fields ≡ some two_fields_builder
unfolding exclusion_builder_from_fields
builder_read = refl

builder_written : exclusion_builder_to_fields ascii_lower two_fields_builder ≡ two_fields
unfolding exclusion_builder_to_fields
builder_written = refl

rule_id_run :
    exclusion_rule_id (codes "942100") (codes "request.arg.value:q[0]") ≡ codes "exclude_942100_q_0"
unfolding exclusion_rule_id
rule_id_run = refl

-- Lower-casing ASCII keeps the length and what is blank.
lower_unit : ℕ → ℕ
lower_unit c = if leb b'A' c && leb c b'Z' then c + 32 else c

is_space-lower_unit : (c : ℕ) → is_space (lower_unit c) ≡ is_space c
unfolding is_space lower_unit
is_space-lower_unit c = ground arith

length-map_unit : (s : Text) → length (map lower_unit s) ≡ length s
length-map_unit [] = refl
length-map_unit (c ∷ s) = ap suc (length-map_unit s)

push_stripped-map :
    (c : ℕ) (s : Text)
    → push_stripped is_space (lower_unit c) (map lower_unit s)
      ≡ map lower_unit (push_stripped is_space c s)
unfolding push_stripped
push_stripped-map c [] =
    rw (is_space-lower_unit c)
      (elim (Bool-cases (is_space c)) [ inl blank ↦ rw blank | inr solid ↦ rw solid ])
push_stripped-map c (d ∷ s) = refl

strip_end-map :
    (s : Text) → strip_end is_space (map lower_unit s) ≡ map lower_unit (strip_end is_space s)
unfolding strip_end
strip_end-map [] = refl
strip_end-map (c ∷ s) =
    ap (push_stripped is_space (lower_unit c)) (strip_end-map s)
    ∙ push_stripped-map c (strip_end is_space s)

ascii_laws : LowerLaws (map lower_unit)
ascii_laws = record {
  no_shorter = λ s. omega (arith, length-map_unit s);
  clean_end = λ s e. strip_end-map s ∙ ap (map lower_unit) e;
}

abbrev header_field : RequestField
header_field = record { type = codes "header"; name = codes " X-Pippo " }

request_field_round_trip_example :
    request_field_from_target (request_field_to_target (map lower_unit) header_field)
    ≡ some (canonical (map lower_unit) header_field)
unfolding request_field_to_target lower_unit
request_field_round_trip_example =
    request_field_round_trip (map lower_unit) ascii_laws header_field tt (omega arith)

controls_round_trip_example :
    (y : ExclusionFields) × (exclusion_fields_from_controls
        (arr (to_elements (build_exclusion_controls supported_fields)))
      ≡ some y)
    × SameItems (build_exclusion_controls y) (build_exclusion_controls supported_fields)
unfolding build_exclusion_controls text_eq
controls_round_trip_example = controls_round_trip supported_fields tt (omega arith) (omega arith)

exclusion_input_valid_iff_example : (exclusion_input_valid supported_fields ≡ true) ↔ (
    All IsProductive (rule_groups supported_fields ++ tag_groups supported_fields)
    × IsNonempty (build_exclusion_controls supported_fields))
exclusion_input_valid_iff_example = exclusion_input_valid_iff supported_fields

same_values_iff_example :
    (same_values (codes "b" ∷ codes "a" ∷ []) (codes "a" ∷ codes "b" ∷ codes "a" ∷ []) ≡ true)
    ↔ SameItems (codes "b" ∷ codes "a" ∷ []) (codes "a" ∷ codes "b" ∷ codes "a" ∷ [])
same_values_iff_example =
    same_values_iff (codes "b" ∷ codes "a" ∷ []) (codes "a" ∷ codes "b" ∷ codes "a" ∷ [])

split_exclusion_values-IsSelector_example :
    All IsSelector (split_exclusion_values (codes "934110, 942100\n934110"))
    × AllDistinct (split_exclusion_values (codes "934110, 942100\n934110"))
split_exclusion_values-IsSelector_example =
    split_exclusion_values-IsSelector (codes "934110, 942100\n934110")

split-join-split_example :
    split_exclusion_values
      (join (codes "\n") (split_exclusion_values (codes "934110, 942100\n934110")))
    ≡ split_exclusion_values (codes "934110, 942100\n934110")
split-join-split_example = split-join-split (codes "934110, 942100\n934110")

normalize_exclusion_target_example :
    (IsNonempty (clipped (codes "redirect_to"))
      → starts_with request_prefix (normalize_exclusion_target (codes "redirect_to")) ≡ true)
    × (length (normalize_exclusion_target (codes "redirect_to")) < max_draft_text
        → normalize_exclusion_target (normalize_exclusion_target (codes "redirect_to"))
          ≡ normalize_exclusion_target (codes "redirect_to"))
normalize_exclusion_target_example = normalize_exclusion_target_lem (codes "redirect_to")

exclusion_rule_id-IsIdText_example :
    IsIdText (exclusion_rule_id (codes "942100") (codes "request.arg.value:q[0]"))
    × (length (exclusion_rule_id (codes "942100") (codes "request.arg.value:q[0]")) ≤ 88)
exclusion_rule_id-IsIdText_example =
    exclusion_rule_id-IsIdText (codes "942100") (codes "request.arg.value:q[0]")
