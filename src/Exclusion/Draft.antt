-- ===== src/Exclusion/Draft.antt =====
-- exclusions.js, lines 235 to 276: the draft of an exclusion for an event of the audit log.
pub mod RuleId
use karna.Common.{
  ℕ, ◌+◌, Bool, false, not, ◌&&◌, ◌||◌, Option, none, some, List, [], ◌∷◌, ◌++◌, leb, ◌==◌,
  if◌then◌else◌, take, drop,
}
use karna.Text.{Text, codes, is_empty, starts_sep, strip, last_index_of, before_first}
use karna.Value.{Value, get, first, is_truthy, to_text}
use karna.Exclusion.Target.{
  RequestField, clipped_to, clipped, clipped_value, max_draft_text, max_request_path,
  exclusion_target_from_matched_at, request_field_from_target,
}

unfoldable pub exclusion_target_name : Text → Text
unfolding clipped_to last_index_of
exclusion_target_name target =
    let value = clipped target in
    elim (last_index_of b':' value) [ some colon ↦ drop (colon + 1) value | none ↦ value ]

-- `[a-zA-Z0-9_-]`
abbrev pub is_id_char : ℕ → Bool
is_id_char c =
    (leb b'a' c && leb c b'z')
    || (leb b'A' c && leb c b'Z')
    || (leb b'0' c && leb c b'9')
    || c == b'_'
    || c == b'-'

-- `.replace(/[^a-zA-Z0-9_-]+/g, "_")`
unfoldable pub replace_runs : Text → Text
unfolding starts_sep
replace_runs [] = []
replace_runs (c ∷ s) =
    let rest = replace_runs s in
    if is_id_char c
    then c ∷ rest
    else if starts_sep (λ d. not (is_id_char d)) s
    then rest
    else b'_' ∷ rest

abbrev pub is_underscore : ℕ → Bool
is_underscore c = c == b'_'

unfoldable pub rule_suffix : Text → Text → Text
unfolding exclusion_target_name replace_runs strip clipped_to
rule_suffix source_rule_id target = take 80 (
    strip is_underscore
      (replace_runs (clipped source_rule_id ++ (codes "_" ++ exclusion_target_name target))))

-- `s || d`
abbrev pub text_or : Text → Text → Text
text_or [] d = d
text_or (c ∷ s) d = c ∷ s

unfoldable pub exclusion_rule_id : Text → Text → Text
unfolding rule_suffix
exclusion_rule_id source_rule_id target =
    codes "exclude_" ++ text_or (rule_suffix source_rule_id target) (codes "false_positive")

pub record Draft : Type 0 where
  pub plugin_id : Text
  pub service_name : Text
  pub id : Text
  pub phase : Text
  pub message : Text
  pub variable : Text
  pub op : Text
  pub value : Text
  pub transforms : List Text
  pub action : Text
  pub exclusion_kind : Text
  pub all_crs : Bool
  pub selected_rule_ids : List Text
  pub selected_tags : List Text
  pub advanced_rule_ids : Text
  pub advanced_tags : Text
  pub request_fields : List RequestField
  pub source_rule_message : Text
  pub matched_at : Text

-- `String(uri || "/").split("?", 1)[0]`, clipped to the longest path, or "/"
unfoldable pub raw_path : Value → Text
unfolding before_first clipped_to is_truthy to_text
raw_path uri =
    text_or
      (clipped_to max_request_path
        (before_first b'?' (if is_truthy uri then to_text uri else codes "/")))
      (codes "/")

unfoldable pub draft_message : Text → Text → Text → Text
unfolding exclusion_target_name
draft_message target rule_id path = take max_draft_text (
    codes "Exclude "
    ++ (text_or (exclusion_target_name target) (codes "matched target")
        ++ (codes " from rule " ++ (rule_id ++ (codes " on " ++ path)))))

abbrev pub list_of {ℓ} : {A : Type ℓ} → Option A → List A
list_of none = []
list_of (some a) = a ∷ []

module _ (lower : Text → Text) where
  unfoldable pub event_exclusion_draft : Value → Value → Value → Draft
  unfolding exclusion_target_from_matched_at raw_path exclusion_rule_id draft_message
      request_field_from_target get first
  event_exclusion_draft ev match plugin_id =
      let matched_at = clipped_value (get "on" (first (get "matched_parts" match))) in
      let exclude_target = exclusion_target_from_matched_at lower matched_at in
      let path = raw_path (get "uri" (get "request" ev)) in
      let source_rule_id = clipped_value (get "rule_id" match) in
      record {
        plugin_id = clipped_value plugin_id;
        service_name = clipped_value (get "name" (get "service" ev));
        id = exclusion_rule_id source_rule_id exclude_target;
        phase = codes "access";
        message = draft_message exclude_target source_rule_id path;
        variable = codes "request.raw_path";
        op = codes "eq";
        value = path;
        transforms = [];
        action = codes "exclusion";
        exclusion_kind = codes "fields";
        all_crs = false;
        selected_rule_ids = if is_empty source_rule_id then [] else source_rule_id ∷ [];
        selected_tags = [];
        advanced_rule_ids = [];
        advanced_tags = [];
        request_fields = list_of (request_field_from_target exclude_target);
        source_rule_message = clipped_value (get "message" match);
        matched_at = matched_at;
      }
