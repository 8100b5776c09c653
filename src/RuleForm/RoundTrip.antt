-- ===== src/RuleForm/RoundTrip.antt =====
-- The guided form of a rule that the form has built.
use karna.Common.{
  ◌||◌, ◌≡◌, refl, ap, inl, inr, Bool, true, false, none, some, List, [], ◌∷◌, map, Bool-cases,
  if◌then◌else◌,
}
use karna.Text.{Text, codes, text_eq, is_empty}
use karna.Value.{
  Value, bool, num, str, obj, arr, element, no_elements, Properties, get, texts, to_elements,
  to_text, is_truthy,
}
use karna.Value.Fields.{get_field-set_field, get_field-delete_field}
use karna.RuleForm.{
  Guided, default_builder, has_value, build_condition, build_base, number_or, build_action,
  build_native_rule, read_exclusion, condition_of, terminal_action, text_or, text_unless_null,
  value_or, text_items, transforms_of, guided_of, guided_from_rule,
}

-- The actions of a rule that ends the request.
pub data Terminal : Type 0 where
  block sanitize rate_limit : Terminal

abbrev pub action_name : Terminal → Text
action_name block = codes "block"
action_name sanitize = codes "sanitize"
action_name rate_limit = codes "rate_limit"

is_no_exclusion : (t : Terminal) → text_eq (action_name t) (codes "exclusion") ≡ false
unfolding text_eq
is_no_exclusion block = refl
is_no_exclusion sanitize = refl
is_no_exclusion rate_limit = refl

text_items-texts : (ts : List Text) → text_items (to_elements (map str ts)) ≡ ts
unfolding to_text
text_items-texts [] = refl
text_items-texts (t ∷ ts) = ap (λ us. t ∷ us) (text_items-texts ts)

text_or-str : (t : Text) → text_or (str t) [] ≡ t
unfolding is_truthy to_text
text_or-str [] = refl
text_or-str (c ∷ t) = refl

text_or-full : (t fallback : Text) → is_empty t ≡ false → text_or (str t) fallback ≡ t
unfolding is_truthy to_text
text_or-full [] fallback h = absurd cc
text_or-full (c ∷ t) fallback h = refl

-- What a condition that the form built reads as.
record IsCondition (valued : Bool) (variable op : Text) (negated : Bool) (value : Text)
    (transforms : List Text) (c : Value) : Type 0 where
  of_variables : get "variables" c ≡ texts (variable ∷ [])
  of_op : get "op" c ≡ str op
  of_negated : get "negated" c ≡ bool negated
  of_value : text_unless_null (get "value" c) ≡ (if valued then value else [])
  of_transform : transforms_of (get "transform" c) ≡ transforms

condition_of-IsCondition :
    (valued : Bool) (variable op : Text) (negated : Bool) (value : Text) (transforms : List Text)
    → IsCondition valued variable op negated value transforms
        (obj (condition_of valued variable op negated value transforms))
unfolding condition_of get to_text
condition_of-IsCondition true variable op negated value [] = record {
  of_variables = refl;
  of_op = refl;
  of_negated = refl;
  of_value = refl;
  of_transform = refl;
}
condition_of-IsCondition true variable op negated value (t ∷ ts) = record {
  of_variables = refl;
  of_op = refl;
  of_negated = refl;
  of_value = refl;
  of_transform = text_items-texts (t ∷ ts);
}
condition_of-IsCondition false variable op negated value [] = record {
  of_variables = refl;
  of_op = refl;
  of_negated = refl;
  of_value = refl;
  of_transform = refl;
}
condition_of-IsCondition false variable op negated value (t ∷ ts) = record {
  of_variables = refl;
  of_op = refl;
  of_negated = refl;
  of_value = refl;
  of_transform = text_items-texts (t ∷ ts);
}

-- What a rule that the form built for a terminal action reads as.
record IsRule (g : Guided) (action : Value) (rule : Value) : Type 0 where
  of_id : get "id" rule ≡ str g.id
  of_phase : get "phase" rule ≡ str g.phase
  of_message : get "message" rule ≡ str g.message
  of_conditions : get "conditions" rule ≡ arr (element (obj (build_condition g)) no_elements)
  of_action : get "action" rule ≡ action

module _ (lower : Text → Text) (number : Value → Text) where
  build_native_rule-IsRule :
      (g : Guided) (source : Properties)
      → text_eq g.action (codes "exclusion") ≡ false
      → IsRule g (obj (build_action lower number g)) (obj (build_native_rule lower number g source))
  unfolding build_native_rule get build_base
  build_native_rule-IsRule g source h = record {
    of_id = simp (h, get_field-set_field, get_field-delete_field);
    of_phase = simp (h, get_field-set_field, get_field-delete_field);
    of_message = simp (h, get_field-set_field, get_field-delete_field);
    of_conditions = simp (h, get_field-set_field, get_field-delete_field);
    of_action = simp (h, get_field-set_field);
  }

  abbrev pub with_action : Terminal → Guided → Guided
  with_action t g = record g { action = action_name t }

  -- A number of the form, which only a rate limit keeps.
  abbrev pub kept_number : Terminal → Value → Text → Value
  kept_number rate_limit v fallback = number_or (number v) fallback
  kept_number block v fallback = num fallback
  kept_number sanitize v fallback = num fallback

  abbrev pub normal : Terminal → Guided → Guided
  normal t g = record g {
    action = action_name t;
    value = if has_value g.op then g.value else [];
    limit = kept_number t g.limit (codes "100");
    window = kept_number t g.window (codes "60");
    builder = default_builder;
    matched_at = [];
  }

  number_or-kept :
      (n fallback : Text) (other : Value)
      → value_or (number_or n fallback) other ≡ number_or n fallback
  number_or-kept n fallback other =
      elim (Bool-cases (text_eq n (codes "0") || text_eq n (codes "NaN"))) [
        | inl zero ↦ rw zero refl
        | inr present ↦ rw present refl
      ]

  limit-build_action :
      (t : Terminal) (g : Guided)
      → value_or
          (get "limit" (get "rate_limit" (obj (build_action lower number (with_action t g)))))
          (num (codes "100"))
        ≡ kept_number t g.limit (codes "100")
  unfolding build_action get text_eq
  limit-build_action block g = refl
  limit-build_action sanitize g = refl
  limit-build_action rate_limit g =
      number_or-kept (number g.limit) (codes "100") (num (codes "100"))

  window-build_action :
      (t : Terminal) (g : Guided)
      → value_or
          (get "window_seconds"
            (get "rate_limit" (obj (build_action lower number (with_action t g)))))
          (num (codes "60"))
        ≡ kept_number t g.window (codes "60")
  unfolding build_action get text_eq
  window-build_action block g = refl
  window-build_action sanitize g = refl
  window-build_action rate_limit g =
      number_or-kept (number g.window) (codes "60") (num (codes "60"))

  guided_of-rule :
      (t : Terminal) (g : Guided) (rule cond : Value)
      → IsRule (with_action t g) (obj (build_action lower number (with_action t g))) rule
      → IsCondition (has_value g.op) g.variable g.op g.negated g.value g.transforms cond
      → is_empty g.phase ≡ false
      → is_empty g.op ≡ false
      → guided_of rule cond (str g.variable) (action_name t) default_builder ≡ normal t g
  guided_of-rule t g rule cond r c phased opened =
      rw
        (
          r.of_id,
          text_or-str g.id,
          r.of_phase,
          text_or-full g.phase (codes "access") phased,
          r.of_message,
          text_or-str g.message,
          text_or-str g.variable,
          c.of_op,
          text_or-full g.op (codes "rx") opened,
          c.of_negated,
          c.of_value,
          c.of_transform,
          r.of_action,
          limit-build_action t g,
          window-build_action t g,
        )
        refl

  action_read :
      (t : Terminal) (g : Guided) (rule : Value)
      → get "action" rule ≡ obj (build_action lower number (with_action t g))
      → (read_exclusion rule ≡ none) × (terminal_action (get "action" rule) ≡ some (action_name t))
  unfolding read_exclusion build_action get text_eq is_truthy
  action_read block g rule h = rw h (refl, refl)
  action_read sanitize g rule h = rw h (refl, refl)
  action_read rate_limit g rule h = rw h (refl, refl)

  read_rule :
      (t : Terminal) (g : Guided) (rule : Value)
      → IsRule (with_action t g) (obj (build_action lower number (with_action t g))) rule
      → is_empty g.phase ≡ false
      → is_empty g.op ≡ false
      → guided_from_rule rule ≡ some (normal t g)
  unfolding guided_from_rule build_condition
  read_rule t g rule r phased opened =
      let cond =
        obj (condition_of (has_value g.op) g.variable g.op g.negated g.value g.transforms) in
      let c : IsCondition (has_value g.op) g.variable g.op g.negated g.value g.transforms cond =
        condition_of-IsCondition (has_value g.op) g.variable g.op g.negated g.value g.transforms in
      let (no_exclusion, named) = action_read t g rule r.of_action in
      rw (r.of_conditions, c.of_variables, no_exclusion, named)
        (ap some (guided_of-rule t g rule cond r c phased opened))

  -- A guided form with a phase, an operator and a terminal action that is saved over some rule, if any, and
  -- opened again shows what it held: an operator without a value has lost the value, the number of an action
  -- other than a rate limit is the default one, and a number that JavaScript takes for false is the default.
  pub guided_from_rule-build_native_rule :
      (t : Terminal) (g : Guided) (source : Properties)
      → is_empty g.phase ≡ false
      → is_empty g.op ≡ false
      → guided_from_rule (obj (build_native_rule lower number (with_action t g) source))
        ≡ some (normal t g)
  guided_from_rule-build_native_rule t g source phased opened =
      read_rule t g (obj (build_native_rule lower number (with_action t g) source))
        (build_native_rule-IsRule (with_action t g) source (is_no_exclusion t)) phased opened
