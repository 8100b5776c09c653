-- ===== src/RuleForm/Open.antt =====
-- components/RuleModal.jsx, lines 262 to 277 and 397 to 424: how the rule form opens. The drafts that the views
-- hand over are those of an event, which hold no group of targets.
use karna.Common.{ℕ, true, false, Option, none, some, []}
use karna.Text.{Text}
use karna.Value.{Value}
use karna.Exclusion.Draft.{Draft}
use karna.RuleForm.{Guided, default_guided, guided_from_rule}
use karna.RuleForm.Save.{Form}

-- What the form opens for: a native rule, or a SecLang text, of a service, or a new rule, with a draft or without.
pub data Opens : Type 0 where
  native_rule : Text → ℕ → Text → Value → Opens
  seclang_rule : Text → ℕ → Text → Text → Opens
  new_rule : Option Draft → Opens

-- `{ ...DEFAULT_GUIDED, ...draft }`
abbrev pub guided_of_draft : Option Draft → Guided
guided_of_draft none = default_guided
guided_of_draft (some d) = record {
  id = d.id;
  phase = d.phase;
  message = d.message;
  variable = d.variable;
  op = d.op;
  negated = false;
  value = d.value;
  transforms = d.transforms;
  action = d.action;
  limit = default_guided.limit;
  window = default_guided.window;
  builder = record {
    exclusion_kind = d.exclusion_kind;
    all_crs = d.all_crs;
    selected_rule_ids = d.selected_rule_ids;
    selected_tags = d.selected_tags;
    advanced_rule_ids = d.advanced_rule_ids;
    advanced_tags = d.advanced_tags;
    request_fields = d.request_fields;
  };
  matched_at = d.matched_at;
}

abbrev pub draft_plugin : Option Draft → Text
draft_plugin none = []
draft_plugin (some d) = d.plugin_id

-- The tab and the guided form of a rule, which keeps its state for a rule that it cannot show.
abbrev pub show_guided : Option Guided → Form → Form
show_guided none f = record f { is_guided = false }
show_guided (some g) f = record f { is_guided = true; guided = g }

-- `JSON.stringify` and the scaffold of a new rule are parameters.
module _ (json : Value → Text) (scaffold : Text) where
  -- The effect that runs when the form opens, on the state that it had before.
  unfoldable pub open_form : Opens → Form → Form
  unfolding guided_from_rule
  open_form (native_rule plugin_id index etag rule) f =
      show_guided (guided_from_rule rule) (record f {
        is_edit = true;
        edits_native = true;
        raw_native = true;
        plugin_id = plugin_id;
        index = index;
        etag = etag;
        rule = rule;
        native_text = json rule;
      })
  open_form (seclang_rule plugin_id index etag text) f = record f {
    is_edit = true;
    edits_native = false;
    is_guided = false;
    raw_native = false;
    plugin_id = plugin_id;
    index = index;
    etag = etag;
    seclang_text = text;
  }
  open_form (new_rule draft) f = record f {
    is_edit = false;
    is_guided = true;
    raw_native = true;
    plugin_id = draft_plugin draft;
    guided = guided_of_draft draft;
    native_text = scaffold;
    seclang_text = [];
  }
