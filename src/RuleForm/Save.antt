-- ===== src/RuleForm/Save.antt =====
-- components/RuleModal.jsx, lines 432 to 476: what the buttons of the rule form do.
pub mod Confirmed
use karna.Common.{
  ℕ, Bool, true, false, not, ◌&&◌, ◌||◌, Option, none, some, List, [], ◌∷◌, ◌++◌, if◌then◌else◌,
  keep,
}
use karna.Text.{Text, codes, text_eq, is_empty, is_space, strip, trim, contains}
use karna.Value.{Value, undefined, str, obj, Properties, no_properties, spread}
use karna.Mutation.{Effect, requested, Reply, Mutation, Run, run, then_close}
use karna.Exclusion.Builder.{exclusion_builder_valid}
use karna.RuleForm.{Guided, has_value, build_native_rule}

pub data Request : Type 0 where
  add_rule : Text → Text → Value → Request
  edit_rule : Text → Text → ℕ → Value → Text → Request

-- A service of the form: its plugin id and its name.
pub record Choice : Type 0 where
  pub plugin_id : Text
  pub name : Text

pub record Form : Type 0 where
  pub is_edit : Bool
  pub edits_native : Bool
  pub is_guided : Bool
  pub raw_native : Bool
  pub plugin_id : Text
  pub index : ℕ
  pub etag : Text
  pub rule : Value
  pub guided : Guided
  pub native_text : Text
  pub seclang_text : Text
  pub mutation : Mutation

-- `toggleTransform(t)`
abbrev pub toggle_transform : Text → Guided → Guided
toggle_transform t g = record g {
  transforms =
      if contains t g.transforms
      then keep (λ x. not (text_eq x t)) g.transforms
      else g.transforms ++ (t ∷ []);
}

-- `continueInRaw()`, for the preview of the rule
abbrev pub continue_in_raw : Text → Form → Form
continue_in_raw preview f = record f { native_text = preview; raw_native = true; is_guided = false }

-- The name in the question, `undefined` for a service that is not there
unfoldable pub name_of : Text → List Choice → Text
unfolding text_eq
name_of id [] = codes "undefined"
name_of id (s ∷ ss) = if text_eq s.plugin_id id then s.name else name_of id ss

-- `toLowerCase`, `Number` and `JSON.parse` are parameters.
module _ (lower : Text → Text) (number : Value → Text) (parse : Text → Option Value) where
  unfoldable pub guided_valid : Form → Bool
  unfolding has_value exclusion_builder_valid text_eq strip is_space
  guided_valid f =
      not (is_empty f.plugin_id)
      && (not (is_empty (trim f.guided.id))
          && (not (is_empty (trim f.guided.variable))
              && ((not (has_value f.guided.op) || not (is_empty (trim f.guided.value)))
                  && (not (text_eq f.guided.action (codes "exclusion"))
                      || exclusion_builder_valid lower f.guided.builder))))

  unfoldable pub can_save : Form → Bool
  unfolding guided_valid strip is_space
  can_save f =
      not f.mutation.pending
      && (not (is_empty f.plugin_id)
          && (if f.is_guided && (not f.is_edit || f.edits_native)
              then guided_valid f
              else not (is_empty (trim (if f.raw_native then f.native_text else f.seclang_text)))))

  -- `run(() => { throw new Error("Invalid JSON"); })`
  abbrev pub invalid_json : Form → Reply → Run Request
  invalid_json f reply =
      run [] [] (record reply { failure = some (codes "Invalid JSON") }) f.mutation

  abbrev pub confirm_request : Form → Reply → Request → Text → Run Request
  confirm_request f reply r question = then_close (run (requested r ∷ []) question reply f.mutation)

  abbrev pub edit_native : Form → Reply → Option Value → Run Request
  edit_native f reply none = invalid_json f reply
  edit_native f reply (some rule) =
      confirm_request f reply (edit_rule f.plugin_id (codes "native") f.index rule f.etag)
        (codes "Save changes to rule on this service?")

  abbrev pub add_native : Form → Reply → Option Value → Run Request
  add_native f reply none = invalid_json f reply
  add_native f reply (some rule) =
      confirm_request f reply (add_rule f.plugin_id (codes "native") rule)
        (codes "Add this native rule?")

  unfoldable pub save : List Choice → Form → Reply → Run Request
  unfolding run build_native_rule name_of
  save services f reply =
      if f.is_edit
      then if f.edits_native
        then edit_native f reply (
            if f.is_guided
            then some (obj (build_native_rule lower number f.guided (spread f.rule)))
            else parse f.native_text)
        else confirm_request f reply
            (edit_rule f.plugin_id (codes "seclang") f.index (str f.seclang_text) f.etag)
            (codes "Save SecLang rule changes?")
      else if f.is_guided
      then confirm_request f reply
          (add_rule f.plugin_id (codes "native")
            (obj (build_native_rule lower number f.guided no_properties)))
          (codes "Add this rule to \"" ++ (name_of f.plugin_id services ++ codes "\"?"))
      else if f.raw_native
      then add_native f reply (parse f.native_text)
      else confirm_request f reply (add_rule f.plugin_id (codes "seclang") (str f.seclang_text))
          (codes "Add this SecLang rule?")
