-- ===== src/RuleForm/Save/Confirmed.antt =====
-- The requests of the rule form, which the dialog comes before.
use karna.Common.{
  ◌≡◌, refl, inl, inr, Bool, true, false, not, ◌||◌, Option, none, some, List, [], ◌∷◌, ◌++◌,
  Bool-cases, if◌then◌else◌,
}
use karna.Text.{Text, codes, is_empty}
use karna.Value.{Value, str, obj, no_properties, spread}
use karna.Mutation.{Reply, run, requests}
use karna.RuleForm.{build_native_rule}
use karna.RuleForm.Save.{
  Request, add_rule, edit_rule, Choice, Form, name_of, confirm_request, edit_native, add_native,
  save,
}

module _ (lower : Text → Text) (number : Value → Text) (parse : Text → Option Value) where
  abbrev pub is_native : Form → Bool
  is_native f = if f.is_edit then f.edits_native else f.is_guided || f.raw_native

  -- The rule that the form holds, `none` if it is no JSON.
  abbrev pub rule_of : Form → Option Value
  rule_of f =
      if not (is_native f)
      then some (str f.seclang_text)
      else if not f.is_guided
      then parse f.native_text
      else some (
          obj (
            build_native_rule lower number f.guided
              (if f.is_edit then spread f.rule else no_properties)))

  abbrev pub kind_of : Form → Text
  kind_of f = if is_native f then codes "native" else codes "seclang"

  abbrev pub request_of : Form → Value → Request
  request_of f rule =
      if f.is_edit
      then edit_rule f.plugin_id (kind_of f) f.index rule f.etag
      else add_rule f.plugin_id (kind_of f) rule

  abbrev pub requests_of : Form → Bool → Option Value → List Request
  requests_of f confirms none = []
  requests_of f confirms (some rule) = if confirms then request_of f rule ∷ [] else []

  requests-confirm_request :
      (f : Form) (confirms : Bool) (failure : Option Text) (r : Request) (question : Text)
      → is_empty question ≡ false
      → requests
          (confirm_request lower number parse f
            (record { confirms = confirms; failure = failure })
            r
            question).effects
        ≡ (if confirms then r ∷ [] else [])
  unfolding run
  requests-confirm_request f true none r question h = rw h refl
  requests-confirm_request f true (some message) r question h = rw h refl
  requests-confirm_request f false none r question h = rw h refl
  requests-confirm_request f false (some message) r question h = rw h refl

  requests-edit_native :
      (f : Form) (reply : Reply) (rule : Option Value)
      → requests (edit_native lower number parse f reply rule).effects
        ≡ requests_of (record f { is_edit = true; edits_native = true }) reply.confirms rule
  unfolding run
  requests-edit_native f reply none = refl
  requests-edit_native f reply (some rule) =
      requests-confirm_request f reply.confirms reply.failure
        (edit_rule f.plugin_id (codes "native") f.index rule f.etag)
        (codes "Save changes to rule on this service?") refl

  requests-add_native :
      (f : Form) (reply : Reply) (rule : Option Value)
      → requests (add_native lower number parse f reply rule).effects
        ≡ requests_of
            (record f { is_edit = false; is_guided = false; raw_native = true })
            reply.confirms
            rule
  unfolding run
  requests-add_native f reply none = refl
  requests-add_native f reply (some rule) =
      requests-confirm_request f reply.confirms reply.failure
        (add_rule f.plugin_id (codes "native") rule) (codes "Add this native rule?") refl

  -- A confirmed save of the rule form makes the one request for the rule that the form holds, and a save that
  -- the user refuses, or whose text is no JSON, makes none.
  pub requests-save :
      (services : List Choice) (f : Form) (reply : Reply)
      → requests (save lower number parse services f reply).effects
        ≡ requests_of f reply.confirms (rule_of f)
  unfolding save
  requests-save services f reply = elim (Bool-cases f.is_edit) [
    | inl edit ↦ elim (Bool-cases f.edits_native) [
      | inl native ↦
          rw (edit, native)
            elim (Bool-cases f.is_guided) [
              | inl guided ↦ rw guided (
                  requests-edit_native f reply
                    (some (obj (build_native_rule lower number f.guided (spread f.rule)))))
              | inr raw ↦ rw raw (requests-edit_native f reply (parse f.native_text))
            ]
      | inr seclang ↦
          rw (edit, seclang)
            (requests-confirm_request f reply.confirms reply.failure
              (edit_rule f.plugin_id (codes "seclang") f.index (str f.seclang_text) f.etag)
              (codes "Save SecLang rule changes?") refl)
    ]
    | inr create ↦ elim (Bool-cases f.is_guided) [
      | inl guided ↦
          rw (create, guided)
            (requests-confirm_request f reply.confirms reply.failure
              (add_rule f.plugin_id (codes "native")
                (obj (build_native_rule lower number f.guided no_properties)))
              (codes "Add this rule to \"" ++ (name_of f.plugin_id services ++ codes "\"?")) refl)
      | inr raw ↦ elim (Bool-cases f.raw_native) [
        | inl native ↦ rw (create, raw, native) (requests-add_native f reply (parse f.native_text))
        | inr seclang ↦
            rw (create, raw, seclang)
              (requests-confirm_request f reply.confirms reply.failure
                (add_rule f.plugin_id (codes "seclang") (str f.seclang_text))
                (codes "Add this SecLang rule?") refl)
      ]
    ]
  ]
