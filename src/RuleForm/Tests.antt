-- ===== src/RuleForm/Tests.antt =====
-- A rate limit that is saved and opened again, the requests of a refused save, and the search field.
use karna.Common.{
  not, if◌then◌else◌, ◌≡◌, refl, ◌<◌, arith, true, false, Option, none, some, [], ◌∷◌, ℕ, length,
  get_elem?,
}
use karna.Text.{contains, text_eq, Text, codes, strip, strip_prefix, is_space, includes}
use karna.RuleForm.Exclusion.{toggle}
use karna.RuleForm.Exclusion.Toggle.{contains-toggle}
use karna.Value.{Value, obj, no_properties, to_text}
use karna.Mutation.{Reply, requests}
use karna.RuleForm.{default_guided, build_native_rule, guided_from_rule}
use karna.RuleForm.RoundTrip.{rate_limit, with_action, normal, guided_from_rule-build_native_rule}
use karna.RuleForm.Save.{Form, save}
use karna.RuleForm.Save.Confirmed.{rule_of, requests_of, requests-save}
use karna.RuleForm.Picker.{
  Service, Field, visible, searchable, handle_key, arrow_down, enter, choose,
}
use karna.RuleForm.Picker.Laws.{IsMarked, handle_key-IsMarked, handle_key-chosen}

abbrev same : Text → Text
same t = t

guided_from_rule-build_native_rule_example :
    guided_from_rule (
      obj (
        build_native_rule same to_text
          (with_action same to_text rate_limit default_guided)
          no_properties))
    ≡ some (normal same to_text rate_limit default_guided)
guided_from_rule-build_native_rule_example =
    guided_from_rule-build_native_rule same to_text rate_limit default_guided no_properties refl
      refl

abbrev form : Form
form = record {
  is_edit = true;
  edits_native = true;
  is_guided = true;
  raw_native = true;
  plugin_id = codes "p1";
  index = 2;
  etag = codes "e1";
  rule = obj no_properties;
  guided = default_guided;
  native_text = [];
  seclang_text = [];
  mutation = record { pending = false; error = none };
}

abbrev no_json : Text → Option Value
no_json t = none

abbrev confirmed : Reply
confirmed = record { confirms = true; failure = none }

requests-save_example :
    requests (save same to_text no_json [] form confirmed).effects
    ≡ requests_of same to_text no_json form true (rule_of same to_text no_json form)
requests-save_example = requests-save same to_text no_json [] form confirmed

abbrev shop : Service
shop = record {
  plugin_id = codes "p1";
  name = codes "shop";
  host = codes "shop.test";
  upstream_url = [];
  route_hosts = [];
  route_paths = [];
}

abbrev field : Field
field = record { value = []; query = codes "sho"; is_open = true; active = 0 }

field-IsMarked : IsMarked same (shop ∷ []) field
field-IsMarked = omega arith

handle_key-IsMarked_example :
    IsMarked same (shop ∷ []) (handle_key same (shop ∷ []) arrow_down field)
handle_key-IsMarked_example = handle_key-IsMarked same (shop ∷ []) field true field-IsMarked

shop_listed : 0 < length (visible same (codes "sho") (shop ∷ []))
unfolding visible strip_prefix
shop_listed = omega arith

handle_key-chosen_example :
    (s : Service) × ((get_elem? (visible same (codes "sho") (shop ∷ [])) 0 ≡ some s)
      × ((0 < 8)
          × (((i : ℕ) × (get_elem? (shop ∷ []) i ≡ some s))
              × ((includes (codes "sho") (searchable s) ≡ true)
                  × (handle_key same (shop ∷ []) enter field ≡ choose same s field)))))
unfolding strip is_space
handle_key-chosen_example =
    handle_key-chosen same (shop ∷ []) field refl refl shop_listed field-IsMarked

contains-toggle_example : contains (codes "b") (toggle (codes "a" ∷ codes "b" ∷ []) (codes "a")) ≡ (
    if text_eq (codes "a") (codes "b")
    then not (contains (codes "b") (codes "a" ∷ codes "b" ∷ []))
    else contains (codes "b") (codes "a" ∷ codes "b" ∷ []))
contains-toggle_example = contains-toggle (codes "b") (codes "a") (codes "a" ∷ codes "b" ∷ [])
