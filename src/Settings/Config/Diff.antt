-- ===== src/Settings/Config/Diff.antt =====
-- The changes of a configuration that its form sends.
use karna.Common.{
  ◌≡◌, refl, sym, subst, ◌∙◌, String, inl, inr, Bool, true, false, not, ◌&&◌, ◌||◌, List, [], ◌∷◌,
  any, arith, Bool-cases, if◌then◌else◌,
}
use karna.Value.{
  Value, undefined, null, bool, num, str, arr, obj, Properties, no_properties, get_field, set_field,
}
use karna.Value.Fields.{get_field-set_field}
use karna.Text.{text_eq}
use karna.Dashboard.{is_text}
use karna.Settings.Defaults.{default_settings}
use karna.Settings.Config.{sent_value, diff_from, diff_service_config}
use text.Mathlib.Text.{◌==◌ as name_eq}
use text.Mathlib.TextEquality.{eq_iff}

abbrev pub is_among : String → List (String × Value) → Bool
is_among j keys = any (λ p. name_eq p.0 j) keys

abbrev pub is_blank_text : Value → Bool
is_blank_text (str []) = true
is_blank_text _ = false

module _ (same_json : Value → Value → Bool) (before after : Properties) where
  abbrev is_changed : String → Bool
  is_changed j = not (same_json (get_field j before) (get_field j after))

  -- What a key reads as in the changes.
  abbrev change_or : Bool → String → Properties → Value
  change_or sent j changes =
      if sent then sent_value same_json j (get_field j after) else get_field j changes

  change_or-step :
      (j k : String) (known : Bool) (changes : Properties)
      → change_or (known && is_changed j) j (
          if same_json (get_field k before) (get_field k after)
          then changes
          else set_field k (sent_value same_json k (get_field k after)) changes)
        ≡ change_or ((name_eq k j || known) && is_changed j) j changes
  change_or-step j k known changes = elim (Bool-cases (name_eq k j)) [
    | inl same ↦
        let e : k ≡ j = (eq_iff k j).0 same in
        subst
          (λ i.
            change_or (known && is_changed j) j (
              if same_json (get_field i before) (get_field i after)
              then changes
              else set_field i (sent_value same_json i (get_field i after)) changes)
            ≡ change_or ((name_eq i j || known) && is_changed j) j changes)
          (sym e)
          (ground (
            arith,
            (eq_iff j j).1 refl,
            get_field-set_field j j (sent_value same_json j (get_field j after)) changes,
          ))
    | inr other ↦
        ground (
          arith,
          other,
          get_field-set_field j k (sent_value same_json k (get_field k after)) changes,
        )
  ]

  get_field-diff_from :
      (j : String) (keys : List (String × Value)) (changes : Properties)
      → get_field j (diff_from same_json keys before after changes)
        ≡ change_or (is_among j keys && is_changed j) j changes
  unfolding diff_from
  get_field-diff_from j [] changes = refl
  get_field-diff_from j ((k, v) ∷ keys) changes =
      get_field-diff_from j keys (
        if same_json (get_field k before) (get_field k after)
        then changes
        else set_field k (sent_value same_json k (get_field k after)) changes)
      ∙ change_or-step j k (is_among j keys) changes

  -- Whether a setting is the body of an answer that was cleared.
  abbrev pub is_cleared : String → Value → Bool
  is_cleared j v =
      (name_eq j "default_block_response_body"
        || name_eq j "default_ratelimit_response_body"
        || name_eq j "default_50x_response_body")
      && is_blank_text v

  is_text-blank : (v : Value) → is_text [] v ≡ is_blank_text v
  unfolding is_text text_eq
  is_text-blank undefined = refl
  is_text-blank null = refl
  is_text-blank (bool b) = refl
  is_text-blank (num n) = refl
  is_text-blank (str []) = refl
  is_text-blank (str (c ∷ t)) = refl
  is_text-blank (arr vs) = refl
  is_text-blank (obj fs) = refl

  sent_value-cleared :
      (j : String) (v : Value) → sent_value same_json j v ≡ (if is_cleared j v then null else v)
  unfolding sent_value
  sent_value-cleared j v = rw (is_text-blank v) refl

  -- The changes that the form sends hold exactly the settings of the form whose value it changed, each with
  -- its new value, or with null where the setting is the body of the block, rate limit or 50x answer and its new
  -- value is the empty text.
  pub get_field-diff_service_config :
      (j : String)
      → get_field j (diff_service_config same_json before after) ≡ (
          if is_among j default_settings && not (same_json (get_field j before) (get_field j after))
          then (if is_cleared j (get_field j after) then null else get_field j after)
          else undefined)
  unfolding diff_service_config
  get_field-diff_service_config j =
      get_field-diff_from j default_settings no_properties
      ∙ rw (sent_value-cleared j (get_field j after)) (unfold get_field in refl)
