-- ===== src/Services/Save/Unchanged.antt =====
-- A service that is opened and saved without a change.
use karna.Common.{
  subst, String, ◌≡◌, refl, ap, Bool, true, false, Option, none, some, List, [], ◌∷◌,
}
use karna.Value.{arr, no_elements, Value, Properties, no_properties, get_field}
use karna.Settings.Defaults.{default_settings}
use karna.Settings.Config.{create_service_config, copied_list, diff_from, diff_service_config}
use karna.Services.Save.{Draft, or_else, draft_of, open_draft, policy_of, body_of}

abbrev draft_or : Draft → Option Draft → Draft
draft_or d none = d
draft_or d (some e) = e

module _ (same_json : Value → Value → Bool) (reflexive : (v : Value) → same_json v v ≡ true) where
  diff_from-same :
      (keys : List (String × Value)) (c changes : Properties)
      → diff_from same_json keys c c changes ≡ changes
  unfolding diff_from
  diff_from-same [] c changes = refl
  diff_from-same ((k, v) ∷ keys) c changes =
      rw (reflexive (get_field k c)) (diff_from-same keys c changes)

  diff_service_config-same : (c : Properties) → diff_service_config same_json c c ≡ no_properties
  diff_service_config-same c =
      unfold diff_service_config in diff_from-same default_settings c no_properties

  body_of-draft :
      (d : Draft)
      → d.edited ≡ d.base
      → d.clear_password ≡ false
      → d.password ≡ []
      → body_of same_json d ≡ policy_of d
  unfolding body_of
  body_of-draft d same kept blank = rw (kept, blank, same, diff_service_config-same d.base) refl

  -- What holds of a draft that was just opened.
  abbrev IsFresh : Draft → Type 0
  IsFresh d = (d.edited ≡ d.base) × ((d.clear_password ≡ false) × (d.password ≡ []))

  draft_of-IsFresh :
      (c : Properties) (plugins : Option Value) (base : Option Properties) (d : Draft)
      → draft_of c plugins base ≡ some d
      → IsFresh d
  draft_of-IsFresh c none base d h = absurd cc
  draft_of-IsFresh c (some p) none d h = absurd cc
  draft_of-IsFresh c (some p) (some b) d h = subst IsFresh (ap (draft_or d) h) (refl, (refl, refl))

  -- A service that is opened and saved without a change sends its policy alone: no other setting, and no password.
  pub body_of-open_draft :
      (c : Properties) (d : Draft) → open_draft c ≡ some d → body_of same_json d ≡ policy_of d
  unfolding open_draft
  body_of-open_draft c d h =
      let (same, (kept, blank)) =
        draft_of-IsFresh c
          (copied_list (or_else (get_field "crs_plugins_enabled" c) (arr no_elements)))
          (create_service_config c) d h in
      body_of-draft d same kept blank
