-- ===== src/Demo/Calls/Body.antt =====
-- demo.js, lines 205 to 214: a body whose fields can all be cloned.
use karna.Common.{
  ◌≡◌, refl, subst, Bool, true, false, inl, inr, some, Bool-cases, and-true, ◌&&◌, ◌||◌,
}
use karna.Value.{
  Value, Properties, undefined, null, bool, num, str, arr, obj, no_properties, property,
}
use karna.Demo.Clone.{clone, json_value}
use karna.Demo.Write.{is_skipped, patch_settings, assigned}
use karna.Demo.Calls.{Call, patch_engine_call}

-- Whether every field of a body that is not passed over has a value other than `undefined`, as every field that is
-- read from JSON has.
abbrev pub is_defined : Value → Bool
is_defined undefined = false
is_defined v = true

unfoldable pub has_values : Properties → Bool
has_values no_properties = true
has_values (property field v body) = (is_skipped field || is_defined v) && has_values body

-- The body of a call that changes settings has values.
abbrev pub has_body : Call → Bool
has_body (patch_engine_call id body) = has_values body
has_body call = true

clone_defined : (v : Value) → is_defined v ≡ true → (w : Value) × (clone v ≡ some w)
unfolding clone
clone_defined undefined h = absurd cc
clone_defined null h = (json_value null, refl)
clone_defined (bool b) h = (json_value (bool b), refl)
clone_defined (num t) h = (json_value (num t), refl)
clone_defined (str t) h = (json_value (str t), refl)
clone_defined (arr vs) h = (json_value (arr vs), refl)
clone_defined (obj fs) h = (json_value (obj fs), refl)

pub patch_settings-completes :
    (body config : Properties)
    → has_values body ≡ true
    → (patch_settings body config).has_thrown ≡ false
unfolding patch_settings has_values
patch_settings-completes no_properties config h = refl
patch_settings-completes (property field v body) config h =
    let (here, later) = and-true (is_skipped field || is_defined v) (has_values body) h in
    elim (Bool-cases (is_skipped field)) [
      | inl skipped ↦ rw skipped (patch_settings-completes body config later)
      | inr sent ↦
          let defined : is_defined v ≡ true = subst (λ b. (b || is_defined v) ≡ true) sent here in
          let (w, cloned) = clone_defined v defined in
          rw (sent, cloned) (patch_settings-completes body (assigned field (some w) config) later)
    ]
