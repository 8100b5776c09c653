-- ===== src/Events/Redact/Alike.antt =====
-- What stands under a sensitive name has no influence on what is exported.
use karna.Common.{String, ◌≡◌, refl, ap, ap₂, true, Option, List, if◌then◌else◌}
use karna.Text.{Text, codes}
use karna.Value.{
  Value, obj, arr, Properties, no_properties, property, Elements, no_elements, element,
}
use karna.Events.Redact.{
  is_sensitive_name, redacted, redact_value, redact_properties, redact_elements, redact_object,
  redact_event, redact_safe, Url,
}

-- Two values that are the same but for what stands under sensitive names.
mutual
  pub data AlikeValue : Value → Value → Type 0 where
    same : (v : Value) → AlikeValue v v
    in_object : {fs gs : Properties} → AlikeProperties fs gs → AlikeValue (obj fs) (obj gs)
    in_array : {vs ws : Elements} → AlikeElements vs ws → AlikeValue (arr vs) (arr ws)

  pub data AlikeProperties : Properties → Properties → Type 0 where
    no_more : AlikeProperties no_properties no_properties
    hidden :
        {k : String} {fs gs : Properties} (v w : Value)
        → is_sensitive_name (codes k) ≡ true
        → AlikeProperties fs gs
        → AlikeProperties (property k v fs) (property k w gs)
    shown :
        {k : String} {v w : Value} {fs gs : Properties}
        → AlikeValue v w
        → AlikeProperties fs gs
        → AlikeProperties (property k v fs) (property k w gs)

  pub data AlikeElements : Elements → Elements → Type 0 where
    ended : AlikeElements no_elements no_elements
    item :
        {v w : Value} {vs ws : Elements}
        → AlikeValue v w
        → AlikeElements vs ws
        → AlikeElements (element v vs) (element w ws)

abbrev shown_or_not : Text → Value → Value
shown_or_not name v = if is_sensitive_name name then redacted else v

mutual
  unfolding redact_value

  redact_value-Alike : {v w : Value} → AlikeValue v w → redact_value v ≡ redact_value w
  redact_value-Alike (same v) = refl
  redact_value-Alike (in_object h) = ap obj (redact_properties-Alike h)
  redact_value-Alike (in_array h) = ap arr (redact_elements-Alike h)

  redact_properties-Alike :
      {fs gs : Properties} → AlikeProperties fs gs → redact_properties fs ≡ redact_properties gs
  redact_properties-Alike no_more = refl
  redact_properties-Alike (hidden {k} v w name h) =
      rw name (ap (property k redacted) (redact_properties-Alike h))
  redact_properties-Alike (shown {k} a h) =
      ap₂ (λ x rest. property k (shown_or_not (codes k) x) rest) (redact_value-Alike a)
        (redact_properties-Alike h)

  redact_elements-Alike :
      {vs ws : Elements} → AlikeElements vs ws → redact_elements vs ≡ redact_elements ws
  redact_elements-Alike ended = refl
  redact_elements-Alike (item a h) = ap₂ element (redact_value-Alike a) (redact_elements-Alike h)

-- Two events that differ only in what stands under sensitive names, at any depth, are redacted to the same
-- event: an export shows nothing of what such a name held.
pub redact_event-Alike :
    (parse_url : Text → Option Url) (print_search : List (Text × Text) → Text) (ev other : Value)
    → AlikeValue ev other
    → redact_event parse_url print_search ev ≡ redact_event parse_url print_search other
unfolding redact_event
redact_event-Alike parse_url print_search ev other h =
    ap (redact_safe parse_url print_search) (unfold redact_object in redact_value-Alike h)
