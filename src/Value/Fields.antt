-- ===== src/Value/Fields.antt =====
-- Laws of the properties of an object.
use karna.Common.{◌≡◌, refl, String, arith, if◌then◌else◌}
use karna.Value.{
  Value, undefined, Properties, no_properties, property, get_field, set_field, delete_field,
}
use text.Mathlib.Text.{◌==◌ as name_eq}
use text.Mathlib.TextEquality.{eq_iff}

-- A property that was set reads as its new value, and the others as before.
pub get_field-set_field :
    (j k : String) (v : Value) (fs : Properties)
    → get_field j (set_field k v fs) ≡ (if name_eq k j then v else get_field j fs)
unfolding get_field set_field
get_field-set_field j k v no_properties = refl
get_field-set_field j k v (property i w fs) =
    ground (arith, eq_iff k j, eq_iff i k, eq_iff i j, get_field-set_field j k v fs)

pub get_field-delete_field :
    (j k : String) (fs : Properties)
    → get_field j (delete_field k fs) ≡ (if name_eq k j then undefined else get_field j fs)
unfolding get_field delete_field
get_field-delete_field j k no_properties = ground arith
get_field-delete_field j k (property i w fs) =
    ground (arith, eq_iff k j, eq_iff i k, eq_iff i j, get_field-delete_field j k fs)
