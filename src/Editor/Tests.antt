-- ===== src/Editor/Tests.antt =====
-- A document with one rule that is being typed.
use karna.Common.{◌≡◌, refl, true, none, some, List, [], ◌∷◌}
use karna.Text.{Text, codes}
use karna.Editor.Scan.{Frame, scan_from}
use karna.Editor.Scan.Docs.{
  Doc, scalar, string, array, object, spaced, last, item, last_member, plain, escaped, print,
  is_well,
}
use karna.Editor.Scan.Steps.{out, Ends, Same}
use karna.Editor.Scan.Whole.{scan_from-print}

-- `{ "a":["\"", 1] }`
abbrev document : Doc
document =
    object
      (last_member (codes " ") (plain 97 ∷ []) (
        array (item (string (escaped 34 ∷ [])) (last (spaced (codes " ") (scalar (codes "1")))))
          []))
      (codes " ")

document_well : is_well document ≡ true
unfolding is_well
document_well = refl

-- A condition whose value is to come.
abbrev frames : List Frame
frames =
    record {
      is_object = true;
      role = some (codes "conditions");
      cur_key = some (codes "value");
      expect_value = true;
      str_start = none;
    }
    ∷ []

scan_from-print_example : Ends (Same frames) (scan_from [] 0 (print document) (out frames none))
scan_from-print_example = scan_from-print [] document 0 frames none document_well refl

abbrev typed : Text
typed = codes "{\"op\": \"be\",\n}"
