-- ===== src/Category/Tests.antt =====
-- Runs of the functions of categories.js, and its theorems at an input.
use karna.Common.{◌≡◌, refl, [], ◌∷◌, ◌++◌, All}
use karna.Text.{Text, codes, text_eq}
use karna.Value.{arr, obj, num, str, no_elements, element, no_properties}
use karna.Category.{families, category_of_id, category_for_rule, category_meta}
use karna.Category.Laws.{category_meta-category_for_rule, category_of_id-families}

abbrev same_text : Text → Text
same_text s = s

sqli_rule : category_for_rule same_text (num (codes "942100")) (arr no_elements) ≡ codes "sqli"
unfolding category_for_rule text_eq
sqli_rule = refl

empty_tags : category_for_rule same_text (str (codes "local_1")) (obj no_properties) ≡ codes "other"
unfolding category_for_rule text_eq
empty_tags = refl

by_tag :
    category_for_rule same_text
      (str (codes "local_1"))
      (arr (element (str (codes "attack-xss")) no_elements))
    ≡ codes "xss"
unfolding category_for_rule text_eq
by_tag = refl

category_meta-category_for_rule_example :
    (category_meta (category_for_rule same_text (num (codes "942100")) (arr no_elements))).id
    ≡ category_for_rule same_text (num (codes "942100")) (arr no_elements)
category_meta-category_for_rule_example =
    category_meta-category_for_rule same_text (num (codes "942100")) (arr no_elements)

category_of_id-families_example :
    All (λ f. category_of_id (f.0 ++ codes "100") (codes "xss" ∷ []) ≡ f.1) families
category_of_id-families_example = category_of_id-families (codes "100") (codes "xss" ∷ [])
