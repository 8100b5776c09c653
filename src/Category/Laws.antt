-- ===== src/Category/Laws.antt =====
-- Every rule has one of the listed categories, and the first criterion that fits decides.
use karna.Common.{
  ◌≡◌, refl, sym, ap, ◌∙◌, subst, Bool, true, false, inl, inr, some, List, [], ◌∷◌, ◌++◌, map,
  arith, Bool-cases, Option-cases, All, Among, here, there, All-of_every, if◌then◌else◌, take,
}
use mathlib.Core.Bool.{false≢true}
use karna.Text.{Text, codes, strip_prefix, text_eq, contains}
use karna.Text.Equality.{text_eq_iff}
use karna.Text.Distinct.{Among-contains}
use karna.Value.{Value, text_or_empty}
use karna.Category.{
  Category, categories, families, family_or, or_other, find_family, is_gate, category_of_tags,
  category_of_id, tag_texts, category_for_rule, find_category, category_meta,
}

abbrev pub category_ids : List Text
category_ids = map (λ c. c.id) categories

abbrev IsKnown : Text → Type 0
IsKnown id = Among id category_ids

is_known : (id : Text) → contains id category_ids ≡ true → IsKnown id
is_known id h = Among-contains id category_ids h

find_family-IsKnown :
    (fs : List (Text × Text)) (key : Text) {category : Text}
    → All (λ f. contains f.1 category_ids ≡ true) fs
    → find_family fs key ≡ some category
    → IsKnown category
unfolding find_family
find_family-IsKnown [] key h e = cc
find_family-IsKnown ((prefix, found) ∷ fs) key {category} (h, hs) e =
    elim (Bool-cases (text_eq prefix key)) [
      | inl same ↦
          let reached : found ≡ category = ground arith in subst IsKnown reached (is_known found h)
      | inr other ↦ find_family-IsKnown fs key hs (rw (other, find_family) at e)
    ]

families_known : All (λ f. contains f.1 category_ids ≡ true) families
unfolding contains text_eq
families_known = All-of_every (λ (f : Text × Text). contains f.1 category_ids) families refl

first_of_if : (P : Text → Type 0) (b : Bool) (x y : Text) → P x → P y → P (if b then x else y)
first_of_if P true x y h k = h
first_of_if P false x y h k = k

category_of_tags-IsKnown : (t : List Text) → IsKnown (category_of_tags t)
unfolding category_of_tags contains text_eq
category_of_tags-IsKnown t = first_of_if IsKnown _ _ _ (is_known (codes "sqli") refl) (
    first_of_if IsKnown _ _ _ (is_known (codes "xss") refl) (
      first_of_if IsKnown _ _ _ (is_known (codes "rce") refl) (
        first_of_if IsKnown _ _ _ (is_known (codes "lfi") refl) (
          first_of_if IsKnown _ _ _ (is_known (codes "scanner") refl)
            (is_known (codes "other") refl)))))

family_or-IsKnown :
    (key : Text) (rest : Text) → IsKnown rest → IsKnown (family_or (find_family families key) rest)
family_or-IsKnown key rest h = elim (Option-cases (find_family families key)) [
  | inl missing ↦ subst (λ o. IsKnown (family_or o rest)) (sym missing) h
  | inr (family, found) ↦
      subst (λ o. IsKnown (family_or o rest)) (sym found)
        (find_family-IsKnown families key families_known found)
]

category_of_id-IsKnown : (id : Text) (tags : List Text) → IsKnown (category_of_id id tags)
unfolding category_of_id contains text_eq
category_of_id-IsKnown id tags = first_of_if IsKnown _ _ _ (is_known (codes "mcp") refl) (
    first_of_if IsKnown _ _ _ (is_known (codes "gate") refl)
      (family_or-IsKnown (take 3 id) (category_of_tags tags) (category_of_tags-IsKnown tags)))

find_category_known :
    (cs : List Category) (id : Text)
    → Among id (map (λ c. c.id) cs)
    → (c : Category) × (find_category cs id ≡ some c) × (c.id ≡ id)
unfolding find_category
find_category_known [] id h = elim h [ ]
find_category_known (c ∷ cs) id h = elim (Bool-cases (text_eq c.id id)) [
  | inl same ↦ (c, rw same, (text_eq_iff c.id id).0 same)
  | inr other ↦
      let (d, found, named) = find_category_known cs id (later h other) in
      (d, rw other found, named)
]
  where
    later :
        Among id (c.id ∷ map (λ d. d.id) cs)
        → text_eq c.id id ≡ false
        → Among id (map (λ d. d.id) cs)
    later (here e) other = absurd (false≢true (sym other ∙ (text_eq_iff c.id id).1 e))
    later (there m) other = m

category_meta_known : (id : Text) → IsKnown id → (category_meta id).id ≡ id
category_meta_known id known =
    let (c, found, named) = find_category_known categories id known in
    unfold category_meta in ap (λ o. (or_other o).id) found ∙ named

category_for_rule-eq :
    (lower : Text → Text) (rule_id tags : Value)
    → category_for_rule lower rule_id tags
      ≡ category_of_id (text_or_empty rule_id) (tag_texts lower tags)
category_for_rule-eq lower rule_id tags = unfold category_for_rule in refl

-- Every rule is shown with the name and colour of its own category: whatever the rule id and the
-- tags, the category is one of the listed ones, and its row is found.
pub category_meta-category_for_rule :
    (lower : Text → Text) (rule_id tags : Value)
    → (category_meta (category_for_rule lower rule_id tags)).id
      ≡ category_for_rule lower rule_id tags
category_meta-category_for_rule lower rule_id tags =
    subst (λ id. (category_meta id).id ≡ id) (sym (category_for_rule-eq lower rule_id tags))
      (category_meta_known _
        (category_of_id-IsKnown (text_or_empty rule_id) (tag_texts lower tags)))

-- A rule id that begins with a known CRS family has the category of the family: no gate, no other
-- prefix and no tag changes it.
pub category_of_id-families :
    (rest : Text) (tags : List Text) → All (λ f. category_of_id (f.0 ++ rest) tags ≡ f.1) families
unfolding category_of_id is_gate find_family contains text_eq strip_prefix
category_of_id-families rest tags = (
  refl,
  (
    refl,
    (refl, (refl, (refl, (refl, (refl, (refl, (refl, (refl, (refl, (refl, (refl, tt))))))))))),
  ),
)
