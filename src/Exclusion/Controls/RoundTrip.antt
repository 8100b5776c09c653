-- ===== src/Exclusion/Controls/RoundTrip.antt =====
-- Saving a form and opening it again: the controls are read, and stand for the same exclusions.
use karna.Common.{
  ◌<◌, ◌≡◌, refl, sym, ap, ap₂, ◌∙◌, some, List, [], ◌∷◌, ◌++◌, map, append-nil, length, All,
  All-append, All-mono, All-map_of, All-flat_map, All-apply, All-trivial, flat_map, SameItems,
  SameItems-refl, SameItems-trans, SameItems-of_eq, SameItems-append, SameItems-map,
}
use mathlib.Core.List.{map-append}
use karna.Text.{Text, distinct}
use karna.Text.Split.{IsNonempty}
use karna.Text.Distinct.{distinct-All, distinct-SameItems}
use karna.Value.{Value, arr, elements, to_elements}
use karna.Exclusion.Target.{max_draft_text, normalize_exclusion_target}
use karna.Exclusion.Values.{Group, ExclusionFields, split_exclusion_values, populated_groups}
use karna.Exclusion.Values.Split.{
  IsSelector, split_exclusion_values-IsSelector, split-join-split, split-join-distinct,
  split_exclusion_values_one,
}
use karna.Exclusion.Controls.{
  to_fields, nothing_collected, map_option, collect_all, group_controls, remove_rule,
  remove_rules_by_tag, build_exclusion_controls, exclusion_fields_from_controls,
}
use karna.Exclusion.Controls.Pairs.{
  Entry, to_group, entry_pairs, pairs_of, add_pair, add_pair-All, gather, gather-SameItems,
}
use karna.Exclusion.Controls.Collect.{by_id, by_tag, IsFilled, collected, collect_all_lem}
use karna.Exclusion.Controls.Stable.{IsStable, normalize-IsStable, normalize-IsNonempty}

-- The pairs of selector and normal target that a form's groups stand for.
abbrev pub selector_pairs : List Text → Text → List (Text × Text)
selector_pairs targets selector = map (λ t. (selector, normalize_exclusion_target t)) targets

abbrev pub group_pairs : Group → List (Text × Text)
group_pairs g =
    flat_map (selector_pairs (split_exclusion_values g.targets))
      (split_exclusion_values g.selectors)

abbrev pub target_pairs : List Group → List (Text × Text)
target_pairs gs = flat_map group_pairs (populated_groups gs)

map-flat_map {ℓ κ μ} :
    {A : Type ℓ} {B : Type κ} {C : Type μ} (f : B → C) (g : A → List B) (h : A → List C)
    (xs : List A)
    → ((a : A) → h a ≡ map f (g a))
    → flat_map h xs ≡ map f (flat_map g xs)
map-flat_map f g h [] e = refl
map-flat_map f g h (x ∷ xs) e =
    ap₂ (λ a b. a ++ b) (e x) (map-flat_map f g h xs e) ∙ sym (map-append f (g x) (flat_map g xs))

map-map_pair :
    (f : Text × Text → Value) (s : Text) (ts : List Text)
    → map (λ t. f (s, normalize_exclusion_target t)) ts ≡ map f (selector_pairs ts s)
map-map_pair f s [] = refl
map-map_pair f s (t ∷ ts) = ap (λ l. f (s, normalize_exclusion_target t) ∷ l) (map-map_pair f s ts)

group_controls-pairs :
    (f : Text × Text → Value) (g : Group)
    → group_controls (λ s t. f (s, t)) g ≡ map f (group_pairs g)
group_controls-pairs f g =
    let targets = split_exclusion_values g.targets in
    unfold group_controls in
    map-flat_map f (selector_pairs targets)
      (λ s. map (λ t. f (s, normalize_exclusion_target t)) targets)
      (split_exclusion_values g.selectors) (λ s. map-map_pair f s targets)

-- The controls of a form, by its rule ids, its tags and its pairs.
abbrev pub controls_of :
    List Text → List Text → List (Text × Text) → List (Text × Text) → List Value
controls_of ids tags ps qs =
    map (λ id. remove_rule id) ids
    ++ (map (λ tag. remove_rules_by_tag tag) tags ++ (map by_id ps ++ map by_tag qs))

pub build-eq-controls_of :
    (x : ExclusionFields)
    → build_exclusion_controls x
      ≡ controls_of
          (split_exclusion_values x.remove_rule_ids)
          (split_exclusion_values x.remove_tags)
          (target_pairs x.target_rule_groups)
          (target_pairs x.target_tag_groups)
build-eq-controls_of x =
    let f =
      map-flat_map by_id group_pairs (group_controls (λ s t. by_id (s, t)))
        (populated_groups x.target_rule_groups) (group_controls-pairs by_id) in
    let g =
      map-flat_map by_tag group_pairs (group_controls (λ s t. by_tag (s, t)))
        (populated_groups x.target_tag_groups) (group_controls-pairs by_tag) in
    unfold build_exclusion_controls in
    ap₂
      (λ a b.
        map (λ id. remove_rule id) (split_exclusion_values x.remove_rule_ids)
        ++ (map (λ tag. remove_rules_by_tag tag) (split_exclusion_values x.remove_tags)
            ++ (a ++ b)))
      f g

elements-to_elements : (vs : List Value) → elements (to_elements vs) ≡ vs
elements-to_elements [] = refl
elements-to_elements (v ∷ vs) = ap (λ l. v ∷ l) (elements-to_elements vs)

-- What holds of every selector with every normal target holds of all pairs of a form.
target_pairs-All {ℓ} :
    (Q : Text × Text → Type ℓ) (gs : List Group)
    → ((s t : Text) → IsSelector s → IsSelector t → Q (s, normalize_exclusion_target t))
    → All Q (target_pairs gs)
target_pairs-All Q gs make =
    All-flat_map (λ g. Unit {0}) Q group_pairs (populated_groups gs)
      (λ g _.
        All-flat_map IsSelector Q (selector_pairs (split_exclusion_values g.targets))
          (split_exclusion_values g.selectors)
          (λ s hs.
            All-map_of IsSelector Q (λ t. (s, normalize_exclusion_target t))
              (split_exclusion_values g.targets) (λ t ht. make s t hs ht)
              (split_exclusion_values-IsSelector g.targets).0)
          (split_exclusion_values-IsSelector g.selectors).0)
      (All-trivial (populated_groups gs))

target_pairs-IsFilled : (gs : List Group) → All IsFilled (target_pairs gs)
target_pairs-IsFilled gs =
    target_pairs-All IsFilled gs (λ s t hs ht. (hs.0, normalize-IsNonempty t ht))

-- A target below the limit of a draft's text, prefix included.
abbrev pub IsShort : Text × Text → Type 0
IsShort p = length p.1 < max_draft_text

abbrev IsKept : Text × Text → Type 0
IsKept p = IsSelector p.0 × IsStable p.1

target_pairs-IsKept :
    (gs : List Group) → All IsShort (target_pairs gs) → All IsKept (target_pairs gs)
target_pairs-IsKept gs short =
    All-apply IsShort IsKept (target_pairs gs)
      (target_pairs-All (λ p. IsShort p → IsKept p) gs
        (λ s t hs ht below. (hs, normalize-IsStable t ht below)))
      short

-- An entry whose group the form reads as it was written.
abbrev IsEntry : Entry → Type 0
IsEntry e = IsSelector e.0 × All IsStable e.1 × IsNonempty e.1

IsEntry-grown :
    (s t : Text) (ts : List Text) → IsStable t → IsEntry (s, ts) → IsEntry (s, ts ++ t ∷ [])
IsEntry-grown s t [] h k = absurd k.2
IsEntry-grown s t (u ∷ ts) h k = (k.0, All-append IsStable (u ∷ ts) (t ∷ []) k.1 (h, tt), tt)

gather-IsEntry :
    (es : List Entry) (ps : List (Text × Text))
    → All IsKept ps
    → All IsEntry es
    → All IsEntry (gather es ps)
unfolding gather
gather-IsEntry es [] h k = k
gather-IsEntry es (p ∷ ps) (h, hs) k =
    gather-IsEntry (add_pair es p) ps hs
      (add_pair-All IsEntry es p (h.0, (h.1, tt), tt) (λ ts e. IsEntry-grown p.0 p.1 ts h.1 e) k)

populated-entries :
    (es : List Entry) → All IsEntry es → populated_groups (map to_group es) ≡ map to_group es
unfolding populated_groups
populated-entries [] h = refl
populated-entries (([], ts) ∷ es) (h, hs) = absurd h.0.0
populated-entries ((c ∷ s, ts) ∷ es) (h, hs) =
    rw h.0.1 (ap (λ l. to_group (c ∷ s, ts) ∷ l) (populated-entries es hs))

selector_pairs_stable :
    (s : Text) (ts : List Text) → All IsStable ts → selector_pairs ts s ≡ map (λ t. (s, t)) ts
selector_pairs_stable s [] h = refl
selector_pairs_stable s (t ∷ ts) (h, hs) =
    ap₂ (λ u l. (s, u) ∷ l) h.1 (selector_pairs_stable s ts hs)

group_pairs-to_group :
    (e : Entry) → IsEntry e → SameItems (group_pairs (to_group e)) (entry_pairs e)
group_pairs-to_group e h =
    let many = split-join-distinct e.1 (All-mono IsStable IsSelector e.1 (λ t k. k.0) h.1) in
    let read : group_pairs (to_group e) ≡ selector_pairs (distinct [] e.1) e.0 =
      ap₂ (λ ts ss. flat_map (selector_pairs ts) ss) many (split_exclusion_values_one e.0 h.0)
      ∙ append-nil (selector_pairs (distinct [] e.1) e.0) in
    SameItems-trans _ _ _
      (SameItems-of_eq
        (read ∙ selector_pairs_stable e.0 (distinct [] e.1) (distinct-All IsStable [] e.1 h.1)))
      (SameItems-map (λ t. (e.0, t)) (distinct [] e.1) e.1 (distinct-SameItems e.1))

group_pairs-entries :
    (es : List Entry)
    → All IsEntry es
    → SameItems (flat_map group_pairs (map to_group es)) (pairs_of es)
group_pairs-entries [] h = SameItems-refl []
group_pairs-entries (e ∷ es) (h, hs) =
    SameItems-append _ _ _ _ (group_pairs-to_group e h) (group_pairs-entries es hs)

-- The groups that the loop collects from a form's pairs stand for these pairs.
target_pairs-gather :
    (gs : List Group)
    → All IsShort (target_pairs gs)
    → SameItems (target_pairs (map to_group (gather [] (target_pairs gs)))) (target_pairs gs)
target_pairs-gather gs short =
    let ps = target_pairs gs in
    let es = gather [] ps in
    let h = gather-IsEntry [] ps (target_pairs-IsKept gs short) tt in
    SameItems-trans _ (flat_map group_pairs (map to_group es)) _
      (SameItems-of_eq (ap (flat_map group_pairs) (populated-entries es h)))
      (SameItems-trans _ (pairs_of es) _ (group_pairs-entries es h) (gather-SameItems [] ps))

-- What the editor reads back from the controls of a form.
abbrev pub reopened : ExclusionFields → ExclusionFields
reopened x = to_fields (
    collected (split_exclusion_values x.remove_rule_ids) (split_exclusion_values x.remove_tags)
      (gather [] (target_pairs x.target_rule_groups))
      (gather [] (target_pairs x.target_tag_groups)))

fields_of_list :
    (cs : List Value)
    → IsNonempty cs
    → exclusion_fields_from_controls (arr (to_elements cs))
      ≡ map_option to_fields (collect_all nothing_collected cs)
fields_of_list [] h = absurd h
fields_of_list (c ∷ cs) h =
    unfold exclusion_fields_from_controls in
    ap (λ l. map_option to_fields (collect_all nothing_collected (c ∷ l))) (elements-to_elements cs)

-- The editor can open what it has saved: it reads the controls of a form as a form.
pub fields-build :
    (x : ExclusionFields)
    → IsNonempty (build_exclusion_controls x)
    → exclusion_fields_from_controls (arr (to_elements (build_exclusion_controls x)))
      ≡ some (reopened x)
fields-build x h =
    let nonempty = λ (v : Text).
      All-mono IsSelector IsNonempty (split_exclusion_values v) (λ s k. k.0)
        (split_exclusion_values-IsSelector v).0 in
    fields_of_list (build_exclusion_controls x) h
    ∙ (ap (λ cs. map_option to_fields (collect_all nothing_collected cs)) (build-eq-controls_of x)
        ∙ ap (map_option to_fields) (
            collect_all_lem (split_exclusion_values x.remove_rule_ids)
              (split_exclusion_values x.remove_tags) (target_pairs x.target_rule_groups)
              (target_pairs x.target_tag_groups) (nonempty x.remove_rule_ids)
              (nonempty x.remove_tags) (target_pairs-IsFilled x.target_rule_groups)
              (target_pairs-IsFilled x.target_tag_groups)))

-- Saving the form that was read back gives the same controls, as a set, if every target stays
-- below the limit of 240 code units.
pub build-reopened :
    (x : ExclusionFields)
    → All IsShort (target_pairs x.target_rule_groups)
    → All IsShort (target_pairs x.target_tag_groups)
    → SameItems (build_exclusion_controls (reopened x)) (build_exclusion_controls x)
build-reopened x short_ids short_tags =
    let values = λ (v : Text). split-join-split v in
    SameItems-trans _ _ _ (SameItems-of_eq (build-eq-controls_of (reopened x))) (
      SameItems-trans _ _ _
        (SameItems-append _ _ _ _
          (SameItems-of_eq (ap (map (λ id. remove_rule id)) (values x.remove_rule_ids)))
          (SameItems-append _ _ _ _
            (SameItems-of_eq (ap (map (λ tag. remove_rules_by_tag tag)) (values x.remove_tags)))
            (SameItems-append _ _ _ _
              (SameItems-map by_id _ _ (target_pairs-gather x.target_rule_groups short_ids))
              (SameItems-map by_tag _ _ (target_pairs-gather x.target_tag_groups short_tags)))))
        (SameItems-of_eq (sym (build-eq-controls_of x))))

-- A form that yields controls is saved and opened again without loss: the controls are read as a
-- form whose controls are the same, as a set, if every target with its prefix stays below 240
-- code units.
pub controls_round_trip :
    (x : ExclusionFields)
    → IsNonempty (build_exclusion_controls x)
    → All IsShort (target_pairs x.target_rule_groups)
    → All IsShort (target_pairs x.target_tag_groups)
    → (y : ExclusionFields) × (exclusion_fields_from_controls
          (arr (to_elements (build_exclusion_controls x)))
        ≡ some y)
      × SameItems (build_exclusion_controls y) (build_exclusion_controls x)
controls_round_trip x h short_ids short_tags =
    (reopened x, fields-build x h, build-reopened x short_ids short_tags)
