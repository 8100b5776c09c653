-- ===== src/Exclusion/Controls/Validity.antt =====
-- When the form accepts what it holds: in terms of the controls that it yields.
use karna.Common.{
  ◌+◌, ◌≡◌, refl, ap, ap₂, sym, ◌∙◌, append_assoc, ◌↔◌, Bool, true, false, not, ◌&&◌, ◌||◌, List,
  [], ◌∷◌, ◌++◌, map, arith, and-true, ltb, length, every, All, flat_map,
}
use karna.Text.{Text, is_empty}
use karna.Text.Split.{IsNonempty}
use karna.Exclusion.Values.{
  Group, ExclusionFields, is_complete, split_exclusion_values, populated_groups,
  exclusion_input_valid,
}
use karna.Exclusion.Controls.{build_exclusion_controls}
use karna.Exclusion.Controls.RoundTrip.{
  selector_pairs, group_pairs, target_pairs, build-eq-controls_of,
}

not-true : (b : Bool) → not b ≡ true → b ≡ false
not-true b h = ground arith

module _ {ℓ} {A : Type ℓ} where
  pub IsNonempty-of_is_empty : (xs : List A) → is_empty xs ≡ false → IsNonempty xs
  IsNonempty-of_is_empty [] h = cc
  IsNonempty-of_is_empty (x ∷ xs) h = tt

  pub is_empty_of : (xs : List A) → IsNonempty xs → is_empty xs ≡ false
  is_empty_of [] h = absurd h
  is_empty_of (x ∷ xs) h = refl

  is_empty-append : (xs ys : List A) → is_empty (xs ++ ys) ≡ (is_empty xs && is_empty ys)
  is_empty-append [] ys = refl
  is_empty-append (x ∷ xs) ys = refl

  ltb-length : (xs : List A) → ltb 0 (length xs) ≡ not (is_empty xs)
  ltb-length [] = refl
  ltb-length (x ∷ xs) = ground arith

is_empty-map {ℓ κ} :
    {A : Type ℓ} {B : Type κ} (f : A → B) (xs : List A) → is_empty (map f xs) ≡ is_empty xs
is_empty-map f [] = refl
is_empty-map f (x ∷ xs) = refl

no_targets : (ss : List Text) → flat_map (selector_pairs []) ss ≡ []
no_targets [] = refl
no_targets (s ∷ ss) = no_targets ss

complete_pairs :
    (ts ss : List Text)
    → (not (is_empty ss) && not (is_empty ts)) ≡ not (is_empty (flat_map (selector_pairs ts) ss))
complete_pairs ts [] = refl
complete_pairs [] (s ∷ ss) = rw (no_targets ss)
complete_pairs (t ∷ ts) (s ∷ ss) = refl

-- A group is complete when it yields a pair.
is_complete-pairs : (g : Group) → is_complete g ≡ not (is_empty (group_pairs g))
is_complete-pairs g =
    complete_pairs (split_exclusion_values g.targets) (split_exclusion_values g.selectors)

abbrev pub IsProductive : Group → Type 0
IsProductive g = IsNonempty (group_pairs g)

every-IsProductive : (gs : List Group) → (every is_complete gs ≡ true) ↔ All IsProductive gs
every-IsProductive gs = (to gs, from gs)
  where
    to : (hs : List Group) → every is_complete hs ≡ true → All IsProductive hs
    to [] h = tt
    to (g ∷ hs) h =
        let (first, rest) = and-true (is_complete g) (every is_complete hs) h in
        (IsNonempty-of_is_empty (group_pairs g) (ground (arith, is_complete-pairs g)), to hs rest)

    from : (hs : List Group) → All IsProductive hs → every is_complete hs ≡ true
    from [] h = refl
    from (g ∷ hs) (h, k) = rw (is_complete-pairs g) (rw (is_empty_of (group_pairs g) h) (from hs k))

flat_map-append :
    (gs hs : List Group)
    → flat_map group_pairs (gs ++ hs) ≡ flat_map group_pairs gs ++ flat_map group_pairs hs
flat_map-append [] hs = refl
flat_map-append (g ∷ gs) hs =
    ap (λ l. group_pairs g ++ l) (flat_map-append gs hs)
    ∙ sym (append_assoc (group_pairs g) (flat_map group_pairs gs) (flat_map group_pairs hs))

productive_pairs :
    (gs : List Group) → All IsProductive gs → is_empty (flat_map group_pairs gs) ≡ is_empty gs
productive_pairs [] h = refl
productive_pairs (g ∷ gs) (h, k) =
    is_empty-append (group_pairs g) (flat_map group_pairs gs)
    ∙ ground (arith, is_empty_of (group_pairs g) h)

ltb-sum : (xs ys : List Text) → ltb 0 (length xs + length ys) ≡ not (is_empty xs && is_empty ys)
ltb-sum [] [] = refl
ltb-sum [] (y ∷ ys) = ground arith
ltb-sum (x ∷ xs) ys = ground arith

some_part :
    (a b : List Text) (g h : List Group)
    → (ltb 0 (length a + length b) || ltb 0 (length g) || ltb 0 (length h))
      ≡ not (is_empty a && (is_empty b && is_empty (g ++ h)))
some_part a b g h = ground (arith, ltb-sum a b, ltb-length g, ltb-length h, is_empty-append g h)

module _ (x : ExclusionFields) where
  abbrev ids : List Text
  ids = split_exclusion_values x.remove_rule_ids

  abbrev tags : List Text
  tags = split_exclusion_values x.remove_tags

  abbrev pub rule_groups : List Group
  rule_groups = populated_groups x.target_rule_groups

  abbrev pub tag_groups : List Group
  tag_groups = populated_groups x.target_tag_groups

  build-is_empty :
      All IsProductive (rule_groups ++ tag_groups)
      → is_empty (build_exclusion_controls x)
        ≡ (is_empty ids && (is_empty tags && is_empty (rule_groups ++ tag_groups)))
  build-is_empty h =
      ap is_empty (build-eq-controls_of x)
      ∙ (is_empty-append _ _
          ∙ ap₂ (λ a b. a && b) (is_empty-map _ ids)
              (is_empty-append _ _
                ∙ ap₂ (λ a b. a && b) (is_empty-map _ tags)
                    (is_empty-append _ _
                      ∙ (ap₂ (λ a b. a && b) (is_empty-map _ (target_pairs x.target_rule_groups))
                            (is_empty-map _ (target_pairs x.target_tag_groups))
                          ∙ (sym (
                                is_empty-append (flat_map group_pairs rule_groups)
                                  (flat_map group_pairs tag_groups))
                              ∙ (ap is_empty (sym (flat_map-append rule_groups tag_groups))
                                  ∙ productive_pairs (rule_groups ++ tag_groups) h))))))

  valid-eq : exclusion_input_valid x ≡ (
      every is_complete (rule_groups ++ tag_groups)
      && not (is_empty ids && (is_empty tags && is_empty (rule_groups ++ tag_groups))))
  valid-eq =
      let e = some_part ids tags rule_groups tag_groups in
      unfold exclusion_input_valid in ap (λ b. every is_complete (rule_groups ++ tag_groups) && b) e

  -- The form is accepted exactly when each of its groups that is not blank yields a control, and
  -- the form as a whole yields one.
  pub exclusion_input_valid_iff :
      (exclusion_input_valid x ≡ true)
      ↔ (All IsProductive (rule_groups ++ tag_groups) × IsNonempty (build_exclusion_controls x))
  exclusion_input_valid_iff = (to, from)
    where
      all :
          (every is_complete (rule_groups ++ tag_groups) ≡ true)
          ↔ All IsProductive (rule_groups ++ tag_groups)
      all = every-IsProductive (rule_groups ++ tag_groups)

      to :
          exclusion_input_valid x ≡ true
          → All IsProductive (rule_groups ++ tag_groups) × IsNonempty (build_exclusion_controls x)
      to h =
          let (complete, part) = and-true _ _ (sym valid-eq ∙ h) in
          let productive = all.0 complete in
          (
            productive,
            IsNonempty-of_is_empty (build_exclusion_controls x)
                (build-is_empty productive ∙ not-true _ part),
          )

      from :
          All IsProductive (rule_groups ++ tag_groups) × IsNonempty (build_exclusion_controls x)
          → exclusion_input_valid x ≡ true
      from (productive, nonempty) =
          let part =
            sym (build-is_empty productive) ∙ is_empty_of (build_exclusion_controls x) nonempty in
          valid-eq ∙ ap₂ (λ a b. a && not b) (all.1 productive) part
