-- ===== src/Exclusion/Controls/Collect.antt =====
-- What the loop that reads controls back collects from controls of the four forms.
use karna.Common.{
  ◌≡◌, refl, sym, ap, ◌∙◌, some, List, [], ◌∷◌, ◌++◌, map, append_assoc, append-nil, All,
}
use karna.Text.{Text}
use karna.Text.Split.{IsNonempty}
use karna.Value.{Value}
use karna.Exclusion.Values.{Group}
use karna.Exclusion.Controls.{
  Collected, collect, collect_all, remove_rule, remove_rules_by_tag, remove_target_from_rule_by_id,
  remove_target_rule_by_tag,
}
use karna.Exclusion.Controls.Pairs.{
  Entry, to_group, HasTargets, append_grouped-add_pair, add_pair, add_pair-All, gather,
}

-- The controls of pairs of selector and target.
abbrev pub by_id : Text × Text → Value
by_id p = remove_target_from_rule_by_id p.0 p.1

abbrev pub by_tag : Text × Text → Value
by_tag p = remove_target_rule_by_tag p.0 p.1

abbrev pub IsFilled : Text × Text → Type 0
IsFilled p = IsNonempty p.0 × IsNonempty p.1

abbrev pub collected : List Text → List Text → List Entry → List Entry → Collected
collected ids tags es fs = record {
  rule_ids = ids;
  tags = tags;
  rule_groups = map to_group es;
  tag_groups = map to_group fs;
}

collect_all-cons :
    (a b : Collected) (c : Value) (cs : List Value)
    → collect a c ≡ some b
    → collect_all a (c ∷ cs) ≡ collect_all b cs
collect_all-cons a b c cs e = unfold collect_all in rw (e, collect_all)

HasTargets-add_pair :
    (es : List Entry) (p : Text × Text) → All HasTargets es → All HasTargets (add_pair es p)
HasTargets-add_pair es p h = add_pair-All HasTargets es p tt grown h
  where
    grown : (ts : List Text) → IsNonempty ts → IsNonempty (ts ++ p.1 ∷ [])
    grown [] k = absurd k
    grown (t ∷ ts) k = tt

module _ (tags : List Text) (es fs : List Entry) where
  collect_rule :
      (ids : List Text) (id : Text)
      → IsNonempty id
      → collect (collected ids tags es fs) (remove_rule id)
        ≡ some (collected (ids ++ id ∷ []) tags es fs)
  unfolding collect
  collect_rule ids [] h = absurd h
  collect_rule ids (c ∷ s) h = refl

  collect_rules :
      (ids more : List Text) (rest : List Value)
      → All IsNonempty more
      → collect_all (collected ids tags es fs) (map (λ id. remove_rule id) more ++ rest)
        ≡ collect_all (collected (ids ++ more) tags es fs) rest
  collect_rules ids [] rest h =
      ap (λ l. collect_all (collected l tags es fs) rest) (sym (append-nil ids))
  collect_rules ids (id ∷ more) rest (h, hs) =
      collect_all-cons _ _ _ _ (collect_rule ids id h)
      ∙ (collect_rules (ids ++ id ∷ []) more rest hs
          ∙ ap (λ l. collect_all (collected l tags es fs) rest) (append_assoc ids (id ∷ []) more))

module _ (ids : List Text) (es fs : List Entry) where
  collect_tag :
      (tags : List Text) (tag : Text)
      → IsNonempty tag
      → collect (collected ids tags es fs) (remove_rules_by_tag tag)
        ≡ some (collected ids (tags ++ tag ∷ []) es fs)
  unfolding collect
  collect_tag tags [] h = absurd h
  collect_tag tags (c ∷ s) h = refl

  collect_tags :
      (tags more : List Text) (rest : List Value)
      → All IsNonempty more
      → collect_all (collected ids tags es fs) (map (λ tag. remove_rules_by_tag tag) more ++ rest)
        ≡ collect_all (collected ids (tags ++ more) es fs) rest
  collect_tags tags [] rest h =
      ap (λ l. collect_all (collected ids l es fs) rest) (sym (append-nil tags))
  collect_tags tags (tag ∷ more) rest (h, hs) =
      collect_all-cons _ _ _ _ (collect_tag tags tag h)
      ∙ (collect_tags (tags ++ tag ∷ []) more rest hs
          ∙ ap (λ l. collect_all (collected ids l es fs) rest) (append_assoc tags (tag ∷ []) more))

module _ (ids tags : List Text) where
  with_groups : List Group → List Group → Collected
  with_groups gs hs = record { rule_ids = ids; tags = tags; rule_groups = gs; tag_groups = hs }

  collect-by_id :
      (es fs : List Entry) (s t : Text)
      → All HasTargets es
      → IsFilled (s, t)
      → collect (collected ids tags es fs) (by_id (s, t))
        ≡ some (collected ids tags (add_pair es (s, t)) fs)
  unfolding collect with_groups
  collect-by_id es fs [] t h k = absurd k.0
  collect-by_id es fs (c ∷ s) [] h k = absurd k.1
  collect-by_id es fs (c ∷ s) (d ∷ t) h k =
      ap (λ gs. some (with_groups gs (map to_group fs)))
        (append_grouped-add_pair es (c ∷ s, d ∷ t) h)

  collect-by_tag :
      (es fs : List Entry) (s t : Text)
      → All HasTargets fs
      → IsFilled (s, t)
      → collect (collected ids tags es fs) (by_tag (s, t))
        ≡ some (collected ids tags es (add_pair fs (s, t)))
  unfolding collect with_groups
  collect-by_tag es fs [] t h k = absurd k.0
  collect-by_tag es fs (c ∷ s) [] h k = absurd k.1
  collect-by_tag es fs (c ∷ s) (d ∷ t) h k =
      ap (λ gs. some (with_groups (map to_group es) gs))
        (append_grouped-add_pair fs (c ∷ s, d ∷ t) h)

  collect_by_ids :
      (es fs : List Entry) (ps : List (Text × Text)) (rest : List Value)
      → All HasTargets es
      → All IsFilled ps
      → collect_all (collected ids tags es fs) (map by_id ps ++ rest)
        ≡ collect_all (collected ids tags (gather es ps) fs) rest
  unfolding gather
  collect_by_ids es fs [] rest h k = refl
  collect_by_ids es fs (p ∷ ps) rest h (k, ks) =
      collect_all-cons _ _ _ _ (collect-by_id es fs p.0 p.1 h k)
      ∙ collect_by_ids (add_pair es p) fs ps rest (HasTargets-add_pair es p h) ks

  collect_by_tags :
      (es fs : List Entry) (ps : List (Text × Text))
      → All HasTargets fs
      → All IsFilled ps
      → collect_all (collected ids tags es fs) (map by_tag ps)
        ≡ some (collected ids tags es (gather fs ps))
  unfolding gather
  collect_by_tags es fs [] h k = unfold collect_all in refl
  collect_by_tags es fs (p ∷ ps) h (k, ks) =
      collect_all-cons _ _ _ _ (collect-by_tag es fs p.0 p.1 h k)
      ∙ collect_by_tags es (add_pair fs p) ps (HasTargets-add_pair fs p h) ks

-- The loop over rule ids, tags and the two kinds of pairs, in this order.
pub collect_all_lem :
    (ids tags : List Text) (ps qs : List (Text × Text))
    → All IsNonempty ids
    → All IsNonempty tags
    → All IsFilled ps
    → All IsFilled qs
    → collect_all (collected [] [] [] []) (
        map (λ id. remove_rule id) ids
        ++ (map (λ tag. remove_rules_by_tag tag) tags ++ (map by_id ps ++ map by_tag qs)))
      ≡ some (collected ids tags (gather [] ps) (gather [] qs))
collect_all_lem ids tags ps qs hi ht hp hq =
    collect_rules [] [] [] [] ids _ hi
    ∙ (collect_tags ids [] [] [] tags _ ht
        ∙ (collect_by_ids ids tags [] [] ps _ tt hp
            ∙ collect_by_tags ids tags (gather [] ps) [] qs tt hq))
