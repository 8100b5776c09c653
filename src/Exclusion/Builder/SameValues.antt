-- ===== src/Exclusion/Builder/SameValues.antt =====
-- `sameValues` decides whether two lists have the same values, whatever their order and repetition.
use karna.Common.{
  ◌≡◌, refl, sym, ap, ap₂, ◌∙◌, ◌↔◌, Bool, true, ◌&&◌, List, [], ◌∷◌, arith, and-true, length, ◌==◌,
  ==_refl, SameItems, SameItems-trans, SameItems-of_eq,
}
use karna.Text.{Text, text_eq, sort, distinct}
use karna.Text.Equality.{text_eq_iff, text_eq_refl}
use karna.Text.Distinct.{distinct-AllDistinct, distinct-SameItems}
use karna.Text.Sort.{sort-IsSorted, sort-AllDistinct, sort-SameItems, sorted_unique}
use karna.Exclusion.Builder.{every_same, same_values}

every_same_sound : (a b : List Text) → (length a == length b) ≡ true → every_same a b ≡ true → a ≡ b
unfolding every_same
every_same_sound [] [] h k = refl
every_same_sound [] (y ∷ b) h k = ground arith
every_same_sound (x ∷ a) [] h k = cc
every_same_sound (x ∷ a) (y ∷ b) h k =
    let (first, rest) = and-true (text_eq x y) (every_same a b) k in
    ap₂ (λ u v. u ∷ v) ((text_eq_iff x y).0 first) (every_same_sound a b (ground arith) rest)

every_same_refl : (a : List Text) → every_same a a ≡ true
unfolding every_same
every_same_refl [] = refl
every_same_refl (x ∷ a) = rw (text_eq_refl x) (every_same_refl a)

abbrev sorted_set : List Text → List Text
sorted_set xs = sort (distinct [] xs)

sorted_set-SameItems : (xs : List Text) → SameItems (sorted_set xs) xs
sorted_set-SameItems xs =
    SameItems-trans _ (distinct [] xs) _ (sort-SameItems (distinct [] xs)) (distinct-SameItems xs)

flip {ℓ} : {A : Type ℓ} (xs ys : List A) → SameItems xs ys → SameItems ys xs
flip xs ys h a = ((h a).1, (h a).0)

sorted_set_unique : (xs ys : List Text) → SameItems xs ys → sorted_set xs ≡ sorted_set ys
sorted_set_unique xs ys h =
    sorted_unique (sorted_set xs) (sorted_set ys) (sort-IsSorted _) (sort-IsSorted _)
      (sort-AllDistinct _ (distinct-AllDistinct [] xs))
      (sort-AllDistinct _ (distinct-AllDistinct [] ys))
      (SameItems-trans _ xs _ (sorted_set-SameItems xs)
        (SameItems-trans _ ys _ h (flip _ _ (sorted_set-SameItems ys))))

abbrev same_lists : List Text → List Text → Bool
same_lists a b = length a == length b && every_same a b

same_values-eq : (l r : List Text) → same_values l r ≡ same_lists (sorted_set l) (sorted_set r)
same_values-eq l r = unfold same_values in refl

same_lists_refl : (a : List Text) → same_lists a a ≡ true
same_lists_refl a = ap₂ (λ u v. u && v) (==_refl (length a)) (every_same_refl a)

-- The test passes exactly when the two lists have the same items.
pub same_values_iff :
    (left right : List Text) → (same_values left right ≡ true) ↔ SameItems left right
same_values_iff left right = (to, from)
  where
    to : same_values left right ≡ true → SameItems left right
    to h =
        let parts =
          and-true (length (sorted_set left) == length (sorted_set right))
            (every_same (sorted_set left) (sorted_set right))
            (sym (same_values-eq left right) ∙ h) in
        let same = every_same_sound _ _ parts.0 parts.1 in
        SameItems-trans _ (sorted_set left) _ (flip _ _ (sorted_set-SameItems left)) (
          SameItems-trans _ (sorted_set right) _ (SameItems-of_eq same)
            (sorted_set-SameItems right))

    from : SameItems left right → same_values left right ≡ true
    from h =
        same_values-eq left right
        ∙ (ap (λ s. same_lists s (sorted_set right)) (sorted_set_unique left right h)
            ∙ same_lists_refl (sorted_set right))
