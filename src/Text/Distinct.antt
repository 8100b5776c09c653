-- ===== src/Text/Distinct.antt =====
-- Lists of texts without repetition: what passing through a `Set` keeps.
use karna.Common.{
  Among, here, there, SameItems, or-true, ◌∙◌, true, ◌≡◌, refl, ap, false, not, ◌&&◌, ◌||◌, List,
  [], ◌∷◌, ◌++◌, arith, inl, inr, Bool-cases, All,
}
use karna.Text.{Text, contains, distinct}
use karna.Text.Equality.{text_eq_iff, text_eq_refl}

abbrev pub AllDistinct : List Text → Type 0
AllDistinct [] = Unit
AllDistinct (x ∷ xs) = (contains x xs ≡ false) × AllDistinct xs

pub contains-append :
    (a : Text) (xs ys : List Text) → contains a (xs ++ ys) ≡ (contains a xs || contains a ys)
unfolding contains
contains-append a [] ys = refl
contains-append a (x ∷ xs) ys = ground (arith, contains-append a xs ys)

-- The set holds what the list held and what it did not hold before.
pub contains-distinct :
    (a : Text) (seen xs : List Text)
    → contains a (distinct seen xs) ≡ (contains a xs && not (contains a seen))
unfolding contains distinct
contains-distinct a seen [] = refl
contains-distinct a seen (x ∷ xs) = elim (Bool-cases (contains x seen)) [
  | inl old ↦ rw old (ground (arith, contains-distinct a seen xs, text_eq_iff x a))
  | inr new ↦ rw new (ground (arith, contains-distinct a (x ∷ seen) xs, text_eq_iff x a))
]

pub distinct-AllDistinct : (seen xs : List Text) → AllDistinct (distinct seen xs)
unfolding distinct
distinct-AllDistinct seen [] = tt
distinct-AllDistinct seen (x ∷ xs) = elim (Bool-cases (contains x seen)) [
  | inl old ↦ rw old (distinct-AllDistinct seen xs)
  | inr new ↦ rw new (
    unfold contains in ground (arith, contains-distinct x (x ∷ seen) xs, text_eq_refl x),
    distinct-AllDistinct (x ∷ seen) xs,
  )
]

-- What is not among `seen`, item by item.
abbrev pub IsApart : List Text → List Text → Type 0
IsApart seen xs = All (λ x. contains x seen ≡ false) xs

IsApart-cons :
    (x : Text) (seen xs : List Text)
    → contains x xs ≡ false
    → IsApart seen xs
    → IsApart (x ∷ seen) xs
unfolding contains
IsApart-cons x seen [] h k = tt
IsApart-cons x seen (y ∷ ys) h (k, ks) =
    (ground (arith, text_eq_iff x y, text_eq_iff y x), IsApart-cons x seen ys (ground arith) ks)

distinct_from_id : (seen xs : List Text) → AllDistinct xs → IsApart seen xs → distinct seen xs ≡ xs
unfolding distinct
distinct_from_id seen [] h k = refl
distinct_from_id seen (x ∷ xs) (h, hs) (k, ks) =
    rw k (ap (λ t. x ∷ t) (distinct_from_id (x ∷ seen) xs hs (IsApart-cons x seen xs h ks)))

IsApart-nil : (xs : List Text) → IsApart [] xs
unfolding contains
IsApart-nil [] = tt
IsApart-nil (x ∷ xs) = (refl, IsApart-nil xs)

-- A list with no repetition passes through a set unchanged.
pub distinct_id : (xs : List Text) → AllDistinct xs → distinct [] xs ≡ xs
distinct_id xs h = distinct_from_id [] xs h (IsApart-nil xs)

pub distinct-All {ℓ} :
    (P : Text → Type ℓ) (seen xs : List Text) → All P xs → All P (distinct seen xs)
unfolding distinct
distinct-All P seen [] h = tt
distinct-All P seen (x ∷ xs) (h, hs) = elim (Bool-cases (contains x seen)) [
  | inl old ↦ rw old (distinct-All P seen xs hs)
  | inr new ↦ rw new (h, distinct-All P (x ∷ seen) xs hs)
]

pub contains-Among : (a : Text) (xs : List Text) → Among a xs → contains a xs ≡ true
unfolding contains
contains-Among a [] h = elim h [ ]
contains-Among a (x ∷ xs) (here e) = rw ((text_eq_iff x a).1 e)
contains-Among a (x ∷ xs) (there h) = ground (arith, contains-Among a xs h)

pub Among-contains : (a : Text) (xs : List Text) → contains a xs ≡ true → Among a xs
unfolding contains
Among-contains a [] h = cc
Among-contains a (x ∷ xs) h = elim (or-true _ _ h) [
  | inl e ↦ here ((text_eq_iff x a).0 e)
  | inr k ↦ there (Among-contains a xs k)
]

-- A set of the items of a list has the items of the list.
pub distinct-SameItems : (xs : List Text) → SameItems (distinct [] xs) xs
distinct-SameItems xs a = (
  λ m. Among-contains a xs (ground (arith, same, contains-Among a (distinct [] xs) m)),
  λ m. Among-contains a (distinct [] xs) (same ∙ contains-Among a xs m),
)
  where
    same : contains a (distinct [] xs) ≡ contains a xs
    same = contains-distinct a [] xs ∙ (unfold contains in ground arith)
