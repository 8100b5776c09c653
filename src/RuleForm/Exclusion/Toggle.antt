-- ===== src/RuleForm/Exclusion/Toggle.antt =====
-- What a toggled selection holds.
use karna.Common.{
  ◌≡◌, refl, ap, ◌∙◌, inl, inr, true, not, ◌&&◌, ◌||◌, List, [], ◌∷◌, ◌++◌, arith, keep, Bool-cases,
  if◌then◌else◌,
}
use karna.Text.{Text, text_eq, contains}
use karna.Text.Equality.{text_eq_iff}
use karna.Text.Distinct.{contains-append}
use karna.RuleForm.Exclusion.{toggle}

contains-without :
    (x item : Text) (xs : List Text)
    → contains x (keep (λ value. not (text_eq value item)) xs)
      ≡ (contains x xs && not (text_eq item x))
unfolding contains
contains-without x item [] = refl
contains-without x item (y ∷ ys) =
    ground
      (arith, contains-without x item ys, text_eq_iff y item, text_eq_iff item x, text_eq_iff y x)

same_contained :
    (x item : Text) (xs : List Text) → text_eq item x ≡ true → contains item xs ≡ contains x xs
same_contained x item xs h = ap (λ t. contains t xs) ((text_eq_iff item x).0 h)

contains-with :
    (x item : Text) (xs : List Text)
    → contains x (xs ++ (item ∷ [])) ≡ (contains x xs || text_eq item x)
contains-with x item xs = contains-append x xs (item ∷ []) ∙ (unfold contains in ground arith)

-- After a toggle the item is selected exactly if it was not, and every other one exactly if it was.
pub contains-toggle :
    (x item : Text) (current : List Text)
    → contains x (toggle current item)
      ≡ (if text_eq item x then not (contains x current) else contains x current)
unfolding toggle
contains-toggle x item current = elim (Bool-cases (contains item current)) [
  | inl chosen ↦
      rw (chosen, contains-without x item current)
        (ground (arith, chosen, same_contained x item current))
  | inr left ↦
      rw (left, contains-with x item current) (ground (arith, left, same_contained x item current))
]
