-- ===== src/Table/Sorted.antt =====
-- A sorted table has every row once, and no row before one that the order puts after it.
use karna.Common.{
  ◌⊎◌, ◌≡◌, refl, sym, ap, subst, inl, inr, Bool, true, false, List, [], ◌∷◌, Bool-cases, keep, ap₂,
  if◌then◌else◌,
}
use karna.Text.{Text}
use karna.Value.{to_text}
use karna.Table.{
  Order, less, same, more, negated, or_then, is_more, directed, insert_by, sort_by, compared,
  is_number,
}
use mathlib.Core.List.{Perm}
use mathlib.Core.List.Perm

-- A comparison of the same two things the other way round has the opposite sign.
abbrev pub Flips : {A : Type 0} → (A → A → Order) → Type 0
Flips {A} f = (a b : A) → f b a ≡ negated (f a b)

-- No row stands right before one that the order puts before it.
abbrev pub IsSorted : {A : Type 0} → (A → A → Order) → List A → Type 0
IsSorted f [] = Unit
IsSorted f (x ∷ []) = Unit
IsSorted f (x ∷ y ∷ ys) = (is_more (f x y) ≡ false) × IsSorted f (y ∷ ys)

-- A condition on each two neighbours.
abbrev pub AreOrdered : {A : Type 0} → (A → A → Type 0) → List A → Type 0
AreOrdered r [] = Unit
AreOrdered r (x ∷ []) = Unit
AreOrdered r (x ∷ y ∷ ys) = r x y × AreOrdered r (y ∷ ys)

pub IsSorted-AreOrdered :
    {A : Type 0} (f : A → A → Order) (r : A → A → Type 0) (xs : List A)
    → ((x y : A) → is_more (f x y) ≡ false → r x y)
    → IsSorted f xs
    → AreOrdered r xs
IsSorted-AreOrdered f r [] g h = tt
IsSorted-AreOrdered f r (x ∷ []) g h = tt
IsSorted-AreOrdered f r (x ∷ y ∷ ys) g (h, hs) = (g x y h, IsSorted-AreOrdered f r (y ∷ ys) g hs)

-- How two neighbours may compare: as the direction asks, or the same, and then by a second comparison.
abbrev pub forward : Bool → Order
forward true = less
forward false = more

abbrev pub Before : Bool → Order → Order → Type 0
Before ascending first second =
    (first ≡ forward ascending) ⊎ ((first ≡ same) × (is_more second ≡ false))

pub or_then-Before :
    (ascending : Bool) (first second : Order)
    → is_more (or_then (directed ascending first) second) ≡ false
    → Before ascending first second
or_then-Before true less second h = inl refl
or_then-Before true same second h = inr (refl, h)
or_then-Before true more second h = absurd cc
or_then-Before false less second h = absurd cc
or_then-Before false same second h = inr (refl, h)
or_then-Before false more second h = inl refl

pub directed-Before :
    (ascending : Bool) (first : Order)
    → is_more (directed ascending first) ≡ false
    → Before ascending first same
directed-Before true less h = inl refl
directed-Before true same h = inr (refl, refl)
directed-Before true more h = absurd cc
directed-Before false less h = absurd cc
directed-Before false same h = inr (refl, refl)
directed-Before false more h = inl refl

more-flipped : (o : Order) → is_more o ≡ true → is_more (negated o) ≡ false
more-flipped less h = absurd cc
more-flipped same h = absurd cc
more-flipped more h = refl

module _ {A : Type 0} (f : A → A → Order) where
  insert_by-Perm : (x : A) (ys : List A) → Perm (insert_by f x ys) (x ∷ ys)
  unfolding insert_by
  insert_by-Perm x [] = Perm.rfl
  insert_by-Perm x (y ∷ ys) = elim (Bool-cases (is_more (f x y))) [
    | inl after ↦ rw after (Perm.trans (Perm.cons y (insert_by-Perm x ys)) (Perm.swap x y ys))
    | inr before ↦ rw before Perm.rfl
  ]

  pub sort_by-Perm : (xs : List A) → Perm (sort_by f xs) xs
  unfolding sort_by
  sort_by-Perm [] = Perm.rfl
  sort_by-Perm (x ∷ xs) =
      Perm.trans (insert_by-Perm x (sort_by f xs)) (Perm.cons x (sort_by-Perm xs))

  module _ (flips : Flips f) where
    flipped : (x y : A) → is_more (f x y) ≡ true → is_more (f y x) ≡ false
    flipped x y h = subst (λ o. is_more o ≡ false) (sym (flips x y)) (more-flipped (f x y) h)

    -- A row stays in order before what is inserted behind it.
    behind :
        (x y z : A) (ys : List A) (after : Bool)
        → is_more (f x y) ≡ true
        → is_more (f y z) ≡ false
        → IsSorted f (if after then z ∷ insert_by f x ys else x ∷ z ∷ ys)
        → IsSorted f (y ∷ (if after then z ∷ insert_by f x ys else x ∷ z ∷ ys))
    behind x y z ys true h s r = (s, r)
    behind x y z ys false h s r = (flipped x y h, r)

    insert_by-behind :
        (x y : A) (ys : List A)
        → is_more (f x y) ≡ true
        → IsSorted f (y ∷ ys)
        → IsSorted f (insert_by f x ys)
        → IsSorted f (y ∷ insert_by f x ys)
    unfolding insert_by
    insert_by-behind x y [] h s r = (flipped x y h, tt)
    insert_by-behind x y (z ∷ ys) h (s, t) r = behind x y z ys (is_more (f x z)) h s r

    later_rows : (y : A) (ys : List A) → IsSorted f (y ∷ ys) → IsSorted f ys
    later_rows y [] s = tt
    later_rows y (z ∷ ys) s = s.1

    insert_by-IsSorted : (x : A) (ys : List A) → IsSorted f ys → IsSorted f (insert_by f x ys)
    unfolding insert_by
    insert_by-IsSorted x [] s = tt
    insert_by-IsSorted x (y ∷ ys) s = elim (Bool-cases (is_more (f x y))) [
      | inl after ↦
          rw after (insert_by-behind x y ys after s (insert_by-IsSorted x ys (later_rows y ys s)))
      | inr before ↦ rw before (before, s)
    ]

    pub sort_by-IsSorted : (xs : List A) → IsSorted f (sort_by f xs)
    unfolding sort_by
    sort_by-IsSorted [] = tt
    sort_by-IsSorted (x ∷ xs) = insert_by-IsSorted x (sort_by f xs) (sort_by-IsSorted xs)

or_then-negated : (o p : Order) → or_then (negated o) (negated p) ≡ negated (or_then o p)
or_then-negated less p = refl
or_then-negated same p = refl
or_then-negated more p = refl

-- The comparisons of a table flip if those of JavaScript do.
pub compared-Flips :
    (difference locale : Text → Text → Order)
    → Flips difference
    → Flips locale
    → Flips (compared difference locale)
unfolding compared
compared-Flips difference locale d l v w = elim (Bool-cases (is_number v)) [
  | inl vn ↦ elim (Bool-cases (is_number w)) [
    | inl wn ↦ rw (vn, wn) (d (to_text v) (to_text w))
    | inr wt ↦ rw (vn, wt) (l (to_text v) (to_text w))
  ]
  | inr vt ↦ elim (Bool-cases (is_number w)) [
    | inl wn ↦ rw (vt, wn) (l (to_text v) (to_text w))
    | inr wt ↦ rw (vt, wt) (l (to_text v) (to_text w))
  ]
]

pub directed-Flips :
    {A : Type 0} (ascending : Bool) (f : A → A → Order)
    → Flips f
    → Flips (λ a b. directed ascending (f a b))
directed-Flips true f h a b = h a b
directed-Flips false f h a b = ap negated (h a b)

pub or_then-Flips :
    {A : Type 0} (f g : A → A → Order) → Flips f → Flips g → Flips (λ a b. or_then (f a b) (g a b))
or_then-Flips f g hf hg a b = rw (hf a b, hg a b) (or_then-negated (f a b) (g a b))

pub keep_same :
    {A : Type 0} (p q : A → Bool) (xs : List A) → ((x : A) → p x ≡ q x) → keep p xs ≡ keep q xs
keep_same p q [] h = refl
keep_same p q (x ∷ xs) h =
    ap₂ (λ (b : Bool) ys. if b then x ∷ ys else ys) (h x) (keep_same p q xs h)
