-- ===== src/Text/Sort.antt =====
-- Sorting texts by code units: the result is sorted, keeps the items, and is determined by them.
use karna.Common.{
  ◌≡◌, refl, sym, ap, ap₂, ◌∙◌, subst, true, false, ◌||◌, inl, inr, List, [], ◌∷◌, arith,
  Bool-cases, All, All-mono, All-Among, Among, here, there, SameItems,
}
use mathlib.Core.Bool.{false≢true}
use karna.Text.{Text, text_eq, text_leb, insert_sorted, sort, contains}
use karna.Text.Equality.{text_eq_iff}
use karna.Text.Distinct.{AllDistinct, contains-Among, Among-contains}

text_leb_total : (s t : Text) → text_leb s t ≡ false → text_leb t s ≡ true
unfolding text_leb
text_leb_total [] t h = cc
text_leb_total (c ∷ s) [] h = refl
text_leb_total (c ∷ s) (d ∷ t) h = ground (arith, text_leb_total s t)

text_leb_antisym : (s t : Text) → text_leb s t ≡ true → text_leb t s ≡ true → s ≡ t
unfolding text_leb
text_leb_antisym [] [] h k = refl
text_leb_antisym [] (d ∷ t) h k = cc
text_leb_antisym (c ∷ s) [] h k = cc
text_leb_antisym (c ∷ s) (d ∷ t) h k = ground (arith, text_leb_antisym s t)

text_leb_trans : (s t u : Text) → text_leb s t ≡ true → text_leb t u ≡ true → text_leb s u ≡ true
unfolding text_leb
text_leb_trans [] t u h k = refl
text_leb_trans (c ∷ s) [] u h k = cc
text_leb_trans (c ∷ s) (d ∷ t) [] h k = cc
text_leb_trans (c ∷ s) (d ∷ t) (e ∷ u) h k = ground (arith, text_leb_trans s t u)

abbrev pub IsSorted : List Text → Type 0
IsSorted [] = Unit
IsSorted (x ∷ xs) = All (λ y. text_leb x y ≡ true) xs × IsSorted xs

insert_sorted-All :
    (P : Text → Type 0) (a : Text) (xs : List Text) → P a → All P xs → All P (insert_sorted a xs)
unfolding insert_sorted
insert_sorted-All P a [] h k = (h, tt)
insert_sorted-All P a (x ∷ xs) h (k, ks) = elim (Bool-cases (text_leb a x)) [
  | inl first ↦ rw first (h, (k, ks))
  | inr later ↦ rw later (k, insert_sorted-All P a xs h ks)
]

insert_sorted-IsSorted : (a : Text) (xs : List Text) → IsSorted xs → IsSorted (insert_sorted a xs)
unfolding insert_sorted
insert_sorted-IsSorted a [] h = (tt, tt)
insert_sorted-IsSorted a (x ∷ xs) (h, hs) = elim (Bool-cases (text_leb a x)) [
  | inl first ↦ rw first (
    (
      first,
      All-mono (λ y. text_leb x y ≡ true) (λ y. text_leb a y ≡ true) xs
          (λ y k. text_leb_trans a x y first k) h,
    ),
    (h, hs),
  )
  | inr later ↦ rw later (
    insert_sorted-All (λ y. text_leb x y ≡ true) a xs (text_leb_total a x later) h,
    insert_sorted-IsSorted a xs hs,
  )
]

pub sort-IsSorted : (xs : List Text) → IsSorted (sort xs)
unfolding sort
sort-IsSorted [] = tt
sort-IsSorted (x ∷ xs) = insert_sorted-IsSorted x (sort xs) (sort-IsSorted xs)

contains-insert_sorted :
    (b a : Text) (xs : List Text) → contains b (insert_sorted a xs) ≡ (text_eq a b || contains b xs)
unfolding insert_sorted contains
contains-insert_sorted b a [] = refl
contains-insert_sorted b a (x ∷ xs) = elim (Bool-cases (text_leb a x)) [
  | inl first ↦ rw first
  | inr later ↦ rw later (ground (arith, contains-insert_sorted b a xs))
]

pub contains-sort : (b : Text) (xs : List Text) → contains b (sort xs) ≡ contains b xs
unfolding sort contains
contains-sort b [] = refl
contains-sort b (x ∷ xs) =
    contains-insert_sorted b x (sort xs) ∙ ap (λ r. text_eq x b || r) (contains-sort b xs)

insert_sorted-AllDistinct :
    (a : Text) (xs : List Text)
    → contains a xs ≡ false
    → AllDistinct xs
    → AllDistinct (insert_sorted a xs)
unfolding insert_sorted
insert_sorted-AllDistinct a [] h k = (unfold contains in refl, tt)
insert_sorted-AllDistinct a (x ∷ xs) h (k, ks) = elim (Bool-cases (text_leb a x)) [
  | inl first ↦ rw first (h, (k, ks))
  | inr later ↦ rw later (
    unfold contains in
        ground (arith, contains-insert_sorted x a xs, text_eq_iff x a, text_eq_iff a x),
    insert_sorted-AllDistinct a xs (unfold contains in ground arith) ks,
  )
]

pub sort-AllDistinct : (xs : List Text) → AllDistinct xs → AllDistinct (sort xs)
unfolding sort
sort-AllDistinct [] h = tt
sort-AllDistinct (x ∷ xs) (h, hs) =
    insert_sorted-AllDistinct x (sort xs) (contains-sort x xs ∙ h) (sort-AllDistinct xs hs)

-- The head of a sorted list is below each of its items.
head_le : (a x : Text) (xs : List Text) → IsSorted (x ∷ xs) → Among a (x ∷ xs) → text_leb x a ≡ true
head_le a x xs h (here e) = subst (λ t. text_leb x t ≡ true) e (text_leb_refl x)
  where
    text_leb_refl : (s : Text) → text_leb s s ≡ true
    text_leb_refl s = elim (Bool-cases (text_leb s s)) [
      | inl yes_le ↦ yes_le
      | inr no_le ↦ text_leb_total s s no_le
    ]
head_le a x xs h (there m) = All-Among (λ y. text_leb x y ≡ true) a xs h.0 m

-- An item of the tail that the other list has stands in the other tail too.
tail_item :
    (a x y : Text) (xs ys : List Text)
    → x ≡ y
    → contains x xs ≡ false
    → (Among a (x ∷ xs) → Among a (y ∷ ys))
    → Among a xs
    → Among a ys
tail_item a x y xs ys same fresh_x to m = elim (to (there m)) [
  | here e ↦
      absurd (
        false≢true (sym fresh_x ∙ contains-Among x xs (subst (λ t. Among t xs) (sym (same ∙ e)) m)))
  | there k ↦ k
]

nothing_in_nil : (y : Text) (ys : List Text) → SameItems [] (y ∷ ys) → ⊥
nothing_in_nil y ys h = elim ((h y).1 (here refl)) [ ]

-- Sorted lists without repetition are equal if they have the same items.
pub sorted_unique :
    (xs ys : List Text)
    → IsSorted xs
    → IsSorted ys
    → AllDistinct xs
    → AllDistinct ys
    → SameItems xs ys
    → xs ≡ ys
sorted_unique [] [] hx hy dx dy h = refl
sorted_unique [] (y ∷ ys) hx hy dx dy h = absurd (nothing_in_nil y ys h)
sorted_unique (x ∷ xs) [] hx hy dx dy h = absurd (nothing_in_nil x xs (λ a. ((h a).1, (h a).0)))
sorted_unique (x ∷ xs) (y ∷ ys) hx hy dx dy h =
    let same =
      text_leb_antisym x y (head_le y x xs hx ((h y).1 (here refl)))
        (head_le x y ys hy ((h x).0 (here refl))) in
    ap₂ (λ a b. a ∷ b) same
      (sorted_unique xs ys hx.1 hy.1 dx.1 dy.1 (λ a.
        (tail_item a x y xs ys same dx.0 (h a).0, tail_item a y x ys xs (sym same) dy.0 (h a).1)))

pub sort-SameItems : (xs : List Text) → SameItems (sort xs) xs
sort-SameItems xs a = (
  λ m. Among-contains a xs (sym (contains-sort a xs) ∙ contains-Among a (sort xs) m),
  λ m. Among-contains a (sort xs) (contains-sort a xs ∙ contains-Among a xs m),
)
