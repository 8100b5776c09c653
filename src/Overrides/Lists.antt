-- ===== src/Overrides/Lists.antt =====
-- A list, or headers, that the form prints and reads again.
use karna.Common.{
  ℕ, ◌≡◌, refl, ap, ap₂, ◌∙◌, inl, inr, true, false, not, List, [], ◌∷◌, ◌++◌, map, keep, All,
  Bool-cases, ◌==◌,
}
use karna.Text.{
  Text, codes, is_empty, is_space, strip, strip_start, trim, split_on, join, push_first,
}
use karna.Text.Split.{IsFree}
use karna.Text.Trim.{strip-All, strip_idem}
use karna.Overrides.{split_list, join_list}

pub split_on_free : (d : ℕ) (s : Text) → IsFree (λ c. c == d) s → split_on d s ≡ s ∷ []
unfolding split_on
split_on_free d [] h = refl
split_on_free d (c ∷ s) (h, hs) = rw h (ap (push_first c) (split_on_free d s hs))

pub split_on-cons :
    (d : ℕ) (s t : Text)
    → IsFree (λ c. c == d) s
    → (d == d) ≡ true
    → split_on d (s ++ (d ∷ t)) ≡ s ∷ split_on d t
unfolding split_on
split_on-cons d [] t h e = rw e refl
split_on-cons d (c ∷ s) t (h, hs) e = rw h (ap (push_first c) (split_on-cons d s t hs e))

-- A text that one item of a list can be: trimmed, not empty, without a comma.
pub record IsItem (s : Text) : Type 0 where
  pub free : IsFree (λ c. c == 44) s
  pub trimmed : trim s ≡ s
  pub nonempty : is_empty s ≡ false

strip-blank : (s : Text) → trim (32 ∷ s) ≡ trim s
unfolding strip strip_start is_space
strip-blank s = refl

pieces : List Text → List Text
pieces [] = []
pieces (x ∷ xs) = (32 ∷ x) ∷ pieces xs

split_blank : (s : Text) → split_on 44 (32 ∷ s) ≡ push_first 32 (split_on 44 s)
unfolding split_on
split_blank s = refl

split_on-join :
    (x : Text) (xs : List Text)
    → All IsItem (x ∷ xs)
    → split_on 44 (join_list (x ∷ xs)) ≡ x ∷ pieces xs
unfolding join_list pieces
split_on-join x [] (h, hs) = split_on_free 44 x h.free
split_on-join x (y ∷ xs) (h, hs) =
    split_on-cons 44 x (32 ∷ join (codes ", ") (y ∷ xs)) h.free refl
    ∙ ap (λ ps. x ∷ ps)
        (split_blank (join (codes ", ") (y ∷ xs)) ∙ ap (push_first 32) (split_on-join y xs hs))

items_read : (xs : List Text) → All IsItem xs → keep (λ x. not (is_empty x)) (map trim xs) ≡ xs
items_read [] h = refl
items_read (x ∷ xs) (h, hs) = rw (h.trimmed, h.nonempty) (ap (λ l. x ∷ l) (items_read xs hs))

pieces-trim : (xs : List Text) → map trim (pieces xs) ≡ map trim xs
unfolding pieces
pieces-trim [] = refl
pieces-trim (x ∷ xs) = ap₂ (λ y ys. y ∷ ys) (strip-blank x) (pieces-trim xs)

-- A list that the form prints is read again as it was.
pub split_list-join_list : (xs : List Text) → All IsItem xs → split_list (join_list xs) ≡ xs
unfolding split_list
split_list-join_list [] h = unfold join_list in refl
split_list-join_list (x ∷ xs) h =
    ap (λ ps. keep (λ y. not (is_empty y)) (map trim ps)) (split_on-join x xs h)
    ∙ ap (λ ys. keep (λ y. not (is_empty y)) (trim x ∷ ys)) (pieces-trim xs)
    ∙ items_read (x ∷ xs) h

-- What is read from a list has only such items.
piece_read : (s : Text) → IsFree (λ c. c == 44) s → is_empty (trim s) ≡ false → IsItem (trim s)
piece_read s h e = record {
  free = strip-All is_space (λ c. (c == 44) ≡ false) s h;
  trimmed = strip_idem is_space s;
  nonempty = e;
}

pieces_read :
    (ps : List Text)
    → All (IsFree (λ c. c == 44)) ps
    → All IsItem (keep (λ x. not (is_empty x)) (map trim ps))
pieces_read [] h = tt
pieces_read (p ∷ ps) (h, hs) = elim (Bool-cases (is_empty (trim p))) [
  | inl blank ↦ rw blank (pieces_read ps hs)
  | inr full ↦ rw full (piece_read p h full, pieces_read ps hs)
]

push_first-IsFree_on :
    (d c : ℕ) (ps : List Text)
    → (c == d) ≡ false
    → All (IsFree (λ e. e == d)) ps
    → All (IsFree (λ e. e == d)) (push_first c ps)
push_first-IsFree_on d c [] h k = ((h, tt), tt)
push_first-IsFree_on d c (p ∷ ps) h (k, ks) = ((h, k), ks)

split_on-IsFree : (d : ℕ) (s : Text) → All (IsFree (λ c. c == d)) (split_on d s)
unfolding split_on
split_on-IsFree d [] = (tt, tt)
split_on-IsFree d (c ∷ s) = elim (Bool-cases (c == d)) [
  | inl sep ↦ rw sep (tt, split_on-IsFree d s)
  | inr other ↦ rw other (push_first-IsFree_on d c (split_on d s) other (split_on-IsFree d s))
]

-- What the form reads from any text of the user is a list of trimmed items that are not empty and hold no
-- comma, and printing and reading it again changes nothing.
pub split_list-join-split :
    (s : Text) → All IsItem (split_list s) × (split_list (join_list (split_list s)) ≡ split_list s)
split_list-join-split s =
    let items : All IsItem (split_list s) =
      unfold split_list in pieces_read (split_on 44 s) (split_on-IsFree 44 s) in
    (items, split_list-join_list (split_list s) items)
