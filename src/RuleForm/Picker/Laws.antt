-- ===== src/RuleForm/Picker/Laws.antt =====
-- The entry that the search field marks, and the service that it chooses.
use karna.Common.{
  subst, ◌≡◌, refl, ap, ℕ, zero, suc, ◌-◌, ◌≤◌, ◌<◌, inl, inr, Bool, true, false, some, List, [],
  ◌∷◌, arith, if◌then◌else◌, length, take, get_elem?, get_elem?-below, keep, Bool-cases,
}
use karna.Text.{Text, is_empty, includes, trim}
use karna.RuleForm.Picker.{
  Service, Field, arrow_down, arrow_up, enter, searchable, matches, visible, clamp_active, choose,
  handle_key,
}

get_elem?-take :
    {A : Type 0}
    → (n i : ℕ) (xs : List A) (x : A) → get_elem? (take n xs) i ≡ some x
    → (i < n) × (get_elem? xs i ≡ some x)
get_elem?-take zero i [] x h = absurd cc
get_elem?-take (suc n) i [] x h = absurd cc
get_elem?-take zero i (y ∷ xs) x h = absurd cc
get_elem?-take (suc n) zero (y ∷ xs) x h = (omega arith, h)
get_elem?-take (suc n) (suc i) (y ∷ xs) x h =
    let (b, e) = get_elem?-take n i xs x h in (omega (arith, b), e)

opened_by :
    {A : Type 0} (p : A → Bool) (y : A) (xs : List A) (i : ℕ) (x : A) (b : Bool)
    → p y ≡ b
    → get_elem? (keep p (y ∷ xs)) i ≡ some x
    → get_elem? (if b then y ∷ keep p xs else keep p xs) i ≡ some x
opened_by p y xs i x b e h =
    subst (λ l. get_elem? l i ≡ some x) (ap (λ c. if c then y ∷ keep p xs else keep p xs) e) h

holds_kept :
    {A : Type 0} (p : A → Bool) (i : ℕ) (xs : List A) (x : A)
    → get_elem? (keep p xs) i ≡ some x
    → p x ≡ true
holds_kept p i [] x h = absurd cc
holds_kept p zero (y ∷ xs) x h = elim (Bool-cases (p y)) [
  | inl kept ↦ let e : some y ≡ some x = opened_by p y xs 0 x true kept h in cc
  | inr dropped ↦ holds_kept p 0 xs x (opened_by p y xs 0 x false dropped h)
]
holds_kept p (suc i) (y ∷ xs) x h = elim (Bool-cases (p y)) [
  | inl kept ↦ holds_kept p i xs x (opened_by p y xs (suc i) x true kept h)
  | inr dropped ↦ holds_kept p (suc i) xs x (opened_by p y xs (suc i) x false dropped h)
]

among_kept :
    {A : Type 0} (p : A → Bool) (i : ℕ) (xs : List A) (x : A)
    → get_elem? (keep p xs) i ≡ some x
    → (j : ℕ) × (get_elem? xs j ≡ some x)
among_kept p i [] x h = absurd cc
among_kept p zero (y ∷ xs) x h = elim (Bool-cases (p y)) [
  | inl kept ↦ (0, opened_by p y xs 0 x true kept h)
  | inr dropped ↦
      let (j, e) = among_kept p 0 xs x (opened_by p y xs 0 x false dropped h) in (suc j, e)
]
among_kept p (suc i) (y ∷ xs) x h = elim (Bool-cases (p y)) [
  | inl kept ↦
      let (j, e) = among_kept p i xs x (opened_by p y xs (suc i) x true kept h) in (suc j, e)
  | inr dropped ↦
      let (j, e) = among_kept p (suc i) xs x (opened_by p y xs (suc i) x false dropped h) in
      (suc j, e)
]

module _ (lower : Text → Text) where
  -- The mark is on a visible service, or on the first place where none is visible.
  abbrev pub IsMarked : List Service → Field → Type 0
  IsMarked services f = f.active ≤ length (visible lower f.query services) - 1

  pub clamp_active-IsMarked :
      (services : List Service) (f : Field) → IsMarked services (clamp_active lower services f)
  unfolding clamp_active
  clamp_active-IsMarked services f = ground arith

  -- An arrow key keeps the mark on a visible service, or on the first place where none is visible.
  pub handle_key-IsMarked :
      (services : List Service) (f : Field) (is_down : Bool)
      → IsMarked services f
      → IsMarked services (handle_key lower services (if is_down then arrow_down else arrow_up) f)
  unfolding handle_key
  handle_key-IsMarked services f true h = ground arith
  handle_key-IsMarked services f false h = ground arith

  matches-typed :
      (query : Text) (services : List Service)
      → is_empty (lower (trim query)) ≡ false
      → matches lower query services
        ≡ keep (λ t. includes (lower (trim query)) (lower (searchable t))) services
  unfolding matches
  matches-typed query services typed = rw typed refl

  -- Enter on an open list, with something typed and the mark on a visible service or on the first place, chooses
  -- a service as soon as one is visible: the marked one, which is among the services and one of the first
  -- eight that match. What was typed, trimmed and in lower case, then stands in the text of its name, its addresses
  -- and its routes, joined by blanks and in lower case.
  pub handle_key-chosen :
      (services : List Service) (f : Field)
      → f.is_open ≡ true
      → is_empty (lower (trim f.query)) ≡ false
      → 0 < length (visible lower f.query services)
      → IsMarked services f
      → (s : Service) × ((get_elem? (visible lower f.query services) f.active ≡ some s)
          × ((f.active < 8)
              × (((i : ℕ) × (get_elem? services i ≡ some s))
                  × ((includes (lower (trim f.query)) (lower (searchable s)) ≡ true)
                      × (handle_key lower services enter f ≡ choose lower s f)))))
  unfolding handle_key
  handle_key-chosen services f opened typed some_visible on_mark =
      let (s, marked) =
        get_elem?-below (visible lower f.query services) f.active
          (omega (arith, some_visible, on_mark)) in
      let (b, e) = get_elem?-take 8 f.active (matches lower f.query services) s marked in
      let kept =
        subst (λ l. get_elem? l f.active ≡ some s) (matches-typed f.query services typed) e in
      let p = λ (t : Service). includes (lower (trim f.query)) (lower (searchable t)) in
      (
        s,
        (
          marked,
          (
            b,
            (
              among_kept p f.active services s kept,
              (holds_kept p f.active services s kept, rw (marked, opened) refl),
            ),
          ),
        ),
      )
