-- ===== src/Common/Membership.antt =====
-- `Among a xs`: the item stands in the list. How it goes through `++`, `map` and `flat_map`.
use mathlib.Core.Path.{◌≡◌, refl, sym, ap, subst}
use mathlib.Core.Logic.{◌⊎◌, inl, inr, ◌↔◌}
use mathlib.Core.List.{List, [], ◌∷◌, ◌++◌, map, append_assoc}
use karna.Common.Members.{All}

pub data Among {ℓ} {A : Type ℓ} (a : A) : List A → Type ℓ where
  here : {x : A} {xs : List A} → x ≡ a → Among a (x ∷ xs)
  there : {x : A} {xs : List A} → Among a xs → Among a (x ∷ xs)

module _ {ℓ} {A : Type ℓ} where
  pub Among-append_left : (a : A) (xs ys : List A) → Among a xs → Among a (xs ++ ys)
  Among-append_left a [] ys h = elim h [ ]
  Among-append_left a (x ∷ xs) ys (here e) = here e
  Among-append_left a (x ∷ xs) ys (there h) = there (Among-append_left a xs ys h)

  pub Among-append_right : (a : A) (xs ys : List A) → Among a ys → Among a (xs ++ ys)
  Among-append_right a [] ys h = h
  Among-append_right a (x ∷ xs) ys h = there (Among-append_right a xs ys h)

  pub Among-append_cases : (a : A) (xs ys : List A) → Among a (xs ++ ys) → Among a xs ⊎ Among a ys
  Among-append_cases a [] ys h = inr h
  Among-append_cases a (x ∷ xs) ys (here e) = inl (here e)
  Among-append_cases a (x ∷ xs) ys (there h) = elim (Among-append_cases a xs ys h) [
    | inl k ↦ inl (there k)
    | inr k ↦ inr k
  ]

  pub All-Among {κ} : (P : A → Type κ) (a : A) (xs : List A) → All P xs → Among a xs → P a
  All-Among P a [] h k = elim k [ ]
  All-Among P a (x ∷ xs) h (here e) = subst P e h.0
  All-Among P a (x ∷ xs) h (there k) = All-Among P a xs h.1 k

module _ {ℓ κ} {A : Type ℓ} {B : Type κ} (f : A → B) where
  pub Among-map : (a : A) (xs : List A) → Among a xs → Among (f a) (map f xs)
  Among-map a [] h = elim h [ ]
  Among-map a (x ∷ xs) (here e) = here (ap f e)
  Among-map a (x ∷ xs) (there h) = there (Among-map a xs h)

  pub Among-map_inv : (b : B) (xs : List A) → Among b (map f xs) → (a : A) × Among a xs × (f a ≡ b)
  Among-map_inv b [] h = elim h [ ]
  Among-map_inv b (x ∷ xs) (here e) = (x, here refl, e)
  Among-map_inv b (x ∷ xs) (there h) = let (a, k, e) = Among-map_inv b xs h in (a, there k, e)

-- Two lists with the same items.
abbrev pub SameItems {ℓ} : {A : Type ℓ} → List A → List A → Type ℓ
SameItems {A} xs ys = (a : A) → Among a xs ↔ Among a ys

module _ {ℓ κ} {A : Type ℓ} {B : Type κ} (f : A → B) where
  pub SameItems-map : (xs ys : List A) → SameItems xs ys → SameItems (map f xs) (map f ys)
  SameItems-map xs ys h b = (go xs ys (λ a. (h a).0), go ys xs (λ a. (h a).1))
    where
      go :
          (us vs : List A)
          → ((a : A) → Among a us → Among a vs)
          → Among b (map f us)
          → Among b (map f vs)
      go us vs k m =
          let (a, i, e) = Among-map_inv f b us m in
          subst (λ c. Among c (map f vs)) e (Among-map f a vs (k a i))

module _ {ℓ} {A : Type ℓ} where
  pub SameItems-append :
      (xs xs' ys ys' : List A)
      → SameItems xs xs'
      → SameItems ys ys'
      → SameItems (xs ++ ys) (xs' ++ ys')
  SameItems-append xs xs' ys ys' h k a =
      (go xs xs' ys ys' (h a).0 (k a).0, go xs' xs ys' ys (h a).1 (k a).1)
    where
      go :
          (us us' vs vs' : List A)
          → (Among a us → Among a us')
          → (Among a vs → Among a vs')
          → Among a (us ++ vs)
          → Among a (us' ++ vs')
      go us us' vs vs' f g m = elim (Among-append_cases a us vs m) [
        | inl i ↦ Among-append_left a us' vs' (f i)
        | inr j ↦ Among-append_right a us' vs' (g j)
      ]

  pub SameItems-refl : (xs : List A) → SameItems xs xs
  SameItems-refl xs a = (λ h. h, λ h. h)

  pub SameItems-of_eq : {xs ys : List A} → xs ≡ ys → SameItems xs ys
  SameItems-of_eq {xs} e = subst (λ zs. SameItems xs zs) e (SameItems-refl xs)

  pub SameItems-trans : (xs ys zs : List A) → SameItems xs ys → SameItems ys zs → SameItems xs zs
  SameItems-trans xs ys zs h k a = (λ m. (k a).0 ((h a).0 m), λ m. (h a).1 ((k a).1 m))

  SameItems-comm : (xs ys : List A) → SameItems (xs ++ ys) (ys ++ xs)
  SameItems-comm xs ys a = (go xs ys, go ys xs)
    where
      go : (us vs : List A) → Among a (us ++ vs) → Among a (vs ++ us)
      go us vs m = elim (Among-append_cases a us vs m) [
        | inl i ↦ Among-append_right a vs us i
        | inr j ↦ Among-append_left a vs us j
      ]

  -- The last two of three parts change places.
  pub SameItems-swap : (xs ys zs : List A) → SameItems ((xs ++ ys) ++ zs) ((xs ++ zs) ++ ys)
  SameItems-swap xs ys zs =
      SameItems-trans _ (xs ++ (ys ++ zs)) _ (SameItems-of_eq (append_assoc xs ys zs)) (
        SameItems-trans _ (xs ++ (zs ++ ys)) _
          (SameItems-append xs xs (ys ++ zs) (zs ++ ys) (SameItems-refl xs) (SameItems-comm ys zs))
          (SameItems-of_eq (sym (append_assoc xs zs ys))))
