-- ===== src/Common/Members.antt =====
-- Predicates on lists by recursion: `All P xs` holds of every item.
use Prim.Native.Nat.{ℕ, zero, suc}
use mathlib.Core.Bool.{Bool, true}
use mathlib.Core.Path.{◌≡◌, refl}
use mathlib.Core.List.{List, [], ◌∷◌, ◌++◌, map}
use karna.Common.Tests.{and-true}
use karna.Common.Lists.{take, every, flat_map}

abbrev pub All {ℓ κ} : {A : Type ℓ} → (A → Type κ) → List A → Type κ
All P [] = Unit
All P (x ∷ xs) = P x × All P xs

module _ {ℓ κ} {A : Type ℓ} (P : A → Type κ) where
  pub All-append : (xs ys : List A) → All P xs → All P ys → All P (xs ++ ys)
  All-append [] ys h k = k
  All-append (x ∷ xs) ys h k = (h.0, All-append xs ys h.1 k)

  pub All-mono {μ} : (Q : A → Type μ) (xs : List A) → ((a : A) → P a → Q a) → All P xs → All Q xs
  All-mono Q [] f h = tt
  All-mono Q (x ∷ xs) f h = (f x h.0, All-mono Q xs f h.1)

  pub All-map {μ} : {B : Type μ} (f : B → A) (xs : List B) → ((b : B) → P (f b)) → All P (map f xs)
  All-map f [] h = tt
  All-map f (x ∷ xs) h = (h x, All-map f xs h)

pub All-map_of {ℓ κ μ ν} :
    {A : Type ℓ} {B : Type κ} (P : A → Type μ) (Q : B → Type ν) (f : A → B) (xs : List A)
    → ((a : A) → P a → Q (f a))
    → All P xs
    → All Q (map f xs)
All-map_of P Q f [] g h = tt
All-map_of P Q f (x ∷ xs) g (h, hs) = (g x h, All-map_of P Q f xs g hs)

pub map-id_of {ℓ} : {A : Type ℓ} (f : A → A) (xs : List A) → All (λ a. f a ≡ a) xs → map f xs ≡ xs
map-id_of f [] h = refl
map-id_of f (x ∷ xs) (h, hs) = rw h (rw (map-id_of f xs hs))

pub All-take {ℓ κ} :
    {A : Type ℓ} (P : A → Type κ) (n : ℕ) (xs : List A) → All P xs → All P (take n xs)
All-take P zero xs h = tt
All-take P (suc n) [] h = tt
All-take P (suc n) (x ∷ xs) (h, hs) = (h, All-take P n xs hs)

-- A test that holds of every item.
pub All-of_every {ℓ} :
    {A : Type ℓ} (p : A → Bool) (xs : List A) → every p xs ≡ true → All (λ a. p a ≡ true) xs
All-of_every p [] h = tt
All-of_every p (x ∷ xs) h =
    let (here, later) = and-true (p x) (every p xs) h in (here, All-of_every p xs later)

pub All-apply {ℓ κ μ} :
    {A : Type ℓ} (P : A → Type κ) (Q : A → Type μ) (xs : List A)
    → All (λ a. P a → Q a) xs
    → All P xs
    → All Q xs
All-apply P Q [] f h = tt
All-apply P Q (x ∷ xs) (f, fs) (h, hs) = (f h, All-apply P Q xs fs hs)

pub All-flat_map {ℓ κ μ ν} :
    {A : Type ℓ} {B : Type κ} (P : A → Type μ) (Q : B → Type ν) (f : A → List B) (xs : List A)
    → ((a : A) → P a → All Q (f a))
    → All P xs
    → All Q (flat_map f xs)
All-flat_map P Q f [] g h = tt
All-flat_map P Q f (x ∷ xs) g (h, hs) =
    All-append Q (f x) (flat_map f xs) (g x h) (All-flat_map P Q f xs g hs)

pub All-trivial {ℓ} : {A : Type ℓ} (xs : List A) → All (λ a. Unit {0}) xs
All-trivial [] = tt
All-trivial (x ∷ xs) = (tt, All-trivial xs)
