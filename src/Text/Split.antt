-- ===== src/Text/Split.antt =====
-- Splitting a text at runs of separators, and joining it again.
use karna.Common.{
  ℕ, ◌≡◌, refl, ap, ◌∙◌, Bool, true, false, inl, inr, List, [], ◌∷◌, ◌++◌, Bool-cases, All,
}
use karna.Text.{Text, starts_sep, split_runs, push_first, join}

-- No code unit of the text is a separator.
abbrev pub IsFree : (ℕ → Bool) → Text → Type 0
IsFree sep s = All (λ c. sep c ≡ false) s

push_first-IsFree :
    (sep : ℕ → Bool) (c : ℕ) (ps : List Text)
    → sep c ≡ false
    → All (IsFree sep) ps
    → All (IsFree sep) (push_first c ps)
push_first-IsFree sep c [] h k = ((h, tt), tt)
push_first-IsFree sep c (p ∷ ps) h (k, ks) = ((h, k), ks)

-- No piece holds a separator.
pub split_runs-IsFree : (sep : ℕ → Bool) (s : Text) → All (IsFree sep) (split_runs sep s)
unfolding split_runs
split_runs-IsFree sep [] = (tt, tt)
split_runs-IsFree sep (c ∷ s) = elim (Bool-cases (sep c)) [
  | inl here ↦ rw here (elim (Bool-cases (starts_sep sep s)) [
    | inl run ↦ rw run (split_runs-IsFree sep s)
    | inr last ↦ rw last (tt, split_runs-IsFree sep s)
  ])
  | inr other ↦
      rw other (push_first-IsFree sep c (split_runs sep s) other (split_runs-IsFree sep s))
]

pub split_runs_free : (sep : ℕ → Bool) (s : Text) → IsFree sep s → split_runs sep s ≡ s ∷ []
unfolding split_runs
split_runs_free sep [] h = refl
split_runs_free sep (c ∷ s) (h, hs) = rw h (rw (split_runs_free sep s hs))

pub split_runs-append :
    (sep : ℕ → Bool) (s : Text) (d : ℕ) (t : Text)
    → IsFree sep s
    → sep d ≡ true
    → starts_sep sep t ≡ false
    → split_runs sep (s ++ d ∷ t) ≡ s ∷ split_runs sep t
unfolding split_runs
split_runs-append sep [] d t h hd ht = rw hd (rw ht)
split_runs-append sep (c ∷ s) d t (h, hs) hd ht = rw h (rw (split_runs-append sep s d t hs hd ht))

abbrev pub IsNonempty {ℓ} : {A : Type ℓ} → List A → Type 0
IsNonempty [] = ⊥
IsNonempty (c ∷ s) = Unit

-- A piece that can be joined by a separator and found again.
abbrev pub IsPiece : (ℕ → Bool) → Text → Type 0
IsPiece sep s = IsNonempty s × IsFree sep s

starts_sep-join :
    (sep : ℕ → Bool) (d : Text) (x : Text) (xs : List Text)
    → IsPiece sep x
    → starts_sep sep (join d (x ∷ xs)) ≡ false
unfolding starts_sep join
starts_sep-join sep d [] xs h = absurd h.0
starts_sep-join sep d (c ∷ x) [] h = h.1.0
starts_sep-join sep d (c ∷ x) (y ∷ ys) h = h.1.0

-- Joining pieces by one separator and splitting gives the pieces back.
pub split_runs-join :
    (sep : ℕ → Bool) (d : ℕ) (x : Text) (xs : List Text)
    → sep d ≡ true
    → All (IsPiece sep) (x ∷ xs)
    → split_runs sep (join (d ∷ []) (x ∷ xs)) ≡ x ∷ xs
unfolding join
split_runs-join sep d x [] hd h = split_runs_free sep x h.0.1
split_runs-join sep d x (y ∷ ys) hd (h, hs) =
    split_runs-append sep x d (join (d ∷ []) (y ∷ ys)) h.1 hd
      (starts_sep-join sep (d ∷ []) y ys hs.0)
    ∙ ap (λ t. x ∷ t) (split_runs-join sep d y ys hd hs)
