-- ===== src/Exclusion/Values/Split.antt =====
-- What `splitExclusionValues` returns: trimmed, nonempty values with no separator and no
-- repetition, which it finds again in the lines of their join.
use karna.Common.{
  ◌≡◌, refl, ap, ◌∙◌, not, List, [], ◌∷◌, map, inl, inr, Bool-cases, All, All-mono, All-map_of,
  map-id_of, keep,
}
use karna.Text.{Text, codes, is_empty, is_space, trim, split_runs, join, contains, distinct}
use karna.Text.Trim.{strip_idem, strip-All}
use karna.Text.Split.{IsFree, IsNonempty, IsPiece, split_runs-IsFree, split_runs-join}
use karna.Text.Distinct.{AllDistinct, distinct-AllDistinct, distinct-All, distinct_id}
use karna.Exclusion.Values.{is_separator, filter_unseen, split_exclusion_values}

-- A value as the form reads it: nonempty, trimmed, and without "," and line feeds.
abbrev pub IsSelector : Text → Type 0
IsSelector s = IsNonempty s × (trim s ≡ s) × IsFree is_separator s

-- The filter is a pass through a set of what is not empty.
filter_unseen-distinct :
    (seen xs : List Text) → filter_unseen seen xs ≡ distinct seen (keep (λ s. not (is_empty s)) xs)
unfolding filter_unseen distinct
filter_unseen-distinct seen [] = refl
filter_unseen-distinct seen ([] ∷ xs) = filter_unseen-distinct seen xs
filter_unseen-distinct seen ((c ∷ s) ∷ xs) = elim (Bool-cases (contains (c ∷ s) seen)) [
  | inl old ↦ rw old (filter_unseen-distinct seen xs)
  | inr new ↦ rw new (ap (λ t. (c ∷ s) ∷ t) (filter_unseen-distinct ((c ∷ s) ∷ seen) xs))
]

abbrev IsClean : Text → Type 0
IsClean s = (trim s ≡ s) × IsFree is_separator s

trim-IsClean : (s : Text) → IsFree is_separator s → IsClean (trim s)
trim-IsClean s h = (strip_idem is_space s, strip-All is_space _ s h)

keep-IsSelector :
    (xs : List Text) → All IsClean xs → All IsSelector (keep (λ s. not (is_empty s)) xs)
keep-IsSelector [] h = tt
keep-IsSelector ([] ∷ xs) (h, hs) = keep-IsSelector xs hs
keep-IsSelector ((c ∷ s) ∷ xs) (h, hs) = ((tt, h.0, h.1), keep-IsSelector xs hs)

keep_selectors : (xs : List Text) → All IsSelector xs → keep (λ s. not (is_empty s)) xs ≡ xs
keep_selectors [] h = refl
keep_selectors ([] ∷ xs) h = absurd h.0.0
keep_selectors ((c ∷ s) ∷ xs) (h, hs) = ap (λ t. (c ∷ s) ∷ t) (keep_selectors xs hs)

split-eq-distinct :
    (value : Text)
    → split_exclusion_values value
      ≡ distinct []
          (keep (λ s. not (is_empty s)) (map (λ s. trim s) (split_runs is_separator value)))
unfolding split_exclusion_values
split-eq-distinct value =
    filter_unseen-distinct [] (map (λ s. trim s) (split_runs is_separator value))

-- Every value is nonempty, trimmed and free of separators, and none stands twice.
pub split_exclusion_values-IsSelector :
    (value : Text)
    → All IsSelector (split_exclusion_values value) × AllDistinct (split_exclusion_values value)
split_exclusion_values-IsSelector value = rw (split-eq-distinct value) (
  distinct-All IsSelector [] _ (
      keep-IsSelector _ (
        All-map_of (IsFree is_separator) IsClean (λ s. trim s) _ trim-IsClean
          (split_runs-IsFree is_separator value))),
  distinct-AllDistinct [] _,
)

IsPiece-of_IsSelector : (s : Text) → IsSelector s → IsPiece is_separator s
IsPiece-of_IsSelector s h = (h.0, h.2)

abbrev kept_pieces : List Text → List Text
kept_pieces ps = keep (λ s. not (is_empty s)) (map (λ s. trim s) ps)

kept_selectors : (xs : List Text) → All IsSelector xs → kept_pieces xs ≡ xs
kept_selectors xs h =
    ap (keep (λ s. not (is_empty s)))
      (map-id_of (λ s. trim s) xs (All-mono IsSelector (λ s. trim s ≡ s) xs (λ s k. k.1) h))
    ∙ keep_selectors xs h

-- The lines of a join are the values again, without what stands twice.
pub split-join-distinct :
    (xs : List Text)
    → All IsSelector xs
    → split_exclusion_values (join (codes "\n") xs) ≡ distinct [] xs
split-join-distinct [] h = unfold split_exclusion_values join distinct in refl
split-join-distinct (x ∷ xs) h =
    split-eq-distinct (join (codes "\n") (x ∷ xs))
    ∙ (ap (λ ps. distinct [] (kept_pieces ps))
          (split_runs-join is_separator 10 x xs refl
            (All-mono IsSelector (IsPiece is_separator) (x ∷ xs) IsPiece-of_IsSelector h))
        ∙ ap (distinct []) (kept_selectors (x ∷ xs) h))

-- The lines of a join of distinct values are these values.
pub split-join :
    (xs : List Text)
    → All IsSelector xs
    → AllDistinct xs
    → split_exclusion_values (join (codes "\n") xs) ≡ xs
split-join xs h d = split-join-distinct xs h ∙ distinct_id xs d

-- Splitting a text, joining the values by line feeds and splitting again changes nothing.
pub split-join-split :
    (value : Text)
    → split_exclusion_values (join (codes "\n") (split_exclusion_values value))
      ≡ split_exclusion_values value
split-join-split value = let h = split_exclusion_values-IsSelector value in split-join _ h.0 h.1

pub split_exclusion_values_one : (s : Text) → IsSelector s → split_exclusion_values s ≡ s ∷ []
unfolding join contains
split_exclusion_values_one s h = split-join (s ∷ []) (h, tt) (refl, tt)
