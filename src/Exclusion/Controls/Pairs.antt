-- ===== src/Exclusion/Controls/Pairs.antt =====
-- The targets of a form's groups as a list of pairs, selector and target, and what the loop that
-- reads controls back makes of such a list.
use karna.Common.{
  ◌≡◌, refl, sym, ap, ◌∙◌, subst, inl, inr, List, [], ◌∷◌, ◌++◌, map, append_assoc, append-nil,
  Bool-cases, if◌then◌else◌, flat_map, All, SameItems, SameItems-refl, SameItems-trans,
  SameItems-of_eq, SameItems-append, SameItems-swap,
}
use mathlib.Core.List.{map-append}
use karna.Text.{Text, codes, text_eq, join}
use karna.Text.Equality.{text_eq_iff}
use karna.Text.Split.{IsNonempty}
use karna.Exclusion.Values.{Group}
use karna.Exclusion.Controls.{append_grouped}

-- A selector with its targets, which the editor keeps as lines.
abbrev pub Entry : Type 0
Entry = Text × List Text

abbrev pub to_group : Entry → Group
to_group e = record { selectors = e.0; targets = join (codes "\n") e.1 }

abbrev pub entry_pairs : Entry → List (Text × Text)
entry_pairs e = map (λ t. (e.0, t)) e.1

abbrev pub pairs_of : List Entry → List (Text × Text)
pairs_of es = flat_map entry_pairs es

pub add_pair : List Entry → Text × Text → List Entry
add_pair [] p = (p.0, p.1 ∷ []) ∷ []
add_pair (e ∷ es) p = if text_eq e.0 p.0 then (e.0, e.1 ++ p.1 ∷ []) ∷ es else e ∷ add_pair es p

abbrev pub HasTargets : Entry → Type 0
HasTargets e = IsNonempty e.1

join-append :
    (sep t : Text) (ts : List Text)
    → IsNonempty ts
    → join sep ts ++ (sep ++ t) ≡ join sep (ts ++ t ∷ [])
unfolding join
join-append sep t [] h = absurd h
join-append sep t (u ∷ []) h = refl
join-append sep t (u ∷ v ∷ ts) h =
    append_assoc u (sep ++ join sep (v ∷ ts)) (sep ++ t)
    ∙ ap (λ r. u ++ r)
        (append_assoc sep (join sep (v ∷ ts)) (sep ++ t)
          ∙ ap (λ r. sep ++ r) (join-append sep t (v ∷ ts) tt))

-- On groups that stand for entries the loop's step is `add_pair`.
pub append_grouped-add_pair :
    (es : List Entry) (p : Text × Text)
    → All HasTargets es
    → append_grouped (map to_group es) p.0 p.1 ≡ map to_group (add_pair es p)
unfolding append_grouped add_pair
append_grouped-add_pair [] p h = unfold join in refl
append_grouped-add_pair (e ∷ es) p (h, hs) = elim (Bool-cases (text_eq e.0 p.0)) [
  | inl same ↦ rw same (
      ap (λ r. record { selectors = e.0; targets = r } ∷ map to_group es)
        (join-append (codes "\n") p.1 e.1 h))
  | inr other ↦ rw other (ap (λ r. to_group e ∷ r) (append_grouped-add_pair es p hs))
]

HasTargets-append : (ts us : List Text) → IsNonempty us → IsNonempty (ts ++ us)
HasTargets-append [] us h = h
HasTargets-append (t ∷ ts) us h = tt

-- What holds of every entry, if a target may be added to an entry with the same selector.
pub add_pair-All {ℓ} :
    (P : Entry → Type ℓ) (es : List Entry) (p : Text × Text)
    → P (p.0, p.1 ∷ [])
    → ((ts : List Text) → P (p.0, ts) → P (p.0, ts ++ p.1 ∷ []))
    → All P es
    → All P (add_pair es p)
unfolding add_pair
add_pair-All P [] p one more h = (one, tt)
add_pair-All P (e ∷ es) p one more (h, hs) = elim (Bool-cases (text_eq e.0 p.0)) [
  | inl same ↦
      let same_selector : e.0 ≡ p.0 = (text_eq_iff e.0 p.0).0 same in
      rw same (
        subst (λ s. P (s, e.1 ++ p.1 ∷ [])) (sym same_selector)
            (more e.1 (subst (λ s. P (s, e.1)) same_selector h)),
        hs,
      )
  | inr other ↦ rw other (h, add_pair-All P es p one more hs)
]

-- Adding a pair adds this pair and no other.
add_pair-SameItems :
    (es : List Entry) (p : Text × Text)
    → SameItems (pairs_of (add_pair es p)) (pairs_of es ++ p ∷ [])
unfolding add_pair
add_pair-SameItems [] p = SameItems-refl (p ∷ [])
add_pair-SameItems (e ∷ es) p = elim (Bool-cases (text_eq e.0 p.0)) [
  | inl same ↦
      let same_selector : e.0 ≡ p.0 = (text_eq_iff e.0 p.0).0 same in
      let start = entry_pairs e in
      let rest = pairs_of es in
      let grown : entry_pairs (e.0, e.1 ++ p.1 ∷ []) ≡ start ++ p ∷ [] =
        map-append (λ t. (e.0, t)) e.1 (p.1 ∷ [])
        ∙ ap (λ s. start ++ (s, p.1) ∷ []) same_selector in
      rw same (
        SameItems-trans _ ((start ++ p ∷ []) ++ rest) _
          (SameItems-of_eq (ap (λ l. l ++ rest) grown)) (SameItems-swap start (p ∷ []) rest))
  | inr other ↦
      let start = entry_pairs e in
      let rest = pairs_of es in
      rw other (
        SameItems-trans _ (start ++ (rest ++ p ∷ [])) _
          (SameItems-append start start _ _ (SameItems-refl start) (add_pair-SameItems es p))
          (SameItems-of_eq (sym (append_assoc start rest (p ∷ [])))))
]

-- The loop over all pairs.
unfoldable pub gather : List Entry → List (Text × Text) → List Entry
gather es [] = es
gather es (p ∷ ps) = gather (add_pair es p) ps

-- The entries that the loop ends with have the pairs that it was given.
pub gather-SameItems :
    (es : List Entry) (ps : List (Text × Text))
    → SameItems (pairs_of (gather es ps)) (pairs_of es ++ ps)
unfolding gather
gather-SameItems es [] = SameItems-of_eq (sym (append-nil (pairs_of es)))
gather-SameItems es (p ∷ ps) =
    SameItems-trans _ (pairs_of (add_pair es p) ++ ps) _ (gather-SameItems (add_pair es p) ps) (
      SameItems-trans _ ((pairs_of es ++ p ∷ []) ++ ps) _
        (SameItems-append _ _ ps ps (add_pair-SameItems es p) (SameItems-refl ps))
        (SameItems-of_eq (append_assoc (pairs_of es) (p ∷ []) ps)))
