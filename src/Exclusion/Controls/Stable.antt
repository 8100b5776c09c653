-- ===== src/Exclusion/Controls/Stable.antt =====
-- The targets that come out of `normalizeExclusionTarget` as they went in.
use karna.Common.{
  ◌<◌, ◌≡◌, refl, sym, ◌∙◌, subst, true, false, not, inl, inr, [], ◌∷◌, arith, Bool-cases, length,
  take, All-append, All-take, All-mono, All-of_every, take_short,
}
use karna.Text.{Text, is_space, strip, trim, starts_with, strip_prefix}
use karna.Text.Trim.{strip-All}
use karna.Text.Split.{IsFree, IsNonempty}
use karna.Exclusion.Target.{
  arg_prefix, max_draft_text, clipped_to, clipped, with_arg_prefix, normalize_exclusion_target,
}
use karna.Exclusion.Target.Normal.{
  request_prefix, normalize_exclusion_target_lem, normalize-clipped,
}
use karna.Exclusion.Values.{is_separator}
use karna.Exclusion.Values.Split.{IsSelector}

-- A value that is a target already.
abbrev pub IsStable : Text → Type 0
IsStable t = IsSelector t × (normalize_exclusion_target t ≡ t)

arg_prefix-IsFree : IsFree is_separator arg_prefix
arg_prefix-IsFree =
    All-mono (λ c. not (is_separator c) ≡ true) (λ c. is_separator c ≡ false) arg_prefix
      (λ c h. ground arith) (All-of_every (λ c. not (is_separator c)) arg_prefix refl)

with_arg_prefix-IsFree :
    (t : Text) → IsFree is_separator t → IsFree is_separator (with_arg_prefix t)
unfolding with_arg_prefix
with_arg_prefix-IsFree [] h = tt
with_arg_prefix-IsFree (c ∷ s) h = elim (Bool-cases (starts_with request_prefix (c ∷ s))) [
  | inl under ↦ rw under h
  | inr free ↦
      rw free (All-append (λ d. is_separator d ≡ false) arg_prefix (c ∷ s) arg_prefix-IsFree h)
]

clipped-IsFree : (t : Text) → IsFree is_separator t → IsFree is_separator (clipped t)
unfolding clipped_to
clipped-IsFree t h =
    All-take (λ d. is_separator d ≡ false) max_draft_text (strip is_space t)
      (strip-All is_space (λ d. is_separator d ≡ false) t h)

clipped-IsNonempty : (t : Text) → IsSelector t → IsNonempty (clipped t)
clipped-IsNonempty [] h = absurd h.0
clipped-IsNonempty (c ∷ s) h =
    unfold clipped_to in subst (λ u. IsNonempty (take max_draft_text u)) (sym h.1) tt

starts-IsNonempty : (t : Text) → starts_with request_prefix t ≡ true → IsNonempty t
unfolding strip_prefix
starts-IsNonempty [] h = cc
starts-IsNonempty (c ∷ s) h = tt

-- What `clipped` keeps, below its limit, `trim` keeps.
trim_of_clipped : (t : Text) → clipped t ≡ t → length t < max_draft_text → trim t ≡ t
trim_of_clipped t e short =
    let all : clipped t ≡ trim t =
      unfold clipped_to in
      take_short max_draft_text (strip is_space t)
        (subst (λ u. length u < max_draft_text) (sym e) short) in
    sym all ∙ e

-- A value that a user types becomes a stable target, if that stays below the limit.
pub normalize-IsStable :
    (t : Text)
    → IsSelector t
    → length (normalize_exclusion_target t) < max_draft_text
    → IsStable (normalize_exclusion_target t)
normalize-IsStable t h short =
    let (under, again) = normalize_exclusion_target_lem t in
    let nonempty = starts-IsNonempty _ (under (clipped-IsNonempty t h)) in
    (
      (
        nonempty,
        trim_of_clipped _ (normalize-clipped t short) short,
        unfold normalize_exclusion_target in
            with_arg_prefix-IsFree (clipped t) (clipped-IsFree t h.2),
      ),
      again short,
    )

-- Without a bound the target is nonempty all the same.
pub normalize-IsNonempty : (t : Text) → IsSelector t → IsNonempty (normalize_exclusion_target t)
normalize-IsNonempty t h =
    starts-IsNonempty _ ((normalize_exclusion_target_lem t).0 (clipped-IsNonempty t h))
