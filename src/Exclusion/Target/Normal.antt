-- ===== src/Exclusion/Target/Normal.antt =====
-- When clipping changes nothing, and the normal form of a target that a user types.
use karna.Common.{
  ℕ, zero, suc, ◌≤◌, ◌<◌, ◌≡◌, refl, sym, ap, ◌∙◌, true, [], ◌∷◌, ◌++◌, arith, inl, inr, Bool-cases,
  length, length-take_le, take, take_all, take_short,
}
use mathlib.Core.Path.{subst}
use karna.Text.{Text, codes, is_space, strip, strip_end, starts_with}
use karna.Text.Trim.{
  StartsClean, strip-StartsClean, strip_of_clean, strip_end-strip, strip_end-append,
}
use karna.Text.Split.{IsNonempty}
use karna.Exclusion.Target.{
  arg_prefix, max_draft_text, clipped_to, clipped, with_arg_prefix, normalize_exclusion_target,
}

pub length-clipped_to : (max : ℕ) (s : Text) → length (clipped_to max s) ≤ max
unfolding clipped_to
length-clipped_to max s = length-take_le max (strip is_space s)

-- A short text with clean ends is clipped already.
pub clipped_id :
    (s : Text)
    → StartsClean is_space s
    → strip_end is_space s ≡ s
    → length s ≤ max_draft_text
    → clipped s ≡ s
clipped_id s start end_ short =
    let e = strip_of_clean is_space s start end_ in
    unfold clipped_to in ap (take max_draft_text) e ∙ take_all max_draft_text s short

take-StartsClean : (n : ℕ) (s : Text) → StartsClean is_space s → StartsClean is_space (take n s)
take-StartsClean zero s h = tt
take-StartsClean (suc n) [] h = tt
take-StartsClean (suc n) (c ∷ s) h = h

pub clipped-StartsClean : (s : Text) → StartsClean is_space (clipped s)
clipped-StartsClean s =
    let h = strip-StartsClean is_space s in
    unfold clipped_to in take-StartsClean max_draft_text (strip is_space s) h

-- Below the limit nothing was cut off, so that the end is clean too.
pub clipped_end :
    (s : Text) → length (clipped s) < max_draft_text → strip_end is_space (clipped s) ≡ clipped s
clipped_end s h =
    let e : clipped s ≡ strip is_space s = unfold clipped_to in take_short max_draft_text _ h in
    subst (λ t. strip_end is_space t ≡ t) (sym e) (strip_end-strip is_space s)

-- A prefix and a nonempty text with a clean end, together short enough.
pub prefixed_fits :
    (p name : Text)
    → StartsClean is_space (p ++ name)
    → IsNonempty name
    → strip_end is_space name ≡ name
    → length (p ++ name) ≤ max_draft_text
    → clipped (p ++ name) ≡ p ++ name
prefixed_fits p [] start h e short = absurd h
prefixed_fits p (c ∷ s) start h e short =
    clipped_id (p ++ c ∷ s) start (strip_end-append is_space p c s e) short

-- `with_arg_prefix` gives the empty text or a target under `request.`.
abbrev pub request_prefix : Text
request_prefix = codes "request."

with_arg_prefix-starts :
    (t : Text) → IsNonempty t → starts_with request_prefix (with_arg_prefix t) ≡ true
unfolding with_arg_prefix
with_arg_prefix-starts [] h = absurd h
with_arg_prefix-starts (c ∷ s) h = elim (Bool-cases (starts_with request_prefix (c ∷ s))) [
  | inl under ↦ rw under under
  | inr free ↦ rw free
]

with_arg_prefix_kept : (t : Text) → starts_with request_prefix t ≡ true → with_arg_prefix t ≡ t
unfolding with_arg_prefix
with_arg_prefix_kept [] h = cc
with_arg_prefix_kept (c ∷ s) h = rw h

normal_again :
    (t : Text)
    → StartsClean is_space t
    → (length t < max_draft_text → strip_end is_space t ≡ t)
    → length (with_arg_prefix t) < max_draft_text
    → clipped (with_arg_prefix t) ≡ with_arg_prefix t
unfolding with_arg_prefix is_space
normal_again [] start end_ h = unfold clipped_to in refl
normal_again (c ∷ s) start end_ h = elim (Bool-cases (starts_with request_prefix (c ∷ s))) [
  | inl under ↦
      let short : length (c ∷ s) < max_draft_text = rw (under, with_arg_prefix) at h in
      rw under (clipped_id (c ∷ s) start (end_ short) (omega arith))
  | inr free ↦
      let short : length (arg_prefix ++ c ∷ s) < max_draft_text = rw (free, with_arg_prefix) at h in
      rw free (prefixed_fits arg_prefix (c ∷ s) refl tt (end_ (omega arith)) (omega arith))
]

with_arg_prefix_idem : (t : Text) → with_arg_prefix (with_arg_prefix t) ≡ with_arg_prefix t
with_arg_prefix_idem [] = unfold with_arg_prefix in refl
with_arg_prefix_idem (c ∷ s) =
    with_arg_prefix_kept (with_arg_prefix (c ∷ s)) (with_arg_prefix-starts (c ∷ s) tt)

-- A target that a user types becomes one under `request.`, unless it is blank; below the limit
-- of a draft's text it stays as it is from then on.
pub normalize_exclusion_target_lem :
    (value : Text)
    → (IsNonempty (clipped value)
        → starts_with request_prefix (normalize_exclusion_target value) ≡ true)
      × (length (normalize_exclusion_target value) < max_draft_text
          → normalize_exclusion_target (normalize_exclusion_target value)
            ≡ normalize_exclusion_target value)
normalize_exclusion_target_lem value =
    let again = normal_again (clipped value) (clipped-StartsClean value) (clipped_end value) in
    unfold normalize_exclusion_target in
    (
      with_arg_prefix-starts (clipped value),
      λ h. ap with_arg_prefix (again h) ∙ with_arg_prefix_idem (clipped value),
    )

pub normalize-clipped :
    (value : Text)
    → length (normalize_exclusion_target value) < max_draft_text
    → clipped (normalize_exclusion_target value) ≡ normalize_exclusion_target value
normalize-clipped value h =
    let again = normal_again (clipped value) (clipped-StartsClean value) (clipped_end value) in
    unfold normalize_exclusion_target in again h
