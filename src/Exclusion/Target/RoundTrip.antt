-- ===== src/Exclusion/Target/RoundTrip.antt =====
-- A request field survives the way through its target.
use karna.Common.{
  ℕ, ◌≤◌, ◌<◌, ◌≡◌, refl, sym, ap, ◌∙◌, false, some, List, [], ◌∷◌, ◌++◌, arith, inl, inr,
  Bool-cases, if◌then◌else◌, length, length-append, drop_append, lt→ltb,
}
use mathlib.Core.Path.{subst}
use karna.Text.{Text, codes, text_eq, is_space, strip_end}
use karna.Text.Equality.{text_eq_iff}
use karna.Text.Split.{IsNonempty}
use karna.Text.Prefix.{strip_prefix-append}
use karna.Exclusion.Target.Normal.{clipped_end, prefixed_fits}
use karna.Exclusion.Target.{
  RequestField, arg_prefix, header_prefix, cookie_prefix, json_prefix, clipped_to, max_draft_text,
  clipped, find_mapping, clipped_target_field, request_field_from_target, named_target,
  request_field_to_target,
}

find_mapping_hit :
    (p type : Text) (ms : List (Text × Text)) (s : Text)
    → IsNonempty s
    → find_mapping ((p, type) ∷ ms) (p ++ s) ≡ some (record { type = type; name = s })
unfolding find_mapping
find_mapping_hit p type ms [] h = absurd h
find_mapping_hit p type ms (c ∷ s) h = rw (strip_prefix-append p (c ∷ s)) (
    rw (lt→ltb (length p) (length (p ++ c ∷ s)) (omega (arith, length-append p (c ∷ s))))
      (rw (drop_append p (c ∷ s))))

-- What is left of the loop over `mappings` after each round.
abbrev after_cookie : List (Text × Text)
after_cookie = (json_prefix, codes "json") ∷ []

abbrev after_header : List (Text × Text)
after_header = (cookie_prefix, codes "cookie") ∷ after_cookie

abbrev after_arg : List (Text × Text)
after_arg = (header_prefix, codes "header") ∷ after_header

module _ (s : Text) (h : IsNonempty s) where
  field_of_arg :
      clipped_target_field (arg_prefix ++ s) ≡ some (record { type = codes "parameter"; name = s })
  unfolding clipped_target_field
  field_of_arg = find_mapping_hit arg_prefix (codes "parameter") after_arg s h

  field_of_header :
      clipped_target_field (header_prefix ++ s) ≡ some (record { type = codes "header"; name = s })
  unfolding clipped_target_field
  field_of_header = find_mapping_hit header_prefix (codes "header") after_header s h

  field_of_cookie :
      clipped_target_field (cookie_prefix ++ s) ≡ some (record { type = codes "cookie"; name = s })
  unfolding clipped_target_field
  field_of_cookie = find_mapping_hit cookie_prefix (codes "cookie") after_cookie s h

  field_of_json :
      clipped_target_field (json_prefix ++ s) ≡ some (record { type = codes "json"; name = s })
  unfolding clipped_target_field
  field_of_json = find_mapping_hit json_prefix (codes "json") [] s h

-- The field that comes back: a header's name in lower case, no name for the body.
abbrev pub canonical_name : (Text → Text) → Text → Text → Text
canonical_name lower type name =
    if text_eq type (codes "body")
    then []
    else if text_eq type (codes "header")
    then lower name
    else name

abbrev pub canonical : (Text → Text) → RequestField → RequestField
canonical lower f = record { type = f.type; name = canonical_name lower f.type (clipped f.name) }

-- A type is a given one, or the test on it fails.
type_case {ℓ} :
    (P : Text → Type ℓ) (type known : Text)
    → P known
    → (text_eq type known ≡ false → P type)
    → P type
type_case P type known here other = elim (Bool-cases (text_eq type known)) [
  | inl same ↦ subst P (sym ((text_eq_iff type known).0 same)) here
  | inr differs ↦ other differs
]

-- What the program relies on of `toLowerCase`: the text does not get shorter, and an end that is
-- not blank does not become blank.
pub record LowerLaws (lower : Text → Text) : Type 0 where
  pub no_shorter : (s : Text) → length s ≤ length (lower s)
  pub clean_end : (s : Text) → strip_end is_space s ≡ s → strip_end is_space (lower s) ≡ lower s

IsNonempty-of_length : (s : Text) → 0 < length s → IsNonempty s
IsNonempty-of_length [] h = absurd (omega arith)
IsNonempty-of_length (c ∷ s) h = tt

module _ (lower : Text → Text) (laws : LowerLaws lower) where
  lower-IsNonempty : (c : ℕ) (s : Text) → IsNonempty (lower (c ∷ s))
  lower-IsNonempty c s =
      IsNonempty-of_length (lower (c ∷ s)) (omega (arith, laws.no_shorter (c ∷ s)))

  abbrev ComesBack : Text → Text → Type 0
  ComesBack type name =
      IsNonempty (named_target lower type name)
      → clipped_target_field (named_target lower type name)
        ≡ some (record { type = type; name = canonical_name lower type name })

  ComesBack-body : (name : Text) → ComesBack (codes "body") name
  unfolding named_target clipped_target_field
  ComesBack-body name h = refl

  ComesBack-parameter : (name : Text) → ComesBack (codes "parameter") name
  unfolding named_target
  ComesBack-parameter [] h = absurd h
  ComesBack-parameter (c ∷ s) h = field_of_arg (c ∷ s) tt

  ComesBack-header : (name : Text) → ComesBack (codes "header") name
  unfolding named_target
  ComesBack-header [] h = absurd h
  ComesBack-header (c ∷ s) h = field_of_header (lower (c ∷ s)) (lower-IsNonempty c s)

  ComesBack-cookie : (name : Text) → ComesBack (codes "cookie") name
  unfolding named_target
  ComesBack-cookie [] h = absurd h
  ComesBack-cookie (c ∷ s) h = field_of_cookie (c ∷ s) tt

  ComesBack-json : (name : Text) → ComesBack (codes "json") name
  unfolding named_target
  ComesBack-json [] h = absurd h
  ComesBack-json (c ∷ s) h = field_of_json (c ∷ s) tt

  unknown_type :
      (type name : Text)
      → text_eq type (codes "body") ≡ false
      → text_eq type (codes "parameter") ≡ false
      → text_eq type (codes "header") ≡ false
      → text_eq type (codes "cookie") ≡ false
      → text_eq type (codes "json") ≡ false
      → named_target lower type name ≡ []
  unfolding named_target
  unknown_type type [] b p h c j = rw b
  unknown_type type (d ∷ s) b p h c j = rw b (rw p (rw h (rw c (rw j))))

  ComesBack-type : (type name : Text) → ComesBack type name
  ComesBack-type type name = type_case P type (codes "body") (ComesBack-body name) λ b.
      type_case P type (codes "parameter") (ComesBack-parameter name) λ p.
        type_case P type (codes "header") (ComesBack-header name) λ h.
          type_case P type (codes "cookie") (ComesBack-cookie name) λ c.
            type_case P type (codes "json") (ComesBack-json name)
              λ j n. absurd (subst IsNonempty (unknown_type type name b p h c j) n)
    where
      P : Text → Type 0
      P ty = ComesBack ty name

  -- Behind a prefix the name is below the limit, so that its end is clean and no clipping is due.
  abbrev NeedsNoClip : Text → Text → Type 0
  NeedsNoClip type name =
      (length name < max_draft_text → strip_end is_space name ≡ name)
      → length (named_target lower type name) ≤ max_draft_text
      → clipped (named_target lower type name) ≡ named_target lower type name

  no_clip_empty : clipped [] ≡ []
  no_clip_empty = unfold clipped_to in refl

  no_clip_body : (name : Text) → NeedsNoClip (codes "body") name
  unfolding named_target clipped_to
  no_clip_body name clean short = refl

  no_clip_parameter : (name : Text) → NeedsNoClip (codes "parameter") name
  unfolding named_target is_space
  no_clip_parameter [] clean short = no_clip_empty
  no_clip_parameter (c ∷ s) clean short =
      prefixed_fits arg_prefix (c ∷ s) refl tt (clean (omega arith)) short

  no_clip_header : (name : Text) → NeedsNoClip (codes "header") name
  unfolding named_target is_space
  no_clip_header [] clean short = no_clip_empty
  no_clip_header (c ∷ s) clean short =
      prefixed_fits header_prefix (lower (c ∷ s)) refl (lower-IsNonempty c s)
        (laws.clean_end (c ∷ s) (clean (omega (arith, laws.no_shorter (c ∷ s))))) short

  no_clip_cookie : (name : Text) → NeedsNoClip (codes "cookie") name
  unfolding named_target is_space
  no_clip_cookie [] clean short = no_clip_empty
  no_clip_cookie (c ∷ s) clean short =
      prefixed_fits cookie_prefix (c ∷ s) refl tt (clean (omega arith)) short

  no_clip_json : (name : Text) → NeedsNoClip (codes "json") name
  unfolding named_target is_space
  no_clip_json [] clean short = no_clip_empty
  no_clip_json (c ∷ s) clean short =
      prefixed_fits json_prefix (c ∷ s) refl tt (clean (omega arith)) short

  no_clip : (type name : Text) → NeedsNoClip type name
  no_clip type name = type_case P type (codes "body") (no_clip_body name) λ b.
      type_case P type (codes "parameter") (no_clip_parameter name) λ p.
        type_case P type (codes "header") (no_clip_header name) λ h.
          type_case P type (codes "cookie") (no_clip_cookie name) λ c.
            type_case P type (codes "json") (no_clip_json name)
              λ j clean short. rw (unknown_type type name b p h c j) no_clip_empty
    where
      P : Text → Type 0
      P ty = NeedsNoClip ty name

  -- A field whose target is nonempty and at most 240 units long is found again from the target,
  -- with its name clipped and, for a header, in lower case.
  pub request_field_round_trip :
      (f : RequestField)
      → IsNonempty (request_field_to_target lower f)
      → length (request_field_to_target lower f) ≤ max_draft_text
      → request_field_from_target (request_field_to_target lower f) ≡ some (canonical lower f)
  request_field_round_trip f h short =
      let fits = no_clip f.type (clipped f.name) (clipped_end f.name) in
      unfold request_field_from_target request_field_to_target in
      ap clipped_target_field (fits short) ∙ ComesBack-type f.type (clipped f.name) h
