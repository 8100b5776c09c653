-- ===== src/Text/Trim.antt =====
-- What stripping guarantees: it is idempotent, and it keeps a text whose ends are not blank.
use karna.Common.{
  ℕ, suc, ◌≤◌, ◌≡◌, refl, sym, ap, ◌∙◌, Bool, false, inl, inr, [], ◌∷◌, ◌++◌, arith, Bool-cases,
  length, All,
}
use karna.Text.{Text, strip_start, push_stripped, strip_end, strip}

module _ (blank : ℕ → Bool) where
  -- The first code unit, if there is one, is not blank.
  abbrev pub StartsClean : Text → Type 0
  StartsClean [] = Unit
  StartsClean (c ∷ s) = blank c ≡ false

  strip_start-StartsClean : (s : Text) → StartsClean (strip_start blank s)
  unfolding strip_start
  strip_start-StartsClean [] = tt
  strip_start-StartsClean (c ∷ s) = elim (Bool-cases (blank c)) [
    | inl blanks ↦ rw blanks (strip_start-StartsClean s)
    | inr solid ↦ rw solid solid
  ]

  strip_start_of_clean : (s : Text) → StartsClean s → strip_start blank s ≡ s
  unfolding strip_start
  strip_start_of_clean [] h = refl
  strip_start_of_clean (c ∷ s) h = rw h

  push_stripped-StartsClean :
      (c : ℕ) (s : Text) → blank c ≡ false → StartsClean (push_stripped blank c s)
  unfolding push_stripped
  push_stripped-StartsClean c [] h = rw h h
  push_stripped-StartsClean c (d ∷ t) h = h

  strip_end-StartsClean : (s : Text) → StartsClean s → StartsClean (strip_end blank s)
  unfolding strip_end
  strip_end-StartsClean [] h = tt
  strip_end-StartsClean (c ∷ s) h = push_stripped-StartsClean c (strip_end blank s) h

  strip_end-push_stripped :
      (c : ℕ) (t : Text)
      → strip_end blank t ≡ t
      → strip_end blank (push_stripped blank c t) ≡ push_stripped blank c t
  unfolding strip_end
  strip_end-push_stripped c [] h = elim (Bool-cases (blank c)) [
    | inl blanks ↦ rw blanks
    | inr solid ↦ rw solid (rw solid)
  ]
  strip_end-push_stripped c (d ∷ t) h = ap (push_stripped blank c) h

  pub strip_end_idem : (s : Text) → strip_end blank (strip_end blank s) ≡ strip_end blank s
  unfolding strip_end
  strip_end_idem [] = refl
  strip_end_idem (c ∷ s) = strip_end-push_stripped c (strip_end blank s) (strip_end_idem s)

  pub strip-StartsClean : (s : Text) → StartsClean (strip blank s)
  unfolding strip
  strip-StartsClean s = strip_end-StartsClean _ (strip_start-StartsClean s)

  pub strip_of_clean : (s : Text) → StartsClean s → strip_end blank s ≡ s → strip blank s ≡ s
  unfolding strip
  strip_of_clean s h k = ap (strip_end blank) (strip_start_of_clean s h) ∙ k

  pub strip_end-strip : (s : Text) → strip_end blank (strip blank s) ≡ strip blank s
  unfolding strip
  strip_end-strip s = strip_end_idem (strip_start blank s)

  pub strip_idem : (s : Text) → strip blank (strip blank s) ≡ strip blank s
  strip_idem s = strip_of_clean (strip blank s) (strip-StartsClean s) (strip_end-strip s)

  -- A text that stripping keeps has no blank end.
  pub strip_end_of_stripped : (s : Text) → strip blank s ≡ s → strip_end blank s ≡ s
  strip_end_of_stripped s h = ap (strip_end blank) (sym h) ∙ (strip_end-strip s ∙ h)

  -- A text put before a nonempty one with a clean end keeps the clean end.
  pub strip_end-append :
      (p : Text) (c : ℕ) (s : Text)
      → strip_end blank (c ∷ s) ≡ c ∷ s
      → strip_end blank (p ++ c ∷ s) ≡ p ++ c ∷ s
  unfolding strip_end
  strip_end-append [] c s h = h
  strip_end-append (d ∷ []) c s h = ap (push_stripped blank d) h
  strip_end-append (d ∷ e ∷ p) c s h = ap (push_stripped blank d) (strip_end-append (e ∷ p) c s h)

  length-push_stripped : (c : ℕ) (t : Text) → length (push_stripped blank c t) ≤ suc (length t)
  unfolding push_stripped
  length-push_stripped c [] = ground arith
  length-push_stripped c (d ∷ t) = omega arith

  pub length-strip_end : (s : Text) → length (strip_end blank s) ≤ length s
  unfolding strip_end
  length-strip_end [] = omega arith
  length-strip_end (c ∷ s) =
      omega (arith, length-push_stripped c (strip_end blank s), length-strip_end s)

  length-strip_start : (s : Text) → length (strip_start blank s) ≤ length s
  unfolding strip_start
  length-strip_start [] = omega arith
  length-strip_start (c ∷ s) = ground (arith, length-strip_start s)

  pub length-strip_le : (s : Text) → length (strip blank s) ≤ length s
  unfolding strip
  length-strip_le s = omega (arith, length-strip_end (strip_start blank s), length-strip_start s)

  -- Stripping drops code units only.
  module _ {ℓ} (P : ℕ → Type ℓ) where
    strip_start-All : (s : Text) → All P s → All P (strip_start blank s)
    unfolding strip_start
    strip_start-All [] h = tt
    strip_start-All (c ∷ s) (h, hs) = elim (Bool-cases (blank c)) [
      | inl blanks ↦ rw blanks (strip_start-All s hs)
      | inr solid ↦ rw solid (h, hs)
    ]

    push_stripped-All : (c : ℕ) (t : Text) → P c → All P t → All P (push_stripped blank c t)
    unfolding push_stripped
    push_stripped-All c [] h k = elim (Bool-cases (blank c)) [
      | inl blanks ↦ rw blanks tt
      | inr solid ↦ rw solid (h, tt)
    ]
    push_stripped-All c (d ∷ t) h k = (h, k)

    pub strip_end-All : (s : Text) → All P s → All P (strip_end blank s)
    unfolding strip_end
    strip_end-All [] h = tt
    strip_end-All (c ∷ s) (h, hs) = push_stripped-All c (strip_end blank s) h (strip_end-All s hs)

    pub strip-All : (s : Text) → All P s → All P (strip blank s)
    unfolding strip
    strip-All s h = strip_end-All (strip_start blank s) (strip_start-All s h)
