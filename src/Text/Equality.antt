-- ===== src/Text/Equality.antt =====
-- `text_eq` decides equality of texts.
use karna.Common.{◌≡◌, refl, ◌↔◌, true, [], ◌∷◌, arith}
use mathlib.Core.Path.{subst}
use karna.Text.{Text, text_eq}

pub text_eq_refl : (s : Text) → text_eq s s ≡ true
unfolding text_eq
text_eq_refl [] = refl
text_eq_refl (c ∷ s) = ground (arith, text_eq_refl s)

text_eq_sound : (s t : Text) → text_eq s t ≡ true → s ≡ t
unfolding text_eq
text_eq_sound [] [] h = refl
text_eq_sound [] (d ∷ t) h = cc
text_eq_sound (c ∷ s) [] h = cc
text_eq_sound (c ∷ s) (d ∷ t) h = ground (arith, text_eq_sound s t)

pub text_eq_iff : (s t : Text) → (text_eq s t ≡ true) ↔ (s ≡ t)
text_eq_iff s t = (text_eq_sound s t, λ e. subst (λ u. text_eq s u ≡ true) e (text_eq_refl s))
