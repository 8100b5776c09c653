-- ===== src/Text/Prefix.antt =====
-- `strip_prefix` finds exactly the texts that begin with the prefix.
use karna.Common.{◌≡◌, refl, some, [], ◌∷◌, ◌++◌, arith, ==_refl}
use karna.Text.{Text, strip_prefix}

pub strip_prefix-append : (p s : Text) → strip_prefix p (p ++ s) ≡ some s
unfolding strip_prefix
strip_prefix-append [] s = refl
strip_prefix-append (c ∷ p) s = rw (==_refl c) (strip_prefix-append p s)

pub strip_prefix-eq-some : (p t : Text) {s : Text} → strip_prefix p t ≡ some s → t ≡ p ++ s
unfolding strip_prefix
strip_prefix-eq-some [] t h = cc
strip_prefix-eq-some (c ∷ p) [] h = cc
strip_prefix-eq-some (c ∷ p) (d ∷ t) {s} h = ground (arith, strip_prefix-eq-some p t {s = s})
