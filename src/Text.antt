-- ===== src/Text.antt =====
-- JavaScript strings, as the lists of their UTF-16 code units, and the methods of `String` that
-- dashboard/web/src uses: `trim`, `slice`, `startsWith`, `includes`, `split`, `join`, `lastIndexOf`.
pub mod Equality
pub mod Trim
pub mod Distinct
pub mod Split
pub mod Prefix
pub mod Sort
use Prim.Native.Char.{code}
use karna.Common.{
  ℕ, String, Bool, true, false, ◌&&◌, ◌||◌, Option, none, some, List, [], ◌∷◌, ◌++◌, leb, ltb, suc,
  ◌==◌, if◌then◌else◌,
}

abbrev pub Text : Type 0
Text = List ℕ

-- The code units of a literal of the source (all are below U+10000).
abbrev pub codes : String → Text
codes String.[] = []
codes (String.◌∷◌ c s) = code c ∷ codes s

-- `a === b`
unfoldable pub text_eq : Text → Text → Bool
text_eq [] [] = true
text_eq [] (d ∷ t) = false
text_eq (c ∷ s) [] = false
text_eq (c ∷ s) (d ∷ t) = c == d && text_eq s t

abbrev pub is_empty {ℓ} : {A : Type ℓ} → List A → Bool
is_empty [] = true
is_empty (c ∷ s) = false

-- WhiteSpace and LineTerminator of ECMA-262, which `trim` removes.
unfoldable pub is_space : ℕ → Bool
is_space c =
    (leb 9 c && leb c 13)
    || c == 32
    || c == 0xa0
    || c == 0x1680
    || (leb 0x2000 c && leb c 0x200a)
    || c == 0x2028
    || c == 0x2029
    || c == 0x202f
    || c == 0x205f
    || c == 0x3000
    || c == 0xfeff

-- What `.` of a regular expression does not match.
unfoldable pub is_line_end : ℕ → Bool
is_line_end c = c == 10 || c == 13 || c == 0x2028 || c == 0x2029

-- Drops the code units that satisfy the test from the start, from the end, from both.
unfoldable pub strip_start : (ℕ → Bool) → Text → Text
strip_start blank [] = []
strip_start blank (c ∷ s) = let rest = strip_start blank s in if blank c then rest else c ∷ s

unfoldable pub push_stripped : (ℕ → Bool) → ℕ → Text → Text
push_stripped blank c [] = if blank c then [] else c ∷ []
push_stripped blank c (d ∷ t) = c ∷ d ∷ t

unfoldable pub strip_end : (ℕ → Bool) → Text → Text
unfolding push_stripped
strip_end blank [] = []
strip_end blank (c ∷ s) = push_stripped blank c (strip_end blank s)

unfoldable pub strip : (ℕ → Bool) → Text → Text
unfolding strip_start strip_end
strip blank s = strip_end blank (strip_start blank s)

-- `s.trim()`
abbrev pub trim : Text → Text
trim s = strip is_space s

-- `s.startsWith(p)`, with what stands behind the prefix.
unfoldable pub strip_prefix : Text → Text → Option Text
strip_prefix [] s = some s
strip_prefix (c ∷ p) [] = none
strip_prefix (c ∷ p) (d ∷ s) = if c == d then strip_prefix p s else none

abbrev pub is_some {ℓ} : {A : Type ℓ} → Option A → Bool
is_some none = false
is_some (some a) = true

abbrev pub starts_with : Text → Text → Bool
starts_with p s = is_some (strip_prefix p s)

-- `s.includes(p)`
unfoldable pub includes : Text → Text → Bool
includes p [] = starts_with p []
includes p (c ∷ s) = starts_with p (c ∷ s) || includes p s

-- Puts a code unit before the first piece of a split text.
abbrev pub push_first : ℕ → List Text → List Text
push_first c [] = (c ∷ []) ∷ []
push_first c (p ∷ ps) = (c ∷ p) ∷ ps

-- `s.split(d)` for a separator of one code unit
unfoldable pub split_on : ℕ → Text → List Text
split_on d [] = [] ∷ []
split_on d (c ∷ s) = let ps = split_on d s in if c == d then [] ∷ ps else push_first c ps

-- `xs.join(sep)`
unfoldable pub join : Text → List Text → Text
join sep [] = []
join sep (x ∷ []) = x
join sep (x ∷ y ∷ xs) = x ++ (sep ++ join sep (y ∷ xs))

-- `s.split(/[…]+/)`: a run of separators parts two pieces.
unfoldable pub starts_sep : (ℕ → Bool) → Text → Bool
starts_sep sep [] = false
starts_sep sep (c ∷ s) = sep c

unfoldable pub split_runs : (ℕ → Bool) → Text → List Text
unfolding starts_sep
split_runs sep [] = [] ∷ []
split_runs sep (c ∷ s) =
    let ps = split_runs sep s in
    if sep c then (if starts_sep sep s then ps else [] ∷ ps) else push_first c ps

-- `xs.includes(a)`, and `seen.has(a)` for a set that is kept as a list
unfoldable pub contains : Text → List Text → Bool
contains a [] = false
contains a (x ∷ xs) = text_eq x a || contains a xs

-- The values that a `Set` which already holds `seen` takes from a list, in order;
-- `[...new Set(xs)]` is `distinct [] xs`.
unfoldable pub distinct : List Text → List Text → List Text
distinct seen [] = []
distinct seen (x ∷ xs) =
    let rest = distinct seen xs in
    let more = x ∷ distinct (x ∷ seen) xs in if contains x seen then rest else more

-- `s.lastIndexOf(d)` for one code unit, `none` for -1
unfoldable pub last_index_of : ℕ → Text → Option ℕ
last_index_of d [] = none
last_index_of d (c ∷ s) = elim (last_index_of d s) [
  | some i ↦ some (suc i)
  | none ↦ if c == d then some 0 else none
]

-- `s.split(d, 1)[0]`
unfoldable pub before_first : ℕ → Text → Text
before_first d [] = []
before_first d (c ∷ s) = let rest = before_first d s in if c == d then [] else c ∷ rest

-- `a <= b` on strings: by code units, the order of `sort()`
unfoldable pub text_leb : Text → Text → Bool
text_leb [] t = true
text_leb (c ∷ s) [] = false
text_leb (c ∷ s) (d ∷ t) = ltb c d || (c == d && text_leb s t)

unfoldable pub insert_sorted : Text → List Text → List Text
insert_sorted a [] = a ∷ []
insert_sorted a (x ∷ xs) = if text_leb a x then a ∷ x ∷ xs else x ∷ insert_sorted a xs

-- `xs.sort()`
unfoldable pub sort : List Text → List Text
unfolding text_leb insert_sorted
sort [] = []
sort (x ∷ xs) = insert_sorted x (sort xs)
