-- ===== src/Table.antt =====
-- How the tables of views/Services.jsx (lines 180 to 195) and views/Audit.jsx (lines 187 to 201) are sorted. The
-- comparisons of JavaScript, by difference and by locale, are parameters.
pub mod Sorted
use karna.Common.{Bool, true, false, not, ◌&&◌, List, [], ◌∷◌, if◌then◌else◌}
use karna.Text.{Text, text_eq}
use karna.Value.{Value, num, to_text}

-- The sign of what a comparison gives: negative, zero or positive.
pub data Order : Type 0 where
  less same more : Order

abbrev pub negated : Order → Order
negated less = more
negated same = same
negated more = less

-- `a || b`
abbrev pub or_then : Order → Order → Order
or_then less o = less
or_then same o = o
or_then more o = more

abbrev pub is_more : Order → Bool
is_more less = false
is_more same = false
is_more more = true

-- `sort`
pub record SortBy : Type 0 where
  pub key : Text
  pub ascending : Bool

-- `changeSort(key)`, where the direction of a key by default is given
unfoldable pub change_sort : (Text → Bool) → Text → SortBy → SortBy
unfolding text_eq
change_sort starts_ascending key current =
    if text_eq current.key key
    then record { key = key; ascending = not current.ascending }
    else record { key = key; ascending = starts_ascending key }

abbrev pub directed : Bool → Order → Order
directed true o = o
directed false o = negated o

-- `[...items].sort(f)`, which is stable
module _ {A : Type 0} (f : A → A → Order) where
  unfoldable pub insert_by : A → List A → List A
  insert_by x [] = x ∷ []
  insert_by x (y ∷ ys) =
      let rest = insert_by x ys in if is_more (f x y) then y ∷ rest else x ∷ y ∷ ys

  unfoldable pub sort_by : List A → List A
  unfolding insert_by
  sort_by [] = []
  sort_by (x ∷ xs) = insert_by x (sort_by xs)

-- `typeof v === "number"`
abbrev pub is_number : Value → Bool
is_number (num t) = true
is_number _ = false

-- `av - bv` on two numbers, given by their texts, and `localeCompare` on texts with the digits as numbers and
-- with the case ignored
module _ (difference locale : Text → Text → Order) where
  unfoldable pub compared : Value → Value → Order
  unfolding to_text
  compared v w =
      if is_number v && is_number w
      then difference (to_text v) (to_text w)
      else locale (to_text v) (to_text w)
