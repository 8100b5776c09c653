-- ===== src/Palette/Keys.antt =====
-- What Enter does after some arrow keys.
use karna.Common.{
  ℕ, zero, suc, ◌<◌, ◌≡◌, refl, Bool, true, false, none, some, List, [], ◌∷◌, arith, length,
  get_elem?, get_elem?-below, map,
}
use karna.Palette.{
  Result, Selection, Key, Move, arrow_down, arrow_up, enter, selects, closes, goes_to, on_key,
  after, at_most_last, before,
}

-- A selection of one of so many results.
abbrev IsOf : ℕ → Selection → Type 0
IsOf n none = ⊥
IsOf n (some i) = i < n

at_most_last-IsOf : (i n : ℕ) → 0 < n → IsOf n (at_most_last i n)
at_most_last-IsOf i zero h = absurd (omega arith)
at_most_last-IsOf i (suc n) h = ground arith

before-IsOf : (n : ℕ) (sel : Selection) → 0 < n → IsOf n sel → IsOf n (before sel)
before-IsOf n none h k = h
before-IsOf n (some i) h k = omega arith

-- The keys of the arrows, down for `true`.
abbrev pub arrow : Bool → Key
arrow true = arrow_down
arrow false = arrow_up

-- The selection after a move of the palette, and after some keys.
abbrev pub selection_after : Move → Selection → Selection
selection_after (selects new) sel = new
selection_after closes sel = sel
selection_after (goes_to r) sel = sel

abbrev pub press : List Result → List Key → Selection → Selection
press results [] sel = sel
press results (k ∷ keys) sel = press results keys (selection_after (on_key results k sel) sel)

arrow-IsOf :
    (results : List Result) (is_down : Bool) (sel : Selection)
    → 0 < length results
    → IsOf (length results) sel
    → IsOf (length results) (selection_after (on_key results (arrow is_down) sel) sel)
unfolding on_key
arrow-IsOf results true sel h k = at_most_last-IsOf (after sel) (length results) h
arrow-IsOf results false sel h k = before-IsOf (length results) sel h k

press-IsOf :
    (results : List Result) (downs : List Bool) (sel : Selection)
    → 0 < length results
    → IsOf (length results) sel
    → IsOf (length results) (press results (map arrow downs) sel)
press-IsOf results [] sel h k = k
press-IsOf results (is_down ∷ downs) sel h k =
    press-IsOf results downs (selection_after (on_key results (arrow is_down) sel) sel) h
      (arrow-IsOf results is_down sel h k)

enter-IsOf :
    (results : List Result) (sel : Selection)
    → IsOf (length results) sel
    → (i : ℕ) × ((sel ≡ some i)
        × ((r : Result) × ((get_elem? results i ≡ some r)
              × (on_key results enter sel ≡ goes_to r))))
unfolding on_key
enter-IsOf results none k = absurd k
enter-IsOf results (some i) k =
    let (r, e) = get_elem?-below results i k in (i, (refl, (r, (e, rw e refl))))

-- With any result at all, after any sequence of arrow keys from the first result on a result is selected, and
-- Enter leads to it.
pub on_key-enter_after_arrows :
    (results : List Result) (downs : List Bool)
    → 0 < length results
    → (i : ℕ) × ((press results (map arrow downs) (some 0) ≡ some i)
        × ((r : Result) × ((get_elem? results i ≡ some r)
              × (on_key results enter (press results (map arrow downs) (some 0)) ≡ goes_to r))))
on_key-enter_after_arrows results downs h =
    enter-IsOf results (press results (map arrow downs) (some 0))
      (press-IsOf results downs (some 0) h h)
