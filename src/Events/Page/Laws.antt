-- ===== src/Events/Page/Laws.antt =====
-- The pager shows every row once, and the filters let through what they say.
use karna.Common.{
  ℕ, zero, suc, ◌+◌, ◌-◌, ◌*◌, ◌≤◌, ◌<◌, ◌≡◌, refl, sym, ap, ◌∙◌, Bool, true, false, not, ◌&&◌,
  ◌||◌, List, [], ◌∷◌, ◌++◌, append_assoc, append-nil, length, take, drop, leb, any, every, arith,
  if◌then◌else◌,
}
use karna.Text.{Text, codes, is_empty}
use karna.Value.{Value}
use karna.Dashboard.{is_text, disposition_of}
use karna.Events.Page.{
  Filters, page_size, pages, clamp_page, page_clamped, page_rows, visible, clear_filters, passes,
  passes_action, filtered,
}

pages_enough : (n : ℕ) → n ≤ pages n * page_size
unfolding pages
pages_enough n = ground arith

module _ {A : Type 0} where
  take-drop : (n : ℕ) (xs : List A) → take n xs ++ drop n xs ≡ xs
  take-drop zero xs = refl
  take-drop (suc n) [] = refl
  take-drop (suc n) (x ∷ xs) = ap (λ l. x ∷ l) (take-drop n xs)

  drop_nil : (n : ℕ) → drop n (let e : List A = [] in e) ≡ []
  drop_nil zero = refl
  drop_nil (suc n) = refl

  drop-suc : (k n : ℕ) (x : A) (xs : List A) → drop (suc k + n) (x ∷ xs) ≡ drop (k + n) xs
  drop-suc k n x xs = let e : suc k + n ≡ suc (k + n) = omega arith in rw e refl

  drop-drop : (n k : ℕ) (xs : List A) → drop n (drop k xs) ≡ drop (k + n) xs
  drop-drop n zero xs = ap (λ m. drop m xs) (omega arith)
  drop-drop n (suc k) [] = drop_nil n ∙ sym (drop_nil (suc k + n))
  drop-drop n (suc k) (x ∷ xs) = drop-drop n k xs ∙ sym (drop-suc k n x xs)

  drop_all : (n : ℕ) (xs : List A) → length xs ≤ n → drop n xs ≡ []
  drop_all zero [] h = refl
  drop_all zero (x ∷ xs) h = absurd (omega arith)
  drop_all (suc n) [] h = refl
  drop_all (suc n) (x ∷ xs) h = drop_all n xs (omega arith)

  length-drop : (n : ℕ) (xs : List A) → length (drop n xs) ≡ length xs - n
  length-drop zero xs = omega arith
  length-drop (suc n) [] = omega arith
  length-drop (suc n) (x ∷ xs) = omega (arith, length-drop n xs)

  length-take_min :
      (n : ℕ) (xs : List A) → length (take n xs) ≡ (if leb n (length xs) then n else length xs)
  length-take_min zero xs = ground arith
  length-take_min (suc n) [] = ground arith
  length-take_min (suc n) (x ∷ xs) = ground (arith, length-take_min n xs)

  -- The rows of so many pages from a page on.
  abbrev pub rows_of_pages : ℕ → ℕ → List A → List A
  rows_of_pages zero p rows = []
  rows_of_pages (suc n) p rows = page_rows p rows ++ rows_of_pages n (p + 1) rows

  rows_of_pages-drop :
      (n p : ℕ) (rows : List A)
      → rows_of_pages n p rows ++ drop ((p + n) * page_size) rows ≡ drop (p * page_size) rows
  unfolding page_rows
  rows_of_pages-drop zero p rows = ap (λ m. drop m rows) (omega arith)
  rows_of_pages-drop (suc n) p rows =
      let here = drop (p * page_size) rows in
      let more = rows_of_pages n (p + 1) rows in
      append_assoc (take page_size here) more (drop ((p + suc n) * page_size) rows)
      ∙ ap (λ l. take page_size here ++ l)
          (ap (λ m. more ++ drop m rows)
              (let e : (p + suc n) * page_size ≡ (p + 1 + n) * page_size = omega arith in e)
            ∙ rows_of_pages-drop n (p + 1) rows
            ∙ ap (λ m. drop m rows)
                (let e : (p + 1) * page_size ≡ p * page_size + page_size = omega arith in e)
            ∙ sym (drop-drop page_size (p * page_size) rows))
      ∙ take-drop page_size here

  -- The pages of the pager, one after the other, hold every row exactly once and in order.
  pub rows_of_pages_lem : (rows : List A) → rows_of_pages (pages (length rows)) 0 rows ≡ rows
  rows_of_pages_lem rows =
      let n = pages (length rows) in
      sym (append-nil (rows_of_pages n 0 rows))
      ∙ ap (λ l. rows_of_pages n 0 rows ++ l)
          (sym (drop_all ((0 + n) * page_size) rows (omega (arith, pages_enough (length rows)))))
      ∙ rows_of_pages-drop n 0 rows
      ∙ ap (λ m. drop m rows) (let e : 0 * page_size ≡ 0 = omega arith in e)

page_clamped_lt : (f : Filters) (rows : List Value) → page_clamped f rows < pages (length rows)
unfolding page_clamped pages clamp_page
page_clamped_lt f rows = ground arith

page_clamped_starts :
    (f : Filters) (rows : List Value)
    → 0 < length rows
    → page_clamped f rows * page_size < length rows
unfolding page_clamped pages clamp_page
page_clamped_starts f rows h = ground arith

-- Whatever page the view was on before a filter narrowed the rows, the page that it shows exists, holds at
-- least one row where there is any, and at most fifty.
pub visible_bounds :
    (f : Filters) (rows : List Value)
    → 0 < length rows
    → (page_clamped f rows < pages (length rows))
      × (0 < length (visible f rows))
      × (length (visible f rows) ≤ page_size)
unfolding visible page_rows
visible_bounds f rows h =
    let start = page_clamped f rows * page_size in
    let e : length (take page_size (drop start rows))
        ≡ (if leb page_size (length rows - start) then page_size else length rows - start) =
      length-take_min page_size (drop start rows)
      ∙ ap (λ m. if leb page_size m then page_size else m) (length-drop start rows) in
    (page_clamped_lt f rows, ground (arith, page_clamped_starts f rows h), ground arith)

-- An action of a match that the engine enforced.
abbrev pub is_enforcing : Value → Bool
is_enforcing a =
    is_text (codes "block") a || is_text (codes "rate_limited") a || is_text (codes "sanitized") a

any-enforcing :
    (acts : List Value)
    → any is_enforcing acts ≡ (
        any (is_text (codes "block")) acts
        || any (is_text (codes "rate_limited")) acts
        || any (is_text (codes "sanitized")) acts)
any-enforcing [] = refl
any-enforcing (a ∷ acts) = ground (arith, any-enforcing acts)

-- The decision of `eventDisposition` on its five tests.
abbrev decided : Bool → Bool → Bool → Bool → Bool → Text
decided block limited sanitized detect log =
    if block
    then codes "blocked"
    else if limited
    then codes "rate_limited"
    else if sanitized
    then codes "sanitized"
    else if detect
    then codes "detected"
    else if log
    then codes "observed"
    else codes "allowed"

decided_enforced :
    (block limited sanitized detect log : Bool)
    → passes_action (codes "enforced") (decided block limited sanitized detect log)
      ≡ (block || limited || sanitized)
unfolding passes_action
decided_enforced true l s d o = refl
decided_enforced false true s d o = refl
decided_enforced false false true d o = refl
decided_enforced false false false true o = refl
decided_enforced false false false false true = refl
decided_enforced false false false false false = refl

-- The filter "Enforced" shows exactly the events of which some match was blocked, rate limited or sanitized,
-- whatever other matches they have and in whatever order.
pub passes_action_enforced :
    (acts : List Value)
    → passes_action (codes "enforced") (disposition_of acts) ≡ any is_enforcing acts
unfolding disposition_of
passes_action_enforced acts =
    decided_enforced (any (is_text (codes "block")) acts)
      (any (is_text (codes "rate_limited")) acts) (any (is_text (codes "sanitized")) acts)
      (any (is_text (codes "detect")) acts)
      (not (is_empty acts) && every (is_text (codes "log")) acts)
    ∙ sym (any-enforcing acts)

-- Without filters every event is shown.
pub filtered_clear :
    (lower : Text → Text) (f : Filters) (events : List Value)
    → filtered lower (clear_filters f) events ≡ events
unfolding filtered passes
filtered_clear lower f [] = refl
filtered_clear lower f (e ∷ events) = ap (λ l. e ∷ l) (filtered_clear lower f events)
