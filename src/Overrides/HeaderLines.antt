-- ===== src/Overrides/HeaderLines.antt =====
-- The headers of a response that the form prints and reads again.
use karna.Common.{
  ℕ, suc, ◌+◌, ◌<◌, ◌≡◌, refl, sym, ap, ◌∙◌, Bool, false, ◌||◌, some, List, [], ◌∷◌, ◌++◌, map, All,
  append-nil, append_assoc, arith, take, drop, length, ◌==◌, lt→ltb,
}
use karna.Text.{Text, codes, text_eq, is_empty, trim, split_on, join, contains}
use karna.Text.Split.{IsFree}
use karna.Overrides.{
  Headers, index_of, header_at, header_line, parse_lines, parse_headers, serialize_headers,
  set_header,
}
use karna.Overrides.Lists.{split_on_free, split_on-cons}

-- A header that can stand on a line of its own.
pub record IsHeader (h : Text × Text) : Type 0 where
  pub one_name : IsFree (λ c. c == 58) h.0
  pub one_line : IsFree (λ c. c == 10) (header_line h)
  pub named : is_empty h.0 ≡ false
  pub name_trimmed : trim h.0 ≡ h.0
  pub value_trimmed : trim h.1 ≡ h.1

abbrev pub names : Headers → List Text
names hs = map (λ h. h.0) hs

-- The names of these headers are new behind those that were set before them.
abbrev pub AreNew : Headers → Headers → Type 0
AreNew out [] = Unit
AreNew out (h ∷ hs) = (contains h.0 (names out) ≡ false) × AreNew (out ++ (h ∷ [])) hs

index_of-name :
    (name t : Text)
    → IsFree (λ c. c == 58) name
    → index_of 58 (name ++ (58 ∷ t)) ≡ some (length name)
unfolding index_of
index_of-name [] t h = refl
index_of-name (c ∷ s) t (h, hs) = rw (h, index_of-name s t hs) refl

take-name : (name t : Text) → take (length name) (name ++ t) ≡ name
take-name [] t = refl
take-name (c ∷ s) t = ap (λ l. c ∷ l) (take-name s t)

drop-name : (name t : Text) (c : ℕ) → drop (length name + 1) (name ++ (c ∷ t)) ≡ t
drop-name [] t c = refl
drop-name (d ∷ s) t c =
    let e : suc (length s) + 1 ≡ suc (length s + 1) = omega arith in rw e (drop-name s t c)

length_pos : (s : Text) → is_empty s ≡ false → 0 < length s
length_pos [] h = absurd cc
length_pos (c ∷ s) h = omega arith

header_at-line :
    (h : Text × Text) (out : Headers)
    → IsHeader h
    → header_at (header_line h) (index_of 58 (header_line h)) out ≡ set_header h.0 h.1 out
unfolding header_at
header_at-line (name, value) out h =
    rw
      (
        index_of-name name (32 ∷ value) h.one_name,
        lt→ltb 0 (length name) (length_pos name h.named),
        take-name name (58 ∷ 32 ∷ value),
        drop-name name (32 ∷ value) 58,
        h.name_trimmed,
        h.named,
      )
      (ap (λ v. set_header name v out) h.value_trimmed)

or-false : (a b : Bool) → (a || b) ≡ false → (a ≡ false) × (b ≡ false)
or-false a b h = ground arith

set_header-new :
    (name value : Text) (out : Headers)
    → contains name (names out) ≡ false
    → set_header name value out ≡ out ++ ((name, value) ∷ [])
unfolding set_header contains
set_header-new name value [] h = refl
set_header-new name value ((n, v) ∷ out) h =
    let (here, later) = or-false (text_eq n name) (contains name (names out)) h in
    rw here (ap (λ l. (n, v) ∷ l) (set_header-new name value out later))

parse_lines-headers :
    (hs out : Headers)
    → All IsHeader hs
    → AreNew out hs
    → parse_lines (map header_line hs) out ≡ out ++ hs
unfolding parse_lines
parse_lines-headers [] out h new = sym (append-nil out)
parse_lines-headers (h ∷ hs) out (good, goods) (new, news) =
    ap (parse_lines (map header_line hs))
      (header_at-line h out good ∙ set_header-new h.0 h.1 out new)
    ∙ parse_lines-headers hs (out ++ (h ∷ [])) goods news
    ∙ append_assoc out (h ∷ []) hs

split_lines :
    (h : Text × Text) (hs : Headers)
    → All IsHeader (h ∷ hs)
    → split_on 10 (serialize_headers (h ∷ hs)) ≡ map header_line (h ∷ hs)
unfolding serialize_headers
split_lines h [] (good, goods) = split_on_free 10 (header_line h) good.one_line
split_lines h (k ∷ hs) (good, goods) =
    split_on-cons 10 (header_line h) (join (codes "\n") (map header_line (k ∷ hs))) good.one_line
      refl
    ∙ ap (λ ls. header_line h ∷ ls) (split_lines k hs goods)

-- Headers with different names are read again as they were printed, if each name is not empty, trimmed and free
-- of colons, each value trimmed, and neither holds a line feed.
pub parse-serialize_headers :
    (hs : Headers) → All IsHeader hs → AreNew [] hs → parse_headers (serialize_headers hs) ≡ hs
unfolding parse_headers
parse-serialize_headers [] good new =
    unfold serialize_headers split_on parse_lines header_at index_of in refl
parse-serialize_headers (h ∷ hs) good new =
    ap (λ ls. parse_lines ls []) (split_lines h hs good) ∙ parse_lines-headers (h ∷ hs) [] good new
