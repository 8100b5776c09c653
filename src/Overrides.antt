-- ===== src/Overrides.antt =====
-- components/OverrideModal.jsx, lines 19 to 110: the form of an override, from and to the entry that Kong
-- stores, and what its button does. In a selector a list that is absent is the empty one.
pub mod Lists
pub mod HeaderLines
pub mod Form
pub mod Save
mod Tests
use karna.Common.{
  ℕ, suc, ◌+◌, Bool, true, false, not, ◌&&◌, Option, none, some, List, [], ◌∷◌, ◌++◌, map, keep,
  take, drop, ◌==◌, ltb, if◌then◌else◌,
}
use karna.Text.{Text, codes, text_eq, is_empty, is_space, strip, trim, split_on, join}

-- `s.split(",").map((x) => x.trim()).filter(Boolean)`, and `a.join(", ")`
unfoldable pub split_list : Text → List Text
unfolding split_on strip is_space
split_list s = keep (λ x. not (is_empty x)) (map trim (split_on 44 s))

unfoldable pub join_list : List Text → Text
unfolding join
join_list xs = join (codes ", ") xs

-- `line.indexOf(":")`, `none` for -1
unfoldable pub index_of : ℕ → Text → Option ℕ
index_of d [] = none
index_of d (c ∷ s) =
    let rest = index_of d s in
    if c == d then some 0 else elim rest [ none ↦ none | some i ↦ some (suc i) ]

-- An object of headers, with its names in the order in which they were first set.
abbrev pub Headers : Type 0
Headers = List (Text × Text)

unfoldable pub set_header : Text → Text → Headers → Headers
unfolding text_eq
set_header name value [] = (name, value) ∷ []
set_header name value ((n, v) ∷ hs) =
    let rest = set_header name value hs in if text_eq n name then (n, value) ∷ hs else (n, v) ∷ rest

-- One line of the headers: it counts where a name stands before a colon.
abbrev pub named_header : Text → Text → Headers → Headers
named_header name value out = if is_empty name then out else set_header name value out

unfoldable pub header_at : Text → Option ℕ → Headers → Headers
unfolding strip is_space set_header
header_at line none out = out
header_at line (some i) out =
    if ltb 0 i then named_header (trim (take i line)) (trim (drop (i + 1) line)) out else out

unfoldable pub parse_lines : List Text → Headers → Headers
unfolding header_at index_of
parse_lines [] out = out
parse_lines (line ∷ lines) out = parse_lines lines (header_at line (index_of 58 line) out)

unfoldable pub parse_headers : Text → Headers
unfolding parse_lines split_on
parse_headers text = parse_lines (split_on 10 text) []

abbrev pub header_line : Text × Text → Text
header_line h = h.0 ++ (codes ": " ++ h.1)

unfoldable pub serialize_headers : Headers → Text
unfolding join
serialize_headers hs = join (codes "\n") (map header_line hs)
