-- ===== src/Editor/Complete.antt =====
-- components/JsonEditor.jsx, lines 120 to 195: what the editor offers at the cursor.
pub mod EndOfString
use karna.Common.{
  ℕ, suc, zero, ◌+◌, ◌-◌, Bool, true, false, not, ◌&&◌, ◌||◌, Option, none, some, List, [], ◌∷◌,
  ◌++◌, map, ltb, ◌==◌, if◌then◌else◌, length, take, drop, get_elem?, flat_map,
}
use karna.Text.{Text, codes, is_empty}
use karna.Editor.Schema.{Offer, flag, number, word, Keys, Schema, look_up}
use karna.Editor.Scan.{Frame, Scan, scan}

-- The text after a completion, and the cursor.
pub record Edited : Type 0 where
  pub document : Text
  pub cursor : ℕ

-- `view.dispatch({ changes: { from, to, insert }, selection: { anchor } })`
abbrev pub replace : Text → ℕ → ℕ → Text → Edited
replace document from to insert = record {
  document = take from document ++ (insert ++ drop to document);
  cursor = from + length insert;
}

abbrev pub code_at : ℕ → Text → ℕ → Bool
code_at code document i = elim (get_elem? document i) [ none ↦ false | some c ↦ c == code ]

-- `doc[end] === '"' && doc[end - 1] !== "\\"`; there is no unit before the first one.
abbrev pub ends_string : Text → ℕ → Bool
ends_string document zero = code_at 34 document 0
ends_string document (suc i) = code_at 34 document (suc i) && not (code_at 92 document i)

-- The loop of `endOfString`, with as much fuel as the document has units.
unfoldable pub end_from : ℕ → Text → ℕ → ℕ
end_from zero document end = end
end_from (suc fuel) document end =
    let rest = end_from fuel document (end + 1) in
    if ltb end (length document) && not (code_at 10 document end || ends_string document end)
    then rest
    else end

unfoldable pub end_of_string : Text → ℕ → ℕ
unfolding end_from
end_of_string document to = end_from (length document) document to

-- What an option does when it is chosen: a text in place of the word, the rest of the string replaced by a value, or
-- a string replaced by a key.
pub data Apply : Type 0 where
  insert_text value_body key_string : Text → Apply

pub record Completion : Type 0 where
  pub label : Text
  pub kind : Text
  pub apply : Apply

pub record Completions : Type 0 where
  pub from : ℕ
  pub options : List Completion

abbrev pub bool_text : Bool → Text
bool_text true = codes "true"
bool_text false = codes "false"

abbrev pub quoted : Text → Text
quoted v = codes "\"" ++ (v ++ codes "\"")

-- One item of `optsFromValues`
abbrev pub option_of : Offer → Completion
option_of (flag b) = record {
  label = bool_text b;
  kind = codes "keyword";
  apply = insert_text (bool_text b);
}
option_of (number n) = record { label = n; kind = codes "number"; apply = insert_text n }
option_of (word v) = record { label = v; kind = codes "enum"; apply = insert_text (quoted v) }

abbrev pub word_option : Offer → List Completion
word_option (flag b) = []
word_option (number n) = []
word_option (word v) = record { label = v; kind = codes "enum"; apply = value_body v } ∷ []

abbrev pub key_insert : Text → Text
key_insert k = quoted k ++ codes ": "

-- `strStart + 1`, where `none` is -1
abbrev pub content_start : Option ℕ → ℕ
content_start none = 0
content_start (some i) = i + 1

abbrev pub unless_empty : ℕ → List Completion → Option Completions
unless_empty from [] = none
unless_empty from (o ∷ os) = some (record { from = from; options = o ∷ os })

-- The key whose values are offered, `none` where keys are: an array stands for the key that holds it.
abbrev pub value_key : Frame → Option Text
value_key top = if top.is_object then (if top.expect_value then top.cur_key else none) else top.role

-- The start of the word in front of the cursor, `ctx.matchBefore`, is a parameter: for the units of a value, and for those of a key.
module _ (word_start key_start : Text → ℕ → ℕ) where
  abbrev pub complete_value : Text → ℕ → Scan → Option (List Offer) → Option Completions
  complete_value document pos s none = none
  complete_value document pos s (some values) =
      if s.in_str
      then unless_empty (content_start s.open_at) (flat_map word_option values)
      else some (record { from = word_start document pos; options = map option_of values })

  abbrev pub key_option : Bool → Text × Text → Completion
  key_option in_str (k, detail) = record {
    label = k;
    kind = codes "property";
    apply = if in_str then key_string k else insert_text (key_insert k);
  }

  abbrev pub complete_key : Text → ℕ → Scan → Option Keys → Option Completions
  complete_key document pos s none = none
  complete_key document pos s (some keys) = some (record {
    from = if s.in_str then content_start s.open_at else key_start document pos;
    options = map (key_option s.in_str) keys;
  })

  abbrev pub keys_of : Schema → Option Text → Option Keys
  keys_of schema none = none
  keys_of schema (some role) = look_up role schema.roles

  abbrev pub complete_in : Schema → Text → ℕ → Scan → List Frame → Option Completions
  complete_in schema document pos s [] = none
  complete_in schema document pos s (top ∷ st) = elim (value_key top) [
    | some key ↦ complete_value document pos s (look_up key schema.values)
    | none ↦ if top.is_object then complete_key document pos s (keys_of schema top.role) else none
  ]

  -- `karnaComplete(ctx)` of `makeComplete(schema)`
  unfoldable pub complete : Schema → Text → ℕ → Option Completions
  unfolding scan look_up
  complete schema document pos =
      let s = scan document pos in complete_in schema document pos s s.stack

-- A chosen option changes the document between the start of the completion and the cursor, and up to the end of the
-- string.
unfoldable pub apply_option : Apply → Text → ℕ → ℕ → Edited
unfolding end_of_string
apply_option (insert_text t) document from to = replace document from to t
apply_option (value_body v) document from to = replace document from (end_of_string document to) v
apply_option (key_string k) document from to =
    let end = end_of_string document to in
    replace document (from - 1) (if code_at 34 document end then end + 1 else end) (key_insert k)
