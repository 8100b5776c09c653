-- ===== src/Exclusion/Target.antt =====
-- exclusions.js, lines 1 to 65: request fields and the targets that name them in a rule.
-- `toLowerCase` is the parameter `lower`.
pub mod RoundTrip
pub mod Normal
use karna.Common.{
  ℕ, ◌&&◌, Option, none, some, List, [], ◌∷◌, ◌++◌, map, ltb, if◌then◌else◌, length, take, drop,
  any,
}
use karna.Text.{
  Text, codes, text_eq, is_empty, is_line_end, is_space, strip, trim, strip_prefix, starts_with,
}
use karna.Value.{Value, text_or_empty}

abbrev pub max_draft_text : ℕ
max_draft_text = 240

abbrev pub max_request_path : ℕ
max_request_path = 2048

-- `clipped(value, max)` on a text; an absent text is the empty one
unfoldable pub clipped_to : ℕ → Text → Text
unfolding strip is_space
clipped_to max s = take max (trim s)

abbrev pub clipped : Text → Text
clipped s = clipped_to max_draft_text s

-- `clipped(value)` on any value
abbrev pub clipped_value : Value → Text
clipped_value v = clipped (text_or_empty v)

-- What `(.+)$` captures: a rest that is nonempty and has no line end.
unfoldable pub rest_of_line : Text → Option Text
unfolding is_line_end
rest_of_line [] = none
rest_of_line (c ∷ s) = if any is_line_end (c ∷ s) then none else some (c ∷ s)

abbrev pub or_else {ℓ} : {A : Type ℓ} → Option A → Option A → Option A
or_else none o = o
or_else (some a) o = some a

abbrev pub captured : Option Text → Option Text
captured none = none
captured (some s) = rest_of_line s

-- A pattern `^(?:p|q|…)(.+)$`: the alternatives in the order in which they are tried.
unfoldable pub match_after : List Text → Text → Option Text
unfolding rest_of_line strip_prefix
match_after [] s = none
match_after (p ∷ ps) s = or_else (captured (strip_prefix p s)) (match_after ps s)

abbrev pub arg_prefix : Text
arg_prefix = codes "request.arg.value:"

abbrev pub header_prefix : Text
header_prefix = codes "request.header.value:"

abbrev pub cookie_prefix : Text
cookie_prefix = codes "request.cookie.value:"

abbrev pub json_prefix : Text
json_prefix = codes "request.body.json.value:"

abbrev pub body_target : Text
body_target = codes "request.body"

-- `^request\.(?:query|arg|body\.urlencode|body\.multipart)\.KIND:`
abbrev pub arg_sources : Text → List Text
arg_sources kind =
    map (λ source. codes "request." ++ (source ++ (codes "." ++ (kind ++ codes ":"))))
      (codes "query" ∷ codes "arg" ∷ codes "body.urlencode" ∷ codes "body.multipart" ∷ [])

-- The first of the templates whose pattern fits, with what it captures put in.
unfoldable pub first_template : List (List Text × (Text → Text)) → Text → Text
unfolding match_after
first_template [] target = target
first_template ((prefixes, fill) ∷ ts) target = elim (match_after prefixes target) [
  | some found ↦ fill found
  | none ↦ first_template ts target
]

pub record RequestField : Type 0 where
  pub type : Text
  pub name : Text

-- `target.startsWith(prefix) && target.length > prefix.length`, over `mappings`
unfoldable pub find_mapping : List (Text × Text) → Text → Option RequestField
unfolding strip_prefix
find_mapping [] target = none
find_mapping ((prefix, type) ∷ ms) target =
    let rest = find_mapping ms target in
    if starts_with prefix target && ltb (length prefix) (length target)
    then some (record { type = type; name = drop (length prefix) target })
    else rest

abbrev pub mappings : List (Text × Text)
mappings =
    (arg_prefix, codes "parameter")
    ∷ (header_prefix, codes "header")
    ∷ (cookie_prefix, codes "cookie")
    ∷ (json_prefix, codes "json")
    ∷ []

unfoldable pub clipped_target_field : Text → Option RequestField
unfolding find_mapping text_eq
clipped_target_field target =
    if text_eq target body_target
    then some (record { type = codes "body"; name = [] })
    else find_mapping mappings target

unfoldable pub request_field_from_target : Text → Option RequestField
unfolding clipped_to clipped_target_field
request_field_from_target value = clipped_target_field (clipped value)

unfoldable pub with_arg_prefix : Text → Text
unfolding strip_prefix
with_arg_prefix target =
    if is_empty target
    then []
    else if starts_with (codes "request.") target
    then target
    else arg_prefix ++ target

unfoldable pub normalize_exclusion_target : Text → Text
unfolding clipped_to with_arg_prefix
normalize_exclusion_target value = with_arg_prefix (clipped value)

module _ (lower : Text → Text) where
  -- The patterns of `exclusionTargetFromMatchedAt` in order, and what each returns.
  abbrev pub templates : List (List Text × (Text → Text))
  templates =
      (arg_sources (codes "value"), λ n. arg_prefix ++ n)
      ∷ (arg_sources (codes "name"), λ n. codes "request.arg.name:" ++ n)
      ∷ (codes "request.args." ∷ codes "request.arg." ∷ [], λ n. arg_prefix ++ n)
      ∷ (codes "request.headers." ∷ codes "request.header." ∷ [], λ n. header_prefix ++ lower n)
      ∷ (codes "request.cookies." ∷ codes "request.cookie." ∷ [], λ n. cookie_prefix ++ n)
      ∷ (codes "request.body.json.value:" ∷ codes "request.body.json." ∷ [], λ n. json_prefix ++ n)
      ∷ []

  unfoldable pub exclusion_target_from_matched_at : Text → Text
  unfolding clipped_to first_template
  exclusion_target_from_matched_at matched_at = first_template templates (clipped matched_at)

  -- The target of a type and a clipped name.
  unfoldable pub named_target : Text → Text → Text
  unfolding text_eq
  named_target type name =
      if text_eq type (codes "body")
      then body_target
      else if is_empty name
      then []
      else if text_eq type (codes "parameter")
      then arg_prefix ++ name
      else if text_eq type (codes "header")
      then header_prefix ++ lower name
      else if text_eq type (codes "cookie")
      then cookie_prefix ++ name
      else if text_eq type (codes "json")
      then json_prefix ++ name
      else []

  unfoldable pub request_field_to_target : RequestField → Text
  unfolding clipped_to named_target
  request_field_to_target f = named_target f.type (clipped f.name)
