-- ===== src/Category.antt =====
-- dashboard/web/src/data/categories.js: the attack category of a matched rule. `toLowerCase` is
-- the parameter `lower`; the colour of a category is kept as its text.
pub mod Laws
mod Tests
use karna.Common.{
  Bool, true, false, ◌&&◌, ◌||◌, Option, none, some, List, [], ◌∷◌, map, if◌then◌else◌, any, take,
}
use karna.Text.{Text, codes, text_eq, starts_with, strip_prefix, includes, contains}
use karna.Value.{Value, arr, Elements, elements, text_or_empty, to_text}

-- A row of `CATEGORIES`.
pub record Category : Type 0 where
  pub id : Text
  pub name : Text
  pub color : Text

abbrev pub categories : List Category
categories =
    record { id = codes "sqli"; name = codes "SQL Injection"; color = codes "var(--cat-1)" }
    ∷ record { id = codes "xss"; name = codes "Cross-Site Scripting"; color = codes "var(--cat-1)" }
    ∷ record { id = codes "rce"; name = codes "RCE / Command Inj."; color = codes "var(--cat-1)" }
    ∷ record { id = codes "lfi"; name = codes "Path Traversal / LFI"; color = codes "var(--cat-2)" }
    ∷ record {
      id = codes "rfi";
      name = codes "Remote File Inclusion";
      color = codes "var(--cat-2)";
    }
    ∷ record { id = codes "php"; name = codes "PHP Injection"; color = codes "var(--cat-2)" }
    ∷ record { id = codes "java"; name = codes "Java Attacks"; color = codes "var(--cat-2)" }
    ∷ record { id = codes "generic"; name = codes "Generic / SSRF"; color = codes "var(--cat-3)" }
    ∷ record { id = codes "scanner"; name = codes "Scanner / Recon"; color = codes "var(--cat-3)" }
    ∷ record { id = codes "proto"; name = codes "Protocol Anomaly"; color = codes "var(--cat-3)" }
    ∷ record { id = codes "session"; name = codes "Session Fixation"; color = codes "var(--cat-3)" }
    ∷ record { id = codes "mcp"; name = codes "MCP / JSON-RPC"; color = codes "var(--cat-2)" }
    ∷ record { id = codes "gate"; name = codes "Validation Gate"; color = codes "var(--cat-4)" }
    ∷ record { id = codes "other"; name = codes "Other"; color = codes "var(--fg-3)" }
    ∷ []

abbrev pub gate_ids : List Text
gate_ids =
    codes "method_allowed"
    ∷ codes "uri_path_check_violation"
    ∷ codes "check_request_headers_allowed"
    ∷ codes "check_request_content_type_charset"
    ∷ codes "check_request_content_type_enforce"
    ∷ codes "request_body_parser_violation"
    ∷ codes "limit_arg_num"
    ∷ codes "check_arg_len"
    ∷ []

-- `/^(ka_|gate_|method|content_type|path|arg)/`
abbrev pub gate_prefixes : List Text
gate_prefixes =
    codes "ka_"
    ∷ codes "gate_"
    ∷ codes "method"
    ∷ codes "content_type"
    ∷ codes "path"
    ∷ codes "arg"
    ∷ []

-- The three digits of a CRS family with its category, `PREFIX`. No other key of three characters
-- is found in the source's object.
abbrev pub families : List (Text × Text)
families =
    (codes "913", codes "scanner")
    ∷ (codes "920", codes "proto")
    ∷ (codes "921", codes "proto")
    ∷ (codes "922", codes "proto")
    ∷ (codes "930", codes "lfi")
    ∷ (codes "931", codes "rfi")
    ∷ (codes "932", codes "rce")
    ∷ (codes "933", codes "php")
    ∷ (codes "934", codes "generic")
    ∷ (codes "941", codes "xss")
    ∷ (codes "942", codes "sqli")
    ∷ (codes "943", codes "session")
    ∷ (codes "944", codes "java")
    ∷ []

unfoldable pub find_family : List (Text × Text) → Text → Option Text
unfolding text_eq
find_family [] key = none
find_family ((prefix, category) ∷ fs) key =
    if text_eq prefix key then some category else find_family fs key

unfoldable pub is_gate : Text → Bool
unfolding contains strip_prefix text_eq
is_gate id = contains id gate_ids || any (λ p. starts_with p id) gate_prefixes

-- The fallback on the tags, in lower case.
unfoldable pub category_of_tags : List Text → Text
unfolding includes strip_prefix
category_of_tags t =
    if any (λ x. includes (codes "sqli") x || includes (codes "sql_injection") x) t
    then codes "sqli"
    else if any (λ x. includes (codes "xss") x) t
    then codes "xss"
    else if any (λ x. includes (codes "rce") x || includes (codes "command") x) t
    then codes "rce"
    else if any (λ x. includes (codes "lfi") x) t
    then codes "lfi"
    else if any (λ x. includes (codes "scanner") x) t
    then codes "scanner"
    else codes "other"

-- `(Array.isArray(tags) ? tags : []).map((x) => String(x).toLowerCase())`
unfoldable pub tag_texts : (Text → Text) → Value → List Text
unfolding to_text
tag_texts lower (arr vs) = map (λ v. lower (to_text v)) (elements vs)
tag_texts lower _ = []

-- `if (fam) return fam;` before the rest
abbrev pub family_or : Option Text → Text → Text
family_or (some family) rest = family
family_or none rest = rest

-- The decision on the text of a rule id.
unfoldable pub category_of_id : Text → List Text → Text
category_of_id id tags =
    if starts_with (codes "mcp") id
    then codes "mcp"
    else if is_gate id
    then codes "gate"
    else family_or (find_family families (take 3 id)) (category_of_tags tags)

unfoldable pub category_for_rule : (Text → Text) → Value → Value → Text
unfolding category_of_id is_gate find_family category_of_tags tag_texts text_or_empty
category_for_rule lower rule_id tags = category_of_id (text_or_empty rule_id) (tag_texts lower tags)

unfoldable pub find_category : List Category → Text → Option Category
unfolding text_eq
find_category [] key = none
find_category (c ∷ cs) key = if text_eq c.id key then some c else find_category cs key

abbrev pub other_category : Category
other_category = record { id = codes "other"; name = codes "Other"; color = codes "var(--fg-3)" }

-- `BY_ID[catId] || BY_ID.other`
abbrev pub or_other : Option Category → Category
or_other (some c) = c
or_other none = other_category

unfoldable pub category_meta : Text → Category
unfolding find_category
category_meta cat_id = or_other (find_category categories cat_id)
