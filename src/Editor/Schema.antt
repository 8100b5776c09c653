-- ===== src/Editor/Schema.antt =====
-- components/JsonEditor.jsx, lines 11 to 77: the keys and values that the editor of a rule or an override knows.
use karna.Common.{Bool, true, false, Option, none, some, List, [], ◌∷◌, map, if◌then◌else◌}
use karna.Text.{Text, codes, text_eq}

-- The keys of an object, each with what it is for.
abbrev pub Keys : Type 0
Keys = List (Text × Text)

abbrev pub top_keys : Keys
top_keys =
    (codes "id", codes "Unique rule id")
    ∷ (codes "phase", codes "access | header_filter | body_filter | mcp_event")
    ∷ (codes "message", codes "Human-readable description")
    ∷ (codes "log", codes "Emit an audit entry (default true)")
    ∷ (codes "tags", codes "Array of tags")
    ∷ (codes "paranoia_level", codes "1–4")
    ∷ (codes "conditions", codes "Array of match conditions")
    ∷ (codes "action", codes "What to do on match")
    ∷ (codes "rule_control", codes "Per-request rule controls")
    ∷ []

abbrev pub cond_keys : Keys
cond_keys =
    (codes "variables", codes "Array of variable names to inspect")
    ∷ (codes "op", codes "Operator")
    ∷ (codes "value", codes "Operator value / pattern")
    ∷ (codes "transform", codes "Array of transforms applied before the operator")
    ∷ (codes "negated", codes "Invert the operator")
    ∷ (codes "multi_match", codes "Collect all matching values")
    ∷ []

abbrev pub action_keys : Keys
action_keys =
    (codes "fixed_response", codes "Terminate with a fixed response (block)")
    ∷ (codes "fix_matched_parts", codes "Sanitize matched chars, pass upstream")
    ∷ (codes "setvar", codes "Set a tx.* variable")
    ∷ (codes "set_variable", codes "Write into kong.ctx.plugin / .shared")
    ∷ (codes "rate_limit", codes "Redis fixed-window rate limit")
    ∷ (codes "redis_set", codes "Write a Redis key")
    ∷ (codes "redis_sadd", codes "Add to a Redis set")
    ∷ (codes "redis_del", codes "Delete a Redis key")
    ∷ (codes "set_log_fields", codes "Add custom audit fields")
    ∷ []

abbrev pub fixed_response_keys : Keys
fixed_response_keys =
    (codes "status_code", codes "HTTP status (default 403)")
    ∷ (codes "body", codes "Response body (static text)")
    ∷ (codes "headers", codes "Response headers object")
    ∷ []

abbrev pub rate_limit_keys : Keys
rate_limit_keys =
    (codes "key", codes "Macro key, default %{remote_addr}")
    ∷ (codes "limit", codes "Max requests")
    ∷ (codes "window_seconds", codes "Window size")
    ∷ (codes "response", codes "Response when exceeded")
    ∷ []

abbrev pub fix_keys : Keys
fix_keys = (codes "remove_chars_pattern", codes "Chars to strip, e.g. [<>\"'&;|`$()]") ∷ []

abbrev pub selector_keys : Keys
selector_keys =
    (codes "ids", codes "Rule ids to match (array)")
    ∷ (codes "id_ranges", codes "Ranges e.g. 942000-942999")
    ∷ (codes "tags", codes "Match rules by tag")
    ∷ (codes "except_ids", codes "Exclude these ids")
    ∷ (codes "except_tags", codes "Exclude these tags")
    ∷ (codes "any", codes "Match every rule (true)")
    ∷ []

abbrev pub ovr_action_keys : Keys
ovr_action_keys =
    (codes "type", codes "fix | passthrough | block")
    ∷ (codes "remove_chars_pattern", codes "Chars to strip (type=fix)")
    ∷ []

abbrev pub ovr_response_keys : Keys
ovr_response_keys =
    (codes "status_code", codes "HTTP status")
    ∷ (codes "body", codes "Body (static text)")
    ∷ (codes "headers", codes "Headers object")
    ∷ []

abbrev pub phases : List Text
phases = codes "access" ∷ codes "header_filter" ∷ codes "body_filter" ∷ codes "mcp_event" ∷ []

abbrev pub ops : List Text
ops =
    codes "rx"
    ∷ codes "eq"
    ∷ codes "ge"
    ∷ codes "gt"
    ∷ codes "lt"
    ∷ codes "le"
    ∷ codes "beginsWith"
    ∷ codes "endsWith"
    ∷ codes "contains"
    ∷ codes "isSet"
    ∷ codes "pm"
    ∷ codes "pmFromFile"
    ∷ codes "within"
    ∷ codes "ipMatch"
    ∷ codes "libinjection_sqli"
    ∷ codes "libinjection_xss"
    ∷ codes "validateUrlEncoding"
    ∷ codes "validateByteRange"
    ∷ codes "validateUtf8Encoding"
    ∷ codes "unconditionalMatch"
    ∷ codes "mcp_method_in"
    ∷ codes "mcp_jsonrpc_valid"
    ∷ []

abbrev pub transforms : List Text
transforms =
    codes "none"
    ∷ codes "lowercase"
    ∷ codes "uppercase"
    ∷ codes "urlDecode"
    ∷ codes "urlDecodeUni"
    ∷ codes "htmlEntityDecode"
    ∷ codes "removeWhitespace"
    ∷ codes "compressWhitespace"
    ∷ codes "removeNulls"
    ∷ codes "replaceNulls"
    ∷ codes "normalizePath"
    ∷ codes "base64Decode"
    ∷ codes "base64Encode"
    ∷ codes "hexDecode"
    ∷ codes "cssDecode"
    ∷ codes "jsDecode"
    ∷ codes "cmdLine"
    ∷ codes "length"
    ∷ codes "sha1"
    ∷ codes "md5"
    ∷ []

abbrev pub variables : List Text
variables =
    codes "request.arg.value"
    ∷ codes "request.arg.name"
    ∷ codes "request.uri.path"
    ∷ codes "request.method"
    ∷ codes "request.body"
    ∷ codes "request.header.value:user-agent"
    ∷ codes "request.header.value:content-type"
    ∷ codes "request.header.name"
    ∷ codes "request.cookie.value"
    ∷ codes "request.cookie.name"
    ∷ codes "request.query.value"
    ∷ codes "request.remote_addr"
    ∷ codes "request.line"
    ∷ codes "geoip.country_code"
    ∷ codes "asn.id"
    ∷ []

-- A value to offer; a number is given by its decimal text.
pub data Offer : Type 0 where
  flag : Bool → Offer
  number word : Text → Offer

abbrev pub bool_values : List Offer
bool_values = flag true ∷ flag false ∷ []

abbrev words : List Text → List Offer
words ts = map word ts

abbrev pub statuses : List Offer
statuses = map number (codes "403" ∷ codes "401" ∷ codes "429" ∷ codes "400" ∷ codes "200" ∷ [])

abbrev pub rule_values : List (Text × List Offer)
rule_values =
    (codes "phase", words phases)
    ∷ (codes "op", words ops)
    ∷ (codes "transform", words transforms)
    ∷ (codes "variables", words variables)
    ∷ (codes "negated", bool_values)
    ∷ (codes "multi_match", bool_values)
    ∷ (codes "log", bool_values)
    ∷ (codes "status_code", statuses)
    ∷ (codes "paranoia_level", map number (codes "1" ∷ codes "2" ∷ codes "3" ∷ codes "4" ∷ []))
    ∷ (codes "limit", map number (codes "10" ∷ codes "50" ∷ codes "100" ∷ codes "1000" ∷ []))
    ∷ (codes "window_seconds", map number (codes "10" ∷ codes "60" ∷ codes "300" ∷ []))
    ∷ []

-- The keys of an object by its role, and the values by their key.
pub record Schema : Type 0 where
  pub roles : List (Text × Keys)
  pub values : List (Text × List Offer)

pub data SchemaKind : Type 0 where
  rule override_action override_response : SchemaKind

abbrev pub schema_of : SchemaKind → Schema
schema_of rule = record {
  roles =
      (codes "root", top_keys)
      ∷ (codes "conditions", cond_keys)
      ∷ (codes "action", action_keys)
      ∷ (codes "fixed_response", fixed_response_keys)
      ∷ (codes "response", fixed_response_keys)
      ∷ (codes "rate_limit", rate_limit_keys)
      ∷ (codes "fix_matched_parts", fix_keys)
      ∷ [];
  values = rule_values;
}
schema_of override_action = record {
  roles =
      (
        codes "root",
        (codes "selector", codes "Which rules this targets")
            ∷ (codes "action", codes "What to do on a match")
            ∷ [],
      )
      ∷ (codes "selector", selector_keys)
      ∷ (codes "action", ovr_action_keys)
      ∷ [];
  values =
      (codes "type", words (codes "fix" ∷ codes "passthrough" ∷ codes "block" ∷ []))
      ∷ (codes "any", bool_values)
      ∷ [];
}
schema_of override_response = record {
  roles =
      (
        codes "root",
        (codes "selector", codes "Which rules this targets")
            ∷ (codes "response", codes "Custom block response")
            ∷ [],
      )
      ∷ (codes "selector", selector_keys)
      ∷ (codes "response", ovr_response_keys)
      ∷ [];
  values = (codes "any", bool_values) ∷ (codes "status_code", statuses) ∷ [];
}

-- `object[key]`, for a key that no object inherits
unfoldable pub look_up : {A : Type 0} → Text → List (Text × A) → Option A
unfolding text_eq
look_up key [] = none
look_up key ((k, a) ∷ entries) = if text_eq k key then some a else look_up key entries
