-- ===== src/Events/Redact.antt =====
-- views/Events.jsx, lines 16 to 83: what is hidden of an event before it is shown or exported.
-- The headers and the uri of an event are an object and a text where they are there at all.
pub mod Secrecy
pub mod Alike
use karna.Common.{
  ℕ, String, Bool, true, false, ◌&&◌, ◌||◌, Option, none, some, List, [], ◌∷◌, ◌++◌, ◌-◌, map, any,
  leb, ◌==◌, if◌then◌else◌,
}
use karna.Text.{Text, codes, text_eq, includes, is_empty}
use karna.Value.{
  Value, undefined, null, bool, num, str, arr, obj, Elements, no_elements, element, Properties,
  no_properties, property, is_truthy, get, text_or_empty, set_field, spread, items_of,
}
use text.Mathlib.Text.{◌==◌ as name_eq}

-- The words of `SENSITIVE_NAME_RE`, in capitals; `api[-_]?key` is three of them.
abbrev pub sensitive_words : List Text
sensitive_words =
    codes "AUTHORIZATION"
    ∷ codes "PROXY-AUTHORIZATION"
    ∷ codes "COOKIE"
    ∷ codes "SET-COOKIE"
    ∷ codes "PASSWORD"
    ∷ codes "PASSWD"
    ∷ codes "PWD"
    ∷ codes "SECRET"
    ∷ codes "TOKEN"
    ∷ codes "APIKEY"
    ∷ codes "API-KEY"
    ∷ codes "API_KEY"
    ∷ codes "SESSION"
    ∷ codes "CREDENTIAL"
    ∷ []

-- `[-_.:[\]]`
unfoldable pub is_separator : ℕ → Bool
is_separator c = c == 45 || c == 95 || c == 46 || c == 58 || c == 91 || c == 93

-- The flag `i` without `u`: no code unit but a Latin letter folds to one of the words' letters.
unfoldable pub upper : ℕ → ℕ
upper c = if leb 97 c && leb c 122 then c - 32 else c

-- What stands behind a word at the start of a text, whatever its case.
unfoldable pub strip_word : Text → Text → Option Text
unfolding upper
strip_word [] s = some s
strip_word (w ∷ word) [] = none
strip_word (w ∷ word) (c ∷ s) = if upper c == w then strip_word word s else none

-- `(?:$|[-_.:[\]])`
abbrev pub ends_word : Option Text → Bool
ends_word none = false
ends_word (some []) = true
ends_word (some (c ∷ s)) = is_separator c

unfoldable pub word_at : Text → Bool
unfolding strip_word is_separator
word_at s = any (λ word. ends_word (strip_word word s)) sensitive_words

-- A match at this place or behind it, where the flag says that a word may begin here.
unfoldable pub sensitive_from : Bool → Text → Bool
unfolding word_at is_separator
sensitive_from begins [] = begins && word_at []
sensitive_from begins (c ∷ s) = (begins && word_at (c ∷ s)) || sensitive_from (is_separator c) s

unfoldable pub is_sensitive_name : Text → Bool
unfolding sensitive_from
is_sensitive_name name = sensitive_from true name

abbrev pub redacted : Value
redacted = str (codes "[REDACTED]")

-- `redactObject` behind its first test, which stands at each property of an object.
unfoldable mutual
  unfolding is_sensitive_name

  pub redact_value : Value → Value
  redact_value undefined = undefined
  redact_value null = null
  redact_value (bool b) = bool b
  redact_value (num t) = num t
  redact_value (str t) = str t
  redact_value (obj fs) = obj (redact_properties fs)
  redact_value (arr vs) = arr (redact_elements vs)

  pub redact_properties : Properties → Properties
  redact_properties no_properties = no_properties
  redact_properties (property k v fs) =
      property k (if is_sensitive_name (codes k) then redacted else redact_value v)
        (redact_properties fs)

  pub redact_elements : Elements → Elements
  redact_elements no_elements = no_elements
  redact_elements (element v vs) = element (redact_value v) (redact_elements vs)

-- `redactObject(value, key)`
unfoldable pub redact_object : Value → Text → Value
unfolding is_sensitive_name redact_value
redact_object value key = if is_sensitive_name key then redacted else redact_value value

-- What `new URL(uri, "http://karna.local")` gives: its search as it stands there, and the parameters that
-- the search decodes to.
pub record Url : Type 0 where
  pub pathname : Text
  pub search : Text
  pub params : List (Text × Text)

-- `searchParams.delete(key)`, and `searchParams.set(key, value)`, which sets the first pair with this key
-- and removes the later ones.
unfoldable pub delete_param : Text → List (Text × Text) → List (Text × Text)
unfolding text_eq
delete_param key [] = []
delete_param key ((k, v) ∷ ps) =
    let rest = delete_param key ps in if text_eq k key then rest else (k, v) ∷ rest

unfoldable pub set_param : Text → Text → List (Text × Text) → List (Text × Text)
unfolding text_eq delete_param
set_param key value [] = (key, value) ∷ []
set_param key value ((k, v) ∷ ps) =
    let rest = set_param key value ps in
    if text_eq k key then (k, value) ∷ delete_param key ps else (k, v) ∷ rest

abbrev pub redacted_text : Text
redacted_text = codes "[REDACTED]"

-- The loop over the keys that were there at first.
unfoldable pub redact_params : List Text → List (Text × Text) → List (Text × Text)
unfolding is_sensitive_name set_param
redact_params [] params = params
redact_params (key ∷ keys) params =
    redact_params keys
      (if is_sensitive_name key then set_param key redacted_text params else params)

abbrev pub param_keys : List (Text × Text) → List Text
param_keys params = map (λ p. p.0) params

-- `redactHeaders`: an object of headers, one property after the other.
unfoldable pub redact_headers : Properties → Properties
unfolding is_sensitive_name
redact_headers no_properties = no_properties
redact_headers (property name value fs) =
    property name (if is_sensitive_name (codes name) then redacted else value) (redact_headers fs)

-- `isSensitiveName(part.on)`, and `redactMatchedPart`
unfoldable pub redact_matched_part : Value → Value
unfolding is_sensitive_name get text_or_empty set_field
redact_matched_part part = obj (
    set_field "value"
      (if is_sensitive_name (text_or_empty (get "on" part)) then redacted else get "value" part)
      (spread part))

unfoldable pub redact_matched_parts : Elements → Elements
unfolding redact_matched_part
redact_matched_parts no_elements = no_elements
redact_matched_parts (element part parts) =
    element (redact_matched_part part) (redact_matched_parts parts)

unfoldable pub redact_matches : Elements → Elements
unfolding redact_matched_parts set_field get
redact_matches no_elements = no_elements
redact_matches (element match matches) =
    element
      (obj (
        set_field "matched_parts"
          (arr (redact_matched_parts (items_of (get "matched_parts" match)))) (spread match)))
      (redact_matches matches)

-- The parser of URLs and the printer of search parameters are parameters; the former has `none` for a text
-- that `URL` throws on. A parameter that was set makes the search be printed again.
module _ (parse_url : Text → Option Url) (print_search : List (Text × Text) → Text) where
  abbrev pub redacted_search : Url → Text
  redacted_search url =
      if any is_sensitive_name (param_keys url.params)
      then print_search (redact_params (param_keys url.params) url.params)
      else url.search

  abbrev pub redact_parsed : Text → Option Url → Text
  redact_parsed uri none = uri
  redact_parsed uri (some url) = url.pathname ++ redacted_search url

  unfoldable pub redact_text_uri : Text → Text
  unfolding includes
  redact_text_uri uri =
      if is_empty uri
      then codes "—"
      else (if includes (codes "?") uri then redact_parsed uri (parse_url uri) else uri)

  unfoldable pub redact_uri : Value → Value
  unfolding redact_text_uri is_truthy
  redact_uri (str uri) = str (redact_text_uri uri)
  redact_uri uri = if is_truthy uri then uri else str (codes "—")

  -- `redactEvent`
  abbrev pub redact_request : Value → Value
  redact_request request = obj (
      set_field "headers" (obj (redact_headers (spread (get "headers" request))))
        (set_field "uri" (redact_uri (get "uri" request)) (spread request)))

  abbrev pub redact_response : Value → Value
  redact_response response = obj (
      set_field "headers" (obj (redact_headers (spread (get "headers" response))))
        (spread response))

  abbrev pub redact_safe : Value → Value
  redact_safe safe = obj (
      set_field "matches" (arr (redact_matches (items_of (get "matches" safe)))) (
        set_field "response" (redact_response (get "response" safe))
          (set_field "request" (redact_request (get "request" safe)) (spread safe))))

  unfoldable pub redact_event : Value → Value
  unfolding redact_object redact_uri redact_headers redact_matches set_field get
  redact_event ev = redact_safe (redact_object ev [])
