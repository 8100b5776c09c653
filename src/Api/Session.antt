-- ===== src/Api/Session.antt =====
-- data/api.js, lines 9 to 66: the token of this tab, and what one answer of the backend makes of it.
pub mod Calls
pub mod Expired
use karna.Common.{
  ℕ, String, Bool, true, false, not, ◌&&◌, ◌||◌, Option, none, some, List, [], ◌∷◌, ◌++◌, leb, ltb,
  ◌==◌, if◌then◌else◌,
}
use karna.Text.{Text, codes, is_empty, is_some, strip_prefix, starts_with}
use karna.Value.{
  Value, undefined, null, str, Properties, no_properties, property, get, get_field, set_field,
  is_truthy, text_or_empty, to_text, spread,
}
use karna.Settings.Config.{spread_over}

-- The token in memory, what `sessionStorage` holds, and the email of the user who is signed in.
pub record Session : Type 0 where
  pub token : Option Text
  pub stored : Option Text
  pub email : Option Text

-- `t || null`
abbrev pub text_or_null : Text → Option Text
text_or_null [] = none
text_or_null (c ∷ t) = some (c ∷ t)

abbrev pub nonempty : Option Text → Option Text
nonempty none = none
nonempty (some t) = text_or_null t

-- The session of a tab that opens, where the storage may be blocked.
abbrev pub open_session : Bool → Option Text → Session
open_session blocked stored = record {
  token = if blocked then none else nonempty stored;
  stored = stored;
  email = none;
}

-- `setToken(t)`; a storage that is blocked keeps what it has.
unfoldable pub set_token : Bool → Option Text → Session → Session
set_token blocked t s = record s { token = t; stored = if blocked then s.stored else t }

-- `setToken(null)` and the function that `onUnauthorized` was given
unfoldable pub end_session : Bool → Session → Session
unfolding set_token
end_session blocked s = record (set_token blocked none s) { email = none }

pub record Request : Type 0 where
  pub method : Text
  pub path : Text
  pub body : Option Text

-- A call that reaches no backend, or its answer.
pub data Answer : Type 0 where
  unreachable : Text → Answer
  answer : ℕ → Text → Answer

pub record Failure : Type 0 where
  pub message : Text
  pub status : Option ℕ

pub data Outcome : Type 0 where
  data_of : Value → Outcome
  failed : Failure → Outcome

-- The headers of a call: those that it names, the token, and the type of a body.
abbrev pub authorize : Option Text → Properties → Properties
authorize none headers = headers
authorize (some t) headers = set_field "authorization" (str (codes "Bearer " ++ t)) headers

abbrev pub with_type : Option Text → Properties → Properties
with_type none headers = headers
with_type (some body) headers =
    if not (is_empty body) && not (is_truthy (get_field "content-type" headers))
    then set_field "content-type" (str (codes "application/json")) headers
    else headers

unfoldable pub headers_of : Session → Request → Properties → Properties
unfolding spread_over set_field is_truthy get_field
headers_of s r headers = with_type r.body (
    authorize s.token
      (spread_over (property "accept" (str (codes "application/json")) no_properties) headers))

-- `res.ok`
abbrev pub is_ok : ℕ → Bool
is_ok status = leb 200 status && ltb status 300

unfoldable pub is_auth_path : Text → Bool
unfolding strip_prefix
is_auth_path path = starts_with (codes "/api/auth/") path

-- `(data && data.detail) || fallback`
abbrev pub detail_or : Value → Text → Text
detail_or v fallback = if is_truthy (get "detail" v) then to_text (get "detail" v) else fallback

abbrev pub or_text : Option Value → Text → Value
or_text none text = str text
or_text (some v) text = v

-- `JSON.parse` and the printing of a number are parameters.
module _ (parse : Text → Option Value) (print : ℕ → Text) where
  -- `data`: null for no text, and the text itself where it is no JSON
  abbrev pub read_body : Text → Value
  read_body text = if is_empty text then null else or_text (parse text) text

  abbrev pub generic : ℕ → Text
  generic status = codes "Error " ++ print status

  unfoldable pub outcome_of : ℕ → Text → Outcome
  unfolding is_truthy get to_text
  outcome_of status text =
      if status == 401
      then failed (record {
        message = detail_or (read_body text) (codes "Authentication required");
        status = some 401;
      })
      else if is_ok status
      then data_of (read_body text)
      else failed
          (record { message = detail_or (read_body text) (generic status); status = some status })

  -- `apiFetch(path, opts)`, from the answer on
  unfoldable pub api_fetch : Bool → Request → Answer → Session → Session × Outcome
  unfolding outcome_of end_session is_auth_path
  api_fetch blocked r (unreachable message) s =
      (s, failed (record { message = message; status = none }))
  api_fetch blocked r (answer status text) s = (
    if status == 401 && not (is_auth_path r.path) then end_session blocked s else s,
    outcome_of status text,
  )

  -- The answer of a stream before its body: `some` is the error that is thrown.
  abbrev pub stream_detail : Option Value → Text → Text
  stream_detail none fallback = fallback
  stream_detail (some v) fallback = detail_or v fallback

  unfoldable pub open_stream : Bool → Answer → Bool → Session → Session × Option Failure
  unfolding end_session is_truthy get to_text
  open_stream blocked (unreachable message) has_body s =
      (s, some (record { message = message; status = none }))
  open_stream blocked (answer status text) has_body s = (
    if status == 401 then end_session blocked s else s,
    if not (is_ok status)
        then some
            (record { message = stream_detail (parse text) (generic status); status = some status })
        else if has_body
        then none
        else some (record {
          message = codes "Streaming is not supported by this browser";
          status = none;
        }),
  )
