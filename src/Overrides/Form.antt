-- ===== src/Overrides/Form.antt =====
-- components/OverrideModal.jsx, lines 34 to 97: the fields of the form, filled from an entry, and the entry
-- that they stand for. A number is kept as the text that `String` gives for it.
pub mod RoundTrip
use karna.Common.{
  Bool, true, false, not, ◌&&◌, ◌||◌, Option, none, some, List, [], ◌∷◌, if◌then◌else◌,
}
use karna.Text.{Text, codes, text_eq, is_empty, is_space, strip, trim}
use karna.Value.{Properties}
use karna.Overrides.{Headers, split_list, join_list, parse_headers, serialize_headers}

pub record Selector : Type 0 where
  pub ids : List Text
  pub id_ranges : List Text
  pub tags : List Text
  pub except_ids : List Text
  pub except_tags : List Text
  pub any : Bool

-- An absent text is the empty one, an absent number `none`, and absent headers are none.
pub record Action : Type 0 where
  pub type : Text
  pub remove_chars_pattern : Text

pub record Response : Type 0 where
  pub status_code : Option Text
  pub body : Text
  pub headers : Headers

-- An entry that the form builds, which has one of the parts.
pub data Entry : Type 0 where
  action_entry : Selector → Action → Entry
  response_entry : Selector → Response → Entry

-- An override as it is stored. Both parts may be there, and other properties, in it and in its parts.
pub record Stored : Type 0 where
  pub selector : Selector
  pub action : Option Action
  pub response : Option Response
  pub selector_others : Properties
  pub action_others : Properties
  pub response_others : Properties
  pub others : Properties

-- The fields of both parts of the form.
pub record Fields : Type 0 where
  pub ids : Text
  pub id_ranges : Text
  pub tags : Text
  pub except_ids : Text
  pub except_tags : Text
  pub any : Bool
  pub action_type : Text
  pub remove_chars : Text
  pub status_code : Text
  pub body : Text
  pub headers : Text

abbrev pub or_text : Text → Text → Text
or_text [] fallback = fallback
or_text (c ∷ s) fallback = c ∷ s

abbrev pub default_chars : Text
default_chars = codes "[<>\"'&;|`$()]"

abbrev pub status_or : Option Text → Text
status_or none = codes "403"
status_or (some status) = status

-- The effect on `state`: a part that the entry does not have is read as an empty one.
unfoldable pub fill : Selector → Action → Response → Fields
unfolding join_list serialize_headers
fill sel act resp = record {
  ids = join_list sel.ids;
  id_ranges = join_list sel.id_ranges;
  tags = join_list sel.tags;
  except_ids = join_list sel.except_ids;
  except_tags = join_list sel.except_tags;
  any = sel.any;
  action_type = or_text act.type (codes "passthrough");
  remove_chars = or_text act.remove_chars_pattern default_chars;
  status_code = status_or resp.status_code;
  body = resp.body;
  headers = serialize_headers resp.headers;
}

abbrev pub no_selector : Selector
no_selector = record {
  ids = [];
  id_ranges = [];
  tags = [];
  except_ids = [];
  except_tags = [];
  any = false;
}

abbrev pub no_action : Action
no_action = record { type = []; remove_chars_pattern = [] }

abbrev pub no_response : Response
no_response = record { status_code = none; body = []; headers = [] }

abbrev pub action_or_none : Option Action → Action
action_or_none none = no_action
action_or_none (some act) = act

abbrev pub response_or_none : Option Response → Response
response_or_none none = no_response
response_or_none (some resp) = resp

unfoldable pub fields_of : Option Stored → Fields
unfolding fill
fields_of none = fill no_selector no_action no_response
fields_of (some st) = fill st.selector (action_or_none st.action) (response_or_none st.response)

unfoldable pub build_selector : Fields → Selector
unfolding split_list
build_selector f = record {
  ids = split_list f.ids;
  id_ranges = split_list f.id_ranges;
  tags = split_list f.tags;
  except_ids = split_list f.except_ids;
  except_tags = split_list f.except_tags;
  any = f.any;
}

unfoldable pub build_action : Fields → Action
unfolding text_eq strip is_space
build_action f = record {
  type = f.action_type;
  remove_chars_pattern =
      if text_eq f.action_type (codes "fix") && not (is_empty (trim f.remove_chars))
      then f.remove_chars
      else [];
}

-- `n || 403` for a number that `Number` gives
abbrev pub number_or_403 : Text → Text
number_or_403 n = if text_eq n (codes "0") || text_eq n (codes "NaN") then codes "403" else n

-- `Number` is a parameter: the text of the number that it reads.
module _ (number : Text → Text) where
  unfoldable pub build_response : Fields → Response
  unfolding strip is_space parse_headers text_eq
  build_response f = record {
    status_code = some (number_or_403 (number f.status_code));
    body = if is_empty (trim f.body) then [] else f.body;
    headers = parse_headers f.headers;
  }

  unfoldable pub build_entry : Text → Fields → Entry
  unfolding build_selector build_action build_response text_eq
  build_entry kind f =
      if text_eq kind (codes "action")
      then action_entry (build_selector f) (build_action f)
      else response_entry (build_selector f) (build_response f)

-- Whether the form selects some rule.
unfoldable pub selector_ok : Fields → Bool
unfolding split_list
selector_ok f =
    not (is_empty (split_list f.ids))
    || not (is_empty (split_list f.id_ranges))
    || not (is_empty (split_list f.tags))
    || f.any
