-- ===== src/Overrides/Tests.antt =====
-- An override with a response, its lists and its headers, and a save that is refused.
use karna.Common.{◌≡◌, refl, ◌&&◌, false, true, false, none, some, List, [], ◌∷◌}
use karna.Text.{Text, codes, text_eq, strip, is_space, contains}
use karna.Overrides.{Headers, split_list, join_list, parse_headers, serialize_headers}
use karna.Overrides.Lists.{IsItem, split_list-join_list}
use karna.Overrides.HeaderLines.{IsHeader, AreNew, parse-serialize_headers}
use karna.Overrides.Form.{Stored, Selector, Response, response_entry, fields_of, build_entry}
use karna.Overrides.Form.RoundTrip.{IsListed, IsResponse, build_entry-fields_of}
use karna.Overrides.Save.{Modal, Request, raw, entry_to_send, request_of, question, save}
use karna.Overrides.Save.Unconfirmed.{save-sends_first}
use karna.Mutation.{Effect, asked, requested, Reply, requests}
use karna.Value.{str, no_properties, property}

a_tag-IsItem : IsItem (codes "sqli")
unfolding strip is_space
a_tag-IsItem = record { free = (refl, (refl, (refl, (refl, tt)))); trimmed = refl; nonempty = refl }

abbrev tags : List Text
tags = codes "sqli" ∷ codes "sqli" ∷ []

split_list-join_list_example : split_list (join_list tags) ≡ tags
split_list-join_list_example = split_list-join_list tags (a_tag-IsItem, (a_tag-IsItem, tt))

abbrev headers : Headers
headers = (codes "X-A", codes "b:c") ∷ []

line-IsHeader : IsHeader (codes "X-A", codes "b:c")
unfolding strip is_space
line-IsHeader = record {
  one_name = (refl, (refl, (refl, tt)));
  one_line = (refl, (refl, (refl, (refl, (refl, (refl, (refl, (refl, tt))))))));
  named = refl;
  name_trimmed = refl;
  value_trimmed = refl;
}

headers-AreNew : AreNew [] headers
unfolding contains
headers-AreNew = (refl, tt)

parse-serialize_headers_example : parse_headers (serialize_headers headers) ≡ headers
parse-serialize_headers_example = parse-serialize_headers headers (line-IsHeader, tt) headers-AreNew

abbrev same : Text → Text
same t = t

abbrev selector : Selector
selector = record {
  ids = [];
  id_ranges = [];
  tags = tags;
  except_ids = [];
  except_tags = [];
  any = false;
}

abbrev response : Response
response = record { status_code = some (codes "429"); body = codes "slow down"; headers = headers }

selector-IsListed : IsListed selector
selector-IsListed = record {
  ids = tt;
  id_ranges = tt;
  tags = (a_tag-IsItem, (a_tag-IsItem, tt));
  except_ids = tt;
  except_tags = tt;
}

response-IsResponse : IsResponse same response
unfolding strip is_space text_eq
response-IsResponse = record {
  status = codes "429";
  has_status = refl;
  is_number = refl;
  no_blank = refl;
  lines = (line-IsHeader, tt);
  distinct = headers-AreNew;
}

-- An override with a property that the form does not know.
abbrev stored : Stored
stored = record {
  selector = selector;
  action = none;
  response = some response;
  selector_others = no_properties;
  action_others = no_properties;
  response_others = property "reason" (str (codes "Too many")) no_properties;
  others = no_properties;
}

build_entry-fields_of_example :
    build_entry same (codes "response") (fields_of (some stored)) ≡ response_entry selector response
build_entry-fields_of_example =
    build_entry-fields_of same stored (response_entry selector response) (refl, refl)
      (selector-IsListed, response-IsResponse)

abbrev modal : Modal
modal = record {
  is_edit = false;
  kind = codes "action";
  plugin_id = codes "p1";
  index = 0;
  etag = [];
  is_guided = false;
  fields = fields_of none;
  raw_text = codes "{}";
  mutation = record { pending = false; error = none };
}

raw_sent : entry_to_send same (λ t. true) modal ≡ some (raw (codes "{}"))
unfolding entry_to_send
raw_sent = refl

abbrev refusal : Reply
refusal = record { confirms = false; failure = none }

save-sends_first_example :
    (requests (save same (λ t. true) modal refusal).effects
      ≡ request_of same (λ t. true) modal (raw (codes "{}")) ∷ [])
    × (((es : List (Effect Request)) × ((save same (λ t. true) modal refusal).effects
            ≡ requested (request_of same (λ t. true) modal (raw (codes "{}")))
              ∷ asked (question same (λ t. true) modal)
              ∷ es))
        × ((save same (λ t. true) modal refusal).succeeded ≡ (false && true)))
save-sends_first_example =
    save-sends_first same (λ t. true) modal (raw (codes "{}")) refusal raw_sent
