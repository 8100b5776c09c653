-- ===== src/Overrides/Form/RoundTrip.antt =====
-- An override that the form opens and builds again.
use karna.Common.{
  ◌≡◌, refl, sym, ap, ap₂, ◌∙◌, false, not, ◌&&◌, some, [], ◌∷◌, All, arith, if◌then◌else◌,
}
use karna.Text.{Text, codes, text_eq, is_empty, trim}
use karna.Overrides.{parse_headers, serialize_headers}
use karna.Overrides.Lists.{IsItem, split_list-join_list}
use karna.Overrides.HeaderLines.{IsHeader, AreNew, parse-serialize_headers}
use karna.Overrides.Form.{
  Stored, action_or_none, response_or_none, Selector, Action, Response, Entry, action_entry,
  response_entry, fill, fields_of, build_selector, build_action, build_response, build_entry,
  default_chars, or_text, number_or_403, status_or,
}

-- The lists of a selector hold only items that a list of the form can hold.
pub record IsListed (s : Selector) : Type 0 where
  pub ids : All IsItem s.ids
  pub id_ranges : All IsItem s.id_ranges
  pub tags : All IsItem s.tags
  pub except_ids : All IsItem s.except_ids
  pub except_tags : All IsItem s.except_tags

-- An action has a type, and characters to remove exactly if it is a fix.
pub record IsAction (a : Action) : Type 0 where
  pub typed : is_empty a.type ≡ false
  pub has_chars : not (is_empty (trim a.remove_chars_pattern)) ≡ text_eq a.type (codes "fix")
  pub no_blank : is_empty (trim a.remove_chars_pattern) ≡ is_empty a.remove_chars_pattern

build_selector-fill :
    (sel : Selector) (act : Action) (resp : Response)
    → IsListed sel
    → build_selector (fill sel act resp) ≡ sel
unfolding build_selector fill
build_selector-fill sel act resp h =
    rw
      (
        split_list-join_list sel.ids h.ids,
        split_list-join_list sel.id_ranges h.id_ranges,
        split_list-join_list sel.tags h.tags,
        split_list-join_list sel.except_ids h.except_ids,
        split_list-join_list sel.except_tags h.except_tags,
      )
      refl

or_text-full : (t fallback : Text) → is_empty t ≡ false → or_text t fallback ≡ t
or_text-full [] fallback h = absurd cc
or_text-full (c ∷ t) fallback h = refl

chars_kept :
    (chars type : Text)
    → not (is_empty (trim chars)) ≡ text_eq type (codes "fix")
    → is_empty (trim chars) ≡ is_empty chars
    → (if text_eq type (codes "fix") && not (is_empty (trim (or_text chars default_chars)))
        then or_text chars default_chars
        else [])
      ≡ chars
chars_kept [] type h k = ground arith
chars_kept (c ∷ s) type h k = ground arith

build_action-fill :
    (sel : Selector) (act : Action) (resp : Response)
    → IsAction act
    → build_action (fill sel act resp) ≡ act
unfolding build_action fill
build_action-fill sel act resp h =
    ap₂ (λ t c. record { type = t; remove_chars_pattern = c })
      (or_text-full act.type (codes "passthrough") h.typed)
      (ap
          (λ t.
            if text_eq t (codes "fix")
              && not (is_empty (trim (or_text act.remove_chars_pattern default_chars)))
            then or_text act.remove_chars_pattern default_chars
            else [])
          (or_text-full act.type (codes "passthrough") h.typed)
        ∙ chars_kept act.remove_chars_pattern act.type h.has_chars h.no_blank)

module _ (number : Text → Text) where
  -- A response has a status that is a number but 0, a body that is not blank unless it is absent, and headers
  -- that each can stand on a line of their own, with different names.
  pub record IsResponse (r : Response) : Type 0 where
    pub status : Text
    pub has_status : r.status_code ≡ some status
    pub is_number : number_or_403 (number status) ≡ status
    pub no_blank : is_empty (trim r.body) ≡ is_empty r.body
    pub lines : All IsHeader r.headers
    pub distinct : AreNew [] r.headers

  body_kept :
      (body : Text)
      → is_empty (trim body) ≡ is_empty body
      → (if is_empty (trim body) then [] else body) ≡ body
  body_kept [] h = rw h refl
  body_kept (c ∷ s) h = rw h refl

  build_response-fill :
      (sel : Selector) (act : Action) (resp : Response)
      → IsResponse resp
      → build_response number (fill sel act resp) ≡ resp
  unfolding build_response fill
  build_response-fill sel act resp h =
      ap₂
        (λ status body. record {
          status_code = status;
          body = body;
          headers = parse_headers (serialize_headers resp.headers);
        })
        (ap (λ s. some (number_or_403 (number (status_or s)))) h.has_status
          ∙ ap some h.is_number
          ∙ sym h.has_status)
        (body_kept resp.body h.no_blank)
      ∙ ap (λ hs. record { status_code = resp.status_code; body = resp.body; headers = hs })
          (parse-serialize_headers resp.headers h.lines h.distinct)

  abbrev pub kind_of : Entry → Text
  kind_of (action_entry sel act) = codes "action"
  kind_of (response_entry sel resp) = codes "response"

  abbrev pub IsStored : Entry → Type 0
  IsStored (action_entry sel act) = IsListed sel × IsAction act
  IsStored (response_entry sel resp) = IsListed sel × IsResponse resp

  -- What the form knows of a stored override: its selector and the part of its kind.
  abbrev pub IsKnown : Stored → Entry → Type 0
  IsKnown st (action_entry sel act) = (st.selector ≡ sel) × (st.action ≡ some act)
  IsKnown st (response_entry sel resp) = (st.selector ≡ sel) × (st.response ≡ some resp)

  -- An override that the form opens for editing is built again with the same selector and the same part of its
  -- kind, and without the part of the other kind and any other property that was stored; an empty list or text and
  -- an `any` that is false count as absent. The conditions are: the items of the selector's lists are trimmed, not
  -- empty and free of commas; an action has a type, and, exactly if it is a fix, characters to remove that are not
  -- blank; a response has a number as its status, which `Number` reads as itself and not as 0 or NaN, a body that is
  -- absent or not blank, and headers with different names, each name not empty, trimmed and free of colons, each
  -- value trimmed, and neither with a line feed.
  pub build_entry-fields_of :
      (st : Stored) (entry : Entry)
      → IsKnown st entry
      → IsStored entry
      → build_entry number (kind_of entry) (fields_of (some st)) ≡ entry
  unfolding build_entry fields_of
  build_entry-fields_of st (action_entry sel act) (same_sel, same_act) (listed, action) =
      let resp = response_or_none st.response in
      ap₂ action_entry
        (ap (λ s. build_selector (fill s (action_or_none st.action) resp)) same_sel
          ∙ build_selector-fill sel (action_or_none st.action) resp listed)
        (ap (λ a. build_action (fill st.selector (action_or_none a) resp)) same_act
          ∙ build_action-fill st.selector act resp action)
  build_entry-fields_of st (response_entry sel resp) (same_sel, same_resp) (listed, response) =
      let act = action_or_none st.action in
      ap₂ response_entry
        (ap (λ s. build_selector (fill s act (response_or_none st.response))) same_sel
          ∙ build_selector-fill sel act (response_or_none st.response) listed)
        (ap (λ r. build_response number (fill st.selector act (response_or_none r))) same_resp
          ∙ build_response-fill st.selector act resp response)
