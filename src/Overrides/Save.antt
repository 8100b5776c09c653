-- ===== src/Overrides/Save.antt =====
-- components/OverrideModal.jsx, lines 99 to 110: what the button of the form does.
pub mod Unconfirmed
use karna.Common.{
  ℕ, Bool, true, false, not, ◌&&◌, ◌≡◌, refl, ◌⊎◌, inl, inr, Option, none, some, List, [], ◌∷◌,
  ◌++◌, if◌then◌else◌,
}
use karna.Text.{Text, codes, text_eq, is_empty, is_space, strip, trim}
use karna.Mutation.{
  Effect, asked, requested, refreshed, closed, Reply, Mutation, Run, run, then_close, requests,
}
use karna.Overrides.Form.{Entry, Fields, build_entry, selector_ok}

-- The entry of a request: one that the form built, or the text of a JSON value.
pub data Sent : Type 0 where
  built : Entry → Sent
  raw : Text → Sent

pub data Request : Type 0 where
  add_override : Text → Text → Sent → Request
  edit_override : Text → Text → ℕ → Sent → Text → Request

pub record Modal : Type 0 where
  pub is_edit : Bool
  pub kind : Text
  pub plugin_id : Text
  pub index : ℕ
  pub etag : Text
  pub is_guided : Bool
  pub fields : Fields
  pub raw_text : Text
  pub mutation : Mutation

unfoldable pub can_save : Modal → Bool
unfolding selector_ok strip is_space
can_save m =
    not m.mutation.pending
    && not (is_empty m.plugin_id)
    && (if m.is_guided then selector_ok m.fields else not (is_empty (trim m.raw_text)))

-- `Number` and whether `JSON.parse` takes a text are parameters.
module _ (number : Text → Text) (parses : Text → Bool) where
  -- The entry to send, `none` where the text is no JSON.
  unfoldable pub entry_to_send : Modal → Option Sent
  unfolding build_entry
  entry_to_send m =
      if m.is_guided
      then some (built (build_entry number m.kind m.fields))
      else if parses m.raw_text
      then some (raw m.raw_text)
      else none

  abbrev pub request_of : Modal → Sent → Request
  request_of m entry =
      if m.is_edit
      then edit_override m.plugin_id m.kind m.index entry m.etag
      else add_override m.plugin_id m.kind entry

  abbrev pub question : Modal → Text
  question m =
      (if m.is_edit then codes "Save" else codes "Add")
      ++ (codes " this " ++ (m.kind ++ codes " override?"))

  -- The source starts the request before `run` asks: `fn` only hands over what was started.
  abbrev pub send : Modal → Reply → Option Sent → Run Request
  send m reply none = run [] [] (record reply { failure = some (codes "Invalid JSON") }) m.mutation
  send m reply (some entry) =
      let r = then_close (run [] (question m) reply m.mutation) in
      record r { effects = requested (request_of m entry) ∷ r.effects }

  unfoldable pub save : Modal → Reply → Run Request
  unfolding run entry_to_send
  save m reply = send m reply (entry_to_send m)
