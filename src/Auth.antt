-- ===== src/Auth.antt =====
-- auth/AuthProvider.jsx, lines 10 to 67: who is signed in. The answer of each call is given, and is handled
-- before the next call starts.
pub mod SignedIn
mod Tests
use karna.Common.{
  ℕ, Bool, true, false, not, ◌&&◌, Option, none, some, List, [], ◌∷◌, if◌then◌else◌, every,
}
use karna.Text.{Text, is_empty, is_some}
use karna.Value.{Value}
use karna.Api.Session.{
  Session, Request, Answer, Outcome, text_or_null, open_session, set_token, end_session,
}

-- The state of the provider beside the session, whose email it is.
pub record Provider : Type 0 where
  pub ready : Bool
  pub registered : Bool
  pub session : Session

-- The answer of a call: an error, or what the provider reads of it.
pub record Signed : Type 0 where
  pub token : Text
  pub email : Text

-- What happens to a tab: the start in a mode with or without a backend, with the answers of `status` and `me`, the
-- answers of the calls of the provider, and the end of the session by the answer of another call.
pub data Event : Type 0 where
  boot : Bool → Option Bool → Option Text → Event
  register login : Option Signed → Event
  logout : Event
  change_password : Option Text → Event
  expired : Event

module _ (blocked : Bool) where
  abbrev pub sign_in : Signed → Session → Session
  sign_in r s = record (set_token blocked (text_or_null r.token) s) { email = text_or_null r.email }

  -- The answer of `me`, which is asked for with a token alone
  abbrev pub identify : Option Text → Session → Session
  identify me s = elim s.token [
    | none ↦ s
    | some t ↦ elim me [
      | none ↦ end_session blocked s
      | some email ↦ record s { email = text_or_null email }
    ]
  ]

  unfoldable pub handle : Event → Provider → Provider
  unfolding set_token end_session
  handle (boot false status me) p = record p { ready = true }
  handle (boot true none me) p = record p { ready = true }
  handle (boot true (some registered) me) p = record {
    ready = true;
    registered = registered;
    session = identify me p.session;
  }
  handle (register none) p = p
  handle (register (some r)) p = record p { registered = true; session = sign_in r p.session }
  handle (login none) p = p
  handle (login (some r)) p = record p { session = sign_in r p.session }
  handle logout p = record p { session = end_session blocked p.session }
  handle (change_password none) p = p
  handle (change_password (some token)) p = record p {
    session = set_token blocked (text_or_null token) p.session;
  }
  handle expired p = record p { session = end_session blocked p.session }

  unfoldable pub handle_all : List Event → Provider → Provider
  unfolding handle
  handle_all [] p = p
  handle_all (e ∷ es) p = handle_all es (handle e p)

-- `{ ready: false, registered: false, email: null }` over the session that the tab opens
abbrev pub opened : Bool → Option Text → Provider
opened blocked stored = record {
  ready = false;
  registered = false;
  session = open_session blocked stored;
}

-- `authed`
abbrev pub is_authed : Provider → Bool
is_authed p = is_some p.session.email
