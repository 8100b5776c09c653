-- ===== src/Auth/SignedIn.antt =====
-- Who is signed in has a token.
use karna.Common.{
  ◌≡◌, refl, Bool, true, false, not, ◌||◌, Option, none, some, List, [], ◌∷◌, every, arith,
  and-true,
}
use karna.Text.{Text, is_empty, is_some}
use karna.Api.Session.{Session, text_or_null, end_session}
use karna.Auth.{
  Provider, Event, boot, register, login, logout, change_password, expired, handle, handle_all,
  identify, opened,
}

-- An answer that signs in, registers or changes the password brings a token.
abbrev pub brings_token : Event → Bool
brings_token (boot live status me) = true
brings_token (register none) = true
brings_token (register (some r)) = not (is_empty r.token)
brings_token (login none) = true
brings_token (login (some r)) = not (is_empty r.token)
brings_token logout = true
brings_token (change_password none) = true
brings_token (change_password (some token)) = not (is_empty token)
brings_token expired = true

abbrev pub has_token : Session → Bool
has_token s = not (is_some s.email) || is_some s.token

has_token-brought :
    (token : Text) (email : Option Text)
    → not (is_empty token) ≡ true
    → (not (is_some email) || is_some (text_or_null token)) ≡ true
has_token-brought [] email h = absurd cc
has_token-brought (c ∷ t) email h = ground arith

module _ (blocked : Bool) where
  identify-token :
      (token stored email me : Option Text)
      → has_token (record { token = token; stored = stored; email = email }) ≡ true
      → has_token (identify blocked me (record { token = token; stored = stored; email = email }))
        ≡ true
  unfolding end_session
  identify-token none stored email me h = h
  identify-token (some t) stored email none h = refl
  identify-token (some t) stored email (some m) h = ground arith

  handle-token :
      (e : Event) (p : Provider)
      → brings_token e ≡ true
      → has_token p.session ≡ true
      → has_token (handle blocked e p).session ≡ true
  unfolding handle end_session
  handle-token (boot false status me) p b h = h
  handle-token (boot true none me) p b h = h
  handle-token (boot true (some registered) me) p b h =
      identify-token p.session.token p.session.stored p.session.email me h
  handle-token (register none) p b h = h
  handle-token (register (some r)) p b h = has_token-brought r.token (text_or_null r.email) b
  handle-token (login none) p b h = h
  handle-token (login (some r)) p b h = has_token-brought r.token (text_or_null r.email) b
  handle-token logout p b h = refl
  handle-token (change_password none) p b h = h
  handle-token (change_password (some token)) p b h = has_token-brought token p.session.email b
  handle-token expired p b h = refl

  handle_all-token :
      (es : List Event) (p : Provider)
      → every brings_token es ≡ true
      → has_token p.session ≡ true
      → has_token (handle_all blocked es p).session ≡ true
  unfolding handle_all
  handle_all-token [] p b h = h
  handle_all-token (e ∷ es) p b h =
      let (first, later) = and-true (brings_token e) (every brings_token es) b in
      handle_all-token es (handle blocked e p) later (handle-token e p first h)

  -- In a tab that was opened with any storage, and whatever it does from then on, somebody who is signed in has a
  -- token, if each answer that signs in, registers or changes the password brings one.
  pub has_token-handle_all :
      (stored : Option Text) (es : List Event)
      → every brings_token es ≡ true
      → has_token (handle_all blocked es (opened blocked stored)).session ≡ true
  has_token-handle_all stored es b = handle_all-token es (opened blocked stored) b refl
