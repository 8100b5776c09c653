-- ===== src/Router.antt =====
-- dashboard/web/src/router.js, lines 6 to 21: the routes of the dashboard in the hash of the address.
-- `encodeURIComponent` and `decodeURIComponent` are parameters, each with `none` for a text that it
-- throws on. A hash that does not decode makes `parseHash` throw.
mod Tests
pub mod RoundTrip
pub mod Tab
use karna.Common.{Bool, true, false, Option, none, some, List, [], ◌∷◌, ◌++◌, if◌then◌else◌}
use karna.Text.{Text, codes, text_eq, is_empty, strip_prefix, split_on, join, contains}

pub record Route : Type 0 where
  pub view : Text
  pub param : Option Text

abbrev pub views : List Text
views =
    codes "overview"
    ∷ codes "events"
    ∷ codes "services"
    ∷ codes "rules"
    ∷ codes "assistant"
    ∷ codes "audit"
    ∷ codes "settings"
    ∷ []

-- What `parseHash` comes to: it throws, or it returns `null` or a route.
pub data Parsed : Type 0 where
  throws : Parsed
  no_route : Parsed
  route : Route → Parsed

-- `hash.replace(/^#\/?/, "")`
abbrev pub without_slash : Text → Option Text → Text
without_slash s none = s
without_slash s (some t) = t

abbrev pub without_mark : Text → Option Text → Text
without_mark hash none = hash
without_mark hash (some s) = without_slash s (strip_prefix (codes "/") s)

unfoldable pub strip_hash : Text → Text
unfolding strip_prefix
strip_hash hash = without_mark hash (strip_prefix (codes "#") hash)

module _ (encode decode : Text → Option Text) where
  abbrev pub decoded : Text → Option Text → Parsed
  decoded view none = throws
  decoded view (some param) = route (record { view = view; param = some param })

  -- The pieces of the hash between the slashes.
  unfoldable pub parse_pieces : List Text → Parsed
  unfolding contains text_eq join
  parse_pieces [] = no_route
  parse_pieces (view ∷ []) =
      if contains view views then route (record { view = view; param = none }) else no_route
  parse_pieces (view ∷ piece ∷ rest) =
      if contains view views
      then decoded view (decode (join (codes "/") (piece ∷ rest)))
      else no_route

  unfoldable pub parse_hash : Text → Parsed
  unfolding strip_hash split_on parse_pieces
  parse_hash hash =
      let h = strip_hash hash in if is_empty h then no_route else parse_pieces (split_on 47 h)

  -- `none` where `encodeURIComponent` throws
  abbrev pub with_param : Text → Option Text → Option Text
  with_param view none = none
  with_param view (some e) = some (codes "#/" ++ (view ++ (codes "/" ++ e)))

  unfoldable pub to_hash : Text → Option Text → Option Text
  to_hash view none = some (codes "#/" ++ view)
  to_hash view (some []) = some (codes "#/" ++ view)
  to_hash view (some (c ∷ s)) = with_param view (encode (c ∷ s))
