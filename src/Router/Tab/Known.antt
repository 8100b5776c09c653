-- ===== src/Router/Tab/Known.antt =====
-- The view that a tab shows.
use karna.Common.{
  ◌≡◌, refl, subst, inl, inr, Bool, true, Option, none, some, List, [], ◌∷◌, Bool-cases,
}
use karna.Text.{Text, codes, text_eq, is_empty, contains, split_on, join}
use karna.Router.{
  Route, views, Parsed, throws, no_route, route, parse_hash, parse_pieces, decoded, strip_hash,
  to_hash,
}
use karna.Router.Tab.{
  legacy, inherited_names, Start, start_throws, without_view, starts, overview, legacy_or,
  stored_route, first_route, Tab, Step, nav, nav_replace, hash_change, initial_route, show_parsed,
  with_hash, param_or_null, step, steps,
}

abbrev pub is_known : Route → Bool
is_known r = contains r.view views

abbrev parsed_known : Parsed → Bool
parsed_known throws = true
parsed_known no_route = true
parsed_known (route r) = is_known r

abbrev start_known : Start → Bool
start_known start_throws = true
start_known without_view = true
start_known (starts r) = is_known r

legacy_known :
    (stored : Text) (fallback : Route)
    → is_known fallback ≡ true
    → start_known (legacy_or (legacy stored) fallback) ≡ true
unfolding legacy contains
legacy_known stored fallback h = elim (Bool-cases (text_eq stored (codes "mode"))) [
  | inl mode ↦ rw mode (unfold text_eq in refl)
  | inr other ↦ elim (Bool-cases (text_eq stored (codes "customrules"))) [
    | inl custom ↦ rw (other, custom) (unfold text_eq in refl)
    | inr none_of ↦ elim (Bool-cases (contains stored inherited_names)) [
      | inl found ↦ rw (other, none_of, found) refl
      | inr absent ↦ rw (other, none_of, absent) h
    ]
  ]
]

overview_known : is_known overview ≡ true
unfolding contains text_eq
overview_known = refl

stored_route_known : (stored : Option Text) → start_known (stored_route stored) ≡ true
unfolding stored_route
stored_route_known none = overview_known
stored_route_known (some stored) = elim (Bool-cases (is_empty stored)) [
  | inl blank ↦ rw blank overview_known
  | inr full ↦ elim (Bool-cases (contains stored views)) [
    | inl known ↦
        rw (full, known) (legacy_known stored (record { view = stored; param = none }) known)
    | inr unknown ↦ rw (full, unknown) (legacy_known stored overview overview_known)
  ]
]

module _ (encode decode : Text → Option Text) where
  decoded_known :
      (view : Text) (param : Option Text)
      → contains view views ≡ true
      → parsed_known (decoded encode decode view param) ≡ true
  decoded_known view none h = refl
  decoded_known view (some p) h = h

  pieces_known : (pieces : List Text) → parsed_known (parse_pieces encode decode pieces) ≡ true
  unfolding parse_pieces
  pieces_known [] = refl
  pieces_known (view ∷ []) = elim (Bool-cases (contains view views)) [
    | inl known ↦ rw known known
    | inr unknown ↦ rw unknown refl
  ]
  pieces_known (view ∷ piece ∷ rest) = elim (Bool-cases (contains view views)) [
    | inl known ↦ rw known (decoded_known view (decode (join (codes "/") (piece ∷ rest))) known)
    | inr unknown ↦ rw unknown refl
  ]

  parse_hash_known : (hash : Text) → parsed_known (parse_hash encode decode hash) ≡ true
  unfolding parse_hash
  parse_hash_known hash = elim (Bool-cases (is_empty (strip_hash hash))) [
    | inl blank ↦ rw blank refl
    | inr full ↦ rw full (pieces_known (split_on 47 (strip_hash hash)))
  ]

  show_parsed_known :
      (p : Parsed) (t : Tab)
      → parsed_known p ≡ true
      → is_known t.shown ≡ true
      → is_known (show_parsed encode decode p t).shown ≡ true
  show_parsed_known throws t h k = k
  show_parsed_known no_route t h k = k
  show_parsed_known (route r) t h k = h

  with_hash_known :
      (hash : Option Text) (f : Text → Tab → Tab) (t : Tab)
      → ((h : Text) → is_known (f h t).shown ≡ true)
      → is_known t.shown ≡ true
      → is_known (with_hash encode decode hash f t).shown ≡ true
  with_hash_known none f t g k = k
  with_hash_known (some hash) f t g k = g hash

  step_known :
      (s : Step) (t : Tab)
      → is_known t.shown ≡ true
      → is_known (step encode decode s t).shown ≡ true
  unfolding step
  step_known (nav view param) t k = elim (Bool-cases (contains view views)) [
    | inl known ↦ rw known (
        with_hash_known (to_hash encode decode view (param_or_null param))
          (λ hash u. record u { hash = hash }) (record t { stored = some view }) (λ h. k) k)
    | inr unknown ↦ rw unknown k
  ]
  step_known (nav_replace view param) t k = elim (Bool-cases (contains view views)) [
    | inl known ↦ rw known (
        with_hash_known (to_hash encode decode view (param_or_null param))
          (λ hash u. record u {
            hash = hash;
            shown = record { view = view; param = param_or_null param };
          })
          t (λ h. known) k)
    | inr unknown ↦ rw unknown k
  ]
  step_known (hash_change hash) t k =
      show_parsed_known (parse_hash encode decode hash) (record t { hash = hash })
        (parse_hash_known hash) k

  steps_known :
      (ss : List Step) (t : Tab)
      → is_known t.shown ≡ true
      → is_known (steps encode decode ss t).shown ≡ true
  unfolding steps
  steps_known [] t k = k
  steps_known (s ∷ ss) t k = steps_known ss (step encode decode s t) (step_known s t k)

  first_known :
      (p : Parsed) (stored : Option Text)
      → parsed_known p ≡ true
      → start_known (first_route p stored) ≡ true
  first_known throws stored h = refl
  first_known no_route stored h = stored_route_known stored
  first_known (route q) stored h = h

  -- Whatever address and stored view a tab starts with, if it starts on a route that has a view (an address may fail
  -- to decode, and a stored view may be a name that every object inherits), and whatever calls and address changes
  -- follow, the view that it shows is one that the router knows.
  pub is_known-steps :
      (hash : Text) (stored : Option Text) (r : Route) (ss : List Step)
      → initial_route encode decode hash stored ≡ starts r
      → is_known (steps encode decode ss (record { hash = hash; stored = stored; shown = r })).shown
        ≡ true
  unfolding initial_route
  is_known-steps hash stored r ss e =
      steps_known ss (record { hash = hash; stored = stored; shown = r })
        (subst (λ o. start_known o ≡ true) e
          (first_known (parse_hash encode decode hash) stored (parse_hash_known hash)))
