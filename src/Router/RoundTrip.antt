-- ===== src/Router/RoundTrip.antt =====
-- A route that was put into the address is read back from it.
use karna.Common.{
  ℕ, ◌≡◌, refl, sym, ap, subst, ◌∙◌, inl, inr, true, false, Option, none, some, List, [], ◌∷◌, ◌++◌,
  or-true, All, Bool-cases, ◌==◌, ==_iff,
}
use karna.Text.{Text, codes, text_eq, split_on, join, contains, push_first, is_empty}
use karna.Text.Equality.{text_eq_iff}
use karna.Router.{views, route, parse_hash, parse_pieces, to_hash, strip_hash, decoded, with_param}

join-push_first :
    (c : ℕ) (sep : Text) (p : Text) (ps : List Text)
    → join sep (push_first c (p ∷ ps)) ≡ c ∷ join sep (p ∷ ps)
unfolding join
join-push_first c sep p [] = refl
join-push_first c sep p (q ∷ ps) = refl

abbrev Pieces : List Text → Text → Type 0
Pieces ps s = (p : Text) × (qs : List Text) × (ps ≡ p ∷ qs) × (join (codes "/") (p ∷ qs) ≡ s)

split_on-join : (s : Text) → Pieces (split_on 47 s) s
unfolding split_on join
split_on-join [] = ([], [], refl, refl)
split_on-join (c ∷ s) = elim (Bool-cases (c == 47)) [
  | inl sep ↦
      let (p, qs, e, j) = split_on-join s in
      rw sep (
        [],
        p ∷ qs,
        ap (λ ls. [] ∷ ls) e,
        ap (λ t. 47 ∷ t) j ∙ ap (λ d. d ∷ s) (sym ((==_iff c 47).0 sep)),
      )
  | inr other ↦
      let (p, qs, e, j) = split_on-join s in
      rw other
        (c ∷ p, qs, ap (push_first c) e, join-push_first c (codes "/") p qs ∙ ap (λ t. c ∷ t) j)
]

member_of :
    (P : Text → Type 0) (view : Text) (xs : List Text) → contains view xs ≡ true → All P xs → P view
unfolding contains
member_of P view [] h all = absurd cc
member_of P view (x ∷ xs) h (p, ps) = elim (or-true (text_eq x view) (contains view xs) h) [
  | inl same ↦ subst P ((text_eq_iff x view).0 same) p
  | inr later ↦ member_of P view xs later ps
]

-- A word without a slash, which a slash ends.
abbrev IsWord : Text → Type 0
IsWord view =
    (e : Text)
    → (split_on 47 (view ++ (47 ∷ e)) ≡ view ∷ split_on 47 e)
      × (split_on 47 view ≡ view ∷ [])
      × (is_empty view ≡ false)
      × (is_empty (view ++ (47 ∷ e)) ≡ false)

views-IsWord : All IsWord views
unfolding split_on
views-IsWord = (
  λ e. (refl, refl, refl, refl),
  (
    λ e. (refl, refl, refl, refl),
    (
      λ e. (refl, refl, refl, refl),
      (
        λ e. (refl, refl, refl, refl),
        (
          λ e. (refl, refl, refl, refl),
          (λ e. (refl, refl, refl, refl), (λ e. (refl, refl, refl, refl), tt)),
        ),
      ),
    ),
  ),
)

-- A parameter that is empty is no parameter.
abbrev pub kept_param : Option Text → Option Text
kept_param none = none
kept_param (some []) = none
kept_param (some (c ∷ s)) = some (c ∷ s)

module _ (encode decode : Text → Option Text) where
  parse_pieces-split_on :
      (view e s : Text)
      → contains view views ≡ true
      → decode e ≡ some s
      → parse_pieces encode decode (view ∷ split_on 47 e)
        ≡ route (record { view = view; param = some s })
  unfolding parse_pieces
  parse_pieces-split_on view e s h d =
      let (p, qs, at, j) = split_on-join e in
      rw (at, h)
        (ap (λ t. decoded encode decode view (decode t)) j ∙ ap (decoded encode decode view) d)

  parse_hash-view :
      (view : Text)
      → contains view views ≡ true
      → parse_hash encode decode (codes "#/" ++ view) ≡ route (record { view = view; param = none })
  unfolding parse_hash
  parse_hash-view view h =
      let (slash, word, nonempty, more) = member_of IsWord view views h views-IsWord [] in
      unfold strip_hash parse_pieces in rw (nonempty, word, h) refl

  parse_hash-param :
      (view e s : Text)
      → contains view views ≡ true
      → decode e ≡ some s
      → parse_hash encode decode (codes "#/" ++ (view ++ (codes "/" ++ e)))
        ≡ route (record { view = view; param = some s })
  unfolding parse_hash
  parse_hash-param view e s h d =
      let (slash, word, nonempty, more) = member_of IsWord view views h views-IsWord e in
      unfold strip_hash in rw (more, slash) (parse_pieces-split_on view e s h d)

  with_param-cases :
      (view hash : Text) (o : Option Text)
      → with_param encode decode view o ≡ some hash
      → (e : Text) × (o ≡ some e) × (codes "#/" ++ (view ++ (codes "/" ++ e)) ≡ hash)
  with_param-cases view hash none h = absurd cc
  with_param-cases view hash (some e) h = (e, refl, cc)

  -- Where `decodeURIComponent` undoes `encodeURIComponent`, the hash that `toHash` makes for a view of the
  -- dashboard is read by `parseHash` as the same view with the same parameter, whatever slashes the encoded
  -- parameter has; an empty parameter is read as none.
  pub parse_hash-to_hash :
      (view : Text) (param : Option Text) (hash : Text)
      → ((s e : Text) → encode s ≡ some e → decode e ≡ some s)
      → contains view views ≡ true
      → to_hash encode decode view param ≡ some hash
      → parse_hash encode decode hash ≡ route (record { view = view; param = kept_param param })
  unfolding to_hash
  parse_hash-to_hash view none hash undo h made =
      let at : codes "#/" ++ view ≡ hash = cc in
      ap (parse_hash encode decode) (sym at) ∙ parse_hash-view view h
  parse_hash-to_hash view (some []) hash undo h made =
      let at : codes "#/" ++ view ≡ hash = cc in
      ap (parse_hash encode decode) (sym at) ∙ parse_hash-view view h
  parse_hash-to_hash view (some (c ∷ s)) hash undo h made =
      let (e, encoded, at) = with_param-cases view hash (encode (c ∷ s)) made in
      ap (parse_hash encode decode) (sym at)
      ∙ parse_hash-param view e (c ∷ s) h (undo (c ∷ s) e encoded)
