-- ===== src/Events/Redact/Secrecy.antt =====
-- The search parameters of a redacted address.
use karna.Common.{
  ◌≡◌, refl, sym, ap, subst, ◌∙◌, inl, inr, Bool, true, false, not, ◌&&◌, ◌||◌, List, [], ◌∷◌,
  every, keep, arith, and-true, Bool-cases, if◌then◌else◌,
}
use karna.Text.{Text, text_eq, contains}
use karna.Text.Equality.{text_eq_iff, text_eq_refl}
use karna.Events.Redact.{
  is_sensitive_name, redacted_text, delete_param, set_param, redact_params, param_keys,
}

abbrev pub is_plain : Text × Text → Bool
is_plain p = not (is_sensitive_name p.0)

-- A pair shows no secret: its name is not sensitive, or its value is the placeholder.
abbrev pub shows_nothing : Text × Text → Bool
shows_nothing p = is_plain p || text_eq p.1 redacted_text

-- The same, or the loop has still to come to its key.
abbrev is_due : List Text → Text × Text → Bool
is_due keys p = shows_nothing p || contains p.0 keys

and-of : (a b : Bool) → a ≡ true → b ≡ true → (a && b) ≡ true
and-of a b h k = ground arith

due_later :
    (key k v : Text) (keys : List Text)
    → is_due (key ∷ keys) (k, v) ≡ true
    → text_eq k key ≡ false
    → is_due keys (k, v) ≡ true
unfolding contains
due_later key k v keys h other = ground (arith, text_eq_iff key k, text_eq_iff k key)

delete_param-due :
    (key : Text) (keys : List Text) (ps : List (Text × Text))
    → every (is_due (key ∷ keys)) ps ≡ true
    → every (is_due keys) (delete_param key ps) ≡ true
unfolding delete_param
delete_param-due key keys [] h = refl
delete_param-due key keys ((k, v) ∷ ps) h =
    let (here, later) = and-true (is_due (key ∷ keys) (k, v)) (every (is_due (key ∷ keys)) ps) h in
    let rest = delete_param-due key keys ps later in
    elim (Bool-cases (text_eq k key)) [
      | inl same ↦ rw same rest
      | inr other ↦ rw other (and-of _ _ (due_later key k v keys here other) rest)
    ]

redacted_due : (k : Text) (keys : List Text) → is_due keys (k, redacted_text) ≡ true
redacted_due k keys = ground (arith, text_eq_refl redacted_text)

set_param-due :
    (key : Text) (keys : List Text) (ps : List (Text × Text))
    → every (is_due (key ∷ keys)) ps ≡ true
    → every (is_due keys) (set_param key redacted_text ps) ≡ true
unfolding set_param
set_param-due key keys [] h = and-of _ _ (redacted_due key keys) refl
set_param-due key keys ((k, v) ∷ ps) h =
    let (here, later) = and-true (is_due (key ∷ keys) (k, v)) (every (is_due (key ∷ keys)) ps) h in
    elim (Bool-cases (text_eq k key)) [
      | inl same ↦ rw same (and-of _ _ (redacted_due k keys) (delete_param-due key keys ps later))
      | inr other ↦
          rw other
            (and-of _ _ (due_later key k v keys here other) (set_param-due key keys ps later))
    ]

-- A key that is not sensitive has nothing to be done.
plain_due :
    (key : Text) (keys : List Text) (p : Text × Text)
    → is_sensitive_name key ≡ false
    → is_due (key ∷ keys) p ≡ true
    → is_due keys p ≡ true
unfolding contains
plain_due key keys (k, v) plain h = elim (Bool-cases (text_eq key k)) [
  | inl same ↦
      let e : is_sensitive_name k ≡ false =
        subst (λ t. is_sensitive_name t ≡ false) ((text_eq_iff key k).0 same) plain in
      rw e refl
  | inr other ↦ ground arith
]

plain_due_all :
    (key : Text) (keys : List Text) (ps : List (Text × Text))
    → is_sensitive_name key ≡ false
    → every (is_due (key ∷ keys)) ps ≡ true
    → every (is_due keys) ps ≡ true
plain_due_all key keys [] plain h = refl
plain_due_all key keys (p ∷ ps) plain h =
    let (here, later) = and-true (is_due (key ∷ keys) p) (every (is_due (key ∷ keys)) ps) h in
    and-of _ _ (plain_due key keys p plain here) (plain_due_all key keys ps plain later)

redact_params-due :
    (keys : List Text) (ps : List (Text × Text))
    → every (is_due keys) ps ≡ true
    → every (is_due []) (redact_params keys ps) ≡ true
unfolding redact_params
redact_params-due [] ps h = h
redact_params-due (key ∷ keys) ps h = elim (Bool-cases (is_sensitive_name key)) [
  | inl sensitive ↦
      rw sensitive
        (redact_params-due keys (set_param key redacted_text ps) (set_param-due key keys ps h))
  | inr plain ↦ rw plain (redact_params-due keys ps (plain_due_all key keys ps plain h))
]

due_more :
    (k : Text) (keys : List Text) (ps : List (Text × Text))
    → every (is_due keys) ps ≡ true
    → every (is_due (k ∷ keys)) ps ≡ true
unfolding contains
due_more k keys [] h = refl
due_more k keys (p ∷ ps) h =
    let (here, later) = and-true (is_due keys p) (every (is_due keys) ps) h in
    and-of _ _ (ground arith) (due_more k keys ps later)

keys_due : (ps : List (Text × Text)) → every (is_due (param_keys ps)) ps ≡ true
unfolding contains
keys_due [] = refl
keys_due ((k, v) ∷ ps) =
    and-of _ _ (ground (arith, text_eq_refl k)) (due_more k (param_keys ps) ps (keys_due ps))

delete_param-plain :
    (key : Text) (ps : List (Text × Text))
    → is_sensitive_name key ≡ true
    → keep is_plain (delete_param key ps) ≡ keep is_plain ps
unfolding delete_param
delete_param-plain key [] s = refl
delete_param-plain key ((k, v) ∷ ps) s = elim (Bool-cases (text_eq k key)) [
  | inl same ↦
      let e : is_sensitive_name k ≡ true =
        subst (λ t. is_sensitive_name t ≡ true) (sym ((text_eq_iff k key).0 same)) s in
      rw (same, e) (delete_param-plain key ps s)
  | inr other ↦
      rw other (ap (λ l. if is_plain (k, v) then (k, v) ∷ l else l) (delete_param-plain key ps s))
]

set_param-plain :
    (key : Text) (ps : List (Text × Text))
    → is_sensitive_name key ≡ true
    → keep is_plain (set_param key redacted_text ps) ≡ keep is_plain ps
unfolding set_param
set_param-plain key [] s = rw s refl
set_param-plain key ((k, v) ∷ ps) s = elim (Bool-cases (text_eq k key)) [
  | inl same ↦
      let e : is_sensitive_name k ≡ true =
        subst (λ t. is_sensitive_name t ≡ true) (sym ((text_eq_iff k key).0 same)) s in
      rw (same, e) (delete_param-plain key ps s)
  | inr other ↦
      rw other (ap (λ l. if is_plain (k, v) then (k, v) ∷ l else l) (set_param-plain key ps s))
]

redact_params-plain :
    (keys : List Text) (ps : List (Text × Text))
    → keep is_plain (redact_params keys ps) ≡ keep is_plain ps
unfolding redact_params
redact_params-plain [] ps = refl
redact_params-plain (key ∷ keys) ps = elim (Bool-cases (is_sensitive_name key)) [
  | inl s ↦
      rw s (redact_params-plain keys (set_param key redacted_text ps) ∙ set_param-plain key ps s)
  | inr plain ↦ rw plain (redact_params-plain keys ps)
]

due_shows : (ps : List (Text × Text)) → every (is_due []) ps ≡ every shows_nothing ps
unfolding contains
due_shows [] = refl
due_shows (p ∷ ps) = ground (arith, due_shows ps)

-- After the loop of `redactUri` every search parameter with a sensitive name has the placeholder as its
-- value, and the parameters with other names are the ones that were there, in their order.
pub redact_params_lem :
    (params : List (Text × Text))
    → (every shows_nothing (redact_params (param_keys params) params) ≡ true)
      × (keep is_plain (redact_params (param_keys params) params) ≡ keep is_plain params)
redact_params_lem params = (
  sym (due_shows (redact_params (param_keys params) params))
      ∙ redact_params-due (param_keys params) params (keys_due params),
  redact_params-plain (param_keys params) params,
)
