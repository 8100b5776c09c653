-- ===== src/Palette/Complete.antt =====
-- An event that the palette can read without a throw.
use karna.Common.{
  ◌≡◌, refl, inl, inr, String, Option, some, ◌&&◌, Bool, true, false, Bool-cases, and-true,
}
use karna.Text.{Text}
use karna.Value.{Value, undefined, null, bool, num, str, arr, obj, get}
use karna.Dashboard.{primary_match}
use karna.Palette.{read, then_read, client_ip, request_uri, service_name, hit, hit_or, is_event_hit}

-- Whether the parts of an event that the palette reads from are there.
abbrev pub is_present : Value → Bool
is_present undefined = false
is_present null = false
is_present v = true

abbrev pub is_complete : Value → Bool
is_complete e =
    is_present (get "client" e) && (is_present (get "request" e) && is_present (get "service" e))

read_present :
    (name : String) (v : Value) → is_present v ≡ true → (w : Value) × (read name v ≡ some w)
unfolding read
read_present name undefined h = absurd cc
read_present name null h = absurd cc
read_present name (bool b) h = (get name (bool b), refl)
read_present name (num n) h = (get name (num n), refl)
read_present name (str t) h = (get name (str t), refl)
read_present name (arr vs) h = (get name (arr vs), refl)
read_present name (obj fs) h = (get name (obj fs), refl)

pub part_present :
    (part name : String) (e : Value)
    → is_present (get part e) ≡ true
    → (w : Value) × (then_read name (read part e) ≡ some w)
unfolding read get
part_present part name undefined h = absurd cc
part_present part name null h = absurd cc
part_present part name (bool b) h = absurd cc
part_present part name (num n) h = absurd cc
part_present part name (str t) h = absurd cc
part_present part name (arr vs) h = absurd cc
part_present part name (obj fs) h = read_present name (get part (obj fs)) h

pub complete_parts :
    (e : Value)
    → is_complete e ≡ true
    → (is_present (get "client" e) ≡ true)
      × ((is_present (get "request" e) ≡ true) × (is_present (get "service" e) ≡ true))
complete_parts e h =
    let (client, rest) =
      and-true (is_present (get "client" e))
        (is_present (get "request" e) && is_present (get "service" e)) h in
    (client, and-true (is_present (get "request" e)) (is_present (get "service" e)) rest)

module _ (lower : Text → Text) where
  hit_or_total :
      (needle : Text) (o : Option Value) (next : Option Bool) (v : Value) (b : Bool)
      → o ≡ some v
      → next ≡ some b
      → (c : Bool) × (hit_or lower needle o next ≡ some c)
  hit_or_total needle o next v b e k = elim (Bool-cases (hit lower needle v)) [
    | inl found ↦ (true, rw (e, found) refl)
    | inr missed ↦ (b, rw (e, missed) k)
  ]

  pub is_event_hit_total :
      (needle : Text) (e : Value)
      → is_complete e ≡ true
      → (b : Bool) × (is_event_hit lower needle e ≡ some b)
  unfolding is_event_hit
  is_event_hit_total needle e h =
      let (client, (request, service)) = complete_parts e h in
      let (ip, ip_read) = part_present "client" "ip" e client in
      let (uri, uri_read) = part_present "request" "uri" e request in
      let (name, name_read) = part_present "service" "name" e service in
      let m = primary_match e in
      let (b1, e1) = hit_or_total needle (service_name e) (some false) name false name_read refl in
      let (b2, e2) = hit_or_total needle (some (get "message" m)) _ (get "message" m) b1 refl e1 in
      let (b3, e3) = hit_or_total needle (some (get "rule_id" m)) _ (get "rule_id" m) b2 refl e2 in
      let (b4, e4) = hit_or_total needle (request_uri e) _ uri b3 uri_read e3 in
      hit_or_total needle (client_ip e) _ ip b4 ip_read e4
