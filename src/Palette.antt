-- ===== src/Palette.antt =====
-- components/CommandPalette.jsx, lines 9 to 72: what the command palette finds, and its keys.
pub mod Complete
pub mod Keys
pub mod Targets
mod Tests
use karna.Common.{
  String, ℕ, zero, suc, ◌+◌, ◌-◌, Bool, true, false, not, ◌&&◌, ◌||◌, Option, none, some, List, [],
  ◌∷◌, ◌++◌, map, leb, if◌then◌else◌, keep, take, length, get_elem?,
}
use karna.Text.{Text, codes, is_empty, includes, is_space, strip, trim}
use karna.Value.{Value, Properties, obj, undefined, null, str, get, is_truthy, to_text}
use karna.Dashboard.{primary_match, event_disposition}

pub record Item : Type 0 where
  pub view : Text
  pub label : Text
  pub icon : Text

abbrev pub view_items : List Item
view_items =
    record { view = codes "overview"; label = codes "Overview"; icon = codes "grid" }
    ∷ record { view = codes "events"; label = codes "Events"; icon = codes "pulse" }
    ∷ record { view = codes "services"; label = codes "Services"; icon = codes "cube" }
    ∷ record { view = codes "rules"; label = codes "Rules"; icon = codes "layers" }
    ∷ record { view = codes "audit"; label = codes "Audit"; icon = codes "history" }
    ∷ record { view = codes "settings"; label = codes "Settings"; icon = codes "gear" }
    ∷ []

-- A result, and the view and parameter that it leads to.
pub record Result : Type 0 where
  pub kind : Text
  pub icon : Text
  pub primary : Value
  pub secondary : Value
  pub view : Text
  pub param : Value

-- The data of the dashboard that the palette searches: its services and rules are objects.
pub record Data : Type 0 where
  pub service_objects : List Properties
  pub rule_objects : List Properties
  pub events : List Value

abbrev pub services : Data → List Value
services d = map obj d.service_objects

abbrev pub local_rules : Data → List Value
local_rules d = map obj d.rule_objects

abbrev pub view_result : Item → Result
view_result v = record {
  kind = codes "Go to";
  icon = v.icon;
  primary = str v.label;
  secondary = null;
  view = v.view;
  param = undefined;
}

abbrev pub service_result : Value → Result
service_result s = record {
  kind = codes "Service";
  icon = codes "cube";
  primary = get "name" s;
  secondary = get "host" s;
  view = codes "services";
  param = get "id" s;
}

-- `a || b`
abbrev pub or_value : Value → Value → Value
or_value a b = if is_truthy a then a else b

abbrev pub rule_result : Value → Result
rule_result r = record {
  kind = codes "Rule";
  icon = codes "doc";
  primary = get "id" r;
  secondary = or_value (get "message" r) (get "service" r);
  view = codes "rules";
  param = undefined;
}

-- `v.name`, which throws on `undefined` and `null`: then there is no value.
unfoldable pub read : String → Value → Option Value
unfolding get
read name undefined = none
read name null = none
read name v = some (get name v)

abbrev pub then_read : String → Option Value → Option Value
then_read name none = none
then_read name (some v) = read name v

-- `e.client.ip`, `e.request.uri`, `e.request.method` and `e.service.name`
abbrev pub client_ip : Value → Option Value
client_ip e = then_read "ip" (read "client" e)

abbrev pub request_uri : Value → Option Value
request_uri e = then_read "uri" (read "request" e)

abbrev pub request_method : Value → Option Value
request_method e = then_read "method" (read "request" e)

abbrev pub service_name : Value → Option Value
service_name e = then_read "name" (read "service" e)

-- `xs.filter(p)` and a `forEach` that pushes `f(x)`, which end where `p` or `f` throws
abbrev pub kept : {A : Type 0} → A → Option Bool → Option (List A) → Option (List A)
kept x (some b) (some ys) = some (if b then x ∷ ys else ys)
kept x _ _ = none

abbrev pub keep_or_throw : {A : Type 0} → (A → Option Bool) → List A → Option (List A)
keep_or_throw p [] = some []
keep_or_throw p (x ∷ xs) = kept x (p x) (keep_or_throw p xs)

abbrev pub pushed : {B : Type 0} → Option B → Option (List B) → Option (List B)
pushed (some y) (some ys) = some (y ∷ ys)
pushed _ _ = none

abbrev pub map_or_throw : {A B : Type 0} → (A → Option B) → List A → Option (List B)
map_or_throw f [] = some []
map_or_throw f (x ∷ xs) = pushed (f x) (map_or_throw f xs)

-- `toLowerCase` and the disposition's text are those of the event list.
module _ (lower : Text → Text) where
  abbrev pub event_of : Value → Value → Value → Value → Result
  event_of e method uri ip = record {
    kind = codes "Event";
    icon = codes "pulse";
    primary = str (to_text method ++ (codes " " ++ to_text uri));
    secondary = str (
        to_text ip
        ++ (codes " · "
            ++ (to_text (or_value (get "rule_id" (primary_match e)) (str (codes "no match")))
                ++ (codes " · " ++ event_disposition e))));
    view = codes "events";
    param = get "request_id" e;
  }

  abbrev pub with_parts : Value → Option Value → Option Value → Option Value → Option Result
  with_parts e (some method) (some uri) (some ip) = some (event_of e method uri ip)
  with_parts e _ _ _ = none

  unfoldable pub event_result : Value → Option Result
  unfolding read primary_match event_disposition is_truthy to_text
  event_result e = with_parts e (request_method e) (request_uri e) (client_ip e)

  -- `hit(s)`, for a needle
  unfoldable pub hit : Text → Value → Bool
  unfolding is_truthy to_text includes
  hit needle v = is_truthy v && includes needle (lower (to_text v))

  -- `o || next`, where `o` is read first and may throw
  abbrev pub hit_or : Text → Option Value → Option Bool → Option Bool
  hit_or needle none next = none
  hit_or needle (some v) next = if hit needle v then some true else next

  unfoldable pub is_event_hit : Text → Value → Option Bool
  unfolding read primary_match
  is_event_hit needle e = hit_or needle (client_ip e) (
      hit_or needle (request_uri e) (
        hit_or needle (some (get "rule_id" (primary_match e))) (
          hit_or needle (some (get "message" (primary_match e)))
            (hit_or needle (service_name e) (some false)))))

  abbrev pub service_results : Text → List Value → List Result
  service_results needle all_services =
      map service_result
        (take 5 (keep (λ s. hit needle (get "name" s) || hit needle (get "host" s)) all_services))

  abbrev pub rule_results : Text → List Value → List Result
  rule_results needle rules =
      map rule_result
        (take 5 (keep (λ r. hit needle (get "id" r) || hit needle (get "message" r)) rules))

  abbrev pub shown_events : Option (List Value) → Option (List Result)
  shown_events none = none
  shown_events (some events) = map_or_throw event_result (take 6 events)

  abbrev pub with_events : List Result → Option (List Result) → Option (List Result)
  with_events before none = none
  with_events before (some results) = some (take 12 (before ++ results))

  -- `buildResults(q, data)`, without a result where the event list holds one that it cannot read
  unfoldable pub build_results : Text → Data → Option (List Result)
  unfolding hit get is_event_hit event_result is_truthy to_text strip is_space
  build_results q d =
      let needle = lower (trim q) in
      let goes =
        map view_result (keep (λ v. is_empty needle || hit needle (str v.label)) view_items) in
      if is_empty needle
      then some (take 12 goes)
      else with_events
          (goes ++ (service_results needle (services d) ++ rule_results needle (local_rules d)))
          (shown_events (keep_or_throw (is_event_hit needle) d.events))

-- The selected result, `none` for -1, where there is none.
abbrev pub Selection : Type 0
Selection = Option ℕ

pub data Key : Type 0 where
  escape arrow_down arrow_up enter : Key

-- What a key does: the selection moves, the palette closes, or it closes and leads to a result.
pub data Move : Type 0 where
  selects : Selection → Move
  closes : Move
  goes_to : Result → Move

-- `s + 1`, and `Math.min(i, n - 1)`
abbrev pub after : Selection → ℕ
after none = 0
after (some i) = i + 1

abbrev pub at_most_last : ℕ → ℕ → Selection
at_most_last i zero = none
at_most_last i (suc n) = some (if leb i n then i else n)

abbrev pub before : Selection → Selection
before none = some 0
before (some i) = some (i - 1)

abbrev pub selected : Selection → List Result → Option Result
selected none results = none
selected (some i) results = get_elem? results i

abbrev pub go_to : Selection → Option Result → Move
go_to sel none = selects sel
go_to sel (some r) = goes_to r

unfoldable pub on_key : List Result → Key → Selection → Move
on_key results escape sel = closes
on_key results arrow_down sel = selects (at_most_last (after sel) (length results))
on_key results arrow_up sel = selects (before sel)
on_key results enter sel = go_to sel (selected sel results)
