-- ===== src/RuleForm/Picker.antt =====
-- components/RuleModal.jsx, lines 279 to 369: the search field that chooses the service of a rule.
pub mod Laws
use karna.Common.{
  ℕ, ◌+◌, ◌-◌, Bool, true, false, not, ◌&&◌, Option, none, some, List, [], ◌∷◌, ◌++◌, leb, ltb,
  if◌then◌else◌, length, take, get_elem?, keep,
}
use karna.Text.{Text, codes, text_eq, is_empty, includes, join, is_space, strip, trim}

-- A service to choose; an address that it lacks is the empty text.
pub record Service : Type 0 where
  pub plugin_id : Text
  pub name : Text
  pub host : Text
  pub upstream_url : Text
  pub route_hosts : List Text
  pub route_paths : List Text

-- The state of the field with the plugin id of the form, and a reset of its text when it is closed.
pub record Field : Type 0 where
  pub value : Text
  pub query : Text
  pub is_open : Bool
  pub active : ℕ

abbrev pub max : ℕ → ℕ → ℕ
max a b = if leb a b then b else a

abbrev pub min : ℕ → ℕ → ℕ
min a b = if leb a b then a else b

-- `services.find((service) => service.plugin_id === value)`
unfoldable pub selected : Text → List Service → Option Service
unfolding text_eq
selected value [] = none
selected value (s ∷ ss) = if text_eq s.plugin_id value then some s else selected value ss

abbrev pub name_or : Option Service → Text → Text
name_or none fallback = fallback
name_or (some s) fallback = s.name

unfoldable pub searchable : Service → Text
unfolding join
searchable s = join (codes " ") (
    keep (λ t. not (is_empty t))
      (s.name ∷ s.host ∷ s.upstream_url ∷ (s.route_hosts ++ s.route_paths)))

-- The last index of the list, 0 where it is empty
abbrev pub last : {A : Type 0} → List A → ℕ
last xs = length xs - 1

pub data Key : Type 0 where
  arrow_down arrow_up enter escape : Key
  other : Text → Key

-- `toLocaleLowerCase` is a parameter.
module _ (lower : Text → Text) where
  unfoldable pub matches : Text → List Service → List Service
  unfolding searchable includes strip is_space
  matches query services =
      let normalized = lower (trim query) in
      if is_empty normalized
      then services
      else keep (λ s. includes normalized (lower (searchable s))) services

  unfoldable pub visible : Text → List Service → List Service
  unfolding matches
  visible query services = take 8 (matches query services)

  -- The effect that runs when the field closes or another service is selected.
  abbrev pub show_selected : List Service → Field → Field
  show_selected services f =
      if f.is_open then f else record f { query = name_or (selected f.value services) [] }

  -- The effect that runs when the number of visible services changes.
  unfoldable pub clamp_active : List Service → Field → Field
  unfolding visible
  clamp_active services f = record f { active = min f.active (last (visible f.query services)) }

  abbrev pub choose : Service → Field → Field
  choose s f = record f { value = s.plugin_id; query = s.name; is_open = false }

  abbrev pub choose_active : Option Service → Field → Field
  choose_active none f = f
  choose_active (some s) f = if f.is_open then choose s f else f

  unfoldable pub handle_key : List Service → Key → Field → Field
  unfolding visible selected
  handle_key services arrow_down f = record f {
    is_open = true;
    active = min (f.active + 1) (last (visible f.query services));
  }
  handle_key services arrow_up f = record f { is_open = true; active = f.active - 1 }
  handle_key services enter f = choose_active (get_elem? (visible f.query services) f.active) f
  handle_key services escape f = record f {
    is_open = false;
    query = name_or (selected f.value services) [];
  }
  handle_key services (other key) f = f

  -- The focus leaves the field.
  abbrev pub handle_blur : List Service → Field → Field
  handle_blur services f = record f {
    is_open = false;
    query = name_or (selected f.value services) f.query;
  }

  abbrev pub focus : Field → Field
  focus f = record f { is_open = true }

  abbrev pub search_for : Text → Field → Field
  search_for query f = record f { query = query; value = []; is_open = true; active = 0 }

  abbrev pub clear : Field → Field
  clear f = record f { value = []; query = []; is_open = true }

  abbrev pub hover : ℕ → Field → Field
  hover index f = record f { active = index }
