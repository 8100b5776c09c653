-- ===== src/Editor/Scan.antt =====
-- components/JsonEditor.jsx, lines 79 to 118: where in a JSON text the cursor stands.
pub mod Docs
pub mod Steps
pub mod Whole
use karna.Common.{
  ℕ, suc, ◌+◌, ◌-◌, Bool, true, false, not, ◌&&◌, ◌||◌, Option, none, some, List, [], ◌∷◌, ◌==◌,
  if◌then◌else◌, take, drop,
}
use karna.Text.{Text, codes}

-- A container that is open: `{` or `[`, its role, the key in front of the cursor, whether a `:` came after it, and
-- where its last string began, `none` for -1.
pub record Frame : Type 0 where
  pub is_object : Bool
  pub role : Option Text
  pub cur_key : Option Text
  pub expect_value : Bool
  pub str_start : Option ℕ

-- The innermost container first, whether the scan is in a string and behind a backslash, and where the last
-- string began.
pub record Scan : Type 0 where
  pub stack : List Frame
  pub in_str : Bool
  pub esc : Bool
  pub open_at : Option ℕ

-- `text.slice(a + 1, b)`, where `none` is -1
abbrev pub slice_after : Text → Option ℕ → ℕ → Text
slice_after text none b = take b text
slice_after text (some a) b = take (b - (a + 1)) (drop (a + 1) text)

abbrev pub on_top : (Frame → Frame) → List Frame → List Frame
on_top f [] = []
on_top f (top ∷ st) = f top ∷ st

abbrev pub popped : List Frame → List Frame
popped [] = []
popped (top ∷ st) = st

-- The role of a container that opens in these.
abbrev pub role_in : List Frame → Option Text
role_in [] = some (codes "root")
role_in (parent ∷ st) =
    if parent.is_object
    then if parent.expect_value then parent.cur_key else some (codes "root")
    else parent.role

abbrev pub opened : Bool → List Frame → Frame
opened is_object st = record {
  is_object = is_object;
  role = role_in st;
  cur_key = none;
  expect_value = false;
  str_start = none;
}

-- A string ends at `i`: in an object it may be a key.
abbrev pub end_key : Text → ℕ → Frame → Frame
end_key text i top =
    if top.is_object && not top.expect_value
    then record top { cur_key = some (slice_after text top.str_start i) }
    else top

abbrev pub in_string : Text → ℕ → ℕ → Scan → Scan
in_string text i ch s =
    if s.esc
    then record s { esc = false }
    else if ch == 92
    then record s { esc = true }
    else if ch == 34
    then record s { in_str = false; stack = on_top (end_key text i) s.stack }
    else s

abbrev pub begin_string : ℕ → Scan → Scan
begin_string i s = record s {
  in_str = true;
  open_at = some i;
  stack = on_top (λ top. record top { str_start = some i }) s.stack;
}

abbrev pub at_colon : Frame → Frame
at_colon top = if top.is_object then record top { expect_value = true } else top

abbrev pub at_comma : Frame → Frame
at_comma top = if top.is_object then record top { expect_value = false; cur_key = none } else top

abbrev pub outside : ℕ → ℕ → Scan → Scan
outside i ch s =
    if ch == 34
    then begin_string i s
    else if ch == 123 || ch == 91
    then record s { stack = opened (ch == 123) s.stack ∷ s.stack }
    else if ch == 125 || ch == 93
    then record s { stack = popped s.stack }
    else if ch == 58
    then record s { stack = on_top at_colon s.stack }
    else if ch == 44
    then record s { stack = on_top at_comma s.stack }
    else s

-- One round of the loop, at index `i` of the text.
unfoldable pub scan_char : Text → ℕ → ℕ → Scan → Scan
scan_char text i ch s = if s.in_str then in_string text i ch s else outside i ch s

unfoldable pub scan_from : Text → ℕ → Text → Scan → Scan
unfolding scan_char
scan_from text i [] s = s
scan_from text i (ch ∷ rest) s = scan_from text (i + 1) rest (scan_char text i ch s)

abbrev pub at_start : Scan
at_start = record { stack = []; in_str = false; esc = false; open_at = none }

unfoldable pub scan : Text → ℕ → Scan
unfolding scan_from
scan text pos = scan_from text 0 (take pos text) at_start
