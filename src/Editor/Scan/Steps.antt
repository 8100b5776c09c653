-- ===== src/Editor/Scan/Steps.antt =====
-- The steps of the scan over blanks, strings and separators.
use karna.Common.{
  subst, ℕ, ◌≡◌, refl, ap, sym, ◌∙◌, ◌+◌, Bool, true, false, not, ◌&&◌, ◌||◌, Option, none, some,
  List, [], ◌∷◌, ◌++◌, map, every, ◌==◌, arith, length, and-true,
}
use karna.Text.{Text}
use karna.Editor.Scan.{
  Frame, Scan, scan_char, scan_from, on_top, popped, end_key, at_colon, at_comma,
}
use karna.Editor.Scan.Docs.{Piece, plain, escaped, print_pieces, print_string, is_bare, is_piece}

-- A scan outside of a string, and in one.
abbrev pub out : List Frame → Option ℕ → Scan
out st o = record { stack = st; in_str = false; esc = false; open_at = o }

abbrev pub within : List Frame → Option ℕ → Scan
within st o = record { stack = st; in_str = true; esc = false; open_at = o }

-- A frame without the place where its last string began.
abbrev pub bare : Frame → Frame
bare f = record f { str_start = none }

-- A value may follow, or a key.
abbrev pub takes_value : List Frame → Bool
takes_value [] = true
takes_value (top ∷ st) = not top.is_object || top.expect_value

abbrev pub takes_key : List Frame → Bool
takes_key [] = false
takes_key (top ∷ st) = top.is_object && not top.expect_value

abbrev pub in_member : List Frame → Bool
in_member [] = false
in_member (top ∷ st) = top.is_object && top.expect_value

pub scan_from-append :
    (text : Text) (i : ℕ) (a b : Text) (s : Scan)
    → scan_from text i (a ++ b) s ≡ scan_from text (i + length a) b (scan_from text i a s)
unfolding scan_from
scan_from-append text i [] b s = ap (λ j. scan_from text j b s) (omega arith)
scan_from-append text i (c ∷ a) b s =
    scan_from-append text (i + 1) a b (scan_char text i c s)
    ∙ ap (λ j. scan_from text j b (scan_from text (i + 1) a (scan_char text i c s))) (omega arith)

module _ (text : Text) where
  pub char-bare :
      (i c : ℕ) (st : List Frame) (o : Option ℕ)
      → is_bare c ≡ true
      → scan_char text i c (out st o) ≡ out st o
  unfolding scan_char
  char-bare i c st o h = ground arith

  pub scan-gap :
      (i : ℕ) (gap : Text) (st : List Frame) (o : Option ℕ)
      → every is_bare gap ≡ true
      → scan_from text i gap (out st o) ≡ out st o
  unfolding scan_from
  scan-gap i [] st o h = refl
  scan-gap i (c ∷ gap) st o h =
      let (first, later) = and-true (is_bare c) (every is_bare gap) h in
      ap (scan_from text (i + 1) gap) (char-bare i c st o first) ∙ scan-gap (i + 1) gap st o later

  pub char-plain :
      (i c : ℕ) (st : List Frame) (o : Option ℕ)
      → not (c == 92 || c == 34) ≡ true
      → scan_char text i c (within st o) ≡ within st o
  unfolding scan_char
  char-plain i c st o h = ground arith

  pub scan-pieces :
      (i : ℕ) (ps : List Piece) (st : List Frame) (o : Option ℕ)
      → every is_piece ps ≡ true
      → scan_from text i (print_pieces ps) (within st o) ≡ within st o
  unfolding scan_from scan_char
  scan-pieces i [] st o h = refl
  scan-pieces i (plain c ∷ ps) st o h =
      let (first, later) = and-true (is_piece (plain c)) (every is_piece ps) h in
      ap (scan_from text (i + 1) (print_pieces ps)) (char-plain i c st o first)
      ∙ scan-pieces (i + 1) ps st o later
  scan-pieces i (escaped c ∷ ps) st o h = scan-pieces (i + 1 + 1) ps st o h

  -- The stack after a string, and the place of its end.
  abbrev pub after_string : ℕ → List Piece → List Frame → List Frame
  after_string i ps st =
      on_top (end_key text (i + 1 + length (print_pieces ps)))
        (on_top (λ top. record top { str_start = some i }) st)

  pub scan-string :
      (i : ℕ) (ps : List Piece) (st : List Frame) (o : Option ℕ)
      → every is_piece ps ≡ true
      → scan_from text i (print_string ps) (out st o) ≡ out (after_string i ps st) (some i)
  unfolding scan_from scan_char
  scan-string i ps st o h =
      let st1 = on_top (λ top. record top { str_start = some i }) st in
      scan_from-append text (i + 1) (print_pieces ps) (34 ∷ []) (within st1 (some i))
      ∙ ap (scan_from text (i + 1 + length (print_pieces ps)) (34 ∷ []))
          (scan-pieces (i + 1) ps st1 (some i) h)

-- A scan that ends outside of a string, with a stack of which something holds.
pub record Ends (P : List Frame → Type 0) (s : Scan) : Type 0 where
  pub after : List Frame
  pub begun : Option ℕ
  pub is : s ≡ out after begun
  pub holds : P after

-- The stack is the same but for the places where the last strings began.
abbrev pub Same : List Frame → List Frame → Type 0
Same st0 st = map bare st ≡ map bare st0

-- A test of the innermost container, over these outer ones.
abbrev pub Ready : (List Frame → Bool) → List Frame → List Frame → Type 0
Ready k outer st = (k st ≡ true) × Same outer (popped st)

abbrev pub in_array : List Frame → Bool
in_array [] = false
in_array (top ∷ st) = not top.is_object

-- A test that does not read the places of the strings.
abbrev pub IsSteady : (List Frame → Bool) → Type 0
IsSteady k = (st : List Frame) → k (map bare st) ≡ k st

pub takes_value-IsSteady : IsSteady takes_value
takes_value-IsSteady [] = refl
takes_value-IsSteady (top ∷ st) = refl

pub in_member-IsSteady : IsSteady in_member
in_member-IsSteady [] = refl
in_member-IsSteady (top ∷ st) = refl

pub in_array-IsSteady : IsSteady in_array
in_array-IsSteady [] = refl
in_array-IsSteady (top ∷ st) = refl

pub steady : (k : List Frame → Bool) (st0 st : List Frame) → IsSteady k → Same st0 st → k st ≡ k st0
steady k st0 st h same = sym (h st) ∙ ap k same ∙ h st0

pub map-popped : (st : List Frame) → map bare (popped st) ≡ popped (map bare st)
map-popped [] = refl
map-popped (top ∷ st) = refl

pub popped-on_top : (f : Frame → Frame) (st : List Frame) → popped (on_top f st) ≡ popped st
popped-on_top f [] = refl
popped-on_top f (top ∷ st) = refl

pub carry_over :
    (k : List Frame → Bool) (outer st0 st : List Frame)
    → IsSteady k
    → Same st0 st
    → Ready k outer st0
    → Ready k outer st
carry_over k outer st0 st h same (test, below) =
    (steady k st0 st h same ∙ test, map-popped st ∙ ap popped same ∙ sym (map-popped st0) ∙ below)

pub in_array-value : (st : List Frame) → in_array st ≡ true → takes_value st ≡ true
in_array-value [] h = absurd cc
in_array-value (top ∷ st) h = ground arith

pub in_member-value : (st : List Frame) → in_member st ≡ true → takes_value st ≡ true
in_member-value [] h = absurd cc
in_member-value (top ∷ st) h = ground arith

pub comma_array : (st : List Frame) → in_array st ≡ true → in_array (on_top at_comma st) ≡ true
comma_array [] h = h
comma_array (top ∷ st) h = ground arith

pub comma_member : (st : List Frame) → in_member st ≡ true → takes_key (on_top at_comma st) ≡ true
comma_member [] h = h
comma_member (top ∷ st) h = ground arith

pub colon_key : (st : List Frame) → takes_key st ≡ true → in_member (on_top at_colon st) ≡ true
colon_key [] h = h
colon_key (top ∷ st) h = ground arith

module _ (text : Text) where
  pub string_value :
      (i : ℕ) (ps : List Piece) (st : List Frame)
      → takes_value st ≡ true
      → Same st (after_string text i ps st)
  string_value i ps [] h = refl
  string_value i ps (top ∷ st) h =
      (let e : (top.is_object && not top.expect_value) ≡ false = ground arith in rw e refl)

  pub string_key :
      (i : ℕ) (ps : List Piece) (st : List Frame)
      → takes_key st ≡ true
      → takes_key (after_string text i ps st) ≡ true
  string_key i ps [] h = h
  string_key i ps (top ∷ st) h = rw (h, h) refl

  pub then_scan :
      {P Q : List Frame → Type 0} (i : ℕ) (a b : Text) (s : Scan)
      → Ends P (scan_from text i a s)
      → ((st : List Frame) (o : Option ℕ)
          → P st
          → Ends Q (scan_from text (i + length a) b (out st o)))
      → Ends Q (scan_from text i (a ++ b) s)
  then_scan {P} {Q} i a b s r f =
      subst (Ends Q)
        (sym (scan_from-append text i a b s ∙ ap (scan_from text (i + length a) b) r.is))
        (f r.after r.begun r.holds)
