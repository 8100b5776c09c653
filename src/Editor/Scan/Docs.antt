-- ===== src/Editor/Scan/Docs.antt =====
-- JSON texts that the scan of the editor runs over, as they are typed: with blanks, escapes and scalars of any kind.
use karna.Common.{ℕ, Bool, true, not, ◌&&◌, ◌||◌, List, [], ◌∷◌, ◌++◌, every, ◌==◌}
use karna.Text.{Text}

-- A unit of a string, or a backslash with the unit that it escapes.
pub data Piece : Type 0 where
  plain escaped : ℕ → Piece

-- The texts before the closing brackets, and those of `spaced` and `member`, are blanks.
mutual
  pub data Doc : Type 0 where
    scalar : Text → Doc
    string : List Piece → Doc
    array : Docs → Text → Doc
    object : Members → Text → Doc
    spaced : Text → Doc → Doc

  pub data Docs : Type 0 where
    no_docs : Docs
    last : Doc → Docs
    item : Doc → Docs → Docs

  pub data Members : Type 0 where
    no_members : Members
    last_member : Text → List Piece → Doc → Members
    member : Text → List Piece → Doc → Members → Members

abbrev pub print_pieces : List Piece → Text
print_pieces [] = []
print_pieces (plain c ∷ ps) = c ∷ print_pieces ps
print_pieces (escaped c ∷ ps) = 92 ∷ c ∷ print_pieces ps

abbrev pub print_string : List Piece → Text
print_string ps = 34 ∷ (print_pieces ps ++ (34 ∷ []))

unfoldable mutual
  pub print : Doc → Text
  print (scalar t) = t
  print (string ps) = print_string ps
  print (array ds gap) = 91 ∷ (print_docs ds ++ (gap ++ (93 ∷ [])))
  print (object ms gap) = 123 ∷ (print_members ms ++ (gap ++ (125 ∷ [])))
  print (spaced gap d) = gap ++ print d

  pub print_docs : Docs → Text
  print_docs no_docs = []
  print_docs (last d) = print d
  print_docs (item d ds) = print d ++ (44 ∷ print_docs ds)

  pub print_members : Members → Text
  print_members no_members = []
  print_members (last_member gap k d) = gap ++ (print_string k ++ (58 ∷ print d))
  print_members (member gap k d ms) =
      gap ++ (print_string k ++ (58 ∷ (print d ++ (44 ∷ print_members ms))))

-- A unit that the scan passes over outside of a string.
abbrev pub is_bare : ℕ → Bool
is_bare c = not (c == 34 || (c == 123 || c == 91) || (c == 125 || c == 93) || c == 58 || c == 44)

abbrev pub is_piece : Piece → Bool
is_piece (plain c) = not (c == 92 || c == 34)
is_piece (escaped c) = true

unfoldable mutual
  pub is_well : Doc → Bool
  is_well (scalar t) = every is_bare t
  is_well (string ps) = every is_piece ps
  is_well (array ds gap) = is_well_docs ds && every is_bare gap
  is_well (object ms gap) = is_well_members ms && every is_bare gap
  is_well (spaced gap d) = every is_bare gap && is_well d

  pub is_well_docs : Docs → Bool
  is_well_docs no_docs = true
  is_well_docs (last d) = is_well d
  is_well_docs (item d ds) = is_well d && is_well_docs ds

  pub is_well_members : Members → Bool
  is_well_members no_members = true
  is_well_members (last_member gap k d) = every is_bare gap && (every is_piece k && is_well d)
  is_well_members (member gap k d ms) =
      every is_bare gap && (every is_piece k && (is_well d && is_well_members ms))
