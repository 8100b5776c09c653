-- ===== src/Editor/Complete/EndOfString.antt =====
-- Where the string at the cursor ends.
use karna.Common.{
  ℕ, suc, zero, ◌≤◌, ◌<◌, ◌≡◌, Bool, true, false, not, ◌&&◌, ◌||◌, ltb, ◌==◌, length, get_elem?,
  Option, none, some,
}
use karna.Text.{Text}
use karna.Editor.Complete.{code_at, ends_string}

-- The loop stops at the end of the document, at a line feed and at a quote without a backslash before it.
abbrev goes_on : Text → ℕ → Bool
goes_on document i =
    ltb i (length document) && not (code_at 10 document i || ends_string document i)

-- The loop from a place on, with enough fuel.
record IsEnd (document : Text) (start end : ℕ) : Type 0 where
  after : start ≤ end
  within : end ≤ length document
  stops : goes_on document end ≡ false
  passed : (i : ℕ) → start ≤ i → i < end → goes_on document i ≡ true

abbrev pub is_code : ℕ → Option ℕ → Bool
is_code code none = false
is_code code (some c) = c == code

-- Whether the string ends at a character, with the one before it: at a line feed, and at a quote that no
-- backslash stands right before.
abbrev pub closes : Option ℕ → Option ℕ → Bool
closes previous c = is_code 10 c || (is_code 34 c && not (is_code 92 previous))

-- The character before a place.
abbrev pub before : Text → ℕ → Option ℕ
before document zero = none
before document (suc i) = get_elem? document i
