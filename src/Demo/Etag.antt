-- ===== src/Demo/Etag.antt =====
-- demo.js, lines 30 to 34 and 180 to 185: the etag of a stored text, and the check of an entry before
-- it is changed.
pub mod Hex
use Prim.Native.Nat.{bit_xor}
use karna.Common.{
  ℕ, zero, suc, ◌+◌, ◌*◌, ◌/◌, ◌%◌, ◌^◌, Bool, not, ◌&&◌, Option, none, some, List, [], ◌∷◌, ltb,
  get_elem?, if◌then◌else◌,
}
use karna.Demo.{Status}
use karna.Text.{Text, text_eq, is_empty}

-- The errors that the demo throws, by their message.
pub data Error : Type 0 where
  no_plugin no_longer_exists changed_meanwhile : Error
  unknown_rule_kind unknown_override_kind : Error
  needs_id starts_with_secrule needs_selector needs_action_type needs_response : Error
  type_error syntax_error : Error
  action_not_found action_expired needs_confirmation : Error
  not_pending : Status → Error

pub data Checked (A : Type 0) : Type 0 where
  throws : Error → Checked A
  gives : A → Checked A

abbrev pub digit : ℕ → ℕ
digit n = if ltb n 10 then 48 + n else 87 + n

-- `n.toString(16)` for a number of at most so many digits
unfoldable pub to_hex : ℕ → ℕ → Text → Text
to_hex zero n tail = tail
to_hex (suc digits) n tail =
    let rest = to_hex digits (n / 16) (digit (n % 16) ∷ tail) in
    if ltb n 16 then digit n ∷ tail else rest

-- `h = ((h * 33) ^ raw.charCodeAt(i)) >>> 0` over the code units
unfoldable pub hash_from : ℕ → Text → ℕ
hash_from h [] = h
hash_from h (c ∷ s) = hash_from (bit_xor ((h * 33) % 2 ^ 32) c % 2 ^ 32) s

-- A hash of 32 bits has at most eight digits.
unfoldable pub etag_of : Text → Text
unfolding to_hex hash_from
etag_of raw = to_hex 8 (hash_from 5381 raw) []

-- `etag && etagOf(raw) !== etag`, where an absent etag is the empty text
abbrev pub is_stale : Text → Text → Bool
is_stale raw etag = not (is_empty etag) && not (text_eq (etag_of raw) etag)

abbrev pub check_found : Option Text → Text → Checked Text
check_found none etag = throws no_longer_exists
check_found (some raw) etag = if is_stale raw etag then throws changed_meanwhile else gives raw

-- `checkEntry`; an index is a natural number, as the payload gives it.
unfoldable pub check_entry : List Text → ℕ → Text → Checked Text
check_entry list index etag = check_found (get_elem? list index) etag
