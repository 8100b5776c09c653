-- ===== src/Demo/Etag/Hex.antt =====
-- The etag of a text is its hash: the eight digits that `to_hex` gets are enough to read it back.
use Prim.Native.Nat.{bit_xor}
use karna.Common.{
  ℕ, zero, suc, ◌+◌, ◌*◌, ◌/◌, ◌%◌, ◌^◌, ◌<◌, ◌≡◌, ap, ◌∙◌, ◌-◌, inl, inr, [], ◌∷◌, ltb, arith,
  Bool-cases, if◌then◌else◌, ltb→lt, lt→ltb,
}
use karna.Text.{Text}
use karna.Demo.Etag.{digit, to_hex, hash_from, etag_of}

-- `parseInt(s, 16)` for the digits of `to_hex`, from the number that was read so far.
abbrev digit_value : ℕ → ℕ
digit_value c = if ltb c 58 then c - 48 else c - 87

abbrev pub read_hex : ℕ → Text → ℕ
read_hex n [] = n
read_hex n (c ∷ s) = read_hex (n * 16 + digit_value c) s

digit_value-digit : (n : ℕ) → n < 16 → digit_value (digit n) ≡ n
digit_value-digit n h = ground arith

-- The numbers of so many digits and one more.
abbrev bound : ℕ → ℕ
bound zero = 16
bound (suc digits) = 16 * bound digits

next_digit : (n : ℕ) (tail : Text) → read_hex (n / 16) (digit (n % 16) ∷ tail) ≡ read_hex n tail
next_digit n tail =
    ap (λ m. read_hex m tail)
      (ap (λ d. n / 16 * 16 + d) (digit_value-digit (n % 16) (omega arith)) ∙ omega arith)

first_digit : (n : ℕ) (tail : Text) → n < 16 → read_hex 0 (digit n ∷ tail) ≡ read_hex n tail
first_digit n tail h =
    ap (λ m. read_hex m tail) (ap (λ d. 0 * 16 + d) (digit_value-digit n h) ∙ omega arith)

read_hex-to_hex :
    (digits n : ℕ) (tail : Text)
    → n < bound digits
    → read_hex 0 (to_hex (suc digits) n tail) ≡ read_hex n tail
unfolding to_hex
read_hex-to_hex zero n tail h = rw (lt→ltb n 16 h) (first_digit n tail h)
read_hex-to_hex (suc digits) n tail h = elim (Bool-cases (ltb n 16)) [
  | inl small ↦ rw small (first_digit n tail (ltb→lt n 16 small))
  | inr big ↦
      rw big
        (read_hex-to_hex digits (n / 16) (digit (n % 16) ∷ tail) (omega arith) ∙ next_digit n tail)
]

hash_from_lt : (s : Text) (h : ℕ) → h < 2 ^ 32 → hash_from h s < 2 ^ 32
unfolding hash_from
hash_from_lt [] h e = e
hash_from_lt (c ∷ s) h e = hash_from_lt s (bit_xor ((h * 33) % 2 ^ 32) c % 2 ^ 32) (omega arith)

-- The etag of every text, read as a hexadecimal number, is the 32-bit hash of the text: the etag has all
-- digits of the hash, and two texts have one etag only where they have one hash.
pub read_hex-etag_of : (raw : Text) → read_hex 0 (etag_of raw) ≡ hash_from 5381 raw
read_hex-etag_of raw =
    unfold etag_of in
    read_hex-to_hex 7 (hash_from 5381 raw) [] (hash_from_lt raw 5381 (omega arith))
