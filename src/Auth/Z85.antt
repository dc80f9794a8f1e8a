-- ===== src/Auth/Z85.antt =====
-- src/auth.ts: `z85Encode` and `z85Decode`. Texts are lists of UTF-16 units, and a buffer is a list
-- of bytes, numbers below 256. An exception is `none`.
pub mod RoundTrip
use libeam.Shared.{
  ℕ, zero, suc, ◌+◌, ◌-◌, ◌*◌, ◌/◌, ◌%◌, ◌^◌, List, [], ◌∷◌, ◌++◌, Option, none, some, ◌==◌,
  if◌then◌else◌, length, get_elem?, or_else,
}
use libeam.Shared.Text.{units, units_of}

abbrev pub z85_chars : List ℕ
unfolding units units_of
z85_chars =
    units "0123456789abcdefghijklmnopqrstuvwxyzABCDEFGHIJKLMNOPQRSTUVWXYZ.-:+=^!/*?&<>()[]{}@%$#"

-- The character of a digit.
unfoldable pub z85_char : ℕ → ℕ
z85_char d = or_else (get_elem? z85_chars d) 0

-- The last digits of a value, in front of those that are there.
unfoldable pub put_digits : ℕ → ℕ → List ℕ → List ℕ
put_digits zero value chars = chars
put_digits (suc n) value chars = put_digits n (value / 85) (z85_char (value % 85) ∷ chars)

-- Four bytes as one 32-bit number, the first byte the highest.
abbrev pub word : ℕ → ℕ → ℕ → ℕ → ℕ
word a b c d = a * 2 ^ 24 + b * 2 ^ 16 + c * 2 ^ 8 + d

unfoldable pub encode_words : List ℕ → List ℕ
encode_words (a ∷ b ∷ c ∷ d ∷ rest) = put_digits 5 (word a b c d) [] ++ encode_words rest
encode_words rest = []

unfoldable pub z85_encode : List ℕ → Option (List ℕ)
unfolding encode_words
z85_encode buffer = if length buffer % 4 == 0 then some (encode_words buffer) else none

-- `indexOf`, from a position on.
unfoldable pub index_from : ℕ → ℕ → List ℕ → Option ℕ
index_from at char [] = none
index_from at char (c ∷ cs) = if c == char then some at else index_from (at + 1) char cs

-- The digit of a character. `indexOf` gives -1 for what is not in the alphabet, which is written
-- modulo 2 ^ 32: the shifts that read the value see no more of it.
unfoldable pub z85_digit : ℕ → ℕ
z85_digit char = or_else (index_from 0 char z85_chars) (2 ^ 32 - 1)

abbrev pub bytes_of : ℕ → List ℕ
bytes_of value =
    value / 2 ^ 24 % 256 ∷ value / 2 ^ 16 % 256 ∷ value / 2 ^ 8 % 256 ∷ value % 256 ∷ []

-- The value of five characters.
abbrev pub value_of : ℕ → ℕ → ℕ → ℕ → ℕ → ℕ
value_of a b c d e =
    (((z85_digit a * 85 + z85_digit b) * 85 + z85_digit c) * 85 + z85_digit d) * 85 + z85_digit e

unfoldable pub decode_words : List ℕ → List ℕ
decode_words (a ∷ b ∷ c ∷ d ∷ e ∷ str) = bytes_of (value_of a b c d e) ++ decode_words str
decode_words str = []

pub z85_decode : List ℕ → Option (List ℕ)
unfolding decode_words
z85_decode str = if length str % 5 == 0 then some (decode_words str) else none
