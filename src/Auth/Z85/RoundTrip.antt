-- ===== src/Auth/Z85/RoundTrip.antt =====
-- What is encoded in Z85 by src/auth.ts decodes to the same bytes.
use libeam.Shared.{
  ℕ, zero, suc, ◌+◌, ◌*◌, ◌/◌, ◌%◌, ◌^◌, ◌<◌, ◌≡◌, refl, sym, ap, ◌∙◌, subst, ◌⊎◌, inl, inr, Bool,
  true, ◌&&◌, List, [], ◌∷◌, ◌++◌, some, arith, ◌==◌, length,
}
use libeam.Auth.Z85.{
  z85_chars, z85_char, z85_digit, index_from, put_digits, word, value_of, bytes_of, encode_words,
  decode_words, z85_encode, z85_decode,
}

-- Each number of a list is a byte.
abbrev pub AreBytes : List ℕ → Type 0
AreBytes [] = Unit
AreBytes (b ∷ bs) = (b < 256) × AreBytes bs

-- A test on all numbers below a bound.
all_below : ℕ → (ℕ → Bool) → Bool
all_below zero p = true
all_below (suc n) p = p n && all_below n p

last_or_below : (i n : ℕ) → i < suc n → (i ≡ n) ⊎ (i < n)
last_or_below i n l = ground arith

all_below_lem : (n : ℕ) (p : ℕ → Bool) → all_below n p ≡ true → (i : ℕ) → i < n → p i ≡ true
unfolding all_below
all_below_lem zero p h i l = absurd (omega arith)
all_below_lem (suc n) p h i l = elim (last_or_below i n l) [
  | inl e ↦ subst (λ j. p j ≡ true) (sym e) (ground arith)
  | inr below ↦ all_below_lem n p (ground arith) i below
]

table : all_below 85 (λ d. z85_digit (z85_char d) == d) ≡ true
unfolding all_below z85_digit z85_char index_from z85_chars
table = refl

z85_digit-z85_char : (d : ℕ) → d < 85 → z85_digit (z85_char d) ≡ d
z85_digit-z85_char d h =
    ground (arith, all_below_lem 85 (λ d. z85_digit (z85_char d) == d) table d h)

-- Five digits of a 32-bit number make the number again.
digits_lem :
    (v : ℕ)
    → v < 2 ^ 32
    → (((v / 85 / 85 / 85 / 85 % 85 * 85 + v / 85 / 85 / 85 % 85) * 85 + v / 85 / 85 % 85) * 85
            + v / 85 % 85)
          * 85
        + v % 85
      ≡ v
digits_lem v h = omega arith

bytes_lem :
    (a b c d : ℕ)
    → a < 256
    → b < 256
    → c < 256
    → d < 256
    → bytes_of (word a b c d) ≡ a ∷ b ∷ c ∷ d ∷ []
bytes_lem a b c d ha hb hc hd = ground arith

word_bound : (a b c d : ℕ) → a < 256 → b < 256 → c < 256 → d < 256 → word a b c d < 2 ^ 32
word_bound a b c d ha hb hc hd = omega arith

digit_at : (v : ℕ) → z85_digit (z85_char (v % 85)) ≡ v % 85
digit_at v = z85_digit-z85_char (v % 85) (omega arith)

value_lem :
    (v : ℕ)
    → v < 2 ^ 32
    → value_of
        (z85_char (v / 85 / 85 / 85 / 85 % 85))
        (z85_char (v / 85 / 85 / 85 % 85))
        (z85_char (v / 85 / 85 % 85))
        (z85_char (v / 85 % 85))
        (z85_char (v % 85))
      ≡ v
value_lem v h =
    rw
      (
        digit_at (v / 85 / 85 / 85 / 85),
        digit_at (v / 85 / 85 / 85),
        digit_at (v / 85 / 85),
        digit_at (v / 85),
        digit_at v,
      )
      (digits_lem v h)

decode_words-encode_words :
    (bytes : List ℕ)
    → AreBytes bytes
    → length bytes % 4 ≡ 0
    → decode_words (encode_words bytes) ≡ bytes
unfolding decode_words encode_words put_digits
decode_words-encode_words [] bs h = refl
decode_words-encode_words (a ∷ []) bs h = absurd (omega arith)
decode_words-encode_words (a ∷ b ∷ []) bs h = absurd (omega arith)
decode_words-encode_words (a ∷ b ∷ c ∷ []) bs h = absurd (omega arith)
decode_words-encode_words (a ∷ b ∷ c ∷ d ∷ bytes) (ha, (hb, (hc, (hd, bs)))) h =
    rw (value_lem (word a b c d) (word_bound a b c d ha hb hc hd)) (
      ap (λ quad. quad ++ decode_words (encode_words bytes)) (bytes_lem a b c d ha hb hc hd)
      ∙ ap (λ tail. a ∷ b ∷ c ∷ d ∷ tail) (decode_words-encode_words bytes bs (omega arith)))

length-encode_words : (bytes : List ℕ) → length bytes % 4 ≡ 0 → length (encode_words bytes) % 5 ≡ 0
unfolding encode_words put_digits
length-encode_words [] h = refl
length-encode_words (a ∷ []) h = absurd (omega arith)
length-encode_words (a ∷ b ∷ []) h = absurd (omega arith)
length-encode_words (a ∷ b ∷ c ∷ []) h = absurd (omega arith)
length-encode_words (a ∷ b ∷ c ∷ d ∷ bytes) h =
    omega (arith, length-encode_words bytes (omega arith))

-- A buffer whose length is a multiple of 4 encodes, and what comes out decodes to the same bytes.
pub z85_decode-z85_encode :
    (bytes : List ℕ)
    → AreBytes bytes
    → length bytes % 4 ≡ 0
    → (z85_encode bytes ≡ some (encode_words bytes))
      × (z85_decode (encode_words bytes) ≡ some bytes)
unfolding z85_encode z85_decode
z85_decode-z85_encode bytes bs h =
    (rw (h) refl, rw (length-encode_words bytes h, decode_words-encode_words bytes bs h) refl)
