-- ===== src/Http/Url/Text.antt =====
-- Decoding an encoded text.
use medici.Prelude.{
  ℕ, ◌+◌, ◌*◌, ◌/◌, ◌%◌, ◌<◌, ◌≡◌, ◌≢◌, refl, ap, ◌∙◌, inl, inr, true, List, [], ◌∷◌, ◌++◌, some,
  arith, Bool-cases, ◌⊎◌,
}
use medici.Http.Url.{
  is_unreserved, hex_digit, encode_char, encode_string_for_url, digit_value, hex_value, put,
  decode_string_from_url,
}

-- Every byte is an ASCII character.
unfoldable pub AllAscii : List ℕ → Type 0
AllAscii [] = Unit
AllAscii (c ∷ s) = (c < 128) × AllAscii s

digit_lem : (d : ℕ) → d < 16 → digit_value (hex_digit d) ≡ some d
unfolding digit_value
digit_lem d h = ground arith

hex_two :
    (d e x y : ℕ)
    → digit_value d ≡ some x
    → digit_value e ≡ some y
    → hex_value d e ≡ some (16 * x + y)
unfolding hex_value
hex_two d e x y h k = rw (hex_value, h, k)

hex_lem : (c : ℕ) → c < 128 → hex_value (hex_digit (c / 16)) (hex_digit (c % 16)) ≡ some c
hex_lem c h =
    let whole : 16 * (c / 16) + c % 16 ≡ c = omega arith in
    hex_two (hex_digit (c / 16)) (hex_digit (c % 16)) (c / 16) (c % 16)
      (digit_lem (c / 16) (omega arith)) (digit_lem (c % 16) (omega arith))
    ∙ ap some whole

decode_plain :
    (c : ℕ) (s : List ℕ)
    → c ≢ b'%'
    → c ≢ b'+'
    → decode_string_from_url (c ∷ s) ≡ put c (decode_string_from_url s)
unfolding decode_string_from_url
decode_plain c [] h k = ground (arith, h, k)
decode_plain c (d ∷ []) h k = ground (arith, h, k)
decode_plain c (d ∷ e ∷ s) h k = ground (arith, h, k)

decode_escape :
    (d e v : ℕ) (s : List ℕ)
    → hex_value d e ≡ some v
    → decode_string_from_url (b'%' ∷ d ∷ e ∷ s) ≡ put v (decode_string_from_url s)
unfolding decode_string_from_url
decode_escape d e v s h = rw (decode_string_from_url, h)

pub encode_cases :
    (c : ℕ)
    → c < 128
    → ((encode_char c ≡ c ∷ []) × (is_unreserved c ≡ true))
      ⊎ (encode_char c ≡ b'%' ∷ hex_digit (c / 16) ∷ hex_digit (c % 16) ∷ [])
unfolding encode_char
encode_cases c h = elim (Bool-cases (is_unreserved c)) [
  | inl free ↦ inl (rw free, free)
  | inr reserved ↦ inr (ground (arith, reserved, h))
]

pub unreserved_ne : (c : ℕ) → is_unreserved c ≡ true → (c ≢ b'%') × (c ≢ b'+')
unfolding is_unreserved
unreserved_ne c h = (λ e. absurd (ground (arith, e)), λ e. absurd (ground (arith, e)))

-- Decoding undoes encoding, for texts of ASCII characters.
pub decode-encode :
    (s : List ℕ) → AllAscii s → decode_string_from_url (encode_string_for_url s) ≡ some s
unfolding AllAscii encode_string_for_url decode_string_from_url
decode-encode [] a = refl
decode-encode (c ∷ s) (h, a) = elim (encode_cases c h) [
  | inl (one, free) ↦
      ap (λ t. decode_string_from_url (t ++ encode_string_for_url s)) one
      ∙ decode_plain c (encode_string_for_url s) (unreserved_ne c free).0 (unreserved_ne c free).1
      ∙ ap (put c) (decode-encode s a)
  | inr escaped ↦
      ap (λ t. decode_string_from_url (t ++ encode_string_for_url s)) escaped
      ∙ decode_escape (hex_digit (c / 16)) (hex_digit (c % 16)) c (encode_string_for_url s)
          (hex_lem c h)
      ∙ ap (put c) (decode-encode s a)
]
