-- ===== src/Base32/Tests.antt =====
-- Base32 at work, and the round trip at a concrete input.
use genvm_executor.Base.{ℕ, ◌≡◌, refl, List, [], ◌∷◌, arith}
use genvm_executor.Base32.Code.{
  encode_base32, encode_from, push_digits, digit, decode_base32, decode_from, decode_char, alias_of,
  to_ascii_lowercase, position, push_byte, decoded, invalid_char, non_zero_padding,
}
use genvm_executor.Base32.Hash.{wrong_length, to_gvm32, from_gvm32, from_gvm32-to_gvm32}
use genvm_executor.Base32.RoundTrip.{decode_base32-encode_base32}

abbrev bytes : List ℕ
bytes = 171 ∷ 51 ∷ 82 ∷ []

-- ncsn4
encoded : encode_base32 bytes ≡ 110 ∷ 99 ∷ 115 ∷ 110 ∷ 52 ∷ []
unfolding encode_base32 encode_from push_digits digit
encoded = refl

-- N-CSn4
aliases : decode_base32 (78 ∷ 45 ∷ 67 ∷ 83 ∷ 110 ∷ 52 ∷ []) ≡ decoded bytes
unfolding decode_base32 decode_from decode_char alias_of to_ascii_lowercase position push_byte
aliases = refl

-- The letter u, and 01, which has two bits too many.
bad_char : decode_base32 (117 ∷ []) ≡ invalid_char 117
unfolding decode_base32 decode_from decode_char alias_of to_ascii_lowercase position
bad_char = refl

bad_padding : decode_base32 (48 ∷ 49 ∷ []) ≡ non_zero_padding 2 1
unfolding decode_base32 decode_from decode_char alias_of to_ascii_lowercase position push_byte
bad_padding = refl

decode_base32-encode_base32_example : decode_base32 (encode_base32 bytes) ≡ decoded bytes
decode_base32-encode_base32_example =
    decode_base32-encode_base32 bytes (omega arith, (omega arith, (omega arith, tt)))

from_gvm32-to_gvm32_example : from_gvm32 (to_gvm32 bytes) ≡ wrong_length 3
from_gvm32-to_gvm32_example =
    from_gvm32-to_gvm32 bytes (omega arith, (omega arith, (omega arith, tt)))
