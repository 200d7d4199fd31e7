-- ===== src/Base32/Hash.antt =====
-- executor/crates/common/src/bytes32.rs: hashes of 32 bytes and their text.
use genvm_executor.Base.{ℕ, ◌≡◌, ap, List, All, length, ◌==◌, if◌then◌else◌}
use genvm_executor.Base32.Code.{
  encode_base32, decode_base32, Decoded, decoded, invalid_char, non_zero_padding,
}
use genvm_executor.Base32.RoundTrip.{IsByte, decode_base32-encode_base32}

-- The hash that a text stands for, or an error: that of `decode`, or the wrong length.
pub data FromGvm32 : Type 0 where
  hash : List ℕ → FromGvm32
  invalid_encoding : Decoded → FromGvm32
  wrong_length : ℕ → FromGvm32

unfoldable pub to_gvm32 : List ℕ → List ℕ
to_gvm32 bytes = encode_base32 bytes

unfoldable pub checked_length : Decoded → FromGvm32
checked_length (decoded bytes) =
    if length bytes == 32 then hash bytes else wrong_length (length bytes)
checked_length (invalid_char c) = invalid_encoding (invalid_char c)
checked_length (non_zero_padding bits value) = invalid_encoding (non_zero_padding bits value)

unfoldable pub from_gvm32 : List ℕ → FromGvm32
from_gvm32 s = checked_length (decode_base32 s)

-- from_gvm32 takes back what to_gvm32 makes of 32 bytes, and refuses the text of any other number of
-- bytes with that number.
pub from_gvm32-to_gvm32 :
    (bytes : List ℕ)
    → All IsByte bytes
    → from_gvm32 (to_gvm32 bytes)
      ≡ (if length bytes == 32 then hash bytes else wrong_length (length bytes))
unfolding from_gvm32 to_gvm32 checked_length
from_gvm32-to_gvm32 bytes h = ap checked_length (decode_base32-encode_base32 bytes h)
