-- ===== src/Base32/Code.antt =====
-- executor/crates/sdk-rs/src/gvm32.rs: the encoder and the decoder of Crockford's Base32. Characters
-- are their ASCII codes; `value` and `bits` are u32.
use genvm_executor.Base.{
  ℕ, zero, suc, ◌+◌, ◌-◌, ◌*◌, ◌/◌, ◌%◌, ◌^◌, ◌&&◌, ◌||◌, Option, none, some, List, [], ◌∷◌, ◌++◌,
  ltb, leb, ◌==◌, get_or, if◌then◌else◌,
}

-- 0123456789abcdefghjkmnpqrstvwxyz
abbrev pub alphabet : List ℕ
alphabet =
    48 ∷ 49 ∷ 50 ∷ 51 ∷ 52 ∷ 53 ∷ 54 ∷ 55 ∷ 56 ∷ 57 ∷ 97 ∷ 98 ∷ 99 ∷ 100 ∷ 101 ∷ 102 ∷ 103 ∷ 104
    ∷ 106 ∷ 107 ∷ 109 ∷ 110 ∷ 112 ∷ 113 ∷ 114 ∷ 115 ∷ 116 ∷ 118 ∷ 119 ∷ 120 ∷ 121 ∷ 122 ∷ []

unfoldable pub digit : ℕ → ℕ
digit d = get_or alphabet d 0

-- The inner loop, with `bits` as its fuel, since a round takes 5 of them: what it pushes, and the
-- bits that it leaves.
unfoldable pub push_digits : ℕ → ℕ → ℕ → List ℕ × ℕ
push_digits zero value bits = ([], bits)
push_digits (suc fuel) value bits =
    let (out, left) = push_digits fuel value (bits - 5) in
    if ltb bits 5 then ([], bits) else (digit (value / 2 ^ (bits - 5) % 32) ∷ out, left)

unfoldable pub encode_from : ℕ → ℕ → List ℕ → List ℕ
encode_from value bits [] = if ltb 0 bits then digit (value * 2 ^ (5 - bits) % 32) ∷ [] else []
encode_from value bits (b ∷ bytes) =
    let value = value * 256 % 2 ^ 32 + b in
    let (out, left) = push_digits (bits + 8) value (bits + 8) in
    out ++ encode_from (value % 2 ^ left) left bytes

unfoldable pub encode_base32 : List ℕ → List ℕ
encode_base32 bytes = encode_from 0 0 bytes

unfoldable pub to_ascii_lowercase : ℕ → ℕ
to_ascii_lowercase c = if leb 65 c && leb c 90 then c + 32 else c

unfoldable pub position : List ℕ → ℕ → ℕ → Option ℕ
position [] c i = none
position (b ∷ rest) c i = if b == c then some i else position rest c (i + 1)

-- o is 0, i and l are 1.
unfoldable pub alias_of : ℕ → ℕ
alias_of c = if c == 111 then 48 else if c == 105 || c == 108 then 49 else c

unfoldable pub decode_char : ℕ → Option ℕ
decode_char c = position alphabet (alias_of (to_ascii_lowercase c)) 0

pub data Decoded : Type 0 where
  decoded : List ℕ → Decoded
  invalid_char : ℕ → Decoded
  non_zero_padding : ℕ → ℕ → Decoded

unfoldable pub push_byte : ℕ → Decoded → Decoded
push_byte b (decoded out) = decoded (b ∷ out)
push_byte b (invalid_char c) = invalid_char c
push_byte b (non_zero_padding bits value) = non_zero_padding bits value

unfoldable pub decode_from : ℕ → ℕ → List ℕ → Decoded
decode_from value bits [] = if value == 0 then decoded [] else non_zero_padding bits value
decode_from value bits (c ∷ s) =
    if c == 45 then decode_from value bits s else elim (decode_char c) [
      | none ↦ invalid_char c
      | some d ↦
          let value = value * 32 % 2 ^ 32 + d in
          let left = bits + 5 - 8 in
          if leb 8 (bits + 5)
          then push_byte (value / 2 ^ left % 256) (decode_from (value % 2 ^ left) left s)
          else decode_from value (bits + 5) s
    ]

unfoldable pub decode_base32 : List ℕ → Decoded
decode_base32 s = decode_from 0 0 s
