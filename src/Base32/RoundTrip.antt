-- ===== src/Base32/RoundTrip.antt =====
-- The decoder of executor/crates/sdk-rs/src/gvm32.rs takes the encoder's digits back.
use genvm_executor.Base.{
  ℕ, zero, suc, ◌+◌, ◌-◌, ◌*◌, ◌/◌, ◌%◌, ◌^◌, ◌<◌, ◌≡◌, refl, ap, ◌∙◌, ◌&&◌, not, Bool, true, false,
  inl, inr, Bool-cases, Option, none, some, List, [], ◌∷◌, leb, ◌==◌, ==→eq, All, arith,
}
use genvm_executor.Base32.Code.{
  digit, push_digits, encode_from, encode_base32, to_ascii_lowercase, position, alias_of,
  decode_char, decoded, push_byte, decode_from, decode_base32,
}

is_some_of : ℕ → Option ℕ → Bool
is_some_of d none = false
is_some_of d (some x) = x == d

is_some_of-some : (d : ℕ) (o : Option ℕ) → is_some_of d o ≡ true → o ≡ some d
unfolding is_some_of
is_some_of-some d none h = cc
is_some_of-some d (some x) h = ap some (==→eq x d h)

both : (a b : Bool) → a && b ≡ true → (a ≡ true) × (b ≡ true)
both true true h = (refl, refl)
both true false h = cc
both false b h = cc

-- The digit is read as itself, and is not the hyphen.
reads_digit : ℕ → Bool
reads_digit d = not (digit d == 45) && is_some_of d (decode_char (digit d))

all_below : ℕ → Bool
unfolding reads_digit
all_below zero = true
all_below (suc n) = reads_digit n && all_below n

all_digits : all_below 32 ≡ true
unfolding all_below reads_digit is_some_of decode_char digit alias_of to_ascii_lowercase position
all_digits = refl

all_below_lem : (n d : ℕ) → all_below n ≡ true → d < n → reads_digit d ≡ true
unfolding all_below
all_below_lem zero d h l = absurd (omega arith)
all_below_lem (suc n) d h l =
    let parts = both (reads_digit n) (all_below n) h in
    elim (Bool-cases (d == n)) [
      | inl same ↦ let e = ==→eq d n same in rw e parts.0
      | inr other ↦ all_below_lem n d parts.1 (ground arith)
    ]

digit_lem : (d : ℕ) → d < 32 → (digit d == 45 ≡ false) × (decode_char (digit d) ≡ some d)
unfolding reads_digit
digit_lem d l =
    let parts =
      both (not (digit d == 45)) (is_some_of d (decode_char (digit d)))
        (all_below_lem 32 d all_digits l) in
    let hyphen = parts.0 in
    (
      elim (Bool-cases (digit d == 45)) [
        | inl yes_it ↦ let h = rw yes_it at parts.0 in cc
        | inr no_it ↦ no_it
      ],
      is_some_of-some d (decode_char (digit d)) parts.1,
    )

-- A digit that does not complete a byte, and one that does.
keep_digit :
    (value bits d : ℕ) (s : List ℕ)
    → d < 32
    → value < 128
    → leb 8 (bits + 5) ≡ false
    → decode_from value bits (digit d ∷ s) ≡ decode_from (value * 32 + d) (bits + 5) s
unfolding decode_from
keep_digit value bits d s l v short =
    let e : value * 32 % 2 ^ 32 + d ≡ value * 32 + d = omega arith in
    rw ((digit_lem d l).0, (digit_lem d l).1, decode_from) (rw (short, e) refl)

complete_byte :
    (value bits d : ℕ) (s : List ℕ)
    → d < 32
    → value < 128
    → leb 8 (bits + 5) ≡ true
    → decode_from value bits (digit d ∷ s)
      ≡ push_byte
          ((value * 32 + d) / 2 ^ (bits + 5 - 8) % 256)
          (decode_from ((value * 32 + d) % 2 ^ (bits + 5 - 8)) (bits + 5 - 8) s)
unfolding decode_from
complete_byte value bits d s l v long =
    let e : value * 32 % 2 ^ 32 + d ≡ value * 32 + d = omega arith in
    rw ((digit_lem d l).0, (digit_lem d l).1, decode_from) (rw (long, e) refl)

abbrev pub IsByte : ℕ → Type 0
IsByte b = b < 256

-- The bytes still to come are decoded from what the encoder makes of them, whatever part `v` of the
-- byte before is still to be written, the decoder having read its other part `w`.
abbrev Synced : List ℕ → Type 0
Synced bytes =
    (decode_from 0 0 (encode_from 0 0 bytes) ≡ decoded bytes)
    × ((w v : ℕ)
        → w < 128
        → v < 2
        → decode_from w 7 (encode_from v 1 bytes) ≡ decoded ((w * 2 + v) ∷ bytes))
    × ((w v : ℕ)
        → w < 64
        → v < 4
        → decode_from w 6 (encode_from v 2 bytes) ≡ decoded ((w * 4 + v) ∷ bytes))
    × ((w v : ℕ)
        → w < 32
        → v < 8
        → decode_from w 5 (encode_from v 3 bytes) ≡ decoded ((w * 8 + v) ∷ bytes))
    × ((w v : ℕ)
        → w < 16
        → v < 16
        → decode_from w 4 (encode_from v 4 bytes) ≡ decoded ((w * 16 + v) ∷ bytes))

finish_byte :
    (w bits d b : ℕ) (s rest : List ℕ)
    → d < 32
    → w < 128
    → leb 8 (bits + 5) ≡ true
    → (w * 32 + d) / 2 ^ (bits + 5 - 8) % 256 ≡ b
    → decode_from ((w * 32 + d) % 2 ^ (bits + 5 - 8)) (bits + 5 - 8) s ≡ decoded rest
    → decode_from w bits (digit d ∷ s) ≡ decoded (b ∷ rest)
unfolding push_byte
finish_byte w bits d b s rest l h long same more =
    complete_byte w bits d s l h long ∙ rw (same, more) refl

no_padding : (value bits : ℕ) → value ≡ 0 → decode_from value bits [] ≡ decoded []
unfolding decode_from
no_padding value bits e = rw e refl

Synced-nil : Synced []
unfolding encode_from decode_from
Synced-nil = (
  refl,
  λ w v h l.
      finish_byte w 7 (v * 16 % 32) (w * 2 + v) [] [] (omega arith) (omega arith) refl (omega arith)
        (no_padding _ _ (omega arith)),
  λ w v h l.
      finish_byte w 6 (v * 8 % 32) (w * 4 + v) [] [] (omega arith) (omega arith) refl (omega arith)
        (no_padding _ _ (omega arith)),
  λ w v h l.
      finish_byte w 5 (v * 4 % 32) (w * 8 + v) [] [] (omega arith) (omega arith) refl (omega arith)
        (no_padding _ _ (omega arith)),
  λ w v h l.
      finish_byte w 4 (v * 2 % 32) (w * 16 + v) [] [] (omega arith) (omega arith) refl (omega arith)
        (no_padding _ _ (omega arith)),
)

at_byte : (b c : ℕ) (bytes : List ℕ) → b ≡ c → decoded (b ∷ bytes) ≡ decoded (c ∷ bytes)
at_byte b c bytes e = ap (λ x. decoded (x ∷ bytes)) e

Synced-cons : (c : ℕ) (bytes : List ℕ) → c < 256 → Synced bytes → Synced (c ∷ bytes)
unfolding encode_from push_digits
Synced-cons c bytes small ih = (
  let value = 0 * 256 % 2 ^ 32 + c in
      let d = value / 8 % 32 in
      keep_digit 0 0 d (encode_from (value % 8) 3 bytes) (omega arith) (omega arith) refl
      ∙ ih.3 (0 * 32 + d) (value % 8) (omega arith) (omega arith)
      ∙ at_byte ((0 * 32 + d) * 8 + value % 8) c bytes (omega arith),
  λ w v h l.
      let value = v * 256 % 2 ^ 32 + c in
      let d = value / 16 % 32 in
      finish_byte w 7 d (w * 2 + v) _ (c ∷ bytes) (omega arith) (omega arith) refl (omega arith) (
        ih.4 ((w * 32 + d) % 16) (value % 16) (omega arith) (omega arith)
        ∙ at_byte _ c bytes (omega arith)),
  λ w v h l.
      let value = v * 256 % 2 ^ 32 + c in
      let d = value / 32 % 32 in
      let e = value / 1 % 32 in
      let w' = (w * 32 + d) % 8 in
      finish_byte w 6 d (w * 4 + v) _ (c ∷ bytes) (omega arith) (omega arith) refl (omega arith) (
        finish_byte w' 3 e c _ bytes (omega arith) (omega arith) refl (omega arith) (
          ap (λ x. decode_from x 0 (encode_from (value % 1) 0 bytes)) (omega arith)
          ∙ ap (λ x. decode_from 0 0 (encode_from x 0 bytes)) (omega arith)
          ∙ ih.0)),
  λ w v h l.
      let value = v * 256 % 2 ^ 32 + c in
      let d = value / 64 % 32 in
      let e = value / 2 % 32 in
      let w' = (w * 32 + d) % 4 in
      finish_byte w 5 d (w * 8 + v) _ (c ∷ bytes) (omega arith) (omega arith) refl (omega arith) (
        keep_digit w' 2 e _ (omega arith) (omega arith) refl
        ∙ ih.1 (w' * 32 + e) (value % 2) (omega arith) (omega arith)
        ∙ at_byte _ c bytes (omega arith)),
  λ w v h l.
      let value = v * 256 % 2 ^ 32 + c in
      let d = value / 128 % 32 in
      let e = value / 4 % 32 in
      let w' = (w * 32 + d) % 2 in
      finish_byte w 4 d (w * 16 + v) _ (c ∷ bytes) (omega arith) (omega arith) refl (omega arith) (
        keep_digit w' 1 e _ (omega arith) (omega arith) refl
        ∙ ih.2 (w' * 32 + e) (value % 4) (omega arith) (omega arith)
        ∙ at_byte _ c bytes (omega arith)),
)

All-Synced : (bytes : List ℕ) → All IsByte bytes → Synced bytes
All-Synced [] h = Synced-nil
All-Synced (c ∷ bytes) h = Synced-cons c bytes h.0 (All-Synced bytes h.1)

-- decode takes back what encode makes of any bytes.
pub decode_base32-encode_base32 :
    (bytes : List ℕ) → All IsByte bytes → decode_base32 (encode_base32 bytes) ≡ decoded bytes
unfolding decode_base32 encode_base32
decode_base32-encode_base32 bytes h = (All-Synced bytes h).0
