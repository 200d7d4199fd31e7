-- ===== src/Calldata/Text.antt =====
-- What the calldata code uses of the standard library's text: `std::str::from_utf8`, which accepts
-- the well-formed byte sequences of the Unicode standard (table 3-7), and `Ord for str`, which
-- compares byte by byte.
use genvm_executor.Base.{
  ℕ, ◌≡◌, refl, Bool, true, false, Option, none, some, List, [], ◌∷◌, ltb, leb, if◌then◌else◌, ◌&&◌,
  arith,
}
use genvm_executor.Calldata.Value.{Bytes}

-- The ranges in which the continuation bytes after a leading byte lie; none if it cannot lead.
utf8_lead : ℕ → Option (List (ℕ × ℕ))
utf8_lead b =
    if ltb b 0x80
    then some []
    else if ltb b 0xc2
    then none
    else if ltb b 0xe0
    then some ((0x80, 0xbf) ∷ [])
    else if ltb b 0xe1
    then some ((0xa0, 0xbf) ∷ (0x80, 0xbf) ∷ [])
    else if ltb b 0xed
    then some ((0x80, 0xbf) ∷ (0x80, 0xbf) ∷ [])
    else if ltb b 0xee
    then some ((0x80, 0x9f) ∷ (0x80, 0xbf) ∷ [])
    else if ltb b 0xf0
    then some ((0x80, 0xbf) ∷ (0x80, 0xbf) ∷ [])
    else if ltb b 0xf1
    then some ((0x90, 0xbf) ∷ (0x80, 0xbf) ∷ (0x80, 0xbf) ∷ [])
    else if ltb b 0xf4
    then some ((0x80, 0xbf) ∷ (0x80, 0xbf) ∷ (0x80, 0xbf) ∷ [])
    else if ltb b 0xf5
    then some ((0x80, 0x8f) ∷ (0x80, 0xbf) ∷ (0x80, 0xbf) ∷ [])
    else none

utf8_run : List (ℕ × ℕ) → Bytes → Bool
utf8_run [] [] = true
utf8_run [] (b ∷ bs) = elim (utf8_lead b) [ none ↦ false | some pending ↦ utf8_run pending bs ]
utf8_run (r ∷ pending) [] = false
utf8_run ((lo, hi) ∷ pending) (b ∷ bs) = leb lo b && leb b hi && utf8_run pending bs

unfoldable pub is_utf8 : Bytes → Bool
unfolding utf8_run utf8_lead
is_utf8 = utf8_run []

unfoldable pub str_lt : Bytes → Bytes → Bool
str_lt [] [] = false
str_lt [] (y ∷ ys) = true
str_lt (x ∷ xs) [] = false
str_lt (x ∷ xs) (y ∷ ys) = if ltb x y then true else if ltb y x then false else str_lt xs ys

pub str_lt_irrefl : (xs : Bytes) → str_lt xs xs ≡ false
unfolding str_lt
str_lt_irrefl [] = refl
str_lt_irrefl (x ∷ xs) = ground (arith, str_lt_irrefl xs)

pub str_lt_asymm : (xs ys : Bytes) → str_lt xs ys ≡ true → str_lt ys xs ≡ false
unfolding str_lt
str_lt_asymm [] [] h = refl
str_lt_asymm [] (y ∷ ys) h = refl
str_lt_asymm (x ∷ xs) [] h = cc
str_lt_asymm (x ∷ xs) (y ∷ ys) h = ground (arith, str_lt_asymm xs ys)

pub str_lt_trans :
    (xs ys zs : Bytes) → str_lt xs ys ≡ true → str_lt ys zs ≡ true → str_lt xs zs ≡ true
unfolding str_lt
str_lt_trans [] [] zs h k = k
str_lt_trans [] (y ∷ ys) [] h k = k
str_lt_trans [] (y ∷ ys) (z ∷ zs) h k = refl
str_lt_trans (x ∷ xs) [] zs h k = ground arith
str_lt_trans (x ∷ xs) (y ∷ ys) [] h k = k
str_lt_trans (x ∷ xs) (y ∷ ys) (z ∷ zs) h k = ground (arith, str_lt_trans xs ys zs)
