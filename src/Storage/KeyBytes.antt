-- ===== src/Storage/KeyBytes.antt =====
-- The order of page numbers is the order of their bytes.
use genvm_executor.Base.{
  ℕ, zero, suc, ◌/◌, ◌%◌, ◌^◌, ◌≤◌, ◌<◌, ◌≡◌, ap, sym, ◌∙◌, inl, inr, Bool, true, false, ◌&&◌, ◌||◌,
  ltb, ltb→lt, ltb→le, Bool-cases, [], ◌++◌, arith, ◌==◌,
}
use native.Mathlib.Nat.{pow-suc, one-le-pow, div-div-eq-div-mul, div-mul-le_self, le-div_iff_mul-le}
use genvm_executor.Fees.Abi.{be_bytes}
use genvm_executor.Calldata.Text.{str_lt}
use genvm_executor.Storage.Pages.{Bytes, PageId, page_lt, to_bytes}

power_positive : (n : ℕ) → 0 < 256 ^ n
power_positive n = one-le-pow n 256 (omega arith)

div_mono : (p v w : ℕ) → 0 < p → w ≤ v → w / p ≤ v / p
div_mono p v w some_p h = (le-div_iff_mul-le some_p).1 (omega (arith, div-mul-le_self w p, h))

div_back : (n v w : ℕ) → v / 256 ^ n < w / 256 ^ n → v < w
div_back n v w h = elim (Bool-cases (ltb v w)) [
  | inl less ↦ ground arith
  | inr more ↦ absurd (omega (arith, h, div_mono (256 ^ n) v w (power_positive n) (ground arith)))
]

-- A comparison by the number first.
pick_less : (v w : ℕ) (b : Bool) → v < w → true ≡ (ltb v w || (v == w && b))
pick_less v w b h = ground arith

pick_more : (v w : ℕ) (b : Bool) → w < v → false ≡ (ltb v w || (v == w && b))
pick_more v w b h = ground arith

pick_equal : (v w : ℕ) (b : Bool) → v ≡ w → b ≡ (ltb v w || (v == w && b))
pick_equal v w true h = ground arith
pick_equal v w false h = ground arith

only_index : (i j : ℕ) → (ltb i j || (i == j && false)) ≡ ltb i j
only_index i j = ground arith

str_lt-be_bytes :
    (n v w : ℕ) (xs ys : Bytes)
    → v / 256 ^ n ≡ w / 256 ^ n
    → str_lt (be_bytes n v ++ xs) (be_bytes n w ++ ys) ≡ (ltb v w || (v == w && str_lt xs ys))
unfolding str_lt be_bytes
str_lt-be_bytes zero v w xs ys h = pick_equal v w (str_lt xs ys) (omega (arith, h))
str_lt-be_bytes (suc n) v w xs ys h =
    let split =
      λ (k : ℕ). div-div-eq-div-mul k (256 ^ n) 256 ∙ ap (λ p. k / p) (sym (pow-suc 256 n)) in
    let sv : v / 256 ^ n / 256 ≡ v / 256 ^ suc n = split v in
    let sw : w / 256 ^ n / 256 ≡ w / 256 ^ suc n = split w in
    let a = v / 256 ^ n in
    let b = w / 256 ^ n in
    elim (Bool-cases (ltb (a % 256) (b % 256))) [
      | inl less ↦
          let l : a < b = omega (arith, ltb→lt (a % 256) (b % 256) less, sv, sw, h) in
          let k = div_back n v w l in rw less (pick_less v w (str_lt xs ys) k)
      | inr not_less ↦ elim (Bool-cases (ltb (b % 256) (a % 256))) [
        | inl more ↦
            let l : b < a = omega (arith, ltb→lt (b % 256) (a % 256) more, sv, sw, h) in
            let k = div_back n w v l in rw (not_less, more) (pick_more v w (str_lt xs ys) k)
        | inr equal ↦
            rw (not_less, equal)
              (str_lt-be_bytes n v w xs ys (
                omega (
                  arith,
                  ltb→le (a % 256) (b % 256) not_less,
                  ltb→le (b % 256) (a % 256) equal,
                  sv,
                  sw,
                  h,
                )))
      ]
    ]

-- The bytes of two page numbers are in the order of the numbers, by slot and then by index.
pub to_bytes-page_lt :
    (a b : PageId)
    → a.0 < 2 ^ 256
    → b.0 < 2 ^ 256
    → a.1 < 2 ^ 32
    → b.1 < 2 ^ 32
    → str_lt (to_bytes a) (to_bytes b) ≡ page_lt a b
unfolding to_bytes page_lt str_lt be_bytes
to_bytes-page_lt (s, i) (t, j) hs ht hi hj =
    str_lt-be_bytes 32 s t (be_bytes 4 i) (be_bytes 4 j) (omega (arith, hs, ht))
    ∙ ap (λ b. ltb s t || (s == t && b))
        (str_lt-be_bytes 4 i j [] [] (omega (arith, hi, hj)) ∙ only_index i j)
