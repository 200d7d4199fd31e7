-- ===== src/Storage/Chunks.antt =====
-- Pages out of a delta's bytes.
use genvm_executor.Base.{
  ℕ, zero, suc, ◌+◌, ◌*◌, ◌/◌, ◌^◌, ◌≤◌, ◌<◌, ◌≡◌, refl, ap, sym, ◌∙◌, List, [], ◌∷◌, ◌++◌, arith,
  length, length-append, length-drop, take, drop,
}
use genvm_executor.Storage.Pages.{Bytes, PageId, Pages, to_bytes, from_bytes, Delta}
use genvm_executor.Storage.PageKeys.{from_bytes-to_bytes}

-- `n` pages from `id` on, out of their bytes.
abbrev pub chunks : ℕ → PageId → Bytes → Pages
chunks zero id bytes = []
chunks (suc n) (slot, index) bytes =
    ((slot, index), take 32 bytes) ∷ chunks n (slot, index + 1) (drop 32 bytes)

-- The pages of a delta.
abbrev pub pages_of : Delta → Pages
pages_of (key, bytes) = chunks (length bytes / 32) (from_bytes key) bytes

abbrev pub all_pages_of : List Delta → Pages
all_pages_of [] = []
all_pages_of (d ∷ deltas) = pages_of d ++ all_pages_of deltas

pub take_all : (xs : Bytes) → take (length xs) xs ≡ xs
take_all [] = refl
take_all (x ∷ xs) = ap (λ ys. x ∷ ys) (take_all xs)

pub take_within : (n : ℕ) (xs ys : Bytes) → n ≤ length xs → take n (xs ++ ys) ≡ take n xs
take_within zero xs ys h = refl
take_within (suc n) [] ys h = absurd (omega (arith, h))
take_within (suc n) (x ∷ xs) ys h = ap (λ zs. x ∷ zs) (take_within n xs ys (omega (arith, h)))

pub drop_within : (n : ℕ) (xs ys : Bytes) → n ≤ length xs → drop n (xs ++ ys) ≡ drop n xs ++ ys
drop_within zero xs ys h = refl
drop_within (suc n) [] ys h = absurd (omega (arith, h))
drop_within (suc n) (x ∷ xs) ys h = drop_within n xs ys (omega (arith, h))

pub chunks-append :
    (m slot index : ℕ) (bytes v : Bytes)
    → length bytes ≡ m * 32
    → length v ≡ 32
    → chunks (m + 1) (slot, index) (bytes ++ v)
      ≡ chunks m (slot, index) bytes ++ ((slot, index + m), v) ∷ []
chunks-append zero slot index [] v h k =
    let whole : take 32 v ≡ v = ap (λ n. take n v) (sym k) ∙ take_all v in
    let here : index ≡ index + 0 = omega arith in rw (whole, sym here) refl
chunks-append zero slot index (x ∷ bytes) v h k = absurd (omega (arith, h))
chunks-append (suc m) slot index bytes v h k =
    let count : suc m + 1 ≡ suc (m + 1) = omega arith in
    let first : take 32 (bytes ++ v) ≡ take 32 bytes = take_within 32 bytes v (omega (arith, h)) in
    let later : drop 32 (bytes ++ v) ≡ drop 32 bytes ++ v =
      drop_within 32 bytes v (omega (arith, h)) in
    let there : index + 1 + m ≡ index + suc m = omega arith in
    ap (λ n. chunks n (slot, index) (bytes ++ v)) count
    ∙ rw
        (
          first,
          later,
          chunks-append m slot (index + 1) (drop 32 bytes) v
              (omega (arith, h, length-drop 32 bytes)) k,
          there,
        )
        refl

pub extend_pages :
    (key bytes v : Bytes) (slot first m : ℕ)
    → from_bytes key ≡ (slot, first)
    → length bytes ≡ m * 32
    → length v ≡ 32
    → pages_of (key, bytes ++ v) ≡ pages_of (key, bytes) ++ ((slot, first + m), v) ∷ []
extend_pages key bytes v slot first m id h k =
    let longer : length (bytes ++ v) / 32 ≡ m + 1 = omega (arith, length-append bytes v, h, k) in
    let before : length bytes / 32 ≡ m = omega (arith, h) in
    rw (id, longer, before) (chunks-append m slot first bytes v h k)

pub single_page :
    (slot index : ℕ) (v : Bytes)
    → slot < 2 ^ 256
    → index < 2 ^ 32
    → length v ≡ 32
    → pages_of (to_bytes (slot, index), v) ≡ ((slot, index), v) ∷ []
single_page slot index v h k l =
    let one : length v / 32 ≡ 1 = omega (arith, l) in
    let whole : take 32 v ≡ v = ap (λ n. take n v) (sym l) ∙ take_all v in
    rw (one, from_bytes-to_bytes slot index h k, whole) refl
