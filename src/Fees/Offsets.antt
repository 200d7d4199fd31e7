-- ===== src/Fees/Offsets.antt =====
-- The array of executor/crates/common/src/domain/fees/abi.rs: its head holds the places of its
-- elements.
use genvm_executor.Base.{
  ℕ, zero, suc, ◌+◌, ◌*◌, ◌≡◌, refl, ap, sym, ◌∙◌, some, List, [], ◌∷◌, ◌++◌, append_assoc,
  append-nil, arith, length, length-append, take, drop, take-append, get_elem?,
}
use genvm_executor.Fees.Allocation.{Bytes}
use genvm_executor.Fees.Abi.{
  be_bytes, push_u256, push_word, push_offsets, push_elements, encode_array,
}

pub length-be_bytes : (n value : ℕ) → length (be_bytes n value) ≡ n
unfolding be_bytes
length-be_bytes zero value = refl
length-be_bytes (suc n) value = omega (arith, length-be_bytes n value)

-- The offsets' words, and the elements one after another.
abbrev heads : ℕ → List Bytes → Bytes
heads offset [] = []
heads offset (element ∷ elements) = be_bytes 32 offset ++ heads (offset + length element) elements

abbrev tails : List Bytes → Bytes
tails [] = []
tails (element ∷ elements) = element ++ tails elements

length-heads :
    (offset : ℕ) (elements : List Bytes) → length (heads offset elements) ≡ length elements * 32
length-heads offset [] = refl
length-heads offset (element ∷ elements) =
    let rest = heads (offset + length element) elements in
    omega (
      arith,
      length-append (be_bytes 32 offset) rest,
      length-be_bytes 32 offset,
      length-heads (offset + length element) elements,
    )

push_offsets-heads :
    (buf : Bytes) (offset : ℕ) (elements : List Bytes)
    → push_offsets buf offset elements ≡ buf ++ heads offset elements
unfolding push_offsets push_word push_u256
push_offsets-heads buf offset [] = sym (append-nil buf)
push_offsets-heads buf offset (element ∷ elements) =
    push_offsets-heads (buf ++ be_bytes 32 offset) (offset + length element) elements
    ∙ append_assoc buf (be_bytes 32 offset) (heads (offset + length element) elements)

push_elements-tails :
    (buf : Bytes) (elements : List Bytes) → push_elements buf elements ≡ buf ++ tails elements
unfolding push_elements
push_elements-tails buf [] = sym (append-nil buf)
push_elements-tails buf (element ∷ elements) =
    push_elements-tails (buf ++ element) elements ∙ append_assoc buf element (tails elements)

-- A prefix of a known length is dropped, and then more.
drop-past :
    {A : Type 0} (xs ys : List A) (n k : ℕ) → n ≡ length xs + k → drop n (xs ++ ys) ≡ drop k ys
drop-past [] ys n k e = ap (λ m. drop m ys) (omega (arith, e))
drop-past (x ∷ xs) ys zero k e = absurd (omega arith)
drop-past (x ∷ xs) ys (suc n) k e = drop-past xs ys n k (omega arith)

take-first : {A : Type 0} (xs ys : List A) (n : ℕ) → n ≡ length xs → take n (xs ++ ys) ≡ xs
take-first xs ys n e = ap (λ m. take m (xs ++ ys)) e ∙ take-append xs ys

-- The `k`-th head word is the place of the `k`-th element, counted from `base` on.
Placed-heads :
    (base : ℕ) (elements : List Bytes) (after : Bytes) (k : ℕ) (element : Bytes)
    → get_elem? elements k ≡ some element
    → (offset : ℕ) × (rest : Bytes) × (take 32 (drop (32 * k) (heads base elements ++ after))
        ≡ be_bytes 32 (base + offset))
      × (drop offset (tails elements) ≡ element ++ rest)
Placed-heads base [] after k element at = cc
Placed-heads base (first ∷ elements) after zero element at =
    let e : first ≡ element = cc in
    let more = heads (base + length first) elements in
    (
      0,
      tails elements,
      ap (take 32) (append_assoc (be_bytes 32 base) more after)
          ∙ take-first (be_bytes 32 base) (more ++ after) 32 (sym (length-be_bytes 32 base))
          ∙ ap (be_bytes 32) (omega arith),
      ap (λ x. x ++ tails elements) e,
    )
Placed-heads base (first ∷ elements) after (suc k) element at =
    let more = heads (base + length first) elements in
    let word = length-be_bytes 32 base in
    let ih = Placed-heads (base + length first) elements after k element at in
    (
      length first + ih.0,
      ih.1,
      ap (λ l. take 32 (drop (32 * suc k) l)) (append_assoc (be_bytes 32 base) more after)
          ∙ ap (take 32)
              (drop-past (be_bytes 32 base) (more ++ after) (32 * suc k) (32 * k) (omega arith))
          ∙ ih.2
          ∙ ap (be_bytes 32) (omega arith),
      drop-past first (tails elements) (length first + ih.0) ih.0 refl ∙ ih.3,
    )

encode_array-parts :
    (elements : List Bytes)
    → encode_array elements
      ≡ (be_bytes 32 0x20 ++ be_bytes 32 (length elements))
        ++ (heads (length elements * 32) elements ++ tails elements)
unfolding encode_array push_word push_u256
encode_array-parts elements =
    let front = be_bytes 32 0x20 ++ be_bytes 32 (length elements) in
    let base = length elements * 32 in
    ap (λ buf. push_elements buf elements) (push_offsets-heads front base elements)
    ∙ push_elements-tails (front ++ heads base elements) elements
    ∙ append_assoc front (heads base elements) (tails elements)

-- The encoded array starts with the word 32 and the number of elements; after these 64 bytes, its k-th word is an offset, and the k-th element stands at that offset after these 64 bytes.
pub encode_array-offsets :
    (elements : List Bytes)
    → (take 32 (encode_array elements) ≡ be_bytes 32 0x20)
      × (take 32 (drop 32 (encode_array elements)) ≡ be_bytes 32 (length elements))
      × ((k : ℕ) (element : Bytes)
          → get_elem? elements k ≡ some element
          → (offset : ℕ) × (rest : Bytes) × (take 32 (drop (64 + 32 * k) (encode_array elements))
              ≡ be_bytes 32 offset)
            × (drop (64 + offset) (encode_array elements) ≡ element ++ rest))
encode_array-offsets elements =
    let first = be_bytes 32 0x20 in
    let count = be_bytes 32 (length elements) in
    let base = length elements * 32 in
    let all = heads base elements in
    let body = all ++ tails elements in
    let size_first = length-be_bytes 32 0x20 in
    let size_count = length-be_bytes 32 (length elements) in
    let both : length (first ++ count) ≡ 64 =
      omega (arith, length-append first count, size_first, size_count) in
    let split = encode_array-parts elements ∙ append_assoc first count body in
    (
      ap (take 32) split ∙ take-first first (count ++ body) 32 (sym size_first),
      ap (λ l. take 32 (drop 32 l)) split
          ∙ ap (take 32) (drop-past first (count ++ body) 32 0 (omega (arith, size_first)))
          ∙ take-first count body 32 (sym size_count),
      λ k element at.
          let found = Placed-heads base elements (tails elements) k element at in
          (
            base + found.0,
            found.1,
            ap (λ l. take 32 (drop (64 + 32 * k) l)) (encode_array-parts elements)
                ∙ ap (take 32)
                    (drop-past (first ++ count) body (64 + 32 * k) (32 * k) (omega (arith, both)))
                ∙ found.2,
            ap (drop (64 + (base + found.0))) (encode_array-parts elements)
                ∙ drop-past (first ++ count) body (64 + (base + found.0)) (base + found.0)
                    (omega (arith, both))
                ∙ drop-past all (tails elements) (base + found.0) found.0
                    (omega (arith, length-heads base elements))
                ∙ found.3,
          ),
    )
