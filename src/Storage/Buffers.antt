-- ===== src/Storage/Buffers.antt =====
-- Buffers of bytes: what `copy_from_slice` leaves, and buffers as pieces of a function.
use genvm_executor.Base.{
  ℕ, zero, suc, ◌+◌, ◌-◌, ◌≤◌, ◌<◌, ◌≡◌, refl, ap, ◌∙◌, ◌&&◌, [], ◌∷◌, ◌++◌, arith, ltb, leb,
  ltb→le, Bool-cases, inl, inr, if◌then◌else◌, length, take, drop, get_or, length-append,
  length-take, length-drop,
}
use genvm_executor.Storage.Pages.{Bytes}
use genvm_executor.Storage.Access.{copy_at}

pub get_or-append :
    (xs ys : Bytes) (i : ℕ)
    → get_or (xs ++ ys) i 0
      ≡ (if ltb i (length xs) then get_or xs i 0 else get_or ys (i - length xs) 0)
get_or-append [] ys i =
    ground (arith, ap (λ j. get_or ys j 0) (let e : i - 0 ≡ i = omega arith in e))
get_or-append (x ∷ xs) ys zero = ground arith
get_or-append (x ∷ xs) ys (suc i) = get_or-append xs ys i ∙ ground arith

pub get_or-take :
    (n : ℕ) (xs : Bytes) (i : ℕ) → get_or (take n xs) i 0 ≡ (if ltb i n then get_or xs i 0 else 0)
get_or-take zero xs i = ground arith
get_or-take (suc n) [] i = ground arith
get_or-take (suc n) (x ∷ xs) zero = ground arith
get_or-take (suc n) (x ∷ xs) (suc i) = get_or-take n xs i ∙ ground arith

pub get_or-drop : (n : ℕ) (xs : Bytes) (i : ℕ) → get_or (drop n xs) i 0 ≡ get_or xs (n + i) 0
get_or-drop zero xs i = ap (λ j. get_or xs j 0) (omega arith)
get_or-drop (suc n) [] i = refl
get_or-drop (suc n) (x ∷ xs) i =
    get_or-drop n xs i
    ∙ ap (λ j. get_or (x ∷ xs) j 0) (let e : suc (n + i) ≡ suc n + i = omega arith in e)

pub length-copy_at :
    (buf : Bytes) (o : ℕ) (bytes : Bytes)
    → o + length bytes ≤ length buf
    → length (copy_at buf o bytes) ≡ length buf
unfolding copy_at
length-copy_at buf o bytes h = omega (
  arith,
  length-append (take o buf) (bytes ++ drop (o + length bytes) buf),
  length-append bytes (drop (o + length bytes) buf),
  length-take o buf,
  length-drop (o + length bytes) buf,
)

-- The bytes stand at their place, and the others stay.
pub get_or-copy_at :
    (buf : Bytes) (o : ℕ) (bytes : Bytes) (i : ℕ)
    → o + length bytes ≤ length buf
    → get_or (copy_at buf o bytes) i 0
      ≡ (if leb o i && ltb i (o + length bytes) then get_or bytes (i - o) 0 else get_or buf i 0)
unfolding copy_at
get_or-copy_at buf o bytes i h =
    let e : length (take o buf) ≡ o = omega (arith, length-take o buf) in
    rw
      (
        get_or-append (take o buf) (bytes ++ drop (o + length bytes) buf) i,
        e,
        get_or-append bytes (drop (o + length bytes) buf) (i - o),
        get_or-take o buf i,
        get_or-drop (o + length bytes) buf (i - o - length bytes),
      )
      (elim (Bool-cases (ltb i o)) [
        | inl before ↦ ground arith
        | inr after ↦ elim (Bool-cases (ltb (i - o) (length bytes))) [
          | inl inside ↦ ground arith
          | inr beyond ↦
              let k : o + length bytes + (i - o - length bytes) ≡ i =
                omega (arith, ltb→le i o after, ltb→le _ _ beyond) in
              rw k (ground arith)
        ]
      ])

-- The values of `f` at `n` places from `from` on.
abbrev pub slice : (ℕ → ℕ) → ℕ → ℕ → Bytes
slice f from zero = []
slice f from (suc n) = f from ∷ slice f (from + 1) n

pub length-slice : (f : ℕ → ℕ) (from n : ℕ) → length (slice f from n) ≡ n
length-slice f from zero = refl
length-slice f from (suc n) = omega (arith, length-slice f (from + 1) n)

pub get_or-slice : (f : ℕ → ℕ) (from n i : ℕ) → i < n → get_or (slice f from n) i 0 ≡ f (from + i)
get_or-slice f from zero i h = absurd (omega arith)
get_or-slice f from (suc n) zero h = ap f (omega arith)
get_or-slice f from (suc n) (suc i) h =
    get_or-slice f (from + 1) n i (omega arith) ∙ ap f (omega arith)

pub eq-slice :
    (f : ℕ → ℕ) (from n : ℕ) (bytes : Bytes)
    → length bytes ≡ n
    → ((i : ℕ) → i < n → get_or bytes i 0 ≡ f (from + i))
    → bytes ≡ slice f from n
eq-slice f from zero [] e h = refl
eq-slice f from zero (x ∷ bytes) e h = absurd (omega arith)
eq-slice f from (suc n) [] e h = absurd (omega arith)
eq-slice f from (suc n) (x ∷ bytes) e h =
    let first : x ≡ f from = h 0 (omega arith) ∙ ap f (omega arith) in
    let rest : bytes ≡ slice f (from + 1) n =
      eq-slice f (from + 1) n bytes (omega arith)
        (λ i l. h (suc i) (omega arith) ∙ ap f (omega arith)) in
    ap (λ y. y ∷ bytes) first ∙ ap (λ l. f from ∷ l) rest
