-- ===== src/Calldata/Uleb.antt =====
-- `fetch_uleb` and `map_to_size` against the format: what was written is read back, and nothing
-- but the shortest form of a number is read.
use genvm_executor.Base.{
  ℕ, zero, suc, ◌+◌, ◌*◌, ◌/◌, ◌%◌, ◌^◌, ◌≤◌, ◌<◌, ◌≡◌, refl, ap, ◌∙◌, ◌⊎◌, inl, inr, ◌≢◌, [], ◌∷◌,
  ◌++◌, arith, length, ltb, ltb→lt, ltb→le, Bool-cases, All,
}
use genvm_executor.Calldata.Value.{Bytes, IsByte}
use genvm_executor.Calldata.Format.{uleb, uleb_small, uleb_large, length-uleb_pos}
use genvm_executor.Calldata.Decode.{ok, stuck, fetch_uleb_loop, fetch_uleb}
use native.Mathlib.Nat.{div-add-mod}
use native.Mathlib.Numerals.{towards_suc}

pow_seven_more : (off : ℕ) → 2 ^ (off + 7) ≡ 128 * 2 ^ off
pow_seven_more off = simp towards_suc (omega arith)

-- The low seven bits of `n` at `off`, and the others seven places up.
regroup : (n off : ℕ) → n % 128 * 2 ^ off + n / 128 * 2 ^ (off + 7) ≡ n * 2 ^ off
regroup n off = omega (
  arith,
  ap (λ (t : ℕ). t * 2 ^ off) (div-add-mod n 128),
  ap (λ (t : ℕ). n / 128 * t) (pow_seven_more off),
)

-- One round on a byte with the top bit set over seven bits, and on a last byte.
pub inner_byte :
    (g res off : ℕ) (rest : Bytes)
    → g < 128
    → off + 7 < 2 ^ 64
    → fetch_uleb_loop ((g + 128) ∷ rest) res off
      ≡ fetch_uleb_loop rest (res + g * 2 ^ off) (off + 7)
unfolding fetch_uleb_loop
inner_byte g res off rest h l = let low : (g + 128) % 128 ≡ g = omega arith in rw low (ground arith)

last_byte :
    (g res off : ℕ) (rest : Bytes)
    → g < 128
    → (off ≡ 0) ⊎ (0 < g)
    → fetch_uleb_loop (g ∷ rest) res off ≡ ok (res + g * 2 ^ off, rest)
unfolding fetch_uleb_loop
last_byte g res off rest h s = let low : g % 128 ≡ g = omega arith in rw low (ground arith)

read_uleb :
    (k n res off : ℕ) (rest : Bytes)
    → n < k
    → (off ≡ 0) ⊎ (0 < n)
    → off + 7 * length (uleb n) < 2 ^ 64
    → fetch_uleb_loop (uleb n ++ rest) res off ≡ ok (res + n * 2 ^ off, rest)
read_uleb zero n res off rest h s l = absurd (omega arith)
read_uleb (suc k) n res off rest h s l = elim (Bool-cases (ltb n 128)) [
  | inl small ↦
      rw (uleb_small n (ltb→lt n 128 small)) (last_byte n res off rest (ltb→lt n 128 small) s)
  | inr large ↦
      let big : 128 ≤ n = ltb→le n 128 large in
      let l' : off + 7 * suc (length (uleb (n / 128))) < 2 ^ 64 = rw (uleb_large n big) at l in
      rw (uleb_large n big) (
        inner_byte (n % 128) res off (uleb (n / 128) ++ rest) (omega arith)
          (omega (arith, length-uleb_pos (n / 128)))
        ∙ read_uleb k (n / 128) (res + n % 128 * 2 ^ off) (off + 7) rest (omega arith)
            (inr (omega arith)) (omega arith)
        ∙ ap (λ t. ok (t, rest)) (omega (arith, regroup n off)))
]

-- `fetch_uleb` reads back the number that the format wrote, and leaves what follows.
pub fetch_uleb-uleb :
    (n : ℕ) (rest : Bytes)
    → 7 * length (uleb n) < 2 ^ 64
    → fetch_uleb (uleb n ++ rest) ≡ ok (n, rest)
unfolding fetch_uleb
fetch_uleb-uleb n rest l =
    read_uleb (suc n) n 0 0 rest (omega arith) (inl refl) (omega arith)
    ∙ ap (λ t. ok (t, rest)) (omega arith)

-- What a successful read from `off` on says of the bytes that it took.
abbrev Took : Bytes → ℕ → ℕ → ℕ → Bytes → Type 0
Took input res off v rest =
    (n : ℕ) × (v ≡ res + n * 2 ^ off) × (input ≡ uleb n ++ rest) × ((off ≡ 0) ⊎ (0 < n))

Took-last :
    (byte res off v : ℕ) (bs rest : Bytes)
    → byte < 128
    → fetch_uleb_loop (byte ∷ bs) res off ≡ ok (v, rest)
    → Took (byte ∷ bs) res off v rest
unfolding fetch_uleb_loop
Took-last byte res off v bs rest h e =
    let low : byte % 128 ≡ byte = omega arith in
    let sum : v ≡ res + byte % 128 * 2 ^ off = ground arith in
    (byte, rw low at sum, rw (uleb_small byte h) (ground arith), ground arith)

Took-inner :
    (byte res off v : ℕ) (bs rest : Bytes)
    → 128 ≤ byte
    → byte < 256
    → Took bs (res + byte % 128 * 2 ^ off) (off + 7) v rest
    → Took (byte ∷ bs) res off v rest
Took-inner byte res off v bs rest h b (n, ev, ei, en) =
    let whole : ℕ = byte % 128 + 128 * n in
    let top : whole / 128 ≡ n = omega arith in
    let low : whole % 128 ≡ byte % 128 = omega arith in
    let parts = rw (top, low) at (regroup whole off) in
    let first : byte ≡ byte % 128 + 128 = omega arith in
    (
      whole,
      omega (arith, parts),
      rw (uleb_large whole (omega arith), top, low) (cc),
      inr (omega arith),
    )

fetch_uleb_loop-Took :
    (input : Bytes) (res off v : ℕ) (rest : Bytes)
    → All IsByte input
    → fetch_uleb_loop input res off ≡ ok (v, rest)
    → Took input res off v rest
fetch_uleb_loop-Took [] res off v rest h e = unfold fetch_uleb_loop in cc
fetch_uleb_loop-Took (byte ∷ bs) res off v rest h e = elim (Bool-cases (ltb byte 128)) [
  | inl small ↦ Took-last byte res off v bs rest (ltb→lt byte 128 small) e
  | inr large ↦ Took-inner byte res off v bs rest (ltb→le byte 128 large) h.0 (
      fetch_uleb_loop-Took bs (res + byte % 128 * 2 ^ off) (off + 7) v rest h.1
        (unfold fetch_uleb_loop in ground arith))
]

-- Whatever `fetch_uleb` reads is the shortest form of a number.
pub fetch_uleb-Took :
    (input : Bytes) (v : ℕ) (rest : Bytes)
    → All IsByte input
    → fetch_uleb input ≡ ok (v, rest)
    → input ≡ uleb v ++ rest
unfolding fetch_uleb
fetch_uleb-Took input v rest h e =
    let (n, ev, ei, en) = fetch_uleb_loop-Took input 0 0 v rest h e in
    let same : v ≡ n = omega (arith, ev) in rw same ei

fetch_uleb_loop-ne-stuck : (input : Bytes) (res off : ℕ) → fetch_uleb_loop input res off ≢ stuck
unfolding fetch_uleb_loop
fetch_uleb_loop-ne-stuck [] res off = λ e. cc
fetch_uleb_loop-ne-stuck (b ∷ bs) res off =
    λ e. ground (arith, fetch_uleb_loop-ne-stuck bs (res + b % 128 * 2 ^ off) (off + 7))

pub fetch_uleb-ne-stuck : (input : Bytes) → fetch_uleb input ≢ stuck
unfolding fetch_uleb
fetch_uleb-ne-stuck input = fetch_uleb_loop-ne-stuck input 0 0
