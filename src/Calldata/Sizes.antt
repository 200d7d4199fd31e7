-- ===== src/Calldata/Sizes.antt =====
-- `map_to_size` and `fetch_slice`: sizes below 2^32 pass, and a slice is what its size says.
use genvm_executor.Base.{
  ℕ, zero, suc, ◌*◌, ◌/◌, ◌^◌, ◌≤◌, ◌<◌, ◌≡◌, ◌++◌, arith, length, length-take, take-append-drop,
  take-append, drop-append, length-append,
}
use genvm_executor.Calldata.Value.{Bytes}
use genvm_executor.Calldata.Decode.{ok, bits_loop, bits, map_to_size, fetch_slice}
use native.Mathlib.Nat.{pow-suc}

double : (k : ℕ) → 2 ^ suc k ≡ 2 * 2 ^ k
double k = simp pow-suc (omega arith)

two_pow_pos : (k : ℕ) → 0 < 2 ^ k
two_pow_pos zero = omega arith
two_pow_pos (suc k) = omega (arith, double k, two_pow_pos k)

bits_loop-le : (k fuel n : ℕ) → n ≤ fuel → n < 2 ^ k → bits_loop fuel n ≤ k
unfolding bits_loop
bits_loop-le k fuel zero h l = omega arith
bits_loop-le k zero (suc n) h l = absurd (omega arith)
bits_loop-le zero (suc fuel) (suc n) h l = absurd (omega arith)
bits_loop-le (suc k) (suc fuel) (suc n) h l =
    omega (arith, bits_loop-le k fuel (suc n / 2) (omega arith) (omega (arith, double k)))

lt-bits_loop : (k fuel n : ℕ) → n ≤ fuel → 2 ^ k ≤ n → k < bits_loop fuel n
unfolding bits_loop
lt-bits_loop zero fuel zero h l = absurd (omega arith)
lt-bits_loop (suc k) fuel zero h l = absurd (omega (arith, two_pow_pos (suc k)))
lt-bits_loop k zero (suc n) h l = absurd (omega arith)
lt-bits_loop zero (suc fuel) (suc n) h l = omega arith
lt-bits_loop (suc k) (suc fuel) (suc n) h l =
    omega (arith, lt-bits_loop k fuel (suc n / 2) (omega arith) (omega (arith, double k)))

pub bits-le : (k n : ℕ) → n < 2 ^ k → bits n ≤ k
unfolding bits
bits-le k n l = bits_loop-le k n n (omega arith) l

pub lt-bits : (k n : ℕ) → 2 ^ k ≤ n → k < bits n
unfolding bits
lt-bits k n l = lt-bits_loop k n n (omega arith) l

pub map_to_size_small : (n : ℕ) → n < 2 ^ 32 → map_to_size n ≡ ok n
unfolding map_to_size
map_to_size_small n h = ground (arith, bits-le 32 n)

pub map_to_size-ok : (n s : ℕ) → map_to_size n ≡ ok s → (s ≡ n) × (n < 2 ^ 32)
unfolding map_to_size
map_to_size-ok n s e = ground (arith, lt-bits 32 n)

pub fetch_slice-append : (b rest : Bytes) → fetch_slice (length b) (b ++ rest) ≡ ok (b, rest)
unfolding fetch_slice
fetch_slice-append b rest =
    ground (arith, length-append b rest, take-append b rest, drop-append b rest)

pub fetch_slice-ok :
    (n : ℕ) (input s rest : Bytes)
    → fetch_slice n input ≡ ok (s, rest)
    → (length s ≡ n) × (input ≡ s ++ rest)
unfolding fetch_slice
fetch_slice-ok n input s rest e = ground (arith, length-take n input, take-append-drop n input)
