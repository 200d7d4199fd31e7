-- ===== src/Calldata/Encoder.antt =====
-- executor/crates/calldata/src/encoder.rs: the Writer trait, unsigned LEB128, and the Encoder's
-- methods. The writers are those that cannot fail (`Infallible`): Vec<u8> and CounterWriter.
-- `x & 0x7f` is written `x % 128`, `x >> 7` is `x / 128`, and `cur |= 0x80`, where `cur` has seven
-- bits, is `cur + 128`.
use genvm_executor.Base.{
  ℕ, suc, ◌+◌, ◌-◌, ◌*◌, ◌/◌, ◌%◌, ◌^◌, ◌<◌, ◌≡◌, ap, Bool, if◌then◌else◌, [], ◌∷◌, ◌++◌, length,
  length-append, append_assoc, arith, ◌==◌,
}
use genvm_executor.Base.{lt_wf}
use genvm_executor.Calldata.Value.{
  Bytes, ℤ, pos, negsuc, type_pint, type_nint, type_bytes, type_str, type_arr, type_map,
  special_null, special_false, special_true, special_addr,
}
use mathlib.Core.Logic.{dite}
use mathlib.Core.WellFounded.{Acc}
use native.Mathlib.Decide.{dec_lt}

-- The trait, with what its users rely on: two writes one after the other are one write.
pub record Writer (W : Type 0) : Type 0 where
  pub write_all : W → Bytes → W
  pub write_all-append : (w : W) (a b : Bytes) → write_all (write_all w a) b ≡ write_all w (a ++ b)

instance abbrev pub vec_writer : Writer Bytes
vec_writer = record { write_all = ◌++◌; write_all-append = append_assoc }

-- `CounterWriter(pub u64)`
pub data CounterWriter : Type 0 where
  counter : ℕ → CounterWriter

unfoldable pub bytes_written : CounterWriter → ℕ
bytes_written (counter n) = n

unfoldable pub count_all : CounterWriter → Bytes → CounterWriter
count_all (counter n) block = counter ((n + length block) % 2 ^ 64)

pub count_all-append :
    (w : CounterWriter) (a b : Bytes) → count_all (count_all w a) b ≡ count_all w (a ++ b)
unfolding count_all
count_all-append (counter n) a b = ap counter (omega (arith, length-append a b))

instance abbrev pub counter_writer : Writer CounterWriter
unfolding count_all
counter_writer = record { write_all = count_all; write_all-append = count_all-append }

pub shrinks : (n : ℕ) → 0 < n / 128 → n / 128 < n
shrinks n h = omega arith

module _ {W : Type 0} ⦃wr : Writer W⦄ where
  abbrev pub write_all : W → Bytes → W
  write_all = wr.write_all

  unfoldable pub write_one : W → ℕ → W
  write_one w byte = write_all w (byte ∷ [])

  unfoldable pub write_uleb_loop : W → (num : ℕ) → Acc ◌<◌ num → W
  write_uleb_loop w num (Acc.intro _ smaller) =
      let cur = num % 2 ^ 32 % 128 in
      dite (dec_lt 0 (num / 128))
        (λ has_next.
          write_uleb_loop (write_one w (cur + 128)) (num / 128) (smaller _ (shrinks num has_next)))
        (λ _. write_one w cur)

  unfoldable pub write_uleb : W → ℕ → W
  write_uleb w num = if num == 0 then write_one w 0 else write_uleb_loop w num (lt_wf.apply num)

  -- u64 and u128 have no digits to wrap here: the loop only shifts to the right.
  unfoldable pub write_uleb_u64 : W → ℕ → W
  write_uleb_u64 w num = if num == 0 then write_one w 0 else write_uleb_loop w num (lt_wf.apply num)

  unfoldable pub write_uleb_u128 : W → ℕ → W
  write_uleb_u128 w num =
      if num == 0 then write_one w 0 else write_uleb_loop w num (lt_wf.apply num)

  -- The shift and the sum are taken in u128.
  unfoldable pub write_uleb_tagged_u64 : W → ℕ → ℕ → W
  write_uleb_tagged_u64 w tag val = write_uleb_u128 w ((val * 2 ^ 3 % 2 ^ 128 + tag) % 2 ^ 128)

  unfoldable pub write_tagged_uleb : W → ℕ → ℕ → W
  write_tagged_uleb w tag val = write_uleb w (val * 2 ^ 3 + tag)

  unfoldable pub start_array : W → ℕ → W
  start_array w len = write_uleb_tagged_u64 w type_arr len

  unfoldable pub start_map : W → ℕ → W
  start_map w len = write_uleb_tagged_u64 w type_map len

  unfoldable pub push_null : W → W
  push_null w = write_all w (special_null ∷ [])

  unfoldable pub push_bool : W → Bool → W
  push_bool w value = write_all w ((if value then special_true else special_false) ∷ [])

  unfoldable pub push_u64 : W → ℕ → W
  push_u64 w value = write_uleb_tagged_u64 w type_pint value

  unfoldable pub push_bigint : W → ℤ → W
  push_bigint w (negsuc n) = write_tagged_uleb w type_nint (suc n - 1)
  push_bigint w (pos n) = write_tagged_uleb w type_pint n

  -- `len() as u64` of a slice.
  unfoldable pub push_str : W → Bytes → W
  push_str w value = write_all (write_uleb_tagged_u64 w type_str (length value)) value

  unfoldable pub push_bytes : W → Bytes → W
  push_bytes w value = write_all (write_uleb_tagged_u64 w type_bytes (length value)) value

  unfoldable pub push_address : W → Bytes → W
  push_address w addr = write_all (write_all w (special_addr ∷ [])) addr

  unfoldable pub push_map_k : W → Bytes → W
  push_map_k w key = write_all (write_uleb_u64 w (length key)) key
