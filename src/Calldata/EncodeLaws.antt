-- ===== src/Calldata/EncodeLaws.antt =====
-- What the encoder writes: each method, and the whole of `encode_to`, against the format.
use genvm_executor.Base.{
  ℕ, zero, suc, ◌+◌, ◌-◌, ◌*◌, ◌/◌, ◌%◌, ◌^◌, ◌≤◌, ◌<◌, ◌≡◌, refl, sym, ap, ◌∙◌, List, [], ◌∷◌,
  ◌++◌, append-nil, append_assoc, arith, length, length-append, ltb, suc-ne-zero, ◌==◌, Bool, true,
  false, Option, none, some, lt_wf,
}
use genvm_executor.Calldata.Value.{
  Bytes, Value, ℤ, pos, negsuc, Items, Fields, nil, cons, end, field, count, count_fields,
}
use genvm_executor.Calldata.Encoder.{
  Writer, write_all, write_one, shrinks, write_uleb_loop, write_uleb, write_uleb_u64,
  write_uleb_u128, write_uleb_tagged_u64, write_tagged_uleb, push_str, push_bytes, push_bigint,
  push_map_k,
}
use genvm_executor.Calldata.Format.{
  uleb, uleb_small, uleb_large, length-uleb_pos, header, encoding, encoding_items, encoding_fields,
}
use mathlib.Core.Logic.{dif_pos, dif_neg}
use mathlib.Core.WellFounded.{Acc}
use native.Mathlib.Decide.{dec_lt}
use native.Mathlib.Bridge.{le_prop}

pub length-append_bytes : (xs ys : Bytes) → length (xs ++ ys) ≡ length xs + length ys
length-append_bytes = length-append

pub ruleset lengths = (arith, length-append_bytes)

-- Every value takes a byte at least, so the counts in the headers are below the output's length.
pub length-encoding_pos : (v : Value) → 0 < length (encoding v)
unfolding encoding
length-encoding_pos Value.null = omega arith
length-encoding_pos (Value.bool b) = omega arith
length-encoding_pos (Value.address a) = omega arith
length-encoding_pos (Value.number (pos n)) = length-uleb_pos _
length-encoding_pos (Value.number (negsuc n)) = length-uleb_pos _
length-encoding_pos (Value.bytes b) = omega (lengths, length-uleb_pos (length b * 8 + 3))
length-encoding_pos (Value.str b) = omega (lengths, length-uleb_pos (length b * 8 + 4))
length-encoding_pos (Value.array xs) = omega (lengths, length-uleb_pos (count xs * 8 + 5))
length-encoding_pos (Value.map m) = omega (lengths, length-uleb_pos (count_fields m * 8 + 6))

pub count-le-length : (xs : Items) → count xs ≤ length (encoding_items xs)
unfolding count encoding
count-le-length nil = omega arith
count-le-length (cons x xs) = omega (lengths, length-encoding_pos x, count-le-length xs)

pub count_fields-le-length : (m : Fields) → 2 * count_fields m ≤ length (encoding_fields m)
unfolding count_fields encoding
count_fields-le-length end = omega arith
count_fields-le-length (field k v m) =
    omega (lengths, length-uleb_pos (length k), length-encoding_pos v, count_fields-le-length m)

module _ {W : Type 0} ⦃wr : Writer W⦄ where
  -- A first byte, then what follows it.
  write_all-cons :
      (w : W) (b : ℕ) (bs : Bytes) → write_all (write_one w b) bs ≡ write_all w (b ∷ bs)
  unfolding write_one
  write_all-cons w b bs = wr.write_all-append w (b ∷ []) bs

  write_uleb_loop-uleb :
      (n : ℕ) (a : Acc ◌<◌ n) (w : W) → write_uleb_loop w n a ≡ write_all w (uleb n)
  unfolding write_uleb_loop
  write_uleb_loop-uleb n (Acc.intro _ smaller) w = elim (dec_lt 0 (n / 128)) [
    | yes more ↦
        rw (dif_pos _ le_prop more, uleb_large n (omega arith))
          (write_uleb_loop-uleb (n / 128) (smaller _ (shrinks n more)) _
            ∙ write_all-cons w _ (uleb (n / 128))
            ∙ ap (λ b. write_all w (b ∷ uleb (n / 128))) (omega arith))
    | no done ↦
        rw (dif_neg _ done, uleb_small n (omega arith))
          (unfold write_one in ap (λ b. write_all w (b ∷ [])) (omega arith))
  ]

  write_uleb-uleb : (w : W) (n : ℕ) → write_uleb w n ≡ write_all w (uleb n)
  unfolding write_uleb
  write_uleb-uleb w zero = rw (uleb_small 0 (omega arith)) (unfold write_one in refl)
  write_uleb-uleb w (suc n) = rw suc-ne-zero (write_uleb_loop-uleb (suc n) (lt_wf.apply (suc n)) w)

  write_uleb_u64-uleb : (w : W) (n : ℕ) → write_uleb_u64 w n ≡ write_all w (uleb n)
  unfolding write_uleb_u64 write_uleb
  write_uleb_u64-uleb w n = write_uleb-uleb w n

  -- The tag goes below a 64-bit length, and the 128-bit arithmetic does not wrap.
  pub write_uleb_tagged_u64-header :
      (w : W) (tag n : ℕ)
      → tag < 8
      → n < 2 ^ 64
      → write_uleb_tagged_u64 w tag n ≡ write_all w (header tag n)
  unfolding write_uleb_tagged_u64 write_uleb_u128 write_uleb
  write_uleb_tagged_u64-header w tag n ht hn =
      write_uleb-uleb w ((n * 8 % 2 ^ 128 + tag) % 2 ^ 128)
      ∙ ap (λ k. write_all w (uleb k)) (omega arith)

  write_tagged_uleb-header :
      (w : W) (tag n : ℕ) → write_tagged_uleb w tag n ≡ write_all w (header tag n)
  unfolding write_tagged_uleb
  write_tagged_uleb-header w tag n = write_uleb-uleb w (n * 8 + tag)

  pub push_bytes-encoding :
      (w : W) (b : Bytes)
      → length b < 2 ^ 64
      → push_bytes w b ≡ write_all w (encoding (Value.bytes b))
  unfolding push_bytes encoding
  push_bytes-encoding w b h =
      ap (λ u. write_all u b) (write_uleb_tagged_u64-header w 3 (length b) (omega arith) h)
      ∙ wr.write_all-append w (header 3 (length b)) b

  pub push_str-encoding :
      (w : W) (b : Bytes) → length b < 2 ^ 64 → push_str w b ≡ write_all w (encoding (Value.str b))
  unfolding push_str encoding
  push_str-encoding w b h =
      ap (λ u. write_all u b) (write_uleb_tagged_u64-header w 4 (length b) (omega arith) h)
      ∙ wr.write_all-append w (header 4 (length b)) b

  pub push_bigint-encoding :
      (w : W) (n : ℤ) → push_bigint w n ≡ write_all w (encoding (Value.number n))
  unfolding push_bigint encoding
  push_bigint-encoding w (pos n) = write_tagged_uleb-header w 1 n
  push_bigint-encoding w (negsuc n) =
      ap (write_tagged_uleb w 2) (omega arith) ∙ write_tagged_uleb-header w 2 n

  pub push_map_k-uleb : (w : W) (k : Bytes) → push_map_k w k ≡ write_all w (uleb (length k) ++ k)
  unfolding push_map_k
  push_map_k-uleb w k =
      ap (λ u. write_all u k) (write_uleb_u64-uleb w (length k))
      ∙ wr.write_all-append w (uleb (length k)) k
