-- ===== src/Calldata/EncodeTo.antt =====
-- The walk of `encode_to` against the format.
use genvm_executor.Base.{
  ℕ, ◌+◌, ◌^◌, ◌<◌, ◌≡◌, refl, ap, ◌∙◌, List, [], ◌∷◌, ◌++◌, append-nil, append_assoc, arith,
  length, some,
}
use genvm_executor.Calldata.Value.{
  Bytes, Value, Items, Fields, nil, cons, end, field, count, count_fields,
}
use genvm_executor.Calldata.Encoder.{
  Writer, vec_writer, counter, count_all, counter_writer, write_all, start_array, start_map,
  push_null, push_bool, push_address,
}
use genvm_executor.Calldata.Encode.{
  Item, value, push_items, push_fields, rounds, rounds_items, rounds_fields, encode_item,
  encode_loop, encode_to, encode,
}
use genvm_executor.Calldata.Format.{uleb, header, encoding, encoding_items, encoding_fields}
use genvm_executor.Calldata.EncodeLaws.{
  lengths, count-le-length, count_fields-le-length, write_uleb_tagged_u64-header,
  push_bytes-encoding, push_str-encoding, push_bigint-encoding, push_map_k-uleb,
}

module _ {W : Type 0} ⦃wr : Writer W⦄ where
  start_array-header :
      (w : W) (xs : Items)
      → length (header 5 (count xs) ++ encoding_items xs) < 2 ^ 64
      → start_array w (count xs) ≡ write_all w (header 5 (count xs))
  unfolding start_array
  start_array-header w xs l =
      write_uleb_tagged_u64-header w 5 (count xs) (omega arith)
        (omega (lengths, count-le-length xs))

  start_map-header :
      (w : W) (m : Fields)
      → length (header 6 (count_fields m) ++ encoding_fields m) < 2 ^ 64
      → start_map w (count_fields m) ≡ write_all w (header 6 (count_fields m))
  unfolding start_map
  start_map-header w m l =
      write_uleb_tagged_u64-header w 6 (count_fields m) (omega arith)
        (omega (lengths, count_fields-le-length m))

  mutual
    unfolding encode_loop encode_item rounds push_items push_fields encoding push_null push_bool
        push_address

    encode_loop-value :
        (v : Value) (fuel : ℕ) (w : W) (stack : List Item)
        → length (encoding v) < 2 ^ 64
        → encode_loop (rounds v fuel) w (value v ∷ stack)
          ≡ encode_loop fuel (write_all w (encoding v)) stack
    encode_loop-value Value.null fuel w stack l = refl
    encode_loop-value (Value.bool b) fuel w stack l = refl
    encode_loop-value (Value.address a) fuel w stack l =
        ap (λ u. encode_loop fuel u stack) (wr.write_all-append w (24 ∷ []) a)
    encode_loop-value (Value.number n) fuel w stack l =
        ap (λ u. encode_loop fuel u stack) (push_bigint-encoding w n)
    encode_loop-value (Value.bytes b) fuel w stack l =
        ap (λ u. encode_loop fuel u stack) (push_bytes-encoding w b (omega lengths))
    encode_loop-value (Value.str b) fuel w stack l =
        ap (λ u. encode_loop fuel u stack) (push_str-encoding w b (omega lengths))
    encode_loop-value (Value.array xs) fuel w stack l =
        ap (λ u. encode_loop (rounds_items xs fuel) u (push_items xs stack))
          (start_array-header w xs l)
        ∙ encode_loop-items xs fuel w (header 5 (count xs)) stack (omega lengths)
    encode_loop-value (Value.map m) fuel w stack l =
        ap (λ u. encode_loop (rounds_fields m fuel) u (push_fields m stack))
          (start_map-header w m l)
        ∙ encode_loop-fields m fuel w (header 6 (count_fields m)) stack (omega lengths)

    encode_loop-items :
        (xs : Items) (fuel : ℕ) (w : W) (out : Bytes) (stack : List Item)
        → length (encoding_items xs) < 2 ^ 64
        → encode_loop (rounds_items xs fuel) (write_all w out) (push_items xs stack)
          ≡ encode_loop fuel (write_all w (out ++ encoding_items xs)) stack
    encode_loop-items nil fuel w out stack l = rw append-nil
    encode_loop-items (cons x xs) fuel w out stack l =
        encode_loop-value x (rounds_items xs fuel) (write_all w out) (push_items xs stack)
          (omega lengths)
        ∙ rw (wr.write_all-append w out (encoding x)) (
            encode_loop-items xs fuel w (out ++ encoding x) stack (omega lengths) ∙ rw append_assoc)

    encode_loop-fields :
        (m : Fields) (fuel : ℕ) (w : W) (out : Bytes) (stack : List Item)
        → length (encoding_fields m) < 2 ^ 64
        → encode_loop (rounds_fields m fuel) (write_all w out) (push_fields m stack)
          ≡ encode_loop fuel (write_all w (out ++ encoding_fields m)) stack
    encode_loop-fields end fuel w out stack l = rw append-nil
    encode_loop-fields (field k v m) fuel w out stack l =
        let key = uleb (length k) ++ k in
        ap (λ u. encode_loop (rounds v (rounds_fields m fuel)) u (value v ∷ push_fields m stack))
          (push_map_k-uleb (write_all w out) k ∙ wr.write_all-append w out key)
        ∙ (encode_loop-value v (rounds_fields m fuel) (write_all w (out ++ key))
              (push_fields m stack) (omega lengths)
            ∙ rw (wr.write_all-append w (out ++ key) (encoding v)) (
                encode_loop-fields m fuel w ((out ++ key) ++ encoding v) stack (omega lengths)
                ∙ simp append_assoc))

  -- `encode_to` ends, and appends the value's format to what the writer holds.
  pub encode_to-encoding :
      (w : W) (v : Value)
      → length (encoding v) < 2 ^ 64
      → encode_to w v ≡ some (write_all w (encoding v))
  unfolding encode_to encode_loop
  encode_to-encoding w v l = encode_loop-value v 0 w [] l

-- What `encode` returns is the value's format.
pub encode-encoding : (v : Value) → length (encoding v) < 2 ^ 64 → encode v ≡ some (encoding v)
unfolding encode
encode-encoding v l = encode_to-encoding [] v l

-- Through a CounterWriter, `encode_to` counts the bytes that `encode` would return.
pub encode_to-count :
    (v : Value) (n : ℕ)
    → n + length (encoding v) < 2 ^ 64
    → encode_to (counter n) v ≡ some (counter (n + length (encoding v)))
unfolding count_all
encode_to-count v n l =
    encode_to-encoding (counter n) v (omega arith) ∙ ap (λ k. some (counter k)) (omega arith)
