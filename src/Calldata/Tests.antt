-- ===== src/Calldata/Tests.antt =====
-- Runs of the codec on small inputs.
use genvm_executor.Base.{
  ◌≡◌, ◌≢◌, refl, true, some, [], ◌∷◌, ◌++◌, ◌+◌, ◌*◌, ◌^◌, ◌<◌, arith, length,
}
use genvm_executor.Calldata.Text.{is_utf8, str_lt}
use genvm_executor.Calldata.Value.{
  Bytes, snoc, count, count_fields, Value, pos, negsuc, nil, cons, end, field,
}
use genvm_executor.Calldata.Encoder.{vec_writer, counter, counter_writer, write_all}
use genvm_executor.Calldata.Encode.{encode, encode_to}
use genvm_executor.Calldata.Format.{encoding, uleb}
use genvm_executor.Calldata.EncodeTo.{encode_to-encoding, encode_to-count}
use genvm_executor.Calldata.Wire.{IsWire, IsSorted, AllAbove, depth}
use genvm_executor.Calldata.Termination.{decode_ends}
use genvm_executor.Calldata.RoundTrip.{decode-encode, fetch_val-encoding}
use genvm_executor.Calldata.Decode.{
  ok, err, stuck, decode, fetch_val, parse, parse_round, dispatch, leaf, complete, fetch_special,
  fetch_array, open_array, fetch_map, open_map, next_entry, check_order, fetch_key, fetch_uleb,
  fetch_uleb_loop, fetch_slice, map_to_size, bits, from_utf8, insert, last_key,
  invalid_uleb_encoding,
}

abbrev sample : Value
sample = Value.map (
    field (b'a' ∷ []) (Value.array (cons (Value.number (pos 300)) (cons (Value.bool true) nil)))
      (field (b'b' ∷ []) (Value.number (negsuc 41)) end))

sample_decodes : decode (22 ∷ 1 ∷ 97 ∷ 21 ∷ 225 ∷ 18 ∷ 16 ∷ 1 ∷ 98 ∷ 202 ∷ 2 ∷ []) ≡ ok sample
unfolding decode fetch_val parse parse_round dispatch leaf complete fetch_special fetch_array
    open_array fetch_map open_map next_entry check_order fetch_key fetch_uleb fetch_uleb_loop
    fetch_slice map_to_size bits from_utf8 is_utf8 str_lt insert snoc last_key
sample_decodes = refl

padded : decode (129 ∷ 0 ∷ []) ≡ err invalid_uleb_encoding
unfolding decode fetch_val parse parse_round fetch_uleb fetch_uleb_loop
padded = refl

sample-IsWire : IsWire sample
unfolding IsWire IsSorted AllAbove count count_fields is_utf8 str_lt
sample-IsWire = (
  omega arith,
  ((refl, tt), (tt, tt)),
  (omega arith, refl, (omega arith, (tt, (tt, tt))), (omega arith, refl, tt, tt)),
)

short : 7 * length (encoding sample) < 2 ^ 64
unfolding encoding uleb count count_fields
short = omega arith

encode_to-encoding_example :
    encode_to {W = Bytes} [] sample ≡ some (write_all {W = Bytes} [] (encoding sample))
encode_to-encoding_example = encode_to-encoding {W = Bytes} [] sample (omega (arith, short))

encode_to-count_example :
    encode_to (counter 7) sample ≡ some (counter (7 + length (encoding sample)))
encode_to-count_example =
    encode_to-count sample 7 (unfold encoding uleb count count_fields in omega arith)

decode-encode_example : (block : Bytes) × (encode sample ≡ some block) × (decode block ≡ ok sample)
decode-encode_example = decode-encode sample sample-IsWire (unfold depth in omega arith) short

fetch_val-encoding_example : fetch_val 2 (encoding sample ++ 9 ∷ []) ≡ ok (sample, 9 ∷ [])
fetch_val-encoding_example =
    fetch_val-encoding 2 sample (9 ∷ []) sample-IsWire (unfold depth in omega arith) short

-- An array of three of which one is there, and then a bad tag.
decode_ends_example : decode (29 ∷ 0 ∷ 7 ∷ 7 ∷ []) ≢ stuck
decode_ends_example = decode_ends (29 ∷ 0 ∷ 7 ∷ 7 ∷ [])
