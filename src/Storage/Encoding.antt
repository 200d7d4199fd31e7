-- ===== src/Storage/Encoding.antt =====
-- executor/src/rt/vm/storage.rs: how a delta is written as calldata.
use genvm_executor.Base.{◌^◌, ◌<◌, ◌≡◌, ap, sym, ◌∙◌, ◌++◌, append-nil, append_assoc, arith, length}
use genvm_executor.Calldata.Value.{Value, nil, cons, count}
use genvm_executor.Calldata.Encoder.{Writer, write_all, start_array, push_bytes}
use genvm_executor.Calldata.EncodeLaws.{write_uleb_tagged_u64-header, push_bytes-encoding}
use genvm_executor.Calldata.Format.{header, encoding}
use genvm_executor.Storage.Pages.{Delta}

module _ {W : Type 0} ⦃wr : Writer W⦄ where
  unfoldable pub encode_delta : W → Delta → W
  encode_delta w (key, bytes) = push_bytes (push_bytes (start_array w 2) key) bytes

  -- A delta is written, through any writer, as the format of an array of its two byte strings, if these
  -- are shorter than 2 ^ 64.
  pub encode_delta-encoding :
      (w : W) (d : Delta)
      → length d.0 < 2 ^ 64
      → length d.1 < 2 ^ 64
      → encode_delta w d
        ≡ write_all w (encoding (Value.array (cons (Value.bytes d.0) (cons (Value.bytes d.1) nil))))
  unfolding encode_delta start_array encoding count
  encode_delta-encoding w (key, bytes) h k =
      push_bytes-encoding (push_bytes (start_array w 2) key) bytes k
      ∙ ap (λ u. write_all u (encoding (Value.bytes bytes)))
          (push_bytes-encoding (start_array w 2) key h)
      ∙ ap
          (λ u. write_all (write_all u (encoding (Value.bytes key))) (encoding (Value.bytes bytes)))
          (write_uleb_tagged_u64-header w 5 2 (omega arith) (omega arith))
      ∙ ap (λ u. write_all u (encoding (Value.bytes bytes)))
          (wr.write_all-append w (header 5 2) (encoding (Value.bytes key)))
      ∙ wr.write_all-append w (header 5 2 ++ encoding (Value.bytes key))
          (encoding (Value.bytes bytes))
      ∙ ap (write_all w) (
          append_assoc (header 5 2) (encoding (Value.bytes key)) (encoding (Value.bytes bytes))
          ∙ ap (λ z. header 5 2 ++ (encoding (Value.bytes key) ++ z))
              (sym (append-nil (encoding (Value.bytes bytes)))))
