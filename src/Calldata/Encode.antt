-- ===== src/Calldata/Encode.antt =====
-- `encode_to` and `encode` of executor/crates/calldata/src/bin.rs: a depth-first walk with a stack
-- of its own.
use genvm_executor.Base.{ℕ, zero, suc, Option, none, some, List, [], ◌∷◌}
use genvm_executor.Calldata.Value.{
  Bytes, Value, Items, Fields, nil, cons, end, field, count, count_fields,
}
use genvm_executor.Calldata.Encoder.{
  Writer, vec_writer, start_array, start_map, push_null, push_bool, push_address, push_str,
  push_bytes, push_bigint, push_map_k,
}

-- `Item` of `encode_to`.
pub data Item : Type 0 where
  value : Value → Item
  map_key : Bytes → Item

-- `for x in values.iter().rev() { stack.push(..) }`: the first item ends on top of the stack, whose
-- top is the head of the list.
unfoldable pub push_items : Items → List Item → List Item
push_items nil stack = stack
push_items (cons x xs) stack = value x ∷ push_items xs stack

unfoldable pub push_fields : Fields → List Item → List Item
push_fields end stack = stack
push_fields (field k v m) stack = map_key k ∷ value v ∷ push_fields m stack

-- The rounds that a walk over the value takes, on top of `more`.
unfoldable mutual
  pub rounds : Value → ℕ → ℕ
  rounds (Value.array xs) more = suc (rounds_items xs more)
  rounds (Value.map m) more = suc (rounds_fields m more)
  rounds Value.null more = suc more
  rounds (Value.address _) more = suc more
  rounds (Value.bool _) more = suc more
  rounds (Value.str _) more = suc more
  rounds (Value.bytes _) more = suc more
  rounds (Value.number _) more = suc more

  pub rounds_items : Items → ℕ → ℕ
  rounds_items nil more = more
  rounds_items (cons x xs) more = rounds x (rounds_items xs more)

  pub rounds_fields : Fields → ℕ → ℕ
  rounds_fields end more = more
  rounds_fields (field k v m) more = suc (rounds v (rounds_fields m more))

module _ {W : Type 0} ⦃wr : Writer W⦄ where
  -- One round of the loop: what is written for the item, and the stack after it.
  unfoldable pub encode_item : W → Item → List Item → W × List Item
  encode_item w (map_key key) stack = (push_map_k w key, stack)
  encode_item w (value Value.null) stack = (push_null w, stack)
  encode_item w (value (Value.bool v)) stack = (push_bool w v, stack)
  encode_item w (value (Value.address a)) stack = (push_address w a, stack)
  encode_item w (value (Value.str s)) stack = (push_str w s, stack)
  encode_item w (value (Value.bytes b)) stack = (push_bytes w b, stack)
  encode_item w (value (Value.number n)) stack = (push_bigint w n, stack)
  encode_item w (value (Value.map m)) stack = (start_map w (count_fields m), push_fields m stack)
  encode_item w (value (Value.array xs)) stack = (start_array w (count xs), push_items xs stack)

  -- `while let Some(item) = stack.pop()`; `none` means that the fuel ran out.
  unfoldable pub encode_loop : ℕ → W → List Item → Option W
  encode_loop fuel w [] = some w
  encode_loop zero w (item ∷ stack) = none
  encode_loop (suc fuel) w (item ∷ stack) =
      let (w', stack') = encode_item w item stack in encode_loop fuel w' stack'

  unfoldable pub encode_to : W → Value → Option W
  encode_to w v = encode_loop (rounds v 0) w (value v ∷ [])

unfoldable pub encode : Value → Option Bytes
encode v = encode_to [] v
