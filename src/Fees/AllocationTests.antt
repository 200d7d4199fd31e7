-- ===== src/Fees/AllocationTests.antt =====
-- A small allocation tree, matched and encoded, and the theorems at concrete inputs.
use genvm_executor.Base.{
  ◌%◌, ℕ, ◌+◌, ◌*◌, ◌<◌, ◌≤◌, ◌≡◌, ◌⊎◌, ◌↔◌, refl, none, some, List, [], ◌∷◌, ◌++◌, arith, length,
  take, drop, get_elem?,
}
use genvm_executor.Fees.Allocation.{
  Bytes, InternalMessageParams, ExternalMessageParams, internal, external, accepted, finalized,
  MessageAllocationNode, MessageAllocationNodes, node, nil, cons, matches_internal,
  matches_external, is_other, bytes_eq, on_eq, PaysInternal, PaysExternal,
  matches_internal-PaysInternal, matches_external-PaysExternal,
}
use genvm_executor.Fees.Abi.{
  encode_node, zeroes, flatten, node_root_sentinel, be_bytes, encode_array,
}
use genvm_executor.Fees.Flatten.{sons, children_of, flatten-sons}
use genvm_executor.Fees.Alignment.{length-encode_node}
use genvm_executor.Fees.Offsets.{encode_array-offsets}

abbrev internal_params : InternalMessageParams
internal_params = record {
  leader_timeunits_allocation = 1;
  validator_timeunits_allocation = 2;
  execution_budget_per_round = 3;
  rotations = 4 ∷ 5 ∷ [];
  max_price_gen_per_time_unit = 6;
  storage_fee_max_gas_price = 7;
  receipt_fee_max_gas_price = 8;
}

abbrev external_params : ExternalMessageParams
external_params = record { gas_limit = 9; max_gas_price = 10 }

abbrev leaf : MessageAllocationNode
leaf = node (some (1 ∷ 2 ∷ [])) none 100 finalized (external external_params) nil

abbrev parent_node : MessageAllocationNode
parent_node = node none (some (3 ∷ [])) 200 accepted (internal internal_params) (cons leaf nil)

abbrev forest : MessageAllocationNodes
forest = cons parent_node (cons leaf nil)

flat_forest :
    flatten forest node_root_sentinel []
    ≡ (parent_node, node_root_sentinel) ∷ (leaf, 0) ∷ (leaf, node_root_sentinel) ∷ []
unfolding flatten
flat_forest = refl

unmatched : matches_internal parent_node accepted (7 ∷ []) (4 ∷ []) ≡ none
unfolding matches_internal on_eq is_other bytes_eq
unmatched = refl

matches_internal-PaysInternal_example :
    (matches_internal parent_node accepted (7 ∷ []) (3 ∷ []) ≡ some internal_params)
    ↔ PaysInternal parent_node accepted (7 ∷ []) (3 ∷ []) internal_params
matches_internal-PaysInternal_example =
    matches_internal-PaysInternal parent_node accepted (7 ∷ []) (3 ∷ []) internal_params

matches_external-PaysExternal_example :
    (matches_external leaf (1 ∷ 2 ∷ []) (3 ∷ []) ≡ some external_params)
    ↔ PaysExternal leaf (1 ∷ 2 ∷ []) (3 ∷ []) external_params
matches_external-PaysExternal_example =
    matches_external-PaysExternal leaf (1 ∷ 2 ∷ []) (3 ∷ []) external_params

few : length (flatten forest node_root_sentinel []) ≤ node_root_sentinel
few = rw flat_forest (omega arith)

flatten-sons_example :
    (sons (flatten forest node_root_sentinel []) node_root_sentinel ≡ forest)
    × ((k : ℕ) (n : MessageAllocationNode) (pointer : ℕ)
        → get_elem? (flatten forest node_root_sentinel []) k ≡ some (n, pointer)
        → (sons (flatten forest node_root_sentinel []) k ≡ children_of n)
          × ((pointer ≡ node_root_sentinel) ⊎ (pointer < k)))
flatten-sons_example = flatten-sons forest few

abbrev two_elements : List Bytes
two_elements = (1 ∷ 2 ∷ []) ∷ (3 ∷ []) ∷ []

encode_array-offsets_example :
    (take 32 (encode_array two_elements) ≡ be_bytes 32 0x20)
    × (take 32 (drop 32 (encode_array two_elements)) ≡ be_bytes 32 (length two_elements))
    × ((k : ℕ) (element : Bytes)
        → get_elem? two_elements k ≡ some element
        → (offset : ℕ) × (rest : Bytes) × (take 32 (drop (64 + 32 * k) (encode_array two_elements))
            ≡ be_bytes 32 offset)
          × (drop (64 + offset) (encode_array two_elements) ≡ element ++ rest))
encode_array-offsets_example = encode_array-offsets two_elements

abbrev sized_node : MessageAllocationNode
sized_node =
    node (some (zeroes 20)) (some (zeroes 32)) 200 accepted (internal internal_params)
      (cons leaf nil)

length-encode_node_example : length (encode_node sized_node 0) % 32 ≡ 0
unfolding zeroes
length-encode_node_example = length-encode_node sized_node 0 (refl, refl)
