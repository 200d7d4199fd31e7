-- ===== src/Fees/Abi.antt =====
-- executor/crates/common/src/domain/fees/abi.rs: the allocation tree as the chain's flat array of
-- nodes with parent pointers, ABI-encoded.
use genvm_executor.Base.{
  ℕ, zero, suc, ◌+◌, ◌-◌, ◌*◌, ◌/◌, ◌%◌, ◌^◌, Bool, true, false, Option, none, some, List, [], ◌∷◌,
  ◌++◌, length, if◌then◌else◌,
}
use genvm_executor.Fees.Allocation.{
  Bytes, InternalMessageParams, ExternalMessageParams, internal, external, On, accepted, finalized,
  MessageAllocationNode, MessageAllocationNodes, node, nil, cons,
}

-- `U256::MAX`
abbrev pub node_root_sentinel : ℕ
node_root_sentinel = 2 ^ 256 - 1

-- The last `n` bytes of a number, the highest first.
unfoldable pub be_bytes : ℕ → ℕ → Bytes
be_bytes zero value = []
be_bytes (suc n) value = (value / 256 ^ n % 256) ∷ be_bytes n value

unfoldable pub zeroes : ℕ → Bytes
zeroes zero = []
zeroes (suc n) = 0 ∷ zeroes n

unfoldable pub push_u256 : Bytes → ℕ → Bytes
push_u256 buf value = buf ++ be_bytes 32 value

unfoldable pub push_word : Bytes → ℕ → Bytes
push_word buf value = push_u256 buf value

unfoldable pub abi_push_bool : Bytes → Bool → Bytes
abi_push_bool buf value = push_word buf (if value then 1 else 0)

unfoldable pub abi_push_address : Bytes → Option Bytes → Bytes
abi_push_address buf none = (buf ++ zeroes 12) ++ zeroes 20
abi_push_address buf (some addr) = (buf ++ zeroes 12) ++ addr

unfoldable pub push_call_key : Bytes → Option Bytes → Bytes
push_call_key buf none = buf ++ zeroes 32
push_call_key buf (some ck) = buf ++ ck

unfoldable pub push_all : Bytes → List ℕ → Bytes
push_all buf [] = buf
push_all buf (x ∷ xs) = push_all (push_u256 buf x) xs

-- `len().saturating_sub(1)` is the truncated difference.
unfoldable pub encode_internal_params : InternalMessageParams → Bytes
encode_internal_params params =
    let appeal_rounds = length params.rotations - 1 in
    let buf = push_word [] 0x20 in
    let buf = push_u256 buf params.leader_timeunits_allocation in
    let buf = push_u256 buf params.validator_timeunits_allocation in
    let buf = push_u256 buf appeal_rounds in
    let buf = push_u256 buf params.execution_budget_per_round in
    let buf = push_word buf (8 * 32) in
    let buf = push_u256 buf params.max_price_gen_per_time_unit in
    let buf = push_u256 buf params.storage_fee_max_gas_price in
    let buf = push_u256 buf params.receipt_fee_max_gas_price in
    let buf = push_word buf (length params.rotations) in push_all buf params.rotations

unfoldable pub encode_external_params : ExternalMessageParams → Bytes
encode_external_params params = push_u256 (push_u256 [] params.gas_limit) params.max_gas_price

unfoldable pub is_accepted : On → Bool
is_accepted accepted = true
is_accepted finalized = false

-- The body of `encode_node`, from the message's type, its moment and its encoded parameters.
unfoldable pub encode_node_words : ℕ → Bool → Bytes → ℕ → Option Bytes → Option Bytes → ℕ → Bytes
encode_node_words message_type on_acceptance fee_params parent_index recipient call_key budget =
    let buf = push_word [] message_type in
    let buf = abi_push_bool buf on_acceptance in
    let buf = push_u256 buf parent_index in
    let buf = abi_push_address buf recipient in
    let buf = push_call_key buf call_key in
    let buf = push_u256 buf budget in
    let buf = push_word buf (7 * 32) in
    let buf = push_word buf (length fee_params) in
    let buf = buf ++ fee_params in
    buf ++ zeroes ((length fee_params + 31) / 32 * 32 - length fee_params)

unfoldable pub encode_node : MessageAllocationNode → ℕ → Bytes
encode_node (node r ck budget on (internal params) children) parent_index =
    encode_node_words 1 (is_accepted on) (encode_internal_params params) parent_index r ck budget
encode_node (node r ck budget on (external params) children) parent_index =
    encode_node_words 0 false (encode_external_params params) parent_index r ck budget

abbrev pub Flat : Type 0
Flat = List (MessageAllocationNode × ℕ)

-- Pre-order; a node's index is the length of what stands before it.
unfoldable pub flatten : MessageAllocationNodes → ℕ → Flat → Flat
flatten nil parent out = out
flatten (cons (node r ck b o p children) rest) parent out =
    flatten rest parent
      (flatten children (length out) (out ++ (node r ck b o p children, parent) ∷ []))

unfoldable pub encode_elements : Flat → List Bytes
encode_elements [] = []
encode_elements ((n, parent_index) ∷ flat) = encode_node n parent_index ∷ encode_elements flat

unfoldable pub push_offsets : Bytes → ℕ → List Bytes → Bytes
push_offsets buf offset [] = buf
push_offsets buf offset (element ∷ elements) =
    push_offsets (push_word buf offset) (offset + length element) elements

unfoldable pub push_elements : Bytes → List Bytes → Bytes
push_elements buf [] = buf
push_elements buf (element ∷ elements) = push_elements (buf ++ element) elements

unfoldable pub encode_array : List Bytes → Bytes
encode_array elements =
    let buf = push_word [] 0x20 in
    let buf = push_word buf (length elements) in
    let buf = push_offsets buf (length elements * 32) elements in push_elements buf elements

unfoldable pub abi_encode : MessageAllocationNodes → Bytes
abi_encode roots = encode_array (encode_elements (flatten roots node_root_sentinel []))
