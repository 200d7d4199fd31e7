-- ===== src/Fees/Alignment.antt =====
-- The elements of executor/crates/common/src/domain/fees/abi.rs fill whole words.
use genvm_executor.Base.{
  ℕ, zero, suc, ◌+◌, ◌-◌, ◌*◌, ◌/◌, ◌%◌, ◌≡◌, refl, Bool, false, if◌then◌else◌, Option, none, some,
  [], ◌++◌, arith, length, length-append,
}
use genvm_executor.Fees.Allocation.{Bytes, internal, external, MessageAllocationNode, node}
use genvm_executor.Fees.Abi.{
  zeroes, be_bytes, push_u256, push_word, abi_push_bool, abi_push_address, push_call_key,
  encode_node_words, encode_node, is_accepted, encode_internal_params, encode_external_params,
}
use genvm_executor.Fees.Offsets.{length-be_bytes}

length-zeroes : (n : ℕ) → length (zeroes n) ≡ n
unfolding zeroes
length-zeroes zero = refl
length-zeroes (suc n) = omega (arith, length-zeroes n)

-- Absent, or of the size that the type has.
abbrev pub HasSize : ℕ → Option Bytes → Type 0
HasSize n none = Unit {0}
HasSize n (some bytes) = length bytes ≡ n

abbrev pub IsSized : MessageAllocationNode → Type 0
IsSized (node r ck b o p children) = HasSize 20 r × HasSize 32 ck

length-push_u256 : (buf : Bytes) (value : ℕ) → length (push_u256 buf value) ≡ length buf + 32
unfolding push_u256
length-push_u256 buf value =
    omega (arith, length-append buf (be_bytes 32 value), length-be_bytes 32 value)

length-abi_push_address :
    (buf : Bytes) (r : Option Bytes)
    → HasSize 20 r
    → length (abi_push_address buf r) ≡ length buf + 32
unfolding abi_push_address
length-abi_push_address buf none h = omega (
  arith,
  length-append (buf ++ zeroes 12) (zeroes 20),
  length-append buf (zeroes 12),
  length-zeroes 12,
  length-zeroes 20,
)
length-abi_push_address buf (some addr) h = omega (
  arith,
  length-append (buf ++ zeroes 12) addr,
  length-append buf (zeroes 12),
  length-zeroes 12,
  h,
)

length-push_call_key :
    (buf : Bytes) (ck : Option Bytes)
    → HasSize 32 ck
    → length (push_call_key buf ck) ≡ length buf + 32
unfolding push_call_key
length-push_call_key buf none h = omega (arith, length-append buf (zeroes 32), length-zeroes 32)
length-push_call_key buf (some ck) h = omega (arith, length-append buf ck, h)

-- Eight words, and the parameters up to the next word.
length-encode_node_words :
    (message_type : ℕ) (on_acceptance : Bool) (fee_params : Bytes) (parent_index : ℕ)
    (r ck : Option Bytes) (budget : ℕ)
    → HasSize 20 r
    → HasSize 32 ck
    → length (encode_node_words message_type on_acceptance fee_params parent_index r ck budget)
      ≡ 256 + (length fee_params + 31) / 32 * 32
unfolding encode_node_words abi_push_bool push_word
length-encode_node_words message_type on_acceptance fee_params parent_index r ck budget h l =
    let w₁ = push_u256 [] message_type in
    let w₂ = push_u256 w₁ (if on_acceptance then 1 else 0) in
    let w₃ = push_u256 w₂ parent_index in
    let w₄ = abi_push_address w₃ r in
    let w₅ = push_call_key w₄ ck in
    let w₆ = push_u256 w₅ budget in
    let w₇ = push_u256 w₆ (7 * 32) in
    let w₈ = push_u256 w₇ (length fee_params) in
    let pad = (length fee_params + 31) / 32 * 32 - length fee_params in
    omega (
      arith,
      length-push_u256 [] message_type,
      length-push_u256 w₁ (if on_acceptance then 1 else 0),
      length-push_u256 w₂ parent_index,
      length-abi_push_address w₃ r h,
      length-push_call_key w₄ ck l,
      length-push_u256 w₅ budget,
      length-push_u256 w₆ (7 * 32),
      length-push_u256 w₇ (length fee_params),
      length-append w₈ fee_params,
      length-append (w₈ ++ fee_params) (zeroes pad),
      length-zeroes pad,
    )

-- A node whose address has 20 bytes and whose call key has 32 is encoded to a whole number of 32-byte words, so that the next element of the array starts at a word.
pub length-encode_node :
    (n : MessageAllocationNode) (parent_index : ℕ)
    → IsSized n
    → length (encode_node n parent_index) % 32 ≡ 0
unfolding encode_node
length-encode_node (node r ck b o (internal p) children) parent_index h = omega (
  arith,
  length-encode_node_words 1 (is_accepted o) (encode_internal_params p) parent_index r ck b h.0 h.1,
)
length-encode_node (node r ck b o (external p) children) parent_index h =
    omega (
      arith,
      length-encode_node_words 0 false (encode_external_params p) parent_index r ck b h.0 h.1,
    )
