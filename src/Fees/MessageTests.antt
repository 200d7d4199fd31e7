-- ===== src/Fees/MessageTests.antt =====
-- Charges for messages and at the start, and the theorem at a concrete input.
use genvm_executor.Base.{ℕ, ◌≤◌, ◌≡◌, ◌⊎◌, refl, true, false, some, List, [], ◌∷◌, arith}
use genvm_executor.Fees.Buckets.{
  u256_max, value, Bucket, DataLimit, zip, consume_bucket_raw, check_charges, fits, add_u256,
  update_at, sub_u256,
}
use genvm_executor.Fees.Atomic.{spent, InRange, Covers}
use genvm_executor.Fees.Message.{
  storage, message_charges, consume_message_fee, deduct_all, deduct, charge_message,
  check_deductions, apply_deductions, enter_costs, consume_initial, charge_initials, bucket_of,
  with_bucket,
}
use genvm_executor.Fees.MessageFee.{Charged, consume_message_fee_atomic}

abbrev plain : Bucket
plain = record { bucket_nos = 0 ∷ []; subtract_on_start = 1 ∷ []; total_consumed = 0 ∷ [] }

abbrev fee_bucket : Bucket
fee_bucket = record {
  bucket_nos = 1 ∷ 0 ∷ [];
  subtract_on_start = 0 ∷ 0 ∷ [];
  total_consumed = 2 ∷ 3 ∷ [];
}

abbrev limit : DataLimit
limit = record {
  buckets = 30 ∷ 60 ∷ [];
  storage = plain;
  message_receipt = plain;
  nondet_output = plain;
  message_fee = fee_bucket;
  event = plain;
}

abbrev fee : List ℕ
fee = 50 ∷ 20 ∷ []

abbrev receipt : List ℕ
receipt = 10 ∷ []

-- Bucket 0 pays 20 of the fee and 10 of the receipt.
charged_message :
    consume_message_fee limit fee receipt
    ≡ value (
      record limit {
        buckets = 0 ∷ 10 ∷ [];
        message_fee = record fee_bucket { total_consumed = 52 ∷ 23 ∷ [] };
        message_receipt = record plain { total_consumed = 10 ∷ [] };
      },
      true,
    )
unfolding consume_message_fee message_charges deduct_all deduct charge_message check_deductions
    apply_deductions enter_costs zip add_u256 sub_u256 update_at
charged_message = refl

refused_message : consume_message_fee limit fee (11 ∷ []) ≡ value (limit, false)
unfolding consume_message_fee message_charges deduct_all deduct charge_message check_deductions zip
    add_u256
refused_message = refl

initial_short :
    consume_initial (record limit { buckets = 0 ∷ [] })
    ≡ value (record limit { buckets = 0 ∷ [] }, some storage)
unfolding consume_initial charge_initials bucket_of with_bucket consume_bucket_raw check_charges
    fits zip
initial_short = refl

message_sums : (j : ℕ) → spent j (message_charges limit fee receipt) ≤ u256_max
unfolding message_charges zip
message_sums j = ground arith

consume_message_fee_atomic_example :
    (InRange limit.buckets (message_charges limit fee receipt)
      × Covers limit.buckets (message_charges limit fee receipt)
      × Charged limit fee receipt)
    ⊎ ((InRange limit.buckets (message_charges limit fee receipt)
          → Covers limit.buckets (message_charges limit fee receipt)
          → ⊥)
        × (consume_message_fee limit fee receipt ≡ value (limit, false)))
consume_message_fee_atomic_example =
    consume_message_fee_atomic limit fee receipt message_sums (omega arith) (omega arith)
