-- ===== src/Fees/Message.antt =====
-- executor/src/rt/fees.rs: `consume_message_fee`, which charges a message's fee and its receipt
-- together, and `consume_initial`. The map of deductions is sorted by bucket.
use genvm_executor.Base.{
  ℕ, ◌+◌, Bool, true, false, Option, none, some, List, [], ◌∷◌, ◌++◌, ltb, ◌==◌, if◌then◌else◌,
  get_elem?,
}
use genvm_executor.Fees.Buckets.{
  Run, value, ◌>>=◌, add_u256, sub_u256, Charges, zip, Bucket, update_at, DataLimit,
  consume_bucket_raw, sum_consumed,
}

-- `*deductions.entry(bno).or_default() += cost`
unfoldable pub deduct : Charges → ℕ → ℕ → Run Charges
deduct [] bno cost = add_u256 0 cost >>= λ total. value ((bno, total) ∷ [])
deduct ((k, t) ∷ deductions) bno cost =
    let here = add_u256 t cost >>= λ total. value ((k, total) ∷ deductions) in
    let before = add_u256 0 cost >>= λ total. value ((bno, total) ∷ (k, t) ∷ deductions) in
    let after = deduct deductions bno cost >>= λ more. value ((k, t) ∷ more) in
    if k == bno then here else if ltb bno k then before else after

unfoldable pub deduct_all : Charges → Charges → Run Charges
deduct_all deductions [] = value deductions
deduct_all deductions ((bno, cost) ∷ charges) =
    deduct deductions bno cost >>= λ more. deduct_all more charges

unfoldable pub check_deductions : List ℕ → Charges → Bool
check_deductions buckets [] = true
check_deductions buckets ((bno, total) ∷ deductions) =
    let more = check_deductions buckets deductions in
    elim (get_elem? buckets bno) [
      | none ↦ false
      | some remaining ↦ if ltb remaining total then false else more
    ]

unfoldable pub apply_deductions : List ℕ → Charges → Run (List ℕ)
apply_deductions buckets [] = value buckets
apply_deductions buckets ((bno, total) ∷ deductions) =
    update_at (λ old. sub_u256 old total) buckets bno >>= λ buckets'.
    apply_deductions buckets' deductions

-- `*total_consumed[i].lock().await += cost`, from the cost with the number `i` on.
unfoldable pub enter_costs : List ℕ → ℕ → List ℕ → Run (List ℕ)
enter_costs totals i [] = value totals
enter_costs totals i (cost ∷ costs) =
    update_at (λ old. add_u256 old cost) totals i >>= λ totals'. enter_costs totals' (i + 1) costs

unfoldable pub charge_message : DataLimit → List ℕ → List ℕ → Charges → Run (DataLimit × Bool)
charge_message limit cost_fee cost_receipt deductions =
    if check_deductions limit.buckets deductions
    then (apply_deductions limit.buckets deductions >>= λ buckets'.
        enter_costs limit.message_fee.total_consumed 0 cost_fee >>= λ fees.
        enter_costs limit.message_receipt.total_consumed 0 cost_receipt >>= λ receipts. value (
          record limit {
            buckets = buckets';
            message_fee = record limit.message_fee { total_consumed = fees };
            message_receipt = record limit.message_receipt { total_consumed = receipts };
          },
          true,
        ))
    else value (limit, false)

-- The charges of a message: its fee's, then its receipt's.
unfoldable pub message_charges : DataLimit → List ℕ → List ℕ → Charges
message_charges limit cost_fee cost_receipt =
    zip limit.message_fee.bucket_nos cost_fee ++ zip limit.message_receipt.bucket_nos cost_receipt

unfoldable pub consume_message_fee : DataLimit → List ℕ → List ℕ → Run (DataLimit × Bool)
consume_message_fee limit cost_fee cost_receipt =
    deduct_all [] (message_charges limit cost_fee cost_receipt) >>= λ deductions.
    charge_message limit cost_fee cost_receipt deductions

-- The five buckets of a `DataLimit`, in the order of `consume_initial`.
pub data BucketName : Type 0 where
  storage message_receipt nondet_output message_fee event : BucketName

unfoldable pub bucket_of : DataLimit → BucketName → Bucket
bucket_of limit storage = limit.storage
bucket_of limit message_receipt = limit.message_receipt
bucket_of limit nondet_output = limit.nondet_output
bucket_of limit message_fee = limit.message_fee
bucket_of limit event = limit.event

unfoldable pub with_bucket : DataLimit → BucketName → Bucket → DataLimit
with_bucket limit storage bucket = record limit { storage = bucket }
with_bucket limit message_receipt bucket = record limit { message_receipt = bucket }
with_bucket limit nondet_output bucket = record limit { nondet_output = bucket }
with_bucket limit message_fee bucket = record limit { message_fee = bucket }
with_bucket limit event bucket = record limit { event = bucket }

-- The loop of `consume_initial`: the first bucket that cannot pay, if there is one.
unfoldable pub charge_initials : DataLimit → List BucketName → Run (DataLimit × Option BucketName)
charge_initials limit [] = value (limit, none)
charge_initials limit (name ∷ names) =
    let bucket = bucket_of limit name in
    consume_bucket_raw limit.buckets bucket bucket.subtract_on_start
    >>= λ (buckets', bucket', good).
        let after = with_bucket (record limit { buckets = buckets' }) name bucket' in
        let rest = charge_initials after names in if good then rest else value (after, some name)

abbrev pub all_buckets : List BucketName
all_buckets = storage ∷ message_receipt ∷ nondet_output ∷ message_fee ∷ event ∷ []

unfoldable pub consume_initial : DataLimit → Run (DataLimit × Option BucketName)
consume_initial limit = charge_initials limit all_buckets

-- `consumed`: the sums, in the order of the names.
unfoldable pub consumed_sums : DataLimit → List BucketName → Run (List ℕ)
consumed_sums limit [] = value []
consumed_sums limit (name ∷ names) = sum_consumed (bucket_of limit name) >>= λ total.
    consumed_sums limit names >>= λ totals. value (total ∷ totals)

unfoldable pub consumed : DataLimit → Run (List ℕ)
consumed limit = consumed_sums limit all_buckets
