-- ===== src/Fees/Tests.antt =====
-- Runs of the fee buckets, and the theorems at concrete inputs.
use genvm_executor.Base.{
  ℕ, ◌+◌, ◌≤◌, ◌≡◌, ◌⊎◌, refl, true, false, List, [], ◌∷◌, arith, get_or, sum,
}
use genvm_executor.Fees.Buckets.{
  u256_max, value, Bucket, zip, consume_bucket_raw, check_charges, fits, add_previous, add_u256,
  apply_charges, update_at, sub_u256,
}
use genvm_executor.Fees.Atomic.{spent, spent_in_all, InRange, Covers, Room}
use genvm_executor.Fees.Consume.{consume_bucket_raw_atomic}

-- Two of the three charges go to bucket 0.
abbrev sample : Bucket
sample = record {
  bucket_nos = 0 ∷ 1 ∷ 0 ∷ [];
  subtract_on_start = 0 ∷ 0 ∷ 0 ∷ [];
  total_consumed = 4 ∷ 5 ∷ 6 ∷ [];
}

abbrev costs : List ℕ
costs = 10 ∷ 50 ∷ 20 ∷ []

charged :
    consume_bucket_raw (30 ∷ 60 ∷ []) sample costs
    ≡ value (0 ∷ 10 ∷ [], record sample { total_consumed = 14 ∷ 55 ∷ 26 ∷ [] }, true)
unfolding consume_bucket_raw check_charges fits add_previous add_u256 apply_charges update_at
    sub_u256 zip
charged = refl

-- Each charge to bucket 0 fits by itself, and both do not.
refused : consume_bucket_raw (29 ∷ 60 ∷ []) sample costs ≡ value (29 ∷ 60 ∷ [], sample, false)
unfolding consume_bucket_raw check_charges fits add_previous add_u256 zip
refused = refl

no_overflow : (j : ℕ) → spent j (zip sample.bucket_nos costs) ≤ u256_max
unfolding zip
no_overflow j = ground arith

room : Room sample.total_consumed 0 (zip sample.bucket_nos costs)
unfolding zip
room = omega arith

consume_bucket_raw_atomic_example :
    let charges = zip sample.bucket_nos costs in
    (InRange (30 ∷ 60 ∷ []) charges
      × Covers (30 ∷ 60 ∷ []) charges
      × ((buckets' : List ℕ) × (totals' : List ℕ) × (consume_bucket_raw (30 ∷ 60 ∷ []) sample costs
            ≡ value (buckets', record sample { total_consumed = totals' }, true))
          × ((j : ℕ) → get_or buckets' j 0 + spent j charges ≡ get_or (30 ∷ 60 ∷ []) j 0)
          × (sum totals' ≡ sum sample.total_consumed + spent_in_all charges)))
    ⊎ ((InRange (30 ∷ 60 ∷ []) charges → Covers (30 ∷ 60 ∷ []) charges → ⊥)
        × (consume_bucket_raw (30 ∷ 60 ∷ []) sample costs ≡ value (30 ∷ 60 ∷ [], sample, false)))
consume_bucket_raw_atomic_example =
    consume_bucket_raw_atomic (30 ∷ 60 ∷ []) sample costs no_overflow room
