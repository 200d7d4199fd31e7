-- ===== src/Fees/Buckets.antt =====
-- executor/src/rt/fees.rs: the on-chain buckets and their consumption. A cost vector is an argument
-- here, where the code has it from a fee expression. U256 sums and differences panic on overflow,
-- as those of the crate `primitive_types` do.
use genvm_executor.Base.{
  ℕ, ◌+◌, ◌-◌, ◌^◌, Bool, true, false, Option, none, some, List, [], ◌∷◌, ◌++◌, ltb, ◌==◌,
  if◌then◌else◌, get_elem?, set,
}

abbrev pub u256_max : ℕ
u256_max = 2 ^ 256 - 1

-- The end of a call: its value, or a panic.
pub data Run {ℓ} (A : Type ℓ) : Type ℓ where
  value : A → Run A
  panic : Run A

infixl 5 ◌>>=◌
abbrev pub ◌>>=◌ {ℓ κ} : {A : Type ℓ} {B : Type κ} → Run A → (A → Run B) → Run B
value a >>= f = f a
panic >>= f = panic

unfoldable pub add_u256 : ℕ → ℕ → Run ℕ
add_u256 a b = if ltb u256_max (a + b) then panic else value (a + b)

unfoldable pub sub_u256 : ℕ → ℕ → Run ℕ
sub_u256 a b = if ltb a b then panic else value (a - b)

-- Pairs of a bucket's number and a cost, as `bucket_nos.iter().zip(costs.iter())` yields them.
abbrev pub Charges : Type 0
Charges = List (ℕ × ℕ)

unfoldable pub zip : List ℕ → List ℕ → Charges
zip [] ys = []
zip (x ∷ xs) [] = []
zip (x ∷ xs) (y ∷ ys) = (x, y) ∷ zip xs ys

-- A fee bucket: `total_consumed` has an entry for each entry of `bucket_nos`.
pub record Bucket : Type 0 where
  pub bucket_nos : List ℕ
  pub subtract_on_start : List ℕ
  pub total_consumed : List ℕ

-- `for (&prev_bno, &prev_cost) in ..`: the costs before that are charged to the same bucket.
unfoldable pub add_previous : ℕ → ℕ → Charges → Run ℕ
add_previous bno cumulative [] = value cumulative
add_previous bno cumulative ((prev_bno, prev_cost) ∷ prev) =
    let more = add_u256 cumulative prev_cost >>= λ sum. add_previous bno sum prev in
    let same = add_previous bno cumulative prev in if prev_bno == bno then more else same

-- One round of the first loop: does the charge fit, together with those before it?
unfoldable pub fits : List ℕ → Charges → ℕ → ℕ → Run Bool
fits buckets prev bno cost = elim (get_elem? buckets bno) [
  | none ↦ value false
  | some remaining ↦
      if ltb remaining cost
      then value false
      else (add_previous bno cost prev >>= λ cumulative.
          value (if ltb remaining cumulative then false else true))
]

unfoldable pub check_charges : List ℕ → Charges → Charges → Run Bool
check_charges buckets prev [] = value true
check_charges buckets prev ((bno, cost) ∷ rest) =
    let more = check_charges buckets (prev ++ (bno, cost) ∷ []) rest in
    fits buckets prev bno cost >>= λ good. if good then more else value false

-- `list[i] op= ..`, with a panic out of range.
unfoldable pub update_at : (ℕ → Run ℕ) → List ℕ → ℕ → Run (List ℕ)
update_at f list i = elim (get_elem? list i) [
  | none ↦ panic
  | some old ↦ f old >>= λ new. value (set list i new)
]

-- The second loop, from the charge with the number `i` on.
unfoldable pub apply_charges : List ℕ → List ℕ → ℕ → Charges → Run (List ℕ × List ℕ)
apply_charges buckets totals i [] = value (buckets, totals)
apply_charges buckets totals i ((bno, cost) ∷ rest) =
    update_at (λ old. sub_u256 old cost) buckets bno >>= λ buckets'.
    update_at (λ old. add_u256 old cost) totals i >>= λ totals'.
    apply_charges buckets' totals' (i + 1) rest

-- `consume_bucket_raw`: the buckets and the bucket's totals after it, and its answer.
unfoldable pub consume_bucket_raw : List ℕ → Bucket → List ℕ → Run (List ℕ × Bucket × Bool)
consume_bucket_raw buckets bucket costs =
    let charges = zip bucket.bucket_nos costs in
    check_charges buckets [] charges >>= λ good.
    if good
    then (apply_charges buckets bucket.total_consumed 0 charges >>= λ (buckets', totals').
        value (buckets', record bucket { total_consumed = totals' }, true))
    else value (buckets, bucket, false)

unfoldable pub sum_from : ℕ → List ℕ → Run ℕ
sum_from total [] = value total
sum_from total (x ∷ xs) = add_u256 total x >>= λ total'. sum_from total' xs

-- `sum_consumed`, and `CostVec::sum`.
pub sum_consumed : Bucket → Run ℕ
sum_consumed bucket = sum_from 0 bucket.total_consumed

pub cost_sum : List ℕ → Run ℕ
cost_sum costs = sum_from 0 costs

-- `DataLimit`, without the fee expressions.
pub record DataLimit : Type 0 where
  pub buckets : List ℕ
  pub storage : Bucket
  pub message_receipt : Bucket
  pub nondet_output : Bucket
  pub message_fee : Bucket
  pub event : Bucket

pub remaining_buckets : DataLimit → List ℕ
remaining_buckets limit = limit.buckets

-- `consume_event`, its cost vector given: what it cost, or none.
pub consume_event : DataLimit → List ℕ → Run (DataLimit × Option ℕ)
consume_event limit costs =
    consume_bucket_raw limit.buckets limit.event costs >>= λ (buckets', event', good).
    let after = record limit { buckets = buckets'; event = event' } in
    let cost = cost_sum costs >>= λ total. value (after, some total) in
    if good then cost else value (after, none)
