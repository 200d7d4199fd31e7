-- ===== src/Fees/MessageFee.antt =====
-- `consume_message_fee` of executor/src/rt/fees.rs charges a message's fee and receipt, or nothing.
use genvm_executor.Base.{
  ℕ, ◌+◌, ◌-◌, ◌≤◌, ◌<◌, ◌≡◌, refl, ◌⊎◌, inl, inr, true, false, List, [], ◌∷◌, arith, ==_refl,
  length, length-set, get_or, get_or-set_ne, set, sum, sum-set,
}
use genvm_executor.Fees.Buckets.{u256_max, value, Charges, DataLimit}
use genvm_executor.Fees.Atomic.{spent, InRange, Covers}
use genvm_executor.Fees.Consume.{take_one, enter_one, InRange-set, get_or_taken}
use genvm_executor.Fees.Message.{
  apply_deductions, enter_costs, charge_message, message_charges, consume_message_fee,
}
use genvm_executor.Fees.Deductions.{deduct_all_lem, check_deductions_lem}

apply_deductions_lem :
    (deductions : Charges) (buckets : List ℕ)
    → InRange buckets deductions
    → Covers buckets deductions
    → (buckets' : List ℕ) × (apply_deductions buckets deductions ≡ value buckets')
      × ((j : ℕ) → get_or buckets' j 0 + spent j deductions ≡ get_or buckets j 0)
unfolding apply_deductions
apply_deductions_lem [] buckets h v = (buckets, refl, λ j. omega arith)
apply_deductions_lem ((b, c) ∷ deductions) buckets h v =
    let at_b : spent b ((b, c) ∷ deductions) ≡ c + spent b deductions = rw (==_refl b) refl in
    let enough : c ≤ get_or buckets b 0 = omega (arith, v b) in
    let buckets₁ = set buckets b (get_or buckets b 0 - c) in
    let taken = λ (j : ℕ). get_or_taken buckets b c j h.0 enough in
    let (buckets₂, e, left) =
      apply_deductions_lem deductions buckets₁ (InRange-set buckets b _ deductions h.1)
        (λ j. omega (arith, v j, taken j)) in
    (buckets₂, rw (take_one buckets b c h.0 enough) e, λ j. omega (arith, left j, taken j))

-- The totals, from the one with the number `i` on, have room for the costs.
abbrev pub RoomFor : List ℕ → ℕ → List ℕ → Type 0
RoomFor totals i [] = Unit {0}
RoomFor totals i (c ∷ costs) =
    (i < length totals) × (get_or totals i 0 + c ≤ u256_max) × RoomFor totals (i + 1) costs

RoomFor-set :
    (totals : List ℕ) (i j v : ℕ) (costs : List ℕ)
    → i < j
    → RoomFor totals j costs
    → RoomFor (set totals i v) j costs
RoomFor-set totals i j v [] l h = tt
RoomFor-set totals i j v (c ∷ costs) l h = (
  rw (length-set totals i v) h.0,
  rw (get_or-set_ne totals i j v 0 (omega arith)) h.1,
  RoomFor-set totals i (j + 1) v costs (omega arith) h.2,
)

enter_costs_lem :
    (costs totals : List ℕ) (i : ℕ)
    → RoomFor totals i costs
    → (totals' : List ℕ) × (enter_costs totals i costs ≡ value totals')
      × (sum totals' ≡ sum totals + sum costs)
unfolding enter_costs
enter_costs_lem [] totals i r = (totals, refl, omega arith)
enter_costs_lem (c ∷ costs) totals i r =
    let totals₁ = set totals i (get_or totals i 0 + c) in
    let (totals₂, e, more) =
      enter_costs_lem costs totals₁ (i + 1)
        (RoomFor-set totals i (i + 1) _ costs (omega arith) r.2) in
    (
      totals₂,
      rw (enter_one totals i c r.0 r.1) e,
      omega (arith, more, sum-set totals i (get_or totals i 0 + c) r.0),
    )

-- What a message's charges leave, if they are made.
abbrev pub Charged : DataLimit → List ℕ → List ℕ → Type 0
Charged limit cost_fee cost_receipt =
    (buckets : List ℕ) × (fees : List ℕ) × (receipts : List ℕ) × (consume_message_fee limit cost_fee
        cost_receipt
      ≡ value (
        record limit {
          buckets = buckets;
          message_fee = record limit.message_fee { total_consumed = fees };
          message_receipt = record limit.message_receipt { total_consumed = receipts };
        },
        true,
      ))
    × ((j : ℕ)
        → get_or buckets j 0 + spent j (message_charges limit cost_fee cost_receipt)
          ≡ get_or limit.buckets j 0)
    × (sum fees ≡ sum limit.message_fee.total_consumed + sum cost_fee)
    × (sum receipts ≡ sum limit.message_receipt.total_consumed + sum cost_receipt)

-- A message's fee and receipt are charged together or not at all, given that for no bucket the sum of its charges passes U256 and that the totals have an entry with room for each cost. They are charged exactly if every bucket that is named exists and holds what fee and receipt together take from it; each bucket then has that much less, and the two totals grow by the costs. Otherwise the answer is false and nothing changes.
pub consume_message_fee_atomic :
    (limit : DataLimit) (cost_fee cost_receipt : List ℕ)
    → let charges = message_charges limit cost_fee cost_receipt in
      ((j : ℕ) → spent j charges ≤ u256_max)
      → RoomFor limit.message_fee.total_consumed 0 cost_fee
      → RoomFor limit.message_receipt.total_consumed 0 cost_receipt
      → (InRange limit.buckets charges
          × Covers limit.buckets charges
          × Charged limit cost_fee cost_receipt)
        ⊎ ((InRange limit.buckets charges → Covers limit.buckets charges → ⊥)
            × (consume_message_fee limit cost_fee cost_receipt ≡ value (limit, false)))
unfolding consume_message_fee charge_message
consume_message_fee_atomic limit cost_fee cost_receipt fits room_fee room_receipt =
    let charges = message_charges limit cost_fee cost_receipt in
    let (deductions, run, d) = deduct_all_lem [] charges (λ j. omega (arith, fits j)) tt in
    elim (check_deductions_lem limit.buckets 0 deductions d.1) [
      | inl good ↦
          let (buckets, applied, left) =
            apply_deductions_lem deductions limit.buckets good.1 good.2 in
          let (fees, entered, more) =
            enter_costs_lem cost_fee limit.message_fee.total_consumed 0 room_fee in
          let (receipts, entered', more') =
            enter_costs_lem cost_receipt limit.message_receipt.total_consumed 0 room_receipt in
          inl (
            (d.2 limit.buckets good.1).1,
            λ j. omega (arith, good.2 j, d.0 j),
            (
              buckets,
              fees,
              receipts,
              rw (run, good.0, applied, entered, entered') refl,
              λ j. omega (arith, left j, d.0 j),
              more,
              more',
            ),
          )
      | inr bad ↦ inr (
        λ r c. bad.1 (d.3 limit.buckets tt r) (λ j. omega (arith, c j, d.0 j)),
        rw (run, bad.0) refl,
      )
    ]
