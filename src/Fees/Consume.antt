-- ===== src/Fees/Consume.antt =====
-- `consume_bucket_raw` charges all of its costs or none: its answer, and the books after it.
use genvm_executor.Base.{
  ℕ, ◌+◌, ◌-◌, ◌≤◌, ◌<◌, ◌≡◌, refl, ◌⊎◌, inl, inr, ◌≢◌, true, false, List, [], ◌∷◌, arith, le→ltb,
  ◌==◌, ==→eq, ==_refl, if◌then◌else◌, Bool-cases, length, length-set, get_elem?-some, get_or,
  get_or-set_self, get_or-set_ne, set, sum, sum-set,
}
use genvm_executor.Fees.Buckets.{
  u256_max, value, add_u256, sub_u256, Charges, zip, Bucket, update_at, apply_charges,
  consume_bucket_raw,
}
use genvm_executor.Fees.Atomic.{spent, spent_in_all, InRange, Covers, Room, check_lem}

pub take_one :
    (buckets : List ℕ) (b c : ℕ)
    → b < length buckets
    → c ≤ get_or buckets b 0
    → update_at (λ old. sub_u256 old c) buckets b ≡ value (set buckets b (get_or buckets b 0 - c))
unfolding update_at sub_u256
take_one buckets b c h l =
    rw (get_elem?-some buckets b 0 h, update_at) (rw (le→ltb (get_or buckets b 0) c l))

pub enter_one :
    (totals : List ℕ) (i c : ℕ)
    → i < length totals
    → get_or totals i 0 + c ≤ u256_max
    → update_at (λ old. add_u256 old c) totals i ≡ value (set totals i (get_or totals i 0 + c))
unfolding update_at add_u256
enter_one totals i c h l =
    rw (get_elem?-some totals i 0 h, update_at) (rw (le→ltb u256_max (get_or totals i 0 + c) l))

pub InRange-set :
    (buckets : List ℕ) (b v : ℕ) (charges : Charges)
    → InRange buckets charges
    → InRange (set buckets b v) charges
InRange-set buckets b v [] h = tt
InRange-set buckets b v ((a, c) ∷ charges) h =
    (rw (length-set buckets b v) h.0, InRange-set buckets b v charges h.1)

Room-set :
    (totals : List ℕ) (i j v : ℕ) (charges : Charges)
    → i < j
    → Room totals j charges
    → Room (set totals i v) j charges
Room-set totals i j v [] l h = tt
Room-set totals i j v ((b, c) ∷ charges) l h = (
  rw (length-set totals i v) h.0,
  rw (get_or-set_ne totals i j v 0 (omega arith)) h.1,
  Room-set totals i (j + 1) v charges (omega arith) h.2,
)

pub get_or_taken :
    (buckets : List ℕ) (b c j : ℕ)
    → b < length buckets
    → c ≤ get_or buckets b 0
    → get_or (set buckets b (get_or buckets b 0 - c)) j 0 + (if b == j then c else 0)
      ≡ get_or buckets j 0
get_or_taken buckets b c j h l = elim (Bool-cases (b == j)) [
  | inl same ↦
      let e : b ≡ j = ==→eq b j same in
      rw (same, ← e) (omega (arith, get_or-set_self buckets b (get_or buckets b 0 - c) 0 h))
  | inr other ↦
      let apart : b ≢ j = ground arith in
      rw (other, get_or-set_ne buckets b j (get_or buckets b 0 - c) 0 apart) (omega arith)
]

-- The second loop goes through, and takes from each bucket what the charges name.
abbrev Applied : List ℕ → List ℕ → ℕ → Charges → Type 0
Applied buckets totals i charges =
    (buckets' : List ℕ) × (totals' : List ℕ) × (apply_charges buckets totals i charges
      ≡ value (buckets', totals'))
    × ((j : ℕ) → get_or buckets' j 0 + spent j charges ≡ get_or buckets j 0)
    × (sum totals' ≡ sum totals + spent_in_all charges)

apply_lem :
    (charges : Charges) (buckets totals : List ℕ) (i : ℕ)
    → InRange buckets charges
    → Covers buckets charges
    → Room totals i charges
    → Applied buckets totals i charges
unfolding apply_charges
apply_lem [] buckets totals i h v r = (buckets, totals, refl, λ j. omega arith, omega arith)
apply_lem ((b, c) ∷ charges) buckets totals i h v r =
    let at_b : spent b ((b, c) ∷ charges) ≡ c + spent b charges = rw (==_refl b) refl in
    let enough : c ≤ get_or buckets b 0 = omega (arith, v b) in
    let buckets₁ = set buckets b (get_or buckets b 0 - c) in
    let totals₁ = set totals i (get_or totals i 0 + c) in
    let taken = λ (j : ℕ). get_or_taken buckets b c j h.0 enough in
    let (buckets₂, totals₂, e, left, more) =
      apply_lem charges buckets₁ totals₁ (i + 1) (InRange-set buckets b _ charges h.1)
        (λ j. omega (arith, v j, taken j))
        (Room-set totals i (i + 1) _ charges (omega arith) r.2) in
    (
      buckets₂,
      totals₂,
      rw (take_one buckets b c h.0 enough, enter_one totals i c r.0 r.1) e,
      λ j. omega (arith, left j, taken j),
      omega (arith, more, sum-set totals i (get_or totals i 0 + c) r.0),
    )

-- A bucket's charges are all made or none is, given that for no bucket the sum of its charges passes U256
-- and that `total_consumed` has an entry with room for each charge. They are made exactly if every bucket exists and
-- holds what all of its charges together take from it; each bucket then has that much less, and the
-- totals of the consumption grow by all costs. Otherwise the answer is false and nothing changes.
pub consume_bucket_raw_atomic :
    (buckets : List ℕ) (bucket : Bucket) (costs : List ℕ)
    → let charges = zip bucket.bucket_nos costs in
      ((j : ℕ) → spent j charges ≤ u256_max)
      → Room bucket.total_consumed 0 charges
      → (InRange buckets charges
          × Covers buckets charges
          × ((buckets' : List ℕ) × (totals' : List ℕ) × (consume_bucket_raw buckets bucket costs
                ≡ value (buckets', record bucket { total_consumed = totals' }, true))
              × ((j : ℕ) → get_or buckets' j 0 + spent j charges ≡ get_or buckets j 0)
              × (sum totals' ≡ sum bucket.total_consumed + spent_in_all charges)))
        ⊎ ((InRange buckets charges → Covers buckets charges → ⊥)
            × (consume_bucket_raw buckets bucket costs ≡ value (buckets, bucket, false)))
unfolding consume_bucket_raw
consume_bucket_raw_atomic buckets bucket costs h r =
    elim (check_lem buckets [] (zip bucket.bucket_nos costs) h (λ j. omega arith)) [
      | inl (good, p, v) ↦
          let (buckets', totals', e, left, more) =
            apply_lem (zip bucket.bucket_nos costs) buckets bucket.total_consumed 0 p v r in
          inl (p, v, (buckets', totals', rw (good, e), left, more))
      | inr (bad, n) ↦ inr (n, rw bad)
    ]
