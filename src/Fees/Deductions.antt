-- ===== src/Fees/Deductions.antt =====
-- The map of deductions in `consume_message_fee` of executor/src/rt/fees.rs adds up the charges.
use genvm_executor.Base.{
  ℕ, ◌+◌, ◌≤◌, ◌<◌, ◌≡◌, ◌≢◌, refl, sym, ◌⊎◌, inl, inr, true, false, Bool-cases, List, [], ◌∷◌,
  arith, ltb, ltb→lt, ltb→le, le→ltb, ◌==◌, ==→eq, ==_refl, if◌then◌else◌, length, get_or,
  get_elem?-some, get_elem?-none,
}
use genvm_executor.Fees.Buckets.{u256_max, value, add_u256, Charges}
use genvm_executor.Fees.Atomic.{spent, InRange, Covers}
use genvm_executor.Fees.Message.{deduct, deduct_all, check_deductions}

-- The buckets' numbers ascend, from `low` on.
abbrev pub Ascends : ℕ → Charges → Type 0
Ascends low [] = Unit {0}
Ascends low ((k, t) ∷ deductions) = (low ≤ k) × Ascends (k + 1) deductions

abbrev pub Deducted : ℕ → ℕ → ℕ → Charges → Charges → Type 0
Deducted low bno cost before after =
    ((j : ℕ) → spent j after ≡ spent j before + (if bno == j then cost else 0))
    × Ascends low after
    × ((buckets : List ℕ) → InRange buckets after → (bno < length buckets) × InRange buckets before)
    × ((buckets : List ℕ) → bno < length buckets → InRange buckets before → InRange buckets after)

-- A later bucket's deduction goes past an earlier one.
deduct_above :
    (deductions after : Charges) (k t bno cost : ℕ)
    → (k == bno) ≡ false
    → ltb bno k ≡ false
    → deduct deductions bno cost ≡ value after
    → deduct ((k, t) ∷ deductions) bno cost ≡ value ((k, t) ∷ after)
unfolding deduct
deduct_above deductions after k t bno cost other above run = rw (other, above, run) refl

deduct_lem :
    (deductions : Charges) (low bno cost : ℕ)
    → spent bno deductions + cost ≤ u256_max
    → low ≤ bno
    → Ascends low deductions
    → (after : Charges) × (deduct deductions bno cost ≡ value after)
      × Deducted low bno cost deductions after
unfolding deduct add_u256
deduct_lem [] low bno cost fits least sorted = (
  (bno, 0 + cost) ∷ [],
  rw (le→ltb u256_max (0 + cost) (omega arith)) refl,
  (λ j. ground arith, (least, tt), λ buckets h. h, λ buckets p h. (p, h)),
)
deduct_lem ((k, t) ∷ deductions) low bno cost fits least sorted = elim (Bool-cases (k == bno)) [
  | inl same ↦
      let e : k ≡ bno = ==→eq k bno same in
      let fits' = rw same at fits in
      (
        (k, t + cost) ∷ deductions,
        rw (same, le→ltb u256_max (t + cost) (omega arith)) refl,
        (
          λ j. rw (sym e) (ground arith),
          (omega (arith, sorted.0), sorted.1),
          λ buckets h. (omega (arith, h.0), h),
          λ buckets p h. h,
        ),
      )
  | inr other ↦ elim (Bool-cases (ltb bno k)) [
    | inl below ↦ (
      (bno, 0 + cost) ∷ (k, t) ∷ deductions,
      rw (other, below, le→ltb u256_max (0 + cost) (omega arith)) refl,
      (
        λ j. ground arith,
        (least, (omega (arith, ltb→lt bno k below), sorted.1)),
        λ buckets h. h,
        λ buckets p h. (p, h),
      ),
    )
    | inr above ↦
        let fits' = rw other at fits in
        let apart : k ≢ bno = ground arith in
        let (after, run, d) =
          deduct_lem deductions (k + 1) bno cost (omega arith)
            (omega (arith, ltb→le bno k above, apart)) sorted.1 in
        (
          (k, t) ∷ after,
          deduct_above deductions after k t bno cost other above run,
          (
            λ j. omega (arith, d.0 j),
            (sorted.0, d.1),
            λ buckets h. ((d.2 buckets h.1).0, (h.0, (d.2 buckets h.1).1)),
            λ buckets p h. (h.0, d.3 buckets p h.1),
          ),
        )
  ]
]

-- The map after all charges: each bucket's sum, in order, of the buckets that are named.
abbrev pub DeductedAll : Charges → Charges → Charges → Type 0
DeductedAll before charges after =
    ((j : ℕ) → spent j after ≡ spent j before + spent j charges)
    × Ascends 0 after
    × ((buckets : List ℕ)
        → InRange buckets after
        → InRange buckets before × InRange buckets charges)
    × ((buckets : List ℕ)
        → InRange buckets before
        → InRange buckets charges
        → InRange buckets after)

pub deduct_all_lem :
    (before charges : Charges)
    → ((j : ℕ) → spent j before + spent j charges ≤ u256_max)
    → Ascends 0 before
    → (after : Charges) × (deduct_all before charges ≡ value after)
      × DeductedAll before charges after
unfolding deduct_all
deduct_all_lem before [] fits sorted =
    (before, refl, (λ j. omega arith, sorted, λ buckets h. (h, tt), λ buckets h r. h))
deduct_all_lem before ((bno, cost) ∷ charges) fits sorted =
    let at_b : spent bno ((bno, cost) ∷ charges) ≡ cost + spent bno charges =
      rw (==_refl bno) refl in
    let (one, run, d) =
      deduct_lem before 0 bno cost (omega (arith, fits bno, at_b)) (omega arith) sorted in
    let (after, run_rest, e) = deduct_all_lem one charges (λ j. omega (arith, fits j, d.0 j)) d.1 in
    (
      after,
      rw run run_rest,
      (
        λ j. omega (arith, d.0 j, e.0 j),
        e.1,
        λ buckets h.
            let (first, rest) = e.2 buckets h in
            ((d.2 buckets first).1, ((d.2 buckets first).0, rest)),
        λ buckets h r. e.3 buckets (d.3 buckets r.0 h) r.1,
      ),
    )

-- No sum passes over a bucket before `low`.
spent-Ascends :
    (deductions : Charges) (low j : ℕ) → Ascends low deductions → j < low → spent j deductions ≡ 0
spent-Ascends [] low j h l = refl
spent-Ascends ((k, t) ∷ deductions) low j h l =
    let rest = spent-Ascends deductions (k + 1) j h.1 (omega (arith, h.0)) in
    let before = h.0 in ground arith

-- The check of the map decides whether every bucket exists and covers its sum.
pub check_deductions_lem :
    (buckets : List ℕ) (low : ℕ) (deductions : Charges)
    → Ascends low deductions
    → ((check_deductions buckets deductions ≡ true)
        × InRange buckets deductions
        × Covers buckets deductions)
      ⊎ ((check_deductions buckets deductions ≡ false)
          × (InRange buckets deductions → Covers buckets deductions → ⊥))
unfolding check_deductions
check_deductions_lem buckets low [] sorted = inl (refl, tt, λ j. omega arith)
check_deductions_lem buckets low ((k, t) ∷ deductions) sorted =
    let at_k : spent k ((k, t) ∷ deductions) ≡ t + spent k deductions = rw (==_refl k) refl in
    let none_later = spent-Ascends deductions (k + 1) k sorted.1 (omega arith) in
    elim (Bool-cases (ltb k (length buckets))) [
      | inr out ↦ inr (
        rw (get_elem?-none buckets k (ltb→le k (length buckets) out), check_deductions) refl,
        λ r c. absurd (omega (arith, r.0, ltb→le k (length buckets) out)),
      )
      | inl within ↦
          let p = ltb→lt k (length buckets) within in
          let found = get_elem?-some buckets k 0 p in
          elim (Bool-cases (ltb (get_or buckets k 0) t)) [
            | inl short ↦ inr (
              rw (found, check_deductions) (rw short refl),
              λ r c. absurd (omega (arith, c k, at_k, ltb→lt _ _ short)),
            )
            | inr enough ↦ elim (check_deductions_lem buckets (k + 1) deductions sorted.1) [
              | inl good ↦ inl (
                rw (found, check_deductions) (rw (enough, good.0) refl),
                (p, good.1),
                λ j. elim (Bool-cases (k == j)) [
                  | inl same ↦
                      let e = ==→eq k j same in
                      let most = rw e at (ltb→le _ _ enough) in
                      let gone = rw e at none_later in rw same (omega (arith, most, gone))
                  | inr other ↦ rw other (omega (arith, good.2 j))
                ],
              )
              | inr bad ↦ inr (
                rw (found, check_deductions) (rw (enough, bad.0) refl),
                λ r c. bad.1 r.1 (λ j. omega (arith, c j)),
              )
            ]
          ]
    ]
