-- ===== src/Fees/Atomic.antt =====
-- `consume_bucket_raw` charges all of its costs or none.
use genvm_executor.Base.{
  ℕ, ◌+◌, ◌≤◌, ◌<◌, ◌≡◌, refl, ap, ◌∙◌, ◌⊎◌, inl, inr, true, false, List, [], ◌∷◌, ◌++◌, append-nil,
  append_assoc, arith, ltb, ltb→lt, ltb→le, le→ltb, ◌==◌, ==→eq, ==_refl, if◌then◌else◌, Bool-cases,
  length, get_elem?-some, get_elem?-none, get_or,
}
use genvm_executor.Fees.Buckets.{
  u256_max, value, add_u256, Charges, add_previous, fits, check_charges,
}

-- What the charges take from bucket `j`, and in all.
abbrev pub spent : ℕ → Charges → ℕ
spent j [] = 0
spent j ((b, c) ∷ charges) = (if b == j then c else 0) + spent j charges

abbrev pub spent_in_all : Charges → ℕ
spent_in_all [] = 0
spent_in_all ((b, c) ∷ charges) = c + spent_in_all charges

abbrev pub InRange : List ℕ → Charges → Type 0
InRange buckets [] = Unit {0}
InRange buckets ((b, c) ∷ charges) = (b < length buckets) × InRange buckets charges

-- Every bucket holds what the charges take from it.
abbrev pub Covers : List ℕ → Charges → Type 0
Covers buckets charges = (j : ℕ) → spent j charges ≤ get_or buckets j 0

-- The totals, from the one with the number `i` on, have room for the charges.
abbrev pub Room : List ℕ → ℕ → Charges → Type 0
Room totals i [] = Unit {0}
Room totals i ((b, c) ∷ charges) =
    (i < length totals) × (get_or totals i 0 + c ≤ u256_max) × Room totals (i + 1) charges

pub spent-append : (j : ℕ) (xs ys : Charges) → spent j (xs ++ ys) ≡ spent j xs + spent j ys
spent-append j [] ys = omega arith
spent-append j ((b, c) ∷ xs) ys = omega (arith, spent-append j xs ys)

pub add_previous_lem :
    (bno cumulative : ℕ) (prev : Charges)
    → cumulative + spent bno prev ≤ u256_max
    → add_previous bno cumulative prev ≡ value (cumulative + spent bno prev)
unfolding add_previous add_u256
add_previous_lem bno cumulative [] h = ap value (omega arith)
add_previous_lem bno cumulative ((p, c) ∷ prev) h = elim (Bool-cases (p == bno)) [
  | inl same ↦
      let h' = rw same at h in
      rw (same, le→ltb u256_max (cumulative + c) (omega arith))
        (add_previous_lem bno (cumulative + c) prev (omega arith) ∙ ap value (omega arith))
  | inr other ↦
      let h' = rw other at h in
      rw other (add_previous_lem bno cumulative prev (omega arith) ∙ ap value (omega arith))
]

-- What is known once the charges `prev` have passed and `rest` is still to be checked.
abbrev pub Checked : List ℕ → Charges → Charges → Type 0
Checked buckets prev rest =
    (check_charges buckets prev rest ≡ value true)
      × InRange buckets rest
      × Covers buckets (prev ++ rest)
    ⊎ (check_charges buckets prev rest ≡ value false)
      × (InRange buckets rest → Covers buckets (prev ++ rest) → ⊥)

fits_lem :
    (buckets : List ℕ) (prev : Charges) (b c : ℕ)
    → c + spent b prev ≤ u256_max
    → ((fits buckets prev b c ≡ value true)
        × (b < length buckets)
        × (c + spent b prev ≤ get_or buckets b 0))
      ⊎ ((fits buckets prev b c ≡ value false)
          × ((b < length buckets) → get_or buckets b 0 < c + spent b prev))
unfolding fits
fits_lem buckets prev b c h = elim (Bool-cases (ltb b (length buckets))) [
  | inr out ↦ inr (
    rw (get_elem?-none buckets b (ltb→le b (length buckets) out), fits),
    λ p. absurd (omega (arith, ltb→le b (length buckets) out)),
  )
  | inl within ↦
      let p : b < length buckets = ltb→lt b (length buckets) within in
      let held = get_elem?-some buckets b 0 p in
      let sum = add_previous_lem b c prev h in
      elim (Bool-cases (ltb (get_or buckets b 0) (c + spent b prev))) [
        | inl short ↦ inr (rw (held, fits) (rw sum (ground arith)), λ q. ltb→lt _ _ short)
        | inr enough ↦
            let most = ltb→le _ _ enough in inl (rw (held, fits) (rw sum (ground arith)), p, most)
      ]
]

Covers-more :
    (buckets : List ℕ) (prev : Charges) (b c : ℕ)
    → Covers buckets prev
    → c + spent b prev ≤ get_or buckets b 0
    → Covers buckets (prev ++ (b, c) ∷ [])
Covers-more buckets prev b c v most j = elim (Bool-cases (b == j)) [
  | inl same ↦
      let e : b ≡ j = ==→eq b j same in
      rw (spent-append j prev ((b, c) ∷ []), same) (omega (arith, rw e at most))
  | inr other ↦ rw (spent-append j prev ((b, c) ∷ []), other) (omega (arith, v j))
]

pub check_lem :
    (buckets : List ℕ) (prev rest : Charges)
    → ((j : ℕ) → spent j (prev ++ rest) ≤ u256_max)
    → Covers buckets prev
    → Checked buckets prev rest
unfolding check_charges
check_lem buckets prev [] h v = inl (refl, tt, rw append-nil v)
check_lem buckets prev ((b, c) ∷ rest) h v =
    let here = spent-append b prev ((b, c) ∷ rest) in
    let same = ==_refl b in
    let at_b : spent b ((b, c) ∷ rest) ≡ c + spent b rest = rw same refl in
    elim (fits_lem buckets prev b c (omega (arith, h b))) [
      | inr (stop, short) ↦ inr (rw stop, λ r w. absurd (omega (arith, short r.0, w b)))
      | inl (go, p, most) ↦
          let ih =
            check_lem buckets (prev ++ (b, c) ∷ []) rest
              (λ j. rw (append_assoc prev ((b, c) ∷ []) rest) (h j))
              (Covers-more buckets prev b c v most) in
          elim ih [
            | inl (e, r, w) ↦
                inl (rw go e, (p, r), λ j. rw (append_assoc prev ((b, c) ∷ []) rest) at (w j))
            | inr (e, n) ↦
                inr (rw go e, λ r w. n r.1 (λ j. rw (append_assoc prev ((b, c) ∷ []) rest) (w j)))
          ]
    ]
