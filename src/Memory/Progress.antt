-- ===== src/Memory/Progress.antt =====
-- The loop of `consume` under contention: an exchange fails only after another one has succeeded, so
-- that calls in progress come to their ends under every schedule.
use genvm_executor.Base.{
  ℕ, zero, suc, ◌+◌, ◌-◌, ◌*◌, ◌≤◌, ◌<◌, ◌≡◌, refl, ap, true, false, some, List, [], ◌∷◌, arith,
  length, get_elem?, set, Bool-cases, inl, inr, ltb, ◌==◌, ==_refl, if◌then◌else◌,
}
use genvm_executor.Memory.Limiter.{
  Counters, Call, load, compare, lower, charge, returned, compare_exchange, advance,
}
use genvm_executor.Memory.Threads.{System}

-- A call that has not returned.
abbrev pub IsRunning : Call → Type 0
IsRunning (returned b) = ⊥
IsRunning _ = Unit {0}

-- A call has made an operation.
abbrev pub moved : System → ℕ → Call → System
moved s i call = record {
  counters = (advance s.counters call).0;
  calls = set s.calls i (advance s.counters call).1;
}

-- A schedule of `n` atomic operations by the calls of a system.
pub data Schedule (s : System) : ℕ → System → Type 0 where
  stay : Schedule s 0 s
  go :
      {n : ℕ} {t : System}
      → Schedule s n t
      → (i : ℕ) (call : Call) → get_elem? t.calls i ≡ some call
      → IsRunning call
      → Schedule s (suc n) (moved t i call)

-- How many operations a call makes if no other call changes the counter, that is `remaining`.
abbrev left_alone : ℕ → Call → ℕ
left_alone remaining (load id delta) = 4
left_alone remaining (compare id delta seen) = if remaining == seen then 3 else 4
left_alone remaining (lower id delta l) = 2
left_alone remaining (charge id delta) = 1
left_alone remaining (returned b) = 0

abbrev all_alone : ℕ → List Call → ℕ
all_alone remaining [] = 0
all_alone remaining (call ∷ calls) = left_alone remaining call + all_alone remaining calls

-- The calls that have not taken anything yet.
abbrev waits : Call → ℕ
waits (load id delta) = 1
waits (compare id delta seen) = 1
waits _ = 0

abbrev waiting : List Call → ℕ
waiting [] = 0
waiting (call ∷ calls) = waits call + waiting calls

-- The number of pairs of `n` things.
abbrev pub pairs : ℕ → ℕ
pairs zero = 0
pairs (suc n) = pairs n + n

abbrev potential : System → ℕ
potential s = all_alone s.counters.remaining s.calls + pairs (waiting s.calls)

all_alone-set :
    (r : ℕ) (calls : List Call) (i : ℕ) (old call : Call)
    → get_elem? calls i ≡ some old
    → all_alone r (set calls i call) + left_alone r old ≡ all_alone r calls + left_alone r call
all_alone-set r [] i old call h = cc
all_alone-set r (c ∷ calls) zero old call h = let same : c ≡ old = cc in rw same (omega arith)
all_alone-set r (c ∷ calls) (suc i) old call h = omega (arith, all_alone-set r calls i old call h)

waiting-set :
    (calls : List Call) (i : ℕ) (old call : Call)
    → get_elem? calls i ≡ some old
    → waiting (set calls i call) + waits old ≡ waiting calls + waits call
waiting-set [] i old call h = cc
waiting-set (c ∷ calls) zero old call h = let same : c ≡ old = cc in rw same (omega arith)
waiting-set (c ∷ calls) (suc i) old call h = omega (arith, waiting-set calls i old call h)

-- A change of the counter costs each call that waits one more operation at most.
left_alone_bound : (r r' : ℕ) (call : Call) → left_alone r' call ≤ left_alone r call + waits call
left_alone_bound r r' (load id delta) = omega arith
left_alone_bound r r' (compare id delta seen) = ground arith
left_alone_bound r r' (lower id delta l) = omega arith
left_alone_bound r r' (charge id delta) = omega arith
left_alone_bound r r' (returned b) = omega arith

all_alone_bound :
    (r r' : ℕ) (calls : List Call) → all_alone r' calls ≤ all_alone r calls + waiting calls
all_alone_bound r r' [] = omega arith
all_alone_bound r r' (call ∷ calls) =
    omega (arith, left_alone_bound r r' call, all_alone_bound r r' calls)

pairs-suc : (n m : ℕ) → n ≡ suc m → pairs n ≡ pairs m + m
pairs-suc n m e = ap pairs e

pairs_mono : (m n : ℕ) → m ≤ n → pairs m ≤ pairs n
pairs_mono zero n h = omega arith
pairs_mono (suc m) zero h = absurd (omega arith)
pairs_mono (suc m) (suc n) h =
    let less : m ≤ n = omega arith in omega (arith, pairs_mono m n less, less)

-- An operation that leaves the counter alone.
quiet :
    (s : System) (i : ℕ) (old call : Call) (c : Counters)
    → get_elem? s.calls i ≡ some old
    → c.remaining ≡ s.counters.remaining
    → left_alone s.counters.remaining call < left_alone s.counters.remaining old
    → waits call ≤ waits old
    → potential (record { counters = c; calls = set s.calls i call }) < potential s
quiet s i old call c h same less fewer =
    let alone = all_alone-set s.counters.remaining s.calls i old call h in
    let wait = waiting-set s.calls i old call h in
    let fewer_pairs =
      pairs_mono (waiting (set s.calls i call)) (waiting s.calls) (omega (arith, wait, fewer)) in
    rw same (omega (arith, alone, fewer_pairs, less))

-- An exchange that succeeds, after which all others that wait may have to look again.
success :
    (s : System) (i id delta seen : ℕ) (c : Counters)
    → get_elem? s.calls i ≡ some (compare id delta seen)
    → (s.counters.remaining == seen) ≡ true
    → potential (record { counters = c; calls = set s.calls i (lower id delta (seen - delta)) })
      < potential s
success s i id delta seen c h same =
    let r = s.counters.remaining in
    let call = lower id delta (seen - delta) in
    let calls' = set s.calls i call in
    let alone = all_alone-set r s.calls i (compare id delta seen) call h in
    let wait = waiting-set s.calls i (compare id delta seen) call h in
    let more = all_alone_bound r c.remaining calls' in
    let three : left_alone r (compare id delta seen) ≡ 3 = rw same refl in
    let taken_out = pairs-suc (waiting s.calls) (waiting calls') (omega (arith, wait)) in
    omega (arith, alone, wait, more, three, taken_out)

moved-potential :
    (s : System) (i : ℕ) (call : Call)
    → get_elem? s.calls i ≡ some call
    → IsRunning call
    → potential (moved s i call) < potential s
unfolding advance compare_exchange
moved-potential s i (load id delta) h running =
    quiet s i (load id delta) (compare id delta s.counters.remaining) s.counters h refl
      (rw (==_refl s.counters.remaining) (omega arith)) (omega arith)
moved-potential s i (compare id delta seen) h running = elim (Bool-cases (ltb seen delta)) [
  | inl short ↦ rw short (
      quiet s i (compare id delta seen) (returned false) s.counters h refl (ground arith)
        (omega arith))
  | inr enough ↦ elim (Bool-cases (s.counters.remaining == seen)) [
    | inl same ↦
        rw (enough, same)
          (success s i id delta seen (record s.counters { remaining = seen - delta }) h same)
    | inr changed ↦
        rw (enough, changed)
          (quiet s i (compare id delta seen) (compare id delta s.counters.remaining) s.counters h
            refl (rw (==_refl s.counters.remaining, changed) (omega arith)) (omega arith))
  ]
]
moved-potential s i (lower id delta l) h running =
    quiet s i (lower id delta l) (charge id delta) (advance s.counters (lower id delta l)).0 h refl
      (omega arith) (omega arith)
moved-potential s i (charge id delta) h running =
    quiet s i (charge id delta) (returned true) (advance s.counters (charge id delta)).0 h refl
      (omega arith) (omega arith)
moved-potential s i (returned b) h running = absurd running

left_alone_most : (r : ℕ) (call : Call) → left_alone r call ≤ 4
left_alone_most r (load id delta) = omega arith
left_alone_most r (compare id delta seen) = ground arith
left_alone_most r (lower id delta l) = omega arith
left_alone_most r (charge id delta) = omega arith
left_alone_most r (returned b) = omega arith

waits_most : (call : Call) → waits call ≤ 1
waits_most (load id delta) = omega arith
waits_most (compare id delta seen) = omega arith
waits_most (lower id delta l) = omega arith
waits_most (charge id delta) = omega arith
waits_most (returned b) = omega arith

all_alone_most : (r : ℕ) (calls : List Call) → all_alone r calls ≤ 4 * length calls
all_alone_most r [] = omega arith
all_alone_most r (call ∷ calls) = omega (arith, left_alone_most r call, all_alone_most r calls)

waiting_most : (calls : List Call) → waiting calls ≤ length calls
waiting_most [] = omega arith
waiting_most (call ∷ calls) = omega (arith, waits_most call, waiting_most calls)

Schedule-potential : {s t : System} {n : ℕ} → Schedule s n t → potential t + n ≤ potential s
Schedule-potential stay = omega arith
Schedule-potential (go {t = t} before i call h running) =
    omega (arith, Schedule-potential before, moved-potential t i call h running)

-- However the atomic operations of some calls of `consume` are scheduled, they are no more than four
-- for each call and one for each pair of calls, so that none of the loops goes on for ever.
pub Schedule-ends :
    {s t : System} {n : ℕ} → Schedule s n t → n ≤ 4 * length s.calls + pairs (length s.calls)
Schedule-ends {s = s} schedule = omega (
  arith,
  Schedule-potential schedule,
  all_alone_most s.counters.remaining s.calls,
  pairs_mono (waiting s.calls) (length s.calls) (waiting_most s.calls),
)
