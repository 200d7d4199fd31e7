-- ===== src/Memory/Threads.antt =====
-- Any number of threads that charge limiters at once: the loop of `consume` as interleavings of its
-- atomic operations.
use genvm_executor.Base.{
  ℕ, zero, suc, ◌+◌, ◌≤◌, ◌<◌, ◌≡◌, ap, some, List, [], ◌∷◌, arith, min, length, All, get_elem?,
  set, sum,
}
use genvm_executor.Memory.Limiter.{
  u32_max, Counters, derived, Call, load, compare, lower, charge, returned, advance,
}

pub record System : Type 0 where
  pub counters : Counters
  pub calls : List Call

-- What a call has taken and not yet entered in its limiter's counter.
abbrev pub taken : Call → ℕ
taken (lower id delta l) = delta
taken (charge id delta) = delta
taken _ = 0

abbrev pub all_taken : List Call → ℕ
all_taken [] = 0
all_taken (call ∷ calls) = taken call + all_taken calls

-- A call names a limiter among `n`.
abbrev pub Names : ℕ → Call → Type 0
Names n (load id delta) = id < n
Names n (compare id delta seen) = id < n
Names n (lower id delta l) = id < n
Names n (charge id delta) = id < n
Names n (returned b) = Unit {0}

-- The least value that `least` will have once all pending `fetch_min`s are done.
abbrev pub low : ℕ → Call → ℕ
low d (lower id delta l) = min d l
low d _ = d

abbrev pub floor : ℕ → List Call → ℕ
floor d [] = d
floor d (call ∷ calls) = low (floor d calls) call

-- A thread calls `consume`, a call makes its next atomic operation, or a limiter is derived.
pub data Step (s : System) : System → Type 0 where
  begin :
      (id delta : ℕ)
      → id < length s.counters.consumed
      → Step s (record s { calls = load id delta ∷ s.calls })
  move :
      (i : ℕ) (call : Call)
      → get_elem? s.calls i ≡ some call
      → Step s (record {
        counters = (advance s.counters call).0;
        calls = set s.calls i (advance s.counters call).1;
      })
  derive : Step s (record s { counters = derived s.counters })

pub data Reach (s : System) : System → Type 0 where
  here : Reach s s
  next : {t u : System} → Reach s t → Step t u → Reach s u

pub record IsConsistent (s : System) : Type 0 where
  pub total : s.counters.remaining + sum s.counters.consumed + all_taken s.calls ≡ u32_max
  pub lowest : floor s.counters.least s.calls ≤ s.counters.remaining
  pub names : All (Names (length s.counters.consumed)) s.calls

pub taken-set :
    (calls : List Call) (i : ℕ) (old call : Call)
    → get_elem? calls i ≡ some old
    → all_taken (set calls i call) + taken old ≡ all_taken calls + taken call
taken-set [] i old call h = cc
taken-set (c ∷ calls) zero old call h = let same : c ≡ old = cc in rw same (omega arith)
taken-set (c ∷ calls) (suc i) old call h = omega (arith, taken-set calls i old call h)

pub Names-get :
    (n : ℕ) (calls : List Call) (i : ℕ) (call : Call)
    → All (Names n) calls
    → get_elem? calls i ≡ some call
    → Names n call
Names-get n [] i call a h = cc
Names-get n (c ∷ calls) zero call a h = let same : call ≡ c = cc in rw same a.0
Names-get n (c ∷ calls) (suc i) call a h = Names-get n calls i call a.1 h

pub Names-set :
    (n : ℕ) (calls : List Call) (i : ℕ) (call : Call)
    → All (Names n) calls
    → Names n call
    → All (Names n) (set calls i call)
Names-set n [] i call a h = tt
Names-set n (c ∷ calls) zero call a h = (h, a.1)
Names-set n (c ∷ calls) (suc i) call a h = (a.0, Names-set n calls i call a.1 h)

low_mono : (call : Call) (d e : ℕ) → d ≤ e → low d call ≤ low e call
low_mono (lower id delta l) d e h = omega arith
low_mono _ d e h = h

low-le : (call : Call) (d : ℕ) → low d call ≤ d
low-le (lower id delta l) d = omega arith
low-le _ d = omega arith

pub floor_mono : (calls : List Call) (d e : ℕ) → d ≤ e → floor d calls ≤ floor e calls
floor_mono [] d e h = h
floor_mono (c ∷ calls) d e h = low_mono c (floor d calls) (floor e calls) (floor_mono calls d e h)

floor-le : (calls : List Call) (d : ℕ) → floor d calls ≤ d
floor-le [] d = omega arith
floor-le (c ∷ calls) d = omega (arith, low-le c (floor d calls), floor-le calls d)

-- A call that lowers nothing takes the place of one like it.
pub floor-set :
    (calls : List Call) (i d : ℕ) (old call : Call)
    → get_elem? calls i ≡ some old
    → ((e : ℕ) → low e call ≡ low e old)
    → floor d (set calls i call) ≡ floor d calls
floor-set [] i d old call h k = cc
floor-set (c ∷ calls) zero d old call h k = let same : c ≡ old = cc in rw same (k (floor d calls))
floor-set (c ∷ calls) (suc i) d old call h k = ap (λ e. low e c) (floor-set calls i d old call h k)

pub floor-set_lower :
    (calls : List Call) (i d id delta l : ℕ) (old : Call)
    → get_elem? calls i ≡ some old
    → floor d (set calls i (lower id delta l)) ≤ l
floor-set_lower [] i d id delta l old h = cc
floor-set_lower (c ∷ calls) zero d id delta l old h = omega arith
floor-set_lower (c ∷ calls) (suc i) d id delta l old h = omega (
  arith,
  low-le c (floor d (set calls i (lower id delta l))),
  floor-set_lower calls i d id delta l old h,
)

pub floor-set_charge :
    (calls : List Call) (i d id delta l : ℕ)
    → get_elem? calls i ≡ some (lower id delta l)
    → floor (min d l) (set calls i (charge id delta)) ≤ floor d calls
floor-set_charge [] i d id delta l h = cc
floor-set_charge (c ∷ calls) zero d id delta l h =
    let same : c ≡ lower id delta l = cc in
    rw same (omega (arith, floor_mono calls (min d l) d (omega arith), floor-le calls (min d l)))
floor-set_charge (c ∷ calls) (suc i) d id delta l h =
    low_mono c _ _ (floor-set_charge calls i d id delta l h)
