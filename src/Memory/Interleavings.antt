-- ===== src/Memory/Interleavings.antt =====
-- Every interleaving of `consume` calls keeps the books.
use genvm_executor.Base.{
  ℕ, ◌+◌, ◌-◌, ◌%◌, ◌^◌, ◌≤◌, ◌≡◌, refl, Bool, true, false, some, List, [], ◌∷◌, arith, min, length,
  length-append, length-set, All, get_elem?, get_or, set, sum, sum-set, sum-append, get_or-le-sum,
  Bool-cases, inl, inr, ltb, ltb→le, ◌==◌, ==→eq,
}
use genvm_executor.Memory.Limiter.{
  u32_max, new, derived, Call, load, compare, lower, charge, returned, advance,
}
use genvm_executor.Memory.Accounting.{IsBalanced}
use genvm_executor.Memory.Threads.{
  System, taken, all_taken, Names, low, floor, Step, begin, move, derive, Reach, here, next,
  IsConsistent, taken-set, Names-get, Names-set, floor-set, floor-set_lower, floor-set_charge,
}

-- A call moves on, takes nothing, and leaves the counters alone.
quiet_move :
    (s : System) (i : ℕ) (old call : Call)
    → IsConsistent s
    → get_elem? s.calls i ≡ some old
    → taken call ≡ taken old
    → ((e : ℕ) → low e call ≡ low e old)
    → (Names (length s.counters.consumed) old → Names (length s.counters.consumed) call)
    → IsConsistent (record s { calls = set s.calls i call })
quiet_move s i old call v h t l n = record {
  total = omega (arith, v.total, taken-set s.calls i old call h);
  lowest = rw (floor-set s.calls i s.counters.least old call h l) v.lowest;
  names = Names-set _ s.calls i call v.names (n (Names-get _ s.calls i old v.names h));
}

swap_move :
    (s : System) (i id delta seen : ℕ)
    → IsConsistent s
    → get_elem? s.calls i ≡ some (compare id delta seen)
    → delta ≤ seen
    → s.counters.remaining ≡ seen
    → IsConsistent (record {
      counters = record s.counters { remaining = seen - delta };
      calls = set s.calls i (lower id delta (seen - delta));
    })
swap_move s i id delta seen v h d e = record {
  total = omega (arith, v.total, taken-set s.calls i _ (lower id delta (seen - delta)) h);
  lowest = floor-set_lower s.calls i s.counters.least id delta (seen - delta) _ h;
  names = Names-set _ s.calls i _ v.names (Names-get _ s.calls i _ v.names h);
}

lower_move :
    (s : System) (i id delta l : ℕ)
    → IsConsistent s
    → get_elem? s.calls i ≡ some (lower id delta l)
    → IsConsistent (record {
      counters = record s.counters { least = min s.counters.least l };
      calls = set s.calls i (charge id delta);
    })
lower_move s i id delta l v h = record {
  total = omega (arith, v.total, taken-set s.calls i _ (charge id delta) h);
  lowest = omega (arith, v.lowest, floor-set_charge s.calls i s.counters.least id delta l h);
  names = Names-set _ s.calls i _ v.names (Names-get _ s.calls i _ v.names h);
}

charge_move :
    (s : System) (i id delta : ℕ)
    → IsConsistent s
    → get_elem? s.calls i ≡ some (charge id delta)
    → IsConsistent (record {
      counters = record s.counters {
        consumed = set s.counters.consumed id ((get_or s.counters.consumed id 0 + delta) % 2 ^ 32);
      };
      calls = set s.calls i (returned true);
    })
charge_move s i id delta v h =
    let entered = (get_or s.counters.consumed id 0 + delta) % 2 ^ 32 in
    let room = Names-get _ s.calls i _ v.names h in
    let moved = taken-set s.calls i _ (returned true) h in
    let held = get_or-le-sum s.counters.consumed id in
    let fits : entered ≡ get_or s.counters.consumed id 0 + delta = omega (arith, v.total) in
    record {
      total = omega (arith, v.total, sum-set s.counters.consumed id entered room);
      lowest = rw (floor-set s.calls i s.counters.least _ (returned true) h (λ e. refl)) v.lowest;
      names = rw (length-set s.counters.consumed id entered) (Names-set _ s.calls i _ v.names tt);
    }

move-IsConsistent :
    (s : System) (i : ℕ) (call : Call)
    → IsConsistent s
    → get_elem? s.calls i ≡ some call
    → IsConsistent (record {
      counters = (advance s.counters call).0;
      calls = set s.calls i (advance s.counters call).1;
    })
unfolding advance
move-IsConsistent s i (load id delta) v h =
    quiet_move s i _ (compare id delta s.counters.remaining) v h refl (λ e. refl) (λ n. n)
move-IsConsistent s i (compare id delta seen) v h = elim (Bool-cases (ltb seen delta)) [
  | inl short ↦ rw short (quiet_move s i _ (returned false) v h refl (λ e. refl) (λ n. tt))
  | inr enough ↦ elim (Bool-cases (s.counters.remaining == seen)) [
    | inl same ↦
        rw (enough, same)
          (swap_move s i id delta seen v h (ltb→le seen delta enough) (==→eq _ seen same))
    | inr other ↦
        rw (enough, other)
          (quiet_move s i _ (compare id delta s.counters.remaining) v h refl (λ e. refl) (λ n. n))
  ]
]
move-IsConsistent s i (lower id delta l) v h = lower_move s i id delta l v h
move-IsConsistent s i (charge id delta) v h = charge_move s i id delta v h
move-IsConsistent s i (returned b) v h = quiet_move s i _ (returned b) v h refl (λ e. refl) (λ n. n)

Names-more : (n m : ℕ) (calls : List Call) → n ≤ m → All (Names n) calls → All (Names m) calls
Names-more n m [] h a = tt
Names-more n m (load id delta ∷ calls) h a = (omega arith, Names-more n m calls h a.1)
Names-more n m (compare id delta seen ∷ calls) h a = (omega arith, Names-more n m calls h a.1)
Names-more n m (lower id delta l ∷ calls) h a = (omega arith, Names-more n m calls h a.1)
Names-more n m (charge id delta ∷ calls) h a = (omega arith, Names-more n m calls h a.1)
Names-more n m (returned b ∷ calls) h a = (tt, Names-more n m calls h a.1)

Step-IsConsistent : {s t : System} → IsConsistent s → Step s t → IsConsistent t
unfolding derived
Step-IsConsistent {s} v (begin id delta h) = record {
  total = omega (arith, v.total);
  lowest = v.lowest;
  names = (h, v.names);
}
Step-IsConsistent {s} v (move i call h) = move-IsConsistent s i call v h
Step-IsConsistent {s} v derive =
    let longer = length-append s.counters.consumed (0 ∷ []) in
    record {
      total = omega (arith, v.total, sum-append s.counters.consumed (0 ∷ []));
      lowest = v.lowest;
      names = Names-more _ _ s.calls (omega arith) v.names;
    }

Reach-IsConsistent : {s t : System} → IsConsistent s → Reach s t → IsConsistent t
Reach-IsConsistent v here = v
Reach-IsConsistent v (next r st) = Step-IsConsistent (Reach-IsConsistent v r) st

abbrev pub started : System
started = record { counters = new; calls = [] }

abbrev pub Returned : Call → Type 0
Returned call = (b : Bool) × (call ≡ returned b)

quiet :
    (calls : List Call) (d : ℕ) → All Returned calls → (all_taken calls ≡ 0) × (floor d calls ≡ d)
quiet [] d h = (refl, refl)
quiet (c ∷ calls) d ((b, e), h) = rw e (omega (arith, quiet calls d h))

-- Whatever the order in which threads make the atomic operations of `consume`, from a new limiter
-- on: at every moment, what is free, what the limiters have entered and what calls have taken and
-- not yet entered is the whole of u32, so no more is given out than there is.
pub consume_conserves :
    {s : System}
    → Reach started s
    → s.counters.remaining + sum s.counters.consumed + all_taken s.calls ≡ u32_max
consume_conserves r =
    let v =
      Reach-IsConsistent (record { total = omega arith; lowest = omega arith; names = tt }) r in
    v.total

-- Once all calls have returned the books are balanced, and `least_remaining_memory` does not lie
-- above what is free.
pub consume_settles : {s : System} → Reach started s → All Returned s.calls → IsBalanced s.counters
consume_settles {s} r done =
    let v =
      Reach-IsConsistent (record { total = omega arith; lowest = omega arith; names = tt }) r in
    let (none_taken, at_least) = quiet s.calls s.counters.least done in
    record { total = omega (arith, v.total); lowest = omega (arith, v.lowest) }
