-- ===== src/Memory/Tests.antt =====
-- Runs of the limiter, and its theorems at concrete inputs.
use genvm_executor.Base.{
  ◌+◌, ◌-◌, ◌*◌, ◌^◌, ◌≤◌, ◌<◌, ◌≡◌, ◌⊎◌, refl, true, false, some, [], ◌∷◌, arith, get_or, length,
}
use genvm_executor.Memory.Limiter.{
  u32_max, Counters, new, load, compare, lower, charge, returned, compare_exchange, advance,
  consume, release, drop_limiter, allowed, memory_growing, table_growing,
}
use genvm_executor.Memory.Accounting.{
  IsBalanced, consume-IsBalanced, release-IsBalanced, drop_limiter-IsBalanced,
}
use genvm_executor.Memory.Threads.{System, Reach, here, next, begin, move}
use genvm_executor.Memory.Interleavings.{started, consume_conserves, consume_settles}
use genvm_executor.Memory.Progress.{Schedule, stay, go, pairs, Schedule-ends}
use genvm_executor.Memory.Growth.{Outcome, memory_growing_lem, table_growing_lem}

consume_runs : (consume new 0 1000).0.consumed ≡ 1000 ∷ []
unfolding consume advance
consume_runs = refl

-- One limiter, and one derived from it that holds 500.
abbrev two_limiters : Counters
two_limiters = record { remaining = u32_max - 1500; least = 7; consumed = 1000 ∷ 500 ∷ [] }

two_limiters-IsBalanced : IsBalanced two_limiters
two_limiters-IsBalanced = omega arith

consume-IsBalanced_example :
    IsBalanced (consume two_limiters 1 300).0
    × (((consume two_limiters 1 300).1 ≡ true)
          × (300 ≤ u32_max - 1500)
          × ((consume two_limiters 1 300).0.remaining + 300 ≡ u32_max - 1500)
          × (get_or (consume two_limiters 1 300).0.consumed 1 0 ≡ 500 + 300)
        ⊎ ((consume two_limiters 1 300).1 ≡ false)
          × (u32_max - 1500 < 300)
          × ((consume two_limiters 1 300).0 ≡ two_limiters))
consume-IsBalanced_example =
    consume-IsBalanced two_limiters 1 300 two_limiters-IsBalanced (omega arith)

release-IsBalanced_example :
    (c' : Counters) × (release two_limiters 1 200 ≡ some c')
    × IsBalanced c'
    × (c'.remaining ≡ u32_max - 1500 + 200)
    × (get_or c'.consumed 1 0 + 200 ≡ 500)
release-IsBalanced_example =
    release-IsBalanced two_limiters 1 200 two_limiters-IsBalanced (omega arith) (omega arith)

drop_limiter-IsBalanced_example :
    (c' : Counters) × (drop_limiter two_limiters 1 ≡ some c')
    × IsBalanced c'
    × (c'.remaining ≡ u32_max - 1500 + 500)
    × (get_or c'.consumed 1 0 ≡ 0)
drop_limiter-IsBalanced_example =
    drop_limiter-IsBalanced two_limiters 1 two_limiters-IsBalanced (omega arith)

-- Two calls at once: the second takes what the first saw, and the first has to look again.
abbrev raced : System
raced = record {
  counters = record { remaining = u32_max - 70; least = u32_max - 70; consumed = 70 ∷ [] };
  calls = returned true ∷ compare 0 50 (u32_max - 70) ∷ [];
}

raced_reached : Reach started raced
unfolding advance
raced_reached =
    next
      (next
        (next
          (next
            (next
              (next (next (next here (begin 0 50 (omega arith))) (move 0 (load 0 50) refl))
                (begin 0 70 (omega arith)))
              (move 0 (load 0 70) refl))
            (move 0 (compare 0 70 u32_max) refl))
          (move 1 (compare 0 50 u32_max) refl))
        (move 0 (lower 0 70 (u32_max - 70)) refl))
      (move 0 (charge 0 70) refl)

consume_conserves_example : (u32_max - 70) + (70 + 0) + (0 + (0 + 0)) ≡ u32_max
consume_conserves_example = consume_conserves {s = raced} raced_reached

abbrev settled : System
settled = record {
  counters = record { remaining = u32_max - 70; least = u32_max - 70; consumed = 70 ∷ [] };
  calls = returned true ∷ [];
}

settled_reached : Reach started settled
unfolding advance
settled_reached =
    next
      (next
        (next (next (next here (begin 0 70 (omega arith))) (move 0 (load 0 70) refl))
          (move 0 (compare 0 70 u32_max) refl))
        (move 0 (lower 0 70 (u32_max - 70)) refl))
      (move 0 (charge 0 70) refl)

consume_settles_example :
    IsBalanced (record { remaining = u32_max - 70; least = u32_max - 70; consumed = 70 ∷ [] })
consume_settles_example = consume_settles {s = settled} settled_reached ((true, refl), tt)

memory_growing_lem_example :
    (65536 - 0 ≤ u32_max)
      × Outcome two_limiters 1 0 (65536 - 0) (memory_growing two_limiters 1 0 65536)
    ⊎ (u32_max < 65536 - 0)
      × (memory_growing two_limiters 1 0 65536 ≡ (two_limiters, allowed false))
memory_growing_lem_example = memory_growing_lem two_limiters 1 0 65536 (omega arith) (omega arith)

-- A first allocation of 65536 pages is refused without the error.
largest_memory : memory_growing two_limiters 1 0 (2 ^ 32) ≡ (two_limiters, allowed false)
unfolding memory_growing
largest_memory = refl

table_growing_lem_example :
    Outcome two_limiters 1 10 ((20 - 10) * 64) (table_growing two_limiters 1 10 20)
table_growing_lem_example =
    table_growing_lem two_limiters 1 10 20 two_limiters-IsBalanced (omega arith) (omega arith)

abbrev two_calls : System
two_calls = record { counters = new; calls = load 0 50 ∷ load 0 70 ∷ [] }

-- Both calls look, the second exchanges, and the first has to look again.
abbrev contended : System
contended = record {
  counters = record { remaining = u32_max - 70; least = u32_max; consumed = 0 ∷ [] };
  calls = compare 0 50 (u32_max - 70) ∷ lower 0 70 (u32_max - 70) ∷ [];
}

contended-Schedule : Schedule two_calls 4 contended
unfolding advance compare_exchange
contended-Schedule =
    go
      (go (go (go stay 0 (load 0 50) refl tt) 1 (load 0 70) refl tt) 1 (compare 0 70 u32_max) refl
        tt)
      0 (compare 0 50 u32_max) refl tt

Schedule-ends_example : 4 ≤ 4 * length two_calls.calls + pairs (length two_calls.calls)
Schedule-ends_example = Schedule-ends {s = two_calls} {t = contended} {n = 4} contended-Schedule
