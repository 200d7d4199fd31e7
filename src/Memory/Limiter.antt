-- ===== src/Memory/Limiter.antt =====
-- executor/src/rt/memlimiter.rs: the counters of the memory limiter, and its methods as sequences of
-- atomic operations. All counters are u32.
use genvm_executor.Base.{
  ℕ, zero, suc, ◌+◌, ◌-◌, ◌*◌, ◌%◌, ◌^◌, Bool, true, false, not, ◌&&◌, Option, none, some, List, [],
  ◌∷◌, ◌++◌, min, ltb, ◌==◌, if◌then◌else◌, get_or, set,
}

abbrev pub u32_max : ℕ
u32_max = 2 ^ 32 - 1

-- What the limiters derived from one another share, and `consumed_memory` of each, by its number.
pub record Counters : Type 0 where
  pub remaining : ℕ
  pub least : ℕ
  pub consumed : List ℕ

-- `Limiter::new`
abbrev pub new : Counters
new = record { remaining = u32_max; least = u32_max; consumed = 0 ∷ [] }

-- `Limiter::derived`: the new limiter's number is the length of the list before.
unfoldable pub derived : Counters → Counters
derived c = record c { consumed = c.consumed ++ 0 ∷ [] }

-- Where a call of `consume` on a limiter stands: before its load, in the loop with the value that it
-- saw, before `fetch_min`, before `fetch_add`, at its end.
pub data Call : Type 0 where
  load : ℕ → ℕ → Call
  compare : ℕ → ℕ → ℕ → Call
  lower : ℕ → ℕ → ℕ → Call
  charge : ℕ → ℕ → Call
  returned : Bool → Call

unfoldable pub compare_exchange : Counters → ℕ → ℕ → ℕ → Counters × Call
compare_exchange c id delta remaining =
    if ltb remaining delta
    then (c, returned false)
    else if c.remaining == remaining
    then (record c { remaining = remaining - delta }, lower id delta (remaining - delta))
    else (c, compare id delta c.remaining)

-- The next atomic operation of a call.
unfoldable pub advance : Counters → Call → Counters × Call
unfolding compare_exchange
advance c (load id delta) = (c, compare id delta c.remaining)
advance c (compare id delta remaining) = compare_exchange c id delta remaining
advance c (lower id delta least_for_test) =
    (record c { least = min c.least least_for_test }, charge id delta)
advance c (charge id delta) =
    let total = (get_or c.consumed id 0 + delta) % 2 ^ 32 in
    (record c { consumed = set c.consumed id total }, returned true)
advance c (returned b) = (c, returned b)

unfoldable pub run : ℕ → Counters → Call → Counters × Call
run zero c call = (c, call)
run (suc n) c call = let (c', call') = advance c call in run n c' call'

unfoldable pub result : Call → Bool
result (returned b) = b
result _ = false

-- `consume` with no other thread at work: load, one exchange, `fetch_min`, `fetch_add`.
unfoldable pub consume : Counters → ℕ → ℕ → Counters × Bool
unfolding run result
consume c id delta = let (c', call) = run 4 c (load id delta) in (c', result call)

unfoldable pub consume_mul : Counters → ℕ → ℕ → ℕ → Counters × Bool
consume_mul c id delta multiplier =
    if ltb u32_max (delta * multiplier) then (c, false) else consume c id (delta * multiplier)

-- `none` is the failed assertion, that giving back does not pass u32.
unfoldable pub release_no_consumed : Counters → ℕ → Option Counters
release_no_consumed c delta =
    if ltb u32_max (c.remaining + delta)
    then none
    else some (record c { remaining = c.remaining + delta })

unfoldable pub release : Counters → ℕ → ℕ → Option Counters
unfolding release_no_consumed
release c id delta =
    let left = (get_or c.consumed id 0 + 2 ^ 32 - delta) % 2 ^ 32 in
    if ltb u32_max (c.remaining + delta)
    then none
    else some (record c { remaining = c.remaining + delta; consumed = set c.consumed id left })

-- `Drop`: the limiter's counter is gone after it, which the model writes as 0.
unfoldable pub drop_limiter : Counters → ℕ → Option Counters
drop_limiter c id = elim (release_no_consumed c (get_or c.consumed id 0)) [
  | none ↦ none
  | some c' ↦ some (record c' { consumed = set c'.consumed id 0 })
]

-- What `memory_growing` and `table_growing` return: Ok(..), or the VM's out-of-memory error.
pub data Growth : Type 0 where
  allowed : Bool → Growth
  out_of_memory : Growth

abbrev pub table_entry : ℕ
table_entry = 64

unfoldable pub growth : ℕ → Counters × Bool → Counters × Growth
growth current (c, success) =
    if current == 0 && not success then (c, out_of_memory) else (c, allowed success)

-- `desired - current` is taken in usize.
unfoldable pub memory_growing : Counters → ℕ → ℕ → ℕ → Counters × Growth
memory_growing c id current desired =
    let delta = (desired + 2 ^ 64 - current) % 2 ^ 64 in
    if ltb u32_max delta then (c, allowed false) else growth current (consume c id delta)

unfoldable pub table_growing : Counters → ℕ → ℕ → ℕ → Counters × Growth
table_growing c id current desired =
    let delta = (desired + 2 ^ 64 - current) % 2 ^ 64 in
    if ltb u32_max delta
    then (c, allowed false)
    else growth current (consume_mul c id delta table_entry)
