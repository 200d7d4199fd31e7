-- ===== src/Memory/Growth.antt =====
-- `memory_growing` and `table_growing`.
use genvm_executor.Base.{
  ℕ, ◌+◌, ◌-◌, ◌*◌, ◌%◌, ◌^◌, ◌≤◌, ◌<◌, ◌≡◌, refl, true, false, arith, ltb, Bool-cases, inl, inr,
  ◌⊎◌, le→ltb, ltb→lt, ltb→le,
}
use genvm_executor.Memory.Limiter.{
  u32_max, Counters, consume, consume_mul, Growth, allowed, out_of_memory, growth, memory_growing,
  table_growing,
}
use genvm_executor.Memory.Accounting.{IsBalanced, charged, consume_lem}

-- A growth by `cost`: granted and charged if that is free; else refused, and an error for a first
-- allocation. A refusal changes nothing.
unfoldable pub Outcome : Counters → ℕ → ℕ → ℕ → Counters × Growth → Type 0
Outcome c id current cost (c', g) =
    (cost ≤ c.remaining) × (c' ≡ charged c id cost) × (g ≡ allowed true)
    ⊎ (c.remaining < cost) × (c' ≡ c) × (0 < current) × (g ≡ allowed false)
    ⊎ (c.remaining < cost) × (c' ≡ c) × (current ≡ 0) × (g ≡ out_of_memory)

growth-Outcome :
    (c : Counters) (id current cost : ℕ)
    → Outcome c id current cost (growth current (consume c id cost))
unfolding Outcome growth
growth-Outcome c id current cost = rw consume_lem (ground arith)

refused-Outcome :
    (c : Counters) (id current cost : ℕ)
    → c.remaining < cost
    → Outcome c id current cost (growth current (c, false))
unfolding Outcome growth
refused-Outcome c id current cost h = ground arith

-- A growth of the memory by at most u32::MAX bytes is granted and charged, byte by byte, if that is free;
-- else it is refused, and an error for a first allocation. One by more bytes is refused, also as a first
-- allocation. No refusal changes anything. Given that the memory does not shrink and its size is a usize.
pub memory_growing_lem :
    (c : Counters) (id current desired : ℕ)
    → current ≤ desired
    → desired < 2 ^ 64
    → (desired - current ≤ u32_max)
        × Outcome c id current (desired - current) (memory_growing c id current desired)
      ⊎ (u32_max < desired - current) × (memory_growing c id current desired ≡ (c, allowed false))
unfolding memory_growing
memory_growing_lem c id current desired h l =
    let delta : (desired + 2 ^ 64 - current) % 2 ^ 64 ≡ desired - current = omega arith in
    elim (Bool-cases (ltb u32_max (desired - current))) [
      | inl big ↦ inr (ltb→lt u32_max (desired - current) big, rw (delta, big) refl)
      | inr fits ↦ inl (
        ltb→le u32_max (desired - current) fits,
        rw (delta, fits) (growth-Outcome c id current (desired - current)),
      )
    ]

-- A table growth to at most u32::MAX entries costs 64 bytes an entry: it is granted and charged if that is
-- free, else refused, and an error for a first allocation; a cost beyond u32 is refused like one that is
-- not free. Given that the table does not shrink and the books are balanced.
pub table_growing_lem :
    (c : Counters) (id current desired : ℕ)
    → IsBalanced c
    → current ≤ desired
    → desired ≤ u32_max
    → Outcome c id current ((desired - current) * 64) (table_growing c id current desired)
unfolding table_growing consume_mul
table_growing_lem c id current desired b h l =
    let delta : (desired + 2 ^ 64 - current) % 2 ^ 64 ≡ desired - current = omega arith in
    rw (delta, le→ltb u32_max (desired - current) (omega arith))
      (elim (Bool-cases (ltb u32_max ((desired - current) * 64))) [
        | inl big ↦ rw big (
            refused-Outcome c id current _
              (omega (arith, b.total, ltb→lt u32_max ((desired - current) * 64) big)))
        | inr fits ↦ rw fits (growth-Outcome c id current ((desired - current) * 64))
      ])
