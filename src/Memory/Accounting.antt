-- ===== src/Memory/Accounting.antt =====
-- The memory limiter keeps its books: no page is lost, none is given out twice.
use genvm_executor.Base.{
  ℕ, ◌+◌, ◌-◌, ◌%◌, ◌^◌, ◌≤◌, ◌<◌, ◌≡◌, refl, ◌⊎◌, inl, inr, true, false, some, [], ◌∷◌, arith, min,
  length, ltb, if◌then◌else◌, get_or, set, sum, sum-set, sum-append, get_or-le-sum, get_or-set_self,
  Bool-cases, ltb→lt, ltb→le, le→ltb, ◌∙◌,
}
use genvm_executor.Memory.Limiter.{
  u32_max, Counters, new, derived, advance, consume, release_no_consumed, release, drop_limiter,
}

-- What is free and what the limiters hold is the whole of u32, and `least` is a lower bound of what
-- is free.
pub record IsBalanced (c : Counters) : Type 0 where
  pub total : c.remaining + sum c.consumed ≡ u32_max
  pub lowest : c.least ≤ c.remaining

-- The counters after a charge of `delta`.
abbrev pub charged : Counters → ℕ → ℕ → Counters
charged c id delta = record {
  remaining = c.remaining - delta;
  least = min c.least (c.remaining - delta);
  consumed = set c.consumed id ((get_or c.consumed id 0 + delta) % 2 ^ 32);
}

pub consume_lem :
    (c : Counters) (id delta : ℕ)
    → consume c id delta
      ≡ (if ltb c.remaining delta then (c, false) else (charged c id delta, true))
unfolding consume advance
consume_lem c id delta = ground arith

-- No counter wraps: a limiter holds at most the whole.
charge_fits :
    (c : Counters) (id delta : ℕ)
    → IsBalanced c
    → delta ≤ c.remaining
    → (get_or c.consumed id 0 + delta) % 2 ^ 32 ≡ get_or c.consumed id 0 + delta
charge_fits c id delta b d = omega (arith, get_or-le-sum c.consumed id)

charged-IsBalanced :
    (c : Counters) (id delta : ℕ)
    → IsBalanced c
    → id < length c.consumed
    → delta ≤ c.remaining
    → IsBalanced (charged c id delta)
charged-IsBalanced c id delta b h d = record {
  total =
      let fits = charge_fits c id delta b d in
      omega (arith, fits, sum-set c.consumed id ((get_or c.consumed id 0 + delta) % 2 ^ 32) h);
  lowest = omega arith;
}

-- A charge succeeds exactly if that much is free. Then it moves `delta` from what is free to the
-- limiter; otherwise it changes nothing. The books stay balanced on both branches.
pub consume-IsBalanced :
    (c : Counters) (id delta : ℕ)
    → IsBalanced c
    → id < length c.consumed
    → IsBalanced (consume c id delta).0
      × (((consume c id delta).1 ≡ true)
            × (delta ≤ c.remaining)
            × ((consume c id delta).0.remaining + delta ≡ c.remaining)
            × (get_or (consume c id delta).0.consumed id 0 ≡ get_or c.consumed id 0 + delta)
          ⊎ ((consume c id delta).1 ≡ false) × (c.remaining < delta) × ((consume c id delta).0 ≡ c))
consume-IsBalanced c id delta b h = elim (Bool-cases (ltb c.remaining delta)) [
  | inl short ↦ rw (consume_lem, short) (b, inr (refl, ltb→lt c.remaining delta short, refl))
  | inr enough ↦
      let d : delta ≤ c.remaining = ltb→le c.remaining delta enough in
      rw (consume_lem, enough)
        (
          charged-IsBalanced c id delta b h d,
          inl (
            refl,
            d,
            omega arith,
            get_or-set_self c.consumed id _ 0 h ∙ charge_fits c id delta b d,
          ),
        )
]

-- A new limiter holds nothing, and a derived one leaves the books as they are.
pub new-IsBalanced : IsBalanced new
new-IsBalanced = omega arith

derived-IsBalanced : (c : Counters) → IsBalanced c → IsBalanced (derived c)
unfolding derived
derived-IsBalanced c b = record {
  total = omega (arith, b.total, sum-append c.consumed (0 ∷ []));
  lowest = b.lowest;
}

-- A limiter gives back part of what it holds: the assertion holds, and the books stay balanced.
pub release-IsBalanced :
    (c : Counters) (id delta : ℕ)
    → IsBalanced c
    → id < length c.consumed
    → delta ≤ get_or c.consumed id 0
    → (c' : Counters) × (release c id delta ≡ some c')
      × IsBalanced c'
      × (c'.remaining ≡ c.remaining + delta)
      × (get_or c'.consumed id 0 + delta ≡ get_or c.consumed id 0)
unfolding release
release-IsBalanced c id delta b h d =
    let held = get_or c.consumed id 0 in
    let left = (held + 2 ^ 32 - delta) % 2 ^ 32 in
    let most = get_or-le-sum c.consumed id in
    let fits : left ≡ held - delta = omega (arith, b.total) in
    let room : c.remaining + delta ≤ u32_max = omega (arith, b.total) in
    (
      record c { remaining = c.remaining + delta; consumed = set c.consumed id left },
      rw (le→ltb u32_max (c.remaining + delta) room),
      record {
        total = omega (arith, b.total, sum-set c.consumed id left h);
        lowest = omega (arith, b.lowest);
      },
      refl,
      omega (arith, get_or-set_self c.consumed id left 0 h),
    )

-- A limiter that goes away gives back all that it holds.
pub drop_limiter-IsBalanced :
    (c : Counters) (id : ℕ)
    → IsBalanced c
    → id < length c.consumed
    → (c' : Counters) × (drop_limiter c id ≡ some c')
      × IsBalanced c'
      × (c'.remaining ≡ c.remaining + get_or c.consumed id 0)
      × (get_or c'.consumed id 0 ≡ 0)
unfolding drop_limiter release_no_consumed
drop_limiter-IsBalanced c id b h =
    let held = get_or c.consumed id 0 in
    let most = get_or-le-sum c.consumed id in
    let room : c.remaining + held ≤ u32_max = omega (arith, b.total) in
    (
      record c { remaining = c.remaining + held; consumed = set c.consumed id 0 },
      rw (le→ltb u32_max (c.remaining + held) room, drop_limiter),
      record {
        total = omega (arith, b.total, sum-set c.consumed id 0 h);
        lowest = omega (arith, b.lowest);
      },
      refl,
      get_or-set_self c.consumed id 0 0 h,
    )
