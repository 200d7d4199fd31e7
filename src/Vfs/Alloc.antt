-- ===== src/Vfs/Alloc.antt =====
-- `alloc_fd` of executor/src/wasi/vfs.rs hands out numbers that are not in use.
use genvm_executor.Base.{
  ℕ, ◌+◌, ◌%◌, ◌^◌, ◌≤◌, ◌<◌, ◌≡◌, refl, ap, ◌⊎◌, inl, inr, Bool, true, false, Bool-cases, List, [],
  ◌∷◌, arith, ◌==◌, ==_refl, leb, ltb, ltb→lt, ltb→le, length, get_or-le-sum, if◌then◌else◌,
}
use genvm_executor.Memory.Limiter.{Counters, consume}
use genvm_executor.Vfs.Descriptors.{
  Vfs, fd_allocation, Allocated, allocated, refused, oom_ram, oom_ram_limit, max_fds, alloc_fd,
  pop_free, fresh_fd,
}
use genvm_executor.Vfs.Validity.{opened, count, held, IsValid, charge_lem, with_counters}

-- Neither open nor free, and not beyond the last one.
pub record IsVacant (vfs : Vfs) (fd : ℕ) : Type 0 where
  pub nowhere : opened fd vfs.fds + count fd vfs.free_descriptors ≡ 0
  pub known : fd ≤ vfs.next_free_descriptor

-- The number is the last free one, which is free no more, or the one after the last given out, if none
-- is free; `paid` is what the limiter holds more for a free one.
abbrev pub IsTaken : Vfs → Vfs → ℕ → ℕ → Type 0
IsTaken vfs vfs' fd paid =
    (vfs.free_descriptors ≡ fd ∷ vfs'.free_descriptors)
      × (vfs'.next_free_descriptor ≡ vfs.next_free_descriptor)
      × (held vfs' ≡ held vfs + paid)
    ⊎ (vfs.free_descriptors ≡ [])
      × (vfs'.free_descriptors ≡ [])
      × (fd ≡ vfs.next_free_descriptor + 1)
      × (vfs'.next_free_descriptor ≡ fd)
      × (held vfs' ≡ held vfs + paid + fd_allocation)

abbrev pub AllocFd : Vfs → ℕ → Vfs × Allocated → Type 0
AllocFd vfs other (vfs', allocated fd) =
    IsValid vfs' other
    × IsVacant vfs' fd
    × (vfs'.fds ≡ vfs.fds)
    × IsTaken vfs vfs' fd 0
    × (length vfs.fds < max_fds)
AllocFd vfs other (vfs', refused e) =
    IsValid vfs' other
    × (vfs' ≡ vfs)
    × ((max_fds ≤ length vfs.fds) × (e ≡ oom_ram_limit)
        ⊎ (length vfs.fds < max_fds) × (vfs.free_descriptors ≡ []) × (e ≡ oom_ram))

-- A limiter that holds 96 bytes for every descriptor cannot pay for 2 ^ 32 of them.
few_descriptors :
    (vfs : Vfs) (other : ℕ)
    → IsValid vfs other
    → (vfs.next_free_descriptor + 1) % 2 ^ 32 ≡ vfs.next_free_descriptor + 1
few_descriptors vfs other valid =
    omega (arith, valid.paid, valid.balanced.total, get_or-le-sum vfs.counters.consumed vfs.limiter)

fresh_fd_lem :
    (vfs : Vfs) (other : ℕ) (c : Counters) (success : Bool)
    → IsValid vfs other
    → length vfs.fds < max_fds
    → vfs.free_descriptors ≡ []
    → ((success ≡ true) × IsValid (with_counters vfs c) (other + fd_allocation))
      ⊎ ((success ≡ false) × (c ≡ vfs.counters))
    → AllocFd vfs other (fresh_fd vfs (c, success))
unfolding fresh_fd
fresh_fd_lem vfs other c false valid room none_free (inl (e, v)) = cc
fresh_fd_lem vfs other c false valid room none_free (inr (e, same)) =
    (rw same valid, rw same refl, inr (room, none_free, refl))
fresh_fd_lem vfs other c true valid room none_free (inr (e, same)) = cc
fresh_fd_lem vfs other c true valid room none_free (inl (e, v)) =
    let bump = few_descriptors vfs other valid in
    rw bump (
      record {
        balanced = v.balanced;
        registered = v.registered;
        standard = omega (arith, v.standard);
        once = v.once;
        given_out = λ q h. v.given_out q (omega arith);
        paid = omega (arith, v.paid, v.standard);
      },
      record {
        nowhere = v.given_out (vfs.next_free_descriptor + 1) (omega arith);
        known = omega arith;
      },
      refl,
      inr (none_free, none_free, refl, refl, omega (arith, v.paid, valid.paid)),
      room,
    )

pop_free_lem :
    (vfs : Vfs) (other : ℕ) (free : List ℕ)
    → IsValid vfs other
    → length vfs.fds < max_fds
    → vfs.free_descriptors ≡ free
    → AllocFd vfs other (pop_free vfs free)
unfolding pop_free
pop_free_lem vfs other [] valid room e =
    let (c, success) = consume vfs.counters vfs.limiter fd_allocation in
    fresh_fd_lem vfs other c success valid room e (charge_lem vfs other fd_allocation valid)
pop_free_lem vfs other (fd ∷ rest) valid room e =
    let less : (q : ℕ) → count q vfs.free_descriptors ≡ (if fd == q then 1 else 0) + count q rest =
      λ q. ap (count q) e in
    let taken : 1 + count fd rest ≡ count fd vfs.free_descriptors =
      let at = less fd in let at' = rw (==_refl fd) at at in omega arith in
    (
      record {
        balanced = valid.balanced;
        registered = valid.registered;
        standard = valid.standard;
        once = λ q. omega (arith, valid.once q, less q);
        given_out = λ q h. omega (arith, valid.given_out q h, less q);
        paid = valid.paid;
      },
      record {
        nowhere = omega (arith, valid.once fd, taken);
        known = elim (Bool-cases (ltb vfs.next_free_descriptor fd)) [
          | inl beyond ↦
              let none_there = valid.given_out fd (ltb→lt _ _ beyond) in
              absurd (omega (arith, none_there, taken))
          | inr within ↦ ltb→le _ _ within
        ];
      },
      refl,
      inl (e, refl, omega arith),
      room,
    )

-- alloc_fd keeps a valid table valid and opens nothing. It hands out, only with fewer than 1024 descriptors
-- open, a number that is then neither open nor free: the last free one without a charge or, if none is
-- free, the one after the last given out, for 96 bytes. Or it refuses and changes nothing: with the error
-- for a limit if 1024 are open, else with the one for memory, and only if none is free.
pub alloc_fd-IsValid :
    (vfs : Vfs) (other : ℕ) → IsValid vfs other → AllocFd vfs other (alloc_fd vfs)
unfolding alloc_fd
alloc_fd-IsValid vfs other valid = elim (Bool-cases (leb max_fds (length vfs.fds))) [
  | inl full ↦ rw full (valid, refl, inl (ground arith, refl))
  | inr room ↦ rw room (pop_free_lem vfs other vfs.free_descriptors valid (ground arith) refl)
]
