-- ===== src/Vfs/New.antt =====
-- `VFS::new` of executor/src/wasi/vfs.rs starts from a valid table.
use genvm_executor.Base.{
  ℕ, ◌%◌, ◌^◌, ◌<◌, ◌≡◌, refl, inl, inr, Option, none, some, List, arith, length, get_or,
}
use genvm_executor.Memory.Limiter.{Counters}
use genvm_executor.Memory.Accounting.{IsBalanced, consume-IsBalanced}
use genvm_executor.Vfs.Descriptors.{Vfs, size, standard_fds, new_vfs}
use genvm_executor.Vfs.Validity.{IsValid, length-consume}

abbrev pub NewVfs : List ℕ → Counters → ℕ → Counters × Option Vfs → Type 0
NewVfs input counters limiter (c, none) = c ≡ counters
NewVfs input counters limiter (c, some vfs) =
    IsValid vfs (get_or counters.consumed limiter 0)
    × (vfs.fds ≡ standard_fds input)
    × (vfs.counters ≡ c)

-- VFS::new charges the standard input and opens the four standard descriptors in a valid table, or runs out of memory and changes nothing.
pub new_vfs-IsValid :
    (input : List ℕ) (counters : Counters) (limiter : ℕ)
    → IsBalanced counters
    → limiter < length counters.consumed
    → NewVfs input counters limiter (new_vfs input counters limiter)
unfolding new_vfs size
new_vfs-IsValid input counters limiter balanced registered =
    let n = length input % 2 ^ 32 in
    let (balanced', outcome) = consume-IsBalanced counters limiter n balanced registered in
    elim outcome [
      | inl (success, enough, less, more) ↦ rw success (
        record {
          balanced = balanced';
          registered = omega (arith, length-consume counters limiter n);
          standard = omega arith;
          once = λ q. ground arith;
          given_out = λ q h. ground arith;
          paid = omega (arith, more);
        },
        refl,
        refl,
      )
      | inr (failure, short, same) ↦ rw failure same
    ]
