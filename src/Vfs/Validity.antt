-- ===== src/Vfs/Validity.antt =====
-- What holds of the descriptor table: a number is open, free, or not given out yet, and the memory
-- of the open files and of the descriptors is charged to the limiter.
use genvm_executor.Base.{
  ℕ, ◌+◌, ◌-◌, ◌*◌, ◌%◌, ◌^◌, ◌≤◌, ◌<◌, ◌≡◌, refl, ap, sym, ◌∙◌, ◌⊎◌, inl, inr, true, false,
  Bool-cases, none, some, List, [], ◌∷◌, arith, ◌==◌, ltb, set, length-set, length, get_or,
  if◌then◌else◌,
}
use genvm_executor.Memory.Limiter.{Counters, u32_max, consume, release}
use genvm_executor.Memory.Accounting.{
  IsBalanced, consume_lem, consume-IsBalanced, release-IsBalanced,
}
use genvm_executor.Vfs.Descriptors.{
  FileDescriptor, file, Fds, Vfs, fd_allocation, find, remove, size,
}

abbrev pub count : ℕ → List ℕ → ℕ
count q [] = 0
count q (x ∷ xs) = (if x == q then 1 else 0) + count q xs

-- How often a number is a key.
abbrev pub opened : ℕ → Fds → ℕ
opened q [] = 0
opened q ((k, v) ∷ fds) = (if k == q then 1 else 0) + opened q fds

-- What the limiter was charged for a descriptor, and for all.
abbrev pub cost : FileDescriptor → ℕ
cost (file value) = if value.release_memory then size value else 0
cost _ = 0

abbrev pub costs : Fds → ℕ
costs [] = 0
costs ((k, v) ∷ fds) = cost v + costs fds

abbrev pub held : Vfs → ℕ
held vfs = get_or vfs.counters.consumed vfs.limiter 0

-- `other` is what else the limiter holds.
pub record IsValid (vfs : Vfs) (other : ℕ) : Type 0 where
  pub balanced : IsBalanced vfs.counters
  pub registered : vfs.limiter < length vfs.counters.consumed
  pub standard : 3 ≤ vfs.next_free_descriptor
  pub once : (q : ℕ) → opened q vfs.fds + count q vfs.free_descriptors ≤ 1
  pub given_out :
      (q : ℕ) → vfs.next_free_descriptor < q → opened q vfs.fds + count q vfs.free_descriptors ≡ 0
  pub paid : costs vfs.fds + fd_allocation * (vfs.next_free_descriptor - 3) + other ≡ held vfs

pub find-opened : (fds : Fds) (q : ℕ) → opened q fds ≡ 0 → find fds q ≡ none
find-opened [] q h = refl
find-opened ((k, v) ∷ fds) q h = elim (Bool-cases (k == q)) [
  | inl same ↦ let h' = rw same at h in absurd (omega arith)
  | inr other ↦ let h' = rw other at h in rw other (find-opened fds q (omega arith))
]

pub remove-opened : (fds : Fds) (q : ℕ) → opened q fds ≡ 0 → remove q fds ≡ fds
remove-opened [] q h = refl
remove-opened ((k, v) ∷ fds) q h = elim (Bool-cases (k == q)) [
  | inl same ↦ let h' = rw same at h in absurd (omega arith)
  | inr other ↦
      let h' = rw other at h in rw other (ap (λ l. (k, v) ∷ l) (remove-opened fds q (omega arith)))
]

pub length-consume :
    (c : Counters) (id delta : ℕ) → length (consume c id delta).0.consumed ≡ length c.consumed
length-consume c id delta = elim (Bool-cases (ltb c.remaining delta)) [
  | inl short ↦ rw (consume_lem c id delta, short) refl
  | inr enough ↦ rw (consume_lem c id delta, enough) (length-set c.consumed id _)
]

length-release :
    (c c' : Counters) (id delta : ℕ)
    → release c id delta ≡ some c'
    → length c'.consumed ≡ length c.consumed
unfolding release
length-release c c' id delta h = elim (Bool-cases (ltb u32_max (c.remaining + delta))) [
  | inl over ↦ let h' = rw over at h in cc
  | inr fits ↦
      let h' = rw fits at h in
      let e : record c {
        remaining = c.remaining + delta;
        consumed = set c.consumed id ((get_or c.consumed id 0 + 2 ^ 32 - delta) % 2 ^ 32);
      }
          ≡ c' =
        cc in
      ap (λ d. length d.consumed) (sym e) ∙ length-set c.consumed id _
]

abbrev pub with_counters : Vfs → Counters → Vfs
with_counters vfs c = record vfs { counters = c }

-- A charge moves into what else the limiter holds, or changes nothing.
pub charge_lem :
    (vfs : Vfs) (other delta : ℕ)
    → IsValid vfs other
    → let (c, success) = consume vfs.counters vfs.limiter delta in
      ((success ≡ true) × IsValid (with_counters vfs c) (other + delta))
      ⊎ ((success ≡ false) × (c ≡ vfs.counters))
charge_lem vfs other delta valid =
    let (balanced, outcome) =
      consume-IsBalanced vfs.counters vfs.limiter delta valid.balanced valid.registered in
    elim outcome [
      | inl (success, enough, less, more) ↦ inl (
        success,
        record {
          balanced = balanced;
          registered =
              omega (arith, length-consume vfs.counters vfs.limiter delta, valid.registered);
          standard = valid.standard;
          once = valid.once;
          given_out = valid.given_out;
          paid = omega (arith, valid.paid, more);
        },
      )
      | inr (failure, short, same) ↦ inr (failure, same)
    ]

-- What the limiter holds beyond the table's share can be given back.
pub refund_lem :
    (vfs : Vfs) (other delta : ℕ)
    → IsValid vfs (other + delta)
    → (c : Counters) × (release vfs.counters vfs.limiter delta ≡ some c)
      × IsValid (with_counters vfs c) other
refund_lem vfs other delta valid =
    let (c, e, balanced, more, less) =
      release-IsBalanced vfs.counters vfs.limiter delta valid.balanced valid.registered
        (omega (arith, valid.paid)) in
    (
      c,
      e,
      record {
        balanced = balanced;
        registered =
            omega (arith, length-release vfs.counters c vfs.limiter delta e, valid.registered);
        standard = valid.standard;
        once = valid.once;
        given_out = valid.given_out;
        paid = omega (arith, valid.paid, less);
      },
    )
