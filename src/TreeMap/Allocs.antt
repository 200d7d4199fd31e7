-- ===== src/TreeMap/Allocs.antt =====
-- executor/crates/sdk-rs/src/storage/tree_map.rs: what `alloc_slot` takes, and the root at the end of a loop.
use genvm_executor.Base.{
  ℕ, suc, ◌+◌, ◌^◌, ◌%◌, ◌≡◌, ◌≤◌, ◌<◌, refl, inl, inr, List, [], ◌∷◌, arith, length, ◌==◌, ==→eq,
  Bool-cases, lt→ltb,
}
use genvm_executor.TreeMap.Slots.{TreeMap, index, append_slot, alloc_from}
use genvm_executor.TreeMap.Insertion.{settle_root}
use genvm_executor.TreeMap.Returns.{Returns, returns}
use genvm_executor.TreeMap.Tree.{same, same_self}
use genvm_executor.TreeMap.Map.{times, in_pool, in_pool-suc}

pub record Taken {K V : Type 0} (s : TreeMap K V) (p : ℕ) (s' : TreeMap K V) : Type 0 where
  pub slots : s'.slots ≡ s.slots
  pub root_idx : s'.root_idx ≡ s.root_idx
  pub room :
      (i : ℕ)
      → in_pool i s'.slots_len + times i s.free_slots
        ≡ same i p + in_pool i s.slots_len + times i s'.free_slots
  pub lengths : s'.slots_len + length s.free_slots ≡ suc (s.slots_len + length s'.free_slots)

pub record Settled {K V : Type 0} (s : TreeMap K V) (first : ℕ) (s' : TreeMap K V) : Type 0 where
  pub is_root : s'.root_idx ≡ first
  pub slots : s'.slots ≡ s.slots
  pub slots_len : s'.slots_len ≡ s.slots_len
  pub free_slots : s'.free_slots ≡ s.free_slots

module _ {K V : Type 0} where
  pub settle_root_lem :
      (first : ℕ) (s : TreeMap K V) → Returns (λ _ s'. Settled s first s') (settle_root first s)
  unfolding settle_root
  settle_root_lem first s = elim (Bool-cases (s.root_idx == first)) [
    | inl e ↦ rw e (
        returns (record {
          is_root = ==→eq s.root_idx first e;
          slots = refl;
          slots_len = refl;
          free_slots = refl;
        }))
    | inr e ↦
        rw e
          (returns (record { is_root = refl; slots = refl; slots_len = refl; free_slots = refl }))
  ]

  pub alloc_from_lem :
      (free : List ℕ) (s : TreeMap K V)
      → s.free_slots ≡ free
      → ((i : ℕ) → 1 ≤ times i free → i < s.slots_len)
      → s.slots_len + 1 < 2 ^ 32
      → Returns (Taken s) (alloc_from free s)
  unfolding alloc_from append_slot index
  alloc_from_lem [] s e inside room =
      let whole : (s.slots_len + 1) % 2 ^ 32 ≡ suc s.slots_len = omega arith in
      returns (record {
        slots = refl;
        root_idx = refl;
        room = λ i. rw (whole, in_pool-suc i s.slots_len, e) (omega arith);
        lengths = rw (whole, e) (omega arith);
      })
  alloc_from_lem (p ∷ free) s e inside room =
      rw (lt→ltb p s.slots_len (inside p (omega (arith, same_self p)))) (
        returns (record {
          slots = refl;
          root_idx = refl;
          room = λ i. rw e (omega arith);
          lengths = rw e (omega arith);
        }))
