-- ===== src/TreeMap/Removes.antt =====
-- executor/crates/sdk-rs/src/storage/tree_map.rs: `remove` erases the entry and keeps the tree a balanced search
-- tree in its slots.
use genvm_executor.Base.{
  ℕ, suc, ◌+◌, ◌-◌, ◌≡◌, ◌≤◌, ◌<◌, refl, ap, ◌∙◌, inl, inr, false, some, List, [], ◌∷◌, arith,
  length, ◌==◌, ==→eq, Bool-cases,
}
use genvm_executor.TreeMap.Slots.{TreeMap, free_slot, pop_slot}
use genvm_executor.TreeMap.Removal.{is_left_child, patch_child, remove_small}
use genvm_executor.TreeMap.Returns.{Returns, returns, chain, weaken}
use genvm_executor.TreeMap.Tree.{
  Tree, leaf, node, Around, in_left, in_right, same, same_self, root_of, occ, height, IsBalanced,
  AreBalanced, occ_above, path_of, plug,
}
use genvm_executor.TreeMap.Held.{Held, AreHeld, value_balance, frame, node-ok}
use genvm_executor.TreeMap.Links.{turned_left}
use genvm_executor.TreeMap.Lifts.{ArePlaced, fewer}
use genvm_executor.TreeMap.Rebalance.{Restored, carried, balance_set, balance_set_lem}
use genvm_executor.TreeMap.Shrinks.{IsTold, rebalance_remove_lem}
use genvm_executor.TreeMap.Moves.{link_above_lem}
use genvm_executor.TreeMap.Map.{times, in_pool, in_pool-suc}

-- The slot `p` is free, or no longer in the pool.
pub record Freed {K V : Type 0} (s : TreeMap K V) (p : ℕ) (s' : TreeMap K V) : Type 0 where
  pub slots : s'.slots ≡ s.slots
  pub room :
      (i : ℕ)
      → in_pool i s.slots_len + times i s'.free_slots
        ≡ in_pool i s'.slots_len + times i s.free_slots + same i p
  pub lengths : s.slots_len + length s'.free_slots ≡ suc (s'.slots_len + length s.free_slots)

module _ {K V : Type 0} where
  pub free_slot_lem :
      (p : ℕ) (s : TreeMap K V) → p < s.slots_len → Returns (λ _ s'. Freed s p s') (free_slot p s)
  unfolding free_slot pop_slot
  free_slot_lem p s inside = elim (Bool-cases (p + 1 == s.slots_len)) [
    | inl e ↦
        let last : s.slots_len ≡ suc p = omega (arith, ==→eq (p + 1) s.slots_len e) in
        let some_left : (s.slots_len == 0) ≡ false = ground arith in
        rw (e, some_left)
          (returns (record {
            slots = refl;
            room = λ i.
                let before : in_pool i s.slots_len ≡ in_pool i p + same i p =
                  ap (in_pool i) last ∙ in_pool-suc i p in
                let after : in_pool i (s.slots_len - 1) ≡ in_pool i p =
                  ap (in_pool i) (omega arith) in
                omega arith;
            lengths = omega arith;
          }))
    | inr e ↦
        rw e (returns (record { slots = refl; room = λ i. omega arith; lengths = omega arith }))
  ]

  -- A node of height one at most has the balance 0.
  abbrev patched : Tree K V → Tree K V
  patched leaf = leaf
  patched (node q a k v d b) = node q a k v 0 b

  IsTold-some :
      (above : List (Around K V)) (sub : Tree K V) → IsTold (some (turned_left above)) above sub
  unfolding is_left_child
  IsTold-some [] sub = tt
  IsTold-some (in_left p k v d r ∷ above) sub = refl
  IsTold-some (in_right p k v d l ∷ above) sub = refl

  -- A child of height one at most, alone, takes the place of its parent.
  pub remove_small_lem :
      (s : TreeMap K V) (fr : List (Around K V)) (hole : ℕ) (child : Tree K V)
      → Held s.slots child
      → AreHeld s.slots fr hole
      → ArePlaced s.slots_len (λ i. occ i child + occ_above i fr)
      → IsBalanced child
      → AreBalanced fr (suc (height child))
      → height child ≤ 1
      → Returns
          (Restored s (plug fr child))
          (remove_small (path_of fr) (turned_left fr) (root_of child) s)
  unfolding remove_small patch_child
  remove_small_lem s fr hole leaf held up placed bal abal low =
      chain (link_above_lem s fr hole 0 up (fewer (λ i. omega arith) placed)) λ _ s2 linked.
        weaken
          (rebalance_remove_lem (some (turned_left fr)) fr s2 leaf 0 tt linked.held
            (rw linked.slots_len placed) tt abal refl (IsTold-some fr leaf))
          (λ first s3.
            carried s s2 s3 fr leaf leaf first refl (λ i. refl) refl linked.slots_len
              linked.free_slots linked.values)
  remove_small_lem s fr hole (node q a k v d b) held up placed bal abal low =
      chain (link_above_lem s fr hole (suc q) up (fewer (λ i. omega arith) placed)) λ _ s2 linked.
        let held2 =
          frame s.slots s2.slots (node q a k v d b)
            (λ i h. linked.others i (omega (arith, placed.apart i))) held in
        let placed2 : ArePlaced s2.slots_len (λ i. occ i (node q a k v d b) + occ_above i fr) =
          rw linked.slots_len placed in
        let s3 = balance_set s2 q 0 in
        let hung = balance_set_lem s2 fr q a k v d b 0 held2 linked.held placed2 in
        rw (node-ok q s2 (placed2.inside q (omega (arith, same_self q)))) (
          weaken
            (rebalance_remove_lem (some (turned_left fr)) fr s3 (node q a k v 0 b)
              (height (node q a k v 0 b)) hung.0 hung.1 placed2
              (bal.0, bal.1, inr (inl (refl, omega arith))) abal refl
              (IsTold-some fr (node q a k v 0 b)))
            (λ first s4.
              carried s s3 s4 fr (node q a k v d b) (node q a k v 0 b) first refl (λ i. refl) refl
                linked.slots_len linked.free_slots
                (λ i. value_balance s2.slots q 0 i ∙ linked.values i)))
