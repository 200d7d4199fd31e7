-- ===== src/TreeMap/Grows.antt =====
-- executor/crates/sdk-rs/src/storage/tree_map.rs: the loop of `insert` restores the balance of a tree in which
-- a subtree has become one level higher.
use genvm_executor.Base.{
  ℕ, zero, suc, ◌+◌, ◌≡◌, ◌≤◌, refl, inl, inr, false, List, [], ◌∷◌, arith, ◌==◌, ==_refl,
}
use genvm_executor.TreeMap.Slots.{TreeMap}
use genvm_executor.TreeMap.Tree.{
  Tree, node, Around, in_left, in_right, same_self, root_of, occ, height, IsBalanced, AreBalanced,
  occ_above, path_of, plug,
}
use genvm_executor.TreeMap.Returns.{Returns, returns, chain, weaken}
use genvm_executor.TreeMap.Held.{Held, AreHeld, node-ok, value_balance}
use genvm_executor.TreeMap.Lifts.{ArePlaced, fewer, lift_left_lem, lift_right_lem}
use genvm_executor.TreeMap.Insertion.{rebalance_insert}
use genvm_executor.TreeMap.Rebalance.{
  Restored, restored, relink_lem, carried, balance_set, balance_set_lem, at_height, ne-root,
}

positive : (d : ℕ) {h : ℕ} → (d ≡ 0 → h ≡ 0) → 1 ≤ h → 1 ≤ d
positive zero lean h = absurd (omega (arith, lean refl))
positive (suc d) lean h = omega arith

module _ {K V : Type 0} where
  -- A subtree of height `h` has become one of height `h + 1`.
  pub rebalance_insert_lem :
      (above : List (Around K V)) (s : TreeMap K V) (q : ℕ) (a : Tree K V) (k' : K) (v' : V)
      (d' : ℕ) (b : Tree K V) (h : ℕ)
      → Held s.slots (node q a k' v' d' b)
      → AreHeld s.slots above (suc q)
      → ArePlaced s.slots_len (λ i. occ i (node q a k' v' d' b) + occ_above i above)
      → IsBalanced (node q a k' v' d' b)
      → AreBalanced above h
      → height (node q a k' v' d' b) ≡ suc h
      → (d' ≡ 0 → h ≡ 0)
      → Returns
          (Restored s (plug above (node q a k' v' d' b)))
          (rebalance_insert (suc q) (path_of above) s)
  unfolding rebalance_insert
  rebalance_insert_lem [] s q a k' v' d' b h held up placed bal abal grown lean = returns (
      restored s s [] _ (node q a k' v' d' b) held up bal tt refl (λ i. refl) refl refl refl
        (λ i. refl))
  rebalance_insert_lem (in_left p k v d r ∷ above) s q a k' v' d' b h held (c, hr, up) placed bal
        (br, inl (e, high), abal) grown lean =
      let c' = rw e at c in
      rw (node-ok p s (placed.inside p (omega (arith, same_self p))), c, ==_refl (suc q), e)
        (chain
          (lift_left_lem s p q a b r k k' v v' 255 d' (c', held, hr)
            (fewer (λ i. omega arith) placed) bal br (omega arith))
          λ top s' lifted.
            relink_lem s s' above p (node p (node q a k' v' d' b) k v 255 r) up
              (fewer (λ i. omega arith) placed) (omega (arith, same_self p)) lifted
              (at_height above (omega (arith, lifted.lower (positive d' lean (omega arith)))) abal))
  rebalance_insert_lem (in_left p k v d r ∷ above) s q a k' v' d' b h held (c, hr, up) placed bal
        (br, inr (inl (e, high)), abal) grown lean =
      let c' = rw e at c in
      let s0 = balance_set s p 255 in
      let hung =
        balance_set_lem s above p (node q a k' v' d' b) k v 0 r 255 (c', held, hr) up
          (fewer (λ i. omega arith) placed) in
      rw (node-ok p s (placed.inside p (omega (arith, same_self p))), c, ==_refl (suc q), e)
        (weaken
          (rebalance_insert_lem above s0 p (node q a k' v' d' b) k v 255 r (suc h) hung.0 hung.1
            (fewer (λ i. omega arith) placed) (bal, br, (inl (refl, omega arith)))
            (at_height above (omega arith) abal) (omega arith) (λ z. absurd (omega arith)))
          (λ first s'.
            carried s s0 s' above _ (node p (node q a k' v' d' b) k v 255 r) first refl (λ i. refl)
              refl refl refl (λ i. value_balance s.slots p _ i)))
  rebalance_insert_lem (in_left p k v d r ∷ above) s q a k' v' d' b h held (c, hr, up) placed bal
        (br, inr (inr (e, high)), abal) grown lean =
      let c' = rw e at c in
      let s0 = balance_set s p 0 in
      let hung =
        balance_set_lem s above p (node q a k' v' d' b) k v 1 r 0 (c', held, hr) up
          (fewer (λ i. omega arith) placed) in
      rw (node-ok p s (placed.inside p (omega (arith, same_self p))), c, ==_refl (suc q), e)
        (returns (
          restored s s0 above _ (node p (node q a k' v' d' b) k v 0 r) hung.0 hung.1
            (bal, br, (inr (inl (refl, omega arith)))) (at_height above (omega arith) abal) refl
            (λ i. refl) refl refl refl (λ i. value_balance s.slots p _ i)))
  rebalance_insert_lem (in_right p k v d r ∷ above) s q a k' v' d' b h held (c, hr, up) placed bal
        (br, inl (e, high), abal) grown lean =
      let other : (suc q == root_of r) ≡ false =
        ne-root q r (omega (arith, placed.apart q, same_self q)) in
      let c' = rw e at c in
      let s0 = balance_set s p 0 in
      let hung =
        balance_set_lem s above p r k v 255 (node q a k' v' d' b) 0 (c', hr, held) up
          (fewer (λ i. omega arith) placed) in
      rw (node-ok p s (placed.inside p (omega (arith, same_self p))), c, other, e)
        (returns (
          restored s s0 above _ (node p r k v 0 (node q a k' v' d' b)) hung.0 hung.1
            (br, bal, (inr (inl (refl, omega arith)))) (at_height above (omega arith) abal) refl
            (λ i. refl) refl refl refl (λ i. value_balance s.slots p _ i)))
  rebalance_insert_lem (in_right p k v d r ∷ above) s q a k' v' d' b h held (c, hr, up) placed bal
        (br, inr (inl (e, high)), abal) grown lean =
      let other : (suc q == root_of r) ≡ false =
        ne-root q r (omega (arith, placed.apart q, same_self q)) in
      let c' = rw e at c in
      let s0 = balance_set s p 1 in
      let hung =
        balance_set_lem s above p r k v 0 (node q a k' v' d' b) 1 (c', hr, held) up
          (fewer (λ i. omega arith) placed) in
      rw (node-ok p s (placed.inside p (omega (arith, same_self p))), c, other, e)
        (weaken
          (rebalance_insert_lem above s0 p r k v 1 (node q a k' v' d' b) (suc h) hung.0 hung.1
            (fewer (λ i. omega arith) placed) (br, bal, (inr (inr (refl, omega arith))))
            (at_height above (omega arith) abal) (omega arith) (λ z. absurd (omega arith)))
          (λ first s'.
            carried s s0 s' above _ (node p r k v 1 (node q a k' v' d' b)) first refl (λ i. refl)
              refl refl refl (λ i. value_balance s.slots p _ i)))
  rebalance_insert_lem (in_right p k v d r ∷ above) s q a k' v' d' b h held (c, hr, up) placed bal
        (br, inr (inr (e, high)), abal) grown lean =
      let other : (suc q == root_of r) ≡ false =
        ne-root q r (omega (arith, placed.apart q, same_self q)) in
      let c' = rw e at c in
      rw (node-ok p s (placed.inside p (omega (arith, same_self p))), c, other, e)
        (chain
          (lift_right_lem s p q r a b k k' v v' 1 d' (c', hr, held)
            (fewer (λ i. omega arith) placed) bal br (omega arith))
          λ top s' lifted.
            relink_lem s s' above p (node p r k v 1 (node q a k' v' d' b)) up
              (fewer (λ i. omega arith) placed) (omega (arith, same_self p)) lifted
              (at_height above (omega (arith, lifted.lower (positive d' lean (omega arith)))) abal))
