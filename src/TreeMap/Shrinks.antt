-- ===== src/TreeMap/Shrinks.antt =====
-- executor/crates/sdk-rs/src/storage/tree_map.rs: the loop of `remove` restores the balance of a tree in which
-- a subtree has become one level lower.
use genvm_executor.Base.{
  ℕ, suc, ◌+◌, ◌≡◌, ◌≤◌, refl, inl, inr, Bool, true, false, Option, none, List, [], ◌∷◌, arith,
  ◌==◌, ==_refl, ==→eq, Bool-cases,
}
use genvm_executor.TreeMap.Slots.{TreeMap}
use genvm_executor.TreeMap.Tree.{
  Tree, leaf, node, Around, in_left, in_right, same_self, root_of, occ, height, IsBalanced,
  AreBalanced, occ_above, path_of, plug,
}
use genvm_executor.TreeMap.Returns.{Returns, returns, chain, weaken}
use genvm_executor.TreeMap.Held.{Held, AreHeld, value_balance, node-ok}
use genvm_executor.TreeMap.Lifts.{ArePlaced, fewer, lift_left_lem, lift_right_lem}
use genvm_executor.TreeMap.Rebalance.{
  Restored, restored, replaced, carried, balance_set, balance_set_lem, at_height, ne-root,
}
use genvm_executor.TreeMap.Removal.{is_left_child, rebalance_remove}

ne→positive : (d : ℕ) → (d == 0) ≡ false → 1 ≤ d
ne→positive d h = ground arith

module _ {K V : Type 0} where
  -- The code finds the side from which a step comes.
  abbrev pub IsTold : Option Bool → List (Around K V) → Tree K V → Type 0
  IsTold side [] sub = Unit {0}
  IsTold side (in_left p k v d r ∷ above) sub =
      is_left_child side (root_of sub) (root_of sub) ≡ true
  IsTold side (in_right p k v d l ∷ above) sub =
      is_left_child side (root_of sub) (root_of l) ≡ false

  pub IsTold-none :
      (above : List (Around K V)) (sub : Tree K V)
      → 1 ≤ height sub
      → ((i : ℕ) → occ i sub + occ_above i above ≤ 1)
      → IsTold none above sub
  unfolding is_left_child
  IsTold-none above leaf h apart = absurd (omega arith)
  IsTold-none [] (node q a k' v' d' b) h apart = tt
  IsTold-none (in_left p k v d r ∷ above) (node q a k' v' d' b) h apart = ==_refl (suc q)
  IsTold-none (in_right p k v d l ∷ above) (node q a k' v' d' b) h apart =
      ne-root q l (omega (arith, apart q, same_self q))

  -- A subtree of height `h + 1` has become one of height `h`.
  pub rebalance_remove_lem :
      (side : Option Bool) (above : List (Around K V)) (s : TreeMap K V) (sub : Tree K V) (h : ℕ)
      → Held s.slots sub
      → AreHeld s.slots above (root_of sub)
      → ArePlaced s.slots_len (λ i. occ i sub + occ_above i above)
      → IsBalanced sub
      → AreBalanced above (suc h)
      → height sub ≡ h
      → IsTold side above sub
      → Returns
          (Restored s (plug above sub))
          (rebalance_remove side (root_of sub) (path_of above) s)
  unfolding rebalance_remove
  rebalance_remove_lem side [] s sub h held up placed bal abal same_h told =
      returns (restored s s [] _ sub held up bal tt refl (λ i. refl) refl refl refl (λ i. refl))
  rebalance_remove_lem side (in_left p k v d r ∷ above) s sub h held (c, hr, up) placed bal
        (br, inl (e, high), abal) same_h told =
      let c' = rw e at c in
      let s0 = balance_set s p 0 in
      let hung =
        balance_set_lem s above p sub k v 255 r 0 (c', held, hr) up
          (fewer (λ i. omega arith) placed) in
      rw (node-ok p s (placed.inside p (omega (arith, same_self p))), c, told, e)
        (weaken
          (rebalance_remove_lem none above s0 (node p sub k v 0 r) (suc h) hung.0 hung.1
            (fewer (λ i. omega arith) placed) (bal, br, (inr (inl (refl, omega arith))))
            (at_height above (omega arith) abal) (omega arith)
            (IsTold-none above (node p sub k v 0 r) (omega arith)
              (λ i. omega (arith, placed.apart i))))
          (λ first s'.
            carried s s0 s' above _ (node p sub k v 0 r) first refl (λ i. refl) refl refl refl
              (λ i. value_balance s.slots p _ i)))
  rebalance_remove_lem side (in_left p k v d r ∷ above) s sub h held (c, hr, up) placed bal
        (br, inr (inl (e, high)), abal) same_h told =
      let c' = rw e at c in
      let s0 = balance_set s p 1 in
      let hung =
        balance_set_lem s above p sub k v 0 r 1 (c', held, hr) up
          (fewer (λ i. omega arith) placed) in
      rw (node-ok p s (placed.inside p (omega (arith, same_self p))), c, told, e)
        (returns (
          restored s s0 above _ (node p sub k v 1 r) hung.0 hung.1
            (bal, br, (inr (inr (refl, omega arith)))) (at_height above (omega arith) abal) refl
            (λ i. refl) refl refl refl (λ i. value_balance s.slots p _ i)))
  rebalance_remove_lem side (in_left p k v d leaf ∷ above) s sub h held (c, hr, up) placed bal
        (br, inr (inr (e, high)), abal) same_h told =
      absurd (omega arith)
  rebalance_remove_lem side (in_left p k v d (node q b k' v' d' c0) ∷ above) s sub h held
        (c, hr, up) placed bal (br, inr (inr (e, high)), abal) same_h told =
      let c' = rw e at c in
      let old = (node p sub k v 1 (node q b k' v' d' c0)) in
      let inside_q = placed.inside q (omega (arith, same_self q)) in
      rw
        (
          node-ok p s (placed.inside p (omega (arith, same_self p))),
          c,
          told,
          e,
          c',
          node-ok q s inside_q,
          hr.0,
        )
        (chain
          (lift_right_lem s p q sub b c0 k k' v v' 1 d' (c', held, hr)
            (fewer (λ i. omega arith) placed) br bal (omega arith))
          λ top s' lifted.
            chain
              (replaced s s' above p old up (fewer (λ i. omega arith) placed)
                (omega (arith, same_self p)) lifted)
              λ _ s'' now. rw lifted.is_top (elim (Bool-cases (d' == 0)) [
                | inl z ↦ rw z (
                    returns (
                      restored s s'' above old lifted.tree now.held now.held_above lifted.balanced
                        (at_height above (omega (arith, lifted.level (==→eq d' 0 z))) abal)
                        lifted.same_entries lifted.same_occ lifted.same_size now.slots_len
                        now.free_slots now.values))
                | inr nz ↦
                    let low = lifted.lower (ne→positive d' nz) in
                    let placed'' =
                      fewer {g = λ i. occ i lifted.tree + occ_above i above}
                        (λ i. omega (arith, lifted.same_occ i)) placed in
                    rw nz (
                      weaken
                        (rebalance_remove_lem none above s'' lifted.tree (height lifted.tree)
                          now.held now.held_above (rw now.slots_len placed'') lifted.balanced
                          (at_height above (omega (arith, low)) abal) refl
                          (IsTold-none above lifted.tree (omega (arith, low)) placed''.apart))
                        (λ first s3.
                          carried s s'' s3 above old lifted.tree first lifted.same_entries
                            lifted.same_occ lifted.same_size now.slots_len now.free_slots
                            now.values))
              ]))
  rebalance_remove_lem side (in_right p k v d leaf ∷ above) s sub h held (c, hr, up) placed bal
        (br, inl (e, high), abal) same_h told =
      absurd (omega arith)
  rebalance_remove_lem side (in_right p k v d (node q b k' v' d' c0) ∷ above) s sub h held
        (c, hr, up) placed bal (br, inl (e, high), abal) same_h told =
      let c' = rw e at c in
      let old = (node p (node q b k' v' d' c0) k v 255 sub) in
      let inside_q = placed.inside q (omega (arith, same_self q)) in
      rw
        (
          node-ok p s (placed.inside p (omega (arith, same_self p))),
          c,
          told,
          e,
          node-ok q s inside_q,
          hr.0,
        )
        (chain
          (lift_left_lem s p q b c0 sub k k' v v' 255 d' (c', hr, held)
            (fewer (λ i. omega arith) placed) br bal (omega arith))
          λ top s' lifted.
            chain
              (replaced s s' above p old up (fewer (λ i. omega arith) placed)
                (omega (arith, same_self p)) lifted)
              λ _ s'' now. rw lifted.is_top (elim (Bool-cases (d' == 0)) [
                | inl z ↦ rw z (
                    returns (
                      restored s s'' above old lifted.tree now.held now.held_above lifted.balanced
                        (at_height above (omega (arith, lifted.level (==→eq d' 0 z))) abal)
                        lifted.same_entries lifted.same_occ lifted.same_size now.slots_len
                        now.free_slots now.values))
                | inr nz ↦
                    let low = lifted.lower (ne→positive d' nz) in
                    let placed'' =
                      fewer {g = λ i. occ i lifted.tree + occ_above i above}
                        (λ i. omega (arith, lifted.same_occ i)) placed in
                    rw nz (
                      weaken
                        (rebalance_remove_lem none above s'' lifted.tree (height lifted.tree)
                          now.held now.held_above (rw now.slots_len placed'') lifted.balanced
                          (at_height above (omega (arith, low)) abal) refl
                          (IsTold-none above lifted.tree (omega (arith, low)) placed''.apart))
                        (λ first s3.
                          carried s s'' s3 above old lifted.tree first lifted.same_entries
                            lifted.same_occ lifted.same_size now.slots_len now.free_slots
                            now.values))
              ]))
  rebalance_remove_lem side (in_right p k v d r ∷ above) s sub h held (c, hr, up) placed bal
        (br, inr (inl (e, high)), abal) same_h told =
      let c' = rw e at c in
      let s0 = balance_set s p 255 in
      let hung =
        balance_set_lem s above p r k v 0 sub 255 (c', hr, held) up
          (fewer (λ i. omega arith) placed) in
      rw (node-ok p s (placed.inside p (omega (arith, same_self p))), c, told, e)
        (returns (
          restored s s0 above _ (node p r k v 255 sub) hung.0 hung.1
            (br, bal, (inl (refl, omega arith))) (at_height above (omega arith) abal) refl
            (λ i. refl) refl refl refl (λ i. value_balance s.slots p _ i)))
  rebalance_remove_lem side (in_right p k v d r ∷ above) s sub h held (c, hr, up) placed bal
        (br, inr (inr (e, high)), abal) same_h told =
      let c' = rw e at c in
      let s0 = balance_set s p 0 in
      let hung =
        balance_set_lem s above p r k v 1 sub 0 (c', hr, held) up
          (fewer (λ i. omega arith) placed) in
      rw (node-ok p s (placed.inside p (omega (arith, same_self p))), c, told, e)
        (weaken
          (rebalance_remove_lem none above s0 (node p r k v 0 sub) (suc h) hung.0 hung.1
            (fewer (λ i. omega arith) placed) (br, bal, (inr (inl (refl, omega arith))))
            (at_height above (omega arith) abal) (omega arith)
            (IsTold-none above (node p r k v 0 sub) (omega arith)
              (λ i. omega (arith, placed.apart i))))
          (λ first s'.
            carried s s0 s' above _ (node p r k v 0 sub) first refl (λ i. refl) refl refl refl
              (λ i. value_balance s.slots p _ i)))
