-- ===== src/TreeMap/Lifts.antt =====
-- executor/crates/sdk-rs/src/storage/tree_map.rs: a rotation where one side is two levels higher gives a
-- balanced tree with the same entries.
use genvm_executor.Base.{
  ℕ, suc, ◌≡◌, ◌≤◌, ◌<◌, refl, sym, inl, inr, append_assoc, arith, ◌==◌, if◌then◌else◌, max,
}
use genvm_executor.TreeMap.Slots.{TreeMap, minus_one, is_positive}
use genvm_executor.TreeMap.Tree.{
  Tree, leaf, node, same_self, root_of, occ, node_count, height, entries, IsBalanced, IsSlope,
}
use genvm_executor.TreeMap.Returns.{Returns, returns, chain}
use genvm_executor.TreeMap.Held.{Held, node-ok}
use genvm_executor.TreeMap.Turns.{Turned, rot_left_lem, rot_right_lem}
use genvm_executor.TreeMap.DoubleTurns.{rot_right_left_lem, rot_left_right_lem}
use genvm_executor.TreeMap.Insertion.{lift_left, lift_right}

-- The slots of a tree are apart and in the pool.
pub record ArePlaced (n : ℕ) (there : ℕ → ℕ) : Type 0 where
  pub apart : (i : ℕ) → there i ≤ 1
  pub inside : (i : ℕ) → 1 ≤ there i → i < n

pub fewer : {n : ℕ} {f g : ℕ → ℕ} → ((i : ℕ) → g i ≤ f i) → ArePlaced n f → ArePlaced n g
fewer le placed = record {
  apart = λ i. omega (arith, le i, placed.apart i);
  inside = λ i o. placed.inside i (omega (arith, le i));
}

-- A tree over a lower side of height `h`, lifted by a rotation; the higher side's balance was `d`.
pub record Lifted {K V : Type 0} (s : TreeMap K V) (old : Tree K V) (h d : ℕ) (top : ℕ)
    (s' : TreeMap K V) : Type 0 where
  pub tree : Tree K V
  pub is_top : top ≡ root_of tree
  pub turned : Turned s old s' tree
  pub balanced : IsBalanced tree
  pub level : d ≡ 0 → height tree ≡ suc (suc (suc h))
  pub lower : 1 ≤ d → height tree ≡ suc (suc h)
  pub same_entries : entries tree ≡ entries old
  pub same_occ : (i : ℕ) → occ i tree ≡ occ i old
  pub same_size : node_count tree ≡ node_count old

-- The balances that a double rotation writes.
inner_slopes :
    (d h1 h2 h : ℕ)
    → IsSlope d h1 h2
    → max h1 h2 ≡ h
    → IsSlope (if d == 0 then 0 else (if is_positive d then minus_one else 0)) h h1
      × IsSlope (if d == 0 then 0 else (if is_positive d then 0 else 1)) h2 h
inner_slopes d h1 h2 h (inl (e, c)) m =
    rw e (inr (inl (refl, omega arith)), inr (inr (refl, omega arith)))
inner_slopes d h1 h2 h (inr (inl (e, c))) m =
    rw e (inr (inl (refl, omega arith)), inr (inl (refl, omega arith)))
inner_slopes d h1 h2 h (inr (inr (e, c))) m =
    rw e (inl (refl, omega arith), inr (inl (refl, omega arith)))

module _ {K V : Type 0} (s : TreeMap K V) where
  pub lift_left_lem :
      (p q : ℕ) (a b c : Tree K V) (k k' : K) (v v' : V) (d d' : ℕ)
      → Held s.slots (node p (node q a k' v' d' b) k v d c)
      → ArePlaced s.slots_len (λ i. occ i (node p (node q a k' v' d' b) k v d c))
      → IsBalanced (node q a k' v' d' b)
      → IsBalanced c
      → height (node q a k' v' d' b) ≡ suc (suc (height c))
      → Returns
          (Lifted s (node p (node q a k' v' d' b) k v d c) (height c) d')
          (lift_left (suc p) (suc q) s)
  unfolding lift_left
  lift_left_lem p q a b c k k' v v' d d' held placed (ba, bb, inl (e, high)) bc tall =
      let inside_p = placed.inside p (omega (arith, same_self p)) in
      let inside_q = placed.inside q (omega (arith, same_self q)) in
      let held' = rw e at held in
      rw (node-ok q s inside_q, held.1.0, e)
        (chain (rot_right_lem s p q a b c k k' v v' d 255 held' placed.apart inside_p inside_q)
          (λ _ s' turned. returns (record {
            tree = node q a k' v' 0 (node p b k v 0 c);
            is_top = refl;
            turned = turned;
            balanced = (ba, (bb, bc, inr (inl (refl, omega arith))), inr (inl (refl, omega arith)));
            level = λ z. absurd (omega arith);
            lower = λ z. omega arith;
            same_entries = sym (simp append_assoc);
            same_occ = λ i. omega arith;
            same_size = omega arith;
          })))
  lift_left_lem p q a b c k k' v v' d d' held placed (ba, bb, inr (inl (e, high))) bc tall =
      let inside_p = placed.inside p (omega (arith, same_self p)) in
      let inside_q = placed.inside q (omega (arith, same_self q)) in
      let held' = rw e at held in
      rw (node-ok q s inside_q, held.1.0, e)
        (chain (rot_right_lem s p q a b c k k' v v' d 0 held' placed.apart inside_p inside_q)
          (λ _ s' turned. returns (record {
            tree = node q a k' v' 1 (node p b k v minus_one c);
            is_top = refl;
            turned = turned;
            balanced = (ba, (bb, bc, inl (refl, omega arith)), inr (inr (refl, omega arith)));
            level = λ z. omega arith;
            lower = λ z. absurd (omega arith);
            same_entries = sym (simp append_assoc);
            same_occ = λ i. omega arith;
            same_size = omega arith;
          })))
  lift_left_lem p q a leaf c k k' v v' d d' held placed (ba, bb, inr (inr (e, high))) bc tall =
      absurd (omega arith)
  lift_left_lem p q a (node r b k'' v'' d'' c) e0 k k' v v' d d' held placed
        (ba, bn, inr (inr (e, high))) be tall =
      let inside_p = placed.inside p (omega (arith, same_self p)) in
      let inside_q = placed.inside q (omega (arith, same_self q)) in
      let inside_r = placed.inside r (omega (arith, same_self r)) in
      let (first, second) = inner_slopes d'' (height b) (height c) (height a) bn.2 (omega arith) in
      let held' = rw e at held in
      rw (node-ok q s inside_q, held.1.0, e)
        (chain
          (rot_left_right_lem s p q r a b c e0 k k' k'' v v' v'' d 1 d'' held' placed.apart inside_p
            inside_q inside_r)
          (λ _ s' turned. returns (record {
            tree =
                node r
                  (node q a k' v'
                    (if d'' == 0 then 0 else (if is_positive d'' then minus_one else 0)) b)
                  k'' v'' 0
                  (node p c k v (if d'' == 0 then 0 else (if is_positive d'' then 0 else 1)) e0);
            is_top = refl;
            turned = turned;
            balanced = (
              (ba, bn.0, first),
              (
                bn.1,
                be,
                (let same_height : height a ≡ height e0 = omega arith in
                    rw (sym same_height) second),
              ),
              inr (inl (refl, omega arith)),
            );
            level = λ z. absurd (omega arith);
            lower = λ z. omega arith;
            same_entries = sym (simp append_assoc);
            same_occ = λ i. omega arith;
            same_size = omega arith;
          })))

  pub lift_right_lem :
      (p q : ℕ) (a b c : Tree K V) (k k' : K) (v v' : V) (d d' : ℕ)
      → Held s.slots (node p a k v d (node q b k' v' d' c))
      → ArePlaced s.slots_len (λ i. occ i (node p a k v d (node q b k' v' d' c)))
      → IsBalanced (node q b k' v' d' c)
      → IsBalanced a
      → height (node q b k' v' d' c) ≡ suc (suc (height a))
      → Returns
          (Lifted s (node p a k v d (node q b k' v' d' c)) (height a) d')
          (lift_right (suc p) (suc q) s)
  unfolding lift_right
  lift_right_lem p q a b c k k' v v' d d' held placed (bb, bc, inr (inr (e, high))) ba tall =
      let inside_p = placed.inside p (omega (arith, same_self p)) in
      let inside_q = placed.inside q (omega (arith, same_self q)) in
      let held' = rw e at held in
      rw (node-ok q s inside_q, held.2.0, e)
        (chain (rot_left_lem s p q a b c k k' v v' d 1 held' placed.apart inside_p inside_q)
          (λ _ s' turned. returns (record {
            tree = node q (node p a k v 0 b) k' v' 0 c;
            is_top = refl;
            turned = turned;
            balanced = ((ba, bb, inr (inl (refl, omega arith))), bc, inr (inl (refl, omega arith)));
            level = λ z. absurd (omega arith);
            lower = λ z. omega arith;
            same_entries = simp append_assoc;
            same_occ = λ i. omega arith;
            same_size = omega arith;
          })))
  lift_right_lem p q a b c k k' v v' d d' held placed (bb, bc, inr (inl (e, high))) ba tall =
      let inside_p = placed.inside p (omega (arith, same_self p)) in
      let inside_q = placed.inside q (omega (arith, same_self q)) in
      let held' = rw e at held in
      rw (node-ok q s inside_q, held.2.0, e)
        (chain (rot_left_lem s p q a b c k k' v v' d 0 held' placed.apart inside_p inside_q)
          (λ _ s' turned. returns (record {
            tree = node q (node p a k v 1 b) k' v' minus_one c;
            is_top = refl;
            turned = turned;
            balanced = ((ba, bb, inr (inr (refl, omega arith))), bc, inl (refl, omega arith));
            level = λ z. omega arith;
            lower = λ z. absurd (omega arith);
            same_entries = simp append_assoc;
            same_occ = λ i. omega arith;
            same_size = omega arith;
          })))
  lift_right_lem p q a leaf c k k' v v' d d' held placed (bb, bc, inl (e, high)) ba tall =
      absurd (omega arith)
  lift_right_lem p q a (node r b k'' v'' d'' c) e0 k k' v v' d d' held placed
        (bn, be, inl (e, high)) ba tall =
      let inside_p = placed.inside p (omega (arith, same_self p)) in
      let inside_q = placed.inside q (omega (arith, same_self q)) in
      let inside_r = placed.inside r (omega (arith, same_self r)) in
      let (first, second) = inner_slopes d'' (height b) (height c) (height a) bn.2 (omega arith) in
      let held' = rw e at held in
      rw (node-ok q s inside_q, held.2.0, e)
        (chain
          (rot_right_left_lem s p q r a b c e0 k k' k'' v v' v'' d 255 d'' held' placed.apart
            inside_p inside_q inside_r)
          (λ _ s' turned. returns (record {
            tree =
                node r
                  (node p a k v (if d'' == 0 then 0 else (if is_positive d'' then minus_one else 0))
                    b)
                  k'' v'' 0
                  (node q c k' v' (if d'' == 0 then 0 else (if is_positive d'' then 0 else 1)) e0);
            is_top = refl;
            turned = turned;
            balanced = (
              (ba, bn.0, first),
              (
                bn.1,
                be,
                (let same_height : height a ≡ height e0 = omega arith in
                    rw (sym same_height) second),
              ),
              inr (inl (refl, omega arith)),
            );
            level = λ z. absurd (omega arith);
            lower = λ z. omega arith;
            same_entries = simp append_assoc;
            same_occ = λ i. omega arith;
            same_size = omega arith;
          })))
