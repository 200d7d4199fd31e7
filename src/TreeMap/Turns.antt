-- ===== src/TreeMap/Turns.antt =====
-- executor/crates/sdk-rs/src/storage/tree_map.rs: what the rotations do to the tree that the slots hold.
use genvm_executor.Base.{ℕ, suc, ◌+◌, ◌≡◌, ◌≤◌, ◌<◌, refl, arith, ◌==◌, if◌then◌else◌}
use genvm_executor.TreeMap.Slots.{TreeMap, minus_one}
use genvm_executor.TreeMap.Tree.{Tree, node, same, same_self, occ}
use genvm_executor.TreeMap.Returns.{Returns, returns}
use genvm_executor.TreeMap.Held.{
  Held, Outside, kept, node-ok, update_self, value_left, value_right, value_balance, away,
}
use genvm_executor.TreeMap.Rotations.{rot_left, rot_right}

-- The tree in the slots of `old` has become another one, and the slots outside it have not changed.
pub record Turned {K V : Type 0} (s : TreeMap K V) (old : Tree K V) (s' : TreeMap K V)
    (new : Tree K V) : Type 0 where
  pub held : Held s'.slots new
  pub others : (i : ℕ) → occ i old ≡ 0 → s'.slots i ≡ s.slots i
  pub values : (i : ℕ) → (s'.slots i).value ≡ (s.slots i).value
  pub slots_len : s'.slots_len ≡ s.slots_len
  pub free_slots : s'.free_slots ≡ s.free_slots

pub changed :
    {K V : Type 0} {s s' : TreeMap K V} {old new : Tree K V} (writes : ℕ → ℕ)
    → Outside s.slots s'.slots writes
    → (Outside s.slots s'.slots writes → Held s'.slots new)
    → ((i : ℕ) → occ i old ≡ 0 → writes i ≡ 0)
    → s'.slots_len ≡ s.slots_len
    → s'.free_slots ≡ s.free_slots
    → ((i : ℕ) → (s'.slots i).value ≡ (s.slots i).value)
    → Turned s old s' new
changed writes out h within l f w = record {
  held = h out;
  others = λ i o. out i (within i o);
  slots_len = l;
  free_slots = f;
  values = w;
}

module _ {K V : Type 0} (s : TreeMap K V) (p q : ℕ) (a b c : Tree K V) (k k' : K) (v v' : V)
    (d d' : ℕ) where
  pub rot_right_lem :
      Held s.slots (node p (node q a k' v' d' b) k v d c)
      → ((i : ℕ) → occ i (node p (node q a k' v' d' b) k v d c) ≤ 1)
      → p < s.slots_len
      → q < s.slots_len
      → Returns
          (λ _ s'. Turned s (node p (node q a k' v' d' b) k v d c) s' (
            node q a k' v'
              (if d' == 0 then 1 else 0)
              (node p b k v (if d' == 0 then minus_one else 0) c)))
          (rot_right (suc p) (suc q) s)
  unfolding rot_right
  rot_right_lem (cp, (cq, ha, hb), hc) apart inside inside' =
      let pq : same p q ≡ 0 = omega (arith, apart p, same_self p) in
      let qp : same q p ≡ 0 = omega (arith, apart q, same_self q) in
      rw (node-ok p s inside, node-ok q s inside')
        (returns (
          changed (λ i. same i p + same i q)
            (λ i o.
              let ip : same i p ≡ 0 = omega arith in
              let iq : same i q ≡ 0 = omega arith in simp (away i p ip, away i q iq))
            (λ out. (
              simp (update_self, away p q pq, away q p qp, cp, cq),
              kept out a (λ i. omega (arith, apart i)) ha,
              (
                simp (update_self, away p q pq, away q p qp, cp, cq),
                kept out b (λ i. omega (arith, apart i)) hb,
                kept out c (λ i. omega (arith, apart i)) hc,
              ),
            ))
            (λ i o. omega arith) refl refl (λ i. simp (value_left, value_right, value_balance))))

  pub rot_left_lem :
      Held s.slots (node p a k v d (node q b k' v' d' c))
      → ((i : ℕ) → occ i (node p a k v d (node q b k' v' d' c)) ≤ 1)
      → p < s.slots_len
      → q < s.slots_len
      → Returns
          (λ _ s'. Turned s (node p a k v d (node q b k' v' d' c)) s' (
            node q
              (node p a k v (if d' == 0 then 1 else 0) b)
              k'
              v'
              (if d' == 0 then minus_one else 0)
              c))
          (rot_left (suc p) (suc q) s)
  unfolding rot_left
  rot_left_lem (cp, ha, (cq, hb, hc)) apart inside inside' =
      let pq : same p q ≡ 0 = omega (arith, apart p, same_self p) in
      let qp : same q p ≡ 0 = omega (arith, apart q, same_self q) in
      rw (node-ok p s inside, node-ok q s inside')
        (returns (
          changed (λ i. same i p + same i q)
            (λ i o.
              let ip : same i p ≡ 0 = omega arith in
              let iq : same i q ≡ 0 = omega arith in simp (away i p ip, away i q iq))
            (λ out. (
              simp (update_self, away p q pq, away q p qp, cp, cq),
              (
                simp (update_self, away p q pq, away q p qp, cp, cq),
                kept out a (λ i. omega (arith, apart i)) ha,
                kept out b (λ i. omega (arith, apart i)) hb,
              ),
              kept out c (λ i. omega (arith, apart i)) hc,
            ))
            (λ i o. omega arith) refl refl (λ i. simp (value_left, value_right, value_balance))))
