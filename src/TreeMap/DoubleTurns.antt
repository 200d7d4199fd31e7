-- ===== src/TreeMap/DoubleTurns.antt =====
-- executor/crates/sdk-rs/src/storage/tree_map.rs: what the double rotations do to the tree that the slots hold.
use genvm_executor.Base.{ℕ, suc, ◌+◌, ◌≡◌, ◌≤◌, ◌<◌, refl, arith, ◌==◌, if◌then◌else◌}
use genvm_executor.TreeMap.Slots.{TreeMap, minus_one, is_positive}
use genvm_executor.TreeMap.Tree.{Tree, node, same, same_self, occ}
use genvm_executor.TreeMap.Returns.{Returns, returns}
use genvm_executor.TreeMap.Held.{
  Held, kept, node-ok, update_self, value_left, value_right, value_balance, away,
}
use genvm_executor.TreeMap.Rotations.{rot_right_left, rot_left_right}
use genvm_executor.TreeMap.Turns.{Turned, changed}

module _ {K V : Type 0} (s : TreeMap K V) (p q r : ℕ) (a b c e : Tree K V) (k k' k'' : K)
    (v v' v'' : V) (d d' d'' : ℕ) where
  pub rot_right_left_lem :
      Held s.slots (node p a k v d (node q (node r b k'' v'' d'' c) k' v' d' e))
      → ((i : ℕ) → occ i (node p a k v d (node q (node r b k'' v'' d'' c) k' v' d' e)) ≤ 1)
      → p < s.slots_len
      → q < s.slots_len
      → r < s.slots_len
      → Returns
          (λ _ s'. Turned s (node p a k v d (node q (node r b k'' v'' d'' c) k' v' d' e)) s' (
            node r
              (node p a k v (if d'' == 0 then 0 else (if is_positive d'' then minus_one else 0)) b)
              k''
              v''
              0
              (node q c k' v' (if d'' == 0 then 0 else (if is_positive d'' then 0 else 1)) e)))
          (rot_right_left (suc p) (suc q) (suc r) s)
  unfolding rot_right_left
  rot_right_left_lem (cp, ha, (cq, (cr, hb, hc), he)) apart inside inside' inside'' =
      let pq : same p q ≡ 0 = omega (arith, apart p, same_self p) in
      let qp : same q p ≡ 0 = omega (arith, apart q, same_self q) in
      let pr : same p r ≡ 0 = omega (arith, apart p, same_self p) in
      let rp : same r p ≡ 0 = omega (arith, apart r, same_self r) in
      let qr : same q r ≡ 0 = omega (arith, apart q, same_self q) in
      let rq : same r q ≡ 0 = omega (arith, apart r, same_self r) in
      rw (node-ok p s inside, node-ok q s inside', node-ok r s inside'')
        (returns (
          changed (λ i. same i p + same i q + same i r)
            (λ i o.
              let ip : same i p ≡ 0 = omega arith in
              let iq : same i q ≡ 0 = omega arith in
              let ir : same i r ≡ 0 = omega arith in simp (away i p ip, away i q iq, away i r ir))
            (λ out. (
              simp (
                update_self,
                away p q pq,
                away q p qp,
                away p r pr,
                away r p rp,
                away q r qr,
                away r q rq,
                cp,
                cq,
                cr,
              ),
              (
                simp (
                  update_self,
                  away p q pq,
                  away q p qp,
                  away p r pr,
                  away r p rp,
                  away q r qr,
                  away r q rq,
                  cp,
                  cq,
                  cr,
                ),
                kept out a (λ i. omega (arith, apart i)) ha,
                kept out b (λ i. omega (arith, apart i)) hb,
              ),
              (
                simp (
                  update_self,
                  away p q pq,
                  away q p qp,
                  away p r pr,
                  away r p rp,
                  away q r qr,
                  away r q rq,
                  cp,
                  cq,
                  cr,
                ),
                kept out c (λ i. omega (arith, apart i)) hc,
                kept out e (λ i. omega (arith, apart i)) he,
              ),
            ))
            (λ i o. omega arith) refl refl (λ i. simp (value_left, value_right, value_balance))))

  pub rot_left_right_lem :
      Held s.slots (node p (node q a k' v' d' (node r b k'' v'' d'' c)) k v d e)
      → ((i : ℕ) → occ i (node p (node q a k' v' d' (node r b k'' v'' d'' c)) k v d e) ≤ 1)
      → p < s.slots_len
      → q < s.slots_len
      → r < s.slots_len
      → Returns
          (λ _ s'. Turned s (node p (node q a k' v' d' (node r b k'' v'' d'' c)) k v d e) s' (
            node r
              (node q a k' v'
                (if d'' == 0 then 0 else (if is_positive d'' then minus_one else 0))
                b)
              k''
              v''
              0
              (node p c k v (if d'' == 0 then 0 else (if is_positive d'' then 0 else 1)) e)))
          (rot_left_right (suc p) (suc q) (suc r) s)
  unfolding rot_left_right
  rot_left_right_lem (cp, (cq, ha, (cr, hb, hc)), he) apart inside inside' inside'' =
      let pq : same p q ≡ 0 = omega (arith, apart p, same_self p) in
      let qp : same q p ≡ 0 = omega (arith, apart q, same_self q) in
      let pr : same p r ≡ 0 = omega (arith, apart p, same_self p) in
      let rp : same r p ≡ 0 = omega (arith, apart r, same_self r) in
      let qr : same q r ≡ 0 = omega (arith, apart q, same_self q) in
      let rq : same r q ≡ 0 = omega (arith, apart r, same_self r) in
      rw (node-ok p s inside, node-ok q s inside', node-ok r s inside'')
        (returns (
          changed (λ i. same i p + same i q + same i r)
            (λ i o.
              let ip : same i p ≡ 0 = omega arith in
              let iq : same i q ≡ 0 = omega arith in
              let ir : same i r ≡ 0 = omega arith in simp (away i p ip, away i q iq, away i r ir))
            (λ out. (
              simp (
                update_self,
                away p q pq,
                away q p qp,
                away p r pr,
                away r p rp,
                away q r qr,
                away r q rq,
                cp,
                cq,
                cr,
              ),
              (
                simp (
                  update_self,
                  away p q pq,
                  away q p qp,
                  away p r pr,
                  away r p rp,
                  away q r qr,
                  away r q rq,
                  cp,
                  cq,
                  cr,
                ),
                kept out a (λ i. omega (arith, apart i)) ha,
                kept out b (λ i. omega (arith, apart i)) hb,
              ),
              (
                simp (
                  update_self,
                  away p q pq,
                  away q p qp,
                  away p r pr,
                  away r p rp,
                  away q r qr,
                  away r q rq,
                  cp,
                  cq,
                  cr,
                ),
                kept out c (λ i. omega (arith, apart i)) hc,
                kept out e (λ i. omega (arith, apart i)) he,
              ),
            ))
            (λ i o. omega arith) refl refl (λ i. simp (value_left, value_right, value_balance))))
