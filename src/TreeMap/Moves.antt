-- ===== src/TreeMap/Moves.antt =====
-- executor/crates/sdk-rs/src/storage/tree_map.rs: the writes by which the successor takes the place of the node
-- that `remove` takes out, and those by which a child does.
use genvm_executor.Base.{ℕ, suc, ◌+◌, ◌≡◌, refl, ap, ◌∙◌, List, [], ◌∷◌, arith}
use genvm_executor.TreeMap.Slots.{TreeMap, and_then, update, set_left}
use genvm_executor.TreeMap.Returns.{Returns, returns}
use genvm_executor.TreeMap.Tree.{
  Tree, leaf, node, Around, in_left, in_right, same, same_self, root_of, occ, occ_above, path_of,
  plug,
}
use genvm_executor.TreeMap.Held.{
  cell, Held, AreHeld, Outside, kept, frames, node-ok, update_self, away,
}
use genvm_executor.TreeMap.Lifts.{ArePlaced}
use genvm_executor.TreeMap.Links.{Linked, link_lem, turned_left}
use genvm_executor.TreeMap.Successors.{AreLeft, root_of-plug}
use genvm_executor.TreeMap.Removal.{detach, link_above}

-- The successor in the slot `q` has left its place, and has new children.
pub record Moved {K V : Type 0} (s : TreeMap K V) (frames : List (Around K V)) (q : ℕ) (k : K)
    (v : V) (d l : ℕ) (right : Tree K V) (last : ℕ) (s' : TreeMap K V) : Type 0 where
  pub is_last : last ≡ root_of right
  pub moved : s'.slots q ≡ cell k v l (root_of (plug frames right)) d
  pub held_above : AreHeld s'.slots frames (root_of right)
  pub others : (i : ℕ) → same i q + occ_above i frames ≡ 0 → s'.slots i ≡ s.slots i
  pub slots_len : s'.slots_len ≡ s.slots_len
  pub free_slots : s'.free_slots ≡ s.free_slots

module _ {K V : Type 0} (s : TreeMap K V) where
  moves :
      {s' : TreeMap K V} {last : ℕ} (p : ℕ) (k' : K) (v' : V) (d' : ℕ) (r : Tree K V)
      (above : List (Around K V)) (q : ℕ) (k : K) (v : V) (d : ℕ) (right : Tree K V) (l : ℕ)
      → ArePlaced s.slots_len
          (λ i. same i q + occ i right + occ_above i (in_left p k' v' d' r ∷ above))
      → Held s.slots r
      → AreHeld s.slots above (suc p)
      → last ≡ root_of right
      → s'.slots q
        ≡ cell k v l (root_of (plug (in_left p k' v' d' r ∷ above) (node q leaf k v d right))) d
      → s'.slots p ≡ cell k' v' (root_of right) (root_of r) d'
      → Outside s.slots s'.slots (λ i. same i q + same i p)
      → s'.slots_len ≡ s.slots_len
      → s'.free_slots ≡ s.free_slots
      → Moved s (in_left p k' v' d' r ∷ above) q k v d l right last s'
  moves p k' v' d' r above q k v d right l placed hr up e cq cp out n f = record {
    is_last = e;
    moved =
        cq
        ∙ ap (λ idx. cell k v l idx d)
            (root_of-plug (in_left p k' v' d' r) above (node q leaf k v d right) right);
    held_above = (
      cp,
      kept out r (λ i. omega (arith, placed.apart i)) hr,
      frames _ _ above (suc p) (λ i o. out i (omega (arith, placed.apart i))) up,
    );
    others = λ i h. out i (omega arith);
    slots_len = n;
    free_slots = f;
  }

  pub move_lem :
      (fr : List (Around K V)) (q : ℕ) (k : K) (v : V) (d : ℕ) (right : Tree K V) (l : ℕ)
      → Held s.slots (node q leaf k v d right)
      → AreHeld s.slots fr (suc q)
      → AreLeft fr
      → ArePlaced s.slots_len (λ i. same i q + occ i right + occ_above i fr)
      → Returns (Moved s fr q k v d l right) (
          and_then
            (set_left q l s)
            λ _. detach (path_of fr) q (root_of (plug fr (node q leaf k v d right))))
  unfolding detach
  move_lem [] q k v d right l (c, _, hr) up left placed = returns (record {
    is_last = simp (update_self, c);
    moved = simp (update_self, c);
    held_above = tt;
    others = λ i h. simp (away i q (omega arith));
    slots_len = refl;
    free_slots = refl;
  })
  move_lem (in_right p k' v' d' r ∷ above) q k v d right l held up left placed = absurd left
  move_lem (in_left p k' v' d' r ∷ above) q k v d right l (c, _, hr) (c', hr', up) left placed =
      let pq : same p q ≡ 0 = omega (arith, placed.apart p, same_self p) in
      let qp : same q p ≡ 0 = omega (arith, placed.apart q, same_self q) in
      let sA = record s { slots = update s.slots q λ n. record n { left = l } } in
      rw (node-ok p sA (placed.inside p (omega (arith, same_self p)))) (
        returns (
          moves p k' v' d' r above q k v d right l placed hr' up
            (simp (update_self, away p q pq, away q p qp, c, c'))
            (simp (update_self, away p q pq, away q p qp, c, c'))
            (simp (update_self, away p q pq, away q p qp, c, c'))
            (λ i h.
              let iq : same i q ≡ 0 = omega arith in
              let ip : same i p ≡ 0 = omega arith in simp (away i q iq, away i p ip))
            refl refl))

  pub link_above_lem :
      (fr : List (Around K V)) (hole new : ℕ)
      → AreHeld s.slots fr hole
      → ArePlaced s.slots_len (λ i. occ_above i fr)
      → Returns (λ _ s'. Linked s fr new s') (link_above (path_of fr) (turned_left fr) new s)
  unfolding link_above
  link_above_lem [] hole new held placed = returns (record {
    held = tt;
    others = λ i o. refl;
    values = λ i. refl;
    slots_len = refl;
    free_slots = refl;
  })
  link_above_lem (f ∷ above) hole new held placed = link_lem s above f hole new held placed
