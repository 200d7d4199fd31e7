-- ===== src/TreeMap/Links.antt =====
-- executor/crates/sdk-rs/src/storage/tree_map.rs: the writes that link a subtree to the path above it.
use genvm_executor.Base.{
  ℕ, suc, ◌≡◌, ◌≤◌, refl, Bool, true, false, List, [], ◌∷◌, arith, ◌==◌, ==_refl,
}
use genvm_executor.TreeMap.Slots.{TreeMap, update}
use genvm_executor.TreeMap.Tree.{
  Tree, leaf, node, Around, in_left, in_right, same, same_self, same-ne, root_of, occ, occ_above,
  path_of, slot_of,
}
use genvm_executor.TreeMap.Returns.{Returns, returns}
use genvm_executor.TreeMap.Held.{
  AreHeld, Outside, kept, frames, node-ok, update_self, value_left, value_right, away,
}
use genvm_executor.TreeMap.Lifts.{ArePlaced}
use genvm_executor.TreeMap.Rotations.{replace_child}
use genvm_executor.TreeMap.Insertion.{link}

-- The frames have got a new index in their hole.
pub record Linked {K V : Type 0} (s : TreeMap K V) (above : List (Around K V)) (hole : ℕ)
    (s' : TreeMap K V) : Type 0 where
  pub held : AreHeld s'.slots above hole
  pub others : (i : ℕ) → occ_above i above ≡ 0 → s'.slots i ≡ s.slots i
  pub values : (i : ℕ) → (s'.slots i).value ≡ (s.slots i).value
  pub slots_len : s'.slots_len ≡ s.slots_len
  pub free_slots : s'.free_slots ≡ s.free_slots

pub root-ne :
    {K V : Type 0} (old : ℕ) (t : Tree K V) → occ old t ≡ 0 → (root_of t == suc old) ≡ false
root-ne old leaf h = ground arith
root-ne old (node p l k v b r) h = let other = same-ne old p (omega arith) in ground arith

-- The frame that a walk to the left or to the right has left last.
abbrev pub turned_left : {K V : Type 0} → List (Around K V) → Bool
turned_left [] = true
turned_left (in_left p k v b r ∷ above) = true
turned_left (in_right p k v b l ∷ above) = false

module _ {K V : Type 0} (s : TreeMap K V) where
  hang_left :
      (p : ℕ) (k : K) (v : V) (b : ℕ) (r : Tree K V) (above : List (Around K V)) (hole new : ℕ)
      → AreHeld s.slots (in_left p k v b r ∷ above) hole
      → ((i : ℕ) → occ_above i (in_left p k v b r ∷ above) ≤ 1)
      → Linked s
          (in_left p k v b r ∷ above)
          new
          (record s { slots = update s.slots p λ n. record n { left = new } })
  hang_left p k v b r above hole new (c, hr, up) apart =
      let out : Outside s.slots (update s.slots p λ n. record n { left = new }) (λ i. same i p) =
        λ i o. away i p o s.slots _ in
      record {
        held = (
          simp (update_self, c),
          kept out r (λ i. omega (arith, apart i)) hr,
          frames _ _ above (suc p) (λ i o. out i (omega (arith, apart i))) up,
        );
        others = λ i o. out i (omega arith);
        slots_len = refl;
        values = λ i. value_left s.slots p new i;
        free_slots = refl;
      }

  hang_right :
      (p : ℕ) (k : K) (v : V) (b : ℕ) (l : Tree K V) (above : List (Around K V)) (hole new : ℕ)
      → AreHeld s.slots (in_right p k v b l ∷ above) hole
      → ((i : ℕ) → occ_above i (in_right p k v b l ∷ above) ≤ 1)
      → Linked s
          (in_right p k v b l ∷ above)
          new
          (record s { slots = update s.slots p λ n. record n { right = new } })
  hang_right p k v b l above hole new (c, hl, up) apart =
      let out : Outside s.slots (update s.slots p λ n. record n { right = new }) (λ i. same i p) =
        λ i o. away i p o s.slots _ in
      record {
        held = (
          simp (update_self, c),
          kept out l (λ i. omega (arith, apart i)) hl,
          frames _ _ above (suc p) (λ i o. out i (omega (arith, apart i))) up,
        );
        others = λ i o. out i (omega arith);
        slots_len = refl;
        values = λ i. value_right s.slots p new i;
        free_slots = refl;
      }

  pub replace_child_lem :
      (above : List (Around K V)) (old new : ℕ)
      → AreHeld s.slots above (suc old)
      → ArePlaced s.slots_len (λ i. occ_above i above)
      → occ_above old above ≡ 0
      → Returns (λ _ s'. Linked s above new s') (replace_child (path_of above) (suc old) new s)
  unfolding replace_child
  replace_child_lem [] old new held placed out = returns (record {
    held = tt;
    others = λ i o. refl;
    values = λ i. refl;
    slots_len = refl;
    free_slots = refl;
  })
  replace_child_lem (in_left p k v b r ∷ above) old new held placed out =
      rw (node-ok p s (placed.inside p (omega (arith, same_self p))), held.0, ==_refl (suc old))
        (returns (hang_left p k v b r above (suc old) new held placed.apart))
  replace_child_lem (in_right p k v b l ∷ above) old new held placed out =
      rw
        (
          node-ok p s (placed.inside p (omega (arith, same_self p))),
          held.0,
          root-ne old l (omega arith),
        )
        (returns (hang_right p k v b l above (suc old) new held placed.apart))

  pub link_lem :
      (above : List (Around K V)) (f : Around K V) (hole new : ℕ)
      → AreHeld s.slots (f ∷ above) hole
      → ArePlaced s.slots_len (λ i. occ_above i (f ∷ above))
      → Returns
          (λ _ s'. Linked s (f ∷ above) new s')
          (link (suc (slot_of f)) (turned_left (f ∷ above)) new s)
  unfolding link
  link_lem above (in_left p k v b r) hole new held placed =
      rw (node-ok p s (placed.inside p (omega (arith, same_self p))))
        (returns (hang_left p k v b r above hole new held placed.apart))
  link_lem above (in_right p k v b l) hole new held placed =
      rw (node-ok p s (placed.inside p (omega (arith, same_self p))))
        (returns (hang_right p k v b l above hole new held placed.apart))
