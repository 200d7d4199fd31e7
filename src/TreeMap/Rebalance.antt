-- ===== src/TreeMap/Rebalance.antt =====
-- executor/crates/sdk-rs/src/storage/tree_map.rs: a tree whose balance the loops of `insert` and `remove` have
-- restored, and the steps that both take.
use genvm_executor.Base.{ℕ, suc, ◌+◌, ◌≡◌, ◌≤◌, refl, sym, ◌∙◌, false, List, [], ◌∷◌, arith, ◌==◌}
use genvm_executor.TreeMap.Slots.{TreeMap, update}
use genvm_executor.TreeMap.Tree.{
  Tree, leaf, node, Around, in_left, in_right, same, same-ne, root_of, occ, node_count, height,
  entries, IsBalanced, AreBalanced, occ_above, path_of, plug, occ-plug, node_count-plug,
  entries-plug, plug-IsBalanced,
}
use genvm_executor.TreeMap.Returns.{Returns, returns, chain, weaken}
use genvm_executor.TreeMap.Held.{
  Held, AreHeld, Outside, kept, frame, frames, plug-Held, update_self, away,
}
use genvm_executor.TreeMap.Lifts.{ArePlaced, Lifted}
use genvm_executor.TreeMap.Links.{replace_child_lem}
use genvm_executor.TreeMap.Rotations.{replace_child}
use genvm_executor.TreeMap.Insertion.{first_of, relink}

-- A balanced tree has the entries and the slots of another one.
pub record Restored {K V : Type 0} (s : TreeMap K V) (old : Tree K V) (first : ℕ) (s' : TreeMap K V)
    : Type 0 where
  pub tree : Tree K V
  pub is_first : first ≡ root_of tree
  pub held : Held s'.slots tree
  pub balanced : IsBalanced tree
  pub same_entries : entries tree ≡ entries old
  pub same_occ : (i : ℕ) → occ i tree ≡ occ i old
  pub same_size : node_count tree ≡ node_count old
  pub values : (i : ℕ) → (s'.slots i).value ≡ (s.slots i).value
  pub slots_len : s'.slots_len ≡ s.slots_len
  pub free_slots : s'.free_slots ≡ s.free_slots

-- A tree hangs in the place of another one.
pub record Replaced {K V : Type 0} (s : TreeMap K V) (above : List (Around K V)) (tree : Tree K V)
    (s' : TreeMap K V) : Type 0 where
  pub held : Held s'.slots tree
  pub held_above : AreHeld s'.slots above (root_of tree)
  pub values : (i : ℕ) → (s'.slots i).value ≡ (s.slots i).value
  pub slots_len : s'.slots_len ≡ s.slots_len
  pub free_slots : s'.free_slots ≡ s.free_slots

module _ {K V : Type 0} where
  pub first_of-plug :
      (above : List (Around K V)) (t : Tree K V)
      → first_of (root_of t) (path_of above) ≡ root_of (plug above t)
  first_of-plug [] t = refl
  first_of-plug (in_left p k v b r ∷ above) t = first_of-plug above (node p t k v b r)
  first_of-plug (in_right p k v b l ∷ above) t = first_of-plug above (node p l k v b t)

  -- A tree with a new subtree, once everything is linked.
  pub restored :
      (s s' : TreeMap K V) (above : List (Around K V)) (old new : Tree K V)
      → Held s'.slots new
      → AreHeld s'.slots above (root_of new)
      → IsBalanced new
      → AreBalanced above (height new)
      → entries new ≡ entries old
      → ((i : ℕ) → occ i new ≡ occ i old)
      → node_count new ≡ node_count old
      → s'.slots_len ≡ s.slots_len
      → s'.free_slots ≡ s.free_slots
      → ((i : ℕ) → (s'.slots i).value ≡ (s.slots i).value)
      → Restored s (plug above old) (first_of (root_of new) (path_of above)) s'
  restored s s' above old new h a b ab e o n l f w = record {
    tree = plug above new;
    is_first = first_of-plug above new;
    held = plug-Held s'.slots above new h a;
    balanced = plug-IsBalanced above new b ab;
    same_entries = rw (entries-plug above new, entries-plug above old, e) refl;
    same_occ = λ i. omega (arith, occ-plug i above new, occ-plug i above old, o i);
    same_size = omega (arith, node_count-plug above new, node_count-plug above old);
    slots_len = l;
    free_slots = f;
    values = w;
  }

  -- A lifted tree takes the place of the old one.
  pub replaced :
      {h d top : ℕ} (s s' : TreeMap K V) (above : List (Around K V)) (p : ℕ) (old : Tree K V)
      → AreHeld s.slots above (suc p)
      → ArePlaced s.slots_len (λ i. occ i old + occ_above i above)
      → 1 ≤ occ p old
      → (lifted : Lifted s old h d top s')
      → Returns (λ _. Replaced s above lifted.tree) (replace_child (path_of above) (suc p) top s')
  replaced s s' above p old held placed there lifted =
      let t = lifted.turned in
      let placed' : ArePlaced s'.slots_len (λ i. occ_above i above) = record {
        apart = λ i. omega (arith, placed.apart i);
        inside = λ i o. omega (arith, placed.inside i (omega arith), t.slots_len);
      } in
      let held' =
        frames s.slots s'.slots above (suc p) (λ i o. t.others i (omega (arith, placed.apart i)))
          held in
      rw lifted.is_top (
        weaken
          (replace_child_lem s' above p (root_of lifted.tree) held' placed'
            (omega (arith, placed.apart p)))
          λ _ s'' linked. record {
            held =
                frame s'.slots s''.slots lifted.tree
                  (λ i o. linked.others i (omega (arith, placed.apart i, lifted.same_occ i)))
                  t.held;
            held_above = linked.held;
            slots_len = linked.slots_len ∙ t.slots_len;
            free_slots = linked.free_slots ∙ t.free_slots;
            values = λ i. linked.values i ∙ t.values i;
          })

  pub relink_lem :
      {h d top : ℕ} (s s' : TreeMap K V) (above : List (Around K V)) (p : ℕ) (old : Tree K V)
      → AreHeld s.slots above (suc p)
      → ArePlaced s.slots_len (λ i. occ i old + occ_above i above)
      → 1 ≤ occ p old
      → (lifted : Lifted s old h d top s') → AreBalanced above (height lifted.tree)
      → Returns (Restored s (plug above old)) (relink (path_of above) (suc p) top s')
  unfolding relink
  relink_lem s s' above p old held placed there lifted ab =
      chain (replaced s s' above p old held placed there lifted) λ _ s'' now. rw lifted.is_top (
        returns (
          restored s s'' above old lifted.tree now.held now.held_above lifted.balanced ab
            lifted.same_entries lifted.same_occ lifted.same_size now.slots_len now.free_slots
            now.values))

  -- The same from a state with another balance in one node.
  pub carried :
      (s s' s'' : TreeMap K V) (above : List (Around K V)) (old new : Tree K V) (first : ℕ)
      → entries new ≡ entries old
      → ((i : ℕ) → occ i new ≡ occ i old)
      → node_count new ≡ node_count old
      → s'.slots_len ≡ s.slots_len
      → s'.free_slots ≡ s.free_slots
      → ((i : ℕ) → (s'.slots i).value ≡ (s.slots i).value)
      → Restored s' (plug above new) first s''
      → Restored s (plug above old) first s''
  carried s s' s'' above old new first e o n l f w done = record {
    tree = done.tree;
    is_first = done.is_first;
    held = done.held;
    balanced = done.balanced;
    same_entries = done.same_entries ∙ rw (entries-plug above new, entries-plug above old, e) refl;
    same_occ = λ i. omega (arith, done.same_occ i, occ-plug i above new, occ-plug i above old, o i);
    same_size = omega (arith, done.same_size, node_count-plug above new, node_count-plug above old);
    slots_len = done.slots_len ∙ l;
    free_slots = done.free_slots ∙ f;
    values = λ i. done.values i ∙ w i;
  }

  abbrev pub balance_set : TreeMap K V → ℕ → ℕ → TreeMap K V
  balance_set s p b = record s { slots = update s.slots p λ n. record n { balance = b } }

  pub balance_set_lem :
      (s : TreeMap K V) (above : List (Around K V)) (p : ℕ) (l : Tree K V) (k : K) (v : V) (b : ℕ)
      (r : Tree K V) (b' : ℕ)
      → Held s.slots (node p l k v b r)
      → AreHeld s.slots above (suc p)
      → ArePlaced s.slots_len (λ i. occ i (node p l k v b r) + occ_above i above)
      → Held (balance_set s p b').slots (node p l k v b' r)
        × AreHeld (balance_set s p b').slots above (suc p)
  balance_set_lem s above p l k v b r b' (c, hl, hr) up placed =
      let out : Outside s.slots (balance_set s p b').slots (λ i. same i p) =
        λ i o. away i p o s.slots _ in
      (
        (
          simp (update_self, c),
          kept out l (λ i. omega (arith, placed.apart i)) hl,
          kept out r (λ i. omega (arith, placed.apart i)) hr,
        ),
        frames s.slots (balance_set s p b').slots above (suc p)
            (λ i o. out i (omega (arith, placed.apart i))) up,
      )

  pub at_height :
      (above : List (Around K V)) {h h' : ℕ} → h ≡ h' → AreBalanced above h → AreBalanced above h'
  at_height above e ab = rw (sym e) ab

  pub ne-root : (q : ℕ) (t : Tree K V) → occ q t ≡ 0 → (suc q == root_of t) ≡ false
  ne-root q leaf h = ground arith
  ne-root q (node p l k v b r) h = let other = same-ne q p (omega arith) in ground arith
