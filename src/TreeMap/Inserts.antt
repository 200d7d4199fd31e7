-- ===== src/TreeMap/Inserts.antt =====
-- executor/crates/sdk-rs/src/storage/tree_map.rs: `insert` puts the entry and keeps the tree a balanced search
-- tree in its slots.
use genvm_executor.Base.{
  ℕ, suc, ◌+◌, ◌^◌, ◌≡◌, ◌<◌, refl, sym, ap, ◌∙◌, inl, inr, Bool, true, some, List, [], ◌∷◌, ◌++◌,
  append_assoc, arith,
}
use genvm_executor.TreeMap.Slots.{
  TreeMap, pure, and_then, ◌>>=◌, ◌>>◌, set_root, set_value, update, alloc_slot, init_node,
}
use genvm_executor.TreeMap.Lookup.{KeyOrder}
use genvm_executor.TreeMap.Insertion.{settle_root, insert_at, insert, rebalance_insert, link}
use genvm_executor.TreeMap.Returns.{Returns, returns, chain}
use genvm_executor.TreeMap.Tree.{
  Tree, leaf, node, Around, same, same_self, root_of, occ, entries, IsBalanced, slot_of, occ_above,
  size_above, path_of, plug, entries_before, entries_after, node_count, occ-plug, node_count-plug,
  entries-plug, plug-AreBalanced, plug-IsBalanced,
}
use genvm_executor.TreeMap.Held.{
  Held, AreHeld, Outside, kept, frame, frames, plug-Held, node-ok, update_self, away,
}
use genvm_executor.TreeMap.Links.{turned_left, link_lem}
use genvm_executor.TreeMap.Lifts.{ArePlaced, fewer}
use genvm_executor.TreeMap.Rebalance.{first_of-plug}
use genvm_executor.TreeMap.Grows.{rebalance_insert_lem}
use genvm_executor.TreeMap.Entries.{put, put-gap, put-there, put-IsSorted}
use genvm_executor.TreeMap.Search.{IsWay, IsEnd}
use genvm_executor.TreeMap.Map.{
  reassoc, times, in_pool, in_pool-le, in_pool→lt, IsMap, places-ArePlaced, find_path_lem, around,
  gap, there,
}
use genvm_executor.TreeMap.Allocs.{Taken, alloc_from_lem, settle_root_lem}

-- An entry that was not there, in the slot `p`.
module _ {K V : Type 0} ⦃o : KeyOrder K⦄ {s : TreeMap K V} {es : List (K × V)}
    (m : IsMap s es) where
  pub alloc_slot_lem : s.slots_len + 1 < 2 ^ 32 → Returns (Taken s) (alloc_slot s)
  unfolding alloc_slot
  alloc_slot_lem room =
      alloc_from_lem s.free_slots s refl
        (λ i h. in_pool→lt i s.slots_len (omega (arith, m.places i))) room

  module _ {p : ℕ} {s1 : TreeMap K V} (a : Taken s p s1) where
    pub new_places :
        (i : ℕ) → same i p + occ i m.tree + times i s1.free_slots ≡ in_pool i s1.slots_len
    new_places i = omega (arith, a.room i, m.places i)

    pub new_ArePlaced : ArePlaced s1.slots_len (λ i. same i p + occ i m.tree)
    new_ArePlaced = record {
      apart = λ i. omega (arith, new_places i, in_pool-le i s1.slots_len);
      inside = λ i h. in_pool→lt i s1.slots_len (omega (arith, new_places i));
    }

    pub added :
        (s' : TreeMap K V) (t : Tree K V) (k : K) (v : V)
        → s'.root_idx ≡ root_of t
        → Held s'.slots t
        → IsBalanced t
        → entries t ≡ put k v es
        → ((i : ℕ) → occ i t ≡ same i p + occ i m.tree)
        → node_count t ≡ suc (node_count m.tree)
        → s'.slots_len ≡ s1.slots_len
        → s'.free_slots ≡ s1.free_slots
        → IsMap s' (put k v es)
    added s' t k v r h b e o' n l f = record {
      tree = t;
      is_root = r;
      held = h;
      balanced = b;
      sorted = put-IsSorted k v es m.sorted;
      listed = e;
      places = λ i. rw (f, l) (omega (arith, o' i, new_places i));
      counted = rw (f, l) (omega (arith, n, m.counted, a.lengths));
    }

    -- The writes of a new node.
    module _ (k : K) (v : V) where
      abbrev pub filled : TreeMap K V → TreeMap K V
      filled s2 = record s2 {
        slots =
            update
              (update s2.slots p
                λ n. record { key = k; value = n.value; left = 0; right = 0; balance = 0 })
              p λ n. record n { value = v };
      }

      pub filled_out : (s2 : TreeMap K V) → Outside s2.slots (filled s2).slots (λ i. same i p)
      filled_out s2 i h = simp (away i p h)

      pub filled-Held : (s2 : TreeMap K V) → Held (filled s2).slots (node p leaf k v 0 leaf)
      filled-Held s2 = (simp update_self, tt, tt)

    insert_at_first :
        (k : K) (v : V) (is_left : Bool)
        → leaf ≡ m.tree
        → es ≡ []
        → Returns
            (λ p' s'. IsMap s' (put k v es) × ((s'.slots p').value ≡ v))
            (and_then (some (p, s1)) λ n. do set_root (suc n); init_node n k; set_value n v; pure n)
    unfolding init_node put
    insert_at_first k v is_left e none_yet = returns (
      added (record (filled k v s1) { root_idx = suc p }) (node p leaf k v 0 leaf) k v refl
          (filled-Held k v s1) (tt, tt, inr (inl (refl, refl))) (rw none_yet refl)
          (λ i. rw (sym e) (omega arith)) (rw (sym e) refl) refl refl,
      simp update_self,
    )

    insert_at_below :
        (k : K) (v : V) (f : Around K V) (above : List (Around K V))
        → plug (f ∷ above) leaf ≡ m.tree
        → AreHeld s.slots (f ∷ above) 0
        → put k v es ≡ entries_before (f ∷ above) ++ (k, v) ∷ entries_after (f ∷ above)
        → Returns
            (λ p' s'. IsMap s' (put k v es) × ((s'.slots p').value ≡ v))
            (and_then (some (p, s1)) λ n. do
              link (suc (slot_of f)) (turned_left (f ∷ above)) (suc n)
              init_node n k
              set_value n v
              first ← rebalance_insert (suc n) (path_of (f ∷ above))
              settle_root first
              pure n)
    unfolding init_node
    insert_at_below k v f above whole held e =
        let tree_occ : (i : ℕ) → occ_above i (f ∷ above) ≡ occ i m.tree =
          λ i. omega (arith, occ-plug i (f ∷ above) leaf, ap (occ i) whole) in
        let tree_size : size_above (f ∷ above) ≡ node_count m.tree =
          omega (arith, node_count-plug (f ∷ above) leaf, ap node_count whole) in
        let bal = plug-AreBalanced (f ∷ above) leaf (rw whole m.balanced) in
        chain
          (link_lem s1 above f 0 (suc p)
            (frames s.slots s1.slots (f ∷ above) 0 (λ i h. ap (λ slots. slots i) a.slots) held)
            (fewer (λ i. omega (arith, tree_occ i)) new_ArePlaced))
          λ _ s2 linked.
            chain
              (rebalance_insert_lem (f ∷ above) (filled k v s2) p leaf k v 0 leaf 0
                (filled-Held k v s2)
                (frames s2.slots (filled k v s2).slots (f ∷ above) (suc p)
                  (λ i h. filled_out k v s2 i (omega (arith, tree_occ i, new_ArePlaced.apart i)))
                  linked.held)
                (rw linked.slots_len (fewer (λ i. omega (arith, tree_occ i)) new_ArePlaced))
                (tt, tt, inr (inl (refl, refl))) bal.1 refl (λ z. refl))
              λ first s3 done. chain (settle_root_lem first s3) λ _ s4 settled. returns (
                added s4 done.tree k v (settled.is_root ∙ done.is_first)
                    (frame s3.slots s4.slots done.tree (λ i h. ap (λ slots. slots i) settled.slots)
                      done.held)
                    done.balanced
                    (done.same_entries
                      ∙ entries-plug (f ∷ above) (node p leaf k v 0 leaf)
                      ∙ append_assoc (entries_before (f ∷ above)) ((k, v) ∷ [])
                          (entries_after (f ∷ above))
                      ∙ sym e)
                    (λ i. omega (
                      arith,
                      done.same_occ i,
                      occ-plug i (f ∷ above) (node p leaf k v 0 leaf),
                      tree_occ i,
                    ))
                    (omega (
                      arith,
                      done.same_size,
                      node_count-plug (f ∷ above) (node p leaf k v 0 leaf),
                      tree_size,
                    ))
                    (settled.slots_len ∙ done.slots_len ∙ linked.slots_len)
                    (settled.free_slots ∙ done.free_slots ∙ linked.free_slots),
                ap (λ slots. (slots p).value) settled.slots ∙ done.values p ∙ simp update_self,
              )

  -- The value of a key that is there.
  insert_at_there :
      (k : K) (v : V) (frames : List (Around K V)) (p : ℕ) (l r : Tree K V) (k' : K) (v' : V)
      (b : ℕ) (is_left : Bool)
      → plug frames (node p l k' v' b r) ≡ m.tree
      → Held s.slots (node p l k' v' b r)
      → AreHeld s.slots frames (suc p)
      → put k v es
        ≡ (entries_before frames ++ entries l) ++ (k', v) ∷ (entries r ++ entries_after frames)
      → Returns
          (λ p' s'. IsMap s' (put k v es) × ((s'.slots p').value ≡ v))
          (insert_at k v (suc p) (path_of frames) is_left s)
  unfolding insert_at
  insert_at_there k v fr p l r k' v' b is_left whole (c, hl, hr) up e =
      let old = node p l k' v' b r in
      let new = node p l k' v b r in
      let tree_occ : (i : ℕ) → occ i old + occ_above i fr ≡ occ i m.tree =
        λ i. omega (arith, occ-plug i fr old, ap (occ i) whole) in
      let tree_size : node_count old + size_above fr ≡ node_count m.tree =
        omega (arith, node_count-plug fr old, ap node_count whole) in
      let placed = places-ArePlaced m in
      let bal = plug-AreBalanced fr old (rw whole m.balanced) in
      let s' = record s { slots = update s.slots p λ n. record n { value = v } } in
      let out : Outside s.slots s'.slots (λ i. same i p) = λ i h. away i p h s.slots _ in
      rw (node-ok p s (placed.inside p (omega (arith, same_self p, tree_occ p)))) (
        returns (
          record {
            tree = plug fr new;
            is_root =
                m.is_root
                ∙ ap root_of (sym whole)
                ∙ sym (first_of-plug fr old)
                ∙ first_of-plug fr new;
            held =
                plug-Held s'.slots fr new
                  (
                    simp (update_self, c),
                    kept out l (λ i. omega (arith, tree_occ i, placed.apart i)) hl,
                    kept out r (λ i. omega (arith, tree_occ i, placed.apart i)) hr,
                  )
                  (frames s.slots s'.slots fr (suc p)
                    (λ i h. out i (omega (arith, tree_occ i, placed.apart i))) up);
            balanced = plug-IsBalanced fr new bal.0 bal.1;
            sorted = put-IsSorted k v es m.sorted;
            listed =
                entries-plug fr new
                ∙ reassoc (entries_before fr) (entries l) (entries r) (entries_after fr) (k', v)
                ∙ sym e;
            places = λ i. omega (arith, occ-plug i fr new, tree_occ i, m.places i);
            counted = omega (arith, node_count-plug fr new, tree_size, m.counted);
          },
          simp update_self,
        ))

  insert_at_lem :
      (k : K) (v : V) (fr : List (Around K V)) (end : Tree K V)
      → s.slots_len + 1 < 2 ^ 32
      → plug fr end ≡ m.tree
      → Held s.slots end
      → AreHeld s.slots fr (root_of end)
      → IsWay k fr
      → IsEnd k end
      → es ≡ entries_before fr ++ entries end ++ entries_after fr
      → Returns
          (λ p' s'. IsMap s' (put k v es) × ((s'.slots p').value ≡ v))
          (insert_at k v (root_of end) (path_of fr) (turned_left fr) s)
  unfolding insert_at
  insert_at_lem k v fr (node p l k' v' b r) room whole held up way ends e =
      let (e', passed) = there k fr way m.sorted (entries l) (entries r) k' v' e ends in
      insert_at_there k v fr p l r k' v' b (turned_left fr) whole held up (
        ap (put k v) e'
        ∙ put-there k (entries_before fr ++ entries l) (entries r ++ entries_after fr) passed k' v'
            ends v)
  insert_at_lem k v [] leaf room whole held up way ends e =
      chain (alloc_slot_lem room) λ p s1 a. insert_at_first a k v true whole e
  insert_at_lem k v (f ∷ above) leaf room whole held up way ends e =
      let (e', passed, next) = gap k (f ∷ above) way m.sorted e in
      chain (alloc_slot_lem room) λ p s1 a. insert_at_below a k v f above whole up (
        ap (put k v) e'
        ∙ put-gap k (entries_before (f ∷ above)) (entries_after (f ∷ above)) passed v next)

  -- On a map that is a balanced search tree in its slots, with room for one more slot in a u32,
  -- `insert` does not panic, and leaves such a tree with the entry put among the others; it returns the handle
  -- of a slot that holds the value.
  pub insert-put :
      (k : K) (v : V)
      → s.slots_len + 1 < 2 ^ 32
      → Returns (λ p' s'. IsMap s' (put k v es) × ((s'.slots p').value ≡ v)) (insert k v s)
  unfolding insert
  insert-put k v room =
      let (path, run, at) = find_path_lem m k in
      rw (run, at.is_path)
        (insert_at_lem k v at.frames at.end room at.is_whole at.held at.held_above at.way at.ends
          (around m at))
