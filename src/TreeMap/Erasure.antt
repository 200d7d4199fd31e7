-- ===== src/TreeMap/Erasure.antt =====
-- executor/crates/sdk-rs/src/storage/tree_map.rs: `remove` erases the entry of its key, and keeps the tree a
-- balanced search tree in its slots.
use genvm_executor.Base.{
  ℕ, suc, ◌+◌, ◌≡◌, ◌≤◌, refl, sym, ap, ◌∙◌, List, ◌++◌, append-nil, append_assoc, arith, max,
  suc-ne-zero, ◌==◌, if◌then◌else◌,
}
use genvm_executor.TreeMap.Slots.{TreeMap}
use genvm_executor.TreeMap.Lookup.{KeyOrder}
use genvm_executor.TreeMap.Removal.{remove_small, remove_large, remove_node, remove_at, remove}
use genvm_executor.TreeMap.Returns.{Returns, returns, chain, weaken}
use genvm_executor.TreeMap.Tree.{
  Tree, leaf, node, Around, same_self, root_of, occ, height, entries, IsBalanced, IsSlope,
  AreBalanced, occ_above, size_above, path_of, plug, entries_before, entries_after, node_count,
  occ-plug, node_count-plug, entries-plug, plug-AreBalanced,
}
use genvm_executor.TreeMap.Held.{Held, AreHeld, frame, frames, node-ok}
use genvm_executor.TreeMap.Links.{turned_left}
use genvm_executor.TreeMap.Lifts.{ArePlaced, fewer}
use genvm_executor.TreeMap.Rebalance.{at_height}
use genvm_executor.TreeMap.Joins.{Joined, remove_large_lem}
use genvm_executor.TreeMap.Removes.{Freed, free_slot_lem, remove_small_lem}
use genvm_executor.TreeMap.Allocs.{settle_root_lem}
use genvm_executor.TreeMap.Entries.{
  lookup, erase, erase-IsSorted, lookup-gap, lookup-there, erase-gap, erase-there,
}
use genvm_executor.TreeMap.Search.{IsWay, IsEnd, height-le-node_count}
use genvm_executor.TreeMap.Map.{
  is_some, times, in_pool, in_pool-le, in_pool→lt, IsMap, places-ArePlaced, find_path_lem, around,
  gap, there,
}

module _ {K V : Type 0} where
  -- A node without a left child, or without a right one.
  alone :
      (s : TreeMap K V) (fr : List (Around K V)) (hole : ℕ) (child l r : Tree K V)
      → Held s.slots child
      → AreHeld s.slots fr hole
      → ArePlaced s.slots_len (λ i. occ i child + occ_above i fr)
      → IsBalanced child
      → AreBalanced fr (suc (height child))
      → height child ≤ 1
      → entries child ≡ entries l ++ entries r
      → ((i : ℕ) → occ i child ≡ occ i l + occ i r)
      → node_count child ≡ node_count l + node_count r
      → Returns (Joined s fr l r) (remove_small (path_of fr) (turned_left fr) (root_of child) s)
  alone s fr hole child l r held up placed bal abal low e o n =
      weaken (remove_small_lem s fr hole child held up placed bal abal low) λ first s' done.
        record {
          tree = done.tree;
          is_first = done.is_first;
          held = done.held;
          balanced = done.balanced;
          joined =
              done.same_entries
              ∙ entries-plug fr child
              ∙ ap (λ es. entries_before fr ++ es ++ entries_after fr) e;
          all_occ = λ i. omega (arith, done.same_occ i, occ-plug i fr child, o i);
          all_size = omega (arith, done.same_size, node_count-plug fr child, n);
          slots_len = done.slots_len;
          free_slots = done.free_slots;
        }

  -- What `remove` does once the node's slot is free.
  close :
      (s : TreeMap K V) (fr : List (Around K V)) (hole : ℕ) (l r : Tree K V) (b : ℕ)
      → Held s.slots l
      → Held s.slots r
      → AreHeld s.slots fr hole
      → ArePlaced s.slots_len (λ i. occ i l + occ i r + occ_above i fr)
      → IsBalanced l
      → IsBalanced r
      → IsSlope b (height l) (height r)
      → AreBalanced fr (suc (max (height l) (height r)))
      → height r ≤ s.slots_len
      → Returns (Joined s fr l r) (
          (if root_of l == 0
              then remove_small (path_of fr) (turned_left fr) (root_of r)
              else (if root_of r == 0
                  then remove_small (path_of fr) (turned_left fr) (root_of l)
                  else remove_large (path_of fr) (turned_left fr) (root_of l) (root_of r) b))
            s)
  close s fr hole leaf r b hl hr up placed bl br slope abal low =
      alone s fr hole r leaf r hr up (fewer (λ i. omega arith) placed) br
        (at_height fr (omega arith) abal) (omega arith) refl (λ i. omega arith) (omega arith)
  close s fr hole (node q a k v d c) leaf b hl hr up placed bl br slope abal low =
      let t = node q a k v d c in
      rw (suc-ne-zero q) (
        alone s fr hole t t leaf hl up (fewer (λ i. omega arith) placed) bl
          (at_height fr (omega arith) abal) (omega arith) (sym (append-nil (entries t)))
          (λ i. omega arith) (omega arith))
  close s fr hole (node q a k v d c) (node q0 a0 k0 v0 d0 b0) b hl hr up placed bl br slope abal
        low =
      rw (suc-ne-zero q, suc-ne-zero q0)
        (remove_large_lem s fr (node q a k v d c) b hole q0 a0 k0 v0 d0 b0 hl hr up placed bl br
          (omega arith) (omega arith) slope abal)

module _ {K V : Type 0} ⦃o : KeyOrder K⦄ {s : TreeMap K V} {es : List (K × V)}
    (m : IsMap s es) where
  module _ (fr : List (Around K V)) (p : ℕ) (l : Tree K V) (k : K) (v : V) (b : ℕ) (r : Tree K V)
      (whole : plug fr (node p l k v b r) ≡ m.tree) where
    occ-node : (i : ℕ) → occ i (node p l k v b r) + occ_above i fr ≡ occ i m.tree
    occ-node i = omega (arith, occ-plug i fr (node p l k v b r), ap (occ i) whole)

    whole_count : node_count (node p l k v b r) + size_above fr ≡ node_count m.tree
    whole_count = omega (arith, node_count-plug fr (node p l k v b r), ap node_count whole)

    module _ {s1 : TreeMap K V} (f : Freed s p s1) where
      places_left :
          (i : ℕ)
          → occ i l + occ i r + occ_above i fr + times i s1.free_slots ≡ in_pool i s1.slots_len
      places_left i = omega (arith, occ-node i, m.places i, f.room i)

      left_ArePlaced : ArePlaced s1.slots_len (λ i. occ i l + occ i r + occ_above i fr)
      left_ArePlaced = record {
        apart = λ i. omega (arith, places_left i, in_pool-le i s1.slots_len);
        inside = λ i h. in_pool→lt i s1.slots_len (omega (arith, places_left i));
      }

    remove_node_lem :
        Held s.slots (node p l k v b r)
        → AreHeld s.slots fr (suc p)
        → Returns
            (λ first s'. (s1 : TreeMap K V) × Freed s p s1 × Joined s1 fr l r first s')
            (remove_node p (path_of fr) (turned_left fr) s)
    unfolding remove_node
    remove_node_lem (c, hl, hr) up =
        let bal = plug-AreBalanced fr (node p l k v b r) (rw whole m.balanced) in
        rw (c) (
          chain
            (free_slot_lem p s
              ((places-ArePlaced m).inside p (omega (arith, occ-node p, same_self p))))
            λ _ s1 f.
              let same_slots : (i : ℕ) → s1.slots i ≡ s.slots i =
                λ i. ap (λ slots. slots i) f.slots in
              weaken
                (close s1 fr (suc p) l r b (frame s.slots s1.slots l (λ i h. same_slots i) hl)
                  (frame s.slots s1.slots r (λ i h. same_slots i) hr)
                  (frames s.slots s1.slots fr (suc p) (λ i h. same_slots i) up) (left_ArePlaced f)
                  bal.0.0 bal.0.1 bal.0.2 bal.1
                  (omega (arith, f.lengths, m.counted, whole_count, height-le-node_count r)))
                λ first s' done. (s1, f, done))

  remove_at_lem :
      (k : K) (fr : List (Around K V)) (end : Tree K V)
      → plug fr end ≡ m.tree
      → Held s.slots end
      → AreHeld s.slots fr (root_of end)
      → IsWay k fr
      → IsEnd k end
      → es ≡ entries_before fr ++ entries end ++ entries_after fr
      → Returns
          (λ was s'. (was ≡ is_some (lookup k es)) × IsMap s' (erase k es))
          (remove_at (root_of end) (path_of fr) (turned_left fr) s)
  unfolding remove_at
  remove_at_lem k fr leaf whole held up way ends e =
      let (e', passed, next) = gap k fr way m.sorted e in
      let missing =
        ap (lookup k) e' ∙ lookup-gap k (entries_before fr) (entries_after fr) passed next in
      let same_es =
        ap (erase k) e' ∙ erase-gap k (entries_before fr) (entries_after fr) passed next ∙ sym e' in
      returns (rw missing refl, rw same_es m)
  remove_at_lem k fr (node p l k' v' b r) whole held up way ends e =
      let (e', passed) = there k fr way m.sorted (entries l) (entries r) k' v' e ends in
      let present =
        ap (lookup k) e'
        ∙ lookup-there k (entries_before fr ++ entries l) (entries r ++ entries_after fr) passed k'
            v' ends in
      let erased =
        ap (erase k) e'
        ∙ erase-there k (entries_before fr ++ entries l) (entries r ++ entries_after fr) passed k'
            v' ends in
      rw
        (node-ok p s (
          (places-ArePlaced m).inside p
            (omega (arith, occ-node fr p l k' v' b r whole p, same_self p))))
        (chain (remove_node_lem fr p l k' v' b r whole held up) λ first s2 (s1, f, done).
          chain (settle_root_lem first s2) λ _ s3 settled. returns (
            rw present refl,
            record {
              tree = done.tree;
              is_root = settled.is_root ∙ done.is_first;
              held =
                  frame s2.slots s3.slots done.tree (λ i h. ap (λ slots. slots i) settled.slots)
                    done.held;
              balanced = done.balanced;
              sorted = erase-IsSorted k es m.sorted;
              listed = done.joined ∙ (simp append_assoc) ∙ sym erased;
              places = λ i.
                  rw (settled.free_slots ∙ done.free_slots, settled.slots_len ∙ done.slots_len)
                    (omega (arith, done.all_occ i, places_left fr p l k' v' b r whole f i));
              counted =
                  rw (settled.free_slots ∙ done.free_slots, settled.slots_len ∙ done.slots_len)
                    (omega (
                      arith,
                      done.all_size,
                      whole_count fr p l k' v' b r whole,
                      f.lengths,
                      m.counted,
                    ));
            },
          ))

  -- On a map that is a balanced search tree in its slots, `remove` does not panic, says whether the
  -- key was there, and leaves such a tree without its entry.
  pub remove-erase :
      (k : K)
      → Returns (λ was s'. (was ≡ is_some (lookup k es)) × IsMap s' (erase k es)) (remove k s)
  unfolding remove
  remove-erase k =
      let (path, run, at) = find_path_lem m k in
      rw (run, at.is_path)
        (remove_at_lem k at.frames at.end at.is_whole at.held at.held_above at.way at.ends
          (around m at))
