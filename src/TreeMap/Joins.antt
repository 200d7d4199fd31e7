-- ===== src/TreeMap/Joins.antt =====
-- executor/crates/sdk-rs/src/storage/tree_map.rs: `remove` of a node with two children, whose successor takes its
-- place.
use genvm_executor.Base.{
  ℕ, suc, ◌+◌, ◌≡◌, ◌≤◌, ◌<◌, refl, sym, ap, ◌∙◌, none, List, [], ◌∷◌, ◌++◌, arith, max, ==_refl,
}
use genvm_executor.TreeMap.Slots.{
  TreeMapNode, TreeMap, M, pure, and_then, ◌>>=◌, ◌>>◌, update, set_balance,
}
use genvm_executor.TreeMap.Slots
use genvm_executor.TreeMap.Removal.{is_left_child, rebalance_remove, link_above, remove_large}
use genvm_executor.TreeMap.Returns.{Returns, chain, weaken}
use genvm_executor.TreeMap.Tree.{
  Tree, leaf, node, Around, in_left, in_right, same, same_self, root_of, occ, height, entries,
  IsBalanced, IsSlope, AreBalanced, occ_above, size_above, path_of, plug, entries_before,
  entries_after, node_count, occ-plug, node_count-plug, entries-plug, plug-AreBalanced,
}
use genvm_executor.TreeMap.Held.{cell, Held, AreHeld, frame, frames, node-ok, update_self, away}
use genvm_executor.TreeMap.Links.{turned_left}
use genvm_executor.TreeMap.Lifts.{ArePlaced, fewer}
use genvm_executor.TreeMap.Rebalance.{Restored, balance_set, at_height, ne-root}
use genvm_executor.TreeMap.Shrinks.{IsTold, rebalance_remove_lem}
use genvm_executor.TreeMap.Successors.{
  AreLeft, AreLeft-before, descend_lem, path_of-append, plug-append, occ_above-append,
  append-AreHeld, append-AreBalanced,
}
use genvm_executor.TreeMap.Moves.{Moved, move_lem, link_above_lem}

-- The map without a node: its children's entries stand in its place.
pub record Joined {K V : Type 0} (s : TreeMap K V) (fr : List (Around K V)) (l r : Tree K V)
    (first : ℕ) (s' : TreeMap K V) : Type 0 where
  pub tree : Tree K V
  pub is_first : first ≡ root_of tree
  pub held : Held s'.slots tree
  pub balanced : IsBalanced tree
  pub joined : entries tree ≡ entries_before fr ++ (entries l ++ entries r) ++ entries_after fr
  pub all_occ : (i : ℕ) → occ i tree ≡ occ i l + occ i r + occ_above i fr
  pub all_size : node_count tree ≡ node_count l + node_count r + size_above fr
  pub slots_len : s'.slots_len ≡ s.slots_len
  pub free_slots : s'.free_slots ≡ s.free_slots

module _ {K V : Type 0} where
  -- The code finds the side of the place that the successor has left.
  IsTold-there :
      (xs : List (Around K V)) (q : ℕ) (k : K) (v : V) (d : ℕ) (l : Tree K V)
      (fr : List (Around K V)) (right : Tree K V)
      → AreLeft xs
      → 1 ≤ height l
      → ((i : ℕ) → occ i l + occ i right ≤ 1)
      → IsTold none (xs ++ in_right q k v d l ∷ fr) right
  unfolding is_left_child
  IsTold-there (in_right p k' v' d' r ∷ xs) q k v d l fr right left high apart = absurd left
  IsTold-there (in_left p k' v' d' r ∷ xs) q k v d l fr right left high apart =
      ==_refl (root_of right)
  IsTold-there [] q k v d leaf fr right left high apart = absurd (omega arith)
  IsTold-there [] q k v d (node p a k' v' d' b) fr leaf left high apart = ground arith
  IsTold-there [] q k v d (node p a k' v' d' b) fr (node p' a' k'' v'' d'' b') left high apart =
      ne-root p' (node p a k' v' d' b) (omega (arith, apart p', same_self p'))

  module _ (s : TreeMap K V) (fr : List (Around K V)) (l : Tree K V) (d : ℕ) where
    -- The rest of `remove`, from the successor's new place on.
    finish_lem :
        (xs : List (Around K V)) (q : ℕ) (k : K) (v : V) (e : ℕ) (right : Tree K V)
        (s' : TreeMap K V)
        → AreLeft xs
        → 1 ≤ height l
        → s'.slots q ≡ cell k v (root_of l) (root_of (plug xs right)) d
        → Held s'.slots right
        → Held s'.slots l
        → AreHeld s'.slots xs (root_of right)
        → AreHeld s'.slots fr (suc q)
        → ArePlaced s'.slots_len
            (λ i. same i q + occ i l + occ i right + occ_above i xs + occ_above i fr)
        → IsBalanced l
        → IsBalanced right
        → height right ≤ 1
        → AreBalanced xs (suc (height right))
        → IsSlope d (height l) (height (plug xs (node q leaf k v e right)))
        → AreBalanced fr (suc (max (height l) (height (plug xs (node q leaf k v e right)))))
        → Returns
            (Restored s' (plug (xs ++ in_right q k v d l ∷ fr) right))
            (rebalance_remove none (root_of right) (path_of xs ++ suc q ∷ path_of fr) s')
    finish_lem xs q k v e right s' left high c hr hl up upper placed bl br low bx slope bf =
        rw (sym (path_of-append xs (in_right q k v d l ∷ fr))) (
          rebalance_remove_lem none (xs ++ in_right q k v d l ∷ fr) s' right (height right) hr
            (append-AreHeld s'.slots xs (in_right q k v d l ∷ fr) right up (c, hl, upper))
            (fewer (λ i. omega (arith, occ_above-append i xs (in_right q k v d l ∷ fr))) placed) br
            (append-AreBalanced xs (in_right q k v d l ∷ fr) (node q leaf k v e right)
              (suc (height right)) (omega arith) bx (bl, slope, bf))
            refl
            (IsTold-there xs q k v d l fr right left high (λ i. omega (arith, placed.apart i))))

    -- The entries of a right child are its least one's and the others'.
    least-entries :
        (xs : List (Around K V)) (q : ℕ) (k : K) (v : V) (e : ℕ) (right : Tree K V)
        → AreLeft xs
        → entries (plug xs (node q leaf k v e right)) ≡ (k, v) ∷ entries (plug xs right)
    least-entries xs q k v e right left =
        rw
          (entries-plug xs (node q leaf k v e right), entries-plug xs right, AreLeft-before xs left)
          refl

    place_lem :
        (hole : ℕ) (xs : List (Around K V)) (q : ℕ) (k : K) (v : V) (e : ℕ) (right t0 : Tree K V)
        (last : ℕ) (s2 : TreeMap K V)
        → plug xs (node q leaf k v e right) ≡ t0
        → AreLeft xs
        → 1 ≤ height l
        → Held s.slots l
        → Held s.slots right
        → AreHeld s.slots fr hole
        → ArePlaced s.slots_len (λ i. occ i l + occ i t0 + occ_above i fr)
        → IsBalanced l
        → IsBalanced t0
        → IsSlope d (height l) (height t0)
        → AreBalanced fr (suc (max (height l) (height t0)))
        → Moved s xs q k v e (root_of l) right last s2
        → Returns (Joined s fr l t0) (
            and_then (link_above (path_of fr) (turned_left fr) (suc q) s2) λ _. do
              rep_n ← Slots.node (suc q)
              set_balance rep_n d
              rebalance_remove none last (path_of xs ++ suc q ∷ path_of fr))
    place_lem hole xs q k v e right t0 last s2 whole left high hl hr up placed bl bt slope bf
          moved =
        let t1 = node q leaf k v e right in
        let t_occ : (i : ℕ) → same i q + occ i right + occ_above i xs ≡ occ i t0 =
          λ i. omega (arith, occ-plug i xs t1, ap (occ i) whole) in
        let apart : (i : ℕ)
            → same i q + occ i l + occ i right + occ_above i xs + occ_above i fr ≤ 1 =
          λ i. omega (arith, t_occ i, placed.apart i) in
        let up2 =
          frames s.slots s2.slots fr hole (λ i h. moved.others i (omega (arith, apart i))) up in
        let placed2 : ArePlaced s2.slots_len (λ i. occ i l + occ i t0 + occ_above i fr) =
          rw moved.slots_len placed in
        chain (link_above_lem s2 fr hole (suc q) up2 (fewer (λ i. omega arith) placed2))
          λ _ s3 linked.
            let s4 = balance_set s3 q d in
            let kept_out : (i : ℕ)
                → same i q + occ_above i xs + occ_above i fr ≡ 0
                → s4.slots i ≡ s.slots i =
              λ i h.
                away i q (omega arith) s3.slots _
                ∙ linked.others i (omega arith)
                ∙ moved.others i (omega arith) in
            let placed3 : ArePlaced s3.slots_len (λ i. occ i l + occ i t0 + occ_above i fr) =
              rw linked.slots_len placed2 in
            let at_q : s3.slots q ≡ cell k v (root_of l) (root_of (plug xs right)) e =
              linked.others q (omega (arith, apart q, same_self q)) ∙ moved.moved in
            let bal = plug-AreBalanced xs t1 (rw whole bt) in
            let low : height right ≤ 1 = let sl = bal.0.2 in omega arith in
            let rest = plug xs right in
            rw
              (moved.is_last, node-ok q s3 (placed3.inside q (omega (arith, t_occ q, same_self q))))
              (weaken
                (finish_lem xs q k v e right s4 left high (simp (update_self, at_q))
                  (frame s.slots s4.slots right (λ i h. kept_out i (omega (arith, apart i))) hr)
                  (frame s.slots s4.slots l (λ i h. kept_out i (omega (arith, apart i))) hl)
                  (frames s2.slots s4.slots xs (root_of right)
                    (λ i h.
                      away i q (omega (arith, apart i)) s3.slots _
                      ∙ linked.others i (omega (arith, apart i)))
                    moved.held_above)
                  (frames s3.slots s4.slots fr (suc q)
                    (λ i h. away i q (omega (arith, apart i)) s3.slots _) linked.held)
                  (fewer (λ i. omega (arith, t_occ i)) placed3) bl bal.0.1 low
                  (at_height xs (omega arith) bal.1) (rw whole slope) (rw whole bf))
                λ first s5 done. record {
                  tree = done.tree;
                  is_first = done.is_first;
                  held = done.held;
                  balanced = done.balanced;
                  joined =
                      done.same_entries
                      ∙ ap entries (plug-append xs (in_right q k v d l ∷ fr) right)
                      ∙ entries-plug fr (node q l k v d rest)
                      ∙ ap (λ es. entries_before fr ++ (entries l ++ es) ++ entries_after fr)
                          (sym (least-entries xs q k v e right left) ∙ ap entries whole);
                  all_occ = λ i. omega (
                    arith,
                    done.same_occ i,
                    occ-plug i (xs ++ in_right q k v d l ∷ fr) right,
                    occ_above-append i xs (in_right q k v d l ∷ fr),
                    t_occ i,
                  );
                  all_size = omega (
                    arith,
                    done.same_size,
                    ap node_count (plug-append xs (in_right q k v d l ∷ fr) right),
                    node_count-plug fr (node q l k v d rest),
                    node_count-plug xs right,
                    node_count-plug xs t1,
                    ap node_count whole,
                  );
                  slots_len = done.slots_len ∙ linked.slots_len ∙ moved.slots_len;
                  free_slots = done.free_slots ∙ linked.free_slots ∙ moved.free_slots;
                })

    pub remove_large_lem :
        (hole q0 : ℕ) (a0 : Tree K V) (k0 : K) (v0 : V) (d0 : ℕ) (b0 : Tree K V)
        → Held s.slots l
        → Held s.slots (node q0 a0 k0 v0 d0 b0)
        → AreHeld s.slots fr hole
        → ArePlaced s.slots_len (λ i. occ i l + occ i (node q0 a0 k0 v0 d0 b0) + occ_above i fr)
        → IsBalanced l
        → IsBalanced (node q0 a0 k0 v0 d0 b0)
        → 1 ≤ height l
        → height a0 < suc s.slots_len
        → IsSlope d (height l) (height (node q0 a0 k0 v0 d0 b0))
        → AreBalanced fr (suc (max (height l) (height (node q0 a0 k0 v0 d0 b0))))
        → Returns
            (Joined s fr l (node q0 a0 k0 v0 d0 b0))
            (remove_large (path_of fr) (turned_left fr) (root_of l) (suc q0) d s)
    unfolding remove_large
    remove_large_lem hole q0 a0 k0 v0 d0 b0 hl hr up placed bl br high enough slope bf =
        let t0 = node q0 a0 k0 v0 d0 b0 in
        let (way, run, least) =
          descend_lem s (suc s.slots_len) q0 a0 k0 v0 d0 b0 [] hr tt
            (λ i h. placed.inside i (omega (arith, h))) enough tt in
        let xs = least.frames in
        let q = least.slot in
        let t1 = node q leaf least.key least.value least.balance least.right in
        let r_occ : (i : ℕ) → occ i t1 + occ_above i xs ≡ occ i t0 =
          λ i. omega (arith, occ-plug i xs t1, ap (occ i) least.whole) in
        let bal = plug-AreBalanced xs t1 (rw least.whole br) in
        let moving = rw (ap root_of least.whole) at (
          move_lem s xs q least.key least.value least.balance least.right (root_of l) least.held
            least.held_above least.left (fewer (λ i. omega (arith, r_occ i)) placed)) in
        rw (run, least.is_way, node-ok q s (placed.inside q (omega (arith, r_occ q, same_self q))))
          (chain moving λ last s2 moved.
            place_lem hole xs q least.key least.value least.balance least.right t0 last s2
              least.whole least.left high hl least.held.2 up placed bl br slope bf moved)
