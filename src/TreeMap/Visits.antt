-- ===== src/TreeMap/Visits.antt =====
-- executor/crates/sdk-rs/src/storage/tree_map.rs: `for_each` sees the entries in the order of their keys.
use genvm_executor.Base.{
  ℕ, zero, suc, ◌≡◌, ◌≤◌, ◌<◌, refl, ◌∙◌, some, List, [], ◌∷◌, ◌++◌, append_assoc, append-nil,
  arith,
}
use genvm_executor.TreeMap.Slots.{TreeMap}
use genvm_executor.TreeMap.Lookup.{KeyOrder, visit_impl, for_each}
use genvm_executor.TreeMap.Tree.{Tree, leaf, node, same_self, root_of, occ, height, entries}
use genvm_executor.TreeMap.Held.{Held, node-ok}
use genvm_executor.TreeMap.Search.{height-le-node_count}
use genvm_executor.TreeMap.Map.{IsMap, places-ArePlaced}

module _ {K V : Type 0} where
  visit_impl_lem :
      (s : TreeMap K V) (fuel : ℕ) (t : Tree K V) (seen : List (K × V))
      → Held s.slots t
      → ((i : ℕ) → 1 ≤ occ i t → i < s.slots_len)
      → height t < fuel
      → visit_impl fuel seen (root_of t) s ≡ some (seen ++ entries t, s)
  unfolding visit_impl
  visit_impl_lem s zero t seen held inside enough = absurd (omega arith)
  visit_impl_lem s (suc fuel) leaf seen held inside enough = rw (append-nil seen) refl
  visit_impl_lem s (suc fuel) (node p l k v b r) seen (c, hl, hr) inside enough =
      let first = visit_impl_lem s fuel l seen hl (λ i h. inside i (omega arith)) (omega arith) in
      let second =
        visit_impl_lem s fuel r (seen ++ entries l ++ (k, v) ∷ []) hr
          (λ i h. inside i (omega arith)) (omega arith) in
      simp (node-ok p s (inside p (omega (arith, same_self p))), c, first)
        (second ∙ simp append_assoc)

  -- On a map that is a balanced search tree in its slots, `for_each` calls back with the entries in
  -- the order of their keys, and changes nothing.
  pub for_each-entries :
      ⦃o : KeyOrder K⦄ {s : TreeMap K V} {es : List (K × V)}
      → IsMap s es
      → for_each s ≡ some (es, s)
  unfolding for_each
  for_each-entries {s = s} m = simp (
    m.is_root,
    visit_impl_lem s (suc s.slots_len) m.tree [] m.held (places-ArePlaced m).inside
        (omega (arith, m.counted, height-le-node_count m.tree)),
    m.listed,
  )
