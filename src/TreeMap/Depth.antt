-- ===== src/TreeMap/Depth.antt =====
-- executor/crates/sdk-rs/src/storage/tree_map.rs: the paths of a balanced tree are short.
use genvm_executor.Base.{
  ℕ, zero, suc, ◌+◌, ◌*◌, ◌/◌, ◌^◌, ◌≡◌, ◌≤◌, ap, some, List, [], ◌∷◌, arith, length,
}
use native.Mathlib.Nat.{pow-suc}
use genvm_executor.TreeMap.Slots.{TreeMap}
use genvm_executor.TreeMap.Lookup.{KeyOrder, Walk, find_path}
use genvm_executor.TreeMap.Tree.{
  Tree, leaf, node, Around, in_left, in_right, height, node_count, IsBalanced, path_of, plug,
}
use genvm_executor.TreeMap.Map.{IsMap, find_path_lem, length-entries}

module _ {K V : Type 0} where
  path_of-height :
      (fr : List (Around K V)) (t : Tree K V) → length (path_of fr) + height t ≤ height (plug fr t)
  path_of-height [] t = omega arith
  path_of-height (in_left p k v b r ∷ fr) t = omega (arith, path_of-height fr (node p t k v b r))
  path_of-height (in_right p k v b l ∷ fr) t = omega (arith, path_of-height fr (node p l k v b t))

  -- A balanced tree of height `2 * j` has `2 ^ j - 1` nodes at least.
  IsBalanced-node_count :
      (j : ℕ) (t : Tree K V) → IsBalanced t → 2 * j ≤ height t → 2 ^ j ≤ suc (node_count t)
  IsBalanced-node_count zero t bal tall = omega arith
  IsBalanced-node_count (suc j) leaf bal tall = absurd (omega arith)
  IsBalanced-node_count (suc j) (node p l k v b r) (bl, br, slope) tall =
      let left = IsBalanced-node_count j l bl (omega arith) in
      let right = IsBalanced-node_count j r br (omega arith) in
      rw (pow-suc 2 j) (omega (arith, left, right))

-- On a map that is a balanced search tree in its slots, `find_path` does not panic, and two to the
-- power of half the number of nodes above the end of its path, rounded down, is at most the number of
-- entries and one.
pub find_path-depth :
    {K V : Type 0} ⦃o : KeyOrder K⦄ {s : TreeMap K V} {es : List (K × V)} (m : IsMap s es) (k : K)
    → (path : Walk) × (find_path k s ≡ some (path, s))
      × (2 ^ (length path.above / 2) ≤ suc (length es))
find_path-depth {s = s} {es} m k =
    let (path, run, at) = find_path_lem m k in
    let above_len : length path.above ≡ length (path_of at.frames) =
      ap (λ p. length p.above) at.is_path in
    let tall = path_of-height at.frames at.end in
    let whole = ap height at.is_whole in
    let small = IsBalanced-node_count (length path.above / 2) m.tree m.balanced (omega arith) in
    let count = length-entries m.tree in let listed = ap length m.listed in (path, run, omega arith)
