-- ===== src/TreeMap/Insertion.antt =====
-- executor/crates/sdk-rs/src/storage/tree_map.rs: `insert`. The path's first index, `seq[0]`, is the last of
-- the stack, and the depth of `replace_child` is always the path's length without its last index.
use genvm_executor.Base.{ℕ, zero, suc, Bool, some, List, [], ◌∷◌, ◌==◌, if◌then◌else◌}
use genvm_executor.TreeMap.Slots.{
  M, pure, ◌>>=◌, ◌>>◌, minus_one, i8_add, is_positive, is_negative, node, get_left, get_right,
  get_balance, set_value, set_left, set_right, set_balance, set_root, alloc_slot, init_node,
}
use genvm_executor.TreeMap.Rotations.{
  rot_left, rot_right, rot_right_left, rot_left_right, replace_child,
}
use genvm_executor.TreeMap.Lookup.{KeyOrder, find_path}

abbrev pub first_of : ℕ → List ℕ → ℕ
first_of cur [] = cur
first_of cur (par ∷ above) = first_of par above

module _ {K V : Type 0} where
  -- The rotation of an insertion for a balance of -2; the new subtree's index.
  unfoldable pub lift_left : ℕ → ℕ → M K V ℕ
  lift_left par cur = do
    cur_n ← node cur
    b ← get_balance cur_n
    right_child ← get_right cur_n
    if is_positive b
        then (rot_left_right par cur right_child >> pure right_child)
        else (rot_right par cur >> pure cur)

  -- The same for a balance of 2.
  unfoldable pub lift_right : ℕ → ℕ → M K V ℕ
  lift_right par cur = do
    cur_n ← node cur
    b ← get_balance cur_n
    left_child ← get_left cur_n
    if is_negative b
        then (rot_right_left par cur left_child >> pure left_child)
        else (rot_left par cur >> pure cur)

  -- `replace_child` and `break`
  unfoldable pub relink : List ℕ → ℕ → ℕ → M K V ℕ
  relink above par top = replace_child above par top >> pure (first_of top above)

  -- The loop; its result is `seq[0]`.
  unfoldable pub rebalance_insert : ℕ → List ℕ → M K V ℕ
  rebalance_insert cur [] = pure cur
  rebalance_insert cur (par ∷ above) = do
    par_n ← node par
    l ← get_left par_n
    b ← get_balance par_n
    let new_b = i8_add b (if cur == l then minus_one else 1) in
        if new_b == 254
        then (lift_left par cur >>= relink above par)
        else (if new_b == 2
            then (lift_right par cur >>= relink above par)
            else (set_balance par_n new_b
                >> (if new_b == 0 then pure (first_of par above) else rebalance_insert par above)))

  unfoldable pub link : ℕ → Bool → ℕ → M K V (Unit {0})
  link parent is_left idx = do
    parent_n ← node parent
    if is_left then set_left parent_n idx else set_right parent_n idx

  unfoldable pub settle_root : ℕ → M K V (Unit {0})
  settle_root first s = if s.root_idx == first then some (tt, s) else set_root first s

  unfoldable pub insert_at : K → V → ℕ → List ℕ → Bool → M K V ℕ
  insert_at k v (suc idx) above is_left = do n ← node (suc idx); set_value n v; pure n
  insert_at k v zero [] is_left = do
    n ← alloc_slot
    set_root (suc n)
    init_node n k
    set_value n v
    pure n
  insert_at k v zero (parent ∷ above) is_left = do
    n ← alloc_slot
    link parent is_left (suc n)
    init_node n k
    set_value n v
    first ← rebalance_insert (suc n) (parent ∷ above)
    settle_root first
    pure n

  -- Its result is the handle of the value, its node's.
  unfoldable pub insert : ⦃o : KeyOrder K⦄ → K → V → M K V ℕ
  insert k v = do path ← find_path k; insert_at k v path.last path.above path.is_left
