-- ===== src/TreeMap/Removal.antt =====
-- executor/crates/sdk-rs/src/storage/tree_map.rs: `remove`. The path is a stack: where the source writes
-- `seq[seq_move_to]`, the stack below that place and the one above it are given apart.
use genvm_executor.Base.{
  ℕ, zero, suc, Bool, true, false, Option, none, some, List, [], ◌∷◌, ◌++◌, ◌==◌, if◌then◌else◌,
}
use genvm_executor.TreeMap.Slots.{
  M, pure, panic, ◌>>=◌, ◌>>◌, minus_one, i8_add, node, get_left, get_right, get_balance, set_left,
  set_right, set_balance, set_root, free_slot,
}
use genvm_executor.TreeMap.Lookup.{KeyOrder, find_path}
use genvm_executor.TreeMap.Insertion.{first_of, lift_left, lift_right, link, settle_root}
use genvm_executor.TreeMap.Rotations.{replace_child}

-- The way from a right child to the leftmost node under it: that node, and those above it from the
-- bottom up.
pub record Successor : Type 0 where
  pub replacement : ℕ
  pub between : List ℕ

unfoldable pub is_left_child : Option Bool → ℕ → ℕ → Bool
is_left_child none cur l = cur == l
is_left_child (some is_left) cur l = is_left

module _ {K V : Type 0} where
  -- The loop; `side` says on which side the first step comes from, if `special_null` holds. Its result
  -- is `seq[0]`.
  unfoldable pub rebalance_remove : Option Bool → ℕ → List ℕ → M K V ℕ
  rebalance_remove side cur [] = pure cur
  rebalance_remove side cur (par ∷ above) = do
    par_n ← node par
    l ← get_left par_n
    b ← get_balance par_n
    let new_b = i8_add b (if is_left_child side cur l then 1 else minus_one) in
        if new_b == 254
        then (do
          sib_n ← node l
          sib_bal ← get_balance sib_n
          top ← lift_left par l
          replace_child above par top
          if sib_bal == 0 then pure (first_of top above) else rebalance_remove none top above)
        else (if new_b == 2
            then (do
              sib ← get_right par_n
              sib_n ← node sib
              sib_bal ← get_balance sib_n
              top ← lift_right par sib
              replace_child above par top
              if sib_bal == 0 then pure (first_of top above) else rebalance_remove none top above)
            else (do
              set_balance par_n new_b
              if new_b == 0
                  then rebalance_remove none par above
                  else pure (first_of cur (par ∷ above))))

  -- `none` also when the fuel is out.
  unfoldable pub descend : ℕ → List ℕ → ℕ → M K V Successor
  descend zero between cur = panic
  descend (suc fuel) between cur = do
    cur_n ← node cur
    lft ← get_left cur_n
    if lft == 0
        then pure (record { replacement = cur; between = between })
        else descend fuel (cur ∷ between) lft

  -- The link of the parent, or the root.
  unfoldable pub link_above : List ℕ → Bool → ℕ → M K V (Unit {0})
  link_above [] is_left idx = set_root idx
  link_above (par ∷ above) is_left idx = link par is_left idx

  -- A node with one child at most gives way to its child.
  unfoldable pub patch_child : ℕ → M K V (Unit {0})
  patch_child zero = pure tt
  patch_child (suc idx) = do rep_n ← node (suc idx); set_balance rep_n 0

  unfoldable pub remove_small : List ℕ → Bool → ℕ → M K V ℕ
  remove_small above is_left child = do
    link_above above is_left child
    patch_child child
    rebalance_remove (some is_left) child above

  -- `replacement` leaves its place; what is there then.
  unfoldable pub detach : List ℕ → ℕ → ℕ → M K V ℕ
  detach [] rep_n del_right = get_right rep_n
  detach (par ∷ between) rep_n del_right = do
    parent_of_rep ← node par
    r ← get_right rep_n
    set_left parent_of_rep r
    set_right rep_n del_right
    get_left parent_of_rep

  unfoldable pub remove_large : List ℕ → Bool → ℕ → ℕ → ℕ → M K V ℕ
  remove_large above is_left del_left del_right del_balance = do
    way ← λ s. descend (suc s.slots_len) [] del_right s
    rep_n ← node way.replacement
    set_left rep_n del_left
    last ← detach way.between rep_n del_right
    link_above above is_left way.replacement
    rep_n' ← node way.replacement
    set_balance rep_n' del_balance
    rebalance_remove none last (way.between ++ way.replacement ∷ above)

  unfoldable pub remove_node : ℕ → List ℕ → Bool → M K V ℕ
  remove_node del_n above is_left = do
    del_left ← get_left del_n
    del_right ← get_right del_n
    del_balance ← get_balance del_n
    free_slot del_n
    if del_left == 0
        then remove_small above is_left del_right
        else (if del_right == 0
            then remove_small above is_left del_left
            else remove_large above is_left del_left del_right del_balance)

  unfoldable pub remove_at : ℕ → List ℕ → Bool → M K V Bool
  remove_at zero above is_left = pure false
  remove_at (suc idx) above is_left = do
    del_n ← node (suc idx)
    first ← remove_node del_n above is_left
    settle_root first
    pure true

  unfoldable pub remove : ⦃o : KeyOrder K⦄ → K → M K V Bool
  remove k = do path ← find_path k; remove_at path.last path.above path.is_left
