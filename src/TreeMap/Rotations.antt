-- ===== src/TreeMap/Rotations.antt =====
-- executor/crates/sdk-rs/src/storage/tree_map.rs: the rotations, and the link to a new subtree.
use genvm_executor.Base.{ℕ, List, [], ◌∷◌, ◌==◌, if◌then◌else◌}
use genvm_executor.TreeMap.Slots.{
  M, ◌>>=◌, ◌>>◌, minus_one, is_positive, node, get_left, get_right, get_balance, set_left,
  set_right, set_balance, set_root,
}

module _ {K V : Type 0} where
  unfoldable pub rot_left : ℕ → ℕ → M K V (Unit {0})
  rot_left par cur = do
    par_n ← node par
    cur_n ← node cur
    cur_l ← get_left cur_n
    set_left cur_n par
    set_right par_n cur_l
    bal ← get_balance cur_n
    set_balance par_n (if bal == 0 then 1 else 0)
    set_balance cur_n (if bal == 0 then minus_one else 0)

  unfoldable pub rot_right : ℕ → ℕ → M K V (Unit {0})
  rot_right par cur = do
    par_n ← node par
    cur_n ← node cur
    cur_r ← get_right cur_n
    set_right cur_n par
    set_left par_n cur_r
    bal ← get_balance cur_n
    set_balance par_n (if bal == 0 then minus_one else 0)
    set_balance cur_n (if bal == 0 then 1 else 0)

  unfoldable pub rot_right_left : ℕ → ℕ → ℕ → M K V (Unit {0})
  rot_right_left gpar par cur = do
    gpar_n ← node gpar
    par_n ← node par
    cur_n ← node cur
    cur_l ← get_left cur_n
    cur_r ← get_right cur_n
    set_right gpar_n cur_l
    set_left par_n cur_r
    set_left cur_n gpar
    set_right cur_n par
    bal ← get_balance cur_n
    set_balance par_n (if bal == 0 then 0 else (if is_positive bal then 0 else 1))
    set_balance gpar_n (if bal == 0 then 0 else (if is_positive bal then minus_one else 0))
    set_balance cur_n 0

  unfoldable pub rot_left_right : ℕ → ℕ → ℕ → M K V (Unit {0})
  rot_left_right gpar par cur = do
    gpar_n ← node gpar
    par_n ← node par
    cur_n ← node cur
    cur_l ← get_left cur_n
    cur_r ← get_right cur_n
    set_left gpar_n cur_r
    set_right par_n cur_l
    set_left cur_n par
    set_right cur_n gpar
    bal ← get_balance cur_n
    set_balance par_n (if bal == 0 then 0 else (if is_positive bal then minus_one else 0))
    set_balance gpar_n (if bal == 0 then 0 else (if is_positive bal then 0 else 1))
    set_balance cur_n 0

  -- `above` is the path to the subtree, its last index first.
  unfoldable pub replace_child : List ℕ → ℕ → ℕ → M K V (Unit {0})
  replace_child [] old_child new_child = set_root new_child
  replace_child (gp ∷ above) old_child new_child = do
    gp_n ← node gp
    l ← get_left gp_n
    if l == old_child then set_left gp_n new_child else set_right gp_n new_child
