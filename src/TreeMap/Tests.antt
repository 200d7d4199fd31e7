-- ===== src/TreeMap/Tests.antt =====
-- Runs of the tree map on concrete keys, and the properties at concrete maps.
use genvm_executor.Base.{
  ℕ, zero, suc, ◌*◌, ◌/◌, ◌^◌, ◌≤◌, ◌≡◌, refl, inl, inr, Bool, true, false, Option, none, some,
  List, [], ◌∷◌, arith, ltb, length,
}
use genvm_executor.TreeMap.Slots.{
  TreeMap, TreeMapNode, M, pure, ◌>>=◌, ◌>>◌, update, index, append_slot, pop_slot, alloc_from,
  alloc_slot, free_slot, init_node,
}
use genvm_executor.TreeMap.Slots
use genvm_executor.TreeMap.Rotations.{
  rot_left, rot_right, rot_right_left, rot_left_right, replace_child,
}
use genvm_executor.TreeMap.Lookup.{
  KeyOrder, Walk, turn, find_from, find_path, visit_impl, get, for_each,
}
use genvm_executor.TreeMap.Insertion.{
  lift_left, lift_right, relink, rebalance_insert, link, settle_root, insert_at, insert,
}
use genvm_executor.TreeMap.Removal.{
  is_left_child, rebalance_remove, descend, link_above, patch_child, remove_small, detach,
  remove_large, remove_node, remove_at, remove,
}
use genvm_executor.TreeMap.Tree.{leaf, node, same}
use genvm_executor.TreeMap.Returns.{Returns}
use genvm_executor.TreeMap.Entries.{lookup, put, erase}
use genvm_executor.TreeMap.Map.{in_pool, is_some, value_of, IsMap, get-lookup}
use genvm_executor.TreeMap.Inserts.{insert-put}
use genvm_executor.TreeMap.Erasure.{remove-erase}
use genvm_executor.TreeMap.Visits.{for_each-entries}
use genvm_executor.TreeMap.Depth.{find_path-depth}

instance number_order : KeyOrder ℕ
number_order = record {
  lt = ltb;
  lt_irrefl = λ a. ground arith;
  lt_trans = λ a b c h h'. ground arith;
  lt_connected = λ a b h h'. ground arith;
}

abbrev cell : ℕ → ℕ → ℕ → ℕ → ℕ → TreeMapNode ℕ ℕ
cell k v l r b = record { key = k; value = v; left = l; right = r; balance = b }

abbrev blank : TreeMap ℕ ℕ
blank = record { root_idx = 0; slots = λ i. cell 0 0 0 0 0; slots_len = 0; free_slots = [] }

abbrev insert_all : List ℕ → M ℕ ℕ (Unit {0})
insert_all [] = pure tt
insert_all (k ∷ ks) = do insert k (k * 10); insert_all ks

abbrev remove_all : List ℕ → M ℕ ℕ (List Bool)
remove_all [] = pure []
remove_all (k ∷ ks) = do was ← remove k; rest ← remove_all ks; pure (was ∷ rest)

abbrev session : M ℕ ℕ (List Bool × List (ℕ × ℕ))
session = do
  insert_all (5 ∷ 2 ∷ 8 ∷ 1 ∷ 3 ∷ 7 ∷ 9 ∷ 4 ∷ 6 ∷ [])
  was ← remove_all (5 ∷ 2 ∷ 1 ∷ 10 ∷ [])
  insert 2 22
  es ← for_each
  pure (was, es)

abbrev outcome : {A : Type 0} → Option (A × TreeMap ℕ ℕ) → Option A
outcome none = none
outcome (some (a, s)) = some a

session_runs :
    outcome (session blank)
    ≡ some (
      true ∷ true ∷ true ∷ false ∷ [],
      (2, 22) ∷ (3, 30) ∷ (4, 40) ∷ (6, 60) ∷ (7, 70) ∷ (8, 80) ∷ (9, 90) ∷ [],
    )
unfolding update index Slots.node append_slot pop_slot alloc_from alloc_slot free_slot init_node
    rot_left rot_right rot_right_left rot_left_right replace_child turn find_from find_path
    visit_impl for_each lift_left lift_right relink rebalance_insert link settle_root insert_at
    insert is_left_child rebalance_remove descend link_above patch_child remove_small detach
    remove_large remove_node remove_at remove number_order
session_runs = refl

-- A map with a free slot: 5 at its root, 2 and 8 below.
abbrev three_slots : ℕ → TreeMapNode ℕ ℕ
three_slots zero = cell 5 50 2 4 0
three_slots (suc zero) = cell 2 20 0 0 0
three_slots (suc (suc zero)) = cell 7 70 9 9 0
three_slots (suc (suc (suc i))) = cell 8 80 0 0 0

abbrev three : TreeMap ℕ ℕ
three = record { root_idx = 1; slots = three_slots; slots_len = 4; free_slots = 2 ∷ [] }

abbrev three_entries : List (ℕ × ℕ)
three_entries = (2, 20) ∷ (5, 50) ∷ (8, 80) ∷ []

three-IsMap : IsMap three three_entries
unfolding same in_pool number_order
three-IsMap = record {
  tree = node 0 (node 1 leaf 2 20 0 leaf) 5 50 0 (node 3 leaf 8 80 0 leaf);
  is_root = refl;
  held = (refl, (refl, tt, tt), (refl, tt, tt));
  balanced =
      ((tt, tt, inr (inl (refl, refl))), (tt, tt, inr (inl (refl, refl))), inr (inl (refl, refl)));
  sorted = ((refl, (refl, tt)), ((refl, tt), (tt, tt)));
  listed = refl;
  places = λ i. ground arith;
  counted = refl;
}

insert-put_example :
    Returns
      (λ p s'. IsMap s' (put 3 30 three_entries) × ((s'.slots p).value ≡ 30))
      (insert 3 30 three)
insert-put_example = insert-put three-IsMap 3 30 (omega arith)

remove-erase_example :
    Returns
      (λ was s'. (was ≡ is_some (lookup 5 three_entries)) × IsMap s' (erase 5 three_entries))
      (remove 5 three)
remove-erase_example = remove-erase three-IsMap 5

get-lookup_example :
    (r : Option ℕ) × (get 8 three ≡ some (r, three)) × (value_of three r ≡ lookup 8 three_entries)
get-lookup_example = get-lookup three-IsMap 8

for_each-entries_example : for_each three ≡ some (three_entries, three)
for_each-entries_example = for_each-entries three-IsMap

find_path-depth_example :
    (path : Walk) × (find_path 8 three ≡ some (path, three))
    × (2 ^ (length path.above / 2) ≤ suc (length three_entries))
find_path-depth_example = find_path-depth three-IsMap 8
