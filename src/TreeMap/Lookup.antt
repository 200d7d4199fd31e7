-- ===== src/TreeMap/Lookup.antt =====
-- executor/crates/sdk-rs/src/storage/tree_map.rs: lookup and the walk. A path is a stack: its last index apart,
-- and the others from the bottom up.
use genvm_executor.Base.{
  ℕ, zero, suc, ◌≡◌, refl, ◌⊎◌, inl, inr, Bool, true, false, not, Option, none, some, List, [], ◌∷◌,
  ◌++◌, ◌==◌, if◌then◌else◌,
}
use genvm_executor.TreeMap.Slots.{
  M, pure, panic, ◌>>=◌, node, get_key, get_value, get_left, get_right,
}

-- What the code asks of `K::Value: Ord`, a strict total order.
pub record KeyOrder (K : Type 0) : Type 0 where
  pub lt : K → K → Bool
  pub lt_irrefl : (a : K) → lt a a ≡ false
  pub lt_trans : (a b c : K) → lt a b ≡ true → lt b c ≡ true → lt a c ≡ true
  pub lt_connected : (a b : K) → lt a b ≡ false → lt b a ≡ false → a ≡ b

pub record Walk : Type 0 where
  pub last : ℕ
  pub above : List ℕ
  pub is_left : Bool

-- Where the walk goes on from a node.
pub data Turn : Type 0 where
  go_left : Turn
  go_right : Turn
  found : Turn

pub Turn-cases : (t : Turn) → (t ≡ go_left) ⊎ ((t ≡ go_right) ⊎ (t ≡ found))
Turn-cases go_left = inl refl
Turn-cases go_right = inr (inl refl)
Turn-cases found = inr (inr refl)

module _ {K : Type 0} ⦃o : KeyOrder K⦄ where
  unfoldable pub turn : K → K → Turn
  turn k node_key =
      if o.lt k node_key then go_left else (if o.lt node_key k then go_right else found)

module _ {K V : Type 0} where
  module _ ⦃o : KeyOrder K⦄ where
    -- `none` also when the fuel is out.
    unfoldable pub find_from : K → ℕ → List ℕ → ℕ → Bool → M K V Walk
    find_from k zero above cur is_left = panic
    find_from k (suc fuel) above zero is_left =
        pure (record { last = 0; above = above; is_left = is_left })
    find_from k (suc fuel) above (suc idx) is_left = do
      n ← node (suc idx)
      node_key ← get_key n
      l ← get_left n
      r ← get_right n
      elim (turn k node_key) [
        | go_left ↦ find_from k fuel (suc idx ∷ above) l true
        | go_right ↦ find_from k fuel (suc idx ∷ above) r false
        | found ↦ pure (record { last = suc idx; above = above; is_left = is_left })
      ]

    -- A tree in `n` slots has paths of `n` nodes at most.
    unfoldable pub find_path : K → M K V Walk
    find_path k s = find_from k (suc s.slots_len) [] s.root_idx true s

    unfoldable pub contains_key : K → M K V Bool
    contains_key k = do path ← find_path k; pure (not (path.last == 0))

    unfoldable pub handle_of : ℕ → M K V (Option ℕ)
    handle_of zero = pure none
    handle_of (suc idx) = do n ← node (suc idx); pure (some n)

    -- The handle of the value is its node's.
    unfoldable pub get : K → M K V (Option ℕ)
    get k = do path ← find_path k; handle_of path.last

  unfoldable pub visit_impl : ℕ → List (K × V) → ℕ → M K V (List (K × V))
  visit_impl zero seen idx = panic
  visit_impl (suc fuel) seen zero = pure seen
  visit_impl (suc fuel) seen (suc idx) = do
    n ← node (suc idx)
    l ← get_left n
    before ← visit_impl fuel seen l
    k ← get_key n
    v ← get_value n
    r ← get_right n
    visit_impl fuel (before ++ (k, v) ∷ []) r

  -- The calls of the callback, in their order.
  unfoldable pub for_each : M K V (List (K × V))
  for_each s = visit_impl (suc s.slots_len) [] s.root_idx s
