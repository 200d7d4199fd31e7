-- ===== src/TreeMap/Tree.antt =====
-- executor/crates/sdk-rs/src/storage/tree_map.rs: the trees that a map's slots hold, and trees with a hole, for
-- the paths that the operations keep.
use genvm_executor.Base.{
  ℕ, suc, ◌+◌, ◌≡◌, ◌≢◌, sym, ◌⊎◌, List, [], ◌∷◌, ◌++◌, append_assoc, append-nil, arith, max, ◌==◌,
  if◌then◌else◌,
}

-- A node with its slot, and its `balance`.
pub data Tree (K V : Type 0) : Type 0 where
  leaf : Tree K V
  node : ℕ → Tree K V → K → V → ℕ → Tree K V → Tree K V

-- A node whose left or right child is the hole.
pub data Around (K V : Type 0) : Type 0 where
  in_left : ℕ → K → V → ℕ → Tree K V → Around K V
  in_right : ℕ → K → V → ℕ → Tree K V → Around K V

unfoldable pub same : ℕ → ℕ → ℕ
same i p = if i == p then 1 else 0

pub same_self : (i : ℕ) → same i i ≡ 1
unfolding same
same_self i = ground arith

pub same-ne : (i p : ℕ) → same i p ≡ 0 → i ≢ p
unfolding same
same-ne i p h = ground arith

-- `balance` is the right height less the left one.
abbrev pub IsSlope : ℕ → ℕ → ℕ → Type 0
IsSlope b hl hr = ((b ≡ 255) × (hl ≡ suc hr)) ⊎ (((b ≡ 0) × (hl ≡ hr)) ⊎ ((b ≡ 1) × (hr ≡ suc hl)))

module _ {K V : Type 0} where
  abbrev pub root_of : Tree K V → ℕ
  root_of leaf = 0
  root_of (node p l k v b r) = suc p

  abbrev pub height : Tree K V → ℕ
  height leaf = 0
  height (node p l k v b r) = suc (max (height l) (height r))

  abbrev pub node_count : Tree K V → ℕ
  node_count leaf = 0
  node_count (node p l k v b r) = suc (node_count l + node_count r)

  abbrev pub entries : Tree K V → List (K × V)
  entries leaf = []
  entries (node p l k v b r) = entries l ++ (k, v) ∷ entries r

  -- How often a slot is in a tree.
  abbrev pub occ : ℕ → Tree K V → ℕ
  occ i leaf = 0
  occ i (node p l k v b r) = same i p + occ i l + occ i r

  abbrev pub IsBalanced : Tree K V → Type 0
  IsBalanced leaf = Unit {0}
  IsBalanced (node p l k v b r) = IsBalanced l × IsBalanced r × IsSlope b (height l) (height r)

  abbrev pub surround : Around K V → Tree K V → Tree K V
  surround (in_left p k v b r) t = node p t k v b r
  surround (in_right p k v b l) t = node p l k v b t

  abbrev pub plug : List (Around K V) → Tree K V → Tree K V
  plug [] t = t
  plug (f ∷ above) t = plug above (surround f t)

  abbrev pub slot_of : Around K V → ℕ
  slot_of (in_left p k v b r) = p
  slot_of (in_right p k v b l) = p

  abbrev pub sibling : Around K V → Tree K V
  sibling (in_left p k v b r) = r
  sibling (in_right p k v b l) = l

  -- The code's path, the last index first.
  abbrev pub path_of : List (Around K V) → List ℕ
  path_of [] = []
  path_of (f ∷ above) = suc (slot_of f) ∷ path_of above

  abbrev pub occ_above : ℕ → List (Around K V) → ℕ
  occ_above i [] = 0
  occ_above i (f ∷ above) = same i (slot_of f) + occ i (sibling f) + occ_above i above

  abbrev pub size_above : List (Around K V) → ℕ
  size_above [] = 0
  size_above (f ∷ above) = suc (node_count (sibling f) + size_above above)

  abbrev pub entries_before : List (Around K V) → List (K × V)
  entries_before [] = []
  entries_before (in_left p k v b r ∷ above) = entries_before above
  entries_before (in_right p k v b l ∷ above) = entries_before above ++ entries l ++ (k, v) ∷ []

  abbrev pub entries_after : List (Around K V) → List (K × V)
  entries_after [] = []
  entries_after (in_left p k v b r ∷ above) = (k, v) ∷ entries r ++ entries_after above
  entries_after (in_right p k v b l ∷ above) = entries_after above

  -- Frames around a hole of a height.
  abbrev pub AreBalanced : List (Around K V) → ℕ → Type 0
  AreBalanced [] h = Unit {0}
  AreBalanced (in_left p k v b r ∷ above) h =
      IsBalanced r × IsSlope b h (height r) × AreBalanced above (suc (max h (height r)))
  AreBalanced (in_right p k v b l ∷ above) h =
      IsBalanced l × IsSlope b (height l) h × AreBalanced above (suc (max (height l) h))

  pub occ-plug :
      (i : ℕ) (above : List (Around K V)) (t : Tree K V)
      → occ i (plug above t) ≡ occ i t + occ_above i above
  occ-plug i [] t = omega arith
  occ-plug i (in_left p k v b r ∷ above) t = omega (arith, occ-plug i above (node p t k v b r))
  occ-plug i (in_right p k v b l ∷ above) t = omega (arith, occ-plug i above (node p l k v b t))

  pub node_count-plug :
      (above : List (Around K V)) (t : Tree K V)
      → node_count (plug above t) ≡ node_count t + size_above above
  node_count-plug [] t = omega arith
  node_count-plug (in_left p k v b r ∷ above) t =
      omega (arith, node_count-plug above (node p t k v b r))
  node_count-plug (in_right p k v b l ∷ above) t =
      omega (arith, node_count-plug above (node p l k v b t))

  pub entries-plug :
      (above : List (Around K V)) (t : Tree K V)
      → entries (plug above t) ≡ entries_before above ++ entries t ++ entries_after above
  entries-plug [] t = sym (append-nil (entries t))
  entries-plug (in_left p k v b r ∷ above) t =
      simp (entries-plug above (node p t k v b r), append_assoc)
  entries-plug (in_right p k v b l ∷ above) t =
      simp (entries-plug above (node p l k v b t), append_assoc)

  pub plug-IsBalanced :
      (above : List (Around K V)) (t : Tree K V)
      → IsBalanced t
      → AreBalanced above (height t)
      → IsBalanced (plug above t)
  plug-IsBalanced [] t h a = h
  plug-IsBalanced (in_left p k v b r ∷ above) t h a =
      plug-IsBalanced above (node p t k v b r) (h, a.0, a.1) a.2
  plug-IsBalanced (in_right p k v b l ∷ above) t h a =
      plug-IsBalanced above (node p l k v b t) (a.0, h, a.1) a.2

  -- Balance survives in the other direction too.
  pub plug-AreBalanced :
      (above : List (Around K V)) (t : Tree K V)
      → IsBalanced (plug above t)
      → IsBalanced t × AreBalanced above (height t)
  plug-AreBalanced [] t h = (h, tt)
  plug-AreBalanced (in_left p k v b r ∷ above) t h =
      let (n, a) = plug-AreBalanced above (node p t k v b r) h in (n.0, (n.1, n.2, a))
  plug-AreBalanced (in_right p k v b l ∷ above) t h =
      let (n, a) = plug-AreBalanced above (node p l k v b t) h in (n.1, (n.0, n.2, a))
