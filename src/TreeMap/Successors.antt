-- ===== src/TreeMap/Successors.antt =====
-- executor/crates/sdk-rs/src/storage/tree_map.rs: the successor of a node that `remove` takes out, and the path
-- on which the successor has its place.
use genvm_executor.Base.{
  ℕ, zero, suc, ◌+◌, ◌≡◌, ◌≤◌, ◌<◌, refl, sym, ap, some, List, [], ◌∷◌, ◌++◌, arith, max,
  suc-ne-zero,
}
use genvm_executor.TreeMap.Slots.{TreeMapNode, TreeMap}
use genvm_executor.TreeMap.Tree.{
  Tree, leaf, node, Around, in_left, in_right, surround, same_self, root_of, occ, height,
  AreBalanced, slot_of, occ_above, path_of, plug, entries_before,
}
use genvm_executor.TreeMap.Held.{Held, AreHeld, node-ok}
use genvm_executor.TreeMap.Removal.{Successor, descend}

module _ {K V : Type 0} where
  -- A way that only goes left.
  abbrev pub AreLeft : List (Around K V) → Type 0
  AreLeft [] = Unit {0}
  AreLeft (in_left p k v d r ∷ above) = AreLeft above
  AreLeft (in_right p k v d l ∷ above) = ⊥

  pub AreLeft-before : (above : List (Around K V)) → AreLeft above → entries_before above ≡ []
  AreLeft-before [] left = refl
  AreLeft-before (in_left p k v d r ∷ above) left = AreLeft-before above left
  AreLeft-before (in_right p k v d l ∷ above) left = absurd left

  -- The leftmost node of a tree, and the way to it.
  pub record Least (s : TreeMap K V) (t : Tree K V) (way : Successor) : Type 0 where
    pub frames : List (Around K V)
    pub slot : ℕ
    pub key : K
    pub value : V
    pub balance : ℕ
    pub right : Tree K V
    pub is_way : way ≡ record { replacement = suc slot; between = path_of frames }
    pub whole : plug frames (node slot leaf key value balance right) ≡ t
    pub held : Held s.slots (node slot leaf key value balance right)
    pub held_above : AreHeld s.slots frames (suc slot)
    pub left : AreLeft frames

  pub descend_lem :
      (s : TreeMap K V) (fuel : ℕ) (q : ℕ) (a : Tree K V) (k : K) (v : V) (d : ℕ) (b : Tree K V)
      (above : List (Around K V))
      → Held s.slots (node q a k v d b)
      → AreHeld s.slots above (suc q)
      → ((i : ℕ) → 1 ≤ occ i (node q a k v d b) → i < s.slots_len)
      → height a < fuel
      → AreLeft above
      → (way : Successor) × (descend fuel (path_of above) (suc q) s ≡ some (way, s))
        × Least s (plug above (node q a k v d b)) way
  unfolding descend
  descend_lem s zero q a k v d b above held up inside enough nothing = absurd (omega arith)
  descend_lem s (suc fuel) q leaf k v d b above (c, hl, hr) up inside enough nothing = (
    _,
    rw (node-ok q s (inside q (omega (arith, same_self q))), c) refl,
    record {
      frames = above;
      slot = q;
      key = k;
      value = v;
      balance = d;
      right = b;
      is_way = refl;
      whole = refl;
      held = (c, hl, hr);
      held_above = up;
      left = nothing;
    },
  )
  descend_lem s (suc fuel) q (node q' a' k' v' d' b') k v d b above (c, hl, hr) up inside enough
        nothing =
      let (way, run, least) =
        descend_lem s fuel q' a' k' v' d' b' (in_left q k v d b ∷ above) hl (c, hr, up)
          (λ i h. inside i (omega arith)) (omega arith) nothing in
      (way, rw (node-ok q s (inside q (omega (arith, same_self q))), c, suc-ne-zero q') run, least)

  pub path_of-append : (xs ys : List (Around K V)) → path_of (xs ++ ys) ≡ path_of xs ++ path_of ys
  path_of-append [] ys = refl
  path_of-append (f ∷ xs) ys = ap (λ path. suc (slot_of f) ∷ path) (path_of-append xs ys)

  pub plug-append :
      (xs ys : List (Around K V)) (t : Tree K V) → plug (xs ++ ys) t ≡ plug ys (plug xs t)
  plug-append [] ys t = refl
  plug-append (f ∷ xs) ys t = plug-append xs ys (surround f t)

  pub occ_above-append :
      (i : ℕ) (xs ys : List (Around K V)) → occ_above i (xs ++ ys) ≡ occ_above i xs + occ_above i ys
  occ_above-append i [] ys = omega arith
  occ_above-append i (f ∷ xs) ys = omega (arith, occ_above-append i xs ys)

  pub append-AreHeld :
      (slots : ℕ → TreeMapNode K V) (xs ys : List (Around K V)) (t : Tree K V)
      → AreHeld slots xs (root_of t)
      → AreHeld slots ys (root_of (plug xs t))
      → AreHeld slots (xs ++ ys) (root_of t)
  append-AreHeld slots [] ys t h h' = h'
  append-AreHeld slots (in_left p k v d r ∷ xs) ys t (c, hr, h) h' =
      (c, hr, append-AreHeld slots xs ys (node p t k v d r) h h')
  append-AreHeld slots (in_right p k v d l ∷ xs) ys t (c, hl, h) h' =
      (c, hl, append-AreHeld slots xs ys (node p l k v d t) h h')

  -- `t` is any tree of the hole's height.
  pub append-AreBalanced :
      (xs ys : List (Around K V)) (t : Tree K V) (h : ℕ)
      → height t ≡ h
      → AreBalanced xs h
      → AreBalanced ys (height (plug xs t))
      → AreBalanced (xs ++ ys) h
  append-AreBalanced [] ys t h e b b' = rw (sym e) b'
  append-AreBalanced (in_left p k v d r ∷ xs) ys t h e (br, sl, b) b' = (
    br,
    sl,
    append-AreBalanced xs ys (node p t k v d r) (suc (max h (height r))) (omega (arith, e)) b b',
  )
  append-AreBalanced (in_right p k v d l ∷ xs) ys t h e (bl, sl, b) b' = (
    bl,
    sl,
    append-AreBalanced xs ys (node p l k v d t) (suc (max (height l) h)) (omega (arith, e)) b b',
  )

  -- The root of a tree with a hole, unless the hole is all of it.
  pub root_of-plug :
      (f : Around K V) (xs : List (Around K V)) (t t' : Tree K V)
      → root_of (plug (f ∷ xs) t) ≡ root_of (plug (f ∷ xs) t')
  root_of-plug (in_left p k v d r) [] t t' = refl
  root_of-plug (in_right p k v d l) [] t t' = refl
  root_of-plug (in_left p k v d r) (g ∷ xs) t t' =
      root_of-plug g xs (node p t k v d r) (node p t' k v d r)
  root_of-plug (in_right p k v d l) (g ∷ xs) t t' =
      root_of-plug g xs (node p l k v d t) (node p l k v d t')
