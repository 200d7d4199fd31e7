-- ===== src/TreeMap/Held.antt =====
-- executor/crates/sdk-rs/src/storage/tree_map.rs: which tree a map's slots hold, and what writes leave of it.
use genvm_executor.Base.{
  refl, inl, inr, ◌==◌, Bool-cases, ℕ, suc, ◌+◌, ◌≡◌, ◌≤◌, ◌≢◌, ◌∙◌, some, List, [], ◌∷◌, arith,
  lt→ltb, ◌<◌,
}
use genvm_executor.TreeMap.Slots.{TreeMapNode, TreeMap, update, index}
use genvm_executor.TreeMap.Slots
use genvm_executor.TreeMap.Tree.{
  Tree, leaf, node, Around, in_left, in_right, same, same_self, same-ne, root_of, occ, plug,
  occ_above,
}

module _ {K V : Type 0} where
  abbrev pub cell : K → V → ℕ → ℕ → ℕ → TreeMapNode K V
  cell k v l r b = record { key = k; value = v; left = l; right = r; balance = b }

  pub update_self :
      (slots : ℕ → TreeMapNode K V) (p : ℕ) (f : TreeMapNode K V → TreeMapNode K V)
      → update slots p f p ≡ f (slots p)
  unfolding update
  update_self slots p f = ground arith

  pub update_ne :
      (slots : ℕ → TreeMapNode K V) (p : ℕ) (f : TreeMapNode K V → TreeMapNode K V) (q : ℕ)
      → q ≢ p
      → update slots p f q ≡ slots q
  unfolding update
  update_ne slots p f q h = ground arith

  pub away :
      (i p : ℕ)
      → same i p ≡ 0
      → (slots : ℕ → TreeMapNode K V) (f : TreeMapNode K V → TreeMapNode K V)
      → update slots p f i ≡ slots i
  away i p h slots f = update_ne slots p f i (same-ne i p h)

  -- Writes of links and balances leave the values.
  value_kept :
      (slots : ℕ → TreeMapNode K V) (p : ℕ) (f : TreeMapNode K V → TreeMapNode K V) (i : ℕ)
      → ((n : TreeMapNode K V) → (f n).value ≡ n.value)
      → (update slots p f i).value ≡ (slots i).value
  unfolding update
  value_kept slots p f i h = elim (Bool-cases (i == p)) [
    | inl e ↦ rw e (h (slots i))
    | inr e ↦ rw e refl
  ]

  pub value_left :
      (slots : ℕ → TreeMapNode K V) (p idx i : ℕ)
      → (update slots p (λ n. record n { left = idx }) i).value ≡ (slots i).value
  value_left slots p idx i = value_kept slots p _ i (λ n. refl)

  pub value_right :
      (slots : ℕ → TreeMapNode K V) (p idx i : ℕ)
      → (update slots p (λ n. record n { right = idx }) i).value ≡ (slots i).value
  value_right slots p idx i = value_kept slots p _ i (λ n. refl)

  pub value_balance :
      (slots : ℕ → TreeMapNode K V) (p b i : ℕ)
      → (update slots p (λ n. record n { balance = b }) i).value ≡ (slots i).value
  value_balance slots p b i = value_kept slots p _ i (λ n. refl)

  abbrev pub Held : (ℕ → TreeMapNode K V) → Tree K V → Type 0
  Held slots leaf = Unit {0}
  Held slots (node p l k v b r) =
      (slots p ≡ cell k v (root_of l) (root_of r) b) × Held slots l × Held slots r

  -- The frames around a hole, to which the lowest one has the index `hole`.
  abbrev pub AreHeld : (ℕ → TreeMapNode K V) → List (Around K V) → ℕ → Type 0
  AreHeld slots [] hole = Unit {0}
  AreHeld slots (in_left p k v b r ∷ above) hole =
      (slots p ≡ cell k v hole (root_of r) b) × Held slots r × AreHeld slots above (suc p)
  AreHeld slots (in_right p k v b l ∷ above) hole =
      (slots p ≡ cell k v (root_of l) hole b) × Held slots l × AreHeld slots above (suc p)

  -- The slots of a tree have not changed.
  abbrev pub Same : (ℕ → TreeMapNode K V) → (ℕ → TreeMapNode K V) → (ℕ → ℕ) → Type 0
  Same old new there = (i : ℕ) → 1 ≤ there i → new i ≡ old i

  pub frame :
      (old new : ℕ → TreeMapNode K V) (t : Tree K V)
      → Same old new (λ i. occ i t)
      → Held old t
      → Held new t
  frame old new leaf h t = tt
  frame old new (node p l k v b r) h (c, hl, hr) = (
    h p (omega (arith, same_self p)) ∙ c,
    frame old new l (λ i o. h i (omega arith)) hl,
    frame old new r (λ i o. h i (omega arith)) hr,
  )

  -- Only slots that `changed` counts have changed.
  abbrev pub Outside : (ℕ → TreeMapNode K V) → (ℕ → TreeMapNode K V) → (ℕ → ℕ) → Type 0
  Outside old new changed = (i : ℕ) → changed i ≡ 0 → new i ≡ old i

  pub kept :
      {old new : ℕ → TreeMapNode K V} {changed : ℕ → ℕ}
      → Outside old new changed
      → (t : Tree K V) → ((i : ℕ) → changed i + occ i t ≤ 1)
      → Held old t
      → Held new t
  kept {old} {new} out t away h = frame old new t (λ i o. out i (omega (arith, away i))) h

  pub frames :
      (old new : ℕ → TreeMapNode K V) (above : List (Around K V)) (hole : ℕ)
      → Same old new (λ i. occ_above i above)
      → AreHeld old above hole
      → AreHeld new above hole
  frames old new [] hole h t = tt
  frames old new (in_left p k v b r ∷ above) hole h (c, hr, up) = (
    h p (omega (arith, same_self p)) ∙ c,
    frame old new r (λ i o. h i (omega arith)) hr,
    frames old new above (suc p) (λ i o. h i (omega arith)) up,
  )
  frames old new (in_right p k v b l ∷ above) hole h (c, hl, up) = (
    h p (omega (arith, same_self p)) ∙ c,
    frame old new l (λ i o. h i (omega arith)) hl,
    frames old new above (suc p) (λ i o. h i (omega arith)) up,
  )

  pub plug-Held :
      (slots : ℕ → TreeMapNode K V) (above : List (Around K V)) (t : Tree K V)
      → Held slots t
      → AreHeld slots above (root_of t)
      → Held slots (plug above t)
  plug-Held slots [] t h a = h
  plug-Held slots (in_left p k v b r ∷ above) t h a =
      plug-Held slots above (node p t k v b r) (a.0, h, a.1) a.2
  plug-Held slots (in_right p k v b l ∷ above) t h a =
      plug-Held slots above (node p l k v b t) (a.0, a.1, h) a.2

  -- `node` finds a slot within the pool.
  pub node-ok : (p : ℕ) (s : TreeMap K V) → p < s.slots_len → Slots.node (suc p) s ≡ some (p, s)
  unfolding Slots.node index
  node-ok p s h = rw (lt→ltb p s.slots_len h)
