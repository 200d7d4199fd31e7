-- ===== src/TreeMap/Search.antt =====
-- executor/crates/sdk-rs/src/storage/tree_map.rs: where `find_path` comes to in the tree of a map.
use genvm_executor.Base.{
  ℕ, zero, suc, ◌≡◌, ◌≤◌, ◌<◌, refl, inl, inr, some, List, [], ◌∷◌, ◌++◌, append_assoc, arith,
}
use genvm_executor.TreeMap.Slots.{TreeMap}
use genvm_executor.TreeMap.Lookup.{
  KeyOrder, Walk, go_left, go_right, found, turn, Turn-cases, find_from,
}
use genvm_executor.TreeMap.Tree.{
  Tree, leaf, node, Around, in_left, in_right, same_self, root_of, occ, height, entries, path_of,
  plug, entries_before, entries_after, node_count,
}
use genvm_executor.TreeMap.Held.{Held, AreHeld, node-ok}
use genvm_executor.TreeMap.Links.{turned_left}
use genvm_executor.TreeMap.Entries.{IsSorted, IsNext, Passed, sorted-Passed, go_right→lt}

module _ {K V : Type 0} where
  pub height-le-node_count : (t : Tree K V) → height t ≤ node_count t
  height-le-node_count leaf = omega arith
  height-le-node_count (node p l k v b r) =
      omega (arith, height-le-node_count l, height-le-node_count r)

  module _ ⦃o : KeyOrder K⦄ where
    -- The way of a key through frames.
    abbrev pub IsWay : K → List (Around K V) → Type 0
    IsWay k [] = Unit {0}
    IsWay k (in_left p k' v b r ∷ above) = (turn k k' ≡ go_left) × IsWay k above
    IsWay k (in_right p k' v b l ∷ above) = (turn k k' ≡ go_right) × IsWay k above

    -- The way ends at the key or outside the tree.
    abbrev pub IsEnd : K → Tree K V → Type 0
    IsEnd k leaf = Unit {0}
    IsEnd k (node p l k' v b r) = turn k k' ≡ found

    pub record Search (s : TreeMap K V) (k : K) (whole : Tree K V) (path : Walk) : Type 0 where
      pub frames : List (Around K V)
      pub end : Tree K V
      pub is_path :
          path ≡ record { last = root_of end; above = path_of frames; is_left = turned_left frames }
      pub is_whole : plug frames end ≡ whole
      pub held : Held s.slots end
      pub held_above : AreHeld s.slots frames (root_of end)
      pub way : IsWay k frames
      pub ends : IsEnd k end

    pub find_from_lem :
        (k : K) (s : TreeMap K V) (fuel : ℕ) (t : Tree K V) (above : List (Around K V))
        → Held s.slots t
        → AreHeld s.slots above (root_of t)
        → ((i : ℕ) → 1 ≤ occ i t → i < s.slots_len)
        → height t < fuel
        → IsWay k above
        → (path : Walk) × (find_from k fuel (path_of above) (root_of t) (turned_left above) s
            ≡ some (path, s))
          × Search s k (plug above t) path
    unfolding find_from
    find_from_lem k s zero t above held up inside enough way = absurd (omega arith)
    find_from_lem k s (suc fuel) leaf above held up inside enough way = (
      _,
      refl,
      record {
        frames = above;
        end = leaf;
        is_path = refl;
        is_whole = refl;
        held = tt;
        held_above = up;
        way = way;
        ends = tt;
      },
    )
    find_from_lem k s (suc fuel) (node p l k' v b r) above (c, hl, hr) up inside enough way =
        elim (Turn-cases (turn k k')) [
          | inl e ↦
              rw (node-ok p s (inside p (omega (arith, same_self p))), c, e, c)
                (find_from_lem k s fuel l (in_left p k' v b r ∷ above) hl (c, hr, up)
                  (λ i o. inside i (omega arith)) (omega arith) (e, way))
          | inr (inl e) ↦
              rw (node-ok p s (inside p (omega (arith, same_self p))), c, e)
                (find_from_lem k s fuel r (in_right p k' v b l ∷ above) hr (c, hl, up)
                  (λ i o. inside i (omega arith)) (omega arith) (e, way))
          | inr (inr e) ↦
              rw (node-ok p s (inside p (omega (arith, same_self p))), c, e)
                (
                  _,
                  refl,
                  record {
                    frames = above;
                    end = node p l k' v b r;
                    is_path = refl;
                    is_whole = refl;
                    held = (c, hl, hr);
                    held_above = up;
                    way = way;
                    ends = e;
                  },
                )
        ]

    pub way-Passed :
        (k : K) (above : List (Around K V)) (rest : List (K × V))
        → IsWay k above
        → IsSorted (entries_before above ++ rest)
        → Passed k (entries_before above)
    way-Passed k [] rest way s = tt
    way-Passed k (in_left p k' v b r ∷ above) rest way s = way-Passed k above rest way.1 s
    way-Passed k (in_right p k' v b l ∷ above) rest way s =
        let s' : IsSorted ((entries_before above ++ entries l) ++ (k', v) ∷ rest) =
          rw (append_assoc (entries_before above ++ entries l) ((k', v) ∷ []) rest) at s in
        let passed =
          sorted-Passed k k' v (entries_before above ++ entries l) rest s'
            (go_right→lt k k' way.0) in
        passed

    pub way-IsNext :
        (k : K) (above : List (Around K V)) → IsWay k above → IsNext k (entries_after above)
    way-IsNext k [] way = tt
    way-IsNext k (in_left p k' v b r ∷ above) way = way.0
    way-IsNext k (in_right p k' v b l ∷ above) way = way-IsNext k above way.1
